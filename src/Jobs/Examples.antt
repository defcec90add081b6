-- ===== src/Jobs/Examples.antt =====
-- The table of jobs run on concrete inputs, and its theorems applied there.
use xauusd.Prelude.{ℕ, String, ◌≤◌, ◌≡◌, refl, true, false, List, [], ◌∷◌, map}
use xauusd.Jobs.Store.{
  JobRow, JobStatus, Action, find_job, claim, finish_job, running_results, finish_interrupted,
  recover_jobs, new_result, prune_jobs, rows_by, delete_oldest,
}
use xauusd.Jobs.Start.{ShellTools, ShellAction, IsStart, start_job, start_job-IsStart}
use xauusd.Jobs.Prune.{IsPruned, prune_jobs-IsPruned}
use xauusd.Jobs.Once.{
  JobCall, claim_call, finish_call, recover_call, has_job, job_call, is_start, starts, starts_once,
}

abbrev digest : String → String
digest t = t

abbrev action : Action
action = record { id = "a1"; payload = "ls" }

-- The action is claimed, interrupted, claimed again after the restart, and finished.
abbrev calls : List (JobCall × ℕ)
calls =
    (claim_call "c1" action "j1", 1)
    ∷ (recover_call, 2)
    ∷ (claim_call "c1" action "j2", 3)
    ∷ (finish_call (record (new_result action "j1" 1) { status = JobStatus.succeeded }), 4)
    ∷ (claim_call "c1" action "j3", 5)
    ∷ []

one_start : starts digest "c1:a1" calls [] ≡ 1
unfolding starts is_start job_call claim find_job finish_job recover_jobs running_results
    finish_interrupted
one_start = refl

starts_once_example :
    (starts digest "c1:a1" calls [] ≤ 1)
    × (has_job "c1:a1" [] ≡ true → starts digest "c1:a1" calls [] ≡ 0)
starts_once_example = starts_once digest "c1:a1" calls []

abbrev job_row_of : String → JobStatus → JobRow
job_row_of id status = record {
  action_key = id;
  job_id = id;
  request = "ls";
  result = record (new_result action id 1) { status = status };
  status = status;
}

abbrev rows : List JobRow
rows =
    job_row_of "1" JobStatus.running
    ∷ job_row_of "2" JobStatus.succeeded
    ∷ job_row_of "3" JobStatus.unknown
    ∷ job_row_of "4" JobStatus.failed
    ∷ job_row_of "5" JobStatus.timed_out
    ∷ []

pruned_ids : map (λ x. x.job_id) (prune_jobs 1 rows).1 ≡ "1" ∷ "3" ∷ "5" ∷ []
unfolding prune_jobs rows_by delete_oldest
pruned_ids = refl

prune_jobs-IsPruned_example : IsPruned 1 rows (prune_jobs 1 rows)
prune_jobs-IsPruned_example = prune_jobs-IsPruned 1 rows

abbrev tools : ShellTools
tools = record {
  digest = digest;
  validates = λ a. true;
  canonical_json = λ a. a.rest;
  unsafe = λ t. false;
}

abbrev long_action : ShellAction
long_action = record { id = "a2"; timeout_sec = 3600; rest = "sleep" }

start_job-IsStart_example :
    IsStart tools false long_action rows (start_job tools false "c1" long_action "j9" 6 rows).1
start_job-IsStart_example = start_job-IsStart tools false "c1" long_action "j9" 6 rows
