-- ===== src/Jobs/Store.antt =====
-- `BitsStore` of xauusd/bits_jobs.py: the table of shell jobs in the order of its row ids. An instant is a
-- number of microseconds. The digest behind a key and the JSON text of an action are parameters.
use text.Mathlib.Text.{◌==◌ as str_eq}
use Prim.Native.String.{◌++◌ as append_text}
use xauusd.Prelude.{
  ℕ, String, ◌-◌, Bool, true, false, ◌&&◌, if◌then◌else◌, Option, none, some, List, [], ◌∷◌, ◌++◌,
  map, ltb, leb, length,
}
use xauusd.Prelude.Int.{ℤ}

pub data JobStatus : Type 0 where
  running succeeded failed cancelled timed_out unknown : JobStatus

pub record JobResult : Type 0 where
  pub action_id : String
  pub job_id : String
  pub status : JobStatus
  pub exit_code : Option ℤ
  pub stdout : String
  pub stderr : String
  pub truncated : Bool
  pub total_bytes : ℕ
  pub created_at : ℕ
  pub finished_at : Option ℕ

pub record JobRow : Type 0 where
  pub action_key : String
  pub job_id : String
  pub request : String
  pub result : JobResult
  pub status : JobStatus

-- An action with the text of its JSON.
pub record Action : Type 0 where
  pub id : String
  pub payload : String

-- What `claim` comes to; a conflict is an exception.
pub data Claim : Type 0 where
  claimed : JobResult → Bool → Claim
  action_id_conflict : Claim

-- The four statuses that `finish` and `prune` name.
abbrev pub is_terminal : JobStatus → Bool
is_terminal JobStatus.succeeded = true
is_terminal JobStatus.failed = true
is_terminal JobStatus.cancelled = true
is_terminal JobStatus.timed_out = true
is_terminal JobStatus.running = false
is_terminal JobStatus.unknown = false

abbrev pub means_running : JobStatus → Bool
means_running JobStatus.running = true
means_running _ = false

unfoldable pub find_job : String → List JobRow → Option JobRow
find_job key [] = none
find_job key (x ∷ xs) =
    let rest = find_job key xs in if str_eq x.action_key key then some x else rest

abbrev pub new_result : Action → String → ℕ → JobResult
new_result action job_id now = record {
  action_id = action.id;
  job_id = job_id;
  status = JobStatus.running;
  exit_code = none;
  stdout = "";
  stderr = "";
  truncated = false;
  total_bytes = 0;
  created_at = now;
  finished_at = none;
}

-- `sha256(cycle + ":" + action["id"])`
abbrev pub key_of_action : (String → String) → String → Action → String
key_of_action digest cycle action = digest (append_text cycle (append_text ":" action.id))

-- The job of an action, and whether it is new.
unfoldable pub claim :
    (String → String) → String → Action → String → ℕ → List JobRow → Claim × List JobRow
claim digest cycle action job_id now rows =
    let key = key_of_action digest cycle action in
    elim (find_job key rows) [
      | some row ↦ (
        if str_eq row.request action.payload then claimed row.result false else action_id_conflict,
        rows,
      )
      | none ↦
          let result = new_result action job_id now in
          (
            claimed result true,
            rows
                ++ record {
                  action_key = key;
                  job_id = job_id;
                  request = action.payload;
                  result = result;
                  status = JobStatus.running;
                }
                  ∷ [],
          )
    ]

-- `setdefault("finished_at", now)`
abbrev pub or_now : ℕ → Option ℕ → Option ℕ
or_now now none = some now
or_now now (some t) = some t

abbrev pub stamp : ℕ → JobResult → JobResult
stamp now r =
    if is_terminal r.status then record r { finished_at = or_now now r.finished_at } else r

abbrev pub finish_job_row : JobResult → JobRow → JobRow
finish_job_row r x =
    if str_eq x.job_id r.job_id then record x { result = r; status = r.status } else x

unfoldable pub finish_job : JobResult → ℕ → List JobRow → List JobRow
finish_job r now rows = map (finish_job_row (stamp now r)) rows

-- What `recover` writes over the result of a running job.
abbrev pub interrupted : JobResult → JobResult
interrupted r = record r {
  status = JobStatus.unknown;
  stderr = "process interrupted; reconcile effects before any retry";
}

unfoldable pub running_results : List JobRow → List JobResult
running_results [] = []
running_results (x ∷ xs) =
    let rest = running_results xs in if means_running x.status then x.result ∷ rest else rest

unfoldable pub finish_interrupted : List JobResult → ℕ → List JobRow → List JobRow
finish_interrupted [] now rows = rows
finish_interrupted (r ∷ rs) now rows =
    finish_interrupted rs now (finish_job (interrupted r) now rows)

unfoldable pub recover_jobs : ℕ → List JobRow → ℕ × List JobRow
recover_jobs now rows =
    let results = running_results rows in (length results, finish_interrupted results now rows)

-- The rows whose status is terminal, or is not.
unfoldable pub rows_by : Bool → List JobRow → List JobRow
rows_by false [] = []
rows_by true [] = []
rows_by true (x ∷ xs) =
    let rest = rows_by true xs in if is_terminal x.status then x ∷ rest else rest
rows_by false (x ∷ xs) =
    let rest = rows_by false xs in if is_terminal x.status then rest else x ∷ rest

-- `DELETE ... WHERE status IN (...) ORDER BY rowid LIMIT k`
unfoldable pub delete_oldest : ℕ → List JobRow → List JobRow
delete_oldest k [] = []
delete_oldest k (x ∷ xs) =
    let kept = delete_oldest k xs in
    let deleted = delete_oldest (k - 1) xs in
    if is_terminal x.status && ltb 0 k then deleted else x ∷ kept

-- What `prune` reports and leaves.
unfoldable pub prune_jobs : ℕ → List JobRow → ℕ × List JobRow
prune_jobs keep rows =
    let total = length (rows_by true rows) in
    if leb total keep then (0, rows) else (total - keep, delete_oldest (total - keep) rows)
