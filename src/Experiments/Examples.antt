-- ===== src/Experiments/Examples.antt =====
-- The experiment registry run on concrete inputs, and its theorems applied there.
use xauusd.Prelude.{
  ℕ, String, ◌≡◌, refl, Bool, false, Option, none, some, List, [], ◌∷◌, All, arith,
}
use xauusd.Prelude.Int.{pos}
use xauusd.Number.{Exact, whole, exact, exact-IsOrdered}
use xauusd.Experiments.State.{
  ExperimentStatus, ExperimentSpec, Experiment, RegistryDb, empty_registry,
}
use xauusd.Experiments.Registry.{
  Report, find_experiment, next_queued, register, claim_next, heartbeat, finish, requeue, recover,
  recover_stale, latest_champion, promote_champion, new_experiment, claim_row,
}
use xauusd.Experiments.Calls.{
  RegistryCall, register_call, claim_call, complete_call, requeue_call, recover_stale_call,
  promote_call, registry_call, registry_calls,
}
use xauusd.Experiments.Lifecycle.{
  IsAssigned, IsBounded, assignment_always_holds, retries_stay-IsBounded,
}
use xauusd.Experiments.Outcomes.{row_of, outcome_stands}
use xauusd.Experiments.Queue.{IsClaimed, claim_next-IsClaimed}
use xauusd.Experiments.Champions.{IsRising, champions-IsRising}

abbrev spec_of : String → ExperimentSpec
spec_of fingerprint = record {
  fingerprint = fingerprint;
  strategy_family = "breakout";
  formula = "";
  parameters = "{}";
  dataset_version = "v1";
  dataset_fingerprint = "d1";
  engine_version = "e1";
  cost_model_version = "c1";
  code_commit = none;
}

abbrev say : Experiment → String
say x = "worker heartbeat expired"

abbrev report : Report
report = record {
  metrics = some "{}";
  validation = some "{}";
  artifacts = none;
  error = none;
  promoted = false;
}

-- Two experiments are registered and taken; the first is completed and promoted, the second is lost,
-- retried twice and given up.
abbrev day_calls : List (RegistryCall Exact × ℕ)
day_calls =
    (register_call (spec_of "a") (pos 1), 1)
    ∷ (register_call (spec_of "b") (pos 5), 2)
    ∷ (claim_call "w1", 3)
    ∷ (claim_call "w2", 4)
    ∷ (complete_call 1 "w2" report, 5)
    ∷ (promote_call "v1" 1 (whole (pos 2)) (whole (pos 1)), 6)
    ∷ (requeue_call 2 "w1" "timeout" "remote" (some 2), 7)
    ∷ (claim_call "w1", 8)
    ∷ (recover_stale_call 9, 9)
    ∷ (claim_call "w3", 10)
    ∷ (requeue_call 2 "w3" "timeout" "remote" (some 2), 11)
    ∷ (promote_call "v1" 2 (whole (pos 3)) (whole (pos 1)), 12)
    ∷ (promote_call "v1" 1 (whole (pos 3)) (whole (pos 1)), 13)
    ∷ []

abbrev day_end : RegistryDb Exact
day_end = registry_calls say day_calls empty_registry

abbrev status_in : ℕ → RegistryDb Exact → Option (ExperimentStatus × ℕ)
status_in id db = elim (row_of id db.experiments) [
  | none ↦ none
  | some x ↦ some (x.status, x.retry_count)
]

-- The first ends completed, the second failed after two retries.
day_ends :
    (status_in 1 day_end ≡ some (ExperimentStatus.completed, 0))
    × (status_in 2 day_end ≡ some (ExperimentStatus.failed, 2))
unfolding registry_calls registry_call register claim_next heartbeat finish requeue recover
    recover_stale find_experiment next_queued latest_champion promote_champion
day_ends = (refl, refl)

assignment_always_holds_example : All IsAssigned day_end.experiments
assignment_always_holds_example = assignment_always_holds say day_calls

retries_stay-IsBounded_example : All (IsBounded 2) day_end.experiments
retries_stay-IsBounded_example =
    retries_stay-IsBounded say 2 day_calls (omega arith)
      (tt, (tt, (tt, (tt, (tt, (tt, (refl, (tt, (tt, (tt, (refl, (tt, (tt, tt)))))))))))))

champions-IsRising_example : IsRising "v1" day_end.champions
champions-IsRising_example =
    champions-IsRising say exact-IsOrdered "v1" day_calls
      (tt, (tt, (tt, (tt, (tt, (refl, (tt, (tt, (tt, (tt, (tt, (refl, (refl, tt)))))))))))))

-- Before the last two claims of the second experiment, the first is already completed.
abbrev morning : RegistryDb Exact
morning =
    registry_calls say
      ((register_call (spec_of "a") (pos 1), 1)
        ∷ (claim_call "w2", 4)
        ∷ (complete_call 1 "w2" report, 5)
        ∷ (register_call (spec_of "b") (pos 0), 6)
        ∷ (register_call (spec_of "c") (pos 7), 7)
        ∷ [])
      empty_registry

abbrev finished_row : Experiment
finished_row = record (claim_row "w2" 4 (new_experiment 1 (spec_of "a") (pos 1))) {
  status = ExperimentStatus.completed;
  finished_at = some 5;
  heartbeat_at = some 5;
  metrics = some "{}";
  validation = some "{}";
}

morning_row : row_of 1 morning.experiments ≡ some finished_row
unfolding registry_calls registry_call register claim_next finish find_experiment next_queued
morning_row = refl

outcome_stands_example :
    (b : Bool) × (row_of 1 (registry_calls say day_calls morning).experiments
      ≡ some (record finished_row { promoted = b }))
outcome_stands_example = outcome_stands say day_calls morning 1 finished_row morning_row refl

claim_next-IsClaimed_example : IsClaimed "w9" 20 morning.experiments (claim_next "w9" 20 morning).0
claim_next-IsClaimed_example = claim_next-IsClaimed "w9" 20 morning
