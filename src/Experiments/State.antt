-- ===== src/Experiments/State.antt =====
-- The tables of the experiment registry. An instant is a number of microseconds; the reports that a
-- worker hands in are kept as the texts that the table holds.
use xauusd.Prelude.{ℕ, String, Bool, Option, List, []}
use xauusd.Prelude.Int.{ℤ}

pub data ExperimentStatus : Type 0 where
  queued running completed failed cancelled : ExperimentStatus

-- What identifies an experiment; its fingerprint is a digest of the rest.
pub record ExperimentSpec : Type 0 where
  pub fingerprint : String
  pub strategy_family : String
  pub formula : String
  pub parameters : String
  pub dataset_version : String
  pub dataset_fingerprint : String
  pub engine_version : String
  pub cost_model_version : String
  pub code_commit : Option String

-- A row without its time of creation, which no method reads but to print it.
pub record Experiment : Type 0 where
  pub id : ℕ
  pub spec : ExperimentSpec
  pub status : ExperimentStatus
  pub priority : ℤ
  pub worker_id : Option String
  pub started_at : Option ℕ
  pub finished_at : Option ℕ
  pub heartbeat_at : Option ℕ
  pub metrics : Option String
  pub validation : Option String
  pub artifacts : Option String
  pub error : Option String
  pub failure_code : Option String
  pub promoted : Bool
  pub retry_count : ℕ

pub data EventKind : Type 0 where
  registered completed_event failed_event failed_retry_limit requeued_remote_error : EventKind
  requeued_stale requeued_replaced_worker requeued_replaced_pool_worker champion_promoted :
      EventKind
  claimed : String → EventKind

pub record RegistryEvent : Type 0 where
  pub experiment_id : ℕ
  pub event : EventKind
  pub occurred_at : ℕ

pub record Champion (F : Type 0) : Type 0 where
  pub dataset_version : String
  pub experiment_id : ℕ
  pub previous_experiment_id : Option ℕ
  pub promoted_at : ℕ
  pub validation_score : F
  pub holdout_score : F

-- The tables, each in the order of its ids, and the next value of the experiments' sequence.
pub record RegistryDb (F : Type 0) : Type 0 where
  pub experiments : List Experiment
  pub events : List RegistryEvent
  pub champions : List (Champion F)
  pub next_id : ℕ

abbrev pub empty_registry : {F : Type 0} → RegistryDb F
empty_registry = record { experiments = []; events = []; champions = []; next_id = 1 }
