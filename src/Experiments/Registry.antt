-- ===== src/Experiments/Registry.antt =====
-- The methods of `ExperimentRegistry` that change its tables. A method is one transaction, and
-- transactions are taken one after another; nothing (`none`) stands for the exception that rolls one
-- back.
use text.Mathlib.Text.{◌==◌ as str_eq}
use xauusd.Prelude.{
  ℕ, String, ◌+◌, Bool, true, false, not, ◌&&◌, ◌||◌, if◌then◌else◌, Option, none, some, List, [],
  ◌∷◌, ◌++◌, map, ltb, leb, ◌==◌,
}
use xauusd.Prelude.Int.{ℤ, ltb_ℤ}
use xauusd.Number.{Number, le}
use xauusd.Experiments.State.{
  ExperimentStatus, ExperimentSpec, Experiment, EventKind, RegistryEvent, Champion, RegistryDb,
}

-- `UPDATE experiments SET ... WHERE ...`
abbrev pub update_where :
    (Experiment → Bool) → (Experiment → Experiment) → List Experiment → List Experiment
update_where test change xs = map (λ x. if test x then change x else x) xs

pub filter_experiments : (Experiment → Bool) → List Experiment → List Experiment
filter_experiments test [] = []
filter_experiments test (x ∷ xs) =
    let rest = filter_experiments test xs in if test x then x ∷ rest else rest

-- The first row that passes a test.
unfoldable pub find_experiment : (Experiment → Bool) → List Experiment → Option Experiment
find_experiment test [] = none
find_experiment test (x ∷ xs) =
    let rest = find_experiment test xs in if test x then some x else rest

abbrev pub means_queued : ExperimentStatus → Bool
means_queued ExperimentStatus.queued = true
means_queued _ = false

abbrev pub means_running : ExperimentStatus → Bool
means_running ExperimentStatus.running = true
means_running _ = false

abbrev pub is_queued : Experiment → Bool
is_queued x = means_queued x.status

abbrev pub is_running : Experiment → Bool
is_running x = means_running x.status

abbrev pub has_worker : String → Experiment → Bool
has_worker worker_id x = elim x.worker_id [ none ↦ false | some w ↦ str_eq w worker_id ]

-- `id=? AND status='running' AND worker_id=?`
abbrev pub is_owned : ℕ → String → Experiment → Bool
is_owned id worker_id x = x.id == id && (is_running x && has_worker worker_id x)

abbrev pub event_of : EventKind → ℕ → Experiment → RegistryEvent
event_of event now x = record { experiment_id = x.id; event = event; occurred_at = now }

-- What a worker hands in.
pub record Report : Type 0 where
  pub metrics : Option String
  pub validation : Option String
  pub artifacts : Option String
  pub error : Option String
  pub promoted : Bool

-- The row that the queue hands out before another: the higher priority, then the smaller id.
abbrev pub comes_before : Experiment → Experiment → Bool
comes_before x y =
    ltb_ℤ y.priority x.priority || (not (ltb_ℤ x.priority y.priority) && leb x.id y.id)

abbrev pub first_of : Experiment → Option Experiment → Experiment
first_of x none = x
first_of x (some y) = if comes_before x y then x else y

-- `ORDER BY priority DESC,id LIMIT 1` among the queued rows.
unfoldable pub next_queued : List Experiment → Option Experiment
next_queued [] = none
next_queued (x ∷ xs) =
    let rest = next_queued xs in if is_queued x then some (first_of x rest) else rest

abbrev pub is_present : {A : Type 0} → Option A → Bool
is_present none = false
is_present (some a) = true

abbrev pub new_experiment : ℕ → ExperimentSpec → ℤ → Experiment
new_experiment id spec priority = record {
  id = id;
  spec = spec;
  status = ExperimentStatus.queued;
  priority = priority;
  worker_id = none;
  started_at = none;
  finished_at = none;
  heartbeat_at = none;
  metrics = none;
  validation = none;
  artifacts = none;
  error = none;
  failure_code = none;
  promoted = false;
  retry_count = 0;
}

abbrev pub claim_row : String → ℕ → Experiment → Experiment
claim_row worker_id now x = record x {
  status = ExperimentStatus.running;
  worker_id = some worker_id;
  started_at = some now;
  heartbeat_at = some now;
}

abbrev pub finish_row : ExperimentStatus → Report → ℕ → Experiment → Experiment
finish_row status r now x = record x {
  status = status;
  finished_at = some now;
  heartbeat_at = some now;
  metrics = r.metrics;
  validation = r.validation;
  artifacts = r.artifacts;
  error = r.error;
  promoted = r.promoted;
}

-- Whether a further failure is the last one.
abbrev pub is_last_retry : ℕ → Option ℕ → Bool
is_last_retry retry_count none = false
is_last_retry retry_count (some max_retries) = leb max_retries retry_count

abbrev pub requeue_row : ℕ → String → String → ℕ → Option ℕ → Experiment → Experiment
requeue_row retry_count error failure_code now max_retries x =
    let is_terminal = is_last_retry retry_count max_retries in
    record x {
      status = if is_terminal then ExperimentStatus.failed else ExperimentStatus.queued;
      worker_id = none;
      started_at = none;
      heartbeat_at = none;
      finished_at = if is_terminal then some now else none;
      error = some error;
      failure_code = some failure_code;
      retry_count = retry_count;
    }

abbrev pub recover_row : String → Experiment → Experiment
recover_row error x = record x {
  status = ExperimentStatus.queued;
  worker_id = none;
  started_at = none;
  heartbeat_at = none;
  error = some error;
}

abbrev pub has_fingerprint : ExperimentSpec → Experiment → Bool
has_fingerprint spec x = str_eq x.spec.fingerprint spec.fingerprint

module _ {F : Type 0} where
  abbrev pub log : EventKind → ℕ → ℕ → RegistryDb F → RegistryDb F
  log event id now db = record db {
    events = db.events ++ record { experiment_id = id; event = event; occurred_at = now } ∷ [];
  }

  -- The row of the fingerprint, and whether it is new.
  unfoldable pub register :
      ExperimentSpec → ℤ → ℕ → RegistryDb F → (Experiment × Bool) × RegistryDb F
  register spec priority now db = elim (find_experiment (has_fingerprint spec) db.experiments) [
    | some x ↦ ((x, false), record db { next_id = db.next_id + 1 })
    | none ↦
        let x = new_experiment db.next_id spec priority in
        (
          (x, true),
          log EventKind.registered db.next_id now
              (record db { experiments = db.experiments ++ x ∷ []; next_id = db.next_id + 1 }),
        )
  ]

  -- Transactions are serial here, so `FOR UPDATE SKIP LOCKED` finds no locked row to pass over.
  unfoldable pub claim_next : String → ℕ → RegistryDb F → Option Experiment × RegistryDb F
  claim_next worker_id now db = elim (next_queued db.experiments) [
    | none ↦ (none, db)
    | some x ↦ (
      some (claim_row worker_id now x),
      log (EventKind.claimed worker_id) x.id now (record db {
        experiments =
            update_where (λ y. y.id == x.id && is_queued y) (claim_row worker_id now)
              db.experiments;
      }),
    )
  ]

  unfoldable pub heartbeat : ℕ → String → ℕ → RegistryDb F → Option (RegistryDb F)
  heartbeat id worker_id now db =
      if is_present (find_experiment (is_owned id worker_id) db.experiments)
      then some (record db {
        experiments =
            update_where (is_owned id worker_id) (λ x. record x { heartbeat_at = some now })
              db.experiments;
      })
      else none

  -- `_finish`, behind `complete` and `fail`.
  unfoldable pub finish :
      ExperimentStatus → EventKind → ℕ → String → Report → ℕ → RegistryDb F → Option (RegistryDb F)
  finish status event id worker_id r now db =
      if is_present (find_experiment (is_owned id worker_id) db.experiments)
      then some (
          log event id now (record db {
            experiments =
                update_where (is_owned id worker_id) (finish_row status r now) db.experiments;
          }))
      else none

  abbrev pub complete : ℕ → String → Report → ℕ → RegistryDb F → Option (RegistryDb F)
  complete = finish ExperimentStatus.completed EventKind.completed_event

  abbrev pub fail : ℕ → String → String → Option String → ℕ → RegistryDb F → Option (RegistryDb F)
  fail id worker_id error artifacts now db =
      finish ExperimentStatus.failed EventKind.failed_event id worker_id
        (record {
          metrics = none;
          validation = none;
          artifacts = artifacts;
          error = some error;
          promoted = false;
        })
        now db

  unfoldable pub requeue :
      ℕ → String → String → String → Option ℕ → ℕ → RegistryDb F → Option (RegistryDb F)
  requeue id worker_id error failure_code max_retries now db =
      elim (find_experiment (is_owned id worker_id) db.experiments) [
        | none ↦ none
        | some row ↦
            let retry_count = row.retry_count + 1 in
            some (
              log
                (if is_last_retry retry_count max_retries
                  then EventKind.failed_retry_limit
                  else EventKind.requeued_remote_error)
                id now
                (record db {
                  experiments =
                      update_where (is_owned id worker_id)
                        (requeue_row retry_count error failure_code now max_retries) db.experiments;
                }))
      ]

  -- The three recoveries: the running rows that pass a test go back into the queue. The source's
  -- SELECT and its UPDATE of each row by id are one step here, since the transaction is serial. The
  -- texts that the source writes into `error` are of `message`.
  unfoldable pub recover :
      (Experiment → Bool)
      → (Experiment → String)
      → EventKind
      → ℕ
      → RegistryDb F
      → List Experiment × RegistryDb F
  recover test message event now db =
      let rows = filter_experiments (λ x. is_running x && test x) db.experiments in
      (
        rows,
        record db {
          experiments =
              map (λ x. if is_running x && test x then recover_row (message x) x else x)
                db.experiments;
          events = db.events ++ map (event_of event now) rows;
        },
      )

abbrev pub is_stale : ℕ → Experiment → Bool
is_stale threshold x = elim x.heartbeat_at [ none ↦ false | some t ↦ ltb t threshold ]

-- `worker_id<>?`, which an absent worker does not pass.
abbrev pub is_other_worker : String → Experiment → Bool
is_other_worker active x = elim x.worker_id [ none ↦ false | some w ↦ not (str_eq w active) ]

-- `like` is SQL's LIKE with a prefix pattern. An empty active prefix is none.
abbrev pub is_replaced : (String → String → Bool) → String → Option String → Experiment → Bool
is_replaced like prefix active x = elim x.worker_id [
  | none ↦ false
  | some w ↦ like w prefix && elim active [ none ↦ true | some a ↦ str_eq a "" || not (like w a) ]
]

-- The texts that the source writes into `error` are of `message`.
module _ {F : Type 0} (message : Experiment → String) (now : ℕ) where
  unfoldable pub recover_stale : ℕ → RegistryDb F → List Experiment × RegistryDb F
  recover_stale threshold db = recover (is_stale threshold) message EventKind.requeued_stale now db

  unfoldable pub recover_other_workers : String → RegistryDb F → List Experiment × RegistryDb F
  recover_other_workers active db =
      recover (is_other_worker active) message EventKind.requeued_replaced_worker now db

  unfoldable pub recover_worker_prefix :
      (String → String → Bool)
      → String
      → Option String
      → RegistryDb F
      → List Experiment × RegistryDb F
  recover_worker_prefix like prefix active db =
      recover (is_replaced like prefix active) message EventKind.requeued_replaced_pool_worker now
        db

-- The champion of a dataset: the last of its history.
unfoldable pub latest_champion : {F : Type 0} → String → List (Champion F) → Option (Champion F)
latest_champion dataset_version [] = none
latest_champion dataset_version (c ∷ cs) =
    let rest = latest_champion dataset_version cs in
    if is_present rest
    then rest
    else if str_eq c.dataset_version dataset_version
    then some c
    else none

module _ {F : Type 0} ⦃n : Number F⦄ where
  -- Whether the champion so far keeps a challenger of the given score out.
  abbrev pub keeps_out : F → Option (Champion F) → Bool
  keeps_out validation_score none = false
  keeps_out validation_score (some c) = le validation_score c.validation_score

  abbrev pub id_of : Option (Champion F) → Option ℕ
  id_of none = none
  id_of (some c) = some c.experiment_id

  abbrev pub champion_of : String → ℕ → Option (Champion F) → F → F → ℕ → Champion F
  champion_of dataset_version id previous validation_score holdout_score now = record {
    dataset_version = dataset_version;
    experiment_id = id;
    previous_experiment_id = id_of previous;
    promoted_at = now;
    validation_score = validation_score;
    holdout_score = holdout_score;
  }

  unfoldable pub promote_champion : String → ℕ → F → F → ℕ → RegistryDb F → Option (RegistryDb F)
  promote_champion dataset_version id validation_score holdout_score now db =
      let previous = latest_champion dataset_version db.champions in
      if keeps_out validation_score previous
      then none
      else some (
          log EventKind.champion_promoted id now (record db {
            experiments =
                update_where (λ x. x.id == id) (λ x. record x { promoted = true })
                  (update_where (λ x. str_eq x.spec.dataset_version dataset_version && x.promoted)
                    (λ x. record x { promoted = false }) db.experiments);
            champions =
                db.champions
                ++ champion_of dataset_version id previous validation_score holdout_score now ∷ [];
          }))
