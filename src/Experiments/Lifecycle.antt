-- ===== src/Experiments/Lifecycle.antt =====
-- What holds of every experiment, whatever the workers call: who owns it, how often it is retried,
-- and that an outcome stands.
use xauusd.Prelude.{
  ℕ, String, ◌≤◌, ◌<◌, ◌≡◌, Bool, true, false, Option, none, some, List, [], ◌∷◌, arith, ap, All,
}
use xauusd.Prelude.Int.{ℤ}
use xauusd.Number.{Number}
use xauusd.Experiments.State.{
  ExperimentStatus, ExperimentSpec, Experiment, RegistryDb, empty_registry,
}
use xauusd.Experiments.Registry.{new_experiment, is_present}
use xauusd.Experiments.Calls.{
  RegistryCall, registry_call, registry_calls, register_call, claim_call, heartbeat_call,
  complete_call, fail_call, requeue_call, recover_stale_call, recover_other_workers_call,
  recover_worker_prefix_call, promote_call,
}
use xauusd.Experiments.Moves.{
  Move, stays, claims, beats, completes, fails, retries, recovers, flags, Moves, last, adds, next,
}
use xauusd.Experiments.Steps.{IsLimited, call-Moves}

-- The statuses that no call leaves.
abbrev pub is_final : ExperimentStatus → Bool
is_final ExperimentStatus.completed = true
is_final ExperimentStatus.failed = true
is_final ExperimentStatus.cancelled = true
is_final ExperimentStatus.queued = false
is_final ExperimentStatus.running = false

-- A queued experiment has no worker and no heartbeat; a running one has both.
abbrev pub IsAssigned : Experiment → Type 0
IsAssigned x =
    (x.status ≡ ExperimentStatus.queued
      → (x.worker_id ≡ none) × (x.started_at ≡ none) × (x.heartbeat_at ≡ none))
    × (x.status ≡ ExperimentStatus.running
        → (is_present x.worker_id ≡ true)
          × (is_present x.started_at ≡ true)
          × (is_present x.heartbeat_at ≡ true))

module _ (P Q : Experiment → Type 0) (L : Option ℕ → Type 0) where
  Moves-All :
      ((x y : Experiment) → Move Q L x y → P x → P y)
      → ((id : ℕ) (spec : ExperimentSpec) (priority : ℤ) → P (new_experiment id spec priority))
      → (xs ys : List Experiment) → Moves Q L xs ys
      → All P xs
      → All P ys
  Moves-All keep new [] _ last h = tt
  Moves-All keep new [] _ (adds id spec priority) h = (new id spec priority, tt)
  Moves-All keep new (x ∷ xs) _ (next {y = y} {ys = ys} m ms) h =
      (keep x y m h.0, Moves-All keep new xs ys ms h.1)

module _ {F : Type 0} ⦃n : Number F⦄ (message : Experiment → String) where
  -- A property that every step keeps holds of every row that any calls leave.
  pub calls-All :
      (P : Experiment → Type 0) (L : Option ℕ → Type 0)
      → ((x y : Experiment) → Move P L x y → P x → P y)
      → ((id : ℕ) (spec : ExperimentSpec) (priority : ℤ) → P (new_experiment id spec priority))
      → (cs : List (RegistryCall F × ℕ)) (db : RegistryDb F) → All (λ c. IsLimited L c.0) cs
      → All P db.experiments
      → All P (registry_calls message cs db).experiments
  unfolding registry_calls
  calls-All P L keep new [] db l h = h
  calls-All P L keep new ((c, now) ∷ cs) db l h =
      calls-All P L keep new cs (registry_call message c now db) l.1 (
        Moves-All P P L keep new db.experiments (registry_call message c now db).experiments
          (call-Moves P L message c now db l.0 h) h)

abbrev pub AnyLimit : Option ℕ → Type 0
AnyLimit limit = Unit

Move-IsAssigned : (x y : Experiment) → Move IsAssigned AnyLimit x y → IsAssigned x → IsAssigned y
Move-IsAssigned x _ stays h = h
Move-IsAssigned x _ (claims worker now on) h = ground arith
Move-IsAssigned x _ (beats now on) h = ground arith
Move-IsAssigned x _ (completes r now on) h = ground arith
Move-IsAssigned x _ (fails r now on) h = ground arith
Move-IsAssigned x _ (retries read error code now limit q ran l on) h = ground arith
Move-IsAssigned x _ (recovers error on) h = ground arith
Move-IsAssigned x _ (flags promoted) h = h

-- An experiment that may run again has failed less often than the limit.
abbrev pub IsBounded : ℕ → Experiment → Type 0
IsBounded limit x = (x.retry_count ≤ limit) × (is_final x.status ≡ false → x.retry_count < limit)

Move-IsBounded :
    (limit : ℕ) (x y : Experiment)
    → Move (IsBounded limit) (λ l. l ≡ some limit) x y
    → IsBounded limit x
    → IsBounded limit y
Move-IsBounded limit x _ stays h = h
Move-IsBounded limit x _ (claims worker now on) h = (h.0, λ e. h.1 (ap is_final on))
Move-IsBounded limit x _ (beats now on) h = h
Move-IsBounded limit x _ (completes r now on) h = (h.0, λ e. cc)
Move-IsBounded limit x _ (fails r now on) h = (h.0, λ e. cc)
Move-IsBounded limit x _ (retries read error code now l q ran limited on) h =
    let low = q.1 (ap is_final ran) in ground arith
Move-IsBounded limit x _ (recovers error on) h = (h.0, λ e. h.1 (ap is_final on))
Move-IsBounded limit x _ (flags promoted) h = h

pub AnyLimit-call : {F : Type 0} (c : RegistryCall F) → IsLimited AnyLimit c
AnyLimit-call (requeue_call id worker error code limit) = tt
AnyLimit-call (register_call spec priority) = tt
AnyLimit-call (claim_call worker) = tt
AnyLimit-call (heartbeat_call id worker) = tt
AnyLimit-call (complete_call id worker r) = tt
AnyLimit-call (fail_call id worker error artifacts) = tt
AnyLimit-call (recover_stale_call threshold) = tt
AnyLimit-call (recover_other_workers_call active) = tt
AnyLimit-call (recover_worker_prefix_call like prefix active) = tt
AnyLimit-call (promote_call dataset id score holdout) = tt

AnyLimit-calls :
    {F : Type 0} (cs : List (RegistryCall F × ℕ)) → All (λ c. IsLimited AnyLimit c.0) cs
AnyLimit-calls [] = tt
AnyLimit-calls ((c, now) ∷ cs) = (AnyLimit-call c, AnyLimit-calls cs)

module _ {F : Type 0} ⦃n : Number F⦄ (message : Experiment → String) where
  -- From an empty registry, after any calls in any order, a queued experiment has no worker, start or
  -- heartbeat, and a running one has all three.
  pub assignment_always_holds :
      (cs : List (RegistryCall F × ℕ))
      → All IsAssigned (registry_calls message cs empty_registry).experiments
  assignment_always_holds cs =
      calls-All message IsAssigned AnyLimit Move-IsAssigned (λ id spec priority. ground arith) cs
        empty_registry (AnyLimit-calls cs) tt

  -- From an empty registry, if every requeue is called with one positive limit, then after any calls
  -- in any order no experiment has been retried more often than the limit, and one that is queued or
  -- running has been retried less often.
  pub retries_stay-IsBounded :
      (limit : ℕ) (cs : List (RegistryCall F × ℕ))
      → 0 < limit
      → All (λ c. IsLimited (λ l. l ≡ some limit) c.0) cs
      → All (IsBounded limit) (registry_calls message cs empty_registry).experiments
  retries_stay-IsBounded limit cs positive limited =
      calls-All message (IsBounded limit) (λ l. l ≡ some limit) (Move-IsBounded limit)
        (λ id spec priority. (omega arith, λ e. positive)) cs empty_registry limited tt
