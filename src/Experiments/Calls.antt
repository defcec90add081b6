-- ===== src/Experiments/Calls.antt =====
-- Sequences of calls of the registry, by any workers in any order; a call that raises changes nothing.
use xauusd.Prelude.{ℕ, String, Bool, Option, none, some, List, [], ◌∷◌}
use xauusd.Prelude.Int.{ℤ}
use xauusd.Number.{Number}
use xauusd.Experiments.State.{ExperimentSpec, Experiment, RegistryDb}
use xauusd.Experiments.Registry.{
  Report, register, claim_next, heartbeat, complete, fail, requeue, recover_stale,
  recover_other_workers, recover_worker_prefix, promote_champion,
}

pub data RegistryCall (F : Type 0) : Type 0 where
  register_call : ExperimentSpec → ℤ → RegistryCall F
  claim_call : String → RegistryCall F
  heartbeat_call : ℕ → String → RegistryCall F
  complete_call : ℕ → String → Report → RegistryCall F
  fail_call : ℕ → String → String → Option String → RegistryCall F
  requeue_call : ℕ → String → String → String → Option ℕ → RegistryCall F
  recover_stale_call : ℕ → RegistryCall F
  recover_other_workers_call : String → RegistryCall F
  recover_worker_prefix_call : (String → String → Bool) → String → Option String → RegistryCall F
  promote_call : String → ℕ → F → F → RegistryCall F

abbrev pub or_unchanged : {F : Type 0} → RegistryDb F → Option (RegistryDb F) → RegistryDb F
or_unchanged db none = db
or_unchanged db (some db') = db'

module _ {F : Type 0} ⦃n : Number F⦄ (message : Experiment → String) where
  -- A call at a time.
  unfoldable pub registry_call : RegistryCall F → ℕ → RegistryDb F → RegistryDb F
  registry_call (register_call spec priority) now db = (register spec priority now db).1
  registry_call (claim_call worker) now db = (claim_next worker now db).1
  registry_call (heartbeat_call id worker) now db = or_unchanged db (heartbeat id worker now db)
  registry_call (complete_call id worker r) now db = or_unchanged db (complete id worker r now db)
  registry_call (fail_call id worker error artifacts) now db =
      or_unchanged db (fail id worker error artifacts now db)
  registry_call (requeue_call id worker error code limit) now db =
      or_unchanged db (requeue id worker error code limit now db)
  registry_call (recover_stale_call threshold) now db = (recover_stale message now threshold db).1
  registry_call (recover_other_workers_call active) now db =
      (recover_other_workers message now active db).1
  registry_call (recover_worker_prefix_call like prefix active) now db =
      (recover_worker_prefix message now like prefix active db).1
  registry_call (promote_call dataset id score holdout) now db =
      or_unchanged db (promote_champion dataset id score holdout now db)

  unfoldable pub registry_calls : List (RegistryCall F × ℕ) → RegistryDb F → RegistryDb F
  registry_calls [] db = db
  registry_calls ((c, now) ∷ cs) db = registry_calls cs (registry_call c now db)
