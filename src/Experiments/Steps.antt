-- ===== src/Experiments/Steps.antt =====
-- Every call of the registry takes the table by the steps of `Moves`.
use text.Mathlib.Text.{◌==◌ as str_eq}
use xauusd.Prelude.{
  ℕ, String, ◌≡◌, Bool, true, false, ◌&&◌, if◌then◌else◌, Option, none, some, List, [], ◌∷◌, map,
  Bool-cases, Option-cases, inl, inr, ◌==◌, All, &&_iff,
}
use xauusd.Prelude.Int.{ℤ}
use xauusd.Number.{Number}
use xauusd.Experiments.State.{ExperimentStatus, ExperimentSpec, Experiment, EventKind, RegistryDb}
use xauusd.Experiments.Registry.{
  Report, find_experiment, is_running, is_owned, is_present, finish_row, recover_row,
  has_fingerprint, register, claim_next, next_queued, heartbeat, finish, requeue, recover,
  recover_stale, recover_other_workers, recover_worker_prefix, promote_champion, latest_champion,
  keeps_out,
}
use xauusd.Experiments.Calls.{
  RegistryCall, register_call, claim_call, heartbeat_call, complete_call, fail_call, requeue_call,
  recover_stale_call, recover_other_workers_call, recover_worker_prefix_call, promote_call,
  or_unchanged, registry_call,
}
use xauusd.Experiments.Moves.{
  Move, claims, beats, completes, fails, retries, recovers, Moves, last, next, means_queued_lem,
  means_running_lem, owned_running, find-All, find-test, Moves-map, Move-if, Moves-update,
  Moves-refl, Moves-append_one, Move-flags,
}

Moves-map-map :
    (Q : Experiment → Type 0) (L : Option ℕ → Type 0) (f g : Experiment → Experiment)
    (xs : List Experiment)
    → ((x : Experiment) → Move Q L x (f (g x)))
    → Moves Q L xs (map f (map g xs))
Moves-map-map Q L f g [] h = last
Moves-map-map Q L f g (x ∷ xs) h = next (h x) (Moves-map-map Q L f g xs h)

-- The limit of a requeue call is one of `L`.
abbrev pub IsLimited : {F : Type 0} → (Option ℕ → Type 0) → RegistryCall F → Type 0
IsLimited L (requeue_call id worker error code limit) = L limit
IsLimited L (register_call spec priority) = Unit
IsLimited L (claim_call worker) = Unit
IsLimited L (heartbeat_call id worker) = Unit
IsLimited L (complete_call id worker r) = Unit
IsLimited L (fail_call id worker error artifacts) = Unit
IsLimited L (recover_stale_call threshold) = Unit
IsLimited L (recover_other_workers_call active) = Unit
IsLimited L (recover_worker_prefix_call like prefix active) = Unit
IsLimited L (promote_call dataset id score holdout) = Unit

module _ {F : Type 0} (Q : Experiment → Type 0) (L : Option ℕ → Type 0) where
  abbrev Goes : RegistryDb F → RegistryDb F → Type 0
  Goes db db' = Moves Q L db.experiments db'.experiments

  register-Moves :
      (spec : ExperimentSpec) (priority : ℤ) (now : ℕ) (db : RegistryDb F)
      → Goes db (register spec priority now db).1
  unfolding register
  register-Moves spec priority now db =
      elim (Option-cases (find_experiment (has_fingerprint spec) db.experiments)) [
        | inl new ↦
            rw (register, new) (Moves-append_one Q L db.next_id spec priority db.experiments)
        | inr (x, old) ↦ rw (register, old) (Moves-refl Q L db.experiments)
      ]

  claim_next-Moves :
      (worker : String) (now : ℕ) (db : RegistryDb F) → Goes db (claim_next worker now db).1
  unfolding claim_next
  claim_next-Moves worker now db = elim (Option-cases (next_queued db.experiments)) [
    | inl nothing ↦ rw (claim_next, nothing) (Moves-refl Q L db.experiments)
    | inr (x, found) ↦
        rw (claim_next, found)
          (Moves-update Q L _ _ db.experiments
            (λ y h. claims worker now (means_queued_lem y.status ((&&_iff _ _).0 h).1)))
  ]

  if-Goes :
      (test : Bool) (db db' : RegistryDb F)
      → Goes db db'
      → Goes db (or_unchanged db (if test then some db' else none))
  if-Goes true db db' h = h
  if-Goes false db db' h = Moves-refl Q L db.experiments

  heartbeat-Moves :
      (id : ℕ) (worker : String) (now : ℕ) (db : RegistryDb F)
      → Goes db (or_unchanged db (heartbeat id worker now db))
  unfolding heartbeat
  heartbeat-Moves id worker now db =
      if-Goes (is_present (find_experiment (is_owned id worker) db.experiments)) db _
        (Moves-update Q L _ _ db.experiments (λ x h. beats now (owned_running id worker x h)))

  finish-Moves :
      (status : ExperimentStatus) (event : EventKind) (id : ℕ) (worker : String) (r : Report)
      (now : ℕ) (db : RegistryDb F)
      → ((x : Experiment)
          → x.status ≡ ExperimentStatus.running
          → Move Q L x (finish_row status r now x))
      → Goes db (or_unchanged db (finish status event id worker r now db))
  unfolding finish
  finish-Moves status event id worker r now db moves =
      if-Goes (is_present (find_experiment (is_owned id worker) db.experiments)) db _
        (Moves-update Q L _ _ db.experiments (λ x h. moves x (owned_running id worker x h)))

  requeue-Moves :
      (id : ℕ) (worker error code : String) (limit : Option ℕ) (now : ℕ) (db : RegistryDb F)
      → L limit
      → All Q db.experiments
      → Goes db (or_unchanged db (requeue id worker error code limit now db))
  unfolding requeue
  requeue-Moves id worker error code limit now db limited all_hold =
      elim (Option-cases (find_experiment (is_owned id worker) db.experiments)) [
        | inl nothing ↦ rw (requeue, nothing) (Moves-refl Q L db.experiments)
        | inr (read, found) ↦
            rw (requeue, found)
              (Moves-update Q L _ _ db.experiments (λ x h.
                retries read error code now limit
                  (find-All Q (is_owned id worker) db.experiments read all_hold found)
                  (owned_running id worker read
                    (find-test (is_owned id worker) db.experiments read found))
                  limited (owned_running id worker x h)))
      ]

  recover-Moves :
      (test : Experiment → Bool) (message : Experiment → String) (event : EventKind) (now : ℕ)
      (db : RegistryDb F)
      → Goes db (recover test message event now db).1
  unfolding recover
  recover-Moves test message event now db = Moves-map Q L _ db.experiments (λ x.
      Move-if Q L (is_running x && test x) x (recover_row (message x) x)
        (λ h. recovers (message x) (means_running_lem x.status ((&&_iff _ _).0 h).0)))

  module _ ⦃n : Number F⦄ where
    promote-Moves :
        (dataset : String) (id : ℕ) (score holdout : F) (now : ℕ) (db : RegistryDb F)
        → Goes db (or_unchanged db (promote_champion dataset id score holdout now db))
    unfolding promote_champion
    promote-Moves dataset id score holdout now db =
        elim (Bool-cases (keeps_out score (latest_champion dataset db.champions))) [
          | inl out ↦ rw (promote_champion, out) (Moves-refl Q L db.experiments)
          | inr in_front ↦
              rw (promote_champion, in_front)
                (Moves-map-map Q L _ _ db.experiments (λ x.
                  Move-flags Q L (λ y. y.id == id)
                    (str_eq x.spec.dataset_version dataset && x.promoted) x))
        ]

    -- Each call takes every row by one step of its life cycle, and adds at most one new row.
    pub call-Moves :
        (message : Experiment → String) (c : RegistryCall F) (now : ℕ) (db : RegistryDb F)
        → IsLimited L c
        → All Q db.experiments
        → Moves Q L db.experiments (registry_call message c now db).experiments
    unfolding registry_call recover_stale recover_other_workers recover_worker_prefix
    call-Moves message (register_call spec priority) now db l h =
        register-Moves spec priority now db
    call-Moves message (claim_call worker) now db l h = claim_next-Moves worker now db
    call-Moves message (heartbeat_call id worker) now db l h = heartbeat-Moves id worker now db
    call-Moves message (complete_call id worker r) now db l h =
        finish-Moves _ _ id worker r now db (λ x on. completes r now on)
    call-Moves message (fail_call id worker error artifacts) now db l h =
        finish-Moves _ _ id worker _ now db (λ x on. fails _ now on)
    call-Moves message (requeue_call id worker error code limit) now db l h =
        requeue-Moves id worker error code limit now db l h
    call-Moves message (recover_stale_call threshold) now db l h = recover-Moves _ message _ now db
    call-Moves message (recover_other_workers_call active) now db l h =
        recover-Moves _ message _ now db
    call-Moves message (recover_worker_prefix_call like prefix active) now db l h =
        recover-Moves _ message _ now db
    call-Moves message (promote_call dataset id score holdout) now db l h =
        promote-Moves dataset id score holdout now db
