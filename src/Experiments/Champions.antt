-- ===== src/Experiments/Champions.antt =====
-- The champions of a dataset: each beats those before it.
use text.Mathlib.Text.{◌==◌ as str_eq}
use text.Mathlib.TextEquality.{eq_iff}
use xauusd.Prelude.{
  ℕ, String, ◌≡◌, refl, sym, ap, ◌∙◌, Bool, true, false, if◌then◌else◌, Option, none, some, List,
  [], ◌∷◌, ◌++◌, arith, Bool-cases, Option-cases, inl, inr, All, subst,
}
use xauusd.Number.{Number, IsOrdered, le, lt, finite}
use xauusd.Prelude.Int.{ℤ}
use xauusd.Experiments.State.{ExperimentSpec, Experiment, RegistryDb, Champion, empty_registry}
use xauusd.Experiments.Registry.{
  register, claim_next, heartbeat, finish, requeue, recover, recover_stale, recover_other_workers,
  recover_worker_prefix, latest_champion, keeps_out, champion_of, promote_champion, find_experiment,
  has_fingerprint, next_queued, is_owned,
}
use xauusd.Experiments.Calls.{
  RegistryCall, registry_call, registry_calls, register_call, claim_call, heartbeat_call,
  complete_call, fail_call, requeue_call, recover_stale_call, recover_other_workers_call,
  recover_worker_prefix_call, promote_call, or_unchanged,
}

-- The champions that stand for the dataset.
abbrev pub IsOf : {F : Type 0} → String → Champion F → Type 0
IsOf dataset c = str_eq c.dataset_version dataset ≡ true

-- The latest champion is one of the list.
latest-All :
    {F : Type 0} (P : Champion F → Type 0) (dataset : String) (cs : List (Champion F))
    (b : Champion F)
    → All P cs
    → latest_champion dataset cs ≡ some b
    → P b × IsOf dataset b
unfolding latest_champion
latest-All P dataset [] b h e = absurd (ground arith)
latest-All P dataset (c ∷ cs) b h e = elim (Option-cases (latest_champion dataset cs)) [
  | inr (d, found) ↦ latest-All P dataset cs b h.1 (sym (rw (latest_champion, found) refl) ∙ e)
  | inl nothing ↦ elim (Bool-cases (str_eq c.dataset_version dataset)) [
    | inl here ↦
        let same : c ≡ b = ground (arith, e, nothing, here) in
        subst (λ x. P x × IsOf dataset x) same (h.0, here)
    | inr away ↦ absurd (ground (arith, e, nothing, away))
  ]
]

latest-none :
    {F : Type 0} (dataset : String) (cs : List (Champion F))
    → latest_champion dataset cs ≡ none
    → All (λ c. str_eq c.dataset_version dataset ≡ false) cs
unfolding latest_champion
latest-none dataset [] e = tt
latest-none dataset (c ∷ cs) e = elim (Option-cases (latest_champion dataset cs)) [
  | inr (d, found) ↦ absurd (ground (arith, e, found))
  | inl nothing ↦ (ground (arith, e, nothing), latest-none dataset cs nothing)
]

module _ {F : Type 0} ⦃n : Number F⦄ where
  -- Of two champions of the dataset, the later one has the higher validation score.
  abbrev pub IsRising : String → List (Champion F) → Type 0
  IsRising dataset [] = Unit
  IsRising dataset (c ∷ cs) =
      (IsOf dataset c
        → All (λ e. IsOf dataset e → lt c.validation_score e.validation_score ≡ true) cs)
      × IsRising dataset cs

  -- The validation score that a promotion is called with is a number.
  abbrev pub HasScore : RegistryCall F → Type 0
  HasScore (promote_call dataset id score holdout) = finite score ≡ true
  HasScore (register_call spec priority) = Unit
  HasScore (claim_call worker) = Unit
  HasScore (heartbeat_call id worker) = Unit
  HasScore (complete_call id worker r) = Unit
  HasScore (fail_call id worker error artifacts) = Unit
  HasScore (requeue_call id worker error code limit) = Unit
  HasScore (recover_stale_call threshold) = Unit
  HasScore (recover_other_workers_call active) = Unit
  HasScore (recover_worker_prefix_call like prefix active) = Unit

  -- Every champion of the dataset scores less than `score`.
  abbrev IsBelow : String → F → List (Champion F) → Type 0
  IsBelow dataset score cs = All (λ c. IsOf dataset c → lt c.validation_score score ≡ true) cs

  none-IsBelow :
      (dataset : String) (score : F) (cs : List (Champion F))
      → All (λ c. str_eq c.dataset_version dataset ≡ false) cs
      → IsBelow dataset score cs
  none-IsBelow dataset score [] h = tt
  none-IsBelow dataset score (c ∷ cs) h =
      ((λ e. absurd (ground (arith, e, h.0))), none-IsBelow dataset score cs h.1)

  -- Above the latest champion is above every one before it.
  latest-IsBelow :
      IsOrdered n
      → (dataset : String) (score : F) (cs : List (Champion F)) (b : Champion F)
      → IsRising dataset cs
      → latest_champion dataset cs ≡ some b
      → lt b.validation_score score ≡ true
      → IsBelow dataset score cs
  unfolding latest_champion
  latest-IsBelow o dataset score [] b r e l = tt
  latest-IsBelow o dataset score (c ∷ cs) b r e l =
      elim (Option-cases (latest_champion dataset cs)) [
        | inr (d, found) ↦
            let found_b : latest_champion dataset cs ≡ some b =
              sym (rw (latest_champion, found) refl) ∙ e in
            (
              (λ of.
                  let (above, of_b) =
                    latest-All
                      (λ x. IsOf dataset x → lt c.validation_score x.validation_score ≡ true)
                      dataset cs b (r.0 of) found_b in
                  o.lt_trans c.validation_score b.validation_score score (above of_b) l),
              latest-IsBelow o dataset score cs b r.1 found_b l,
            )
        | inl nothing ↦ (
          (λ of.
              let same : c ≡ b = ground (arith, e, nothing, of) in
              ap (λ x. lt x.validation_score score) same ∙ l),
          none-IsBelow dataset score cs (latest-none dataset cs nothing),
        )
      ]

  All-snoc :
      (P : Champion F → Type 0) (cs : List (Champion F)) (c : Champion F)
      → All P cs
      → P c
      → All P (cs ++ c ∷ [])
  All-snoc P [] c h p = (p, tt)
  All-snoc P (d ∷ ds) c h p = (h.0, All-snoc P ds c h.1 p)

  IsRising-snoc :
      (dataset : String) (cs : List (Champion F)) (c : Champion F)
      → IsRising dataset cs
      → (IsOf dataset c → IsBelow dataset c.validation_score cs)
      → IsRising dataset (cs ++ c ∷ [])
  IsRising-snoc dataset [] c r below = ((λ of. tt), tt)
  IsRising-snoc dataset (d ∷ ds) c r below = (
    (λ of. All-snoc _ ds c (r.0 of) (λ of_c. (below of_c).0 of)),
    IsRising-snoc dataset ds c r.1 (λ of_c. (below of_c).1),
  )

  abbrev IsSound : String → List (Champion F) → Type 0
  IsSound dataset cs = IsRising dataset cs × All (λ c. finite c.validation_score ≡ true) cs

  -- A challenger that is not kept out is above every champion so far.
  in_front-IsBelow :
      IsOrdered n
      → (d dataset : String) (score : F) (cs : List (Champion F)) → IsSound d cs
      → finite score ≡ true
      → str_eq dataset d ≡ true
      → keeps_out score (latest_champion dataset cs) ≡ false
      → IsBelow d score cs
  in_front-IsBelow o d dataset score cs h f of out =
      let same : dataset ≡ d = (eq_iff dataset d).0 of in
      elim (Option-cases (latest_champion d cs)) [
        | inl nothing ↦ none-IsBelow d score cs (latest-none d cs nothing)
        | inr (b, found) ↦
            let (finite_b, of_b) =
              latest-All (λ c. finite c.validation_score ≡ true) d cs b h.1 found in
            let beats : le score b.validation_score ≡ false =
              sym
                (ap (λ e. keeps_out score (latest_champion e cs)) same ∙ ap (keeps_out score) found)
              ∙ out in
            latest-IsBelow o d score cs b h.0 found
              (o.lt_of_not_le score b.validation_score f finite_b beats)
      ]

  promote-IsSound :
      IsOrdered n
      → (d dataset : String) (id : ℕ) (score holdout : F) (now : ℕ) (db : RegistryDb F)
      → finite score ≡ true
      → IsSound d db.champions
      → IsSound d (or_unchanged db (promote_champion dataset id score holdout now db)).champions
  unfolding promote_champion
  promote-IsSound o d dataset id score holdout now db f h =
      let previous = latest_champion dataset db.champions in
      elim (Bool-cases (keeps_out score previous)) [
        | inl out ↦ rw (promote_champion, out) h
        | inr in_front ↦
            rw (promote_champion, in_front)
              (
                IsRising-snoc d db.champions (champion_of dataset id previous score holdout now) h.0
                    (λ of. in_front-IsBelow o d dataset score db.champions h f of in_front),
                All-snoc _ db.champions (champion_of dataset id previous score holdout now) h.1 f,
              )
      ]

  if-champions :
      (test : Bool) (db db' : RegistryDb F)
      → db'.champions ≡ db.champions
      → (or_unchanged db (if test then some db' else none)).champions ≡ db.champions
  if-champions true db db' h = h
  if-champions false db db' h = refl

  -- Every call but a promotion leaves the champions as they are.
  register-champions :
      (spec : ExperimentSpec) (priority : ℤ) (now : ℕ) (db : RegistryDb F)
      → (register spec priority now db).1.champions ≡ db.champions
  unfolding register
  register-champions spec priority now db =
      elim (Option-cases (find_experiment (has_fingerprint spec) db.experiments)) [
        | inl new ↦ rw (register, new) refl
        | inr (x, old) ↦ rw (register, old) refl
      ]

  claim_next-champions :
      (worker : String) (now : ℕ) (db : RegistryDb F)
      → (claim_next worker now db).1.champions ≡ db.champions
  unfolding claim_next
  claim_next-champions worker now db = elim (Option-cases (next_queued db.experiments)) [
    | inl nothing ↦ rw (claim_next, nothing) refl
    | inr (x, found) ↦ rw (claim_next, found) refl
  ]

  requeue-champions :
      (id : ℕ) (worker error code : String) (limit : Option ℕ) (now : ℕ) (db : RegistryDb F)
      → (or_unchanged db (requeue id worker error code limit now db)).champions ≡ db.champions
  unfolding requeue
  requeue-champions id worker error code limit now db =
      elim (Option-cases (find_experiment (is_owned id worker) db.experiments)) [
        | inl nothing ↦ rw (requeue, nothing) refl
        | inr (x, found) ↦ rw (requeue, found) refl
      ]

  module _ (message : Experiment → String) where
    call-IsSound :
        IsOrdered n
        → (d : String) (c : RegistryCall F) (now : ℕ) (db : RegistryDb F) → HasScore c
        → IsSound d db.champions
        → IsSound d (registry_call message c now db).champions
    unfolding registry_call heartbeat finish recover recover_stale recover_other_workers
        recover_worker_prefix
    call-IsSound o d (promote_call dataset id score holdout) now db f h =
        promote-IsSound o d dataset id score holdout now db f h
    call-IsSound o d (register_call spec priority) now db f h =
        subst (IsSound d) (sym (register-champions spec priority now db)) h
    call-IsSound o d (claim_call worker) now db f h =
        subst (IsSound d) (sym (claim_next-champions worker now db)) h
    call-IsSound o d (heartbeat_call id worker) now db f h =
        subst (IsSound d) (sym (if-champions _ db _ refl)) h
    call-IsSound o d (complete_call id worker r) now db f h =
        subst (IsSound d) (sym (if-champions _ db _ refl)) h
    call-IsSound o d (fail_call id worker error artifacts) now db f h =
        subst (IsSound d) (sym (if-champions _ db _ refl)) h
    call-IsSound o d (requeue_call id worker error code limit) now db f h =
        subst (IsSound d) (sym (requeue-champions id worker error code limit now db)) h
    call-IsSound o d (recover_stale_call threshold) now db f h = h
    call-IsSound o d (recover_other_workers_call active) now db f h = h
    call-IsSound o d (recover_worker_prefix_call like prefix active) now db f h = h

    calls-IsSound :
        IsOrdered n
        → (d : String) (cs : List (RegistryCall F × ℕ)) (db : RegistryDb F)
        → All (λ c. HasScore c.0) cs
        → IsSound d db.champions
        → IsSound d (registry_calls message cs db).champions
    unfolding registry_calls
    calls-IsSound o d [] db f h = h
    calls-IsSound o d ((c, now) ∷ cs) db f h =
        calls-IsSound o d cs (registry_call message c now db) f.1 (call-IsSound o d c now db f.0 h)

    -- For comparisons that are a total order on numbers: from an empty registry, after any calls in
    -- any order in which every promotion is called with a validation score that is a number, the
    -- champions of each dataset have strictly rising validation scores.
    pub champions-IsRising :
        IsOrdered n
        → (dataset : String) (cs : List (RegistryCall F × ℕ)) → All (λ c. HasScore c.0) cs
        → IsRising dataset (registry_calls message cs empty_registry).champions
    champions-IsRising o dataset cs f = (calls-IsSound o dataset cs empty_registry f (tt, tt)).0
