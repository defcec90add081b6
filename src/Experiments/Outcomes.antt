-- ===== src/Experiments/Outcomes.antt =====
-- That an outcome stands: no call changes an experiment that is completed, failed or cancelled, except
-- for the flag of the champion.
use xauusd.Prelude.{
  ℕ, String, ◌≡◌, refl, sym, ap, ◌∙◌, Bool, true, false, Option, some, List, [], ◌∷◌, arith,
  Bool-cases, inl, inr, All, ◌==◌,
}
use xauusd.Number.{Number}
use xauusd.Experiments.State.{ExperimentStatus, Experiment, RegistryDb}
use xauusd.Experiments.Registry.{find_experiment}
use xauusd.Experiments.Calls.{RegistryCall, registry_call, registry_calls}
use xauusd.Experiments.Moves.{
  Move, stays, claims, beats, completes, fails, retries, recovers, flags, Moves, last, adds, next,
}
use xauusd.Experiments.Steps.{call-Moves}
use xauusd.Experiments.Lifecycle.{is_final, AnyLimit, AnyLimit-call}

abbrev AnyRow : Experiment → Type 0
AnyRow x = Unit

abbrev Step : Experiment → Experiment → Type 0
Step = Move AnyRow AnyLimit

any_rows : (xs : List Experiment) → All AnyRow xs
any_rows [] = tt
any_rows (x ∷ xs) = (tt, any_rows xs)

Step-id : (x y : Experiment) → Step x y → y.id ≡ x.id
Step-id x _ stays = refl
Step-id x _ (claims worker now on) = refl
Step-id x _ (beats now on) = refl
Step-id x _ (completes r now on) = refl
Step-id x _ (fails r now on) = refl
Step-id x _ (retries read error code now l q ran limited on) = refl
Step-id x _ (recovers error on) = refl
Step-id x _ (flags promoted) = refl

running_not_final : (s : ExperimentStatus) → s ≡ ExperimentStatus.running → is_final s ≡ true → ⊥
running_not_final s on h = ground (arith, ap is_final on)

Step-final :
    (x y : Experiment)
    → Step x y
    → is_final x.status ≡ true
    → y ≡ record x { promoted = y.promoted }
Step-final x _ stays h = refl
Step-final x _ (claims worker now on) h = absurd (ground (arith, ap is_final on))
Step-final x _ (beats now on) h = absurd (running_not_final x.status on h)
Step-final x _ (completes r now on) h = absurd (running_not_final x.status on h)
Step-final x _ (fails r now on) h = absurd (running_not_final x.status on h)
Step-final x _ (retries read error code now l q ran limited on) h =
    absurd (running_not_final x.status on h)
Step-final x _ (recovers error on) h = absurd (running_not_final x.status on h)
Step-final x _ (flags promoted) h = refl

-- The row that `get` finds.
abbrev pub row_of : ℕ → List Experiment → Option Experiment
row_of id xs = find_experiment (λ x. x.id == id) xs

row_of-here :
    (id : ℕ) (x : Experiment) (xs : List Experiment)
    → (x.id == id) ≡ true
    → row_of id (x ∷ xs) ≡ some x
unfolding find_experiment
row_of-here id x xs h = ground (arith, h)

row_of-later :
    (id : ℕ) (x : Experiment) (xs : List Experiment)
    → (x.id == id) ≡ false
    → row_of id (x ∷ xs) ≡ row_of id xs
unfolding find_experiment
row_of-later id x xs h = ground (arith, h)

Option-some : {A : Type 0} (x y : A) → some x ≡ some y → x ≡ y
Option-some x y h = cc

Moves-row_of :
    (id : ℕ) (xs ys : List Experiment) (z : Experiment)
    → Moves AnyRow AnyLimit xs ys
    → row_of id xs ≡ some z
    → is_final z.status ≡ true
    → (b : Bool) × (row_of id ys ≡ some (record z { promoted = b }))
unfolding find_experiment
Moves-row_of id [] _ z last found f = absurd (ground arith)
Moves-row_of id [] _ z (adds n spec priority) found f = absurd (ground arith)
Moves-row_of id (x ∷ xs) _ z (next {y = y} {ys = ys} m ms) found f =
    elim (Bool-cases (x.id == id)) [
      | inl here ↦
          let same : x ≡ z = Option-some x z (sym (row_of-here id x xs here) ∙ found) in
          let kept = Step-final x y m (ap (λ e. is_final e.status) same ∙ f) in
          (
            y.promoted,
            row_of-here id y ys (ap (λ i. i == id) (Step-id x y m) ∙ here)
                ∙ ap some
                    (kept ∙ ap {B = Experiment} (λ e. record e { promoted = y.promoted }) same),
          )
      | inr away ↦
          let (b, there) = Moves-row_of id xs ys z ms (sym (row_of-later id x xs away) ∙ found) f in
          (b, row_of-later id y ys (ap (λ i. i == id) (Step-id x y m) ∙ away) ∙ there)
    ]

module _ {F : Type 0} ⦃n : Number F⦄ (message : Experiment → String) where
  -- Once an experiment is completed, failed or cancelled, then after any calls by any workers in any
  -- order its row is still there and is the same but for the flag `promoted`.
  pub outcome_stands :
      (cs : List (RegistryCall F × ℕ)) (db : RegistryDb F) (id : ℕ) (x : Experiment)
      → row_of id db.experiments ≡ some x
      → is_final x.status ≡ true
      → (b : Bool) × (row_of id (registry_calls message cs db).experiments
          ≡ some (record x { promoted = b }))
  unfolding registry_calls
  outcome_stands [] db id x found f = (x.promoted, found)
  outcome_stands ((c, now) ∷ cs) db id x found f =
      let db' = registry_call message c now db in
      let (b, there) =
        Moves-row_of id db.experiments db'.experiments x
          (call-Moves AnyRow AnyLimit message c now db (AnyLimit-call c) (any_rows db.experiments))
          found f in
      outcome_stands cs db' id (record x { promoted = b }) there f
