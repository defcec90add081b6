-- ===== src/Experiments/Queue.antt =====
-- Which experiment a worker is handed, and what registering one twice does.
use xauusd.Prelude.{
  ℕ, String, ◌≤◌, ◌≡◌, refl, Bool, true, false, if◌then◌else◌, Option, none, some, List, [], ◌∷◌,
  arith, Option-cases, inl, inr, All, subst,
}
use mathlib.Core.List.{Memᴰ}
use xauusd.Prelude.Int.{◌≤ℤ◌}
use xauusd.Experiments.State.{Experiment, RegistryDb}
use xauusd.Experiments.Registry.{
  is_queued, comes_before, first_of, next_queued, claim_next, claim_row,
}

-- `x` has a higher priority than `y`, or the same and no greater id.
abbrev pub IsBefore : Experiment → Experiment → Type 0
IsBefore x y = (y.priority ≤ℤ x.priority) × (x.priority ≤ℤ y.priority → x.id ≤ y.id)

-- `x` is before every queued row of the table.
abbrev pub IsFirst : Experiment → List Experiment → Type 0
IsFirst x xs = All (λ y. is_queued y ≡ true → IsBefore x y) xs

IsBefore-trans : (x y z : Experiment) → IsBefore x y → IsBefore y z → IsBefore x z
IsBefore-trans x y z h k = ground (arith, h, k)

comes_before-IsBefore : (x y : Experiment) → comes_before x y ≡ true → IsBefore x y
comes_before-IsBefore x y h = ground arith

comes_after-IsBefore : (x y : Experiment) → comes_before x y ≡ false → IsBefore y x
comes_after-IsBefore x y h = ground arith

-- In front of the rows after a row that comes after `x`, `x` is first.
IsFirst-trans :
    (x y : Experiment) (xs : List Experiment) → IsBefore x y → IsFirst y xs → IsFirst x xs
IsFirst-trans x y [] b h = tt
IsFirst-trans x y (z ∷ zs) b h = (λ q. IsBefore-trans x y z b (h.0 q), IsFirst-trans x y zs b h.1)

IsFirst-none :
    (x : Experiment) (xs : List Experiment) → All (λ y. is_queued y ≡ false) xs → IsFirst x xs
IsFirst-none x [] h = tt
IsFirst-none x (y ∷ ys) h = (λ q. absurd (ground (arith, q, h.0)), IsFirst-none x ys h.1)

IsBefore-refl : (x : Experiment) → IsBefore x x
IsBefore-refl x = (omega arith, λ e. omega arith)

-- What the queue hands out of a table: nothing if no row is queued, else a queued row of it that is
-- before every other.
abbrev pub IsNext : List Experiment → Option Experiment → Type 0
IsNext xs none = All (λ y. is_queued y ≡ false) xs
IsNext xs (some x) = Memᴰ x xs × (is_queued x ≡ true) × IsFirst x xs

IsNext-choice :
    (test : Bool) (x y : Experiment) (xs : List Experiment)
    → (test ≡ true → IsNext xs (some x))
    → (test ≡ false → IsNext xs (some y))
    → IsNext xs (some (if test then x else y))
IsNext-choice true x y xs h k = h refl
IsNext-choice false x y xs h k = k refl

IsNext-queued :
    (x : Experiment) (xs : List Experiment) (o : Option Experiment)
    → is_queued x ≡ true
    → IsNext xs o
    → IsNext (x ∷ xs) (some (first_of x o))
IsNext-queued x xs none q h = (Memᴰ.head refl, q, ((λ e. IsBefore-refl x), IsFirst-none x xs h))
IsNext-queued x xs (some y) q h =
    IsNext-choice (comes_before x y) x y (x ∷ xs)
      (λ b. (
        Memᴰ.head refl,
        q,
        ((λ e. IsBefore-refl x), IsFirst-trans x y xs (comes_before-IsBefore x y b) h.2),
      ))
      (λ b. (Memᴰ.tail h.0, h.1, ((λ e. comes_after-IsBefore x y b), h.2)))

IsNext-skipped :
    (x : Experiment) (xs : List Experiment) (o : Option Experiment)
    → is_queued x ≡ false
    → IsNext xs o
    → IsNext (x ∷ xs) o
IsNext-skipped x xs none q h = (q, h)
IsNext-skipped x xs (some y) q h = (Memᴰ.tail h.0, h.1, ((λ e. absurd (ground (arith, e, q))), h.2))

IsNext-if :
    (test : Bool) (xs : List Experiment) (a b : Option Experiment)
    → (test ≡ true → IsNext xs a)
    → (test ≡ false → IsNext xs b)
    → IsNext xs (if test then a else b)
IsNext-if true xs a b h k = h refl
IsNext-if false xs a b h k = k refl

next_queued-IsNext : (xs : List Experiment) → IsNext xs (next_queued xs)
unfolding next_queued
next_queued-IsNext [] = tt
next_queued-IsNext (x ∷ xs) =
    let h = next_queued-IsNext xs in
    IsNext-if (is_queued x) (x ∷ xs) _ _ (λ q. IsNext-queued x xs (next_queued xs) q h)
      (λ q. IsNext-skipped x xs (next_queued xs) q h)

-- What a worker is handed of a table.
abbrev pub IsClaimed : String → ℕ → List Experiment → Option Experiment → Type 0
IsClaimed worker now xs none = All (λ y. is_queued y ≡ false) xs
IsClaimed worker now xs (some x) =
    (y : Experiment) × (x ≡ claim_row worker now y)
    × Memᴰ y xs
    × (is_queued y ≡ true)
    × IsFirst y xs

module _ {F : Type 0} where
  -- A claim is answered with nothing exactly when no experiment is queued. Otherwise it is answered
  -- with an experiment of the table, marked as running for the worker, that was queued and before
  -- which no queued experiment comes: none has a higher priority, and none of the same priority has
  -- a smaller id.
  pub claim_next-IsClaimed :
      (worker : String) (now : ℕ) (db : RegistryDb F)
      → IsClaimed worker now db.experiments (claim_next worker now db).0
  unfolding claim_next
  claim_next-IsClaimed worker now db = elim (Option-cases (next_queued db.experiments)) [
    | inl nothing ↦
        rw (claim_next, nothing)
          (subst (IsNext db.experiments) nothing (next_queued-IsNext db.experiments))
    | inr (x, found) ↦
        rw (claim_next, found)
          (let (m, q, f) =
              subst (IsNext db.experiments) found (next_queued-IsNext db.experiments) in
            (x, refl, m, q, f))
  ]
