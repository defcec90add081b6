-- ===== src/Canary/Once.antt =====
-- That the canary emits a transition once.
use xauusd.Prelude.{
  ℕ, zero, suc, ◌-◌, ◌≤◌, ◌≡◌, refl, sym, ap, ◌∙◌, Bool, true, not, ◌&&◌, Option, none, some, List,
  [], ◌∷◌, arith, ltb, leb, Bool-cases, Option-cases, inl, inr, All, subst, length,
}
use xauusd.Canary.Source.{
  BarSignal, BarValue, is_same, transitions, last_value, first_value, values_if, drop_values,
  last_values, if_newest, from_oldest, pending_transition, observed_after, emitted,
}

-- The times rise strictly, from `lo` on.
abbrev pub Rises : ℕ → List BarValue → Type 0
Rises lo [] = Unit
Rises lo (x ∷ xs) = (lo ≤ x.time) × Rises (suc x.time) xs

Rises-from : (lo hi : ℕ) (xs : List BarValue) → lo ≤ hi → Rises hi xs → Rises lo xs
Rises-from lo hi [] low h = tt
Rises-from lo hi (x ∷ xs) low h = (omega (arith, low, h.0), h.1)

-- The newest bar of a read is its last, and no older than that of the read before.
abbrev pub IsLatest : Option ℕ → List BarValue → Type 0
IsLatest last values =
    (v : BarValue)
    → last_value values ≡ some v
    → All (λ x. x.time ≤ v.time) values × ((l : ℕ) → last ≡ some l → l ≤ v.time)

abbrev pub IsFeed : Option ℕ → List (List BarValue) → Type 0
IsFeed last [] = Unit
IsFeed last (values ∷ reads) = IsLatest last values × IsFeed (observed_after last values) reads

module _ (P : BarValue → Type 0) where
  transitions-All :
      (previous : BarSignal) (xs : List BarValue) → All P xs → All P (transitions previous xs)
  unfolding transitions
  transitions-All previous [] h = tt
  transitions-All previous (x ∷ xs) h =
      elim (Bool-cases (not (is_same x.signal BarSignal.flat) && not (is_same x.signal previous))) [
        | inl turns ↦ rw (transitions, turns) (h.0, transitions-All x.signal xs h.1)
        | inr stays ↦ rw (transitions, stays) (transitions-All x.signal xs h.1)
      ]

  values_if-All :
      (test : BarValue → Bool) (xs : List BarValue) → All P xs → All P (values_if test xs)
  unfolding values_if
  values_if-All test [] h = tt
  values_if-All test (x ∷ xs) h = elim (Bool-cases (test x)) [
    | inl passed ↦ rw (values_if, passed) (h.0, values_if-All test xs h.1)
    | inr missed ↦ rw (values_if, missed) (values_if-All test xs h.1)
  ]

  drop_values-All : (k : ℕ) (xs : List BarValue) → All P xs → All P (drop_values k xs)
  unfolding drop_values
  drop_values-All zero xs h = h
  drop_values-All (suc k) [] h = tt
  drop_values-All (suc k) (x ∷ xs) h = drop_values-All k xs h.1

  last_value-All : (xs : List BarValue) (y : BarValue) → All P xs → last_value xs ≡ some y → P y
  unfolding last_value
  last_value-All [] y h e = absurd (ground (arith, e))
  last_value-All (x ∷ xs) y h e = elim (Option-cases (last_value xs)) [
    | inl nothing ↦ let same : x ≡ y = ground (arith, e, nothing) in subst P same h.0
    | inr (z, there) ↦ last_value-All xs y h.1 (there ∙ sym (rw (last_value, there) refl) ∙ e)
  ]

  first_value-All : (xs : List BarValue) (y : BarValue) → All P xs → first_value xs ≡ some y → P y
  first_value-All [] y h e = absurd (ground (arith, e))
  first_value-All (x ∷ xs) y h e = let same : x ≡ y = ground (arith, e) in subst P same h.0

-- The values that pass a test pass it.
values_if-test :
    (test : BarValue → Bool) (xs : List BarValue) → All (λ x. test x ≡ true) (values_if test xs)
unfolding values_if
values_if-test test [] = tt
values_if-test test (x ∷ xs) = elim (Bool-cases (test x)) [
  | inl passed ↦ rw (values_if, passed) (passed, values_if-test test xs)
  | inr missed ↦ rw (values_if, missed) (values_if-test test xs)
]

abbrev bound_of : Option ℕ → ℕ
bound_of none = 0
bound_of (some l) = suc l

if_newest_lem :
    (o newest : Option BarValue) (t : BarValue) → if_newest o newest ≡ some t → o ≡ some t
if_newest_lem none newest t h = absurd (ground (arith, h))
if_newest_lem (some s) none t h = absurd (ground (arith, h))
if_newest_lem (some s) (some v) t h = ground (arith, h)

from_oldest_lem :
    (ts : List BarValue) (o : Option BarValue) (t : BarValue)
    → from_oldest ts o ≡ some t
    → (oldest : BarValue) × (o ≡ some oldest)
      × (last_value (values_if (λ x. leb oldest.time x.time) ts) ≡ some t)
from_oldest_lem ts none t h = absurd (ground (arith, h))
from_oldest_lem ts (some oldest) t h = (oldest, refl, h)

-- A pending transition is of the values read, and newer than what was observed.
pending_newer :
    (k : ℕ) (last : Option ℕ) (values : List BarValue) (t : BarValue) (P : BarValue → Type 0)
    → All P values
    → pending_transition k last values ≡ some t
    → P t × (bound_of last ≤ t.time)
unfolding pending_transition
pending_newer k none values t P h e = (
  last_value-All P (transitions BarSignal.flat values) t (transitions-All P BarSignal.flat values h)
      (if_newest_lem (last_value (transitions BarSignal.flat values)) (last_value values) t e),
  omega arith,
)
pending_newer k (some l) values t P h e =
    let ts = transitions BarSignal.flat values in
    let after = values_if (λ v. ltb l v.time) values in
    let (oldest, is_oldest, is_last) = from_oldest_lem ts (first_value (last_values k after)) t e in
    let actionable = values_if (λ x. leb oldest.time x.time) ts in
    let newer : ltb l oldest.time ≡ true =
      first_value-All (λ x. ltb l x.time ≡ true) (last_values k after) oldest
        (drop_values-All (λ x. ltb l x.time ≡ true) (length after - k) after
          (values_if-test (λ v. ltb l v.time) values))
        is_oldest in
    let in_time : leb oldest.time t.time ≡ true =
      last_value-All (λ x. leb oldest.time x.time ≡ true) actionable t
        (values_if-test (λ x. leb oldest.time x.time) ts) is_last in
    (
      last_value-All P actionable t
          (values_if-All P (λ x. leb oldest.time x.time) ts
            (transitions-All P BarSignal.flat values h))
          is_last,
      ground (arith, newer, in_time),
    )

-- Without values there is no last one, and nothing is pending.
no_values : (xs : List BarValue) → last_value xs ≡ none → xs ≡ []
unfolding last_value
no_values [] h = refl
no_values (x ∷ xs) h = elim (Option-cases (last_value xs)) [
  | inl nothing ↦ absurd (ground (arith, h, nothing))
  | inr (z, there) ↦ absurd (ground (arith, h, there))
]

pending-nil : (k : ℕ) (last : Option ℕ) → pending_transition k last [] ≡ none
unfolding pending_transition transitions last_value values_if
pending-nil k none = refl
pending-nil k (some l) = elim (Option-cases (first_value (last_values k []))) [
  | inl nothing ↦ rw (nothing) refl
  | inr (o, there) ↦ rw (there) refl
]

observed_after-some :
    (last : Option ℕ) (values : List BarValue) (v : BarValue)
    → last_value values ≡ some v
    → observed_after last values ≡ some v.time
observed_after-some last values v h = ap (λ o. elim o [ none ↦ last | some v ↦ some v.time ]) h

-- What a read observes is no older than what was observed.
bound-grows :
    (last : Option ℕ) (values : List BarValue)
    → IsLatest last values
    → bound_of last ≤ bound_of (observed_after last values)
bound-grows last values latest = elim (Option-cases (last_value values)) [
  | inl nothing ↦
      subst (λ o. bound_of last ≤ bound_of o)
        (sym (ap (λ o. elim o [ none ↦ last | some v ↦ some v.time ]) nothing)) (omega arith)
  | inr (v, there) ↦
      subst (λ o. bound_of last ≤ bound_of o) (sym (observed_after-some last values v there))
        (older last v (λ l e. (latest v there).1 l e))
]
  where
    older :
        (last : Option ℕ) (v : BarValue)
        → ((l : ℕ) → last ≡ some l → l ≤ v.time)
        → bound_of last ≤ suc v.time
    older none v h = omega arith
    older (some l) v h = omega (arith, h l refl)

-- A pending transition is no newer than what its read observes.
pending-observed :
    (k : ℕ) (last : Option ℕ) (values : List BarValue) (t : BarValue)
    → IsLatest last values
    → pending_transition k last values ≡ some t
    → suc t.time ≤ bound_of (observed_after last values)
pending-observed k last values t latest e = elim (Option-cases (last_value values)) [
  | inl nothing ↦
      let empty = no_values values nothing in
      absurd
        (ground (arith, sym (ap (λ l. pending_transition k last l) empty ∙ pending-nil k last) ∙ e))
  | inr (v, there) ↦
      subst (λ o. suc t.time ≤ bound_of o) (sym (observed_after-some last values v there))
        (omega
          (arith, (pending_newer k last values t (λ x. x.time ≤ v.time) (latest v there).0 e).0))
]

All-values : (xs : List BarValue) → All (λ x. Unit {0}) xs
All-values [] = tt
All-values (x ∷ xs) = (tt, All-values xs)

emitted-from :
    (k : ℕ) (last : Option ℕ) (reads : List (List BarValue))
    → IsFeed last reads
    → Rises (bound_of last) (emitted k last reads)
unfolding emitted
emitted-from k last [] feed = tt
emitted-from k last (values ∷ reads) feed =
    let next = observed_after last values in
    let rest = emitted-from k next reads feed.1 in
    elim (Option-cases (pending_transition k last values)) [
      | inl nothing ↦
          rw (emitted, nothing)
            (Rises-from (bound_of last) (bound_of next) (emitted k next reads)
              (bound-grows last values feed.0) rest)
      | inr (t, there) ↦
          rw (emitted, there)
            (
              (pending_newer k last values t (λ x. Unit {0}) (All-values values) there).1,
              Rises-from (suc t.time) (bound_of next) (emitted k next reads)
                  (pending-observed k last values t feed.0 there) rest,
            )
    ]

-- If the last bar of each read is its newest, and no older than that of the read before, then the
-- transitions that reads from a cold start emit have strictly rising times: none is emitted twice,
-- and none after a later one.
pub emitted-Rises :
    (max_backlog_bars : ℕ) (reads : List (List BarValue))
    → IsFeed none reads
    → Rises 0 (emitted max_backlog_bars none reads)
emitted-Rises max_backlog_bars reads feed = emitted-from max_backlog_bars none reads feed
