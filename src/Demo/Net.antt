-- ===== src/Demo/Net.antt =====
-- The sums behind an exposure (`verify_position_exposure`, xauusd/ctrader_demo.py): of the accepted
-- fills on record and of the broker's positions, at a position id; and its dictionaries as such sums.
use text.Mathlib.Text.{◌==◌ as str_eq}
use xauusd.Prelude.{
  ℕ, String, ◌≡◌, refl, sym, ap, ◌∙◌, subst, Bool, true, false, not, ◌==◌, if◌then◌else◌, Option,
  none, some, List, [], ◌∷◌, &&_iff, Bool-cases, inl, inr, arith,
}
use xauusd.Prelude.Int.{ℤ, pos, ◌+ℤ◌, eq_ℤ, eq_ℤ-eq, +ℤ_zero, zero_+ℤ, +ℤ_assoc}
use xauusd.Demo.State.{DemoAccount, RequestRow, DemoOutcome, Receipt, Position}
use xauusd.Demo.Adapter.{is_some_number, is_some_positive}
use xauusd.Demo.Exposure.{
  Volumes, without_zeros, or_zero, volume_of, add_volume, signed_volume, is_held,
  is_verified_position, positions_of,
}

abbrev pub value : Option ℤ → ℤ
value none = pos 0
value (some v) = v

-- What an entry adds at a key.
abbrev pub at_key : ℕ → ℕ → ℤ → ℤ
at_key k j v = if j == k then v else pos 0

-- What the broker's positions of an id add up to.
abbrev pub position_net : ℕ → List Position → ℤ
position_net k [] = pos 0
position_net k (p ∷ ps) =
    at_key k (or_zero p.position_id) (signed_volume (is_some_number 1 p.side) (or_zero p.volume))
    +ℤ position_net k ps

-- What a row's fill adds at a position id: nothing unless its outcome was accepted.
abbrev pub receipt_volume : ℕ → RequestRow → Option Receipt → ℤ
receipt_volume k row none = pos 0
receipt_volume k row (some r) =
    at_key k (or_zero r.last.position_id)
      (signed_volume (str_eq row.request.side "BUY") (or_zero r.last.filled_volume))

abbrev pub outcome_volume : ℕ → RequestRow → Option DemoOutcome → ℤ
outcome_volume k row none = pos 0
outcome_volume k row (some o) = if o.accepted then receipt_volume k row o.response else pos 0

-- What the accepted fills on record add up to at a position id.
abbrev pub fill_net : ℕ → List (String × RequestRow) → ℤ
fill_net k [] = pos 0
fill_net k ((id, row) ∷ rows) = outcome_volume k row row.outcome +ℤ fill_net k rows

pub value-add_volume :
    (k j : ℕ) (v : ℤ) (d : Volumes)
    → value (volume_of k (add_volume j v d)) ≡ value (volume_of k d) +ℤ at_key k j v
unfolding volume_of add_volume
value-add_volume k j v [] = elim (Bool-cases (j == k)) [
  | inl here ↦ rw (here) (sym (zero_+ℤ v))
  | inr there ↦ rw (there) refl
]
value-add_volume k j v ((i, u) ∷ d) = elim (Bool-cases (i == j)) [
  | inl same ↦
      let is_j : i ≡ j = ground (arith, same) in
      elim (Bool-cases (i == k)) [
        | inl here ↦
            let there : j == k ≡ true = ground (arith, same, here) in
            rw (add_volume, same, here, there) refl
        | inr away ↦
            let there : j == k ≡ false = ground (arith, same, away) in
            rw (add_volume, same, away, there) (sym (+ℤ_zero (value (volume_of k d))))
      ]
  | inr other ↦ elim (Bool-cases (i == k)) [
    | inl here ↦
        let there : j == k ≡ false = ground (arith, other, here) in
        rw (add_volume, other, here, there) (sym (+ℤ_zero u))
    | inr away ↦ rw (add_volume, other, away) (value-add_volume k j v d)
  ]
]

not_held : (o : Option ℤ) → is_held o ≡ false → o ≡ none
not_held none h = refl
not_held (some v) h = absurd (ground (arith, h))

-- A new key's entry adds its volume.
value-cons :
    (k j : ℕ) (v : ℤ) (d : Volumes)
    → is_held (volume_of j d) ≡ false
    → value (volume_of k ((j, v) ∷ d)) ≡ value (volume_of k d) +ℤ at_key k j v
unfolding volume_of
value-cons k j v d new = elim (Bool-cases (j == k)) [
  | inl here ↦
      let empty : volume_of k d ≡ none =
        not_held (volume_of k d)
          (subst (λ i. is_held (volume_of i d) ≡ false) (ground (arith, here)) new) in
      rw (here, empty) (sym (zero_+ℤ v))
  | inr there ↦ rw (there) (sym (+ℤ_zero (value (volume_of k d))))
]

not-true : (b : Bool) → not b ≡ true → b ≡ false
not-true true h = absurd (ground (arith, h))
not-true false h = refl

verified-new :
    (account : DemoAccount) (p : Position) (before : Volumes)
    → is_verified_position account p before ≡ true
    → is_held (volume_of (or_zero p.position_id) before) ≡ false
unfolding is_verified_position
verified-new account p before h =
    let (_, rest) = (&&_iff (is_some_positive p.position_id) _).0 h in
    not-true (is_held (volume_of (or_zero p.position_id) before)) ((&&_iff _ _).0 rest).0

pub value-positions_of :
    (account : DemoAccount) (k : ℕ) (ps : List Position) (before after : Volumes)
    → positions_of account ps before ≡ some after
    → value (volume_of k after) ≡ value (volume_of k before) +ℤ position_net k ps
unfolding positions_of volume_of
value-positions_of account k [] before after h =
    let same : before ≡ after = ground (arith, h) in
    subst (λ d. value (volume_of k d) ≡ value (volume_of k before) +ℤ pos 0) same
      (sym (+ℤ_zero (value (volume_of k before))))
value-positions_of account k (p ∷ ps) before after h =
    elim (Bool-cases (is_verified_position account p before)) [
      | inr bad ↦ absurd (ground (arith, bad))
      | inl good ↦
          let j = or_zero p.position_id in
          let v = signed_volume (is_some_number 1 p.side) (or_zero p.volume) in
          let rest : positions_of account ps ((j, v) ∷ before) ≡ some after =
            ground (arith, h, good) in
          let first : value (volume_of k ((j, v) ∷ before))
              ≡ value (volume_of k before) +ℤ at_key k j v =
            value-cons k j v before (verified-new account p before good) in
          value-positions_of account k ps ((j, v) ∷ before) after rest
          ∙ (ap (λ t. t +ℤ position_net k ps) first
              ∙ +ℤ_assoc (value (volume_of k before)) (at_key k j v) (position_net k ps))
    ]

-- The keys of a dictionary are distinct.
abbrev pub AreKeys : Volumes → Type 0
AreKeys [] = Unit
AreKeys ((j, v) ∷ d) = (volume_of j d ≡ none) × AreKeys d

absent-add_volume :
    (k j : ℕ) (v : ℤ) (d : Volumes)
    → j == k ≡ false
    → volume_of k d ≡ none
    → volume_of k (add_volume j v d) ≡ none
unfolding volume_of add_volume
absent-add_volume k j v [] other h = rw (other) refl
absent-add_volume k j v ((i, u) ∷ d) other h = ground (arith, other, h, absent-add_volume k j v d)

pub AreKeys-add_volume : (j : ℕ) (v : ℤ) (d : Volumes) → AreKeys d → AreKeys (add_volume j v d)
unfolding volume_of add_volume
AreKeys-add_volume j v [] h = (refl, tt)
AreKeys-add_volume j v ((i, u) ∷ d) h = elim (Bool-cases (i == j)) [
  | inl same ↦ rw (add_volume, same) h
  | inr other ↦
      rw (add_volume, other)
        (absent-add_volume i j v d (ground (arith, other)) h.0, AreKeys-add_volume j v d h.1)
]

absent-without_zeros :
    (k : ℕ) (d : Volumes) → volume_of k d ≡ none → volume_of k (without_zeros d) ≡ none
unfolding volume_of without_zeros
absent-without_zeros k [] h = refl
absent-without_zeros k ((j, v) ∷ d) h = ground (arith, h, absent-without_zeros k d)

pub value-without_zeros :
    (k : ℕ) (d : Volumes)
    → AreKeys d
    → value (volume_of k (without_zeros d)) ≡ value (volume_of k d)
unfolding volume_of without_zeros
value-without_zeros k [] h = refl
value-without_zeros k ((j, v) ∷ d) h = elim (Bool-cases (eq_ℤ v (pos 0))) [
  | inr full ↦ elim (Bool-cases (j == k)) [
    | inl here ↦ rw (without_zeros, full, here) refl
    | inr there ↦ rw (without_zeros, full, there) (value-without_zeros k d h.1)
  ]
  | inl zero ↦ elim (Bool-cases (j == k)) [
    | inl here ↦
        let empty : volume_of k d ≡ none =
          subst (λ i. volume_of i d ≡ none) (ground (arith, here)) h.0 in
        rw (without_zeros, zero, here, absent-without_zeros k d empty)
          (sym (eq_ℤ-eq v (pos 0) zero))
    | inr there ↦ rw (without_zeros, zero, there) (value-without_zeros k d h.1)
  ]
]
