-- ===== src/Demo/Tally.antt =====
-- The tally of the fills on record (`verify_position_exposure`, xauusd/ctrader_demo.py) as a sum.
use text.Mathlib.Text.{◌==◌ as str_eq}
use xauusd.Prelude.{
  ℕ, String, ◌≡◌, refl, sym, ap, ◌∙◌, subst, Bool, true, false, if◌then◌else◌, Option, none, some,
  List, [], ◌∷◌, &&_iff, Bool-cases, Option-cases, inl, inr, arith,
}
use xauusd.Prelude.Int.{ℤ, pos, ◌+ℤ◌, +ℤ_zero, zero_+ℤ, +ℤ_assoc}
use xauusd.Demo.State.{DemoAccount, RequestRow, DemoOutcome, Receipt, Event, Position}
use xauusd.Demo.Exposure.{
  Volumes, Tally, tally_of, without_zeros, or_zero, volume_of, add_volume, signed_volume,
  is_resolved, is_rejected, is_verified_fill, add_deal, add_fill, add_receipt, add_outcome,
  positions_of,
}
use xauusd.Demo.Net.{
  value, at_key, position_net, receipt_volume, outcome_volume, fill_net, AreKeys, value-add_volume,
  AreKeys-add_volume, value-without_zeros, value-positions_of,
}

some_injective : (a b : Tally) → ◌≡◌ {A = Option Tally} (some a) (some b) → a ≡ b
some_injective a b h = ground (arith, h)

-- What adding a row's outcome does to the volumes.
abbrev Adds : ℕ → Volumes → ℤ → Tally → Type 0
Adds k volumes v t = AreKeys t.0 × (value (volume_of k t.0) ≡ value (volume_of k volumes) +ℤ v)

add_fill-Adds :
    (k : ℕ) (row : RequestRow) (e : Event) (volumes : Volumes) (deals : Option (List ℕ)) (t : Tally)
    → (elim deals [
      | none ↦ none
      | some deals' ↦ some (
        add_volume
            (or_zero e.position_id)
            (signed_volume (str_eq row.request.side "BUY") (or_zero e.filled_volume))
            volumes,
        deals',
      )
    ])
      ≡ some t
    → AreKeys volumes
    → Adds k volumes
        (at_key k
          (or_zero e.position_id)
          (signed_volume (str_eq row.request.side "BUY") (or_zero e.filled_volume)))
        t
add_fill-Adds k row e volumes none t h keys = absurd (ground (arith, h))
add_fill-Adds k row e volumes (some deals) t h keys =
    let v = signed_volume (str_eq row.request.side "BUY") (or_zero e.filled_volume) in
    let is_t : (add_volume (or_zero e.position_id) v volumes, deals) ≡ t = some_injective _ t h in
    subst (Adds k volumes (at_key k (or_zero e.position_id) v)) is_t (
      AreKeys-add_volume (or_zero e.position_id) v volumes keys,
      value-add_volume k (or_zero e.position_id) v volumes,
    )

verified-accepted :
    (account : DemoAccount) (id : String) (row : RequestRow) (o : DemoOutcome) (e : Event)
    → is_verified_fill account id row o e ≡ true
    → o.accepted ≡ true
unfolding is_verified_fill
verified-accepted account id row o e h = ((&&_iff o.accepted _).0 h).0

if_some :
    (test : Bool) (x : Option Tally) (t : Tally)
    → (if test then x else none) ≡ some t
    → (test ≡ true) × (x ≡ some t)
if_some true x t h = (refl, h)
if_some false x t h = absurd (ground (arith, h))

add_receipt-Adds :
    (k : ℕ) (account : DemoAccount) (id : String) (row : RequestRow) (o : DemoOutcome)
    (response : Option Receipt) (volumes : Volumes) (deals : List ℕ) (t : Tally)
    → add_receipt account id row o response (volumes, deals) ≡ some t
    → AreKeys volumes
    → (o.accepted ≡ true) × Adds k volumes (receipt_volume k row response) t
add_receipt-Adds k account id row o none volumes deals t h keys = absurd (ground (arith, h))
add_receipt-Adds k account id row o (some r) volumes deals t h keys =
    let (good, made) =
      if_some (is_verified_fill account id row o r.last) (add_fill row r.last (volumes, deals)) t
        h in
    (
      verified-accepted account id row o r.last good,
      add_fill-Adds k row r.last volumes (add_deal r.last.deal_id deals) t made keys,
    )

rejected_volume :
    (k : ℕ) (row : RequestRow) (o : DemoOutcome)
    → is_rejected o ≡ true
    → outcome_volume k row (some o) ≡ pos 0
rejected_volume k row o h = elim (Bool-cases o.accepted) [
  | inl granted ↦ absurd (ground (arith, h, granted))
  | inr refused ↦ rw (refused) refl
]

add_outcome-Adds :
    (k : ℕ) (account : DemoAccount) (id : String) (row : RequestRow) (o : Option DemoOutcome)
    (volumes : Volumes) (deals : List ℕ) (t : Tally)
    → add_outcome account id row o (volumes, deals) ≡ some t
    → AreKeys volumes
    → Adds k volumes (outcome_volume k row o) t
add_outcome-Adds k account id row none volumes deals t h keys = absurd (ground (arith, h))
add_outcome-Adds k account id row (some o) volumes deals t h keys = either (is_rejected o) refl h
  where
    either :
        (test : Bool)
        → is_rejected o ≡ test
        → (if test
            then some (volumes, deals)
            else add_receipt account id row o o.response (volumes, deals))
          ≡ some t
        → Adds k volumes (outcome_volume k row (some o)) t
    either true rejected g =
        let none_added : value (volume_of k volumes)
            ≡ value (volume_of k volumes) +ℤ outcome_volume k row (some o) =
          sym (
            ap (λ v. value (volume_of k volumes) +ℤ v) (rejected_volume k row o rejected)
            ∙ +ℤ_zero (value (volume_of k volumes))) in
        subst (Adds k volumes (outcome_volume k row (some o))) (some_injective (volumes, deals) t g)
          (keys, none_added)
    either false kept g =
        let (granted, adds) =
          add_receipt-Adds k account id row o o.response volumes deals t g keys in
        rw (granted) adds

-- The tally of the rows is, at each position id, the sum of the accepted fills.
value-tally_of :
    (k : ℕ) (account : DemoAccount) (rows : List (String × RequestRow)) (before after : Tally)
    → tally_of account rows before ≡ some after
    → AreKeys before.0
    → Adds k before.0 (fill_net k rows) after
unfolding tally_of
value-tally_of k account [] before after h keys =
    subst (Adds k before.0 (pos 0)) (some_injective before after h)
      (keys, sym (+ℤ_zero (value (volume_of k before.0))))
value-tally_of k account ((id, row) ∷ rows) before after h keys =
    elim (Bool-cases (is_resolved row)) [
      | inr open_row ↦ absurd (ground (arith, open_row))
      | inl resolved ↦ elim (Option-cases (add_outcome account id row row.outcome before)) [
        | inl nothing ↦ absurd (ground (arith, resolved, nothing))
        | inr (next, is_next) ↦
            let (next_keys, added) =
              add_outcome-Adds k account id row row.outcome before.0 before.1 next is_next keys in
            let (after_keys, rest) =
              value-tally_of k account rows next after (ground (arith, resolved, is_next))
                next_keys in
            (
              after_keys,
              rest
                  ∙ (ap (λ v. v +ℤ fill_net k rows) added
                      ∙ +ℤ_assoc (value (volume_of k before.0)) (outcome_volume k row row.outcome)
                          (fill_net k rows)),
            )
      ]
    ]

-- Where the broker's dictionary is that of the tally, the two sums are equal at every position id.
pub position_net-fill_net :
    (account : DemoAccount) (rows : List (String × RequestRow)) (ps : List Position) (fills : Tally)
    (held : Volumes) (k : ℕ)
    → tally_of account rows ([], []) ≡ some fills
    → positions_of account ps [] ≡ some held
    → volume_of k held ≡ volume_of k (without_zeros fills.0)
    → position_net k ps ≡ fill_net k rows
unfolding volume_of
position_net-fill_net account rows ps fills held k counted listed same =
    let (keys, filled) = value-tally_of k account rows ([], []) fills counted tt in
    sym (zero_+ℤ (position_net k ps))
    ∙ (sym (value-positions_of account k ps [] held listed)
        ∙ (ap value same
            ∙ (value-without_zeros k fills.0 keys ∙ (filled ∙ zero_+ℤ (fill_net k rows)))))
