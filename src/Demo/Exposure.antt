-- ===== src/Demo/Exposure.antt =====
-- `verify_position_exposure` (xauusd/ctrader_demo.py): the fills on record, the broker's positions and
-- the paper account's exposure must agree. A test that raises is false here.
use text.Mathlib.Text.{◌==◌ as str_eq}
use xauusd.Prelude.{
  ℕ, String, Bool, true, false, not, ◌&&◌, ◌||◌, if◌then◌else◌, Option, none, some, List, [], ◌∷◌,
  all, ◌==◌, ltb,
}
use xauusd.Prelude.Int.{ℤ, pos, ◌+ℤ◌, ◌-ℤ◌, eq_ℤ}
use xauusd.Demo.State.{
  DemoAccount, Event, Receipt, OutcomeReason, DemoOutcome, Status, RequestRow, Position, Snapshot,
}
use xauusd.Demo.Store.{is_unknown}
use xauusd.Demo.Adapter.{broker_id_of, is_some_text, is_some_number, is_some_positive}

-- Volumes by position id: dictionaries of signed integers.
abbrev pub Volumes : Type 0
Volumes = List (ℕ × ℤ)

unfoldable pub volume_of : ℕ → Volumes → Option ℤ
volume_of k [] = none
volume_of k ((j, v) ∷ d) = if j == k then some v else volume_of k d

unfoldable pub add_volume : ℕ → ℤ → Volumes → Volumes
add_volume k v [] = (k, v) ∷ []
add_volume k v ((j, u) ∷ d) =
    let rest = add_volume k v d in if j == k then (j, u +ℤ v) ∷ d else (j, u) ∷ rest

unfoldable pub without_zeros : Volumes → Volumes
without_zeros [] = []
without_zeros ((j, v) ∷ d) =
    let rest = without_zeros d in if eq_ℤ v (pos 0) then rest else (j, v) ∷ rest

abbrev is_volume : ℤ → Option ℤ → Bool
is_volume v none = false
is_volume v (some u) = eq_ℤ u v

-- Equality of two dictionaries: each holds every entry of the other.
abbrev pub same_volumes : Volumes → Volumes → Bool
same_volumes d e =
    all (λ x. is_volume x.1 (volume_of x.0 e)) d && all (λ x. is_volume x.1 (volume_of x.0 d)) e

unfoldable pub total : Volumes → ℤ
total [] = pos 0
total ((j, v) ∷ d) = v +ℤ total d

abbrev pub signed_volume : Bool → ℕ → ℤ
signed_volume is_long k = if is_long then pos k else pos 0 -ℤ pos k

abbrev pub is_completed : Status → Bool
is_completed Status.completed = true
is_completed Status.pending = false

abbrev pub is_rejected : DemoOutcome → Bool
is_rejected o = elim o.reason [ some OutcomeReason.broker_rejected ↦ not o.accepted | _ ↦ false ]

-- Whether a row is resolved: completed, with an outcome that is not unknown.
unfoldable pub is_resolved : RequestRow → Bool
is_resolved row =
    is_completed row.status && elim row.outcome [ none ↦ true | some o ↦ not (is_unknown o.reason) ]

-- The volumes and the deal ids of the fills so far.
abbrev pub Tally : Type 0
Tally = Volumes × List ℕ

abbrev pub or_zero : Option ℕ → ℕ
or_zero none = 0
or_zero (some k) = k

abbrev is_among : ℕ → List ℕ → Bool
is_among k [] = false
is_among k (j ∷ js) = j == k || is_among k js

abbrev is_side : String → Bool
is_side side = str_eq side "BUY" || str_eq side "SELL"

-- The tests on a fill's receipt.
unfoldable pub is_verified_fill : DemoAccount → String → RequestRow → DemoOutcome → Event → Bool
is_verified_fill account request_id row o e =
    o.accepted
    && (is_some_number 3 e.execution_type
        && (is_some_positive e.filled_volume
            && (is_some_number row.request.volume e.filled_volume
                && (is_some_positive e.position_id
                    && (is_some_positive e.order_id
                        && (row.request.account_id == account.account_id
                            && (row.request.symbol_id == account.symbol_id
                                && (is_side row.request.side
                                    && is_some_text (broker_id_of request_id row)
                                        e.broker_client_order_id))))))))

unfoldable pub add_deal : Option ℕ → List ℕ → Option (List ℕ)
add_deal none deals = some deals
add_deal (some k) deals = if ltb 0 k && not (is_among k deals) then some (k ∷ deals) else none

abbrev pub add_fill : RequestRow → Event → Tally → Option Tally
add_fill row e (volumes, deals) = elim (add_deal e.deal_id deals) [
  | none ↦ none
  | some deals' ↦ some (
    add_volume (or_zero e.position_id)
        (signed_volume (str_eq row.request.side "BUY") (or_zero e.filled_volume)) volumes,
    deals',
  )
]

abbrev pub add_receipt :
    DemoAccount → String → RequestRow → DemoOutcome → Option Receipt → Tally → Option Tally
add_receipt account request_id row o none tally = none
add_receipt account request_id row o (some r) tally =
    if is_verified_fill account request_id row o r.last then add_fill row r.last tally else none

abbrev pub add_outcome :
    DemoAccount → String → RequestRow → Option DemoOutcome → Tally → Option Tally
add_outcome account request_id row none tally = none
add_outcome account request_id row (some o) tally =
    if is_rejected o then some tally else add_receipt account request_id row o o.response tally

-- The loop over the records.
unfoldable pub tally_of : DemoAccount → List (String × RequestRow) → Tally → Option Tally
tally_of account [] tally = some tally
tally_of account ((request_id, row) ∷ rows) tally =
    if is_resolved row
    then elim (add_outcome account request_id row row.outcome tally) [
      | none ↦ none
      | some tally' ↦ tally_of account rows tally'
    ]
    else none

abbrev pub is_held : Option ℤ → Bool
is_held none = false
is_held (some v) = true

-- The tests on a broker's position.
unfoldable pub is_verified_position : DemoAccount → Position → Volumes → Bool
is_verified_position account p actual =
    is_some_positive p.position_id
    && (not (is_held (volume_of (or_zero p.position_id) actual))
        && (is_some_positive p.volume
            && (is_some_number account.symbol_id p.symbol_id
                && (is_some_number 1 p.position_status
                    && (is_some_number 1 p.side || is_some_number 2 p.side)))))

unfoldable pub positions_of : DemoAccount → List Position → Volumes → Option Volumes
positions_of account [] actual = some actual
positions_of account (p ∷ ps) actual =
    let rest = positions_of account ps (
      (or_zero p.position_id, signed_volume (is_some_number 1 p.side) (or_zero p.volume))
      ∷ actual) in
    if is_verified_position account p actual then rest else none

abbrev pub agrees : ℤ → Option Tally → Option Volumes → Bool
agrees expected_volume (some (volumes, deals)) (some actual) =
    same_volumes actual (without_zeros volumes) && eq_ℤ (total actual) expected_volume
agrees expected_volume (some tally) none = false
agrees expected_volume none actual = false

abbrev pub is_empty : List Event → Bool
is_empty [] = true
is_empty (_ ∷ _) = false

unfoldable pub verify_position_exposure :
    DemoAccount → List (String × RequestRow) → Snapshot → ℤ → Bool
verify_position_exposure account rows snapshot expected_volume =
    is_empty snapshot.open_orders
    && agrees expected_volume (tally_of account rows ([], []))
        (positions_of account snapshot.positions [])
