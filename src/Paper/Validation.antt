-- ===== src/Paper/Validation.antt =====
-- `validated_paper_state` (xauusd/paper_trading.py) on the JSON of a state row, and what
-- `canonical_json` writes of a state: the decoding behind `Row` and `validated` of Store.
use text.Mathlib.Text.{◌==◌ as str_eq}
use xauusd.Paper.Store.{readable, validated}
use xauusd.Prelude.{
  ℕ, String, ◌≡◌, refl, Bool, true, false, not, ◌||◌, inl, inr, Option, none, some, List, [], ◌∷◌,
  if◌then◌else◌, all, arith, Option-cases,
}
use xauusd.Number.{Number, finite}
use xauusd.Paper.State.{Fill, PaperState, corrupt_state, is_finite_account}

-- A decoded JSON value.
mutual
  pub data Json (F : Type 0) : Type 0 where
    null : Json F
    boolean : Bool → Json F
    -- A float, or an integer that a float can hold.
    number : F → Json F
    -- An integer beyond the floats' range, for which `math.isfinite` raises OverflowError.
    huge : Json F
    words : String → Json F
    array : Items F → Json F
    object : Members F → Json F

  pub data Items (F : Type 0) : Type 0 where
    no_items : Items F
    item : Json F → Items F → Items F

  pub data Members (F : Type 0) : Type 0 where
    no_members : Members F
    member : String → Json F → Members F → Members F

-- What the validation ends with: an object, or the OverflowError that it does not catch.
pub data Validated (F : Type 0) : Type 0 where
  trusted : Members F → Validated F
  overflow : Validated F

module _ {F : Type 0} where
  -- `state[key]`, where `key in state`.
  unfoldable pub key_of : String → Members F → Option (Json F)
  key_of k no_members = none
  key_of k (member j v ms) = if str_eq j k then some v else key_of k ms

  abbrev pub is_present : Option (Json F) → Bool
  is_present none = false
  is_present (some v) = true

  abbrev pub is_boolean : Option (Json F) → Bool
  is_boolean (some (boolean b)) = true
  is_boolean _ = false

  abbrev pub is_array : Option (Json F) → Bool
  is_array (some (array vs)) = true
  is_array _ = false

  -- `None` or a text.
  abbrev pub is_day : Option (Json F) → Bool
  is_day (some null) = true
  is_day (some (words t)) = true
  is_day _ = false

-- `REQUIRED_STATE_KEYS`
abbrev pub required_state_keys : List String
required_state_keys =
    "stopped" ∷ "kill_switch_reason" ∷ "cash" ∷ "position" ∷ "average_entry_price" ∷ "mark_price"
    ∷ "high_water_equity" ∷ "day" ∷ "day_start_equity" ∷ "trades_today" ∷ "ledger" ∷ []

-- `NUMERIC_STATE_KEYS`
abbrev pub numeric_state_keys : List String
numeric_state_keys =
    "cash" ∷ "position" ∷ "average_entry_price" ∷ "mark_price" ∷ "high_water_equity"
    ∷ "day_start_equity" ∷ "trades_today" ∷ []

module _ {F : Type 0} ⦃n : Number F⦄ where
  -- The test on a numeric field, and none where it raises.
  abbrev pub is_finite_number : Option (Json F) → Option Bool
  is_finite_number (some (number a)) = some (finite a)
  is_finite_number (some huge) = none
  is_finite_number _ = some false

  -- `all(...)` over numeric fields: the first that is refused or that raises ends it.
  unfoldable pub all_finite : List String → Members F → Option Bool
  all_finite [] ms = some true
  all_finite (k ∷ ks) ms =
      let rest = all_finite ks ms in
      elim (is_finite_number (key_of k ms)) [
        | none ↦ none
        | some false ↦ some false
        | some true ↦ rest
      ]

module _ {F : Type 0} ⦃n : Number F⦄ (show_time : ℕ → String) where
  -- What `canonical_json` writes, with the keys in order; `show_time` is `datetime.isoformat`.
  pub encode_fill : Fill F → Json F
  encode_fill f = object (
      member "decision_id" (words f.decision_id) (
        member "filled_at" (words (show_time f.filled_at)) (
          member "price" (number f.price) (
            member "quantity" (number f.quantity) (
              member "realized_pnl" (number f.realized_pnl)
                (member "side" (words f.side) no_members))))))

  pub encode_ledger : List (Fill F) → Items F
  encode_ledger [] = no_items
  encode_ledger (f ∷ fs) = item (encode_fill f) (encode_ledger fs)

  unfoldable pub encode_day : Option String → Json F
  encode_day none = null
  encode_day (some d) = words d

  unfoldable pub encode : PaperState F → Members F
  encode s = member "average_entry_price" (number s.average_entry_price) (
      member "cash" (number s.cash) (
        member "day" (encode_day s.day) (
          member "day_start_equity" (number s.day_start_equity) (
            member "high_water_equity" (number s.high_water_equity) (
              member "kill_switch_reason" (words s.kill_switch_reason) (
                member "ledger" (array (encode_ledger s.ledger)) (
                  member "mark_price" (number s.mark_price) (
                    member "position" (number s.position) (
                      member "stopped" (boolean s.stopped)
                        (member "trades_today" (number s.trades_today) no_members))))))))))

  abbrev pub corrupt : F → Validated F
  corrupt initial_cash = trusted (encode (corrupt_state initial_cash))

  -- The tests on an object, each of which returns the corrupt account if it fails.
  unfoldable pub validated_object : F → Members F → Validated F
  validated_object initial_cash ms =
      if not (all (λ k. is_present (key_of k ms)) required_state_keys)
      then corrupt initial_cash
      else if not (is_boolean (key_of "stopped" ms)) || not (is_array (key_of "ledger" ms))
      then corrupt initial_cash
      else elim (all_finite numeric_state_keys ms) [
        | none ↦ overflow
        | some false ↦ corrupt initial_cash
        | some true ↦ if not (is_day (key_of "day" ms)) then corrupt initial_cash else trusted ms
      ]

  unfoldable pub validated_json : F → Json F → Validated F
  validated_json initial_cash (object ms) = validated_object initial_cash ms
  validated_json initial_cash null = corrupt initial_cash
  validated_json initial_cash (boolean b) = corrupt initial_cash
  validated_json initial_cash (number a) = corrupt initial_cash
  validated_json initial_cash huge = corrupt initial_cash
  validated_json initial_cash (words t) = corrupt initial_cash
  validated_json initial_cash (array vs) = corrupt initial_cash

  -- On the text of a row; `loads` is `json.loads`, which finds a value or raises a ValueError.
  unfoldable pub validated_text : (String → Option (Json F)) → F → String → Validated F
  validated_text loads initial_cash row = elim (loads row) [
    | none ↦ corrupt initial_cash
    | some v ↦ validated_json initial_cash v
  ]

  is_day-encode_day : (s : PaperState F) → is_day (some (encode_day s.day)) ≡ true
  unfolding encode_day
  is_day-encode_day s = elim (Option-cases s.day) [ inl h ↦ rw h refl | inr (d, h) ↦ rw h refl ]

  -- Read back, the JSON of a state gives that JSON if the account's numbers are finite, and the JSON
  -- of the stopped corrupt account otherwise: `validated` of the store is this validation of what the
  -- store wrote.
  pub validated_json-encode :
      (initial_cash : F) (s : PaperState F)
      → validated_json initial_cash (object (encode s))
        ≡ trusted (encode (validated initial_cash (readable s)))
  unfolding validated_json validated_object all_finite encode key_of validated is_finite_account
  validated_json-encode initial_cash s = ground (arith, is_day-encode_day s)
