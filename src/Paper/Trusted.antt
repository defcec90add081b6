-- ===== src/Paper/Trusted.antt =====
-- What the validation of a stored row lets through.
use xauusd.Prelude.{
  ℕ, String, ◌≡◌, Bool, true, false, not, ◌&&◌, ◌⊎◌, Option, none, some, List, [], ◌∷◌,
  if◌then◌else◌, all, All,
}
use xauusd.Number.{Number, finite}
use xauusd.Paper.State.{corrupt_state}
use xauusd.Paper.Validation.{
  Json, Items, Members, null, boolean, number, huge, words, array, object, Validated, trusted,
  overflow, key_of, is_present, is_boolean, is_array, required_state_keys, numeric_state_keys,
  encode, corrupt,
}

module _ {F : Type 0} ⦃n : Number F⦄ where
  -- An object that the gates can evaluate: every key that they index is there, with its type, and the
  -- account's numbers are finite.
  pub record IsEvaluable (ms : Members F) : Type 0 where
    pub stopped : (b : Bool) × (key_of "stopped" ms ≡ some (boolean b))
    pub reason : (v : Json F) × (key_of "kill_switch_reason" ms ≡ some v)
    pub ledger : (vs : Items F) × (key_of "ledger" ms ≡ some (array vs))
    pub day : (key_of "day" ms ≡ some null) ⊎ ((d : String) × (key_of "day" ms ≡ some (words d)))
    pub numbers :
        All (λ k. (a : F) × (key_of k ms ≡ some (number a)) × (finite a ≡ true)) numeric_state_keys

  -- Some of these fields holds a huge integer.
  abbrev pub HasHuge : List String → Members F → Type 0
  HasHuge [] ms = ⊥
  HasHuge (k ∷ ks) ms = (key_of k ms ≡ some huge) ⊎ HasHuge ks ms

  abbrev AreNumbers : List String → Members F → Type 0
  AreNumbers ks ms = All (λ k. (a : F) × (key_of k ms ≡ some (number a)) × (finite a ≡ true)) ks

  -- All the tests of an object but that of its numbers.
  abbrev is_shaped : Members F → Bool
  is_shaped ms =
      all (λ k. is_present (key_of k ms)) required_state_keys
      && (is_boolean (key_of "stopped" ms) && is_array (key_of "ledger" ms))

module _ {F : Type 0} ⦃n : Number F⦄ (show_time : ℕ → String) where
  -- What the validation of this value ends with.
  abbrev pub IsTrusted : F → Json F → Validated F → Type 0
  IsTrusted initial_cash v (trusted ms) =
      IsEvaluable ms × ((v ≡ object ms) ⊎ (ms ≡ encode show_time (corrupt_state initial_cash)))
  IsTrusted initial_cash v overflow =
      (ms : Members F) × (v ≡ object ms) × HasHuge numeric_state_keys ms

  -- The rest of the validation, behind the tests of the shape.
  abbrev number_tests : F → Members F → Option Bool → Bool → Validated F
  number_tests initial_cash ms none on = overflow
  number_tests initial_cash ms (some false) on = corrupt show_time initial_cash
  number_tests initial_cash ms (some true) on =
      if not on then corrupt show_time initial_cash else trusted ms
