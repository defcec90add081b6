-- ===== src/Paper/Total.antt =====
-- The exceptions that a decision or an observation can raise: with a positive high water mark no
-- division fails, and what is left is a number that is not finite on its way into the store and a
-- time that is too late for `datetime`.
use xauusd.Prelude.{ℕ, ◌≡◌, ◌≢◌, true, ◌⊎◌, ◌+◌, ◌≤◌}
use xauusd.Number.{Number, IsOrdered, of_ℕ, lt}
use xauusd.Paper.State.{PaperState, Error, Result, raised, not_json, date_overflow}
use xauusd.Paper.Account.{Desk}

-- The exception of a sum that is after 9999-12-31, in microseconds since 0001-01-01: that of the
-- time of the market data and an interval, or that of the clock and an interval.
abbrev pub IsTooLate : ℕ → ℕ → Error → Type 0
IsTooLate at now e =
    (e ≡ date_overflow)
    × ((315537897600000000 ≤ at + 60000000) ⊎ (315537897600000000 ≤ now + 60000000))

module _ {F : Type 0} ⦃n : Number F⦄ (laws : IsOrdered n) (desk : Desk F) (initial_cash : F) where
  abbrev NeverRaises : {A : Type 0} → Result A → Type 0
  NeverRaises r = (e : Error) → r ≢ raised e

  abbrev Raises : {A : Type 0} → (Error → Type 0) → Result A → Type 0
  Raises P r = (e : Error) → r ≡ raised e → P e

  -- What a call raises, if it does: that a number is not finite, or what `P` allows.
  abbrev Only : {A : Type 0} → (Error → Type 0) → Result A → Type 0
  Only P r = (e : Error) → r ≡ raised e → (e ≡ not_json) ⊎ P e

  abbrev IsSolvent : PaperState F → Type 0
  IsSolvent s = lt (of_ℕ 0) s.high_water_equity ≡ true
