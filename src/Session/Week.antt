-- ===== src/Session/Week.antt =====
-- The session of `market_is_open` against a description by the position in the New York week.
use xauusd.Prelude.{ℕ, ◌+◌, ◌*◌, ◌%◌, ◌≤◌, ◌<◌, ◌≡◌, ◌↔◌, ◌⊎◌, true, arith}
use xauusd.Session.Defs.{market_is_open, is_open_at, weekday, hour, microseconds_per_hour}

abbrev pub hours : ℕ → ℕ
hours k = k * microseconds_per_hour

-- Where an instant stands in its New York week, counted from Monday 00:00.
abbrev pub week_position : (ℕ → ℕ) → ℕ → ℕ
week_position new_york now = new_york now % hours 168

-- Before Friday 17:00 or from Sunday 18:00 on, and outside the hour from 17:00 to 18:00 of any day.
abbrev pub IsInSession : ℕ → Type 0
IsInSession w =
    ((w < hours (4 * 24 + 17)) ⊎ (hours (6 * 24 + 18) ≤ w))
    × ((w % hours 24 < hours 17) ⊎ (hours 18 ≤ w % hours 24))

-- A reading by its week, its day and its hour.
module _ (x : ℕ) where
  abbrev rest : ℕ
  rest = x % microseconds_per_hour

  position_by_hour : x % hours 168 ≡ weekday x * hours 24 + (hour x * microseconds_per_hour + rest)
  position_by_hour = omega arith

  hour_of_position : x % hours 168 % hours 24 ≡ hour x * microseconds_per_hour + rest
  hour_of_position = omega arith

open_at_iff :
    (day hour rest : ℕ)
    → day < 7
    → hour < 24
    → rest < microseconds_per_hour
    → (is_open_at day hour ≡ true) ↔ (
        ((day * hours 24 + (hour * microseconds_per_hour + rest) < hours (4 * 24 + 17))
          ⊎ (hours (6 * 24 + 18) ≤ day * hours 24 + (hour * microseconds_per_hour + rest)))
        × ((hour * microseconds_per_hour + rest < hours 17)
            ⊎ (hours 18 ≤ hour * microseconds_per_hour + rest)))
unfolding is_open_at
open_at_iff day hour rest d h r = ground arith

-- The market is open exactly when the New York wall clock stands in the week's session: from Sunday
-- 18:00 to Friday 17:00, less the hour from 17:00 to 18:00 of each day.
pub market_is_open-IsInSession :
    (new_york : ℕ → ℕ) (now : ℕ)
    → (market_is_open new_york now ≡ true) ↔ IsInSession (week_position new_york now)
unfolding market_is_open
market_is_open-IsInSession new_york now =
    let x = new_york now in
    rw (hour_of_position x, position_by_hour x)
      (open_at_iff (weekday x) (hour x) (rest x) (omega arith) (omega arith) (omega arith))
