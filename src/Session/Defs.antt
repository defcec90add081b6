-- ===== src/Session/Defs.antt =====
-- The XAUUSD trading session and the age of market data (xauusd/paper_trading.py). An aware
-- `datetime` is the number of microseconds since 0001-01-01 00:00 UTC. The time zone database is a
-- parameter: `new_york` gives the New York wall clock reading at an instant, in microseconds too.

use xauusd.Prelude.{
  ℕ, ◌+◌, ◌-◌, ◌*◌, ◌/◌, ◌%◌, Bool, false, not, ◌||◌, if◌then◌else◌, ltb, leb, ◌==◌,
}
use xauusd.Number.{Number, seconds}

-- `NEW_YORK_CLOSE_HOUR` and `NEW_YORK_REOPEN_HOUR`
abbrev pub new_york_close_hour : ℕ
new_york_close_hour = 17

abbrev pub new_york_reopen_hour : ℕ
new_york_reopen_hour = 18

abbrev pub microseconds_per_hour : ℕ
microseconds_per_hour = 3600000000

-- `datetime.weekday()`, Monday being 0: 0001-01-01 was a Monday.
abbrev pub weekday : ℕ → ℕ
weekday local = local / (24 * microseconds_per_hour) % 7

-- `datetime.hour`
abbrev pub hour : ℕ → ℕ
hour local = local / microseconds_per_hour % 24

-- The returns of `market_is_open`, on the weekday and the hour of the local time.
unfoldable pub is_open_at : ℕ → ℕ → Bool
is_open_at day hour =
    if day == 5
    then false
    else if day == 6
    then leb new_york_reopen_hour hour
    else if day == 4
    then ltb hour new_york_close_hour
    else not (hour == new_york_close_hour)

unfoldable pub market_is_open : (ℕ → ℕ) → ℕ → Bool
unfolding is_open_at
market_is_open new_york now = is_open_at (weekday (new_york now)) (hour (new_york now))

-- `BAR_INTERVAL_SECONDS`, in microseconds.
abbrev pub bar_interval : ℕ
bar_interval = 60000000

-- The difference stops at zero, as the source's `max(0.0, ...)` makes it do.
unfoldable pub market_data_age_seconds : {F : Type 0} ⦃n : Number F⦄ → ℕ → ℕ → F
market_data_age_seconds bar_time now = seconds (now - (bar_time + bar_interval))

-- The first instant after `datetime.max`.
abbrev pub year_10000 : ℕ
year_10000 = 315537897600000000

-- Whether adding the bar interval to either time raises OverflowError, which `observation_is_future`
-- does not catch; its callers here ask this first, and raise.
abbrev pub is_beyond : ℕ → ℕ → Bool
is_beyond bar_time now =
    leb year_10000 (bar_time + bar_interval) || leb year_10000 (now + bar_interval)

unfoldable pub observation_is_future : ℕ → ℕ → Bool
observation_is_future bar_time now = ltb (now + bar_interval) (bar_time + bar_interval)
