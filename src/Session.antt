-- ===== src/Session.antt =====
-- The trading session, the age of market data and calendar dates.
mod Calendar
mod Defs
pub mod Week
unfoldable pub use Calendar.{iso_date, day_of}
unfoldable pub use Defs.{
  new_york_close_hour, new_york_reopen_hour, microseconds_per_hour, weekday, hour, market_is_open,
  bar_interval, year_10000, is_beyond, market_data_age_seconds, observation_is_future,
}
