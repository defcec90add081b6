-- ===== src/Engine/Config.antt =====
-- The settings of the backtester, their validation, and the metrics that may be undefined.
use xauusd.Prelude.{Bool, true, false, not, ◌&&◌, ◌||◌, if◌then◌else◌, Option, none, some}
use xauusd.Prelude.Int.{ℤ}
use xauusd.Number.{Number, of_ℕ, sub, mul, div, lt, le, eq, finite}

pub data Priority : Type 0 where
  stop_first target_first : Priority

pub record ExecutionConfig (F : Type 0) : Type 0 where
  pub initial_cash : F
  pub quantity_oz : F
  pub spread : F
  pub slippage : F
  pub commission_per_lot_side : F
  pub ounces_per_lot : F
  pub stop_distance : Option F
  pub target_distance : Option F
  pub max_holding_bars : Option ℤ
  pub intrabar_priority : Priority
  pub annual_financing_rate : F
  pub session_gap_seconds : F

abbrev pub is_stop_first : Priority → Bool
is_stop_first Priority.stop_first = true
is_stop_first Priority.target_first = false

module _ {F : Type 0} ⦃n : Number F⦄ where
  -- The guards of `__post_init__`.
  abbrev pub has_size : ExecutionConfig F → Bool
  has_size c =
      not
        (le c.initial_cash (of_ℕ 0) || (le c.quantity_oz (of_ℕ 0) || le c.ounces_per_lot (of_ℕ 0)))

  abbrev pub has_costs : ExecutionConfig F → Bool
  has_costs c =
      not
        (lt c.spread (of_ℕ 0) || (lt c.slippage (of_ℕ 0) || lt c.commission_per_lot_side (of_ℕ 0)))

  abbrev pub has_financing : ExecutionConfig F → Bool
  has_financing c =
      not (not (finite c.annual_financing_rate) || lt c.annual_financing_rate (of_ℕ 0))

  abbrev pub has_gap : ExecutionConfig F → Bool
  has_gap c = not (not (finite c.session_gap_seconds) || le c.session_gap_seconds (of_ℕ 0))

  -- `__post_init__`: whether the settings are accepted.
  abbrev pub is_valid_config : ExecutionConfig F → Bool
  is_valid_config c =
      has_size c
      && (has_costs c && (has_financing c && (has_gap c && is_stop_first c.intrabar_priority)))

  -- The commission of one side of a trade.
  abbrev pub commission : ExecutionConfig F → F
  commission c = div (mul c.commission_per_lot_side c.quantity_oz) c.ounces_per_lot

  -- The days of a year, 365.25.
  abbrev pub year_days : F
  year_days = div (of_ℕ 36525) (of_ℕ 100)

  abbrev pub overnight_cost : ExecutionConfig F → F → F
  overnight_cost c price =
      if eq c.annual_financing_rate (of_ℕ 0)
      then of_ℕ 0
      else mul (mul (div c.annual_financing_rate year_days) (Number.abs n price)) c.quantity_oz

  -- A metric that is not defined passes no gate.
  abbrev pub metric_above : Option F → F → Bool
  metric_above none threshold = false
  metric_above (some value) threshold = lt threshold value

  abbrev pub metric_at_least : Option F → F → Bool
  metric_at_least none threshold = false
  metric_at_least (some value) threshold = le threshold value

  abbrev pub profit_factor : F → F → Option F
  profit_factor profits losses = if lt (of_ℕ 0) losses then some (div profits losses) else none

  -- `_cagr`, where `power` is the operator `**`.
  abbrev pub cagr : (F → F → F) → F → F → F → Option F
  cagr power final_equity initial_cash years =
      if le final_equity (of_ℕ 0) || le initial_cash (of_ℕ 0)
      then none
      else (let value = sub (power (div final_equity initial_cash) (div (of_ℕ 1) years)) (of_ℕ 1) in
          if finite value then some value else none)
