-- ===== src/Engine/Examples.antt =====
-- The backtester run on concrete bars, and its theorems applied there.
use xauusd.Prelude.{
  ℕ, suc, ◌≡◌, refl, Option, none, some, List, [], ◌∷◌, ◌++◌, map, All, arith, length,
}
use xauusd.Prelude.Int.{pos}
use xauusd.Number.{Exact, whole, exact}
use xauusd.Engine.Config.{ExecutionConfig, Priority}
use xauusd.Engine.Run.{
  Bar, Side, Signal, Loop, Position, ExitReason, protect, pass, passes, first_loop, run_backtest,
}
use xauusd.Engine.Causal.{Begins, no_look_ahead}
use xauusd.Engine.Holding.{IsHeld, run-IsHeld}
use xauusd.Engine.Stops.{IsStopped, protect-IsStopped}
use xauusd.Engine.Ledger.{IsReconciled, run-IsReconciled}

abbrev usd : ℕ → Exact
usd k = whole (pos k)

abbrev config : ExecutionConfig Exact
config = record {
  initial_cash = usd 1000;
  quantity_oz = usd 1;
  spread = usd 2;
  slippage = usd 0;
  commission_per_lot_side = usd 3;
  ounces_per_lot = usd 1;
  stop_distance = some (usd 5);
  target_distance = some (usd 10);
  max_holding_bars = some (pos 3);
  intrabar_priority = Priority.stop_first;
  annual_financing_rate = usd 0;
  session_gap_seconds = usd 60;
}

-- A bar of the given minute that opens and closes at the given prices.
abbrev bar_at : ℕ → ℕ → ℕ → ℕ → ℕ → Bar Exact
bar_at timestamp open_price high low close_price = record {
  timestamp = timestamp;
  open_price = usd open_price;
  high = usd high;
  low = usd low;
  close_price = usd close_price;
}

abbrev buy : Signal
buy = Signal.toward Side.long

abbrev sell : Signal
sell = Signal.toward Side.short

-- A purchase that reaches its stop and its target in one bar, and a sale that is open at the end.
abbrev first_bars : List (Bar Exact × Signal)
first_bars = (bar_at 0 100 101 99 100, buy) ∷ (bar_at 60000000 100 120 90 100, sell) ∷ []

abbrev third_bar : Bar Exact
third_bar = bar_at 120000000 100 101 99 99

abbrev fourth : Bar Exact × Signal
fourth = (bar_at 180000000 99 100 98 98, sell)

abbrev rows : List (Bar Exact × Signal)
rows = first_bars ++ (third_bar, sell) ∷ fourth ∷ []

abbrev summary_of : Option (Loop Exact) → List (ExitReason × ℕ) × Exact
summary_of none = ([], usd 0)
summary_of (some z) = (map (λ t. (t.exit_reason, t.bars_held)) z.trades, z.cash)

-- The stop has priority over the target.
run_summary :
    summary_of (run_backtest config rows)
    ≡ ((ExitReason.stop_exit, 1) ∷ (ExitReason.end_exit, 2) ∷ [], usd 982)
unfolding run_backtest pass passes
run_summary = refl

-- The first three bars and other bars after them.
abbrev other_fourth : Bar Exact × Signal
other_fourth = (bar_at 180000000 500 600 400 500, buy)

no_look_ahead_example :
    let past = passes config (first_bars ++ (third_bar, sell) ∷ []) (first_loop config) in
    (z : Loop Exact) × (z' : Loop Exact) × (run_backtest config rows ≡ some z)
    × (run_backtest config (first_bars ++ (third_bar, buy) ∷ other_fourth ∷ fourth ∷ []) ≡ some z')
    × (length past.equity_rows ≡ suc (length first_bars))
    × Begins config past z
    × Begins config past z'
no_look_ahead_example =
    no_look_ahead config first_bars third_bar sell buy fourth other_fourth [] (fourth ∷ [])

run-IsHeld_example :
    (z : Loop Exact) × (run_backtest config rows ≡ some z) × All (IsHeld 3) z.trades
run-IsHeld_example =
    run-IsHeld config 3 (omega arith) refl (bar_at 0 100 101 99 100, buy)
      ((bar_at 60000000 100 120 90 100, sell) ∷ (third_bar, sell) ∷ fourth ∷ [])

run-IsReconciled_example :
    (z : Loop Exact) × (run_backtest config rows ≡ some z) × IsReconciled config z
run-IsReconciled_example =
    run-IsReconciled config (bar_at 0 100 101 99 100, buy)
      ((bar_at 60000000 100 120 90 100, sell) ∷ (third_bar, sell) ∷ fourth ∷ [])
      (refl, (refl, (refl, (refl, tt))))

abbrev bought : Position Exact
bought = record {
  side = Side.long;
  entry_time = 60000000;
  entry_i = 1;
  entry_price = usd 101;
  entry_commission = usd 3;
}

abbrev in_second : Loop Exact
in_second = record {
  i = 1;
  previous = some (bar_at 0 100 101 99 100, buy);
  cash = usd 997;
  position = some bought;
  trades = [];
  equity_rows = (0, usd 1000) ∷ [];
  financing_total = usd 0;
}

protect-IsStopped_example :
    IsStopped config bought
      (usd 5)
      (bar_at 60000000 100 120 90 100)
      in_second
      (protect config (some bought) (bar_at 60000000 100 120 90 100) in_second)
protect-IsStopped_example =
    protect-IsStopped config bought (bar_at 60000000 100 120 90 100) (usd 5) in_second refl refl
      refl
