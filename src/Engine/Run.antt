-- ===== src/Engine/Run.antt =====
-- `EventDrivenBacktester.run` over the bars in the order of their index, each with its signal, already
-- clipped to -1, 0 or 1. An instant is a number of microseconds. The metrics over the equity series
-- are library code.
use xauusd.Prelude.{
  ℕ, suc, ◌+◌, ◌-◌, Bool, true, false, ◌&&◌, if◌then◌else◌, Option, none, some, List, [], ◌∷◌, ◌++◌,
  ltb,
}
use xauusd.Prelude.Int.{pos, leb_ℤ, eqb_ℤ}
use xauusd.Number.{Number, of_ℕ, add, sub, mul, div, neg, lt, le, seconds}
use xauusd.Engine.Config.{ExecutionConfig, is_stop_first, commission, overnight_cost}

pub record Bar (F : Type 0) : Type 0 where
  pub timestamp : ℕ
  pub open_price : F
  pub high : F
  pub low : F
  pub close_price : F

pub data Side : Type 0 where
  long short : Side

-- A target position: -1, 0 or 1.
pub data Signal : Type 0 where
  flat : Signal
  toward : Side → Signal

pub data ExitReason : Type 0 where
  signal_exit stop_exit target_exit time_exit end_exit : ExitReason

pub record Position (F : Type 0) : Type 0 where
  pub side : Side
  pub entry_time : ℕ
  pub entry_i : ℕ
  pub entry_price : F
  pub entry_commission : F

pub record Trade (F : Type 0) : Type 0 where
  pub side : Side
  pub entry_time : ℕ
  pub entry_price : F
  pub exit_time : ℕ
  pub exit_price : F
  pub quantity_oz : F
  pub gross_pnl : F
  pub commission : F
  pub net_pnl : F
  pub bars_held : ℕ
  pub exit_reason : ExitReason

-- The variables of the loop, with the index of the next bar and the bar before it.
pub record Loop (F : Type 0) : Type 0 where
  pub i : ℕ
  pub previous : Option (Bar F × Signal)
  pub cash : F
  pub position : Option (Position F)
  pub trades : List (Trade F)
  pub equity_rows : List (ℕ × F)
  pub financing_total : F

abbrev pub is_same_side : Side → Side → Bool
is_same_side Side.long Side.long = true
is_same_side Side.short Side.short = true
is_same_side Side.long Side.short = false
is_same_side Side.short Side.long = false

-- `desired == position["side"]`
abbrev pub wants : Signal → Side → Bool
wants Signal.flat s = false
wants (Signal.toward d) s = is_same_side d s

abbrev pub opposite : Side → Side
opposite Side.long = Side.short
opposite Side.short = Side.long

module _ {F : Type 0} ⦃n : Number F⦄ where
  -- `side * x`
  abbrev pub times : Side → F → F
  times Side.long x = mul (of_ℕ 1) x
  times Side.short x = mul (neg (of_ℕ 1)) x

  module _ (c : ExecutionConfig F) where
    abbrev pub fill_price : F → Side → Bool → F
    fill_price mid side opening =
        add mid
          (times (if opening then side else opposite side) (add (div c.spread (of_ℕ 2)) c.slippage))

    -- `close`, for the position `p`.
    abbrev pub close : Position F → ℕ → F → ExitReason → ℕ → Loop F → Loop F
    close p timestamp mid reason bars_held s =
        let exit_price = fill_price mid p.side false in
        let gross = mul (times p.side (sub exit_price p.entry_price)) c.quantity_oz in
        let fees = add p.entry_commission (commission c) in
        record s {
          cash = add s.cash (sub gross (commission c));
          position = none;
          trades =
              s.trades
              ++ record {
                side = p.side;
                entry_time = p.entry_time;
                entry_price = p.entry_price;
                exit_time = timestamp;
                exit_price = exit_price;
                quantity_oz = c.quantity_oz;
                gross_pnl = gross;
                commission = fees;
                net_pnl = sub gross fees;
                bars_held = bars_held;
                exit_reason = reason;
              }
                ∷ [];
        }

    -- `crossed_gap[i]`
    abbrev pub crossed_gap : Option (Bar F × Signal) → Bar F → Bool
    crossed_gap none bar = false
    crossed_gap (some (before, signal)) bar =
        lt c.session_gap_seconds (seconds (bar.timestamp - before.timestamp))

    -- The close of the bar before.
    abbrev pub carry_of : Option (Bar F × Signal) → F
    carry_of none = of_ℕ 0
    carry_of (some (before, signal)) = overnight_cost c before.close_price

    -- Financing of a position that was open across a session gap.
    abbrev pub finance : Option (Position F) → Bar F → Loop F → Loop F
    finance none bar s = s
    finance (some p) bar s =
        if ltb p.entry_i s.i && crossed_gap s.previous bar
        then record s {
          financing_total = add s.financing_total (carry_of s.previous);
          cash = sub s.cash (times p.side (carry_of s.previous));
        }
        else s

    -- The signal of the bar before.
    abbrev pub desired : Loop F → Signal
    desired s = elim s.previous [ none ↦ Signal.flat | some (before, signal) ↦ signal ]

    -- A position that is no longer wanted is closed at the open.
    abbrev pub leave : Option (Position F) → Bar F → Loop F → Loop F
    leave none bar s = s
    leave (some p) bar s =
        if wants (desired s) p.side
        then s
        else close p bar.timestamp bar.open_price ExitReason.signal_exit (s.i - p.entry_i) s

    -- A wanted position is opened at the open.
    abbrev pub enter : Option (Position F) → Signal → Bar F → Loop F → Loop F
    enter (some p) wanted bar s = s
    enter none Signal.flat bar s = s
    enter none (Signal.toward side) bar s = record s {
      position = some (record {
        side = side;
        entry_time = bar.timestamp;
        entry_i = s.i;
        entry_price = fill_price bar.open_price side true;
        entry_commission = commission c;
      });
      cash = sub s.cash (commission c);
    }

    -- The stop that the bar touches, if it does.
    abbrev pub stop_hit : Position F → Bar F → Option F
    stop_hit p bar = elim c.stop_distance [
      | none ↦ none
      | some d ↦
          let stop = sub p.entry_price (times p.side d) in
          if elim p.side [ Side.long ↦ le bar.low stop | Side.short ↦ le stop bar.high ]
          then some stop
          else none
    ]

    abbrev pub target_hit : Position F → Bar F → Option F
    target_hit p bar = elim c.target_distance [
      | none ↦ none
      | some d ↦
          let target = add p.entry_price (times p.side d) in
          if elim p.side [ Side.long ↦ le target bar.high | Side.short ↦ le bar.low target ]
          then some target
          else none
    ]

    -- `max_holding_bars and held >= max_holding_bars`
    abbrev pub is_over_time : ℕ → Bool
    is_over_time held = elim c.max_holding_bars [
      | none ↦ false
      | some m ↦ if eqb_ℤ m (pos 0) then false else leb_ℤ m (pos held)
    ]

    -- Where and why an open position leaves the bar, if it does, when these of its stop and its target
    -- are touched.
    abbrev pub exit_at : Option F → Option F → Bar F → ℕ → Option (F × ExitReason)
    exit_at (some stop) (some target) bar held =
        if is_stop_first c.intrabar_priority
        then some (stop, ExitReason.stop_exit)
        else some (target, ExitReason.target_exit)
    exit_at (some stop) none bar held = some (stop, ExitReason.stop_exit)
    exit_at none (some target) bar held = some (target, ExitReason.target_exit)
    exit_at none none bar held =
        if is_over_time held then some (bar.close_price, ExitReason.time_exit) else none

    abbrev pub close_if : Option (F × ExitReason) → Position F → Bar F → ℕ → Loop F → Loop F
    close_if none p bar held s = s
    close_if (some (mid, reason)) p bar held s = close p bar.timestamp mid reason held s

    abbrev pub protect : Option (Position F) → Bar F → Loop F → Loop F
    protect none bar s = s
    protect (some p) bar s =
        let held = s.i - p.entry_i + 1 in
        close_if (exit_at (stop_hit p bar) (target_hit p bar) bar held) p bar held s

    -- The cash and what the open position would bring at the close.
    abbrev pub marked : Option (Position F) → Bar F → F → F
    marked none bar cash = cash
    marked (some p) bar cash = add cash (
        sub
          (mul (times p.side (sub (fill_price bar.close_price p.side false) p.entry_price))
            c.quantity_oz)
          (commission c))

    -- The pass up to its row of equity.
    abbrev pub trade_bar : Bar F → Loop F → Loop F
    trade_bar bar s =
        let financed = finance s.position bar s in
        let left = leave financed.position bar financed in
        let entered = enter left.position (desired left) bar left in
        protect entered.position bar entered

    -- One pass of the loop.
    unfoldable pub pass : Bar F × Signal → Loop F → Loop F
    pass (bar, signal) s =
        let s' = trade_bar bar s in
        record s' {
          i = suc s.i;
          previous = some (bar, signal);
          equity_rows = s.equity_rows ++ (bar.timestamp, marked s'.position bar s'.cash) ∷ [];
        }

    unfoldable pub passes : List (Bar F × Signal) → Loop F → Loop F
    passes [] s = s
    passes (row ∷ rows) s = passes rows (pass row s)

    abbrev pub first_loop : Loop F
    first_loop = record {
      i = 0;
      previous = none;
      cash = c.initial_cash;
      position = none;
      trades = [];
      equity_rows = [];
      financing_total = of_ℕ 0;
    }

    -- `equity_rows[-1] = row`
    abbrev pub set_last : List (ℕ × F) → ℕ × F → List (ℕ × F)
    set_last [] row = []
    set_last (e ∷ es) row = elim es [ [] ↦ row ∷ [] | ◌∷◌ f fs ↦ e ∷ set_last es row ]

    -- What is still open after the last bar is closed at its close.
    abbrev pub settle_end : Option (Position F) → Option (Bar F × Signal) → Loop F → Loop F
    settle_end none last s = s
    settle_end (some p) none s = s
    settle_end (some p) (some (bar, signal)) s =
        let s' = close p bar.timestamp bar.close_price ExitReason.end_exit (s.i - p.entry_i) s in
        record s' { equity_rows = set_last s'.equity_rows (bar.timestamp, s'.cash) }

    abbrev pub finish_run : Loop F → Loop F
    finish_run s = settle_end s.position s.previous s

    -- The run, which no bars refuse.
    unfoldable pub run_backtest : List (Bar F × Signal) → Option (Loop F)
    run_backtest [] = none
    run_backtest (row ∷ rows) = some (finish_run (passes (row ∷ rows) first_loop))
