-- ===== src/Paper/Account.antt =====
-- The account's arithmetic: `_equity`, `_mark`, `_gate`, `_fill` and `_result` of `PaperTrading`.
-- They change the state object in place, so each returns the new state; an exception loses the
-- state, since the store's transaction is rolled back.
use text.Mathlib.Text.{◌==◌ as str_eq}
use xauusd.Prelude.{
  ℕ, String, Bool, false, not, ◌&&◌, ◌||◌, if◌then◌else◌, Option, none, some, [], ◌∷◌, ◌++◌,
}
use xauusd.Number.{Number, of_ℕ, add, sub, mul, div, neg, abs, lt, le, eq, finite, max, min}
use xauusd.Session.{
  iso_date, day_of, market_is_open, market_data_age_seconds, observation_is_future, is_beyond,
}
use xauusd.Paper.State.{
  Fill, PaperState, PaperRiskConfig, PaperDecision, Reason, Outcome, Result, returned, raised,
  zero_division, date_overflow, ◌>>=◌,
}

-- `a / b` of Python's numbers raises on a divisor that is zero.
abbrev pub checked_div : {F : Type 0} ⦃n : Number F⦄ → F → F → Result F
checked_div a b = if eq b (of_ℕ 0) then raised zero_division else returned (div a b)

-- The limits and the time zone that a `PaperTrading` works with.
pub record Desk (F : Type 0) : Type 0 where
  pub config : PaperRiskConfig F
  pub new_york : ℕ → ℕ

abbrev pub same_day : Option String → String → Bool
same_day none d = false
same_day (some e) d = str_eq e d

abbrev pub is_side : String → Bool
is_side side = str_eq side "BUY" || str_eq side "SELL"

module _ {F : Type 0} ⦃n : Number F⦄ where
  unfoldable pub equity : PaperState F → F
  equity s = add s.cash (mul s.position s.mark_price)

  unfoldable pub mark : PaperState F → F → ℕ → PaperState F
  unfolding equity
  mark s price now =
      let day = iso_date (day_of now) in
      let marked = record s { mark_price = price } in
      let rolled =
        if same_day s.day day
        then marked
        else record marked { day = some day; day_start_equity = equity s; trades_today = of_ℕ 0 } in
      record rolled { high_water_equity = max s.high_water_equity (equity marked) }

  -- The quantity with the sign of its side.
  abbrev pub signed : String → F → F
  signed side quantity = if str_eq side "BUY" then quantity else neg quantity

  -- A finite positive number; that it is a number at all is its type.
  abbrev pub is_positive : F → Bool
  is_positive a = finite a && lt (of_ℕ 0) a

  unfoldable pub is_malformed : PaperDecision F → Bool
  is_malformed d =
      not (str_eq d.symbol "XAUUSD")
      || (not (is_side d.side)
          || (not (is_positive d.quantity && is_positive d.price) || not d.is_aware))

  -- The tests of `_gate` behind its mark.
  unfoldable pub limits : PaperRiskConfig F → PaperState F → F → Result (Option Reason)
  unfolding equity
  limits c s quantity =
      if le c.max_trades_per_day s.trades_today
      then returned (some Reason.max_trades)
      else if lt c.max_position (abs (add s.position quantity))
      then returned (some Reason.max_position)
      else if le c.daily_loss_limit (sub s.day_start_equity (equity s))
      then returned (some Reason.daily_loss_limit)
      else (checked_div (sub s.high_water_equity (equity s)) s.high_water_equity >>= λ drawdown.
          returned (if le c.max_drawdown drawdown then some Reason.max_drawdown else none))

  -- The tests of `_gate` before its mark.
  unfoldable pub admission : Desk F → PaperState F → PaperDecision F → ℕ → Option Reason
  unfolding is_malformed
  admission desk s d now =
      if s.stopped
      then some Reason.kill_switch
      else if is_malformed d
      then some
          (if str_eq d.symbol "XAUUSD" then Reason.invalid_decision else Reason.unsupported_symbol)
      else if not (market_is_open desk.new_york now)
      then some Reason.market_closed
      else if observation_is_future d.market_data_at now
      then some Reason.stale_market_data
      else if lt desk.config.max_market_data_age_seconds
          (market_data_age_seconds d.market_data_at now)
      then some Reason.stale_market_data
      else none

  -- The rest of `_gate`, behind the tests of `admission`.
  unfoldable pub gate_from :
      Desk F
      → PaperState F
      → PaperDecision F
      → ℕ
      → Option Reason
      → Result (Option Reason × PaperState F)
  gate_from desk s d now (some reason) = returned (some reason, s)
  gate_from desk s d now none =
      let s' = mark s d.price now in
      limits desk.config s' (signed d.side d.quantity) >>= λ refusal. returned (refusal, s')

  -- Whether the tests on the time of the market data are reached and raise OverflowError.
  abbrev pub is_date_overflow : Desk F → PaperState F → PaperDecision F → ℕ → Bool
  is_date_overflow desk s d now =
      not s.stopped
      && (not (is_malformed d)
          && (market_is_open desk.new_york now && is_beyond d.market_data_at now))

  unfoldable pub gate :
      Desk F → PaperState F → PaperDecision F → ℕ → Result (Option Reason × PaperState F)
  gate desk s d now =
      if is_date_overflow desk s d now
      then raised date_overflow
      else gate_from desk s d now (admission desk s d now)

  -- The realised profit of a fill at the given price, against the position before it.
  unfoldable pub realized_pnl : F → F → F → F → F
  realized_pnl previous average quantity price =
      if not (eq previous (of_ℕ 0)) && lt (mul previous quantity) (of_ℕ 0)
      then mul (mul (min (abs previous) (abs quantity)) (sub price average))
          (if lt (of_ℕ 0) previous then of_ℕ 1 else neg (of_ℕ 1))
      else of_ℕ 0

  unfoldable pub next_average : F → F → F → F → Result F
  next_average previous average quantity price =
      let current = add previous quantity in
      if eq current (of_ℕ 0)
      then returned (of_ℕ 0)
      else if eq previous (of_ℕ 0) || lt (mul previous current) (of_ℕ 0)
      then returned price
      else if lt (of_ℕ 0) (mul previous quantity)
      then checked_div (add (mul (abs previous) average) (mul (abs quantity) price)) (abs current)
      else returned average

  -- The ledger entry of a fill.
  abbrev pub entry : PaperState F → PaperDecision F → ℕ → Fill F
  entry s d now = record {
    decision_id = d.decision_id;
    side = d.side;
    quantity = d.quantity;
    price = d.price;
    realized_pnl = realized_pnl s.position s.average_entry_price (signed d.side d.quantity) d.price;
    filled_at = now;
  }

  -- The state that `_fill` writes, before it is marked.
  abbrev pub booked : PaperState F → PaperDecision F → ℕ → F → PaperState F
  booked s d now average = record s {
    cash = sub s.cash (mul (signed d.side d.quantity) d.price);
    position = add s.position (signed d.side d.quantity);
    average_entry_price = average;
    trades_today = add s.trades_today (of_ℕ 1);
    ledger = s.ledger ++ entry s d now ∷ [];
  }

  unfoldable pub fill : PaperState F → PaperDecision F → ℕ → Result (PaperState F)
  fill s d now =
      next_average s.position s.average_entry_price (signed d.side d.quantity) d.price
      >>= λ average. returned (mark (booked s d now average) d.price now)

  unfoldable pub result : Bool → Reason → String → PaperState F → Outcome F
  unfolding equity
  result accepted reason decision_id s = record {
    accepted = accepted;
    reason = reason;
    decision_id = decision_id;
    position = s.position;
    equity = equity s;
    trades_today = s.trades_today;
  }
