-- ===== src/Paper/Gates.antt =====
-- What an accepted decision went through, and what a refused one leaves alone.
use text.Mathlib.TextEquality.{eq_iff}
use xauusd.Prelude.{
  ℕ, ◌+◌, ◌-◌, ◌≤◌, ◌≡◌, refl, subst, true, false, ◌⊎◌, none, [], ◌∷◌, ◌++◌, arith,
}
use xauusd.Number.{Number, lt, le, add, abs, seconds}
use xauusd.Session.{market_is_open, market_data_age_seconds, observation_is_future, bar_interval}
use xauusd.Session.Week.{IsInSession, week_position, market_is_open-IsInSession}
use xauusd.Paper.State.{PaperState, PaperDecision, Outcome, evaluated, returned}
use xauusd.Paper.Account.{
  Desk, mark, admission, limits, entry, booked, fill, signed, is_positive, result,
}
use xauusd.Paper.Store.{PaperDb}
use xauusd.Paper.Trading.{answered, evaluate, decide}
use xauusd.Paper.Calls.{current}
use xauusd.Paper.Decided.{Decided, not_admitted, limited, filled, decide-Decided}
use xauusd.Paper.Changes.{RunCase, replays, fails, runs}
use xauusd.Paper.Replay.{holding, mark-holding, fill_lem, fill-replay}
use xauusd.Paper.Idempotence.{answered_lem}

module _ {F : Type 0} ⦃n : Number F⦄ (desk : Desk F) (initial_cash : F) where
  -- What holds of a decision that fills, between the state before it and the state after it.
  pub record IsCleared (d : PaperDecision F) (now : ℕ) (s s' : PaperState F) : Type 0 where
    pub was_running : s.stopped ≡ false
    pub symbol : d.symbol ≡ "XAUUSD"
    pub side : (d.side ≡ "BUY") ⊎ (d.side ≡ "SELL")
    pub quantity : is_positive d.quantity ≡ true
    pub price : is_positive d.price ≡ true
    pub in_session : IsInSession (week_position desk.new_york now)
    pub not_ahead : d.market_data_at ≤ now
    pub fresh :
        lt desk.config.max_market_data_age_seconds
          (seconds (now - (d.market_data_at + bar_interval)))
        ≡ false
    pub trades_left : le desk.config.max_trades_per_day (mark s d.price now).trades_today ≡ false
    -- The exposure after the fill is within the limit.
    pub exposure : lt desk.config.max_position (abs s'.position) ≡ false
    pub grown : s'.ledger ≡ s.ledger ++ entry (mark s d.price now) d now ∷ []

  admission_lem :
      (s : PaperState F) (d : PaperDecision F) (now : ℕ)
      → admission desk s d now ≡ none
      → (s.stopped ≡ false)
        × (d.symbol ≡ "XAUUSD")
        × ((d.side ≡ "BUY") ⊎ (d.side ≡ "SELL"))
        × (is_positive d.quantity ≡ true)
        × (is_positive d.price ≡ true)
        × (market_is_open desk.new_york now ≡ true)
        × (observation_is_future d.market_data_at now ≡ false)
        × (lt desk.config.max_market_data_age_seconds (market_data_age_seconds d.market_data_at now)
            ≡ false)
  unfolding admission
  admission_lem s d now h =
      ground (arith, eq_iff d.symbol "XAUUSD", eq_iff d.side "BUY", eq_iff d.side "SELL")

  pub limits_lem :
      (s : PaperState F) (quantity : F)
      → limits desk.config s quantity ≡ returned none
      → (le desk.config.max_trades_per_day s.trades_today ≡ false)
        × (lt desk.config.max_position (abs (add s.position quantity)) ≡ false)
  unfolding limits
  limits_lem s quantity h = ground arith

  fill-position :
      (s s' : PaperState F) (d : PaperDecision F) (now : ℕ)
      → fill s d now ≡ returned s'
      → s'.position ≡ add s.position (signed d.side d.quantity)
  fill-position s s' d now h =
      let (average, _, made) = fill_lem s s' d now h in
      let (held, _) = mark-holding (booked s d now average) d.price now in cc

  IsCleared-of_fill :
      (s s' : PaperState F) (d : PaperDecision F) (now : ℕ)
      → admission desk s d now ≡ none
      → limits desk.config (mark s d.price now) (signed d.side d.quantity) ≡ returned none
      → fill (mark s d.price now) d now ≡ returned s'
      → IsCleared d now s s'
  unfolding observation_is_future market_data_age_seconds
  IsCleared-of_fill s s' d now admitted within made =
      let (was_running, symbol, side, quantity, price, is_open, not_future, fresh) =
        admission_lem s d now admitted in
      let (trades_left, exposure) =
        limits_lem (mark s d.price now) (signed d.side d.quantity) within in
      let (grown, _) = fill-replay (mark s d.price now) s' d now made in
      record {
        was_running = was_running;
        symbol = symbol;
        side = side;
        quantity = quantity;
        price = price;
        in_session = (market_is_open-IsInSession desk.new_york now).0 is_open;
        not_ahead = ground arith;
        fresh = fresh;
        trades_left = trades_left;
        exposure = cc (fill-position (mark s d.price now) s' d now made);
        grown = cc ((mark-holding s d.price now).1);
      }

  decide-IsCleared :
      (s s' : PaperState F) (d : PaperDecision F) (now : ℕ) (o : Outcome F)
      → Decided desk initial_cash d now s (evaluated o) s'
      → o.accepted ≡ true
      → IsCleared d now s s'
  unfolding result
  decide-IsCleared s s' d now o (not_admitted reason e same said) granted = absurd (ground arith)
  decide-IsCleared s s' d now o (limited reason e within same said) granted = absurd (ground arith)
  decide-IsCleared s s' d now o (filled e within made said) granted =
      IsCleared-of_fill s s' d now e within made

  RunCase-Decided :
      (d : PaperDecision F) (now : ℕ) (db db' : PaperDb F) (o : Outcome F)
      → RunCase initial_cash d.decision_id
          (decide desk initial_cash d now)
          db
          (returned (record { reply = evaluated o; replayed = false }))
          db'
      → Decided desk initial_cash d now
          (current initial_cash db)
          (evaluated o)
          (current initial_cash db')
  RunCase-Decided d now db db' o (replays reply old e same) = absurd (ground arith)
  RunCase-Decided d now db db' o (fails e new f same) = cc
  RunCase-Decided d now db db' o (runs reply new e ran) =
      let same : reply ≡ evaluated o = ground arith in
      subst
        (λ r.
          Decided desk initial_cash d now (current initial_cash db) r (current initial_cash db'))
        same (decide-Decided desk initial_cash d now reply _ _ ran.moved)

  -- A fresh answer is what the decision's transition made of the current state.
  pub fresh-Decided :
      (d : PaperDecision F) (now : ℕ) (db db' : PaperDb F) (o : Outcome F)
      → evaluate desk initial_cash d now db
        ≡ (returned (answered (record { reply = evaluated o; replayed = false })), db')
      → Decided desk initial_cash d now
          (current initial_cash db)
          (evaluated o)
          (current initial_cash db')
  fresh-Decided d now db db' o h =
      RunCase-Decided d now db db' o
        (answered_lem desk initial_cash d now db db'
          (record { reply = evaluated o; replayed = false }) h).1

  -- A fresh evaluation that accepts a decision found the account running, a well-formed XAUUSD order
  -- on a known side, the New York clock within the trading session and a bar that neither lies ahead
  -- of the clock nor is older than the limit; it left an exposure within the limit, and its fill is
  -- the one new entry of the ledger.
  pub accepted-IsCleared :
      (d : PaperDecision F) (now : ℕ) (db db' : PaperDb F) (o : Outcome F)
      → evaluate desk initial_cash d now db
        ≡ (returned (answered (record { reply = evaluated o; replayed = false })), db')
      → o.accepted ≡ true
      → IsCleared d now (current initial_cash db) (current initial_cash db')
  accepted-IsCleared d now db db' o h said =
      decide-IsCleared _ _ d now o (fresh-Decided d now db db' o h) said

  -- The kill switch, the cash, the position, the average entry price and the ledger are the same.
  abbrev pub IsUntouched : PaperState F → PaperState F → Type 0
  IsUntouched s s' =
      (s'.stopped ≡ s.stopped)
      × (s'.kill_switch_reason ≡ s.kill_switch_reason)
      × (holding s' ≡ holding s)
      × (s'.ledger ≡ s.ledger)

  mark-IsUntouched : (s : PaperState F) (price : F) (now : ℕ) → IsUntouched s (mark s price now)
  unfolding mark
  mark-IsUntouched s price now = ground arith

  decide-IsUntouched :
      (s s' : PaperState F) (d : PaperDecision F) (now : ℕ) (o : Outcome F)
      → Decided desk initial_cash d now s (evaluated o) s'
      → o.accepted ≡ false
      → IsUntouched s s'
  unfolding result
  decide-IsUntouched s s' d now o (not_admitted reason e same said) refused =
      rw same (refl, refl, refl, refl)
  decide-IsUntouched s s' d now o (limited reason e within same said) refused =
      rw same (mark-IsUntouched s d.price now)
  decide-IsUntouched s s' d now o (filled e within made said) refused = absurd (ground arith)

  -- A fresh evaluation that does not accept leaves the kill switch, the cash, the position, the
  -- average entry price and the ledger alone.
  pub refused_keeps_account :
      (d : PaperDecision F) (now : ℕ) (db db' : PaperDb F) (o : Outcome F)
      → evaluate desk initial_cash d now db
        ≡ (returned (answered (record { reply = evaluated o; replayed = false })), db')
      → o.accepted ≡ false
      → IsUntouched (current initial_cash db) (current initial_cash db')
  refused_keeps_account d now db db' o h refused =
      decide-IsUntouched _ _ d now o (fresh-Decided d now db db' o h) refused
