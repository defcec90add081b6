-- ===== src/Paper/Examples.antt =====
-- Runs of paper trading, and each theorem at an input that meets its hypotheses.
use text.Mathlib.TextEquality.{eq_iff}
use xauusd.Prelude.{
  ℕ, String, ◌+◌, ◌-◌, ◌*◌, ◌≡◌, ◌≢◌, ◌↔◌, refl, true, false, some, List, [], ◌∷◌, arith, is_blank,
  lookup,
}
use xauusd.Prelude.Int.{pos}
use xauusd.Number.{Exact, whole, nan, exact, exact-IsOrdered, of_ℕ}
use xauusd.Session.{
  iso_date, day_of, market_is_open, market_data_age_seconds, observation_is_future,
}
use xauusd.Session.Week.{IsInSession, week_position, market_is_open-IsInSession}
use xauusd.Paper.{
  Desk, Fill, PaperDecision, Reason, PaperDb, readable, empty_db, answered, Answer, evaluated,
  Outcome, returned, default_state, corrupt_state, is_finite_account, is_finite_state,
  is_finite_reply, equity, mark, is_malformed, limits, admission, gate_from, gate, realized_pnl,
  next_average, fill, result, validated, save, locked_state, add_decision, run_new, run, switch,
  set_kill_switch, state, restart_policy, settle, decide, evaluate, breached, react, observe,
  monitor, start, stop, resume_as, resume_found, maybe_resume,
}
use xauusd.Paper.Calls.{
  Call, evaluate_call, start_call, stop_call, maybe_resume_call, call, calls, current,
}
use xauusd.Paper.Replay.{holding, opening, replay_one, replay, ledger_replays_account}
use xauusd.Paper.KillSwitch.{IsHalted, stop_persists}
use xauusd.Paper.Once.{IsOnce, fills-IsOnce}
use xauusd.Paper.Idempotence.{evaluate_again}
use xauusd.Paper.Gates.{IsCleared, accepted-IsCleared, IsUntouched, refused_keeps_account}
use xauusd.Paper.Limits.{IsWithin, limits_always_hold}
use xauusd.Paper.Marks.{mark_overnight}

-- 2026-10-13 12:00 UTC, a Tuesday, in microseconds since 0001-01-01.
abbrev noon : ℕ
noon = (739901 * 24 + 12) * 3600000000

abbrev cash : Exact
cash = whole (pos 100000)

abbrev desk : Desk Exact
desk = record {
  config = record {
    daily_loss_limit = whole (pos 500);
    max_drawdown = whole (pos 1);
    max_position = whole (pos 3);
    max_trades_per_day = of_ℕ 2;
    max_market_data_age_seconds = whole (pos 180);
  };
  -- New York four hours behind UTC, as in daylight saving time.
  new_york = λ t. t - 14400000000;
}

abbrev order : String → String → ℕ → PaperDecision Exact
order id side quantity = record {
  decision_id = id;
  symbol = "XAUUSD";
  side = side;
  quantity = whole (pos quantity);
  price = whole (pos 4000);
  market_data_at = noon;
  is_aware = true;
}

abbrev clock : ℕ
clock = noon + 90000000

-- An operator's start, two buys of which the second passes the exposure limit, a repeated id, a sale
-- and a stop.
abbrev session : List (Call Exact)
session =
    start_call "operator"
    ∷ evaluate_call (order "d1" "BUY" 2) clock
    ∷ evaluate_call (order "d2" "BUY" 2) clock
    ∷ evaluate_call (order "d1" "SELL" 1) clock
    ∷ evaluate_call (order "d3" "SELL" 1) clock
    ∷ stop_call "operator"
    ∷ []

after_session : PaperDb Exact
after_session = calls desk cash session empty_db

-- Names what a run computes with.
run_all : Unit {0}
unfolding is_blank lookup iso_date market_is_open market_data_age_seconds observation_is_future
    default_state corrupt_state is_finite_account is_finite_state is_finite_reply equity mark
    is_malformed limits admission gate_from gate realized_pnl next_average fill result validated
    save locked_state add_decision run_new run switch set_kill_switch state restart_policy settle
    decide evaluate breached react observe monitor start stop resume_as resume_found maybe_resume
    call calls current replay_one replay
run_all = tt

-- The second buy would pass the exposure limit and the repeated id is answered from the table, so
-- one unit is left.
session_holds :
    let s = current cash after_session in
    (s.stopped ≡ true) × (s.position ≡ whole (pos 1)) × (s.trades_today ≡ of_ℕ 2)
unfolding run_all after_session
session_holds = (refl, refl, refl)

market_is_open-IsInSession_example :
    (market_is_open desk.new_york clock ≡ true) ↔ IsInSession (week_position desk.new_york clock)
market_is_open-IsInSession_example = market_is_open-IsInSession desk.new_york clock

ledger_replays_account_example :
    let s = current cash after_session in replay (opening cash) s.ledger ≡ returned (holding s)
unfolding after_session
ledger_replays_account_example = ledger_replays_account desk cash session

fills-IsOnce_example : IsOnce after_session.decisions (current cash after_session).ledger
unfolding after_session
fills-IsOnce_example = fills-IsOnce desk cash session

limits_always_hold_example : IsWithin exact-IsOrdered desk cash 2 refl (current cash after_session)
unfolding after_session
limits_always_hold_example = limits_always_hold exact-IsOrdered desk cash 2 refl refl refl session

-- The first buy, answered afresh.
abbrev running : PaperDb Exact
running = calls desk cash (start_call "operator" ∷ []) empty_db

abbrev bought : PaperDb Exact
bought = (evaluate desk cash (order "d1" "BUY" 2) clock running).1

abbrev buy_outcome : Outcome Exact
buy_outcome = record {
  accepted = true;
  reason = Reason.accepted;
  decision_id = "d1";
  position = whole (pos 2);
  equity = whole (pos 100000);
  trades_today = whole (pos 1);
}

abbrev buy_answer : Answer Exact
buy_answer = record { reply = evaluated buy_outcome; replayed = false }

first_buy :
    evaluate desk cash (order "d1" "BUY" 2) clock running ≡ (returned (answered buy_answer), bought)
unfolding run_all
first_buy = refl

evaluate_again_example :
    let later = calls desk cash (stop_call "operator" ∷ []) bought in
    evaluate desk cash (order "d1" "SELL" 1) (clock + 1) later
    ≡ (returned (answered (record { reply = evaluated buy_outcome; replayed = true })), later)
evaluate_again_example =
    evaluate_again desk cash (order "d1" "BUY" 2) (order "d1" "SELL" 1) clock (clock + 1) running
      bought buy_answer (stop_call "operator" ∷ []) first_buy refl

accepted-IsCleared_example :
    IsCleared desk cash (order "d1" "BUY" 2) clock (current cash running) (current cash bought)
accepted-IsCleared_example =
    accepted-IsCleared desk cash (order "d1" "BUY" 2) clock running bought buy_outcome first_buy
      refl

-- A second buy is refused by the exposure limit.
abbrev refused : PaperDb Exact
refused = (evaluate desk cash (order "d2" "BUY" 2) clock bought).1

abbrev refused_outcome : Outcome Exact
refused_outcome = record {
  accepted = false;
  reason = Reason.max_position;
  decision_id = "d2";
  position = whole (pos 2);
  equity = whole (pos 100000);
  trades_today = whole (pos 1);
}

second_buy : evaluate desk cash (order "d2" "BUY" 2) clock bought ≡ (
  returned (answered (record { reply = evaluated refused_outcome; replayed = false })),
  refused,
)
unfolding run_all
second_buy = refl

refused_keeps_account_example : IsUntouched desk cash (current cash bought) (current cash refused)
refused_keeps_account_example =
    refused_keeps_account desk cash (order "d2" "BUY" 2) clock bought refused refused_outcome
      second_buy refl

stopped_session :
    IsHalted
      (holding (current cash after_session))
      (current cash after_session).ledger
      (current cash after_session)
unfolding run_all after_session
stopped_session = record { is_stopped = refl; is_refused = refl; holds = refl; filled = refl }

stop_persists_example :
    IsHalted (holding (current cash after_session)) (current cash after_session).ledger (
      current cash (
        calls desk cash
          (maybe_resume_call "restart" ∷ evaluate_call (order "d9" "BUY" 1) clock ∷ [])
          after_session))
stop_persists_example =
    stop_persists desk cash (holding (current cash after_session))
      (current cash after_session).ledger
      (maybe_resume_call "restart" ∷ evaluate_call (order "d9" "BUY" 1) clock ∷ []) after_session
      (tt, (tt, tt)) stopped_session

-- A ledger entry whose price is not a number cannot be stored again.
abbrev bad_fill : Fill Exact
bad_fill = record {
  decision_id = "d0";
  side = "BUY";
  quantity = whole (pos 1);
  price = nan;
  realized_pnl = whole (pos 0);
  filled_at = 0;
}

abbrev broken : PaperDb Exact
broken = record {
  row = some (readable (record (default_state cash) { stopped = false; ledger = bad_fill ∷ [] }));
  decisions = [];
}

-- An order whose bar is of the last minute that a `datetime` has.
abbrev last_minute : ℕ
last_minute = 315537897540000000

different_days : iso_date (day_of clock) ≢ iso_date (day_of (clock + 86400000000))
unfolding run_all
different_days e = ground (arith, eq_iff "2026-10-13" "2026-10-14")

mark_overnight_example :
    let t =
      mark
        (mark (current cash bought) (whole (pos 3900)) clock)
        (whole (pos 3800))
        (clock + 86400000000) in
    (t.day_start_equity ≡ whole (pos 99800))
    × (t.trades_today ≡ of_ℕ 0)
    × (t.day ≡ some "2026-10-14")
    × (t.mark_price ≡ whole (pos 3800))
unfolding run_all
mark_overnight_example =
    mark_overnight (current cash bought) (whole (pos 3900)) (whole (pos 3800)) clock
      (clock + 86400000000) different_days
