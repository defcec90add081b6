-- ===== src/Demo/BehindExamples.antt =====
-- Runs of the coordinator, and its theorems at inputs that meet their hypotheses.
use xauusd.Prelude.{
  ℕ, ◌+◌, ◌-◌, ◌*◌, ◌≡◌, ◌≢◌, refl, true, false, none, some, Option, List, [], arith, is_blank,
  lookup,
}
use xauusd.Prelude.Int.{pos, negsuc}
use xauusd.Number.{Exact, whole, nan, exact, of_ℕ}
use xauusd.Session.{iso_date, market_is_open, market_data_age_seconds, observation_is_future}
use xauusd.Paper.{
  default_state, Response, Outcome, answered, evaluated, Reason, empty_db, corrupt_state,
  is_finite_account, is_finite_state, is_finite_reply, equity, mark, is_malformed, limits,
  admission, gate_from, gate, realized_pnl, next_average, fill, result, validated, save,
  locked_state, add_decision, run_new, run, switch, set_kill_switch, settle, decide, evaluate,
  start, stop,
}
use xauusd.Paper.Calls.{current}
use xauusd.Demo.{
  DemoOutcome, Receipt, RequestData, OutcomeReason, empty_demo_db, readable, load, reserve, finish,
  is_valid_account, is_valid_order, broker_client_order_id, collides, request_of, judge,
  is_rejection, is_fill, submit, with_reservation, execute_running, execute, stop_execution,
  outcome_of,
}
use xauusd.Demo.Volume.{volume_reason, to_volume}
use xauusd.Demo.Coordinator.{
  NormalizedDecision, Coordinator, Books, coordinated, order_of, stop_demo, conclude, submit_demo,
  with_paper, coordinate,
}
use xauusd.Demo.Behind.{IsBacked, AreStopped, submission-IsBacked, failure_stops_both}

-- 2026-10-13 12:00 UTC, a Tuesday, in microseconds since 0001-01-01.
abbrev pub noon : ℕ
noon = (739901 * 24 + 12) * 3600000000

abbrev pub clock : ℕ
clock = noon + 90000000

abbrev to_integer : Exact → Option ℕ
to_integer nan = none
to_integer (whole (pos k)) = some k
to_integer (whole (negsuc k)) = none

-- A transport that raises.
abbrev lost : List RequestData → RequestData → Option Receipt
lost sent r = none

abbrev pub coordinator : Coordinator Exact
coordinator = record {
  desk = record {
    config = record {
      daily_loss_limit = whole (pos 500);
      max_drawdown = whole (pos 1);
      max_position = whole (pos 3);
      max_trades_per_day = of_ℕ 2;
      max_market_data_age_seconds = whole (pos 180);
    };
    new_york = λ t. t - 14400000000;
  };
  initial_cash = whole (pos 100000);
  adapter = record {
    account = record {
      account_id = 5;
      symbol_id = 41;
      account_type = "DEMO";
      symbol = "XAUUSD";
      host = "demo.ctraderapi.com";
      demo_confirmed = true;
    };
    demo_only = true;
    is_timely = true;
    digest = λ t. "digest";
    send = lost;
    snapshot = λ sent. none;
    expected_volume = pos 0;
  };
  volume_per_unit = 100;
  policy = some (record { min_volume = 100; max_volume = 1000; step_volume = 100 });
  as_integer = to_integer;
}

abbrev pub proposal : NormalizedDecision Exact
proposal = record {
  decision_id = "d1";
  symbol = "XAUUSD";
  side = "BUY";
  quantity = whole (pos 2);
  market_data_at = noon;
  is_aware = true;
}

abbrev pub price : Exact
price = whole (pos 4000)

-- Both switches off and nothing submitted.
abbrev pub books : Books Exact
books = record {
  paper = (start coordinator.desk coordinator.initial_cash "operator" empty_db).1;
  world = record {
    db = record empty_demo_db {
      row = some (
          readable
            (record { stopped = false; kill_switch_reason = "operator"; reconciled = true }));
    };
    sent = [];
  };
}

-- Names what a run computes with.
unfoldable pub run_both : Unit {0}
unfolding is_blank lookup iso_date market_is_open market_data_age_seconds observation_is_future
    default_state corrupt_state is_finite_account is_finite_state is_finite_reply equity mark
    is_malformed limits admission gate_from gate realized_pnl next_average fill result validated
    save locked_state add_decision run_new run switch set_kill_switch settle decide evaluate start
    stop current load reserve finish is_valid_account is_valid_order broker_client_order_id collides
    request_of judge is_rejection is_fill submit with_reservation execute_running execute
    stop_execution volume_reason to_volume stop_demo conclude submit_demo with_paper coordinate
run_both = tt

abbrev after : Books Exact
after = (coordinate coordinator proposal price clock books).1

abbrev paper_outcome : Outcome Exact
paper_outcome = record {
  accepted = true;
  reason = Reason.accepted;
  decision_id = "d1";
  position = whole (pos 2);
  equity = whole (pos 100000);
  trades_today = whole (pos 1);
}

abbrev response : Response Exact
response = answered (record { reply = evaluated paper_outcome; replayed = false })

abbrev unknown : DemoOutcome
unknown = outcome_of false (some OutcomeReason.outcome_unknown) (order_of proposal 200) none

lost_order :
    coordinate coordinator proposal price clock books ≡ (coordinated response unknown, after)
unfolding run_both
lost_order = refl

failure_stops_both_example : AreStopped coordinator after
failure_stops_both_example =
    failure_stops_both coordinator proposal price clock books after response unknown lost_order refl

one_sent : (coordinate coordinator proposal price clock books).1.world.sent ≢ books.world.sent
unfolding run_both
one_sent e = ground arith

submission-IsBacked_example : IsBacked coordinator proposal price clock books
submission-IsBacked_example = submission-IsBacked coordinator proposal price clock books one_sent
