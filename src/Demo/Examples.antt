-- ===== src/Demo/Examples.antt =====
-- Runs of demo execution, and each theorem at an input that meets its hypotheses.
use xauusd.Prelude.Int.{pos}
use xauusd.Prelude.{
  ◌⊎◌, ℕ, String, ◌+◌, ◌*◌, ◌≡◌, ◌↔◌, ◌≤◌, refl, true, false, none, some, Option, List, [], ◌∷◌,
  is_blank, lookup,
}
use xauusd.Number.{exact}
use xauusd.Demo.{
  mark_reconciled, DemoOrder, DemoOutcome, DemoDb, Event, Receipt, RequestData, OutcomeReason,
  empty_demo_db, readable, load, reserve, finish, is_valid_account, is_valid_order,
  broker_client_order_id, DemoAdapter, World, done, collides, request_of, judge, is_rejection,
  is_fill, submit, with_reservation, execute_running, execute, stop_execution, with_start,
  start_execution, outcome_of,
}
use xauusd.Demo.Store
use xauusd.Demo.Known.{AreDistinct}
use xauusd.Demo.Once.{DemoCall, execute_call, start_call, demo_call, demo_calls, submits_once}
use xauusd.Demo.Unknown.{IsHeld, unknown-IsHeld}
use xauusd.Demo.Exposure.{
  volume_of, add_volume, without_zeros, total, is_resolved, is_verified_fill, add_deal, tally_of,
  is_verified_position, positions_of, verify_position_exposure,
}
use xauusd.Demo.Reconcile.{
  mapping_of, outcomes_of, pending_request_ids, finish_pending, check_snapshot,
  reconcile_after_restart,
}
use xauusd.Demo.Settled.{IsSettled, IsFailed, reconcile-IsSettled}
use xauusd.Demo.Fills.{IsFilled, accepted-IsFilled}
use xauusd.Demo.Volume.{VolumePolicy, volume_reason, is_valid_policy, volume_reason_iff}

abbrev nothing : Event
nothing = record {
  execution_type = none;
  filled_volume = none;
  order_id = none;
  position_id = none;
  error_code = none;
  deal_id = none;
  broker_client_order_id = none;
}

abbrev some_digest : String → String
some_digest t = "digest"

-- A transport that fills its first order in full and loses the second.
abbrev fill_then_fail : List RequestData → RequestData → Option Receipt
fill_then_fail [] r = some (record {
  last = record {
    execution_type = some 3;
    filled_volume = some r.volume;
    order_id = some 71;
    position_id = some 81;
    error_code = none;
    deal_id = none;
    broker_client_order_id = r.broker_client_order_id;
  };
  events = [];
})
fill_then_fail (_ ∷ _) r = none

abbrev adapter : DemoAdapter
adapter = record {
  account = record {
    account_id = 5;
    symbol_id = 41;
    account_type = "DEMO";
    symbol = "XAUUSD";
    host = "demo.ctraderapi.com";
    demo_confirmed = true;
  };
  demo_only = true;
  is_timely = true;
  digest = some_digest;
  send = fill_then_fail;
  snapshot = λ sent. none;
  expected_volume = pos 0;
}

abbrev order : String → DemoOrder
order id = record { request_id = id; side = "BUY"; volume = 100 }

-- A reconciled store that is running.
abbrev running_db : DemoDb
running_db = record empty_demo_db {
  row =
      some
        (readable (record { stopped = false; kill_switch_reason = "operator"; reconciled = true }));
}

abbrev ready : World
ready = record { db = running_db; sent = [] }

-- Names what a run computes with.
run_demo : Unit {0}
unfolding is_blank lookup load Store.stop Store.start reserve finish is_valid_account is_valid_order
    broker_client_order_id collides request_of judge is_rejection is_fill submit with_reservation
    execute_running execute stop_execution with_start start_execution demo_call demo_calls
run_demo = tt

abbrev after_fill : World
after_fill = (execute adapter (order "d1") ready).1

abbrev filled : DemoOutcome
filled = (outcome_of true none (order "d1") (fill_then_fail [] (request_of adapter (order "d1"))))

first_order : execute adapter (order "d1") ready ≡ (done filled, after_fill)
unfolding run_demo
first_order = refl

nothing_yet : lookup "d1" running_db.requests ≡ none
unfolding run_demo
nothing_yet = refl

accepted-IsFilled_example : IsFilled adapter (order "d1") ready after_fill
accepted-IsFilled_example =
    accepted-IsFilled adapter (order "d1") ready after_fill filled first_order nothing_yet refl

abbrev after_loss : World
after_loss = (execute adapter (order "d2") after_fill).1

abbrev lost : DemoOutcome
lost = outcome_of false (some OutcomeReason.outcome_unknown) (order "d2") none

second_order : execute adapter (order "d2") after_fill ≡ (done lost, after_loss)
unfolding run_demo
second_order = refl

not_yet : lookup "d2" after_fill.db.requests ≡ none
unfolding run_demo
not_yet = refl

unknown-IsHeld_example : IsHeld adapter (order "d2") lost after_loss
unknown-IsHeld_example =
    unknown-IsHeld adapter (order "d2") after_fill after_loss lost second_order not_yet refl

-- The first order again, and one after the loss.
abbrev day : List DemoCall
day =
    execute_call (order "d1")
    ∷ execute_call (order "d1")
    ∷ execute_call (order "d2")
    ∷ execute_call (order "d3")
    ∷ start_call "operator"
    ∷ []

submits_once_example :
    AreDistinct (demo_calls adapter day (record { db = running_db; sent = [] })).sent
submits_once_example = submits_once adapter running_db day

abbrev policy : VolumePolicy
policy = record { min_volume = 100; max_volume = 1000; step_volume = 50 }

volume_reason_iff_example :
    (volume_reason policy 250 ≡ none) ↔ ((k : ℕ) × (250 ≡ 100 + k * 50) × (250 ≤ 1000))
unfolding is_valid_policy
volume_reason_iff_example = volume_reason_iff policy 250 refl

-- The broker holds the filled order's position, and the paper account as much.
abbrev holding : DemoAdapter
holding = record adapter {
  snapshot = λ sent. some (record {
    account_id = 5;
    is_demo = true;
    symbol = "XAUUSD";
    symbol_id = 41;
    request_outcomes = [];
    positions =
        record {
          position_id = some 81;
          symbol_id = some 41;
          side = some 1;
          volume = some 100;
          position_status = some 1;
        }
        ∷ [];
    open_orders = [];
  });
  expected_volume = pos 100;
}

-- Names what a reconciliation computes with.
run_reconcile : Unit {0}
unfolding run_demo mark_reconciled is_resolved is_verified_fill add_deal tally_of
    is_verified_position positions_of verify_position_exposure mapping_of outcomes_of
    pending_request_ids finish_pending check_snapshot reconcile_after_restart volume_of add_volume
    without_zeros total
run_reconcile = tt

reconciles_fill : (reconcile_after_restart holding after_fill).0 ≡ true
unfolding run_reconcile
reconciles_fill = refl

-- The lost order is pending, so nothing is settled behind it.
refuses_loss : (reconcile_after_restart holding after_loss).0 ≡ false
unfolding run_reconcile
refuses_loss = refl

reconcile-IsSettled_example :
    let (fine, w') = reconcile_after_restart holding after_fill in
    ((fine ≡ true) × IsSettled holding after_fill w') ⊎ ((fine ≡ false) × IsFailed holding w')
reconcile-IsSettled_example = reconcile-IsSettled holding after_fill
