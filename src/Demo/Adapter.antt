-- ===== src/Demo/Adapter.antt =====
-- `CTraderDemoAdapter` (xauusd/ctrader_demo.py): starting, stopping and submitting an order.
use text.Mathlib.Text.{◌==◌ as str_eq}
use xauusd.Prelude.{
  ℕ, String, Bool, true, false, not, ◌&&◌, ◌||◌, if◌then◌else◌, Option, none, some, List, [], ◌∷◌,
  ◌++◌, ltb, ◌==◌, is_blank,
}
use xauusd.Demo.State.{
  DemoAccount, DemoOrder, Snapshot, RequestData, Event, Receipt, OutcomeReason, DemoOutcome,
  RequestRow, is_valid_account, is_valid_order, broker_client_order_id,
}
use xauusd.Prelude.Int.{ℤ}
use xauusd.Demo.Store.{DemoDb, load, stop, start, reserve, finish}

-- What an adapter works with. `demo_only` and `is_timely` are the tests of the environment's
-- CTRADER_DEMO_ONLY and of the timeout; `send` is the transport, which answers a submission after the
-- ones before it with a receipt, or raises (`none`). `snapshot` is its answer to a reconciliation, or
-- none if it raises or is malformed, as a function of what was submitted; `expected_volume` is the
-- paper exposure, one number where the source asks a provider anew, which may raise, at each
-- reconciliation.
pub record DemoAdapter : Type 0 where
  pub account : DemoAccount
  pub demo_only : Bool
  pub is_timely : Bool
  pub digest : String → String
  pub send : List RequestData → RequestData → Option Receipt
  pub snapshot : List RequestData → Option Snapshot
  pub expected_volume : ℤ

-- The database, and the submissions that have left for the broker.
pub record World : Type 0 where
  pub db : DemoDb
  pub sent : List RequestData

pub data Refusal : Type 0 where
  invalid_order outside_boundary blank_reason not_reconciled : Refusal

pub data Attempt (A : Type 0) : Type 0 where
  done : A → Attempt A
  refused : Refusal → Attempt A

-- `record["request"].get("broker_client_order_id", request_id)`
abbrev pub broker_id_of : String → RequestRow → String
broker_id_of request_id row = or_else row.request.broker_client_order_id request_id
  where
    or_else : Option String → String → String
    or_else none b = b
    or_else (some a) b = a

-- Whether a row of another request id has the given broker id.
unfoldable pub collides : String → String → List (String × RequestRow) → Bool
collides request_id broker_id [] = false
collides request_id broker_id ((prior_id, row) ∷ rows) =
    (not (str_eq prior_id request_id) && str_eq (broker_id_of prior_id row) broker_id)
    || collides request_id broker_id rows

abbrev pub is_some_text : String → Option String → Bool
is_some_text t none = false
is_some_text t (some s) = str_eq s t

abbrev pub is_some_number : ℕ → Option ℕ → Bool
is_some_number k none = false
is_some_number k (some j) = j == k

abbrev pub is_some_positive : Option ℕ → Bool
is_some_positive none = false
is_some_positive (some j) = ltb 0 j

abbrev pub has_error : Event → Bool
has_error e = elim e.error_code [ none ↦ false | some t ↦ not (str_eq t "") ]

-- Whether an event shows that something was executed, in part or in full.
abbrev pub has_moved : Event → Bool
has_moved e =
    is_some_positive e.filled_volume
    || is_some_number 3 e.execution_type
    || is_some_number 11 e.execution_type

abbrev pub any_moved : List Event → Bool
any_moved [] = false
any_moved (e ∷ es) = has_moved e || any_moved es

unfoldable pub is_rejection : Receipt → Bool
is_rejection r = has_error r.last && not (any_moved (r.last ∷ r.events))

unfoldable pub is_fill : (String → String) → DemoOrder → Receipt → Bool
is_fill digest order r =
    is_some_number 3 r.last.execution_type
    && (not (has_error r.last)
        && (is_some_number order.volume r.last.filled_volume
            && (is_some_positive r.last.order_id
                && (is_some_positive r.last.position_id
                    && is_some_text (broker_client_order_id digest order.request_id)
                        r.last.broker_client_order_id))))

abbrev pub outcome_of : Bool → Option OutcomeReason → DemoOrder → Option Receipt → DemoOutcome
outcome_of accepted reason order response = record {
  accepted = accepted;
  reason = reason;
  request_id = order.request_id;
  response = response;
}

module _ (adapter : DemoAdapter) where
  -- The record of a submission.
  unfoldable pub request_of : DemoOrder → RequestData
  request_of order = record {
    account_id = adapter.account.account_id;
    symbol = adapter.account.symbol;
    symbol_id = adapter.account.symbol_id;
    side = order.side;
    volume = order.volume;
    broker_client_order_id = some (broker_client_order_id adapter.digest order.request_id);
  }

  -- The outcome of what the transport answered, and the database that may have been stopped for it.
  unfoldable pub judge : DemoOrder → Option Receipt → DemoDb → DemoOutcome × DemoDb
  judge order none db = (
    outcome_of false (some OutcomeReason.outcome_unknown) order none,
    stop "transport_failure" db,
  )
  judge order (some r) db =
      if is_rejection r
      then (outcome_of false (some OutcomeReason.broker_rejected) order (some r), db)
      else if is_fill adapter.digest order r
      then (outcome_of true none order (some r), db)
      else (
        outcome_of false (some OutcomeReason.outcome_unknown) order (some r),
        stop "order_outcome_unknown" db,
      )

  -- The submission of a reserved request, and the outcome's way into the table.
  unfoldable pub submit : DemoOrder → World → DemoOutcome × World
  submit order w =
      let request = request_of order in
      let (outcome, db) = judge order (adapter.send w.sent request) w.db in
      (outcome, record { db = finish order.request_id outcome db; sent = w.sent ++ request ∷ [] })

  -- What `execute` does with the store's answer to the reservation.
  unfoldable pub with_reservation :
      DemoOrder → List RequestData → (Bool × Option DemoOutcome) × DemoDb → DemoOutcome × World
  with_reservation order sent ((true, prior), db) = submit order (record { db = db; sent = sent })
  with_reservation order sent ((false, some prior), db) = (prior, record { db = db; sent = sent })
  with_reservation order sent ((false, none), db) = (
    outcome_of false (some OutcomeReason.duplicate_request) order none,
    record { db = db; sent = sent },
  )

  -- `execute` behind the kill switch.
  unfoldable pub execute_running : DemoOrder → World → DemoOutcome × World
  execute_running order w =
      if collides order.request_id (broker_client_order_id adapter.digest order.request_id)
        w.db.requests
      then (
        outcome_of false (some OutcomeReason.identity_collision) order none,
        record w { db = stop "broker_identity_collision" w.db },
      )
      else with_reservation order w.sent (reserve order.request_id (request_of order) w.db)

  -- `_validate_boundary`, which raises where this is false.
  abbrev pub is_within_boundary : Bool
  is_within_boundary = adapter.demo_only && (is_valid_account adapter.account && adapter.is_timely)

  unfoldable pub execute : DemoOrder → World → Attempt DemoOutcome × World
  execute order w =
      if not (is_valid_order order)
      then (refused invalid_order, w)
      else if not is_within_boundary
      then (refused outside_boundary, w)
      else (let (s, db) = load w.db in
          let w' = record w { db = db } in
          if s.stopped
          then (done (outcome_of false (some OutcomeReason.kill_switch) order none), w')
          else (let (outcome, after) = execute_running order w' in (done outcome, after)))

  unfoldable pub stop_execution : String → World → Attempt (Unit {0}) × World
  stop_execution reason w =
      if is_blank reason
      then (refused blank_reason, w)
      else (done tt, record w { db = stop reason w.db })

  -- What `start` does with the store's answer.
  unfoldable pub with_start : Option DemoDb → World → Attempt (Unit {0}) × World
  with_start none w = (refused not_reconciled, w)
  with_start (some db) w = (done tt, record w { db = db })

  unfoldable pub start_execution : String → World → Attempt (Unit {0}) × World
  start_execution reason w =
      if is_blank reason
      then (refused blank_reason, w)
      else if not is_within_boundary
      then (refused outside_boundary, w)
      else (let (s, db) = load w.db in
          let w' = record w { db = db } in
          if not s.reconciled
          then (refused not_reconciled, w')
          else with_start (start reason db) w')
