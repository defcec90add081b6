-- ===== src/Demo/Store.antt =====
-- `CockroachCTraderDemoStore` (xauusd/ctrader_demo.py): the state row, the table of requests and the
-- audit. A method is one transaction.
use text.Mathlib.Text.{◌==◌ as str_eq}
use xauusd.Prelude.{
  String, Bool, true, false, if◌then◌else◌, Option, none, some, List, [], ◌∷◌, ◌++◌, map, lookup,
}
use xauusd.Demo.State.{
  RequestData, OutcomeReason, DemoOutcome, Status, RequestRow, DemoState, initial_state,
}

-- The text of the state row: an object with the keys that the code indexes, or any other.
pub data StateRow : Type 0 where
  readable : DemoState → StateRow
  unreadable : StateRow

pub data AuditEvent : Type 0 where
  kill_switch_set execution_started : String → AuditEvent
  was_reconciled reconciliation_failed : AuditEvent
  request_reserved : String → AuditEvent
  request_finished execution_outcome : String → Bool → AuditEvent

pub record DemoDb : Type 0 where
  pub row : Option StateRow
  pub requests : List (String × RequestRow)
  pub audit : List AuditEvent

abbrev pub empty_demo_db : DemoDb
empty_demo_db = record { row = none; requests = []; audit = [] }

abbrev pub write : DemoState → AuditEvent → DemoDb → DemoDb
write s event db = record db { row = some (readable s); audit = db.audit ++ event ∷ [] }

-- `_state`, which writes a first row, or the row of a corrupt one.
unfoldable pub load : DemoDb → DemoState × DemoDb
unfolding initial_state
load db = elim db.row [
  | none ↦ (initial_state, record db { row = some (readable initial_state) })
  | some (readable s) ↦ (s, db)
  | some unreadable ↦
      let s = record initial_state { kill_switch_reason = "corrupt_state" } in
      (s, record db { row = some (readable s) })
]

unfoldable pub stop : String → DemoDb → DemoDb
stop reason db =
    let (s, db') = load db in
    write (record s { stopped = true; kill_switch_reason = reason; reconciled = false })
      (kill_switch_set reason) db'

-- Nothing where the source raises.
unfoldable pub start : String → DemoDb → Option DemoDb
start reason db =
    let (s, db') = load db in
    if s.reconciled
    then some (
        write (record s { stopped = false; kill_switch_reason = reason }) (execution_started reason)
          db')
    else none

-- The details that the source stores beside the flag are read by nothing.
unfoldable pub mark_reconciled : DemoDb → DemoDb
mark_reconciled db =
    let (s, db') = load db in write (record s { reconciled = true }) was_reconciled db'

-- Whether the row is new, and otherwise the outcome that it holds.
unfoldable pub reserve : String → RequestData → DemoDb → (Bool × Option DemoOutcome) × DemoDb
reserve request_id request db = elim (lookup request_id db.requests) [
  | some row ↦ ((false, row.outcome), db)
  | none ↦ (
    (true, none),
    record db {
      requests =
          db.requests
          ++ (request_id, record { request = request; status = Status.pending; outcome = none })
            ∷ [];
      audit = db.audit ++ request_reserved request_id ∷ [];
    },
  )
]

abbrev pub is_unknown : Option OutcomeReason → Bool
is_unknown (some OutcomeReason.outcome_unknown) = true
is_unknown _ = false

abbrev pub finish_row : String → DemoOutcome → String × RequestRow → String × RequestRow
finish_row request_id outcome (id, row) =
    if str_eq id request_id
    then (
      id,
      record row {
        status = if is_unknown outcome.reason then Status.pending else Status.completed;
        outcome = some outcome;
      },
    )
    else (id, row)

unfoldable pub finish : String → DemoOutcome → DemoDb → DemoDb
finish request_id outcome db = record db {
  requests = map (finish_row request_id outcome) db.requests;
  audit = db.audit ++ request_finished request_id outcome.accepted ∷ [];
}
