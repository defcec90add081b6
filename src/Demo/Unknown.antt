-- ===== src/Demo/Unknown.antt =====
-- An order whose outcome is unknown: the store stops and the request stays pending.
use xauusd.Prelude.{
  String, ◌≡◌, refl, ap, ◌∙◌, true, false, if◌then◌else◌, Option, none, some, List, [], ◌∷◌, map,
  lookup, arith,
}
use xauusd.Demo.State.{
  DemoOrder, RequestData, Receipt, OutcomeReason, DemoOutcome, RequestRow, Status,
}
use xauusd.Demo.Store.{DemoDb, load, stop, finish, finish_row, is_unknown}
use xauusd.Demo.Adapter.{DemoAdapter, World, done, request_of, judge, submit, execute}
use xauusd.Demo.Known.{reserved_row}
use xauusd.Demo.Once.{judge-requests}
use xauusd.Demo.Fresh.{Fresh, switched_off, collided, submitted, execute-Fresh}

-- The row of a finished request.
abbrev finished : DemoOutcome → RequestRow → RequestRow
finished o row = record row {
  status = if is_unknown o.reason then Status.pending else Status.completed;
  outcome = some o;
}

lookup-finish :
    (id : String) (o : DemoOutcome) (row : RequestRow) (rows : List (String × RequestRow))
    → lookup id rows ≡ some row
    → lookup id (map (finish_row id o) rows) ≡ some (finished o row)
unfolding lookup
lookup-finish id o row [] h = cc
lookup-finish id o row ((i, r) ∷ rows) h = ground (arith, lookup-finish id o row rows)

pub load-stop :
    (reason : String) (db : DemoDb)
    → ((load (stop reason db)).0.stopped ≡ true) × ((load (stop reason db)).0.reconciled ≡ false)
unfolding load stop
load-stop reason db = (refl, refl)

load-finish :
    (id : String) (o : DemoOutcome) (db : DemoDb) → (load (finish id o db)).0 ≡ (load db).0
unfolding load finish
load-finish id o db = ground arith

module _ (adapter : DemoAdapter) where
  judge_unknown :
      (order : DemoOrder) (r : Option Receipt) (db : DemoDb)
      → (judge adapter order r db).0.reason ≡ some OutcomeReason.outcome_unknown
      → (reason : String) × ((judge adapter order r db).1 ≡ stop reason db)
  unfolding judge
  judge_unknown order none db h = ("transport_failure", refl)
  judge_unknown order (some r) db h = ("order_outcome_unknown", ground arith)

  -- The store is stopped and unreconciled, and the request is pending with the outcome beside it.
  pub record IsHeld (order : DemoOrder) (o : DemoOutcome) (w' : World) : Type 0 where
    pub is_stopped : (load w'.db).0.stopped ≡ true
    pub is_unreconciled : (load w'.db).0.reconciled ≡ false
    pub row : RequestRow
    pub is_stored : lookup order.request_id w'.db.requests ≡ some row
    pub is_pending : row.status ≡ Status.pending
    pub has_outcome : row.outcome ≡ some o

  -- The row of a submission, once it is finished.
  submitted_row :
      (order : DemoOrder) (sent : List RequestData) (db : DemoDb)
      → lookup order.request_id db.requests ≡ some (reserved_row (request_of adapter order))
      → let after = submit adapter order (record { db = db; sent = sent }) in
        lookup order.request_id after.1.db.requests
        ≡ some (finished after.0 (reserved_row (request_of adapter order)))
  unfolding submit finish
  submitted_row order sent db h =
      let answer = adapter.send sent (request_of adapter order) in
      rw (judge-requests adapter order answer db) (
        lookup-finish order.request_id (judge adapter order answer db).0
          (reserved_row (request_of adapter order)) db.requests h)

  Fresh-IsHeld :
      (order : DemoOrder) (w w' : World) (o : DemoOutcome)
      → Fresh adapter order w o w'
      → o.reason ≡ some OutcomeReason.outcome_unknown
      → IsHeld order o w'
  unfolding submit
  Fresh-IsHeld order w _ _ (switched_off off) unknown = absurd (ground arith)
  Fresh-IsHeld order w _ _ collided unknown = absurd (ground arith)
  Fresh-IsHeld order w _ _ (submitted db on reserved) unknown =
      let answer = adapter.send w.sent (request_of adapter order) in
      let o = (judge adapter order answer db).0 in
      let db' = (judge adapter order answer db).1 in
      let (reason, halted) = judge_unknown order answer db unknown in
      let at = load-finish order.request_id o db' ∙ ap (λ d. (load d).0) halted in
      let (off, unreconciled) = load-stop reason db in
      record {
        is_stopped = ap (λ s. s.stopped) at ∙ off;
        is_unreconciled = ap (λ s. s.reconciled) at ∙ unreconciled;
        row = finished o (reserved_row (request_of adapter order));
        is_stored = submitted_row order w.sent db reserved;
        is_pending = rw unknown refl;
        has_outcome = refl;
      }

  -- Once the outcome of a new order's execution is unknown, the store is stopped and no longer
  -- reconciled, and the order's request stays pending with that outcome.
  pub unknown-IsHeld :
      (order : DemoOrder) (w w' : World) (o : DemoOutcome)
      → execute adapter order w ≡ (done o, w')
      → lookup order.request_id w.db.requests ≡ none
      → o.reason ≡ some OutcomeReason.outcome_unknown
      → IsHeld order o w'
  unknown-IsHeld order w w' o h new unknown =
      Fresh-IsHeld order w w' o (execute-Fresh adapter order w w' o h new) unknown
