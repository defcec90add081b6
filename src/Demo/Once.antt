-- ===== src/Demo/Once.antt =====
-- No order is submitted twice: the broker ids of the submissions are all different.
use xauusd.Prelude.{
  ◌&&◌, String, ◌≡◌, refl, inl, inr, Bool, true, false, not, if◌then◌else◌, Option, none, some,
  List, [], ◌∷◌, ◌++◌, map, lookup, Bool-cases, Option-cases, arith, is_blank,
}
use xauusd.Demo.State.{
  DemoOrder, RequestData, Receipt, DemoOutcome, RequestRow, Snapshot, is_valid_order,
  broker_client_order_id,
}
use xauusd.Demo.Store.{mark_reconciled, DemoDb, load, stop, start, finish, finish_row}
use xauusd.Demo.Reconcile.{
  mapping_of, finish_pending, settle_pending, check_snapshot, fail_reconciliation,
  close_reconciliation, reconcile_after_restart, outcomes_of, pending_request_ids, are_known,
  is_broker_rejection, is_same_account,
}
use xauusd.Demo.Exposure.{verify_position_exposure}
use xauusd.Demo.Adapter.{
  DemoAdapter, World, done, is_within_boundary, collides, request_of, judge, submit,
  with_reservation, execute_running, execute, stop_execution, with_start, start_execution,
}
use xauusd.Demo.Known.{
  All-map, has_broker_id, fresh_broker_id, stop-requests, start-requests, IsKnown-finish,
  IsSafe-submit, IsKnown, AreDistinct, load-requests, IsSafe, reserved_row, reserve_new,
  reserve_old,
}

-- The calls of an adapter, in any order.
pub data DemoCall : Type 0 where
  execute_call : DemoOrder → DemoCall
  stop_call start_call : String → DemoCall
  reconcile_call : DemoCall

module _ (adapter : DemoAdapter) where
  unfoldable pub demo_call : DemoCall → World → World
  demo_call (execute_call order) w = (execute adapter order w).1
  demo_call (stop_call reason) w = (stop_execution adapter reason w).1
  demo_call (start_call reason) w = (start_execution adapter reason w).1
  demo_call reconcile_call w = (reconcile_after_restart adapter w).1

  unfoldable pub demo_calls : List DemoCall → World → World
  demo_calls [] w = w
  demo_calls (c ∷ cs) w = demo_calls cs (demo_call c w)

module _ (adapter : DemoAdapter) where
  pub judge-requests :
      (order : DemoOrder) (r : Option Receipt) (db : DemoDb)
      → (judge adapter order r db).1.requests ≡ db.requests
  unfolding judge
  judge-requests order none db = stop-requests "transport_failure" db
  judge-requests order (some r) db = ground (arith, stop-requests "order_outcome_unknown" db)

  abbrev IsSafeWorld : World → Type 0
  IsSafeWorld w = IsSafe w.db.requests w.sent

  submit-IsSafe :
      (order : DemoOrder) (rows : List (String × RequestRow)) (w : World)
      → w.db.requests ≡ rows ++ (order.request_id, reserved_row (request_of adapter order)) ∷ []
      → has_broker_id (broker_client_order_id adapter.digest order.request_id) rows ≡ false
      → IsSafe rows w.sent
      → IsSafeWorld (submit adapter order w).1
  unfolding submit finish request_of
  submit-IsSafe order rows w reserved fresh safe =
      rw (judge-requests order (adapter.send w.sent (request_of adapter order)) w.db, reserved)
        (IsSafe-submit order.request_id (broker_client_order_id adapter.digest order.request_id) _ _
          rows w.sent refl fresh safe)

  kept_reservation-IsSafe :
      (order : DemoOrder) (w : World) (prior : Option DemoOutcome)
      → IsSafeWorld w
      → IsSafeWorld (with_reservation adapter order w.sent ((false, prior), w.db)).1
  unfolding with_reservation
  kept_reservation-IsSafe order w none safe = safe
  kept_reservation-IsSafe order w (some o) safe = safe

  execute_running-IsSafe :
      (order : DemoOrder) (w : World)
      → IsSafeWorld w
      → IsSafeWorld (execute_running adapter order w).1
  unfolding execute_running with_reservation
  execute_running-IsSafe order w safe =
      let b = broker_client_order_id adapter.digest order.request_id in
      elim (Bool-cases (collides order.request_id b w.db.requests)) [
        | inl clash ↦ rw (clash, stop-requests "broker_identity_collision" w.db) safe
        | inr clear ↦ elim (Option-cases (lookup order.request_id w.db.requests)) [
          | inl new ↦
              rw (clear, reserve_new order.request_id (request_of adapter order) w.db new)
                (submit-IsSafe order w.db.requests _ refl
                  (fresh_broker_id order.request_id b w.db.requests clear new) safe)
          | inr (row, old) ↦
              rw (clear, reserve_old order.request_id (request_of adapter order) w.db row old)
                (kept_reservation-IsSafe order w row.outcome safe)
        ]
      ]

  if-IsSafe :
      {A : Type 0} (test : Bool) (x y : A × World)
      → IsSafeWorld x.1
      → IsSafeWorld y.1
      → IsSafeWorld (if test then x else y).1
  if-IsSafe true x y h k = h
  if-IsSafe false x y h k = k

  load-IsSafe : (w : World) → IsSafeWorld w → IsSafeWorld (record w { db = (load w.db).1 })
  load-IsSafe w safe = rw (load-requests w.db) safe

  with_start-IsSafe :
      (started : Option DemoDb) (w : World)
      → ((db : DemoDb) → started ≡ some db → db.requests ≡ w.db.requests)
      → IsSafeWorld w
      → IsSafeWorld (with_start adapter started w).1
  unfolding with_start
  with_start-IsSafe none w same safe = safe
  with_start-IsSafe (some db) w same safe = rw (same db refl) safe

  IsSafe-finish :
      (id : String) (o : DemoOutcome) (db : DemoDb) (sent : List RequestData)
      → IsSafe db.requests sent
      → IsSafe (finish id o db).requests sent
  unfolding finish
  IsSafe-finish id o db sent safe = record {
    known =
        All-map (IsKnown db.requests) (IsKnown (map (finish_row id o) db.requests))
          (IsKnown-finish id o db.requests) sent safe.known;
    distinct = safe.distinct;
  }

  if-IsSafe_db :
      (test : Bool) (x y : Bool × DemoDb) (sent : List RequestData)
      → IsSafe x.1.requests sent
      → IsSafe y.1.requests sent
      → IsSafe (if test then x else y).1.requests sent
  if-IsSafe_db true x y sent h k = h
  if-IsSafe_db false x y sent h k = k

  finish_pending-IsSafe :
      (outcomes : List (String × DemoOutcome)) (ids : List String) (db : DemoDb)
      (sent : List RequestData)
      → IsSafe db.requests sent
      → IsSafe (finish_pending outcomes ids db).1.requests sent
  unfolding finish_pending
  finish_pending-IsSafe outcomes [] db sent safe = safe
  finish_pending-IsSafe outcomes (id ∷ ids) db sent safe =
      elim (Option-cases (lookup id outcomes)) [
        | inl missing ↦ rw (finish_pending, missing) safe
        | inr (o, found) ↦
            rw (finish_pending, found)
              (if-IsSafe_db (is_broker_rejection o) _ (false, db) sent
                (finish_pending-IsSafe outcomes ids (finish id o db) sent
                  (IsSafe-finish id o db sent safe))
                safe)
      ]

  settle_pending-IsSafe :
      (s : Snapshot) (db : DemoDb) (mapping : Option (List (String × String)))
      (sent : List RequestData)
      → IsSafe db.requests sent
      → IsSafe (settle_pending adapter s db mapping).1.requests sent
  settle_pending-IsSafe s db none sent safe = safe
  settle_pending-IsSafe s db (some mapping) sent safe =
      let outcomes = outcomes_of mapping s.request_outcomes in
      let pending = pending_request_ids db.requests in
      if-IsSafe_db (are_known outcomes pending) (finish_pending outcomes pending db) (false, db)
        sent (finish_pending-IsSafe outcomes pending db sent safe) safe

  check_snapshot-IsSafe :
      (s : Snapshot) (db : DemoDb) (sent : List RequestData)
      → IsSafe db.requests sent
      → IsSafe (check_snapshot adapter s db).1.requests sent
  unfolding check_snapshot
  check_snapshot-IsSafe s db sent safe =
      let (settled, db') = settle_pending adapter s db (mapping_of db.requests []) in
      if-IsSafe_db (is_same_account adapter.account s)
        (
          settled
              && verify_position_exposure adapter.account db'.requests s adapter.expected_volume,
          db',
        )
        (false, db) sent (settle_pending-IsSafe s db (mapping_of db.requests []) sent safe) safe

  fail_reconciliation-IsSafe :
      (db : DemoDb) (sent : List RequestData)
      → IsSafe db.requests sent
      → IsSafe (fail_reconciliation adapter db).requests sent
  fail_reconciliation-IsSafe db sent safe = rw (stop-requests "reconciliation_failed" db) safe

  close_reconciliation-IsSafe :
      (w : World) (x : Bool × DemoDb)
      → IsSafe x.1.requests w.sent
      → IsSafeWorld (close_reconciliation adapter w x).1
  unfolding mark_reconciled
  close_reconciliation-IsSafe w (true, db) safe = rw (load-requests db) safe
  close_reconciliation-IsSafe w (false, db) safe = fail_reconciliation-IsSafe db w.sent safe

  reconcile-IsSafe : (w : World) → IsSafeWorld w → IsSafeWorld (reconcile_after_restart adapter w).1
  unfolding reconcile_after_restart
  reconcile-IsSafe w safe = elim (Option-cases (adapter.snapshot w.sent)) [
    | inl raised ↦
        rw (reconcile_after_restart, raised) (fail_reconciliation-IsSafe w.db w.sent safe)
    | inr (s, found) ↦
        rw (reconcile_after_restart, found)
          (close_reconciliation-IsSafe w (check_snapshot adapter s w.db)
            (check_snapshot-IsSafe s w.db w.sent safe))
  ]

  call-IsSafe : (c : DemoCall) (w : World) → IsSafeWorld w → IsSafeWorld (demo_call adapter c w)
  unfolding demo_call execute stop_execution start_execution
  call-IsSafe (execute_call order) w safe =
      let read = load-IsSafe w safe in
      if-IsSafe (not (is_valid_order order)) _ _ safe (
        if-IsSafe (not (is_within_boundary adapter)) _ _ safe (
          if-IsSafe (load w.db).0.stopped _ _ read
            (execute_running-IsSafe order (record w { db = (load w.db).1 }) read)))
  call-IsSafe (stop_call reason) w safe =
      if-IsSafe (is_blank reason) _ (done tt, record w { db = stop reason w.db }) safe
        (rw (stop-requests reason w.db) safe)
  call-IsSafe (start_call reason) w safe =
      let read = load-IsSafe w safe in
      if-IsSafe (is_blank reason) _ _ safe (
        if-IsSafe (not (is_within_boundary adapter)) _ _ safe (
          if-IsSafe (not (load w.db).0.reconciled) _ _ read (
            with_start-IsSafe (start reason (load w.db).1) (record w { db = (load w.db).1 })
              (start-requests reason (load w.db).1) read)))
  call-IsSafe reconcile_call w safe = reconcile-IsSafe w safe

  calls-IsSafe :
      (cs : List DemoCall) (w : World) → IsSafeWorld w → IsSafeWorld (demo_calls adapter cs w)
  unfolding demo_calls
  calls-IsSafe [] w safe = safe
  calls-IsSafe (c ∷ cs) w safe = calls-IsSafe cs (demo_call adapter c w) (call-IsSafe c w safe)

  -- Whatever the table of requests holds when an adapter is set up, no two of the orders that it
  -- sends in any sequence of executions, stops, starts and reconciliations have the same broker
  -- client order id.
  pub submits_once :
      (db : DemoDb) (cs : List DemoCall)
      → AreDistinct (demo_calls adapter cs (record { db = db; sent = [] })).sent
  submits_once db cs =
      (calls-IsSafe cs (record { db = db; sent = [] })
        (record { known = tt; distinct = tt })).distinct
