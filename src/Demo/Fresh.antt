-- ===== src/Demo/Fresh.antt =====
-- The ways in which the execution of a new order can end.
use xauusd.Prelude.{
  ◌≡◌, ap, ◌∙◌, subst, inl, inr, ◌⊎◌, true, false, none, some, lookup, lookup-append_new,
  Bool-cases, arith,
}
use xauusd.Demo.State.{
  DemoOrder, OutcomeReason, DemoOutcome, is_valid_order, broker_client_order_id,
}
use xauusd.Demo.Store.{DemoDb, load, stop}
use xauusd.Demo.Adapter.{
  DemoAdapter, World, Attempt, done, is_within_boundary, collides, request_of, submit,
  with_reservation, execute_running, execute, outcome_of,
}
use xauusd.Demo.Known.{load-requests, reserved_row, reserve_new}

done_injective : {A : Type 0} (x y : A) → done x ≡ done y → x ≡ y
done_injective x y e = ground arith

unpack :
    (r : DemoOutcome × World) (o : DemoOutcome) (w' : World)
    → ◌≡◌ {A = Attempt DemoOutcome × World} (done r.0, r.1) (done o, w')
    → r ≡ (o, w')
unpack r o w' e =
    let first = done_injective r.0 o (ap (λ p. p.0) e) in let second = ap (λ p. p.1) e in cc

module _ (adapter : DemoAdapter) where
  -- An execution that returns, on a request id that the table does not hold.
  pub data Fresh (order : DemoOrder) (w : World) : DemoOutcome → World → Type 0 where
    switched_off :
        (load w.db).0.stopped ≡ true
        → Fresh order w
            (outcome_of false (some OutcomeReason.kill_switch) order none)
            (record w { db = (load w.db).1 })
    collided :
        Fresh order w
          (outcome_of false (some OutcomeReason.identity_collision) order none)
          (record w { db = stop "broker_identity_collision" (load w.db).1 })
    submitted :
        (db : DemoDb)
        → (load w.db).0.stopped ≡ false
        → lookup order.request_id db.requests ≡ some (reserved_row (request_of adapter order))
        → Fresh order w
            (submit adapter order (record { db = db; sent = w.sent })).0
            (submit adapter order (record { db = db; sent = w.sent })).1

  execute_lem :
      (order : DemoOrder) (w w' : World) (o : DemoOutcome)
      → execute adapter order w ≡ (done o, w')
      → (((load w.db).0.stopped ≡ true)
          × (o ≡ outcome_of false (some OutcomeReason.kill_switch) order none)
          × (w' ≡ record w { db = (load w.db).1 }))
        ⊎ (((load w.db).0.stopped ≡ false)
            × (execute_running adapter order (record w { db = (load w.db).1 }) ≡ (o, w')))
  unfolding execute
  execute_lem order w w' o h = elim (Bool-cases (is_valid_order order)) [
    | inr bad ↦ absurd (ground arith)
    | inl good ↦ elim (Bool-cases (is_within_boundary adapter)) [
      | inr out ↦ absurd (ground arith)
      | inl within ↦ elim (Bool-cases (load w.db).0.stopped) [
        | inl off ↦ inl (off, cc, cc)
        | inr on ↦ inr (
          on,
          unpack (execute_running adapter order (record w { db = (load w.db).1 })) o w'
              (ground arith),
        )
      ]
    ]
  ]

  running-Fresh :
      (order : DemoOrder) (w : World)
      → (load w.db).0.stopped ≡ false
      → lookup order.request_id w.db.requests ≡ none
      → let after = execute_running adapter order (record w { db = (load w.db).1 }) in
        Fresh order w after.0 after.1
  unfolding execute_running with_reservation
  running-Fresh order w on new =
      let db = (load w.db).1 in
      let b = broker_client_order_id adapter.digest order.request_id in
      let missing = ap (lookup order.request_id) (load-requests w.db) ∙ new in
      elim (Bool-cases (collides order.request_id b db.requests)) [
        | inl clash ↦ rw clash collided
        | inr clear ↦
            rw (clear, reserve_new order.request_id (request_of adapter order) db missing)
              (submitted _ on (
                lookup-append_new order.request_id (reserved_row (request_of adapter order))
                  db.requests missing))
      ]

  pub execute-Fresh :
      (order : DemoOrder) (w w' : World) (o : DemoOutcome)
      → execute adapter order w ≡ (done o, w')
      → lookup order.request_id w.db.requests ≡ none
      → Fresh order w o w'
  execute-Fresh order w w' o h new = elim (execute_lem order w w' o h) [
    | inl (off, same, after) ↦ rw (same, after) (switched_off off)
    | inr (on, ran) ↦ subst (λ x. Fresh order w x.0 x.1) ran (running-Fresh order w on new)
  ]
