-- ===== src/Demo/Settled.antt =====
-- What a reconciliation leaves behind.
use xauusd.Prelude.{
  String, ◌≡◌, refl, inl, inr, ◌⊎◌, Bool, true, false, ◌&&◌, if◌then◌else◌, some, List, [], ◌∷◌,
  All, &&_iff, Bool-cases, Option-cases, arith,
}
use xauusd.Prelude.Int.{ℤ}
use xauusd.Demo.State.{RequestRow, Snapshot, DemoAccount}
use xauusd.Demo.Store.{DemoDb, load, stop, mark_reconciled}
use xauusd.Demo.Adapter.{DemoAdapter, World}
use xauusd.Demo.Exposure.{
  Tally, tally_of, is_resolved, add_outcome, verify_position_exposure, is_empty,
}
use xauusd.Demo.Reconcile.{
  check_snapshot, settle_pending, mapping_of, is_same_account, fail_reconciliation,
  close_reconciliation, reconcile_after_restart,
}
use xauusd.Demo.Agreement.{IsExposed, agrees-IsExposed}
use xauusd.Demo.Known.{load-requests}

abbrev IsResolved : String × RequestRow → Type 0
IsResolved x = is_resolved x.1 ≡ true

tally-IsResolved :
    (account : DemoAccount) (rows : List (String × RequestRow)) (tally result : Tally)
    → tally_of account rows tally ≡ some result
    → All IsResolved rows
unfolding tally_of
tally-IsResolved account [] tally result h = tt
tally-IsResolved account ((id, row) ∷ rows) tally result h = elim (Bool-cases (is_resolved row)) [
  | inr unresolved ↦ absurd (ground arith)
  | inl resolved ↦ elim (Option-cases (add_outcome account id row row.outcome tally)) [
    | inl nothing ↦ absurd (ground arith)
    | inr (next, is_next) ↦ (resolved, tally-IsResolved account rows next result (ground arith))
  ]
]

-- A verified exposure means that no order is open, that the three books agree and that every request
-- is resolved.
verified-IsResolved :
    (account : DemoAccount) (rows : List (String × RequestRow)) (s : Snapshot) (expected : ℤ)
    → verify_position_exposure account rows s expected ≡ true
    → (is_empty s.open_orders ≡ true) × IsExposed account rows s expected × All IsResolved rows
unfolding verify_position_exposure
verified-IsResolved account rows s expected h =
    let (empty, agreed) = (&&_iff _ _).0 h in
    let exposed = agrees-IsExposed account rows s expected agreed in
    (empty, exposed, tally-IsResolved account rows ([], []) exposed.fills exposed.are_counted)

load-mark_reconciled :
    (db : DemoDb)
    → ((load (mark_reconciled db)).0.reconciled ≡ true)
      × ((mark_reconciled db).requests ≡ db.requests)
unfolding load mark_reconciled
load-mark_reconciled db = (refl, load-requests db)

load-fail_reconciliation :
    (adapter : DemoAdapter) (db : DemoDb)
    → ((load (fail_reconciliation adapter db)).0.stopped ≡ true)
      × ((load (fail_reconciliation adapter db)).0.reconciled ≡ false)
unfolding load stop
load-fail_reconciliation adapter db = (refl, refl)

both_hold :
    (same : Bool) (x : Bool × DemoDb) (test : DemoDb → Bool) (db : DemoDb)
    → let y = if◌then◌else◌ {A = Bool × DemoDb} same (x.0 && test x.1, x.1) (false, db) in
      y.0 ≡ true → (same ≡ true) × (test y.1 ≡ true)
both_hold true x test db h = (refl, ((&&_iff _ _).0 h).1)
both_hold false x test db h = absurd (ground arith)

module _ (adapter : DemoAdapter) where
  -- The broker was asked, it is the configured account, no order is open there, its positions add
  -- up to the accepted fills on record and to the paper account's volume, every request is completed without an
  -- unknown outcome, and the store is reconciled.
  pub record IsSettled (w w' : World) : Type 0 where
    pub snapshot : Snapshot
    pub answered : adapter.snapshot w.sent ≡ some snapshot
    pub same_account : is_same_account adapter.account snapshot ≡ true
    pub none_open : is_empty snapshot.open_orders ≡ true
    pub exposed : IsExposed adapter.account w'.db.requests snapshot adapter.expected_volume
    pub resolved : All IsResolved w'.db.requests
    pub reconciled : (load w'.db).0.reconciled ≡ true

  abbrev pub IsFailed : World → Type 0
  IsFailed w' = ((load w'.db).0.stopped ≡ true) × ((load w'.db).0.reconciled ≡ false)

  checked :
      (s : Snapshot) (db : DemoDb)
      → (check_snapshot adapter s db).0 ≡ true
      → (is_same_account adapter.account s ≡ true)
        × (verify_position_exposure adapter.account
              (check_snapshot adapter s db).1.requests
              s
              adapter.expected_volume
            ≡ true)
  unfolding check_snapshot
  checked s db h =
      both_hold (is_same_account adapter.account s)
        (settle_pending adapter s db (mapping_of db.requests []))
        (λ d. verify_position_exposure adapter.account d.requests s adapter.expected_volume) db h

  close-Settled :
      (w : World) (s : Snapshot) (x : Bool × DemoDb)
      → adapter.snapshot w.sent ≡ some s
      → (x.0 ≡ true
          → (is_same_account adapter.account s ≡ true)
            × (verify_position_exposure adapter.account x.1.requests s adapter.expected_volume
                ≡ true))
      → let (fine, w') = close_reconciliation adapter w x in
        ((fine ≡ true) × IsSettled w w') ⊎ ((fine ≡ false) × IsFailed w')
  close-Settled w s (false, db) found verified = inr (refl, load-fail_reconciliation adapter db)
  close-Settled w s (true, db) found verified =
      let (same, exposed) = verified refl in
      let (empty, agreed, resolved) =
        verified-IsResolved adapter.account db.requests s adapter.expected_volume exposed in
      let (reconciled, kept) = load-mark_reconciled db in
      inl (
        refl,
        record {
          snapshot = s;
          answered = found;
          same_account = same;
          none_open = empty;
          exposed = rw kept agreed;
          resolved = rw kept resolved;
          reconciled = reconciled;
        },
      )

  -- A reconciliation either succeeds, and then the broker's account is the configured one, no order is
  -- open there, at every position id the volumes of the broker's positions add up to those of the
  -- accepted fills on record, all the positions add up to the paper account's volume, every request of
  -- the table is completed with an outcome that is not unknown and the store is reconciled; or it
  -- fails, and then the store is stopped and not reconciled.
  pub reconcile-IsSettled :
      (w : World)
      → let (fine, w') = reconcile_after_restart adapter w in
        ((fine ≡ true) × IsSettled w w') ⊎ ((fine ≡ false) × IsFailed w')
  unfolding reconcile_after_restart
  reconcile-IsSettled w = elim (Option-cases (adapter.snapshot w.sent)) [
    | inl raised ↦
        rw (reconcile_after_restart, raised) (inr (refl, load-fail_reconciliation adapter w.db))
    | inr (s, found) ↦
        rw (reconcile_after_restart, found)
          (close-Settled w s (check_snapshot adapter s w.db) found (checked s w.db))
  ]
