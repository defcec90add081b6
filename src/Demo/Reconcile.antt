-- ===== src/Demo/Reconcile.antt =====
-- `reconcile_after_restart` of `CTraderDemoAdapter` (xauusd/ctrader_demo.py).
use text.Mathlib.Text.{◌==◌ as str_eq}
use xauusd.Prelude.{
  String, Bool, true, false, not, ◌&&◌, if◌then◌else◌, Option, none, some, List, [], ◌∷◌, ◌++◌,
  lookup, ◌==◌,
}
use xauusd.Demo.State.{DemoOutcome, OutcomeReason, RequestRow, Snapshot, DemoAccount}
use xauusd.Demo.Store.{DemoDb, stop, mark_reconciled, finish, reconciliation_failed}
use xauusd.Demo.Adapter.{DemoAdapter, World, broker_id_of}
use xauusd.Demo.Exposure.{is_completed, verify_position_exposure}

abbrev is_present : {A : Type 0} → Option A → Bool
is_present none = false
is_present (some a) = true

-- The request id of every broker id; nothing where two rows share one.
unfoldable pub mapping_of :
    List (String × RequestRow) → List (String × String) → Option (List (String × String))
mapping_of [] mapping = some mapping
mapping_of ((request_id, row) ∷ rows) mapping =
    let broker_id = broker_id_of request_id row in
    let rest = mapping_of rows ((broker_id, request_id) ∷ mapping) in
    if is_present (lookup broker_id mapping) then none else rest

abbrev pub or_key : String → Option String → String
or_key k none = k
or_key k (some v) = v

-- The broker's outcomes under the program's request ids; a later one replaces an earlier.
unfoldable pub outcomes_of :
    List (String × String) → List (String × DemoOutcome) → List (String × DemoOutcome)
outcomes_of mapping [] = []
outcomes_of mapping ((key, o) ∷ os) =
    let id = or_key key (lookup key mapping) in
    outcomes_of mapping os ++ (id, record o { request_id = id }) ∷ []

-- `pending_request_ids`, in the order of the reservations.
unfoldable pub pending_request_ids : List (String × RequestRow) → List String
pending_request_ids [] = []
pending_request_ids ((id, row) ∷ rows) =
    let rest = pending_request_ids rows in if is_completed row.status then rest else id ∷ rest

abbrev pub is_broker_rejection : DemoOutcome → Bool
is_broker_rejection o =
    not o.accepted && elim o.reason [ some OutcomeReason.broker_rejected ↦ true | _ ↦ false ]

abbrev pub are_known : List (String × DemoOutcome) → List String → Bool
are_known outcomes [] = true
are_known outcomes (id ∷ ids) = is_present (lookup id outcomes) && are_known outcomes ids

-- The loop over the pending ids: whether it runs to its end, and the database where it ends.
unfoldable pub finish_pending : List (String × DemoOutcome) → List String → DemoDb → Bool × DemoDb
finish_pending outcomes [] db = (true, db)
finish_pending outcomes (id ∷ ids) db = elim (lookup id outcomes) [
  | none ↦ (false, db)
  | some o ↦
      let rest = finish_pending outcomes ids (finish id o db) in
      if is_broker_rejection o then rest else (false, db)
]

abbrev pub is_same_account : DemoAccount → Snapshot → Bool
is_same_account account s =
    s.account_id == account.account_id
    && (s.is_demo && (str_eq s.symbol account.symbol && s.symbol_id == account.symbol_id))

module _ (adapter : DemoAdapter) where
  -- What follows the mapping of the broker ids.
  abbrev pub settle_pending : Snapshot → DemoDb → Option (List (String × String)) → Bool × DemoDb
  settle_pending s db none = (false, db)
  settle_pending s db (some mapping) =
      let outcomes = outcomes_of mapping s.request_outcomes in
      let pending = pending_request_ids db.requests in
      if are_known outcomes pending then finish_pending outcomes pending db else (false, db)

  -- The body of the `try`: whether it reaches `mark_reconciled`, and the database it has then.
  unfoldable pub check_snapshot : Snapshot → DemoDb → Bool × DemoDb
  check_snapshot s db =
      if is_same_account adapter.account s
      then (let (settled, db') = settle_pending s db (mapping_of db.requests []) in
          (
            settled
                && verify_position_exposure adapter.account db'.requests s adapter.expected_volume,
            db',
          ))
      else (false, db)

  -- The `except` clause.
  abbrev pub fail_reconciliation : DemoDb → DemoDb
  fail_reconciliation db =
      let db' = stop "reconciliation_failed" db in
      record db' { audit = db'.audit ++ reconciliation_failed ∷ [] }

  abbrev pub close_reconciliation : World → Bool × DemoDb → Bool × World
  close_reconciliation w (true, db) = (true, record w { db = mark_reconciled db })
  close_reconciliation w (false, db) = (false, record w { db = fail_reconciliation db })

  unfoldable pub reconcile_after_restart : World → Bool × World
  reconcile_after_restart w = elim (adapter.snapshot w.sent) [
    | none ↦ (false, record w { db = fail_reconciliation w.db })
    | some s ↦ close_reconciliation w (check_snapshot s w.db)
  ]
