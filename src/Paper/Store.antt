-- ===== src/Paper/Store.antt =====
-- `SQLitePaperTradingStore` (xauusd/local_state.py), which `CockroachPaperTradingStore` repeats over
-- another connection: the one state row, the table of decisions, and the transaction round a call.
use xauusd.Prelude.{
  String, Bool, true, false, if◌then◌else◌, Option, none, some, List, [], ◌∷◌, ◌++◌, lookup,
}
use text.Mathlib.Text.{◌==◌ as str_eq}
use xauusd.Number.{Number}
use xauusd.Paper.State.{
  PaperState, Reply, Result, returned, raised, not_json, ◌>>=◌, default_state, corrupt_state,
  is_finite_account, is_finite_state, is_finite_reply,
}

-- The text of the state row: the JSON of a state, numbers that are not finite included, or one that
-- the validation refuses. `Validation` has the JSON.
pub data Row (F : Type 0) : Type 0 where
  readable : PaperState F → Row F
  unreadable : Row F

pub record PaperDb (F : Type 0) : Type 0 where
  pub row : Option (Row F)
  pub decisions : List (String × Reply F)

abbrev pub empty_db : {F : Type 0} → PaperDb F
empty_db = record { row = none; decisions = [] }

-- What `run` hands back: the result, and whether it is a stored one.
pub record Answer (F : Type 0) : Type 0 where
  pub reply : Reply F
  pub replayed : Bool

-- A transaction keeps what it wrote only if it returns.
abbrev pub transaction : {F A : Type 0} → PaperDb F → Result (A × PaperDb F) → Result A × PaperDb F
transaction db (returned (a, db')) = (returned a, db')
transaction db (raised e) = (raised e, db)

module _ {F : Type 0} ⦃n : Number F⦄ where
  -- `validated_paper_state` on the text of the row.
  unfoldable pub validated : F → Row F → PaperState F
  validated initial_cash (readable s) =
      if is_finite_account s then s else corrupt_state initial_cash
  validated initial_cash unreadable = corrupt_state initial_cash

  -- `_save`, and the insertion of a first row.
  unfoldable pub save : PaperDb F → PaperState F → Result (PaperDb F)
  save db s =
      if is_finite_state s
      then returned (record db { row = some (readable s) })
      else raised not_json

  unfoldable pub locked_state : F → PaperDb F → Result (PaperState F × PaperDb F)
  unfolding save validated
  locked_state initial_cash db = elim db.row [
    | none ↦ let s = default_state initial_cash in (save db s >>= λ db'. returned (s, db'))
    | some row ↦
        let s = validated initial_cash row in
        if str_eq s.kill_switch_reason "corrupt_state"
        then (save db s >>= λ db'. returned (s, db'))
        else returned (s, db)
  ]

  -- The insertion into the table of decisions.
  unfoldable pub add_decision : String → Reply F → PaperDb F → Result (Answer F × PaperDb F)
  add_decision decision_id reply db =
      if is_finite_reply reply
      then returned (
        record { reply = reply; replayed = false },
        record db { decisions = db.decisions ++ (decision_id, reply) ∷ [] },
      )
      else raised not_json

  -- The body of `run` for a decision id that the table does not hold.
  unfoldable pub run_new :
      F
      → String
      → (PaperState F → Result (Reply F × PaperState F))
      → PaperDb F
      → Result (Answer F × PaperDb F)
  run_new initial_cash decision_id transition db = do
    (s, db₁) ← locked_state initial_cash db
    (reply, s') ← transition s
    db₂ ← save db₁ s'
    add_decision decision_id reply db₂

  unfoldable pub run :
      F
      → String
      → (PaperState F → Result (Reply F × PaperState F))
      → PaperDb F
      → Result (Answer F) × PaperDb F
  run initial_cash decision_id transition db = elim (lookup decision_id db.decisions) [
    | some reply ↦ (returned (record { reply = reply; replayed = true }), db)
    | none ↦ transaction db (run_new initial_cash decision_id transition db)
  ]

  -- What `set_kill_switch` does inside its transaction.
  unfoldable pub switch : F → Bool → String → PaperDb F → Result (Unit {0} × PaperDb F)
  switch initial_cash stopped reason db = do
    (s, db₁) ← locked_state initial_cash db
    db₂ ← save db₁ (record s { stopped = stopped; kill_switch_reason = reason })
    returned (tt, db₂)

  unfoldable pub set_kill_switch : F → Bool → String → PaperDb F → Result (Unit {0}) × PaperDb F
  set_kill_switch initial_cash stopped reason db =
      transaction db (switch initial_cash stopped reason db)

  unfoldable pub state : F → PaperDb F → Result (PaperState F) × PaperDb F
  state initial_cash db = transaction db (locked_state initial_cash db)
