-- ===== src/Paper/Calls.antt =====
-- Sequences of calls of `PaperTrading`, in any order, and the rule that carries a property of the
-- state through all of them. A call whose exception rolls it back leaves the database as it was.
use xauusd.Prelude.{ℕ, String, ◌≡◌, true, none, some, List, [], ◌∷◌, arith}
use xauusd.Number.{Number}
use xauusd.Paper.State.{
  PaperState, PaperDecision, returned, default_state, is_finite_account, is_finite_state,
}
use xauusd.Paper.Account.{Desk}
use xauusd.Paper.Store.{PaperDb, validated, save, locked_state, state}
use xauusd.Paper.Trading.{evaluate, monitor, start, stop, maybe_resume}

pub data Call (F : Type 0) : Type 0 where
  evaluate_call : PaperDecision F → ℕ → Call F
  -- The key, the price, the time of the observation and the clock.
  monitor_call : (ℕ → F → String) → F → ℕ → ℕ → Call F
  start_call stop_call maybe_resume_call : String → Call F
  state_call : Call F

module _ {F : Type 0} ⦃n : Number F⦄ (desk : Desk F) (initial_cash : F) where
  -- The database after a call.
  unfoldable pub call : Call F → PaperDb F → PaperDb F
  call (evaluate_call d now) db = (evaluate desk initial_cash d now db).1
  call (monitor_call key price at now) db = (monitor desk initial_cash key price at now db).1
  call (start_call reason) db = (start desk initial_cash reason db).1
  call (stop_call reason) db = (stop desk initial_cash reason db).1
  call (maybe_resume_call reason) db = (maybe_resume desk initial_cash reason db).1
  call state_call db = (state initial_cash db).1

  unfoldable pub calls : List (Call F) → PaperDb F → PaperDb F
  calls [] db = db
  calls (c ∷ cs) db = calls cs (call c db)

module _ {F : Type 0} ⦃n : Number F⦄ where
  -- The state that the next call reads.
  unfoldable pub current : F → PaperDb F → PaperState F
  current initial_cash db = elim db.row [
    | none ↦ default_state initial_cash
    | some row ↦ validated initial_cash row
  ]

  is_finite_account-state :
      (s : PaperState F) → is_finite_state s ≡ true → is_finite_account s ≡ true
  unfolding is_finite_state
  is_finite_account-state s h = ground arith

  -- What was saved is what the next call reads, and the decisions stay.
  pub current-save :
      (initial_cash : F) (db db' : PaperDb F) (s : PaperState F)
      → save db s ≡ returned db'
      → (current initial_cash db' ≡ s) × (db'.decisions ≡ db.decisions)
  unfolding save current validated
  current-save initial_cash db db' s h = ground (arith, is_finite_account-state s)

  pub current-locked_state :
      (initial_cash : F) (db db' : PaperDb F) (s : PaperState F)
      → locked_state initial_cash db ≡ returned (s, db')
      → (s ≡ current initial_cash db)
        × (current initial_cash db' ≡ current initial_cash db)
        × (db'.decisions ≡ db.decisions)
  unfolding locked_state current save
  current-locked_state initial_cash db db' s h = ground (arith, is_finite_account-state s)
