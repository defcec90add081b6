-- ===== src/Paper/Changes.antt =====
-- What one call does to the state that the next call reads and to the table of decisions.
use xauusd.Prelude.{
  String, ◌≡◌, refl, true, false, inl, inr, none, some, [], ◌∷◌, ◌++◌, arith, Option-cases, lookup,
}
use xauusd.Number.{Number}
use xauusd.Paper.State.{PaperState, Reply, Error, Result, returned, raised, >>=-eq-returned}
use xauusd.Paper.Store.{
  PaperDb, Answer, transaction, save, locked_state, add_decision, run_new, run,
}
use xauusd.Paper.Calls.{current, current-save, current-locked_state}

module _ {F : Type 0} ⦃n : Number F⦄ (initial_cash : F) where
  -- A transition that ran: from the current state to the one that is read next.
  pub record Ran (id : String) (transition : PaperState F → Result (Reply F × PaperState F))
      (db : PaperDb F) (reply : Reply F) (db' : PaperDb F) : Type 0 where
    pub moved : transition (current initial_cash db) ≡ returned (reply, current initial_cash db')
    pub recorded : db'.decisions ≡ db.decisions ++ (id, reply) ∷ []

  current-add_decision :
      (id : String) (reply : Reply F) (db db' : PaperDb F) (answer : Answer F)
      → add_decision id reply db ≡ returned (answer, db')
      → (answer ≡ record { reply = reply; replayed = false })
        × (current initial_cash db' ≡ current initial_cash db)
        × (db'.decisions ≡ db.decisions ++ (id, reply) ∷ [])
  unfolding add_decision current
  current-add_decision id reply db db' answer h = ground arith

  Ran-of_steps :
      (id : String) (transition : PaperState F → Result (Reply F × PaperState F))
      (db db₁ db₂ db' : PaperDb F) (s s' : PaperState F) (reply : Reply F) (answer : Answer F)
      → locked_state initial_cash db ≡ returned (s, db₁)
      → transition s ≡ returned (reply, s')
      → save db₁ s' ≡ returned db₂
      → add_decision id reply db₂ ≡ returned (answer, db')
      → Ran id transition db answer.reply db' × (answer.replayed ≡ false)
  Ran-of_steps id transition db db₁ db₂ db' s s' reply answer locked moved saved added =
      let (at, _, kept) = current-locked_state initial_cash db db₁ s locked in
      let (read, kept') = current-save initial_cash db₁ db₂ s' saved in
      let (made, same, grown) = current-add_decision id reply db₂ db' answer added in
      (record { moved = cc; recorded = cc }, cc)

  run_new-Ran :
      (id : String) (transition : PaperState F → Result (Reply F × PaperState F))
      (db db' : PaperDb F) (answer : Answer F)
      → run_new initial_cash id transition db ≡ returned (answer, db')
      → Ran id transition db answer.reply db' × (answer.replayed ≡ false)
  unfolding run_new
  run_new-Ran id transition db db' answer h =
      let (locked, is_locked, rest₁) = >>=-eq-returned (locked_state initial_cash db) _ h in
      let (moved, is_moved, rest₂) = >>=-eq-returned (transition locked.0) _ rest₁ in
      let (saved, is_saved, added) = >>=-eq-returned (save locked.1 moved.1) _ rest₂ in
      Ran-of_steps id transition db locked.1 saved db' locked.0 moved.1 moved.0 answer is_locked
        is_moved is_saved added

  -- The three ways that `run` ends.
  pub data RunCase (id : String) (transition : PaperState F → Result (Reply F × PaperState F))
      (db : PaperDb F) (answer : Result (Answer F)) (db' : PaperDb F) : Type 0 where
    replays :
        (reply : Reply F)
        → lookup id db.decisions ≡ some reply
        → answer ≡ returned (record { reply = reply; replayed = true })
        → db' ≡ db
        → RunCase id transition db answer db'
    fails :
        (e : Error)
        → lookup id db.decisions ≡ none
        → answer ≡ raised e
        → db' ≡ db
        → RunCase id transition db answer db'
    runs :
        (reply : Reply F)
        → lookup id db.decisions ≡ none
        → answer ≡ returned (record { reply = reply; replayed = false })
        → Ran id transition db reply db'
        → RunCase id transition db answer db'

  pub run-of_new :
      (id : String) (transition : PaperState F → Result (Reply F × PaperState F)) (db : PaperDb F)
      → lookup id db.decisions ≡ none
      → run initial_cash id transition db ≡ transaction db (run_new initial_cash id transition db)
  unfolding run
  run-of_new id transition db e = rw (e, run)

  pub run-of_old :
      (id : String) (transition : PaperState F → Result (Reply F × PaperState F)) (db : PaperDb F)
      (reply : Reply F)
      → lookup id db.decisions ≡ some reply
      → run initial_cash id transition db
        ≡ (returned (record { reply = reply; replayed = true }), db)
  unfolding run
  run-of_old id transition db reply e = rw (e, run)

  -- By whether the id is found, and how the transaction ends.
  RunCase-of_new :
      (id : String) (transition : PaperState F → Result (Reply F × PaperState F)) (db : PaperDb F)
      (outcome : Result (Answer F × PaperDb F))
      → lookup id db.decisions ≡ none
      → run_new initial_cash id transition db ≡ outcome
      → let (answer, db') = transaction db outcome in RunCase id transition db answer db'
  RunCase-of_new id transition db (raised e) new failed = fails e new refl refl
  RunCase-of_new id transition db (returned (answer, db')) new moved =
      let (ran, fresh) = run_new-Ran id transition db db' answer moved in
      runs answer.reply new (cc) ran

  pub run-RunCase :
      (id : String) (transition : PaperState F → Result (Reply F × PaperState F)) (db : PaperDb F)
      → let (answer, db') = run initial_cash id transition db in RunCase id transition db answer db'
  run-RunCase id transition db = elim (Option-cases (lookup id db.decisions)) [
    | inr (reply, old) ↦ rw (run-of_old id transition db reply old) (replays reply old refl refl)
    | inl new ↦
        rw (run-of_new id transition db new)
          (RunCase-of_new id transition db (run_new initial_cash id transition db) new refl)
  ]
