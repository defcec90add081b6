-- ===== src/Paper/Idempotence.antt =====
-- Answers are stored: a decision id that has been answered is answered the same from then on.
use xauusd.Prelude.{
  ℕ, String, ◌≡◌, sym, ap, ◌∙◌, true, false, List, [], ◌∷◌, some, lookup, is_blank,
  lookup-append_new, lookup-append_old, Bool-cases, inl, inr,
}
use mathlib.Core.Path.{ap₂, subst₂}
use xauusd.Number.{Number}
use xauusd.Paper.State.{PaperState, PaperDecision, Reply, Result, returned, raised, ◌>>=◌}
use xauusd.Paper.Account.{Desk}
use xauusd.Paper.Store.{PaperDb, Answer, run}
use xauusd.Paper.Trading.{Response, unidentified, answered, evaluate, decide}
use xauusd.Paper.Calls.{Call, call, calls}
use xauusd.Paper.Changes.{RunCase, replays, fails, runs, run-RunCase}
use xauusd.Paper.Steps.{Step, keeps, decides, observes, starts, stops, resumes, call-Step}

module _ {F : Type 0} ⦃n : Number F⦄ (desk : Desk F) (initial_cash : F) where
  -- A row of the table stays, whatever is called.
  Step-lookup :
      {c : Call F} (db db' : PaperDb F) (id : String) (reply : Reply F)
      → Step desk initial_cash db db' c
      → lookup id db.decisions ≡ some reply
      → lookup id db'.decisions ≡ some reply
  Step-lookup db db' id reply (keeps k) h = ap (lookup id) k.decisions ∙ h
  Step-lookup db db' id reply (decides _ _ ran) h =
      ap (lookup id) ran.recorded ∙ lookup-append_old id reply db.decisions _ h
  Step-lookup db db' id reply (observes _ _ ran) h =
      ap (lookup id) ran.recorded ∙ lookup-append_old id reply db.decisions _ h
  Step-lookup db db' id reply (starts _ moved) h = ap (lookup id) moved.decisions ∙ h
  Step-lookup db db' id reply (stops _ moved) h = ap (lookup id) moved.decisions ∙ h
  Step-lookup db db' id reply (resumes _ moved) h = ap (lookup id) moved.decisions ∙ h

  lookup-calls :
      (cs : List (Call F)) (db : PaperDb F) (id : String) (reply : Reply F)
      → lookup id db.decisions ≡ some reply
      → lookup id (calls desk initial_cash cs db).decisions ≡ some reply
  unfolding calls
  lookup-calls [] db id reply h = h
  lookup-calls (c ∷ cs) db id reply h =
      lookup-calls cs (call desk initial_cash c db) id reply
        (Step-lookup db (call desk initial_cash c db) id reply (call-Step desk initial_cash c db) h)

  -- An answer to a decision id stands in the table.
  lookup-run :
      {id : String} {transition : PaperState F → Result (Reply F × PaperState F)}
      (db db' : PaperDb F) (answer : Answer F)
      → RunCase initial_cash id transition db (returned answer) db'
      → lookup id db'.decisions ≡ some answer.reply
  lookup-run db db' answer (replays reply old e same) = rw same (old ∙ cc)
  lookup-run db db' answer (fails e new f same) = cc
  lookup-run {id} db db' answer (runs reply new e ran) =
      ap (lookup id) ran.recorded ∙ lookup-append_new id reply db.decisions new ∙ cc

  run-of_old :
      {id : String} {transition : PaperState F → Result (Reply F × PaperState F)}
      (db db' : PaperDb F) (answer : Result (Answer F)) (reply : Reply F)
      → RunCase initial_cash id transition db answer db'
      → lookup id db.decisions ≡ some reply
      → (answer ≡ returned (record { reply = reply; replayed = true })) × (db' ≡ db)
  run-of_old db db' answer reply (replays reply' old e same) h = (cc, same)
  run-of_old db db' answer reply (fails e new f same) h = cc
  run-of_old db db' answer reply (runs reply' new e ran) h = cc

  evaluate-of_id :
      (d : PaperDecision F) (now : ℕ) (db : PaperDb F)
      → is_blank d.decision_id ≡ false
      → evaluate desk initial_cash d now db ≡ (
          let (answer, db') = run initial_cash d.decision_id (decide desk initial_cash d now) db in
          (answer >>= λ a. returned (answered a), db'))
  unfolding evaluate
  evaluate-of_id d now db given = rw given

  evaluate-of_blank :
      (d : PaperDecision F) (now : ℕ) (db : PaperDb F)
      → is_blank d.decision_id ≡ true
      → evaluate desk initial_cash d now db ≡ (returned (unidentified d.decision_id), db)
  unfolding evaluate
  evaluate-of_blank d now db blank = rw blank

  answer-of_bind :
      (outcome : Result (Answer F)) (a : Answer F)
      → (outcome >>= λ b. returned (answered b)) ≡ returned (answered a)
      → outcome ≡ returned a
  answer-of_bind (returned b) a h = cc
  answer-of_bind (raised e) a h = cc

  -- An evaluation that answered had an id that is not blank, and the store's answer.
  pub answered_lem :
      (d : PaperDecision F) (now : ℕ) (db db' : PaperDb F) (a : Answer F)
      → evaluate desk initial_cash d now db ≡ (returned (answered a), db')
      → (is_blank d.decision_id ≡ false)
        × RunCase initial_cash d.decision_id (decide desk initial_cash d now) db (returned a) db'
  answered_lem d now db db' a h = elim (Bool-cases (is_blank d.decision_id)) [
    | inl blank ↦ cc (evaluate-of_blank d now db blank)
    | inr given ↦
        let e = sym (evaluate-of_id d now db given) ∙ h in
        let ran = run-RunCase initial_cash d.decision_id (decide desk initial_cash d now) db in
        (
          given,
          subst₂ (RunCase initial_cash d.decision_id (decide desk initial_cash d now) db)
              (answer-of_bind _ a (ap {B = Result (Response F)} (λ p. p.0) e))
              (ap {B = PaperDb F} (λ p. p.1) e) ran,
        )
  ]

  -- A decision id that has been answered is answered with the same reply, marked as replayed, by
  -- every later evaluation of a decision with that id, whatever the decision otherwise says and
  -- whatever is called in between; and such an evaluation leaves the database as it is.
  pub evaluate_again :
      (d d' : PaperDecision F) (now now' : ℕ) (db db' : PaperDb F) (a : Answer F)
      (cs : List (Call F))
      → evaluate desk initial_cash d now db ≡ (returned (answered a), db')
      → d'.decision_id ≡ d.decision_id
      → let later = calls desk initial_cash cs db' in
        evaluate desk initial_cash d' now' later
        ≡ (returned (answered (record { reply = a.reply; replayed = true })), later)
  evaluate_again d d' now now' db db' a cs h same =
      let (given, ran) = answered_lem d now db db' a h in
      let later = calls desk initial_cash cs db' in
      let found =
        ap (λ k. lookup k later.decisions) same
        ∙ lookup-calls cs db' d.decision_id a.reply (lookup-run db db' a ran) in
      let (answer, kept) =
        run-of_old later _ _ a.reply
          (run-RunCase initial_cash d'.decision_id (decide desk initial_cash d' now') later)
          found in
      evaluate-of_id d' now' later (ap is_blank same ∙ given)
      ∙ ap₂ (λ x y. (x >>= λ b. returned (answered b), y)) answer kept
