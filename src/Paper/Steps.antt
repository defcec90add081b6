-- ===== src/Paper/Steps.antt =====
-- Each call of `PaperTrading` as one step of the state that the next call reads.
use xauusd.Prelude.{
  ℕ, String, ◌≡◌, refl, sym, ap, ◌∙◌, Bool, true, false, not, ◌⊎◌, inl, inr, none, Bool-cases,
  lookup, is_blank, if◌then◌else◌,
}
use xauusd.Number.{Number, lt}
use xauusd.Session.{market_is_open, market_data_age_seconds, observation_is_future, is_beyond}
use xauusd.Paper.State.{PaperState, PaperDecision, Reply, Result, returned, raised, >>=-eq-returned}
use xauusd.Paper.Account.{Desk, is_positive}
use xauusd.Paper.Store.{
  PaperDb, Answer, transaction, save, locked_state, switch, set_kill_switch, state,
}
use xauusd.Paper.Trading.{
  Policy, running, resume, refuse, restart_policy, decide, observe, evaluate, monitor, start, stop,
  maybe_resume, resume_as, resume_found,
}
use xauusd.Paper.Calls.{
  Call, evaluate_call, monitor_call, start_call, stop_call, maybe_resume_call, state_call, call,
  current, current-save, current-locked_state,
}
use xauusd.Paper.Changes.{Ran, RunCase, replays, fails, runs, run-RunCase}

module _ {F : Type 0} ⦃n : Number F⦄ (desk : Desk F) (initial_cash : F) where
  -- The state and the decisions are as they were.
  pub record Kept (db db' : PaperDb F) : Type 0 where
    pub same : current initial_cash db' ≡ current initial_cash db
    pub decisions : db'.decisions ≡ db.decisions

  -- Only the kill switch moved.
  pub record Switched (stopped : Bool) (reason : String) (db db' : PaperDb F) : Type 0 where
    pub set :
        current initial_cash db'
        ≡ record (current initial_cash db) { stopped = stopped; kill_switch_reason = reason }
    pub decisions : db'.decisions ≡ db.decisions

  pub data Step (db db' : PaperDb F) : Call F → Type 0 where
    keeps : {c : Call F} → Kept db db' → Step db db' c
    decides :
        {d : PaperDecision F} {now : ℕ} (reply : Reply F)
        → lookup d.decision_id db.decisions ≡ none
        → Ran initial_cash d.decision_id (decide desk initial_cash d now) db reply db'
        → Step db db' (evaluate_call d now)
    observes :
        {key : ℕ → F → String} {price : F} {at now : ℕ} (reply : Reply F)
        → lookup (key at price) db.decisions ≡ none
        → Ran initial_cash (key at price) (observe desk initial_cash price now) db reply db'
        → Step db db' (monitor_call key price at now)
    starts :
        {reason : String}
        → is_blank reason ≡ false
        → Switched false reason db db'
        → Step db db' (start_call reason)
    stops :
        {reason : String}
        → is_blank reason ≡ false
        → Switched true reason db db'
        → Step db db' (stop_call reason)
    resumes :
        {reason : String}
        → restart_policy (current initial_cash db) ≡ resume
        → Switched false reason db db'
        → Step db db' (maybe_resume_call reason)

  Kept-refl : (db : PaperDb F) → Kept db db
  Kept-refl db = record { same = refl; decisions = refl }

  Switched-of_steps :
      (stopped : Bool) (reason : String) (db db₁ db' : PaperDb F) (s : PaperState F)
      → locked_state initial_cash db ≡ returned (s, db₁)
      → save db₁ (record s { stopped = stopped; kill_switch_reason = reason }) ≡ returned db'
      → Switched stopped reason db db'
  Switched-of_steps stopped reason db db₁ db' s locked saved =
      let (at, _, kept) = current-locked_state initial_cash db db₁ s locked in
      let (read, kept') = current-save initial_cash db₁ db' _ saved in
      record {
        set =
            read
            ∙ ap {A = PaperState F}
                (λ t. record t { stopped = stopped; kill_switch_reason = reason }) at;
        decisions = kept' ∙ kept;
      }

  pub switch-Switched :
      (stopped : Bool) (reason : String) (db db' : PaperDb F)
      → switch initial_cash stopped reason db ≡ returned (tt, db')
      → Switched stopped reason db db'
  unfolding switch
  switch-Switched stopped reason db db' h =
      let (locked, is_locked, rest) = >>=-eq-returned (locked_state initial_cash db) _ h in
      let (saved, is_saved, done) = >>=-eq-returned (save locked.1 _) _ rest in
      Switched-of_steps stopped reason db locked.1 db' locked.0 is_locked (is_saved ∙ cc)

  transaction-Switched :
      (stopped : Bool) (reason : String) (db : PaperDb F) (outcome : Result (Unit {0} × PaperDb F))
      → switch initial_cash stopped reason db ≡ outcome
      → let db' = (transaction db outcome).1 in Kept db db' ⊎ Switched stopped reason db db'
  transaction-Switched stopped reason db (raised e) h = inl (Kept-refl db)
  transaction-Switched stopped reason db (returned (_, db')) h =
      inr (switch-Switched stopped reason db db' h)

  -- A switch of the store moves the switch, or is rolled back.
  set_kill_switch-Switched :
      (stopped : Bool) (reason : String) (db : PaperDb F)
      → let db' = (set_kill_switch initial_cash stopped reason db).1 in
        Kept db db' ⊎ Switched stopped reason db db'
  unfolding set_kill_switch
  set_kill_switch-Switched stopped reason db =
      transaction-Switched stopped reason db (switch initial_cash stopped reason db) refl

  -- Reading the state keeps it, and hands out what the next call reads.
  transaction-read :
      (db : PaperDb F) (outcome : Result (PaperState F × PaperDb F))
      → locked_state initial_cash db ≡ outcome
      → let (found, db') = transaction db outcome in
        Kept db db' × ((s : PaperState F) → found ≡ returned s → s ≡ current initial_cash db)
  transaction-read db (raised e) h = (Kept-refl db, λ s r. cc)
  transaction-read db (returned (s, db')) h =
      let (at, same, kept) = current-locked_state initial_cash db db' s h in
      (record { same = same; decisions = kept }, λ t r. cc)

  state-read :
      (db : PaperDb F)
      → let (found, db') = state initial_cash db in
        Kept db db' × ((s : PaperState F) → found ≡ returned s → s ≡ current initial_cash db)
  unfolding state
  state-read db = transaction-read db (locked_state initial_cash db) refl

  -- A switch that follows a call which kept everything.
  Switched-after :
      {stopped : Bool} {reason : String} (db db₁ db' : PaperDb F)
      → Kept db db₁
      → Switched stopped reason db₁ db'
      → Switched stopped reason db db'
  Switched-after {stopped} {reason} db db₁ db' kept moved = record {
    set =
        moved.set
        ∙ ap {A = PaperState F} (λ t. record t { stopped = stopped; kill_switch_reason = reason })
            kept.same;
    decisions = moved.decisions ∙ kept.decisions;
  }

  Kept-after : (db db₁ db' : PaperDb F) → Kept db db₁ → Kept db₁ db' → Kept db db'
  Kept-after db db₁ db' h k = record {
    same = k.same ∙ h.same;
    decisions = k.decisions ∙ h.decisions;
  }

  resume_as-Step :
      (policy : Policy) (prior reason : String) (db db₁ : PaperDb F)
      → restart_policy (current initial_cash db) ≡ policy
      → Kept db db₁
      → Step db (resume_as desk initial_cash policy prior reason db₁).1 (maybe_resume_call reason)
  unfolding resume_as
  resume_as-Step running prior reason db db₁ e kept = keeps kept
  resume_as-Step refuse prior reason db db₁ e kept = keeps kept
  resume_as-Step resume prior reason db db₁ e kept =
      elim (set_kill_switch-Switched false reason db₁) [
        | inl same ↦ keeps (Kept-after db db₁ _ kept same)
        | inr moved ↦ resumes e (Switched-after db db₁ _ kept moved)
      ]

  resume_found-Step :
      (found : Result (PaperState F)) (reason : String) (db db₁ : PaperDb F)
      → Kept db db₁
      → ((s : PaperState F) → found ≡ returned s → s ≡ current initial_cash db)
      → Step db (resume_found desk initial_cash found reason db₁).1 (maybe_resume_call reason)
  unfolding resume_found
  resume_found-Step (raised e) reason db db₁ kept at = keeps kept
  resume_found-Step (returned s) reason db db₁ kept at =
      resume_as-Step (restart_policy s) s.kill_switch_reason reason db db₁
        (ap restart_policy (sym (at s refl))) kept

  -- What `run` did to the database, the step given for a transition that ran.
  RunCase-Step :
      {c : Call F} {id : String} {transition : PaperState F → Result (Reply F × PaperState F)}
      (db db' : PaperDb F) (answer : Result (Answer F))
      → RunCase initial_cash id transition db answer db'
      → ((reply : Reply F)
          → lookup id db.decisions ≡ none
          → Ran initial_cash id transition db reply db'
          → Step db db' c)
      → Step db db' c
  RunCase-Step db db' answer (replays reply old e same) step = keeps (rw same (Kept-refl db))
  RunCase-Step db db' answer (fails e new f same) step = keeps (rw same (Kept-refl db))
  RunCase-Step db db' answer (runs reply new e ran) step = step reply new ran

  Step-if :
      {c : Call F} {A : Type 0} (db : PaperDb F) (test : Bool) (x y : A × PaperDb F)
      → Step db x.1 c
      → Step db y.1 c
      → Step db (if test then x else y).1 c
  Step-if db true x y h k = h
  Step-if db false x y h k = k

  still : {c : Call F} (db : PaperDb F) → Step db db c
  still db = keeps (Kept-refl db)

  evaluate-Step :
      (d : PaperDecision F) (now : ℕ) (db : PaperDb F)
      → Step db (evaluate desk initial_cash d now db).1 (evaluate_call d now)
  unfolding evaluate
  evaluate-Step d now db = Step-if db (is_blank d.decision_id) _ _ (still db) (
      RunCase-Step db _ _
        (run-RunCase initial_cash d.decision_id (decide desk initial_cash d now) db) decides)

  monitor-Step :
      (key : ℕ → F → String) (price : F) (at now : ℕ) (db : PaperDb F)
      → Step db (monitor desk initial_cash key price at now db).1 (monitor_call key price at now)
  unfolding monitor
  monitor-Step key price at now db = Step-if db (not (is_positive price)) _ _ (still db) (
      Step-if db (not (market_is_open desk.new_york now)) _ _ (still db) (
        Step-if db (is_beyond at now) _ _ (still db) (
          Step-if db (observation_is_future at now) _ _ (still db) (
            Step-if db (lt desk.config.max_market_data_age_seconds (market_data_age_seconds at now))
              _ _ (still db)
              (RunCase-Step db _ _
                (run-RunCase initial_cash (key at price) (observe desk initial_cash price now) db)
                observes)))))

  start-Step :
      (reason : String) (db : PaperDb F)
      → Step db (start desk initial_cash reason db).1 (start_call reason)
  unfolding start
  start-Step reason db = elim (Bool-cases (is_blank reason)) [
    | inl blank ↦ rw blank (still db)
    | inr given ↦ rw given (elim (set_kill_switch-Switched false reason db) [
      | inl kept ↦ keeps kept
      | inr moved ↦ starts given moved
    ])
  ]

  stop-Step :
      (reason : String) (db : PaperDb F)
      → Step db (stop desk initial_cash reason db).1 (stop_call reason)
  unfolding stop
  stop-Step reason db = elim (Bool-cases (is_blank reason)) [
    | inl blank ↦ rw blank (still db)
    | inr given ↦ rw given (elim (set_kill_switch-Switched true reason db) [
      | inl kept ↦ keeps kept
      | inr moved ↦ stops given moved
    ])
  ]

  maybe_resume-Step :
      (reason : String) (db : PaperDb F)
      → Step db (maybe_resume desk initial_cash reason db).1 (maybe_resume_call reason)
  unfolding maybe_resume
  maybe_resume-Step reason db =
      let (kept, at) = state-read db in
      let (found, db₁) = state initial_cash db in
      Step-if db (is_blank reason) _ _ (still db) (resume_found-Step found reason db db₁ kept at)

  -- Every call, whatever it meets, is one of the steps.
  pub call-Step : (c : Call F) (db : PaperDb F) → Step db (call desk initial_cash c db) c
  unfolding call
  call-Step (evaluate_call d now) db = evaluate-Step d now db
  call-Step (monitor_call key price at now) db = monitor-Step key price at now db
  call-Step (start_call reason) db = start-Step reason db
  call-Step (stop_call reason) db = stop-Step reason db
  call-Step (maybe_resume_call reason) db = maybe_resume-Step reason db
  call-Step state_call db = keeps (state-read db).0
