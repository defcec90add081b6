-- ===== src/Runner/Refused.antt =====
-- What a start of the runner does to the kill switches.
use xauusd.Prelude.{
  String, ◌≡◌, ◌≢◌, refl, sym, ap, ◌∙◌, Bool, true, false, arith, Bool-cases, inl, inr, ◌⊎◌,
  is_blank, subst,
}
use xauusd.Number.{Number}
use xauusd.Paper.{
  PaperDb, PaperState, Policy, running, resume, refuse, Result, returned, raised, restart_policy,
  state, locked_state, resume_as, resume_found, maybe_resume, ◌>>=◌,
}
use xauusd.Paper.Calls.{current, current-locked_state}
use xauusd.Paper.Stopped.{transaction-eq_returned}
use xauusd.Demo.{DemoDb, World, Attempt, done, refused, load}
use xauusd.Demo.Coordinator.{Coordinator, Books}
use xauusd.Runner.State.{RunnerConfig, Runner, KillSwitch, resume_refused}
use xauusd.Runner.Start.{
  Resumed, resumed, held, broken, demo_policy, with_demo_policy, with_paper_policy,
  with_paper_state, resume_kill_switches, conclude_start, start_runner, start_reason,
  with_resumption, resume_paper, with_demo_start, with_reconciliation,
}

-- Reading the demo state twice gives one state.
load-load : (db : DemoDb) → (load (load db).1).0 ≡ (load db).0
unfolding load
load-load db = ground arith

Policy-cases : (p : Policy) → (p ≡ refuse) ⊎ ((p ≡ running) ⊎ (p ≡ resume))
Policy-cases refuse = inl refl
Policy-cases running = inr (inl refl)
Policy-cases resume = inr (inr refl)

resumed-held :
    {F : Type 0} ⦃n : Number F⦄ (c : Coordinator F) (w : World)
    (answer : Result (Unit {0}) × PaperDb F) (k : KillSwitch) (reason why : String)
    → (with_resumption c w (
      (answer.0 >>= λ _.
          returned (record { resumed = true; already_running = false; reason = reason })),
      answer.1,
    )).0
      ≢ held k why
resumed-held c w (returned _, db) k reason why e = ground (arith, e)
resumed-held c w (raised x, db) k reason why e = ground (arith, e)

module _ {F : Type 0} ⦃n : Number F⦄ (c : Coordinator F) where
  abbrev paper_state : PaperDb F → PaperState F
  paper_state = current c.initial_cash

  -- Reading the paper state answers with the state that the next call reads too.
  state-current :
      (db db' : PaperDb F) (s : PaperState F)
      → state c.initial_cash db ≡ (returned s, db')
      → (s ≡ paper_state db) × (paper_state db' ≡ paper_state db)
  unfolding state
  state-current db db' s h =
      let (same, kept, decisions) =
        current-locked_state c.initial_cash db db' s
          (transaction-eq_returned db db' s (locked_state c.initial_cash db) h) in
      (same, kept)

  -- A paper account that the policy lets run is not held.
  resume_as-held :
      (p : Policy) (prior reason : String) (db : PaperDb F) (w : World) (k : KillSwitch)
      (why : String)
      → p ≢ refuse
      → (with_resumption c w (resume_as c.desk c.initial_cash p prior reason db)).0 ≢ held k why
  unfolding resume_as
  resume_as-held refuse prior reason db w k why allowed e = allowed refl
  resume_as-held running prior reason db w k why allowed e = ground (arith, e)
  resume_as-held resume prior reason db w k why allowed e = resumed-held c w _ k reason why e

  resume_found-held :
      (paper paper' : PaperDb F) (found : Result (PaperState F)) (w : World) (k : KillSwitch)
      (why : String)
      → state c.initial_cash paper ≡ (found, paper')
      → restart_policy (paper_state paper) ≢ refuse
      → (with_resumption c w (resume_found c.desk c.initial_cash found start_reason paper')).0
        ≢ held k why
  unfolding resume_found
  resume_found-held paper paper' (raised x) w k why h allowed e = ground (arith, e)
  resume_found-held paper paper' (returned s) w k why h allowed e =
      let same = (state-current paper paper' s h).0 in
      resume_as-held (restart_policy s) s.kill_switch_reason start_reason paper' w k why
        (λ r. allowed (ap restart_policy (sym same) ∙ r)) e

  resume_paper-held :
      (paper : PaperDb F) (w : World) (k : KillSwitch) (why : String)
      → restart_policy (paper_state paper) ≢ refuse
      → (resume_paper c paper w).0 ≢ held k why
  unfolding resume_paper maybe_resume is_blank
  resume_paper-held paper w k why allowed e =
      let a = state c.initial_cash paper in resume_found-held paper a.1 a.0 w k why refl allowed e

  with_demo_start-held :
      (paper : PaperDb F) (started : Attempt (Unit {0}) × World) (k : KillSwitch) (why : String)
      → restart_policy (paper_state paper) ≢ refuse
      → (with_demo_start c paper started).0 ≢ held k why
  with_demo_start-held paper (refused r, w) k why allowed e = ground (arith, e)
  with_demo_start-held paper (done _, w) k why allowed e = resume_paper-held paper w k why allowed e

  with_reconciliation-held :
      (p : Policy) (paper : PaperDb F) (reconciled : Bool × World) (k : KillSwitch) (why : String)
      → restart_policy (paper_state paper) ≢ refuse
      → (with_reconciliation c p paper reconciled).0 ≢ held k why
  unfolding with_reconciliation
  with_reconciliation-held p paper (false, w) k why allowed e = ground (arith, e)
  with_reconciliation-held resume paper (true, w) k why allowed e =
      with_demo_start-held paper _ k why allowed e
  with_reconciliation-held running paper (true, w) k why allowed e =
      resume_paper-held paper w k why allowed e
  with_reconciliation-held refuse paper (true, w) k why allowed e =
      resume_paper-held paper w k why allowed e

  -- The switch by which the books are held, and the reason that it has.
  abbrev pub IsHeldBy : KillSwitch → String → Books F → Type 0
  IsHeldBy KillSwitch.paper_switch why b =
      (restart_policy (current c.initial_cash b.paper) ≡ refuse)
      × ((current c.initial_cash b.paper).kill_switch_reason ≡ why)
  IsHeldBy KillSwitch.demo_switch why b =
      (demo_policy (load b.world.db).0 ≡ refuse) × ((load b.world.db).0.kill_switch_reason ≡ why)

  -- Both accounts are as they were, and nothing was submitted.
  abbrev pub IsKept : Books F → Books F → Type 0
  IsKept b b' =
      (current c.initial_cash b'.paper ≡ current c.initial_cash b.paper)
      × ((load b'.world.db).0 ≡ (load b.world.db).0)
      × (b'.world.sent ≡ b.world.sent)

  with_demo_policy-held :
      (p : Policy) (reason : String) (paper : PaperDb F) (w : World) (k : KillSwitch) (why : String)
      (b' : Books F)
      → restart_policy (paper_state paper) ≢ refuse
      → with_demo_policy c p reason paper w ≡ (held k why, b')
      → (p ≡ refuse)
        × (k ≡ KillSwitch.demo_switch)
        × (reason ≡ why)
        × (b' ≡ record { paper = paper; world = w })
  unfolding with_demo_policy
  with_demo_policy-held refuse reason paper w k why b' allowed h = (
    refl,
    ground (arith, ap (λ p. p.0) h),
    ground (arith, ap (λ p. p.0) h),
    sym (ap (λ p. p.1) h),
  )
  with_demo_policy-held running reason paper w k why b' allowed h =
      absurd (with_reconciliation-held running paper _ k why allowed (ap (λ p. p.0) h))
  with_demo_policy-held resume reason paper w k why b' allowed h =
      absurd (with_reconciliation-held resume paper _ k why allowed (ap (λ p. p.0) h))

  -- The books are held by one switch and kept.
  abbrev pub IsRefused : KillSwitch → String → Books F → Books F → Type 0
  IsRefused k why b b' = IsHeldBy k why b × IsKept b b'

  with_loaded-held :
      (b b' : Books F) (paper : PaperDb F) (k : KillSwitch) (why : String)
      → paper_state paper ≡ paper_state b.paper
      → restart_policy (paper_state b.paper) ≢ refuse
      → (let (s, db) = load b.world.db in
          with_demo_policy c
            (demo_policy s)
            s.kill_switch_reason
            paper
            (record b.world { db = db }))
        ≡ (held k why, b')
      → IsRefused k why b b'
  with_loaded-held b b' paper k why same allowed h =
      let (s, db) = load b.world.db in
      let w : World = record b.world { db = db } in
      let (refuses, demo, reason, left) =
        with_demo_policy-held (demo_policy s) s.kill_switch_reason paper w k why b'
          (λ r. allowed (ap restart_policy (sym same) ∙ r)) h in
      (
        subst (λ x. IsHeldBy x why b) (sym demo) (refuses, reason),
        subst (λ x. IsKept b x) (sym left) (same, load-load b.world.db, refl),
      )

  with_paper_policy-held :
      (p : Policy) (b b' : Books F) (paper : PaperDb F) (s : PaperState F) (k : KillSwitch)
      (why : String)
      → s ≡ paper_state b.paper
      → paper_state paper ≡ paper_state b.paper
      → p ≡ restart_policy (paper_state b.paper)
      → with_paper_policy c p s.kill_switch_reason paper b.world ≡ (held k why, b')
      → IsRefused k why b b'
  unfolding with_paper_policy
  with_paper_policy-held refuse b b' paper s k why is_state same is_policy h =
      let paper_held : KillSwitch.paper_switch ≡ k = ground (arith, ap (λ p. p.0) h) in
      let reason : s.kill_switch_reason ≡ why = ground (arith, ap (λ p. p.0) h) in
      (
        subst (λ x. IsHeldBy x why b) paper_held
            (sym is_policy, ap (λ x. x.kill_switch_reason) (sym is_state) ∙ reason),
        subst (λ x. IsKept b x) (ap (λ p. p.1) h) (same, refl, refl),
      )
  with_paper_policy-held running b b' paper s k why is_state same is_policy h =
      with_loaded-held b b' paper k why same (λ r. ground (arith, is_policy, r)) h
  with_paper_policy-held resume b b' paper s k why is_state same is_policy h =
      with_loaded-held b b' paper k why same (λ r. ground (arith, is_policy, r)) h

  with_paper_state-held :
      (b b' : Books F) (answer : Result (PaperState F)) (paper : PaperDb F) (k : KillSwitch)
      (why : String)
      → state c.initial_cash b.paper ≡ (answer, paper)
      → with_paper_state c b.world (answer, paper) ≡ (held k why, b')
      → IsRefused k why b b'
  unfolding with_paper_state
  with_paper_state-held b b' (raised e) paper k why read h =
      absurd (ground (arith, ap (λ p. p.0) h))
  with_paper_state-held b b' (returned s) paper k why read h =
      let (is_state, same) = state-current b.paper paper s read in
      with_paper_policy-held (restart_policy s) b b' paper s k why is_state same
        (ap restart_policy is_state) h

  conclude_start-held :
      (r r' : Runner F) (b : Books F) (outcome : Resumed) (status : Bool) (k : KillSwitch)
      (why : String)
      → conclude_start c r (outcome, b) ≡ ((status, resume_refused k why), r')
      → (outcome ≡ held k why) × (r'.books ≡ b) × (r'.running ≡ false) × (status ≡ false)
  unfolding conclude_start
  conclude_start-held r r' b broken status k why h = absurd (ground (arith, ap (λ p. p.0.1) h))
  conclude_start-held r r' b resumed status k why h = absurd (ground (arith, ap (λ p. p.0.1) h))
  conclude_start-held r r' b (held switch reason) status k why h = (
    ground (arith, ap (λ p. p.0.1) h),
    sym (ap (λ p. p.1.books) h),
    sym (ap (λ p. p.1.running) h),
    sym (ap (λ p. p.0.0) h),
  )

  -- If a start records `resume_refused` for a switch and a reason, then it returns false and the runner
  -- does not run, the restart policy refuses that switch, which is stopped for that reason, and
  -- neither account has changed nor has anything been submitted to the broker.
  pub start_runner-IsRefused :
      (config : RunnerConfig F) (r r' : Runner F) (status : Bool) (k : KillSwitch) (why : String)
      → start_runner c config r ≡ ((status, resume_refused k why), r')
      → (status ≡ false) × (r'.running ≡ false) × IsRefused k why r.books r'.books
  unfolding start_runner resume_kill_switches
  start_runner-IsRefused config r r' status k why h = elim (Bool-cases config.enabled) [
    | inr off ↦ absurd (ground (arith, ap (λ p. p.0.1) h, off))
    | inl on ↦
        let b = resume_kill_switches c r.books in
        let a = state c.initial_cash r.books.paper in
        let (is_held, books, ended, answered) =
          conclude_start-held r r' b.1 b.0 status k why (sym (rw (start_runner, on) refl) ∙ h) in
        (
          answered,
          ended,
          subst (λ x. IsRefused k why r.books x) (sym books)
              (with_paper_state-held r.books b.1 a.0 a.1 k why refl
                (ap {B = Resumed × Books F} (λ x. (x, b.1)) is_held)),
        )
  ]
