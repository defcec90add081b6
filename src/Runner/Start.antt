-- ===== src/Runner/Start.antt =====
-- `start`: reconciliation first, then the kill switches that the restart policy lets resume.
use xauusd.Prelude.{String, Bool, true, false, not, if◌then◌else◌}
use xauusd.Number.{Number}
use xauusd.Paper.{
  PaperDb, PaperState, Policy, running, resume, refuse, Resumption, Result, returned, raised,
  is_auto_resume, restart_policy, maybe_resume, state,
}
use xauusd.Demo.{DemoState, load, World, Attempt, done, refused, start_execution}
use xauusd.Demo.Reconcile.{reconcile_after_restart}
use xauusd.Demo.Coordinator.{Coordinator, Books}
use xauusd.Runner.State.{
  RunnerConfig, RunnerStatus, Runner, KillSwitch, disabled, now_running, resume_refused,
}
use xauusd.Runner.Cycle.{stop_runner}

abbrev pub start_reason : String
start_reason = "explicit demo automation enabled"

-- `restart_policy` of the demo state.
abbrev pub demo_policy : DemoState → Policy
demo_policy s =
    if not s.stopped
    then running
    else if is_auto_resume s.kill_switch_reason
    then resume
    else refuse

-- What `_resume_kill_switches` comes to.
pub data Resumed : Type 0 where
  resumed : Resumed
  held : KillSwitch → String → Resumed
  broken : Resumed

module _ {F : Type 0} ⦃n : Number F⦄ (c : Coordinator F) where
  -- The last step, on what `maybe_resume` of the paper account returned.
  abbrev pub with_resumption : World → Result Resumption × PaperDb F → Resumed × Books F
  with_resumption w (raised e, paper) = (broken, record { paper = paper; world = w })
  with_resumption w (returned a, paper) = (
    if a.resumed then resumed else held KillSwitch.paper_switch a.reason,
    record { paper = paper; world = w },
  )

  unfoldable pub resume_paper : PaperDb F → World → Resumed × Books F
  resume_paper paper w = with_resumption w (maybe_resume c.desk c.initial_cash start_reason paper)

  -- What follows the start of the demo switch.
  abbrev pub with_demo_start : PaperDb F → Attempt (Unit {0}) × World → Resumed × Books F
  with_demo_start paper (refused r, w) = (broken, record { paper = paper; world = w })
  with_demo_start paper (done _, w) = resume_paper paper w

  -- What follows the reconciliation.
  unfoldable pub with_reconciliation : Policy → PaperDb F → Bool × World → Resumed × Books F
  with_reconciliation policy paper (false, w) = (broken, record { paper = paper; world = w })
  with_reconciliation resume paper (true, w) =
      with_demo_start paper (start_execution c.adapter start_reason w)
  with_reconciliation running paper (true, w) = resume_paper paper w
  with_reconciliation refuse paper (true, w) = resume_paper paper w

  -- What follows the policy of the demo switch.
  unfoldable pub with_demo_policy : Policy → String → PaperDb F → World → Resumed × Books F
  with_demo_policy refuse reason paper w =
      (held KillSwitch.demo_switch reason, record { paper = paper; world = w })
  with_demo_policy running reason paper w =
      with_reconciliation running paper (reconcile_after_restart c.adapter w)
  with_demo_policy resume reason paper w =
      with_reconciliation resume paper (reconcile_after_restart c.adapter w)

  -- What follows the policy of the paper switch.
  unfoldable pub with_paper_policy : Policy → String → PaperDb F → World → Resumed × Books F
  with_paper_policy refuse reason paper w =
      (held KillSwitch.paper_switch reason, record { paper = paper; world = w })
  with_paper_policy running reason paper w =
      let (s, db) = load w.db in
      with_demo_policy (demo_policy s) s.kill_switch_reason paper (record w { db = db })
  with_paper_policy resume reason paper w =
      let (s, db) = load w.db in
      with_demo_policy (demo_policy s) s.kill_switch_reason paper (record w { db = db })

  -- What follows the reading of the paper state.
  unfoldable pub with_paper_state : World → Result (PaperState F) × PaperDb F → Resumed × Books F
  with_paper_state w (raised e, paper) = (broken, record { paper = paper; world = w })
  with_paper_state w (returned s, paper) =
      with_paper_policy (restart_policy s) s.kill_switch_reason paper w

  -- `_resume_kill_switches`
  unfoldable pub resume_kill_switches : Books F → Resumed × Books F
  resume_kill_switches b = with_paper_state b.world (state c.initial_cash b.paper)

  -- What `start` makes of it, with whether it returns true.
  unfoldable pub conclude_start : Runner F → Resumed × Books F → (Bool × RunnerStatus F) × Runner F
  conclude_start r (broken, b) =
      let (status, r') = stop_runner c "startup_reconciliation_failed" (record r { books = b }) in
      ((false, status), r')
  conclude_start r (held switch reason, b) =
      ((false, resume_refused switch reason), record r { running = false; books = b })
  conclude_start r (resumed, b) =
      ((true, now_running), record r { running = true; consecutive_failures = 0; books = b })

  unfoldable pub start_runner : RunnerConfig F → Runner F → (Bool × RunnerStatus F) × Runner F
  start_runner config r =
      if not config.enabled
      then ((false, disabled), r)
      else conclude_start r (resume_kill_switches r.books)
