-- ===== src/Paper/KillSwitch.antt =====
-- The kill switch over every sequence of calls: what an unattended process cannot undo.
use xauusd.Prelude.{ℕ, ◌≡◌, refl, true, false, List, [], ◌∷◌, arith, All, some}
use xauusd.Number.{Number}
use xauusd.Paper.State.{Fill, PaperState, PaperDecision, Reply, Reason}
use xauusd.Paper.Account.{Desk, mark, admission}
use xauusd.Paper.Store.{PaperDb}
use xauusd.Paper.Trading.{restart_policy, refuse, is_auto_resume}
use xauusd.Paper.Decided.{
  Decided, not_admitted, limited, filled, decide-Decided, Observed, observe-Observed, Observed-mark,
}
use xauusd.Paper.Calls.{Call, start_call, stop_call, call, calls, current}
use xauusd.Paper.Steps.{Step, keeps, decides, observes, starts, stops, resumes, call-Step}
use xauusd.Paper.Replay.{Holding, holding, mark-holding}

-- A call that no operator's start is: anything but `start`, and no `stop` under the one reason that
-- the restart policy resumes from.
abbrev pub IsUnattended : {F : Type 0} → Call F → Type 0
IsUnattended (start_call reason) = ⊥
IsUnattended (stop_call reason) = is_auto_resume reason ≡ false
IsUnattended _ = Unit

-- A stopped account whose reason the restart policy refuses, with what it holds.
pub record IsHalted {F : Type 0} (h : Holding F) (ledger : List (Fill F)) (s : PaperState F)
    : Type 0 where
  pub is_stopped : s.stopped ≡ true
  pub is_refused : is_auto_resume s.kill_switch_reason ≡ false
  pub holds : holding s ≡ h
  pub filled : s.ledger ≡ ledger

module _ {F : Type 0} ⦃n : Number F⦄ (desk : Desk F) (initial_cash : F) (h : Holding F)
    (ledger : List (Fill F)) where
  -- A stopped account admits no decision.
  admission-of_stopped :
      (s : PaperState F) (d : PaperDecision F) (now : ℕ)
      → s.stopped ≡ true
      → admission desk s d now ≡ some Reason.kill_switch
  unfolding admission
  admission-of_stopped s d now e = rw e

  mark-switch :
      (s : PaperState F) (price : F) (now : ℕ)
      → ((mark s price now).stopped ≡ s.stopped)
        × ((mark s price now).kill_switch_reason ≡ s.kill_switch_reason)
  unfolding mark
  mark-switch s price now = ground arith

  decide-IsHalted :
      (d : PaperDecision F) (now : ℕ) (reply : Reply F) (s s' : PaperState F)
      → Decided desk initial_cash d now s reply s'
      → IsHalted h ledger s
      → IsHalted h ledger s'
  decide-IsHalted d now reply s s' (not_admitted reason e same _) halted = rw same halted
  decide-IsHalted d now reply s s' (limited reason e within same _) halted =
      cc (admission-of_stopped s d now halted.is_stopped)
  decide-IsHalted d now reply s s' (filled e within made _) halted =
      cc (admission-of_stopped s d now halted.is_stopped)

  observe-IsHalted :
      (price : F) (now : ℕ) (reply : Reply F) (s s' : PaperState F)
      → Observed desk initial_cash price now s reply s'
      → IsHalted h ledger s
      → IsHalted h ledger s'
  observe-IsHalted price now reply s s' o halted = ground (
    arith,
    mark-switch s price now,
    mark-holding s price now,
    Observed-mark desk initial_cash price now reply s s' o,
  )

  refuse-IsHalted : (s : PaperState F) → IsHalted h ledger s → restart_policy s ≡ refuse
  unfolding restart_policy
  refuse-IsHalted s halted = rw (halted.is_stopped, halted.is_refused)

  Step-IsHalted :
      {c : Call F} (db db' : PaperDb F)
      → Step desk initial_cash db db' c
      → IsUnattended c
      → IsHalted h ledger (current initial_cash db)
      → IsHalted h ledger (current initial_cash db')
  Step-IsHalted db db' (keeps k) u halted = rw k.same halted
  Step-IsHalted db db' (decides {d = d} {now = now} reply _ ran) u halted =
      decide-IsHalted d now reply _ _ (decide-Decided desk initial_cash d now reply _ _ ran.moved)
        halted
  Step-IsHalted db db' (observes {price = price} {now = now} reply _ ran) u halted =
      observe-IsHalted price now reply _ _
        (observe-Observed desk initial_cash price now reply _ _ ran.moved) halted
  Step-IsHalted db db' (starts _ moved) u halted = absurd u
  Step-IsHalted db db' (stops _ moved) u halted =
      rw moved.set
        (record { is_stopped = refl; is_refused = u; holds = halted.holds; filled = halted.filled })
  Step-IsHalted db db' (resumes policy moved) u halted = cc (refuse-IsHalted _ halted)

  -- Once an account is stopped for a reason that the restart policy refuses, no sequence of
  -- decisions, observations, restarts, reads and further stops (under another reason than
  -- "missing_state") starts it again, fills an order or changes its cash, position, average entry
  -- price or ledger.
  pub stop_persists :
      (cs : List (Call F)) (db : PaperDb F)
      → All IsUnattended cs
      → IsHalted h ledger (current initial_cash db)
      → IsHalted h ledger (current initial_cash (calls desk initial_cash cs db))
  unfolding calls
  stop_persists [] db u halted = halted
  stop_persists (c ∷ cs) db u halted =
      stop_persists cs (call desk initial_cash c db) u.1 (
        Step-IsHalted db (call desk initial_cash c db) (call-Step desk initial_cash c db) u.0
          halted)
