-- ===== src/Paper/Decided.antt =====
-- The ways that a decision's transition ends, and what a monitor's transition does.
use xauusd.Prelude.{
  subst, inl, inr, Bool-cases, arith, ℕ, ◌≡◌, refl, Bool, not, ◌&&◌, if◌then◌else◌, true, false,
  Option, none, some,
}
use xauusd.Number.{Number}
use xauusd.Paper.State.{
  PaperState, PaperDecision, Reason, Reply, evaluated, Result, returned, raised, date_overflow,
  ◌>>=◌, >>=-eq-returned,
}
use xauusd.Paper.Account.{
  Desk, mark, is_date_overflow, gate, admission, limits, gate_from, fill, result, signed,
}
use xauusd.Paper.Trading.{accept, decide, settle, breached, react, observe}

module _ {F : Type 0} ⦃n : Number F⦄ (desk : Desk F) (initial_cash : F) where
  pub data Decided (d : PaperDecision F) (now : ℕ) (s : PaperState F) (reply : Reply F)
      (s' : PaperState F) : Type 0 where
    -- Refused before the observation was applied: nothing moved.
    not_admitted :
        (reason : Reason)
        → admission desk s d now ≡ some reason
        → s' ≡ s
        → reply ≡ evaluated (result false reason d.decision_id s)
        → Decided d now s reply s'
    -- Refused by a limit: the state is marked.
    limited :
        (reason : Reason)
        → admission desk s d now ≡ none
        → limits desk.config (mark s d.price now) (signed d.side d.quantity)
          ≡ returned (some reason)
        → s' ≡ mark s d.price now
        → reply ≡ evaluated (result false reason d.decision_id s')
        → Decided d now s reply s'
    filled :
        admission desk s d now ≡ none
        → limits desk.config (mark s d.price now) (signed d.side d.quantity) ≡ returned none
        → fill (mark s d.price now) d now ≡ returned s'
        → reply ≡ evaluated (result true Reason.accepted d.decision_id s')
        → Decided d now s reply s'

  Decided-of_fill :
      (d : PaperDecision F) (now : ℕ) (s s' : PaperState F) (reply : Reply F)
      (outcome : Result (PaperState F))
      → admission desk s d now ≡ none
      → limits desk.config (mark s d.price now) (signed d.side d.quantity) ≡ returned none
      → fill (mark s d.price now) d now ≡ outcome
      → (outcome >>= accept desk initial_cash d) ≡ returned (reply, s')
      → Decided d now s reply s'
  Decided-of_fill d now s s' reply (raised e) admitted within is_filled h = cc
  Decided-of_fill d now s s' reply (returned t) admitted within is_filled h =
      filled admitted within (cc) (cc)

  Decided-of_limits :
      (d : PaperDecision F) (now : ℕ) (s s' : PaperState F) (reply : Reply F)
      (refusal : Option Reason)
      → admission desk s d now ≡ none
      → limits desk.config (mark s d.price now) (signed d.side d.quantity) ≡ returned refusal
      → settle desk initial_cash d now (refusal, mark s d.price now) ≡ returned (reply, s')
      → Decided d now s reply s'
  unfolding settle
  Decided-of_limits d now s s' reply (some reason) admitted within h =
      limited reason admitted within (cc) (cc)
  Decided-of_limits d now s s' reply none admitted within h =
      Decided-of_fill d now s s' reply (fill (mark s d.price now) d now) admitted within refl h

  Decided-of_within :
      (d : PaperDecision F) (now : ℕ) (s s' : PaperState F) (reply : Reply F)
      (outcome : Result (Option Reason))
      → admission desk s d now ≡ none
      → limits desk.config (mark s d.price now) (signed d.side d.quantity) ≡ outcome
      → ((outcome >>= λ refusal. returned (refusal, mark s d.price now))
          >>= settle desk initial_cash d now)
        ≡ returned (reply, s')
      → Decided d now s reply s'
  Decided-of_within d now s s' reply (raised e) admitted within h = cc
  Decided-of_within d now s s' reply (returned refusal) admitted within h =
      Decided-of_limits d now s s' reply refusal admitted within h

  Decided-of_admission :
      (d : PaperDecision F) (now : ℕ) (s s' : PaperState F) (reply : Reply F)
      (refusal : Option Reason)
      → admission desk s d now ≡ refusal
      → (gate_from desk s d now refusal >>= settle desk initial_cash d now) ≡ returned (reply, s')
      → Decided d now s reply s'
  unfolding gate_from settle
  Decided-of_admission d now s s' reply (some reason) e h = not_admitted reason e (cc) (cc)
  Decided-of_admission d now s s' reply none e h =
      Decided-of_within d now s s' reply
        (limits desk.config (mark s d.price now) (signed d.side d.quantity)) e refl h

  -- A decision's transition that returns ends in one of these ways.
  pub decide-Decided :
      (d : PaperDecision F) (now : ℕ) (reply : Reply F) (s s' : PaperState F)
      → decide desk initial_cash d now s ≡ returned (reply, s')
      → Decided d now s reply s'
  unfolding decide gate
  decide-Decided d now reply s s' h = elim (Bool-cases (is_date_overflow desk s d now)) [
    | inl beyond ↦ absurd (
        ground (
          arith,
          subst
              (λ b.
                (if b
                    then raised date_overflow
                    else gate_from desk s d now (admission desk s d now))
                  >>= settle desk initial_cash d now
                ≡ returned (reply, s'))
              beyond h,
        ))
    | inr within ↦ Decided-of_admission d now s s' reply (admission desk s d now) refl (
        subst
          (λ b.
            ((if b then raised date_overflow else gate_from desk s d now (admission desk s d now))
              >>= settle desk initial_cash d now)
            ≡ returned (reply, s'))
          within h)
  ]

  pub record Observed (price : F) (now : ℕ) (s : PaperState F) (reply : Reply F) (s' : PaperState F)
      : Type 0 where
    pub is_breached : Bool
    pub breach : breached desk initial_cash (mark s price now) ≡ returned is_breached
    pub reacted :
        react desk initial_cash price (mark s price now) is_breached ≡ returned (reply, s')

  pub observe-Observed :
      (price : F) (now : ℕ) (reply : Reply F) (s s' : PaperState F)
      → observe desk initial_cash price now s ≡ returned (reply, s')
      → Observed price now s reply s'
  unfolding observe
  observe-Observed price now reply s s' h =
      let (is_breached, breach, reacted) =
        >>=-eq-returned (breached desk initial_cash (mark s price now)) _ h in
      record { is_breached = is_breached; breach = breach; reacted = reacted }

  react_lem :
      (price : F) (s s' : PaperState F) (is_breached : Bool) (reply : Reply F)
      → react desk initial_cash price s is_breached ≡ returned (reply, s')
      → s' ≡ (
          if is_breached && not s.stopped
          then record s { stopped = true; kill_switch_reason = "risk_limit" }
          else s)
  unfolding react
  react_lem price s s' is_breached reply h = cc

  -- A monitor leaves the marked state, with the switch thrown if a running account is in breach.
  pub Observed-mark :
      (price : F) (now : ℕ) (reply : Reply F) (s s' : PaperState F)
      → (o : Observed price now s reply s')
      → let t = mark s price now in
        s' ≡ (
          if o.is_breached && not t.stopped
          then record t { stopped = true; kill_switch_reason = "risk_limit" }
          else t)
  Observed-mark price now reply s s' o =
      react_lem price (mark s price now) s' o.is_breached reply o.reacted
