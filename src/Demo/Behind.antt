-- ===== src/Demo/Behind.antt =====
-- The coordinator's two promises: nothing is submitted that the paper account did not accept, and a
-- failure at the broker stops both kill switches.
use xauusd.Prelude.{
  ℕ, ◌≡◌, ◌≢◌, refl, ap, is_blank, inl, inr, true, false, none, some, Option-cases, Bool-cases,
  arith,
}
use xauusd.Number.{Number}
use xauusd.Paper.{PaperDb, Response, Result, returned, raised, evaluate, stop}
use xauusd.Paper.Calls.{current}
use xauusd.Paper.Stopped.{stop_returned}
use xauusd.Demo.Granted.{IsGranted, verdict-IsGranted}
use xauusd.Demo.State.{DemoOutcome}
use xauusd.Demo.Store.{load}
use xauusd.Demo.Adapter.{World, execute, stop_execution}
use xauusd.Demo.Volume.{to_volume}
use xauusd.Demo.Unknown.{load-stop}
use xauusd.Demo.Coordinator.{
  NormalizedDecision, Coordinator, Books, coordinated, verdict, policy_reason, paper_decision,
  order_of, demo_outcome, audit_outcome, coordinate, with_paper, submit_demo, conclude, stop_demo,
}

module _ {F : Type 0} ⦃n : Number F⦄ (c : Coordinator F) where
  -- The gates that a proposal passed.
  pub record IsBacked (d : NormalizedDecision F) (price : F) (now : ℕ) (b : Books F) : Type 0 where
    pub volume : ℕ
    pub is_converted : to_volume c.as_integer c.volume_per_unit d.quantity ≡ some volume
    pub is_on_policy : policy_reason c.policy volume ≡ none
    pub response : Response F
    pub is_answered :
        (evaluate c.desk c.initial_cash (paper_decision d price) now b.paper).0 ≡ returned response
    pub is_accepted : verdict response ≡ some true
    pub is_granted :
        IsGranted c.desk c.initial_cash
          (paper_decision d price)
          now
          b.paper
          (evaluate c.desk c.initial_cash (paper_decision d price) now b.paper).1

  with_paper-sent :
      (d : NormalizedDecision F) (volume : ℕ) (w : World) (r : Result (Response F))
      (paper : PaperDb F)
      → (with_paper c d volume w (r, paper)).1.world.sent ≢ w.sent
      → (response : Response F) × (r ≡ returned response) × (verdict response ≡ some true)
  unfolding with_paper
  with_paper-sent d volume w (raised e) paper h = absurd (h refl)
  with_paper-sent d volume w (returned response) paper h = elim (Option-cases (verdict response)) [
    | inl nothing ↦ absurd (h (rw (with_paper, nothing) refl))
    | inr (v, is_v) ↦ elim (Bool-cases v) [
      | inl yes_true ↦ (response, refl, cc)
      | inr no_false ↦ absurd (h (rw (with_paper, is_v, no_false) refl))
    ]
  ]

  -- If a proposal's execution submits anything to the broker, then its quantity is a whole volume that
  -- the broker's policy lets through, and the paper account answered the decision with an acceptance:
  -- either it had no result of this id and the decision passed every gate now, at this price, and was
  -- filled, or its table held an accepted result of this id, and the paper account is as it was.
  pub submission-IsBacked :
      (d : NormalizedDecision F) (price : F) (now : ℕ) (b : Books F)
      → (coordinate c d price now b).1.world.sent ≢ b.world.sent
      → IsBacked d price now b
  unfolding coordinate
  submission-IsBacked d price now b h =
      elim (Option-cases (to_volume c.as_integer c.volume_per_unit d.quantity)) [
        | inl nothing ↦ absurd (h (rw (coordinate, nothing) refl))
        | inr (volume, converted) ↦ elim (Option-cases (policy_reason c.policy volume)) [
          | inr (reason, off) ↦ absurd (h (rw (coordinate, converted, off) refl))
          | inl on ↦
              let answer = evaluate c.desk c.initial_cash (paper_decision d price) now b.paper in
              let (response, is_answered, is_accepted) =
                with_paper-sent d volume b.world answer.0 answer.1
                  (λ e. h (rw (coordinate, converted, on) e)) in
              record {
                volume = volume;
                is_converted = converted;
                is_on_policy = on;
                response = response;
                is_answered = is_answered;
                is_accepted = is_accepted;
                is_granted =
                    verdict-IsGranted c.desk c.initial_cash (paper_decision d price) now b.paper
                      answer.1 response
                      (ap {B = Result (Response F) × PaperDb F} (λ r. (r, answer.1)) is_answered)
                      is_accepted;
              }
        ]
      ]

  stop_demo-stops :
      (response response' : Response F) (o o' : DemoOutcome) (w : World) (b : Books F)
      (db : PaperDb F) (stopped : Result (Unit {0})) (paper : PaperDb F)
      → stop c.desk c.initial_cash "broker_execution_failed" db ≡ (stopped, paper)
      → stop_demo c response o w (stopped, paper) ≡ (coordinated response' o', b)
      → ((current c.initial_cash b.paper).stopped ≡ true) × ((load b.world.db).0.stopped ≡ true)
  unfolding stop_demo stop_execution is_blank
  stop_demo-stops response response' o o' w b db (raised e) paper h k =
      absurd (ground (arith, ap (λ p. p.0) k))
  stop_demo-stops response response' o o' w b db (returned _) paper h k =
      let at : record {
        paper = paper;
        world = (stop_execution c.adapter "broker_execution_failed" w).1;
      }
          ≡ b =
        ap (λ p. p.1) k in
      rw (← at) (
        stop_returned c.desk c.initial_cash "broker_execution_failed" db paper h,
        (load-stop "broker_execution_failed" w.db).0,
      )

  -- Both kill switches are on.
  abbrev pub AreStopped : Books F → Type 0
  AreStopped b =
      ((current c.initial_cash b.paper).stopped ≡ true) × ((load b.world.db).0.stopped ≡ true)

  conclude-stops :
      (response response' : Response F) (o o' : DemoOutcome) (paper : PaperDb F) (w : World)
      (b : Books F)
      → conclude c response o paper w ≡ (coordinated response' o', b)
      → o'.accepted ≡ false
      → AreStopped b
  unfolding conclude
  conclude-stops response response' o o' paper w b k failed_there = elim (Bool-cases o.accepted) [
    | inl fine ↦ absurd (ground (arith, ap (λ p. p.0) k))
    | inr broken ↦
        let stopped = stop c.desk c.initial_cash "broker_execution_failed" paper in
        stop_demo-stops response response' o o' w b paper stopped.0 stopped.1 refl (ground arith)
  ]

  with_paper-stops :
      (d : NormalizedDecision F) (volume : ℕ) (w : World) (r : Result (Response F))
      (paper : PaperDb F) (response : Response F) (o : DemoOutcome) (b : Books F)
      → with_paper c d volume w (r, paper) ≡ (coordinated response o, b)
      → o.accepted ≡ false
      → AreStopped b
  unfolding with_paper submit_demo
  with_paper-stops d volume w (raised e) paper response o b k failed_there =
      absurd (ground (arith, ap (λ p. p.0) k))
  with_paper-stops d volume w (returned r) paper response o b k failed_there =
      elim (Option-cases (verdict r)) [
        | inl nothing ↦ absurd (ground (arith, ap (λ p. p.0) k, nothing))
        | inr (true, is_v) ↦
            let (attempt, after) = execute c.adapter (order_of d volume) w in
            let outcome = demo_outcome (order_of d volume) attempt in
            conclude-stops r response outcome o paper (audit_outcome d.decision_id outcome after) b
              (ground arith) failed_there
        | inr (false, is_v) ↦ absurd (ground (arith, ap (λ p. p.0) k, is_v))
      ]

  -- If the paper account accepted a proposal and the broker side did not, then both kill switches are
  -- on when the execution returns.
  pub failure_stops_both :
      (d : NormalizedDecision F) (price : F) (now : ℕ) (b b' : Books F) (response : Response F)
      (o : DemoOutcome)
      → coordinate c d price now b ≡ (coordinated response o, b')
      → o.accepted ≡ false
      → AreStopped b'
  unfolding coordinate
  failure_stops_both d price now b b' response o k failed_there =
      elim (Option-cases (to_volume c.as_integer c.volume_per_unit d.quantity)) [
        | inl nothing ↦ absurd (ground (arith, ap (λ p. p.0) k, nothing))
        | inr (volume, converted) ↦ elim (Option-cases (policy_reason c.policy volume)) [
          | inr (reason, off) ↦ absurd (ground (arith, ap (λ p. p.0) k, off))
          | inl on ↦
              let (answer, paper) =
                evaluate c.desk c.initial_cash (paper_decision d price) now b.paper in
              with_paper-stops d volume b.world answer paper response o b' (ground arith)
                failed_there
        ]
      ]
