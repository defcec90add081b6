-- ===== src/Runner/Sends.antt =====
-- When a cycle of the runner submits an order.
use xauusd.Prelude.{
  ℕ, String, ◌+◌, ◌≡◌, ◌≢◌, refl, ap, ◌∙◌, true, false, not, Option, none, some, List, Bool-cases,
  inl, inr, leb, is_blank, if◌then◌else◌,
}
use xauusd.Number.{Number}
use xauusd.Demo.{World, RequestData, stop_execution}
use xauusd.Demo.Coordinator.{
  NormalizedDecision, Coordinator, Coordination, invalid_volume, off_policy, paper_refused,
  coordinated, failed, no_verdict, coordinate,
}
use xauusd.Demo.Behind.{IsBacked, submission-IsBacked}
use xauusd.Runner.State.{
  MarketData, RunnerConfig, RunnerStatus, not_running, Tick, Runner, is_valid_market,
}
use xauusd.Runner.Cycle.{
  fail_cycle, settle_cycle, with_decision, is_after_dates, is_stale_market, with_market, run_cycle,
}

-- What has been submitted to the broker.
abbrev pub sent_by : {F : Type 0} → Runner F → List RequestData
sent_by r = r.books.world.sent

stop_execution-sent :
    {F : Type 0} (c : Coordinator F) (reason : String) (w : World)
    → (stop_execution c.adapter reason w).1.sent ≡ w.sent
unfolding stop_execution
stop_execution-sent c reason w = elim (Bool-cases (is_blank reason)) [
  | inl blank ↦ rw (blank) refl
  | inr named ↦ rw (named) refl
]

module _ {F : Type 0} ⦃n : Number F⦄ (config : RunnerConfig F) (c : Coordinator F) where
  pub fail_cycle-sent : (r : Runner F) → sent_by (fail_cycle config c r).1 ≡ sent_by r
  unfolding fail_cycle
  fail_cycle-sent r =
      elim (Bool-cases (leb config.max_consecutive_failures (r.consecutive_failures + 1))) [
        | inl over ↦ rw (over) (stop_execution-sent c _ r.books.world)
        | inr under ↦ rw (under) refl
      ]

  settle_cycle-sent :
      (result : Coordination F) (r : Runner F)
      → sent_by (settle_cycle config c result r).1 ≡ sent_by r
  unfolding settle_cycle
  settle_cycle-sent (failed e) r = fail_cycle-sent r
  settle_cycle-sent no_verdict r = fail_cycle-sent r
  settle_cycle-sent (coordinated response o) r = elim (Bool-cases o.accepted) [
    | inl fine ↦ rw (fine) refl
    | inr bad ↦ rw (bad) (stop_execution-sent c _ r.books.world)
  ]
  settle_cycle-sent invalid_volume r = refl
  settle_cycle-sent (off_policy reason) r = refl
  settle_cycle-sent (paper_refused response) r = refl

  -- The gates that a submission of a cycle has passed.
  pub record IsDue (t : Tick F) (r : Runner F) : Type 0 where
    pub is_running : r.running ≡ true
    pub market : MarketData F
    pub is_read : t.market ≡ some market
    pub is_valid : is_valid_market market ≡ true
    pub is_fresh : is_stale_market config c market t.checked_at ≡ false
    pub decision : NormalizedDecision F
    pub is_proposed : t.decision ≡ some (some decision)
    pub is_backed : IsBacked c decision market.price t.executed_at r.books

  with_decision-sent :
      (m : MarketData F) (now : ℕ) (o : Option (Option (NormalizedDecision F))) (r : Runner F)
      → sent_by (with_decision config c m now o r).1 ≢ sent_by r
      → (d : NormalizedDecision F) × (o ≡ some (some d)) × IsBacked c d m.price now r.books
  unfolding with_decision
  with_decision-sent m now none r h = absurd (h (fail_cycle-sent r))
  with_decision-sent m now (some none) r h = absurd (h refl)
  with_decision-sent m now (some (some d)) r h =
      let (result, b) = coordinate c d m.price now r.books in
      (
        d,
        refl,
        submission-IsBacked c d m.price now r.books
            (λ same. h (settle_cycle-sent result (record r { books = b }) ∙ same)),
      )

  with_market-sent :
      (t : Tick F) (o : Option (MarketData F)) (r : Runner F)
      → t.market ≡ o
      → r.running ≡ true
      → sent_by (with_market config c t o r).1 ≢ sent_by r
      → IsDue t r
  unfolding with_market
  with_market-sent t none r read on h = absurd (h (fail_cycle-sent r))
  with_market-sent t (some m) r read on h = elim (Bool-cases (is_valid_market m)) [
    | inr bad ↦ absurd (h (rw (with_market, bad) (fail_cycle-sent r)))
    | inl good ↦ elim (Bool-cases (is_after_dates config c m)) [
      | inl late ↦ absurd (h (rw (with_market, good, late) (fail_cycle-sent r)))
      | inr dated ↦ elim (Bool-cases (is_stale_market config c m t.checked_at)) [
        | inl stale ↦ absurd (h (rw (with_market, good, dated, stale) refl))
        | inr fresh ↦
            let (d, proposed, backed) =
              with_decision-sent m t.executed_at t.decision r
                (λ same. h (rw (with_market, good, dated, fresh) same)) in
            record {
              is_running = on;
              market = m;
              is_read = read;
              is_valid = good;
              is_fresh = fresh;
              decision = d;
              is_proposed = proposed;
              is_backed = backed;
            }
      ]
    ]
  ]

  pub run_cycle-running :
      (t : Tick F) (r : Runner F)
      → r.running ≡ true
      → run_cycle config c t r ≡ with_market config c t t.market r
  unfolding run_cycle
  run_cycle-running t r on =
      ap
        (λ b.
          if◌then◌else◌ {A = RunnerStatus F × Runner F} (not b) (not_running, r)
            (with_market config c t t.market r))
        on

  run_cycle-ended :
      (t : Tick F) (r : Runner F) → r.running ≡ false → run_cycle config c t r ≡ (not_running, r)
  unfolding run_cycle
  run_cycle-ended t r off =
      ap
        (λ b.
          if◌then◌else◌ {A = RunnerStatus F × Runner F} (not b) (not_running, r)
            (with_market config c t t.market r))
        off

  -- If a cycle submits anything to the broker, then the runner was running, the market source answered
  -- with a finite positive price and an observation that is not too old, the decision source proposed
  -- a decision, this passed the volume rules, and the paper account answered it with an acceptance:
  -- either it had no result of the decision's id and the decision passed every gate at that price, or
  -- its table held an accepted result of that id, of whatever price.
  pub run_cycle-IsDue :
      (t : Tick F) (r : Runner F) → sent_by (run_cycle config c t r).1 ≢ sent_by r → IsDue t r
  run_cycle-IsDue t r h = elim (Bool-cases r.running) [
    | inl on ↦
        with_market-sent t t.market r refl on
          (λ same. h (ap (λ p. sent_by p.1) (run_cycle-running t r on) ∙ same))
    | inr off ↦ absurd (h (ap (λ p. sent_by p.1) (run_cycle-ended t r off)))
  ]
