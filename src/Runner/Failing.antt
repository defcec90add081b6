-- ===== src/Runner/Failing.antt =====
-- That a runner whose sources keep failing stops, after the number of failures that it is set to.
use xauusd.Prelude.{
  ◌+◌, ◌<◌, ◌≡◌, refl, sym, ap, ◌∙◌, true, false, if◌then◌else◌, none, some, List, [], ◌∷◌, arith,
  length, Bool-cases, inl, inr, ◌⊎◌, leb, is_blank, All, subst,
}
use xauusd.Number.{Number}
use xauusd.Paper.{PaperDb, Error, Result, returned, raised, stop}
use xauusd.Paper.Calls.{current}
use xauusd.Paper.Stopped.{stop_returned}
use xauusd.Demo.{load, stop_execution}
use xauusd.Demo.Unknown.{load-stop}
use xauusd.Demo.Coordinator.{Coordinator}
use xauusd.Runner.State.{MarketData, RunnerConfig, Tick, Runner, is_valid_market}
use xauusd.Runner.Cycle.{
  fail_cycle, with_decision, is_after_dates, is_stale_market, with_market, run_cycle, loop,
}
use xauusd.Runner.Sends.{sent_by, fail_cycle-sent}

module _ {F : Type 0} ⦃n : Number F⦄ (config : RunnerConfig F) (c : Coordinator F) where
  -- A tick in which a source raises, or the market data are malformed.
  abbrev pub IsFailing : Tick F → Type 0
  IsFailing t =
      (t.market ≡ none)
      ⊎ ((m : MarketData F) × (t.market ≡ some m)
          × ((is_valid_market m ≡ false)
              ⊎ ((is_stale_market config c m t.checked_at ≡ false) × (t.decision ≡ none))))

  -- The runner has ended and the demo switch is on; so is the paper switch, if its stop did not raise.
  abbrev pub IsHalted : Runner F → Type 0
  IsHalted r =
      (r.running ≡ false)
      × ((load r.books.world.db).0.stopped ≡ true)
      × (((current c.initial_cash r.books.paper).stopped ≡ true)
          ⊎ ((e : Error) × (before : PaperDb F) × (stop c.desk c.initial_cash
                  "max_consecutive_failures" before
                ≡ (raised e, r.books.paper))))

  tick-fails :
      (t : Tick F) (r : Runner F)
      → IsFailing t
      → r.running ≡ true
      → run_cycle config c t r ≡ fail_cycle config c r
  unfolding run_cycle with_market with_decision
  tick-fails t r (inl missing) on = rw (run_cycle, on, missing) refl
  tick-fails t r (inr (m, read, why)) on = elim (Bool-cases (is_valid_market m)) [
    | inr bad ↦ rw (run_cycle, on, read, with_market, bad) refl
    | inl good ↦ elim why [
      | inl bad ↦ absurd (ground (arith, good, bad))
      | inr (fresh, raises) ↦ elim (Bool-cases (is_after_dates config c m)) [
        | inl late ↦ rw (run_cycle, on, read, with_market, good, late) refl
        | inr dated ↦ rw (run_cycle, on, read, with_market, good, dated, fresh, raises) refl
      ]
    ]
  ]

  fail_cycle-stays :
      (r : Runner F)
      → leb config.max_consecutive_failures (r.consecutive_failures + 1) ≡ false
      → (fail_cycle config c r).1 ≡ record r { consecutive_failures = r.consecutive_failures + 1 }
  unfolding fail_cycle
  fail_cycle-stays r under = rw (under) refl

  -- Both stops of `halt`, on what the paper account's stop returned.
  halt-switches :
      (before : PaperDb F) (answer : Result (Unit {0})) (paper : PaperDb F)
      → stop c.desk c.initial_cash "max_consecutive_failures" before ≡ (answer, paper)
      → ((current c.initial_cash paper).stopped ≡ true)
        ⊎ ((e : Error) × (before : PaperDb F) × (stop c.desk c.initial_cash
                "max_consecutive_failures" before
              ≡ (raised e, paper)))
  halt-switches before (returned _) paper h =
      inl (stop_returned c.desk c.initial_cash "max_consecutive_failures" before paper h)
  halt-switches before (raised e) paper h = inr (e, before, h)

  fail_cycle-IsHalted :
      (r : Runner F)
      → leb config.max_consecutive_failures (r.consecutive_failures + 1) ≡ true
      → IsHalted (fail_cycle config c r).1
  unfolding fail_cycle stop_execution is_blank
  fail_cycle-IsHalted r over =
      let answer = stop c.desk c.initial_cash "max_consecutive_failures" r.books.paper in
      rw (over) (
        refl,
        (load-stop "max_consecutive_failures" r.books.world.db).0,
        halt-switches r.books.paper answer.0 answer.1 refl,
      )

  loop-ended : (ts : List (Tick F)) (r : Runner F) → r.running ≡ false → loop config c ts r ≡ r
  unfolding loop
  loop-ended [] r off = refl
  loop-ended (t ∷ ts) r off =
      ap (λ b. if b then loop config c ts (run_cycle config c t r).1 else r) off

  loop-failing :
      (t : Tick F) (ts : List (Tick F)) (r : Runner F)
      → IsFailing t
      → r.running ≡ true
      → loop config c (t ∷ ts) r ≡ loop config c ts (fail_cycle config c r).1
  unfolding loop
  loop-failing t ts r fails on =
      ap (λ b. if b then loop config c ts (run_cycle config c t r).1 else r) on
      ∙ ap (λ p. loop config c ts p.1) (tick-fails t r fails on)

  -- The loop of a running runner ends, with the demo switch on, and the paper switch too unless its stop
  -- raised, once as many ticks in a row as are left of `max_consecutive_failures` have failed: a
  -- source raised or the market data were malformed. Nothing is submitted to the broker meanwhile.
  pub failing_loop-IsHalted :
      (ts : List (Tick F)) (r : Runner F)
      → r.running ≡ true
      → r.consecutive_failures < config.max_consecutive_failures
      → All IsFailing ts
      → config.max_consecutive_failures ≡ r.consecutive_failures + length ts
      → IsHalted (loop config c ts r) × (sent_by (loop config c ts r) ≡ sent_by r)
  failing_loop-IsHalted [] r on below fails enough = absurd (omega (arith, below, enough))
  failing_loop-IsHalted (t ∷ ts) r on below fails enough =
      let s = (fail_cycle config c r).1 in
      let unfolded = loop-failing t ts r fails.0 on in
      elim (Bool-cases (leb config.max_consecutive_failures (r.consecutive_failures + 1))) [
        | inl over ↦
            let halted = fail_cycle-IsHalted r over in
            let same = unfolded ∙ loop-ended ts s halted.0 in
            (
              subst IsHalted (sym same) halted,
              ap (λ x. sent_by x) same ∙ fail_cycle-sent config c r,
            )
        | inr under ↦
            let next : Runner F = record r { consecutive_failures = r.consecutive_failures + 1 } in
            let same : loop config c (t ∷ ts) r ≡ loop config c ts next =
              unfolded ∙ ap (λ x. loop config c ts x) (fail_cycle-stays r under) in
            let (halted, sent) =
              failing_loop-IsHalted ts next on (ground (arith, under, below)) fails.1
                (omega (arith, enough)) in
            (subst IsHalted (sym same) halted, ap (λ x. sent_by x) same ∙ sent)
      ]
