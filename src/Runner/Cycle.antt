-- ===== src/Runner/Cycle.antt =====
-- `run_cycle`, `_stop` and the loop of `run_forever`. The status file and the alert sink are not
-- modelled: a record that cannot be written raises in the source.
use xauusd.Prelude.{
  ℕ, String, ◌+◌, Bool, false, not, if◌then◌else◌, Option, none, some, List, [], ◌∷◌, leb,
}
use xauusd.Number.{Number, lt}
use xauusd.Session.{market_data_age_seconds, bar_interval, year_10000}
use xauusd.Paper.{stop}
use xauusd.Demo.{stop_execution}
use xauusd.Demo.Coordinator.{
  NormalizedDecision, Coordinator, Coordination, Books, invalid_volume, off_policy, paper_refused,
  coordinated, failed, no_verdict, coordinate,
}
use xauusd.Runner.State.{
  MarketData, RunnerConfig, Tick, RunnerStatus, Runner, not_running, stale_market_data, no_decision,
  cycle_failure, executed, stopped, is_valid_market,
}

module _ {F : Type 0} ⦃n : Number F⦄ (c : Coordinator F) where
  -- Both stops are tried, and an exception of one is only recorded.
  abbrev pub halt : String → Books F → Books F
  halt reason b = record {
    paper = (stop c.desk c.initial_cash reason b.paper).1;
    world = (stop_execution c.adapter reason b.world).1;
  }

  -- `_stop`
  abbrev pub stop_runner : String → Runner F → RunnerStatus F × Runner F
  stop_runner reason r = (stopped reason, record r { running = false; books = halt reason r.books })

module _ {F : Type 0} ⦃n : Number F⦄ (config : RunnerConfig F) (c : Coordinator F) where
  -- The `except` clause of a cycle.
  unfoldable pub fail_cycle : Runner F → RunnerStatus F × Runner F
  fail_cycle r =
      let failures = r.consecutive_failures + 1 in
      let r' = record r { consecutive_failures = failures } in
      if leb config.max_consecutive_failures failures
      then stop_runner c "max_consecutive_failures" r'
      else (cycle_failure, r')

  -- The end of a cycle that returns.
  abbrev pub pass_cycle : Coordination F → Runner F → RunnerStatus F × Runner F
  pass_cycle result r = (executed result, record r { consecutive_failures = 0 })

  -- What follows the coordinator's result.
  unfoldable pub settle_cycle : Coordination F → Runner F → RunnerStatus F × Runner F
  settle_cycle (failed e) r = fail_cycle r
  settle_cycle no_verdict r = fail_cycle r
  settle_cycle (coordinated response o) r =
      if not o.accepted
      then stop_runner c "broker_execution_failed" r
      else pass_cycle (coordinated response o) r
  settle_cycle invalid_volume r = pass_cycle invalid_volume r
  settle_cycle (off_policy reason) r = pass_cycle (off_policy reason) r
  settle_cycle (paper_refused response) r = pass_cycle (paper_refused response) r

  -- What follows the decision source.
  unfoldable pub with_decision :
      MarketData F
      → ℕ
      → Option (Option (NormalizedDecision F))
      → Runner F
      → RunnerStatus F × Runner F
  with_decision m now none r = fail_cycle r
  with_decision m now (some none) r = (no_decision, record r { consecutive_failures = 0 })
  with_decision m now (some (some d)) r =
      let (result, b) = coordinate c d m.price now r.books in
      settle_cycle result (record r { books = b })

  -- `max_market_data_age_seconds` is exceeded.
  abbrev pub is_stale_market : MarketData F → ℕ → Bool
  is_stale_market m now =
      lt config.max_market_data_age_seconds (market_data_age_seconds m.observed_at now)

  -- Whether the observation's age raises OverflowError.
  abbrev pub is_after_dates : MarketData F → Bool
  is_after_dates m = leb year_10000 (m.observed_at + bar_interval)

  -- What follows the market source.
  unfoldable pub with_market : Tick F → Option (MarketData F) → Runner F → RunnerStatus F × Runner F
  with_market t none r = fail_cycle r
  with_market t (some m) r =
      if not (is_valid_market m)
      then fail_cycle r
      else if is_after_dates m
      then fail_cycle r
      else if is_stale_market m t.checked_at
      then (stale_market_data, r)
      else with_decision m t.executed_at t.decision r

  unfoldable pub run_cycle : Tick F → Runner F → RunnerStatus F × Runner F
  run_cycle t r = if not r.running then (not_running, r) else with_market t t.market r

  -- The loop of `run_forever`, over the ticks that it lives through.
  unfoldable pub loop : List (Tick F) → Runner F → Runner F
  loop [] r = r
  loop (t ∷ ts) r = let rest = loop ts (run_cycle t r).1 in if r.running then rest else r
