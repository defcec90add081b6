-- ===== src/Runner/Examples.antt =====
-- The runner run on concrete ticks, and its theorems applied there.
use xauusd.Prelude.{◌≡◌, ◌≢◌, refl, true, false, none, some, [], ◌∷◌, inl, inr, arith}
use xauusd.Prelude.Int.{pos}
use xauusd.Number.{Exact, whole, exact}
use xauusd.Session.{market_data_age_seconds}
use xauusd.Paper.{restart_policy, maybe_resume, resume_found, resume_as, state}
use xauusd.Demo.{readable}
use xauusd.Demo.Coordinator.{Books}
use xauusd.Demo.BehindExamples.{noon, clock, coordinator, proposal, price, books, run_both}
use xauusd.Runner.State.{RunnerConfig, Tick, Runner, KillSwitch, resume_refused}
use xauusd.Runner.Cycle.{fail_cycle, settle_cycle, with_decision, with_market, run_cycle, loop}
use xauusd.Runner.Start.{
  with_paper_state, with_paper_policy, with_demo_policy, resume_kill_switches, conclude_start,
  start_runner,
}
use xauusd.Runner.Sends.{sent_by, IsDue, run_cycle-IsDue}
use xauusd.Runner.Failing.{IsFailing, IsHalted, failing_loop-IsHalted}
use xauusd.Runner.Refused.{IsRefused, start_runner-IsRefused}

abbrev config : RunnerConfig Exact
config = record {
  enabled = true;
  poll_seconds = whole (pos 30);
  max_consecutive_failures = 3;
  max_market_data_age_seconds = whole (pos 180);
}

abbrev tick : Tick Exact
tick = record {
  market = some (record { price = price; observed_at = noon; is_aware = true });
  decision = some (some proposal);
  checked_at = clock;
  executed_at = clock;
}

abbrev runner : Runner Exact
runner = record { running = true; consecutive_failures = 0; books = books }

one_sent : sent_by (run_cycle config coordinator tick runner).1 ≢ sent_by runner
unfolding run_both fail_cycle settle_cycle with_decision with_market run_cycle
one_sent e = ground arith

run_cycle-IsDue_example : IsDue config coordinator tick runner
run_cycle-IsDue_example = run_cycle-IsDue config coordinator tick runner one_sent

-- The market source raises, then the decision source does, twice.
abbrev silent : Tick Exact
silent = record tick { market = none }

abbrev undecided : Tick Exact
undecided = record tick { decision = none }

fresh_tick : IsFailing config coordinator undecided
unfolding market_data_age_seconds
fresh_tick =
    inr (record { price = price; observed_at = noon; is_aware = true }, refl, inr (refl, refl))

failing_loop-IsHalted_example :
    IsHalted config coordinator
      (loop config coordinator (silent ∷ undecided ∷ undecided ∷ []) runner)
    × (sent_by (loop config coordinator (silent ∷ undecided ∷ undecided ∷ []) runner)
        ≡ sent_by runner)
failing_loop-IsHalted_example =
    failing_loop-IsHalted config coordinator (silent ∷ undecided ∷ undecided ∷ []) runner refl
      (omega arith) (inl refl, (fresh_tick, (fresh_tick, tt))) refl

-- The paper switch is off, and an operator has stopped the demo switch.
abbrev held_books : Books Exact
held_books = record books {
  world = record books.world {
    db = record books.world.db {
      row = some (
          readable (record { stopped = true; kill_switch_reason = "operator"; reconciled = true }));
    };
  };
}

abbrev held_runner : Runner Exact
held_runner = record { running = false; consecutive_failures = 0; books = held_books }

held_start : start_runner coordinator config held_runner ≡ (
  (false, resume_refused KillSwitch.demo_switch "operator"),
  (start_runner coordinator config held_runner).1,
)
unfolding run_both restart_policy maybe_resume resume_found resume_as state with_paper_state
    with_paper_policy with_demo_policy resume_kill_switches conclude_start start_runner
held_start = refl

start_runner-IsRefused_example :
    (false ≡ false)
    × ((start_runner coordinator config held_runner).1.running ≡ false)
    × IsRefused coordinator KillSwitch.demo_switch "operator" held_books
        (start_runner coordinator config held_runner).1.books
start_runner-IsRefused_example =
    start_runner-IsRefused coordinator config held_runner
      (start_runner coordinator config held_runner).1 false KillSwitch.demo_switch "operator"
      held_start
