-- ===== src/Runner/State.antt =====
-- What the runner reads and keeps. Its sources and its clock are inputs: a tick has what they answer.
use xauusd.Prelude.{ℕ, String, Bool, ◌&&◌, Option, ltb}
use xauusd.Number.{Number, of_ℕ, lt, finite}
use xauusd.Demo.Coordinator.{NormalizedDecision, Coordination, Books}

pub record MarketData (F : Type 0) : Type 0 where
  pub price : F
  pub observed_at : ℕ
  pub is_aware : Bool

pub record RunnerConfig (F : Type 0) : Type 0 where
  pub enabled : Bool
  pub poll_seconds : F
  pub max_consecutive_failures : ℕ
  pub max_market_data_age_seconds : F

-- What a cycle reads: the market and the decision, each nothing where the source raises, a decision
-- that proposes no action, and the clock at the test of age and at the execution.
pub record Tick (F : Type 0) : Type 0 where
  pub market : Option (MarketData F)
  pub decision : Option (Option (NormalizedDecision F))
  pub checked_at : ℕ
  pub executed_at : ℕ

pub data KillSwitch : Type 0 where
  paper_switch demo_switch : KillSwitch

-- The states of a status record.
pub data RunnerStatus (F : Type 0) : Type 0 where
  disabled now_running not_running stale_market_data no_decision cycle_failure : RunnerStatus F
  resume_refused : KillSwitch → String → RunnerStatus F
  executed : Coordination F → RunnerStatus F
  stopped : String → RunnerStatus F

pub record Runner (F : Type 0) : Type 0 where
  pub running : Bool
  pub consecutive_failures : ℕ
  pub books : Books F

module _ {F : Type 0} ⦃n : Number F⦄ where
  -- `DemoRunnerConfig.validate`, which raises where this is false.
  abbrev pub is_valid_runner : RunnerConfig F → Bool
  is_valid_runner c =
      (finite c.poll_seconds && lt (of_ℕ 0) c.poll_seconds)
      && (ltb 0 c.max_consecutive_failures
          && (finite c.max_market_data_age_seconds && lt (of_ℕ 0) c.max_market_data_age_seconds))

  -- `_validate_market_data`
  abbrev pub is_valid_market : MarketData F → Bool
  is_valid_market m = finite m.price && (lt (of_ℕ 0) m.price && m.is_aware)
