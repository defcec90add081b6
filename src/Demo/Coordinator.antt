-- ===== src/Demo/Coordinator.antt =====
-- `PaperToCTraderDemoCoordinator.execute` (xauusd/demo_execution.py): the paper account decides first,
-- and a failure at the broker stops both kill switches.
use xauusd.Prelude.{
  ℕ, String, Bool, true, false, not, if◌then◌else◌, Option, none, some, [], ◌∷◌, ◌++◌,
}
use xauusd.Number.{Number}
use xauusd.Paper.{
  Desk, PaperDecision, PaperDb, evaluated, marked, Response, unidentified, answered, Error, Result,
  returned, raised, evaluate, stop,
}
use xauusd.Demo.State.{DemoOrder, DemoOutcome, OutcomeReason}
use xauusd.Demo.Store.{execution_outcome}
use xauusd.Demo.Adapter.{
  DemoAdapter, World, Attempt, done, refused, outcome_of, execute, stop_execution,
}
use xauusd.Demo.Volume.{VolumePolicy, VolumeReason, volume_reason, to_volume}

-- A proposal, whose price the market gives.
pub record NormalizedDecision (F : Type 0) : Type 0 where
  pub decision_id : String
  pub symbol : String
  pub side : String
  pub quantity : F
  pub market_data_at : ℕ
  pub is_aware : Bool

pub record Coordinator (F : Type 0) : Type 0 where
  pub desk : Desk F
  pub initial_cash : F
  pub adapter : DemoAdapter
  pub volume_per_unit : ℕ
  pub policy : Option VolumePolicy
  pub as_integer : F → Option ℕ

-- Both accounts.
pub record Books (F : Type 0) : Type 0 where
  pub paper : PaperDb F
  pub world : World

pub data Coordination (F : Type 0) : Type 0 where
  invalid_volume : Coordination F
  off_policy : VolumeReason → Coordination F
  paper_refused : Response F → Coordination F
  coordinated : Response F → DemoOutcome → Coordination F
  -- An exception of the paper store.
  failed : Error → Coordination F
  -- The paper result of a monitor's id has no key "accepted".
  no_verdict : Coordination F

-- `paper_outcome["accepted"]`, where the result has it.
abbrev pub verdict : {F : Type 0} → Response F → Option Bool
verdict (unidentified id) = some false
verdict (answered a) = elim a.reply [ evaluated o ↦ some o.accepted | marked m ↦ none ]

abbrev pub policy_reason : Option VolumePolicy → ℕ → Option VolumeReason
policy_reason none volume = none
policy_reason (some p) volume = volume_reason p volume

abbrev pub paper_decision : {F : Type 0} → NormalizedDecision F → F → PaperDecision F
paper_decision d price = record {
  decision_id = d.decision_id;
  symbol = d.symbol;
  side = d.side;
  quantity = d.quantity;
  price = price;
  market_data_at = d.market_data_at;
  is_aware = d.is_aware;
}

abbrev pub order_of : {F : Type 0} → NormalizedDecision F → ℕ → DemoOrder
order_of d volume = record { request_id = d.decision_id; side = d.side; volume = volume }

-- An exception of the adapter is an outcome of its own.
abbrev pub demo_outcome : DemoOrder → Attempt DemoOutcome → DemoOutcome
demo_outcome order (done o) = o
demo_outcome order (refused r) = outcome_of false (some OutcomeReason.broker_error) order none

-- `_audit_outcome`
abbrev pub audit_outcome : String → DemoOutcome → World → World
audit_outcome decision_id o w = record w {
  db = record w.db { audit = w.db.audit ++ execution_outcome decision_id o.accepted ∷ [] };
}

module _ {F : Type 0} ⦃n : Number F⦄ (c : Coordinator F) where
  -- The adapter's stop, behind what the paper account's stop returned.
  unfoldable pub stop_demo :
      Response F → DemoOutcome → World → Result (Unit {0}) × PaperDb F → Coordination F × Books F
  stop_demo response o w (raised e, paper) = (failed e, record { paper = paper; world = w })
  stop_demo response o w (returned _, paper) = (
    coordinated response o,
    record { paper = paper; world = (stop_execution c.adapter "broker_execution_failed" w).1 },
  )

  -- What follows the adapter's outcome.
  unfoldable pub conclude : Response F → DemoOutcome → PaperDb F → World → Coordination F × Books F
  conclude response o paper w =
      if not o.accepted
      then stop_demo response o w (stop c.desk c.initial_cash "broker_execution_failed" paper)
      else (coordinated response o, record { paper = paper; world = w })

  -- The submission, behind an accepted paper decision.
  unfoldable pub submit_demo :
      NormalizedDecision F → ℕ → Response F → PaperDb F → World → Coordination F × Books F
  submit_demo d volume response paper w =
      let (attempt, w') = execute c.adapter (order_of d volume) w in
      let o = demo_outcome (order_of d volume) attempt in
      conclude response o paper (audit_outcome d.decision_id o w')

  -- The rest of `execute`, on what the paper account answered.
  unfoldable pub with_paper :
      NormalizedDecision F → ℕ → World → Result (Response F) × PaperDb F → Coordination F × Books F
  with_paper d volume w (raised e, paper) = (failed e, record { paper = paper; world = w })
  with_paper d volume w (returned response, paper) = elim (verdict response) [
    | none ↦ (no_verdict, record { paper = paper; world = w })
    | some false ↦ (paper_refused response, record { paper = paper; world = w })
    | some true ↦ submit_demo d volume response paper w
  ]

  unfoldable pub coordinate : NormalizedDecision F → F → ℕ → Books F → Coordination F × Books F
  coordinate d price now b = elim (to_volume c.as_integer c.volume_per_unit d.quantity) [
    | none ↦ (invalid_volume, b)
    | some volume ↦ elim (policy_reason c.policy volume) [
      | some reason ↦ (off_policy reason, b)
      | none ↦
          with_paper d volume b.world
            (evaluate c.desk c.initial_cash (paper_decision d price) now b.paper)
    ]
  ]
