-- ===== src/Transcript/Examples.antt =====
-- The transcript run on concrete inputs, and its theorems applied there.
use xauusd.Prelude.{ℕ, String, ◌≡◌, refl, none, some, List, [], ◌∷◌, map}
use xauusd.Transcript.Store.{
  AgentRun, Step, RunStatus, TranscriptDb, family_of, begins, close_run, reconcile_running_runs,
  insert_run, newest_first, take_runs, prune,
}
use xauusd.Transcript.Family.{AreScoped, reconcile_running_runs-AreScoped}
use xauusd.Transcript.Prune.{IsPrunedTable, prune-IsPruned}

abbrev run_at : String → ℕ → AgentRun
run_at run_id created_at = record {
  run_id = run_id;
  status = RunStatus.running;
  created_at = created_at;
  finished_at = none;
}

abbrev runs : List AgentRun
runs = run_at "agent_1" 1 ∷ run_at "engine_1" 2 ∷ run_at "agent_2" 3 ∷ []

-- The engine's run stays.
reconciled :
    map (λ x. x.finished_at) (reconcile_running_runs "agent_2" 9 runs) ≡ some 9 ∷ none ∷ none ∷ []
unfolding reconcile_running_runs close_run family_of begins
reconciled = refl

agent_family : family_of "agent_2" ≡ some "agent_"
unfolding family_of
agent_family = refl

reconcile_running_runs-AreScoped_example :
    AreScoped "agent_2" 9 runs (reconcile_running_runs "agent_2" 9 runs)
reconcile_running_runs-AreScoped_example =
    reconcile_running_runs-AreScoped "agent_2" "agent_" 9 runs agent_family

abbrev step_at : ℕ → String → Step
step_at id run_id = record {
  id = id;
  run_id = run_id;
  tick = 0;
  phase = "tick_start";
  content = "{}";
  occurred_at = id;
}

abbrev db : TranscriptDb
db = record {
  runs = runs;
  steps =
      step_at 1 "agent_1" ∷ step_at 2 "engine_1" ∷ step_at 3 "agent_2" ∷ step_at 4 "agent_2" ∷ [];
  next_id = 5;
}

newest_runs : take_runs 2 (newest_first db.runs []) ≡ run_at "agent_2" 3 ∷ run_at "engine_1" 2 ∷ []
unfolding take_runs newest_first insert_run
newest_runs = refl

prune-IsPruned_example :
    (let (removed, db') = prune 2 2 0 db in
      IsPrunedTable 2 0 db.steps (removed, db'.steps) × (db'.runs ≡ db.runs))
prune-IsPruned_example =
    prune-IsPruned 2 2 0 db (run_at "agent_2" 3) (run_at "engine_1" 2 ∷ []) newest_runs
