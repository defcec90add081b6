-- ===== src/Experiments.antt =====
-- The experiment registry (xauusd/experiment_registry.py): the queue of experiments, its workers and
-- the history of champions.
mod State
mod Registry
mod Calls
mod Moves
mod Steps
mod Lifecycle
mod Outcomes
mod Queue
mod Champions
mod Examples
unfoldable pub use State.*
unfoldable pub use Registry.*
