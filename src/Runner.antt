-- ===== src/Runner.antt =====
-- The demo automation runner (xauusd/demo_runner.py), over the coordinator.
mod State
mod Cycle
mod Start
mod Sends
mod Failing
mod Refused
mod Examples
