-- ===== src/Engine.antt =====
-- The event-driven backtester (xauusd/engine.py).
mod Config
mod Run
mod Rows
mod Causal
mod Holding
mod Ledger
mod Stops
mod Examples
unfoldable pub use Config.*
unfoldable pub use Run.*
