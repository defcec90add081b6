-- ===== src/Paper.antt =====
-- Paper trading (xauusd/paper_trading.py): the account state, the risk gates, fills, the store and
-- the lifecycle, with one module for each group of properties.
mod State
mod Account
pub mod Store
pub mod Trading
pub mod Calls
pub mod Changes
mod Steps
mod Invariants
mod Decided
mod Replay
mod KillSwitch
pub mod Stopped
mod Once
pub mod Idempotence
pub mod Gates
mod Limits
mod Total
mod Marks
mod Validation
mod Trusted
mod RowExamples
mod Examples
unfoldable pub use State.*
unfoldable pub use Account.*
unfoldable pub use Store.*
unfoldable pub use Trading.*
