-- ===== src/Demo.antt =====
-- Demo execution on a broker's account (xauusd/ctrader_demo.py, xauusd/demo_execution.py): the
-- execution store, the adapter that submits orders, and the broker's volume rules.
mod State
pub mod Store
mod Adapter
mod Known
mod Once
mod Fresh
pub mod Unknown
mod Fills
mod Exposure
mod Net
mod Tally
mod Agreement
pub mod Reconcile
mod Settled
mod Volume
pub mod Coordinator
mod Granted
pub mod Behind
mod Examples
pub mod BehindExamples
unfoldable pub use State.*
unfoldable pub use Store.*
unfoldable pub use Adapter.*
