-- ===== src/Number.antt =====
-- Python's numbers: the operations and laws that the model takes as a parameter, and an instance.
mod Defs
mod Whole
pub use Defs.*
pub use Whole.{Exact, whole, nan, exact, exact-IsOrdered}
