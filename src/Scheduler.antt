-- ===== src/Scheduler.antt =====
-- processor/src/multisigs/scheduler.rs: which outputs are spent on which payments. The arithmetic
-- of `u64` wraps around, as in a release build. The database of a state holds the scheduler itself,
-- and Encoding says how it is written as bytes.
mod Types
mod Execute
mod Outputs
mod Schedule
mod Created
pub mod Encoding
pub mod Ledger
pub mod Branching
pub mod Planning
pub mod Conservation
pub mod Amortizing
mod Samples
pub use Types.*
unfoldable pub use Execute.*
unfoldable pub use Outputs.*
unfoldable pub use Schedule.*
unfoldable pub use Created.*
