-- ===== src/Tendermint.antt =====
-- coordinator/tributary/tendermint/src: the messages, the weights and the message log of the
-- Tendermint machine, its rounds, and what it sends in them.
mod Types
mod Weighing
mod Log
mod Rounds
mod Machine
mod Handler
pub mod Logged
pub mod Deciding
pub mod Voting
mod Overlap
pub mod Finality
pub mod Evidence
pub mod Blame
pub mod Quorums
pub mod Times
pub mod Sending
mod Samples
pub use Types.*
unfoldable pub use Weighing.*
unfoldable pub use Log.*
unfoldable pub use Rounds.*
unfoldable pub use Machine.*
unfoldable pub use Handler.*
