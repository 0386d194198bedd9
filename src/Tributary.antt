-- ===== src/Tributary.antt =====
-- coordinator/tributary/src: the chain of a validator set.
pub mod Types
pub mod Block
pub mod Mempool
pub mod Chain
pub mod Ordering
pub mod Counting
mod Samples
