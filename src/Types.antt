-- ===== src/Types.antt =====
-- crates/cluster-types/src/lib.rs: the data that the services share.
mod Hardware
mod Node
mod Plan
mod Shard
pub use Hardware.*
pub use Node.*
pub use Plan.*
pub use Shard.*
