-- ===== src/Raft/Consensus.antt =====
-- raft/consensus.rs, a module to each side of it, the theorems in the modules below those.
pub mod State
pub mod Election
pub mod Follower
pub mod Leader
pub mod Compaction
pub mod Invariant
pub mod Replication
pub mod Steps
pub mod Samples
pub mod Runs
