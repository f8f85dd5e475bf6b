-- ===== src/Raft.antt =====
-- The Raft half of the program: its values, its log, its storage and the consensus module.
pub mod Types
pub mod Log
pub mod StateFile
pub mod Storage
pub mod Config
pub mod Rpc
pub mod Consensus
pub mod Wire
pub mod Transport
pub mod Cluster
pub mod Driver
pub mod Node
