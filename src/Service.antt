-- ===== src/Service.antt =====
-- The replicated key/value service: command.rs, store.rs and app.rs.
pub mod Op
pub mod Messages
pub mod Command
pub mod Store
pub mod State
pub mod ExactlyOnce
pub mod Snapshot
pub mod Waiters
pub mod Requests
pub mod Refinement
pub mod Server
pub mod Start
mod Runs
mod PromiseRuns
