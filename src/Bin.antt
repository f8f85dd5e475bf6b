-- ===== src/Bin.antt =====
-- bin/: the three programs, their command lines and what they do with the library.
pub mod Text
pub mod Murmurd
pub mod Client
pub mod Bench
mod Runs
