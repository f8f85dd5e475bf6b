-- ===== src/Raft/Types.antt =====
-- The values of raft/types.rs other than the log: terms, indices, roles and what is applied.
use murmur.Prelude.{ℕ, List}

abbrev pub Term : Type 0
Term = ℕ

abbrev pub LogIndex : Type 0
LogIndex = ℕ

abbrev pub NodeId : Type 0
NodeId = ℕ

-- `Vec<u8>`; what needs every element to be a byte says so.
abbrev pub Bytes : Type 0
Bytes = List ℕ

pub data Role : Type 0 where
  follower candidate leader : Role

pub record LogEntry : Type 0 where
  pub term : Term
  pub command : Bytes

pub record Applied : Type 0 where
  pub index : LogIndex
  pub term : Term
  pub command : Bytes

-- The field `data` is called `bytes`.
pub record Snapshot : Type 0 where
  pub last_included_index : LogIndex
  pub last_included_term : Term
  pub bytes : Bytes

pub data Apply : Type 0 where
  command : Applied → Apply
  snapshot : Snapshot → Apply
