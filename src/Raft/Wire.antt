-- ===== src/Raft/Wire.antt =====
-- The messages of proto/raft.proto, as prost represents them. The field `data` is called `bytes`.
use murmur.Prelude.{Bool, List}
use murmur.Raft.Types.{Term, LogIndex, NodeId, Bytes}

pub record LogEntry : Type 0 where
  pub term : Term
  pub command : Bytes

pub record RequestVoteRequest : Type 0 where
  pub term : Term
  pub candidate_id : NodeId
  pub last_log_index : LogIndex
  pub last_log_term : Term
  pub pre_vote : Bool

pub record RequestVoteResponse : Type 0 where
  pub term : Term
  pub vote_granted : Bool

pub record AppendEntriesRequest : Type 0 where
  pub term : Term
  pub leader_id : NodeId
  pub prev_log_index : LogIndex
  pub prev_log_term : Term
  pub entries : List LogEntry
  pub leader_commit : LogIndex

pub record AppendEntriesResponse : Type 0 where
  pub term : Term
  pub success : Bool
  pub has_conflict : Bool
  pub conflict_index : LogIndex
  pub conflict_term : Term

pub record InstallSnapshotRequest : Type 0 where
  pub term : Term
  pub leader_id : NodeId
  pub last_included_index : LogIndex
  pub last_included_term : Term
  pub bytes : Bytes

pub record InstallSnapshotResponse : Type 0 where
  pub term : Term
