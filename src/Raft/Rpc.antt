-- ===== src/Raft/Rpc.antt =====
-- raft/rpc.rs: the messages between nodes.
use murmur.Prelude.{Bool, true, false, Option, none, List}
use murmur.Raft.Types.{Term, LogIndex, NodeId, Bytes, LogEntry}

pub record RequestVoteArgs : Type 0 where
  pub term : Term
  pub candidate_id : NodeId
  pub last_log_index : LogIndex
  pub last_log_term : Term
  pub pre_vote : Bool

pub record RequestVoteReply : Type 0 where
  pub term : Term
  pub vote_granted : Bool

pub record AppendEntriesArgs : Type 0 where
  pub term : Term
  pub leader_id : NodeId
  pub prev_log_index : LogIndex
  pub prev_log_term : Term
  pub entries : List LogEntry
  pub leader_commit : LogIndex

pub record AppendEntriesReply : Type 0 where
  pub term : Term
  pub success : Bool
  pub conflict_index : Option LogIndex
  pub conflict_term : Option Term

abbrev pub success : Term → AppendEntriesReply
success t = record { term = t; success = true; conflict_index = none; conflict_term = none }

abbrev pub rejected : Term → AppendEntriesReply
rejected t = record { term = t; success = false; conflict_index = none; conflict_term = none }

-- The field `data` is called `bytes`.
pub record InstallSnapshotArgs : Type 0 where
  pub term : Term
  pub leader_id : NodeId
  pub last_included_index : LogIndex
  pub last_included_term : Term
  pub bytes : Bytes

pub record InstallSnapshotReply : Type 0 where
  pub term : Term
