-- ===== src/Raft/Transport.antt =====
-- raft/transport.rs: the conversions between the messages of the wire and those of the consensus
-- module, and the service that answers the calls of the peers. gRPC itself is generated code.
pub mod Exchange
pub mod Clients
pub mod Calls
mod Runs
use murmur.Prelude.{Bool, true, false, Option, none, some, List, [], ◌∷◌, if◌then◌else◌}
use murmur.Raft.Types.{Term, LogIndex, NodeId, Bytes, LogEntry}
use murmur.Raft.Wire
use murmur.Raft.Config.{Instant, Draw}
use murmur.Raft.Rpc.{
  RequestVoteArgs, RequestVoteReply, AppendEntriesArgs, AppendEntriesReply, InstallSnapshotArgs,
  InstallSnapshotReply,
}
use murmur.Raft.Consensus.State.{ConsensusModule}
use murmur.Raft.Consensus.Election.{handle_request_vote}
use murmur.Raft.Consensus.Follower.{handle_append_entries}
use murmur.Raft.Consensus.Compaction.{handle_install_snapshot}

unfoldable pub entries_to_pb : List LogEntry → List Wire.LogEntry
entries_to_pb [] = []
entries_to_pb (e ∷ es) = record { term = e.term; command = e.command } ∷ entries_to_pb es

unfoldable pub entries_from_pb : List Wire.LogEntry → List LogEntry
entries_from_pb [] = []
entries_from_pb (e ∷ es) = record { term = e.term; command = e.command } ∷ entries_from_pb es

unfoldable pub vote_req_to_pb : RequestVoteArgs → Wire.RequestVoteRequest
vote_req_to_pb a = record {
  term = a.term;
  candidate_id = a.candidate_id;
  last_log_index = a.last_log_index;
  last_log_term = a.last_log_term;
  pre_vote = a.pre_vote;
}

unfoldable pub vote_req_from_pb : Wire.RequestVoteRequest → RequestVoteArgs
vote_req_from_pb r = record {
  term = r.term;
  candidate_id = r.candidate_id;
  last_log_index = r.last_log_index;
  last_log_term = r.last_log_term;
  pre_vote = r.pre_vote;
}

unfoldable pub vote_reply_to_pb : RequestVoteReply → Wire.RequestVoteResponse
vote_reply_to_pb r = record { term = r.term; vote_granted = r.vote_granted }

unfoldable pub vote_reply_from_pb : Wire.RequestVoteResponse → RequestVoteReply
vote_reply_from_pb r = record { term = r.term; vote_granted = r.vote_granted }

unfoldable pub append_req_to_pb : AppendEntriesArgs → Wire.AppendEntriesRequest
append_req_to_pb a = record {
  term = a.term;
  leader_id = a.leader_id;
  prev_log_index = a.prev_log_index;
  prev_log_term = a.prev_log_term;
  entries = entries_to_pb a.entries;
  leader_commit = a.leader_commit;
}

unfoldable pub append_req_from_pb : Wire.AppendEntriesRequest → AppendEntriesArgs
append_req_from_pb r = record {
  term = r.term;
  leader_id = r.leader_id;
  prev_log_index = r.prev_log_index;
  prev_log_term = r.prev_log_term;
  entries = entries_from_pb r.entries;
  leader_commit = r.leader_commit;
}

-- `is_some()`
abbrev is_some : {A : Type 0} → Option A → Bool
is_some none = false
is_some (some a) = true

-- `unwrap_or(0)`
abbrev or_zero : Option Term → Term
or_zero none = 0
or_zero (some n) = n

unfoldable pub append_reply_to_pb : AppendEntriesReply → Wire.AppendEntriesResponse
append_reply_to_pb r = record {
  term = r.term;
  success = r.success;
  has_conflict = is_some r.conflict_index;
  conflict_index = or_zero r.conflict_index;
  conflict_term = or_zero r.conflict_term;
}

unfoldable pub append_reply_from_pb : Wire.AppendEntriesResponse → AppendEntriesReply
append_reply_from_pb r = record {
  term = r.term;
  success = r.success;
  conflict_index = if r.has_conflict then some r.conflict_index else none;
  conflict_term = if r.has_conflict then some r.conflict_term else none;
}

unfoldable pub install_req_to_pb : InstallSnapshotArgs → Wire.InstallSnapshotRequest
install_req_to_pb a = record {
  term = a.term;
  leader_id = a.leader_id;
  last_included_index = a.last_included_index;
  last_included_term = a.last_included_term;
  bytes = a.bytes;
}

unfoldable pub install_req_from_pb : Wire.InstallSnapshotRequest → InstallSnapshotArgs
install_req_from_pb r = record {
  term = r.term;
  leader_id = r.leader_id;
  last_included_index = r.last_included_index;
  last_included_term = r.last_included_term;
  bytes = r.bytes;
}

unfoldable pub install_reply_to_pb : InstallSnapshotReply → Wire.InstallSnapshotResponse
install_reply_to_pb r = record { term = r.term }

unfoldable pub install_reply_from_pb : Wire.InstallSnapshotResponse → InstallSnapshotReply
install_reply_from_pb r = record { term = r.term }

unfoldable pub request_vote :
    ConsensusModule
    → Wire.RequestVoteRequest
    → Instant
    → Draw
    → ConsensusModule × Wire.RequestVoteResponse
request_vote core request now draw =
    let (core', reply) = handle_request_vote core (vote_req_from_pb request) now draw in
    (core', vote_reply_to_pb reply)

unfoldable pub append_entries :
    ConsensusModule
    → Wire.AppendEntriesRequest
    → Instant
    → Draw
    → ConsensusModule × Wire.AppendEntriesResponse
append_entries core request now draw =
    let (core', reply) = handle_append_entries core (append_req_from_pb request) now draw in
    (core', append_reply_to_pb reply)

unfoldable pub install_snapshot :
    ConsensusModule
    → Wire.InstallSnapshotRequest
    → Instant
    → Draw
    → ConsensusModule × Wire.InstallSnapshotResponse
install_snapshot core request now draw =
    let (core', reply) = handle_install_snapshot core (install_req_from_pb request) now draw in
    (core', install_reply_to_pb reply)
