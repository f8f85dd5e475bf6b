-- ===== src/Raft/Consensus/Steps/Cursor.antt =====
-- raft/consensus.rs: what moves the apply cursor of a node, and what does not.
use murmur.Prelude.{◌≡◌, refl, some, arith}
use murmur.Raft.Types.{Term, LogIndex, NodeId, Bytes}
use murmur.Raft.Log
use murmur.Raft.Log.{Log}
use murmur.Raft.Config.{Instant, Draw}
use murmur.Raft.Rpc.{
  AppendEntriesArgs, RequestVoteArgs, RequestVoteReply, AppendEntriesReply, InstallSnapshotReply,
}
use murmur.Raft.Consensus.Election.{
  yield_to, start_pre_election, start_election, record_pre_vote_reply, record_vote_reply,
  handle_request_vote,
}
use murmur.Raft.Consensus.State.{ConsensusModule, step_down, become_leader, persist}
use murmur.Raft.Consensus.Leader.Commit.{maybe_advance_commit-Advanced}
use murmur.Raft.Consensus.Leader.{
  maybe_advance_commit, advance_peer, submit_command, handle_append_reply,
  handle_install_snapshot_reply,
}
use murmur.Raft.Consensus.Follower.{follow, accept, handle_append_entries}
use murmur.Raft.Consensus.Compaction.{snapshot}

-- The apply cursor and the pending snapshot stay.
abbrev pub Still : ConsensusModule → ConsensusModule → Type 0
Still cm cm' = (cm'.last_applied ≡ cm.last_applied) × (cm'.pending_snapshot ≡ cm.pending_snapshot)

pub maybe_advance_commit-Still : (cm : ConsensusModule) → Still cm (maybe_advance_commit cm)
maybe_advance_commit-Still cm = rw (maybe_advance_commit-Advanced cm).only_commit (refl, refl)

pub advance_peer-Still :
    (cm : ConsensusModule) (peer : NodeId) (hint : LogIndex) → Still cm (advance_peer cm peer hint)
unfolding advance_peer
advance_peer-Still cm peer hint = maybe_advance_commit-Still _

pub step_down-Still : (cm : ConsensusModule) (term : Term) → Still cm (step_down cm term)
unfolding step_down persist
step_down-Still cm term = ground arith

pub yield_to-Still : (cm : ConsensusModule) (term : Term) → Still cm (yield_to cm term)
unfolding yield_to
yield_to-Still cm term = step_down-Still cm term

pub follow-Still :
    (cm : ConsensusModule) (term : Term) (id : NodeId) (now : Instant) (draw : Draw)
    → Still cm (follow cm term id now draw)
unfolding follow
follow-Still cm term id now draw = ground (arith, step_down-Still cm term)

pub accept-Still : (cm : ConsensusModule) (args : AppendEntriesArgs) → Still cm (accept cm args)
unfolding accept persist
accept-Still cm args = ground arith

pub snapshot-Still :
    (cm cm' : ConsensusModule) (index : LogIndex) (bytes : Bytes)
    → snapshot cm index bytes ≡ some cm'
    → Still cm cm'
unfolding snapshot persist
snapshot-Still cm cm' index bytes r = ground (arith, r)

pub submit_command-Still :
    (cm : ConsensusModule) (command : Bytes) → Still cm (submit_command cm command).0
unfolding submit_command persist
submit_command-Still cm command = ground (
  arith,
  maybe_advance_commit-Still (
      persist (record cm {
        log = (Log.append cm.log (record { term = cm.current_term; command = command })).0;
      })),
)

pub start_election-Still :
    (cm : ConsensusModule) (now : Instant) (draw : Draw) → Still cm (start_election cm now draw).0
unfolding start_election become_leader
start_election-Still cm now draw = ground arith

pub handle_request_vote-Still :
    (cm : ConsensusModule) (args : RequestVoteArgs) (now : Instant) (draw : Draw)
    → Still cm (handle_request_vote cm args now draw).0
unfolding handle_request_vote
handle_request_vote-Still cm args now draw = ground (arith, step_down-Still cm args.term)

pub pre_vote_reply-Still :
    (cm : ConsensusModule) (from : NodeId) (reply : RequestVoteReply)
    → Still cm (record_pre_vote_reply cm from reply)
unfolding record_pre_vote_reply
pre_vote_reply-Still cm from reply = ground (arith, yield_to-Still cm reply.term)

pub handle_append_entries-Still :
    (cm : ConsensusModule) (args : AppendEntriesArgs) (now : Instant) (draw : Draw)
    → Still cm (handle_append_entries cm args now draw).0
unfolding handle_append_entries
handle_append_entries-Still cm args now draw = ground (
  arith,
  follow-Still cm args.term args.leader_id now draw,
  accept-Still (follow cm args.term args.leader_id now draw) args,
)

pub handle_append_reply-Still :
    (cm : ConsensusModule) (peer : NodeId) (reply : AppendEntriesReply) (hint : LogIndex)
    → Still cm (handle_append_reply cm peer reply hint)
unfolding handle_append_reply
handle_append_reply-Still cm peer reply hint =
    ground (arith, yield_to-Still cm reply.term, advance_peer-Still cm peer hint)

pub handle_install_snapshot_reply-Still :
    (cm : ConsensusModule) (peer : NodeId) (reply : InstallSnapshotReply) (last : LogIndex)
    → Still cm (handle_install_snapshot_reply cm peer reply last)
unfolding handle_install_snapshot_reply
handle_install_snapshot_reply-Still cm peer reply last =
    ground (arith, yield_to-Still cm reply.term, advance_peer-Still cm peer last)

pub start_pre_election-Still :
    (cm : ConsensusModule) (now : Instant) (draw : Draw)
    → Still cm (start_pre_election cm now draw).0
unfolding start_pre_election
start_pre_election-Still cm now draw = (refl, refl)

pub vote_reply-Still :
    (cm : ConsensusModule) (from : NodeId) (reply : RequestVoteReply)
    → Still cm (record_vote_reply cm from reply)
unfolding record_vote_reply become_leader
vote_reply-Still cm from reply = ground (arith, yield_to-Still cm reply.term)
