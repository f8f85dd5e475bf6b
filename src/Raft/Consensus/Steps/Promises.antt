-- ===== src/Raft/Consensus/Steps/Promises.antt =====
-- raft/consensus.rs: what binds a node to the candidate it voted for, and that no operation unbinds it.
use murmur.Prelude.{◌+◌, ◌^◌, ◌<◌, ◌≡◌, refl, ◌⊎◌, Option, none, some, arith}
use murmur.Prelude.Maps.{insert_set}
use murmur.Raft.Types.{Term, LogIndex, NodeId, Bytes}
use murmur.Raft.Log
use murmur.Raft.Config.{Instant, Draw}
use murmur.Raft.Rpc.{
  RequestVoteArgs, RequestVoteReply, AppendEntriesArgs, AppendEntriesReply, InstallSnapshotArgs,
  InstallSnapshotReply,
}
use murmur.Raft.Consensus.State.{
  ConsensusModule, restore, persist, step_down, become_leader, maybe_become_leader,
}
use murmur.Raft.Consensus.Election.{
  start_pre_election, record_pre_vote_reply, campaign, start_election, record_vote_reply, cast_vote,
  handle_request_vote, yield_to,
}
use murmur.Raft.Consensus.Follower.{follow, accept, handle_append_entries}
use murmur.Raft.Consensus.Leader.{
  maybe_advance_commit, advance_peer, submit_command, handle_append_reply,
  handle_install_snapshot_reply,
}
use murmur.Raft.Consensus.Leader.Commit.{maybe_advance_commit-Advanced}
use murmur.Raft.Consensus.Compaction.{take_applies, snapshot, install, handle_install_snapshot}
use murmur.Raft.Consensus.Steps.{Event, exec, Fit, Steps, done, next}
use murmur.Raft.Consensus.Steps.Saves.{Durable}
use murmur.Raft.Consensus.Steps.Durable.{reboot_lem, exec-Durable}

-- The node is past the term, or in it and bound to the candidate.
abbrev pub HasVoted : Term → NodeId → ConsensusModule → Type 0
HasVoted t c cm = (t < cm.current_term) ⊎ ((cm.current_term ≡ t) × (cm.voted_for ≡ some c))

module _ (t : Term) (c : NodeId) (cm : ConsensusModule) (h : HasVoted t c cm) where
  step_down-HasVoted : (term : Term) → HasVoted t c (step_down cm term)
  unfolding step_down persist
  step_down-HasVoted term = ground (arith, h)

  yield_to-HasVoted : (term : Term) → HasVoted t c (yield_to cm term)
  unfolding yield_to
  yield_to-HasVoted term = step_down-HasVoted term

  maybe_become_leader-HasVoted : HasVoted t c (maybe_become_leader cm)
  unfolding maybe_become_leader become_leader
  maybe_become_leader-HasVoted = ground (arith, h)

  cast_vote-HasVoted :
      (args : RequestVoteArgs) (now : Instant) (draw : Draw)
      → HasVoted t c (cast_vote cm args now draw).0
  unfolding cast_vote persist
  cast_vote-HasVoted args now draw = ground (arith, h)

  follow-HasVoted :
      (term : Term) (leader_id : NodeId) (now : Instant) (draw : Draw)
      → HasVoted t c (follow cm term leader_id now draw)
  unfolding follow
  follow-HasVoted term leader_id now draw = ground (arith, h, step_down-HasVoted term)

  accept-HasVoted : (args : AppendEntriesArgs) → HasVoted t c (accept cm args)
  unfolding accept persist
  accept-HasVoted args = ground (arith, h)

  maybe_advance_commit-HasVoted : HasVoted t c (maybe_advance_commit cm)
  maybe_advance_commit-HasVoted = let a = maybe_advance_commit-Advanced cm in rw a.only_commit h

module _ (t : Term) (c : NodeId) (cm : ConsensusModule) (h : HasVoted t c cm) where
  advance_peer-HasVoted :
      (peer : NodeId) (hint : LogIndex) → HasVoted t c (advance_peer cm peer hint)
  unfolding advance_peer
  advance_peer-HasVoted peer hint = maybe_advance_commit-HasVoted t c _ h

  campaign-HasVoted :
      (now : Instant) (draw : Draw)
      → cm.current_term + 1 < 2 ^ 64
      → HasVoted t c (campaign cm now draw)
  unfolding campaign persist
  campaign-HasVoted now draw room = ground (arith, h)

  pub start_election-HasVoted :
      (now : Instant) (draw : Draw)
      → cm.current_term + 1 < 2 ^ 64
      → HasVoted t c (start_election cm now draw).0
  unfolding start_election
  start_election-HasVoted now draw room =
      maybe_become_leader-HasVoted t c (campaign cm now draw) (campaign-HasVoted now draw room)

  record_pre_vote_reply-HasVoted :
      (from : NodeId) (reply : RequestVoteReply)
      → HasVoted t c (record_pre_vote_reply cm from reply)
  unfolding record_pre_vote_reply
  record_pre_vote_reply-HasVoted from reply =
      ground (arith, h, yield_to-HasVoted t c cm h reply.term)

  pub record_vote_reply-HasVoted :
      (from : NodeId) (reply : RequestVoteReply) → HasVoted t c (record_vote_reply cm from reply)
  unfolding record_vote_reply
  record_vote_reply-HasVoted from reply = ground (
    arith,
    h,
    yield_to-HasVoted t c cm h reply.term,
    maybe_become_leader-HasVoted t c (record cm { votes = insert_set from cm.votes }) h,
  )

  pub handle_request_vote-HasVoted :
      (args : RequestVoteArgs) (now : Instant) (draw : Draw)
      → HasVoted t c (handle_request_vote cm args now draw).0
  unfolding handle_request_vote
  handle_request_vote-HasVoted args now draw = ground (
    arith,
    h,
    cast_vote-HasVoted t c cm h args now draw,
    cast_vote-HasVoted t c (step_down cm args.term) (step_down-HasVoted t c cm h args.term) args now
        draw,
  )

  handle_append_entries-HasVoted :
      (args : AppendEntriesArgs) (now : Instant) (draw : Draw)
      → HasVoted t c (handle_append_entries cm args now draw).0
  unfolding handle_append_entries
  handle_append_entries-HasVoted args now draw =
      let f = follow-HasVoted t c cm h args.term args.leader_id now draw in
      ground (arith, h, f, accept-HasVoted t c (follow cm args.term args.leader_id now draw) f args)

  handle_install_snapshot-HasVoted :
      (args : InstallSnapshotArgs) (now : Instant) (draw : Draw)
      → HasVoted t c (handle_install_snapshot cm args now draw).0
  unfolding handle_install_snapshot install persist
  handle_install_snapshot-HasVoted args now draw =
      ground (arith, h, follow-HasVoted t c cm h args.term args.leader_id now draw)

  handle_append_reply-HasVoted :
      (peer : NodeId) (reply : AppendEntriesReply) (hint : LogIndex)
      → HasVoted t c (handle_append_reply cm peer reply hint)
  unfolding handle_append_reply
  handle_append_reply-HasVoted peer reply hint =
      ground (arith, h, yield_to-HasVoted t c cm h reply.term, advance_peer-HasVoted peer hint)

  handle_install_snapshot_reply-HasVoted :
      (peer : NodeId) (reply : InstallSnapshotReply) (index : LogIndex)
      → HasVoted t c (handle_install_snapshot_reply cm peer reply index)
  unfolding handle_install_snapshot_reply
  handle_install_snapshot_reply-HasVoted peer reply index =
      ground (arith, h, yield_to-HasVoted t c cm h reply.term, advance_peer-HasVoted peer index)

  submit_command-HasVoted : (command : Bytes) → HasVoted t c (submit_command cm command).0
  unfolding submit_command
  submit_command-HasVoted command =
      let grown = record cm {
        log = (Log.append cm.log (record { term = cm.current_term; command = command })).0;
      } in
      ground (arith, h, maybe_advance_commit-HasVoted t c (persist grown) (unfold persist in h))

  snapshot-HasVoted :
      (index : LogIndex) (bytes : Bytes) (cm' : ConsensusModule) (found : Option Term)
      → Log.term_at cm.log index ≡ found
      → snapshot cm index bytes ≡ some cm'
      → HasVoted t c cm'
  unfolding snapshot persist
  snapshot-HasVoted index bytes cm' none at e = ground (arith, h, e, at)
  snapshot-HasVoted index bytes cm' (some u) at e = ground (arith, h, e, at)

  apply-HasVoted : (cm' : ConsensusModule) → exec cm Event.apply ≡ some cm' → HasVoted t c cm'
  unfolding exec take_applies
  apply-HasVoted cm' e = ground (arith, h, e)

  restart-HasVoted :
      (cm' : ConsensusModule) (now : Instant) (draw : Draw)
      → Fit cm
      → Durable cm
      → exec cm (Event.restart now draw) ≡ some cm'
      → HasVoted t c cm'
  unfolding exec restore
  restart-HasVoted cm' now draw f d e = ground (arith, h, e, reboot_lem cm now draw f.encodable d)

pub exec-HasVoted :
    (t : Term) (c : NodeId) (cm cm' : ConsensusModule) (e : Event)
    → Fit cm
    → Durable cm
    → HasVoted t c cm
    → exec cm e ≡ some cm'
    → HasVoted t c cm'
unfolding exec
exec-HasVoted t c cm cm' (Event.restart now draw) f d h r =
    restart-HasVoted t c cm h cm' now draw f d r
exec-HasVoted t c cm cm' Event.apply f d h r = apply-HasVoted t c cm h cm' r
exec-HasVoted t c cm cm' (Event.compact index bytes) f d h r =
    snapshot-HasVoted t c cm h index bytes cm' _ refl r
exec-HasVoted t c cm cm' (Event.probe now draw) f d h r =
    unfold start_pre_election in ground (arith, r, h)
exec-HasVoted t c cm cm' (Event.campaign now draw) f d h r =
    ground (arith, r, start_election-HasVoted t c cm h now draw f.next_term)
exec-HasVoted t c cm cm' (Event.vote_request args now draw) f d h r =
    ground (arith, r, handle_request_vote-HasVoted t c cm h args now draw)
exec-HasVoted t c cm cm' (Event.pre_vote_reply from reply) f d h r =
    ground (arith, r, record_pre_vote_reply-HasVoted t c cm h from reply)
exec-HasVoted t c cm cm' (Event.vote_reply from reply) f d h r =
    ground (arith, r, record_vote_reply-HasVoted t c cm h from reply)
exec-HasVoted t c cm cm' (Event.append_request args now draw) f d h r =
    ground (arith, r, handle_append_entries-HasVoted t c cm h args now draw)
exec-HasVoted t c cm cm' (Event.append_reply peer reply hint) f d h r =
    ground (arith, r, handle_append_reply-HasVoted t c cm h peer reply hint)
exec-HasVoted t c cm cm' (Event.install_request args now draw) f d h r =
    ground (arith, r, handle_install_snapshot-HasVoted t c cm h args now draw)
exec-HasVoted t c cm cm' (Event.install_reply peer reply index) f d h r =
    ground (arith, r, handle_install_snapshot_reply-HasVoted t c cm h peer reply index)
exec-HasVoted t c cm cm' (Event.submit command) f d h r =
    ground (arith, r, submit_command-HasVoted t c cm h command)

pub Steps-HasVoted :
    (t : Term) (c : NodeId) {cm cm' : ConsensusModule}
    → Steps cm cm'
    → Durable cm
    → HasVoted t c cm
    → HasVoted t c cm'
Steps-HasVoted t c done d h = h
Steps-HasVoted t c (next e f r later) d h =
    Steps-HasVoted t c later (exec-Durable _ _ e f d r) (exec-HasVoted t c _ _ e f d h r)
