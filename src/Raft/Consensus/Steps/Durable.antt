-- ===== src/Raft/Consensus/Steps/Durable.antt =====
-- raft/consensus.rs: what a node holds in memory is what its storage holds, after every operation.
use murmur.Prelude.{◌≡◌, refl, Option, none, some, arith}
use murmur.Prelude.Maps.{insert_set}
use murmur.Raft.Types.{Term, LogIndex, NodeId, Bytes}
use murmur.Raft.Log
use murmur.Raft.StateFile.RoundTrip.{Encodable}
use murmur.Raft.Storage.Holds.{load-Holds}
use murmur.Raft.Config.{Instant, Draw}
use murmur.Raft.Rpc.{
  RequestVoteArgs, RequestVoteReply, AppendEntriesArgs, AppendEntriesReply, InstallSnapshotArgs,
  InstallSnapshotReply,
}
use murmur.Raft.Consensus.State.{ConsensusModule, restore, new, persist, persistent, step_down}
use murmur.Raft.Consensus.Election.{
  record_pre_vote_reply, campaign, start_election, record_vote_reply, handle_request_vote,
}
use murmur.Raft.Consensus.Follower.{follow, handle_append_entries}
use murmur.Raft.Consensus.Leader.{
  advance_peer, submit_command, handle_append_reply, handle_install_snapshot_reply,
}
use murmur.Raft.Consensus.Steps.{Event, reboot, exec, Fit}
use murmur.Raft.Consensus.Compaction.{take_applies, snapshot, handle_install_snapshot}
use murmur.Raft.Consensus.Steps.Saves.{
  Durable, persist-Durable, reliable, step_down-Durable, start_pre_election-Durable,
  campaign-Durable, yield_to-Durable, maybe_become_leader-Durable, cast_vote-Durable,
  follow-Durable, accept-Durable, install-Durable, maybe_advance_commit-Durable,
}

module _ (cm : ConsensusModule) (d : Durable cm) where
  advance_peer-Durable : (peer : NodeId) (hint : LogIndex) → Durable (advance_peer cm peer hint)
  unfolding advance_peer
  advance_peer-Durable peer hint = maybe_advance_commit-Durable _ d

  pub start_election-Durable :
      (now : Instant) (draw : Draw) → Durable (start_election cm now draw).0
  unfolding start_election
  start_election-Durable now draw =
      maybe_become_leader-Durable (campaign cm now draw) (campaign-Durable cm d now draw)

  record_pre_vote_reply-Durable :
      (from : NodeId) (reply : RequestVoteReply) → Durable (record_pre_vote_reply cm from reply)
  unfolding record_pre_vote_reply
  record_pre_vote_reply-Durable from reply = ground (arith, d, yield_to-Durable cm d reply.term)

  pub record_vote_reply-Durable :
      (from : NodeId) (reply : RequestVoteReply) → Durable (record_vote_reply cm from reply)
  unfolding record_vote_reply
  record_vote_reply-Durable from reply = ground (
    arith,
    d,
    yield_to-Durable cm d reply.term,
    maybe_become_leader-Durable (record cm { votes = insert_set from cm.votes }) d,
  )

  pub handle_request_vote-Durable :
      (args : RequestVoteArgs) (now : Instant) (draw : Draw)
      → Durable (handle_request_vote cm args now draw).0
  unfolding handle_request_vote
  handle_request_vote-Durable args now draw = ground (
    arith,
    d,
    cast_vote-Durable cm d args now draw,
    cast_vote-Durable (step_down cm args.term) (step_down-Durable cm d args.term) args now draw,
  )

  handle_append_entries-Durable :
      (args : AppendEntriesArgs) (now : Instant) (draw : Draw)
      → Durable (handle_append_entries cm args now draw).0
  unfolding handle_append_entries
  handle_append_entries-Durable args now draw =
      let f = follow-Durable cm d args.term args.leader_id now draw in
      ground (arith, d, f, accept-Durable (follow cm args.term args.leader_id now draw) f args)

  handle_install_snapshot-Durable :
      (args : InstallSnapshotArgs) (now : Instant) (draw : Draw)
      → Durable (handle_install_snapshot cm args now draw).0
  unfolding handle_install_snapshot
  handle_install_snapshot-Durable args now draw =
      let f = follow-Durable cm d args.term args.leader_id now draw in
      ground (arith, d, f, install-Durable (follow cm args.term args.leader_id now draw) f args)

  handle_append_reply-Durable :
      (peer : NodeId) (reply : AppendEntriesReply) (hint : LogIndex)
      → Durable (handle_append_reply cm peer reply hint)
  unfolding handle_append_reply
  handle_append_reply-Durable peer reply hint =
      ground (arith, d, yield_to-Durable cm d reply.term, advance_peer-Durable peer hint)

  handle_install_snapshot_reply-Durable :
      (peer : NodeId) (reply : InstallSnapshotReply) (index : LogIndex)
      → Durable (handle_install_snapshot_reply cm peer reply index)
  unfolding handle_install_snapshot_reply
  handle_install_snapshot_reply-Durable peer reply index =
      ground (arith, d, yield_to-Durable cm d reply.term, advance_peer-Durable peer index)

  submit_command-Durable : (command : Bytes) → Durable (submit_command cm command).0
  unfolding submit_command
  submit_command-Durable command =
      let grown = record cm {
        log = (Log.append cm.log (record { term = cm.current_term; command = command })).0;
      } in
      ground (
        arith,
        d,
        maybe_advance_commit-Durable (persist grown) (persist-Durable grown (reliable cm d)),
      )

  apply-Durable : (cm' : ConsensusModule) → exec cm Event.apply ≡ some cm' → Durable cm'
  unfolding exec take_applies
  apply-Durable cm' e = ground (arith, d, e)

  compact-Durable :
      (index : LogIndex) (bytes : Bytes) (t : Term)
      → Durable (persist (record cm { log = Log.compact cm.log index t; snapshot = some bytes }))
  compact-Durable index bytes t = persist-Durable _ (reliable cm d)

  snapshot_at-Durable :
      (index : LogIndex) (bytes : Bytes) (cm' : ConsensusModule) (found : Option Term)
      → Log.term_at cm.log index ≡ found
      → snapshot cm index bytes ≡ some cm'
      → Durable cm'
  unfolding snapshot
  snapshot_at-Durable index bytes cm' none at e = ground (arith, d, e, at)
  snapshot_at-Durable index bytes cm' (some t) at e =
      ground (arith, d, e, at, compact-Durable index bytes t)

-- A restart finds the persistent state as it was.
pub reboot_lem :
    (cm : ConsensusModule) (now : Instant) (draw : Draw)
    → Encodable (persistent cm)
    → Durable cm
    → reboot cm now draw
      ≡ some (restore cm.id cm.peers cm.storage cm.timing now draw (persistent cm))
unfolding reboot new
reboot_lem cm now draw e d = ground (arith, load-Holds cm.storage (persistent cm) e d)

restore-Durable :
    (cm : ConsensusModule) (now : Instant) (draw : Draw)
    → Durable cm
    → Durable (restore cm.id cm.peers cm.storage cm.timing now draw (persistent cm))
unfolding restore
restore-Durable cm now draw d = d

-- For a state that fits its integers and its file format, and a storage that works and holds it:
-- after any event that the node survives, a restart included, its storage works and holds its new
-- state.
pub exec-Durable :
    (cm cm' : ConsensusModule) (e : Event)
    → Fit cm
    → Durable cm
    → exec cm e ≡ some cm'
    → Durable cm'
unfolding exec
exec-Durable cm cm' (Event.restart now draw) f d r =
    ground (arith, r, reboot_lem cm now draw f.encodable d, restore-Durable cm now draw d)
exec-Durable cm cm' Event.apply f d r = apply-Durable cm d cm' r
exec-Durable cm cm' (Event.compact index bytes) f d r =
    snapshot_at-Durable cm d index bytes cm' _ refl r
exec-Durable cm cm' (Event.probe now draw) f d r =
    ground (arith, r, start_pre_election-Durable cm d now draw)
exec-Durable cm cm' (Event.campaign now draw) f d r =
    ground (arith, r, start_election-Durable cm d now draw)
exec-Durable cm cm' (Event.vote_request args now draw) f d r =
    ground (arith, r, handle_request_vote-Durable cm d args now draw)
exec-Durable cm cm' (Event.pre_vote_reply from reply) f d r =
    ground (arith, r, record_pre_vote_reply-Durable cm d from reply)
exec-Durable cm cm' (Event.vote_reply from reply) f d r =
    ground (arith, r, record_vote_reply-Durable cm d from reply)
exec-Durable cm cm' (Event.append_request args now draw) f d r =
    ground (arith, r, handle_append_entries-Durable cm d args now draw)
exec-Durable cm cm' (Event.append_reply peer reply hint) f d r =
    ground (arith, r, handle_append_reply-Durable cm d peer reply hint)
exec-Durable cm cm' (Event.install_request args now draw) f d r =
    ground (arith, r, handle_install_snapshot-Durable cm d args now draw)
exec-Durable cm cm' (Event.install_reply peer reply index) f d r =
    ground (arith, r, handle_install_snapshot_reply-Durable cm d peer reply index)
exec-Durable cm cm' (Event.submit command) f d r =
    ground (arith, r, submit_command-Durable cm d command)
