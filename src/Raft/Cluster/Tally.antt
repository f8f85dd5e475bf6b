-- ===== src/Raft/Cluster/Tally.antt =====
-- raft/consensus.rs: only a campaign and the answers to it change who has voted for a node.
use murmur.Prelude.{
  ◌+◌, ◌/◌, ◌≡◌, refl, ◌⊎◌, Bool, true, false, Option, none, some, List, length, arith,
}
use murmur.Raft.Types.{Term, LogIndex, NodeId, Bytes, follower}
use murmur.Raft.Log
use murmur.Raft.Storage
use murmur.Raft.Storage.{Storage}
use murmur.Raft.Config.{Instant, Draw}
use murmur.Raft.Rpc.{
  RequestVoteArgs, RequestVoteReply, AppendEntriesArgs, AppendEntriesReply, InstallSnapshotArgs,
  InstallSnapshotReply,
}
use murmur.Raft.Consensus.State.{ConsensusModule, restore, persist, persistent, step_down}
use murmur.Raft.Consensus.Election.{
  start_pre_election, record_pre_vote_reply, cast_vote, handle_request_vote, yield_to,
}
use murmur.Raft.Consensus.Follower.{follow, accept, handle_append_entries}
use murmur.Raft.Consensus.Leader.{
  maybe_advance_commit, advance_peer, submit_command, handle_append_reply,
  handle_install_snapshot_reply,
}
use murmur.Raft.Consensus.Leader.Commit.{maybe_advance_commit-Advanced}
use murmur.Raft.Consensus.Compaction.{take_applies, snapshot, install, handle_install_snapshot}
use murmur.Raft.Consensus.Steps.{Event, exec, Fit}
use murmur.Raft.Consensus.Steps.Saves.{Durable}
use murmur.Raft.Consensus.Steps.Durable.{reboot_lem}

abbrev pub HasMajority : ConsensusModule → Type 0
HasMajority cm = cm.quorum ≡ (length cm.peers + 1) / 2 + 1

-- The node is the same member of the same cluster, and either follows or stands where it stood.
pub record Quiet (cm cm' : ConsensusModule) : Type 0 where
  pub same_id : cm'.id ≡ cm.id
  pub same_peers : cm'.peers ≡ cm.peers
  pub majority : HasMajority cm'
  pub tally :
      (cm'.role ≡ follower)
      ⊎ ((cm'.role ≡ cm.role) × (cm'.current_term ≡ cm.current_term) × (cm'.votes ≡ cm.votes))

Quiet-trans : (a b c : ConsensusModule) → Quiet a b → Quiet b c → Quiet a c
Quiet-trans a b c p q = ground arith

module _ (cm : ConsensusModule) (m : HasMajority cm) where
  step_down-Quiet : (term : Term) → Quiet cm (step_down cm term)
  unfolding step_down persist
  step_down-Quiet term = ground (arith, m)

  pub yield_to-Quiet : (term : Term) → Quiet cm (yield_to cm term)
  unfolding yield_to
  yield_to-Quiet term = ground (arith, m, step_down-Quiet term)

  cast_vote-Quiet :
      (args : RequestVoteArgs) (now : Instant) (draw : Draw)
      → Quiet cm (cast_vote cm args now draw).0
  unfolding cast_vote persist
  cast_vote-Quiet args now draw = ground (arith, m)

  follow-Quiet :
      (term : Term) (leader_id : NodeId) (now : Instant) (draw : Draw)
      → Quiet cm (follow cm term leader_id now draw)
  unfolding follow
  follow-Quiet term leader_id now draw = ground (arith, m, step_down-Quiet term)

  accept-Quiet : (args : AppendEntriesArgs) → Quiet cm (accept cm args)
  unfolding accept persist
  accept-Quiet args = ground (arith, m)

  maybe_advance_commit-Quiet : Quiet cm (maybe_advance_commit cm)
  maybe_advance_commit-Quiet =
      let a = maybe_advance_commit-Advanced cm in rw a.only_commit (ground (arith, m))

  probe-Quiet : (now : Instant) (draw : Draw) → Quiet cm (start_pre_election cm now draw).0
  unfolding start_pre_election
  probe-Quiet now draw = ground (arith, m)

  same-Quiet : Quiet cm cm
  same-Quiet = ground (arith, m)

  commit-Quiet :
      (log : Log.Log) (next matched : List (NodeId × LogIndex)) (storage : Storage)
      → Quiet cm (
          maybe_advance_commit
            (record cm { log = log; next_index = next; match_index = matched; storage = storage }))
  commit-Quiet log next matched storage =
      let moved = record cm {
        log = log;
        next_index = next;
        match_index = matched;
        storage = storage;
      } in
      let a = maybe_advance_commit-Advanced moved in rw a.only_commit (ground (arith, m))

  advance_peer-Quiet : (peer : NodeId) (hint : LogIndex) → Quiet cm (advance_peer cm peer hint)
  unfolding advance_peer
  advance_peer-Quiet peer hint = commit-Quiet cm.log _ _ cm.storage

  record_pre_vote_reply-Quiet :
      (from : NodeId) (reply : RequestVoteReply) → Quiet cm (record_pre_vote_reply cm from reply)
  unfolding record_pre_vote_reply
  record_pre_vote_reply-Quiet from reply = ground (arith, m, yield_to-Quiet reply.term)

  submit_command-Quiet : (command : Bytes) → Quiet cm (submit_command cm command).0
  unfolding submit_command persist
  submit_command-Quiet command =
      let log = (Log.append cm.log (record { term = cm.current_term; command = command })).0 in
      let saved = (Storage.save cm.storage (record (persistent cm) { log = log })).0 in
      ground (arith, m, commit-Quiet log cm.next_index cm.match_index saved)

  handle_append_reply-Quiet :
      (peer : NodeId) (reply : AppendEntriesReply) (hint : LogIndex)
      → Quiet cm (handle_append_reply cm peer reply hint)
  unfolding handle_append_reply
  handle_append_reply-Quiet peer reply hint =
      ground (arith, m, yield_to-Quiet reply.term, advance_peer-Quiet peer hint)

  handle_install_snapshot_reply-Quiet :
      (peer : NodeId) (reply : InstallSnapshotReply) (index : LogIndex)
      → Quiet cm (handle_install_snapshot_reply cm peer reply index)
  unfolding handle_install_snapshot_reply
  handle_install_snapshot_reply-Quiet peer reply index =
      ground (arith, m, yield_to-Quiet reply.term, advance_peer-Quiet peer index)

  apply-Quiet : (cm' : ConsensusModule) → exec cm Event.apply ≡ some cm' → Quiet cm cm'
  unfolding exec take_applies
  apply-Quiet cm' e = ground (arith, m, e)

  snapshot-Quiet :
      (index : LogIndex) (bytes : Bytes) (cm' : ConsensusModule) (found : Option Term)
      → Log.term_at cm.log index ≡ found
      → snapshot cm index bytes ≡ some cm'
      → Quiet cm cm'
  unfolding snapshot persist
  snapshot-Quiet index bytes cm' none at e = ground (arith, m, e, at)
  snapshot-Quiet index bytes cm' (some u) at e = ground (arith, m, e, at)

  restart-Quiet :
      (cm' : ConsensusModule) (now : Instant) (draw : Draw)
      → Fit cm
      → Durable cm
      → exec cm (Event.restart now draw) ≡ some cm'
      → Quiet cm cm'
  unfolding exec restore
  restart-Quiet cm' now draw f d e = ground (arith, e, reboot_lem cm now draw f.encodable d)

  pub handle_request_vote-Quiet :
      (args : RequestVoteArgs) (now : Instant) (draw : Draw)
      → Quiet cm (handle_request_vote cm args now draw).0
  unfolding handle_request_vote
  handle_request_vote-Quiet args now draw =
      let s = step_down-Quiet args.term in
      ground (
        arith,
        m,
        cast_vote-Quiet args now draw,
        s,
        Quiet-trans cm (step_down cm args.term) (cast_vote (step_down cm args.term) args now draw).0
            s,
      )

module _ (cm : ConsensusModule) (m : HasMajority cm) where
  handle_append_entries-Quiet :
      (args : AppendEntriesArgs) (now : Instant) (draw : Draw)
      → Quiet cm (handle_append_entries cm args now draw).0
  unfolding handle_append_entries
  handle_append_entries-Quiet args now draw =
      let followed = follow cm args.term args.leader_id now draw in
      let f = follow-Quiet cm m args.term args.leader_id now draw in
      let a = accept-Quiet followed f.majority args in
      ground (arith, f, Quiet-trans cm followed (accept followed args) f a)

  handle_install_snapshot-Quiet :
      (args : InstallSnapshotArgs) (now : Instant) (draw : Draw)
      → Quiet cm (handle_install_snapshot cm args now draw).0
  unfolding handle_install_snapshot install persist
  handle_install_snapshot-Quiet args now draw =
      let f = follow-Quiet cm m args.term args.leader_id now draw in ground (arith, f)

-- The local events that are no campaign.
abbrev pub is_quiet : Event → Bool
is_quiet (Event.vote_request args now draw) = false
is_quiet (Event.vote_reply from reply) = false
is_quiet (Event.campaign now draw) = false
is_quiet _ = true

pub exec-Quiet :
    (cm cm' : ConsensusModule) (e : Event)
    → HasMajority cm
    → Fit cm
    → Durable cm
    → is_quiet e ≡ true
    → exec cm e ≡ some cm'
    → Quiet cm cm'
unfolding exec
exec-Quiet cm cm' (Event.vote_request args now draw) m f d q r = cc
exec-Quiet cm cm' (Event.vote_reply from reply) m f d q r = cc
exec-Quiet cm cm' (Event.campaign now draw) m f d q r = cc
exec-Quiet cm cm' (Event.restart now draw) m f d q r = restart-Quiet cm m cm' now draw f d r
exec-Quiet cm cm' Event.apply m f d q r = apply-Quiet cm m cm' r
exec-Quiet cm cm' (Event.compact index bytes) m f d q r =
    snapshot-Quiet cm m index bytes cm' _ refl r
exec-Quiet cm cm' (Event.probe now draw) m f d q r = ground (arith, r, probe-Quiet cm m now draw)
exec-Quiet cm cm' (Event.pre_vote_reply from reply) m f d q r =
    ground (arith, r, record_pre_vote_reply-Quiet cm m from reply)
exec-Quiet cm cm' (Event.append_request args now draw) m f d q r =
    ground (arith, r, handle_append_entries-Quiet cm m args now draw)
exec-Quiet cm cm' (Event.append_reply peer reply hint) m f d q r =
    ground (arith, r, handle_append_reply-Quiet cm m peer reply hint)
exec-Quiet cm cm' (Event.install_request args now draw) m f d q r =
    ground (arith, r, handle_install_snapshot-Quiet cm m args now draw)
exec-Quiet cm cm' (Event.install_reply peer reply index) m f d q r =
    ground (arith, r, handle_install_snapshot_reply-Quiet cm m peer reply index)
exec-Quiet cm cm' (Event.submit command) m f d q r =
    ground (arith, r, submit_command-Quiet cm m command)
