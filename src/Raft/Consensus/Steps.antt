-- ===== src/Raft/Consensus/Steps.antt =====
-- Everything that can happen to a node of raft/consensus.rs, as the driver of raft/node.rs calls it,
-- restarts included: `exec` answers `none` where the code panics or a restart cannot load.
pub mod Saves
pub mod Durable
pub mod Promises
pub mod Votes
pub mod Valid
pub mod Cursor
pub mod Delivery
mod ValidRuns
mod Runs
use murmur.Prelude.{◌+◌, ◌^◌, ◌<◌, ◌≡◌, Option, none, some}
use murmur.Prelude.Result.{Result, ok, err}
use murmur.Raft.Types.{LogIndex, NodeId, Bytes}
use murmur.Raft.StateFile.{Error}
use murmur.Raft.StateFile.RoundTrip.{Encodable}
use murmur.Raft.Config.{Instant, Draw}
use murmur.Raft.Rpc.{
  RequestVoteArgs, RequestVoteReply, AppendEntriesArgs, AppendEntriesReply, InstallSnapshotArgs,
  InstallSnapshotReply,
}
use murmur.Raft.Consensus.State.{ConsensusModule, new, persistent}
use murmur.Raft.Consensus.Election.{
  start_pre_election, record_pre_vote_reply, start_election, record_vote_reply, handle_request_vote,
}
use murmur.Raft.Consensus.Follower.{handle_append_entries}
use murmur.Raft.Consensus.Leader.{
  submit_command, handle_append_reply, handle_install_snapshot_reply,
}
use murmur.Raft.Consensus.Compaction.{take_applies, snapshot, handle_install_snapshot}

pub data Event : Type 0 where
  probe campaign restart : Instant → Draw → Event
  vote_request : RequestVoteArgs → Instant → Draw → Event
  pre_vote_reply vote_reply : NodeId → RequestVoteReply → Event
  append_request : AppendEntriesArgs → Instant → Draw → Event
  append_reply : NodeId → AppendEntriesReply → LogIndex → Event
  install_request : InstallSnapshotArgs → Instant → Draw → Event
  install_reply : NodeId → InstallSnapshotReply → LogIndex → Event
  submit : Bytes → Event
  apply : Event
  compact : LogIndex → Bytes → Event

-- The state that a restart loads, with everything volatile lost.
pub reboot : ConsensusModule → Instant → Draw → Option ConsensusModule
reboot cm now draw = elim (new cm.id cm.peers cm.storage cm.timing now draw) [
  | err e ↦ none
  | ok cm' ↦ some cm'
]

unfoldable pub exec : ConsensusModule → Event → Option ConsensusModule
unfolding reboot
exec cm (Event.probe now draw) = some (start_pre_election cm now draw).0
exec cm (Event.campaign now draw) = some (start_election cm now draw).0
exec cm (Event.restart now draw) = reboot cm now draw
exec cm (Event.vote_request args now draw) = some (handle_request_vote cm args now draw).0
exec cm (Event.pre_vote_reply from reply) = some (record_pre_vote_reply cm from reply)
exec cm (Event.vote_reply from reply) = some (record_vote_reply cm from reply)
exec cm (Event.append_request args now draw) = some (handle_append_entries cm args now draw).0
exec cm (Event.append_reply peer reply hint) = some (handle_append_reply cm peer reply hint)
exec cm (Event.install_request args now draw) = some (handle_install_snapshot cm args now draw).0
exec cm (Event.install_reply peer reply index) =
    some (handle_install_snapshot_reply cm peer reply index)
exec cm (Event.submit command) = some (submit_command cm command).0
exec cm Event.apply = elim (take_applies cm) [ none ↦ none | some (cm', _) ↦ some cm' ]
exec cm (Event.compact index bytes) = snapshot cm index bytes

-- The state fits its machine integers and the format of the file, and a next term exists.
pub record Fit (cm : ConsensusModule) : Type 0 where
  pub encodable : Encodable (persistent cm)
  pub next_term : cm.current_term + 1 < 2 ^ 64

-- What can become of a node while it fits.
pub data Steps : ConsensusModule → ConsensusModule → Type 0 where
  done : {cm : ConsensusModule} → Steps cm cm
  next :
      {cm cm' cm'' : ConsensusModule} (e : Event)
      → Fit cm
      → exec cm e ≡ some cm'
      → Steps cm' cm''
      → Steps cm cm''
