-- ===== src/Raft/Driver.antt =====
-- raft/node.rs: the driver of a node. A tick decides under the lock what to send; the tasks that send
-- it fold the answers back later, each under a lock of its own, and so are functions of their own.
-- `none` as an answer is a call that failed, and as a result a panic.
pub mod Sending
pub mod Ticks
pub mod Rounds
mod Runs
use murmur.Prelude.{
  ℕ, ◌+◌, ◌-◌, Bool, true, false, not, ◌||◌, Option, none, some, List, [], ◌∷◌, length, leb,
  if◌then◌else◌, u64,
}
use murmur.Raft.Types.{NodeId, LogIndex, Bytes, Apply}
use murmur.Raft.Config.{Timing, Instant, Duration, Draw, from_millis}
use murmur.Raft.Rpc.{
  RequestVoteArgs, RequestVoteReply, AppendEntriesArgs, AppendEntriesReply, InstallSnapshotArgs,
  InstallSnapshotReply,
}
use murmur.Raft.Consensus.State.{
  ConsensusModule, is_leader_role, needs_snapshot, election_timed_out,
}
use murmur.Raft.Consensus.Election
use murmur.Raft.Consensus.Election.{record_pre_vote_reply, pre_vote_succeeded, record_vote_reply}
use murmur.Raft.Consensus.Leader.{
  append_args_for, submit_command, handle_append_reply, handle_install_snapshot_reply,
}
use murmur.Raft.Consensus.Compaction.{install_snapshot_args, take_applies}

abbrev pub tick_interval : Duration
tick_interval = from_millis 15

pub data Outgoing : Type 0 where
  append : AppendEntriesArgs → Outgoing
  snapshot : InstallSnapshotArgs → Outgoing

pub data Step : Type 0 where
  start_pre_election start_election : RequestVoteArgs → Step
  replicate : List (NodeId × Outgoing) → Step
  idle : Step

-- What the task of the driver owns, beside the core that it shares.
pub record Driver : Type 0 where
  pub core : ConsensusModule
  pub peer_ids : List NodeId
  pub timing : Timing
  pub last_heartbeat : Instant

-- `entries.is_empty()`
abbrev pub is_empty : {A : Type 0} → List A → Bool
is_empty [] = true
is_empty (x ∷ xs) = false

-- The driver at its start. The instant is late enough for the subtraction.
unfoldable pub launch : ConsensusModule → List NodeId → Timing → Instant → Driver
launch core peer_ids timing now = record {
  core = core;
  peer_ids = peer_ids;
  timing = timing;
  last_heartbeat = now - timing.heartbeat;
}

abbrev pub heartbeat_due : Driver → Instant → Bool
heartbeat_due d now = leb d.timing.heartbeat (now - d.last_heartbeat)

-- The closure of `filter_map`.
unfoldable pub message_for : ConsensusModule → Bool → NodeId → Option Outgoing
message_for core due peer =
    if needs_snapshot core peer
    then (if due then some (Outgoing.snapshot (install_snapshot_args core peer)) else none)
    else if due || not (is_empty (append_args_for core peer).entries)
    then some (Outgoing.append (append_args_for core peer))
    else none

pub push_message : NodeId → Option Outgoing → List (NodeId × Outgoing) → List (NodeId × Outgoing)
push_message peer none rest = rest
push_message peer (some o) rest = (peer, o) ∷ rest

unfoldable pub messages : ConsensusModule → Bool → List NodeId → List (NodeId × Outgoing)
unfolding push_message
messages core due [] = []
messages core due (peer ∷ peers) =
    push_message peer (message_for core due peer) (messages core due peers)

-- The leader's arm.
unfoldable pub replicate_or_idle : Driver → Instant → List (NodeId × Outgoing) → Driver × Step
replicate_or_idle d now [] = (d, Step.idle)
replicate_or_idle d now (m ∷ ms) =
    (if heartbeat_due d now then record d { last_heartbeat = now } else d, Step.replicate (m ∷ ms))

unfoldable pub decide : Driver → Instant → Draw → Driver × Step
unfolding replicate_or_idle
decide d now draw =
    if is_leader_role d.core.role
    then replicate_or_idle d now (messages d.core (heartbeat_due d now) d.peer_ids)
    else if pre_vote_succeeded d.core
    then (let (core, args) = Election.start_election d.core now draw in
        (record d { core = core }, Step.start_election args))
    else if election_timed_out d.core now
    then (let (core, args) = Election.start_pre_election d.core now draw in
        (record d { core = core }, Step.start_pre_election args))
    else (d, Step.idle)

-- The end of a round, under a lock of its own: the apply stream is drained.
unfoldable pub hand_over : Driver → Option (Driver × List Apply)
hand_over d = elim (take_applies d.core) [
  | none ↦ none
  | some (core, applied) ↦ some (record d { core = core }, applied)
]

-- The ends of the four kinds of task, with the answer of the peer.
unfoldable pub on_pre_vote : ConsensusModule → NodeId → Option RequestVoteReply → ConsensusModule
on_pre_vote core peer none = core
on_pre_vote core peer (some reply) = record_pre_vote_reply core peer reply

unfoldable pub on_vote : ConsensusModule → NodeId → Option RequestVoteReply → ConsensusModule
on_vote core peer none = core
on_vote core peer (some reply) = record_vote_reply core peer reply

-- How far the message advances the peer's log if it is accepted.
abbrev pub match_hint : AppendEntriesArgs → LogIndex
match_hint args = u64 (args.prev_log_index + length args.entries)

unfoldable pub on_append :
    ConsensusModule → NodeId → AppendEntriesArgs → Option AppendEntriesReply → ConsensusModule
on_append core peer args none = core
on_append core peer args (some reply) = handle_append_reply core peer reply (match_hint args)

unfoldable pub on_snapshot :
    ConsensusModule → NodeId → InstallSnapshotArgs → Option InstallSnapshotReply → ConsensusModule
on_snapshot core peer args none = core
on_snapshot core peer args (some reply) =
    handle_install_snapshot_reply core peer reply args.last_included_index

-- `NodeHandle::propose`
unfoldable pub propose : ConsensusModule → Bytes → ConsensusModule × Option LogIndex
propose core command = submit_command core command
