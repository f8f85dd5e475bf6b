-- ===== src/Raft/Consensus/Compaction.antt =====
-- raft/consensus.rs: snapshots, and the entries handed to the state machine. `none` is a panic: the
-- `expect` on an entry that the log does not hold.
pub mod Applies
pub mod Snapshots
use murmur.Prelude.{
  ℕ, zero, suc, ◌+◌, ◌-◌, Bool, true, false, not, ◌&&◌, ◌||◌, Option, none, some, List, [], ◌∷◌,
  ◌++◌, length, ltb, leb, ◌==◌, if◌then◌else◌,
}
use murmur.Raft.Types.{Term, LogIndex, NodeId, Bytes, LogEntry, Applied, Snapshot, Apply}
use murmur.Raft.Log
use murmur.Raft.Rpc.{InstallSnapshotArgs, InstallSnapshotReply}
use murmur.Raft.Config.{Instant, Draw}
use murmur.Raft.Consensus.State.{ConsensusModule, persist}
use murmur.Raft.Consensus.Follower.{follow}

-- The rest of `snapshot`, with the term of the entry at `index`.
snapshot_at : ConsensusModule → LogIndex → Bytes → Option Term → Option ConsensusModule
unfolding persist
snapshot_at cm index bytes none = none
snapshot_at cm index bytes (some term) =
    some (persist (record cm { log = Log.compact cm.log index term; snapshot = some bytes }))

unfoldable pub snapshot : ConsensusModule → LogIndex → Bytes → Option ConsensusModule
unfolding snapshot_at
snapshot cm index bytes =
    if leb index cm.log.snapshot_index || ltb cm.last_applied index
    then some cm
    else snapshot_at cm index bytes (Log.term_at cm.log index)

-- `self.snapshot.clone().unwrap_or_default()`
abbrev pub bytes_or_empty : Option Bytes → Bytes
bytes_or_empty none = []
bytes_or_empty (some bytes) = bytes

unfoldable pub install_snapshot_args : ConsensusModule → NodeId → InstallSnapshotArgs
install_snapshot_args cm peer = record {
  term = cm.current_term;
  leader_id = cm.id;
  last_included_index = cm.log.snapshot_index;
  last_included_term = cm.log.snapshot_term;
  bytes = bytes_or_empty cm.snapshot;
}

-- The part of `handle_install_snapshot` behind the test for a stale snapshot.
unfoldable pub install : ConsensusModule → InstallSnapshotArgs → ConsensusModule
unfolding persist
install cm args =
    let compacted = record cm {
      log = Log.compact cm.log args.last_included_index args.last_included_term;
      snapshot = some args.bytes;
      commit_index = args.last_included_index;
      last_applied = args.last_included_index;
    } in
    record (persist compacted) {
      pending_snapshot = some (record {
        last_included_index = args.last_included_index;
        last_included_term = args.last_included_term;
        bytes = args.bytes;
      });
    }

unfoldable pub handle_install_snapshot :
    ConsensusModule → InstallSnapshotArgs → Instant → Draw → ConsensusModule × InstallSnapshotReply
handle_install_snapshot cm args now draw =
    if ltb args.term cm.current_term
    then (cm, record { term = cm.current_term })
    else let cm' = follow cm args.term args.leader_id now draw in
      if leb args.last_included_index cm'.commit_index
      then (cm', record { term = cm'.current_term })
      else (install cm' args, record { term = cm'.current_term })

unfoldable pub applied_entry : LogIndex → LogEntry → Apply
applied_entry index e = Apply.command (record { index = index; term = e.term; command = e.command })

push_entry : LogIndex → Option LogEntry → Option (List Apply) → Option (List Apply)
unfolding applied_entry
push_entry index (some e) (some out) = some (applied_entry index e ∷ out)
push_entry index _ _ = none

-- The `while` loop of `take_applies`, which makes `rounds` rounds from `last_applied`.
unfoldable pub take_entries : Log.Log → ℕ → LogIndex → Option (List Apply)
unfolding push_entry
take_entries log zero last_applied = some []
take_entries log (suc rounds) last_applied =
    push_entry (last_applied + 1) (Log.get log (last_applied + 1))
      (take_entries log rounds (last_applied + 1))

-- The pending snapshot goes first.
abbrev pub pending : Option Snapshot → List Apply
pending none = []
pending (some s) = Apply.snapshot s ∷ []

unfoldable pub take_applies : ConsensusModule → Option (ConsensusModule × List Apply)
take_applies cm = elim (take_entries cm.log (cm.commit_index - cm.last_applied) cm.last_applied) [
  | none ↦ none
  | some out ↦ some (
    record cm {
      last_applied = cm.last_applied + (cm.commit_index - cm.last_applied);
      pending_snapshot = none;
    },
    pending cm.pending_snapshot ++ out,
  )
]
