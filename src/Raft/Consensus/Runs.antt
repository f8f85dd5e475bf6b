-- ===== src/Raft/Consensus/Runs.antt =====
-- Runs of the consensus module, and the theorems about it at concrete states.
use murmur.Prelude.{
  ℕ, zero, suc, ◌+◌, ◌≤◌, ◌<◌, ◌≡◌, refl, true, false, none, some, List, [], ◌∷◌, ◌++◌, get_elem?,
  length, arith,
}
use murmur.Prelude.Maps.{lookup, lookup_or}
use murmur.Raft.Types.{LogIndex, Apply}
use murmur.Raft.Log
use murmur.Raft.Log.{Log}
use murmur.Raft.Log.Lookup.{term_of}
use murmur.Raft.Storage
use murmur.Raft.Storage.{Storage, in_memory, file, Fault}
use murmur.Raft.Rpc.{AppendEntriesArgs, AppendEntriesReply, InstallSnapshotArgs}
use murmur.Raft.Consensus.Samples.{entry, draw, long_log, led, behind}
use murmur.Raft.Consensus.State.{ConsensusModule}
use murmur.Raft.Consensus.Invariant.{IsValid}
use murmur.Raft.Consensus.Follower.{follow, splice, is_consistent, accept, handle_append_entries}
use murmur.Raft.Consensus.Follower.Splice.{splice_keeps, AgreesTo}
use murmur.Raft.Consensus.Leader.{append_args_for, maybe_advance_commit}
use murmur.Raft.Consensus.Leader.Commit.{Advanced, maybe_advance_commit-Advanced}
use murmur.Raft.Consensus.Leader.Sending.{append_args_for_lem}
use murmur.Raft.Consensus.Replication.{replication}
use murmur.Raft.Consensus.Compaction.{take_applies, pending, snapshot}
use murmur.Raft.Consensus.Compaction.Applies.{take_applies_lem, InOrder}
use murmur.Raft.Consensus.Compaction.Snapshots.{snapshot_lem, Compacted}

pub led-IsValid : IsValid led
unfolding Log.last_index
led-IsValid = record {
  fits = omega arith;
  from_snapshot = omega arith;
  applied = omega arith;
  committed = omega arith;
  majority = refl;
  origin = tt;
  elected = omega arith;
}

pub behind-IsValid : IsValid behind
unfolding Log.last_index
behind-IsValid = record {
  fits = omega arith;
  from_snapshot = omega arith;
  applied = omega arith;
  committed = omega arith;
  majority = refl;
  origin = tt;
  elected = tt;
}

delivered_run : (handle_append_entries behind (append_args_for led 2) 5 draw).0.log ≡ long_log
unfolding handle_append_entries append_args_for follow is_consistent accept Log.entries_after splice
    Log.append Log.truncate_after Log.term_at Storage.save lookup_or lookup
delivered_run = refl

pub accepted : (handle_append_entries behind (append_args_for led 2) 5 draw).1.success ≡ true
unfolding handle_append_entries append_args_for follow is_consistent accept Log.entries_after splice
    Log.append Log.truncate_after Log.term_at Storage.save lookup_or lookup
accepted = refl

replication_example :
    (5 ≤ Log.last_index (handle_append_entries behind (append_args_for led 2) 5 draw).0.log)
    × ((i : LogIndex)
        → 4 ≤ i
        → i ≤ 5
        → 2 < i
        → term_of (Log.get (handle_append_entries behind (append_args_for led 2) 5 draw).0.log i)
          ≡ term_of (Log.get long_log i))
unfolding Log.last_index lookup_or lookup
replication_example =
    replication led behind 2 5 draw led-IsValid behind-IsValid (omega arith) (omega arith) accepted

append_args_for_lem_example :
    ((append_args_for led 2).prev_log_index + length (append_args_for led 2).entries
      ≡ Log.last_index led.log)
    × (Log.term_at led.log (append_args_for led 2).prev_log_index
        ≡ some (append_args_for led 2).prev_log_term)
    × (3 ≤ (append_args_for led 2).prev_log_index + length (append_args_for led 2).entries)
    × ((k : ℕ)
        → get_elem? (append_args_for led 2).entries k
          ≡ Log.get led.log ((append_args_for led 2).prev_log_index + 1 + k))
unfolding append_args_for Log.last_index lookup_or lookup
append_args_for_lem_example = append_args_for_lem led 2 led-IsValid (omega arith) (omega arith)

-- A heartbeat with one entry that node 2 has, and one that it has not.
abbrev message : AppendEntriesArgs
message = record {
  term = 2;
  leader_id = 1;
  prev_log_index = 2;
  prev_log_term = 1;
  entries = entry 1 10 ∷ entry 2 20 ∷ [];
  leader_commit = 4;
}

message_agrees : AgreesTo 3 behind.log 2 message.entries
unfolding Log.get
message_agrees zero e at above le = cc at
message_agrees (suc k) e at above le = absurd (omega arith)

splice_keeps_example :
    (3 ≤ Log.last_index (splice 2 message.entries behind.log))
    × ((j : LogIndex)
        → j ≤ 3
        → Log.get (splice 2 message.entries behind.log) j ≡ Log.get behind.log j)
unfolding Log.last_index
splice_keeps_example =
    splice_keeps message.entries 2 behind.log 3 behind-IsValid.fits (omega arith) (omega arith)
      (omega arith) message_agrees

maybe_advance_commit-Advanced_example :
    Advanced led (Log.last_index led.log) (maybe_advance_commit led)
maybe_advance_commit-Advanced_example = maybe_advance_commit-Advanced led

-- A peer that rejects with a hint that no log could give.
abbrev odd_reply : AppendEntriesReply
odd_reply = record { term = 2; success = false; conflict_index = some 900; conflict_term = none }

take_applies_lem_example :
    (out : List Apply) × (take_applies led
      ≡ some (record led { last_applied = 3; pending_snapshot = none }, pending none ++ out))
    × InOrder long_log 2 3 out
take_applies_lem_example = take_applies_lem led led-IsValid

abbrev applied_led : ConsensusModule
applied_led = record led { last_applied = 3 }

applied_led-IsValid : IsValid applied_led
applied_led-IsValid = record {
  fits = led-IsValid.fits;
  from_snapshot = omega arith;
  applied = omega arith;
  committed = led-IsValid.committed;
  majority = refl;
  origin = tt;
  elected = omega arith;
}

snapshot_lem_example :
    (cm' : ConsensusModule) × (snapshot applied_led 3 (8 ∷ []) ≡ some cm')
    × Compacted applied_led 3 (8 ∷ []) cm'
snapshot_lem_example = snapshot_lem applied_led 3 (8 ∷ []) applied_led-IsValid

abbrev install_args : InstallSnapshotArgs
install_args = record {
  term = 2;
  leader_id = 1;
  last_included_index = 9;
  last_included_term = 2;
  bytes = 4 ∷ [];
}
