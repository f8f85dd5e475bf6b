-- ===== src/Raft/Driver/Runs.antt =====
-- A leader whose driver ticks, and the theorems about the driver.
use murmur.Prelude.{
  ◌≡◌, refl, not, ◌&&◌, if◌then◌else◌, All, none, some, List, [], ◌∷◌, ◌++◌, arith,
}
use murmur.Prelude.Maps.{lookup, lookup_or}
use murmur.Raft.Types.{NodeId, LogIndex, Apply}
use murmur.Raft.Log
use murmur.Raft.Config
use murmur.Raft.Consensus.Samples.{entry, draw, led, behind}
use murmur.Raft.Consensus.Runs.{led-IsValid, accepted}
use murmur.Raft.Consensus.State.{ConsensusModule, persist, election_timed_out, needs_snapshot}
use murmur.Raft.Consensus.Invariant.{IsValid}
use murmur.Raft.Consensus.Election.{pre_vote_succeeded}
use murmur.Raft.Consensus.Follower.{follow, handle_append_entries}
use murmur.Raft.Consensus.Leader.{
  append_args_for, submit_command, maybe_advance_commit, commit_walk, is_committable,
}
use murmur.Raft.Consensus.Leader.Sending.{next_for}
use murmur.Raft.Consensus.Compaction.{
  take_applies, take_entries, applied_entry, install, handle_install_snapshot,
}
use murmur.Raft.Rpc.{InstallSnapshotArgs}
use murmur.Raft.Consensus.Steps.{Event, exec}
use murmur.Raft.Consensus.Steps.Delivery.{Follows, LevelOf}
use murmur.Raft.Driver.{
  Outgoing, is_empty, heartbeat_due, Driver, Step, message_for, messages, decide, hand_over,
  on_append,
}
use murmur.Raft.Driver.Sending.{on_append-handle_append_entries}
use murmur.Raft.Driver.Ticks.{Placed, Sends, decide-leader}
use murmur.Raft.Driver.Rounds.{Run, halt, act, deliver, meanwhile, run_in_order}

abbrev driver : Driver
driver = record {
  core = led;
  peer_ids = 2 ∷ 3 ∷ [];
  timing = Config.default;
  last_heartbeat = 1000;
}

placed : All (Placed led) (2 ∷ 3 ∷ [])
unfolding Log.last_index lookup
placed = (
  record { next = _; found = refl; positive = omega arith; inside = omega arith },
  (record { next = _; found = refl; positive = omega arith; inside = omega arith }, tt),
)

decide-leader_example :
    (ms : List (NodeId × Outgoing)) × Sends led (heartbeat_due driver 2000) (2 ∷ 3 ∷ []) ms
    × ((decide driver 2000 draw).1 ≡ (if is_empty ms then Step.idle else Step.replicate ms))
    × ((decide driver 2000 draw).0 ≡ record driver {
      last_heartbeat =
          if heartbeat_due driver 2000 && not (is_empty ms) then 2000 else driver.last_heartbeat;
    })
decide-leader_example = decide-leader driver 2000 draw led-IsValid refl placed

on_append-handle_append_entries_example :
    (let reply = (handle_append_entries behind (append_args_for led 2) 5 draw).1 in
      let led' = on_append led 2 (append_args_for led 2) (some reply) in
      (lookup_or 0 2 led'.match_index ≡ 5) × (next_for led' 2 ≡ 6) × (led'.log ≡ led.log))
unfolding Log.last_index lookup_or lookup
on_append-handle_append_entries_example =
    on_append-handle_append_entries led behind 2 5 draw led-IsValid refl (omega arith) (omega arith)
      (omega arith) (omega arith) accepted

-- It takes a command, has a round, is sent a snapshot by a later leader, and has another round.
abbrev busy : ConsensusModule
busy = (submit_command led (5 ∷ [])).0

abbrev drained : ConsensusModule
drained = record busy { last_applied = 4; pending_snapshot = none }

abbrev newer : InstallSnapshotArgs
newer = record {
  term = 3;
  leader_id = 2;
  last_included_index = 9;
  last_included_term = 3;
  bytes = 8 ∷ [];
}

abbrev caught_up : ConsensusModule
caught_up = (handle_install_snapshot drained newer 7 draw).0

abbrev first_out : List Apply
first_out = applied_entry 3 (entry 1 10) ∷ applied_entry 4 (entry 2 20) ∷ []

abbrev second_out : List Apply
second_out =
    Apply.snapshot (record { last_included_index = 9; last_included_term = 3; bytes = 8 ∷ [] }) ∷ []

abbrev ended : ConsensusModule
ended = record caught_up { last_applied = 9; pending_snapshot = none }

abbrev busy_driver : Driver
busy_driver = record driver { core = busy }

abbrev drained_driver : Driver
drained_driver = record driver { core = drained }

abbrev caught_up_driver : Driver
caught_up_driver = record driver { core = caught_up }

abbrev ended_driver : Driver
ended_driver = record driver { core = ended }

first_delivery : hand_over (decide busy_driver 2000 draw).0 ≡ some (drained_driver, first_out)
unfolding hand_over decide messages take_applies Log.get take_entries message_for needs_snapshot
    lookup_or lookup append_args_for Log.entries_after submit_command maybe_advance_commit
    commit_walk Log.last_index persist Log.append is_committable Log.term_at
first_delivery = refl

second_delivery : hand_over (decide caught_up_driver 3000 draw).0 ≡ some (ended_driver, second_out)
unfolding hand_over decide take_applies take_entries lookup_or lookup submit_command
    maybe_advance_commit commit_walk Log.last_index persist Log.append is_committable Log.term_at
    handle_install_snapshot follow install pre_vote_succeeded election_timed_out
    Config.random_election_timeout
second_delivery = refl

run : Run driver (first_out ++ (second_out ++ [])) ended_driver
unfolding exec Log.last_index
run = meanwhile {core = busy} (Event.submit (5 ∷ [])) refl (omega arith) refl (
    act 2000 draw (
      deliver {d' = drained_driver} {handed = first_out} {out = second_out ++ []} first_delivery (
        meanwhile {core = caught_up} (Event.install_request newer 7 draw) refl (omega arith) refl (
          act 3000 draw
            (deliver {d' = ended_driver} {handed = second_out} {out = []} second_delivery halt)))))

run_in_order_example :
    (upto : LogIndex) × Follows 2 (first_out ++ second_out) upto
    × LevelOf upto ended
    × IsValid ended
run_in_order_example =
    run_in_order driver ended_driver (first_out ++ second_out) 2 led-IsValid refl run
