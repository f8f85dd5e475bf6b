-- ===== src/Raft/Cluster/MatchingRuns.antt =====
-- A leader of three takes a command and sends it to a member, and the theorem about their logs.
use murmur.Prelude.{◌≡◌, refl, some, [], ◌∷◌, arith}
use murmur.Prelude.Maps.{member, insert_set, lookup, lookup_or, insert}
use murmur.Prelude.Cursor.{le_bytes}
use murmur.Raft.Types.{LogEntry}
use murmur.Raft.Log
use murmur.Raft.StateFile.{encode}
use murmur.Raft.Storage.{save}
use murmur.Raft.Rpc.{AppendEntriesArgs}
use murmur.Raft.Consensus.Samples.{draw}
use murmur.Raft.Consensus.State.{ConsensusModule, restore, become_leader, insert_all}
use murmur.Raft.Consensus.Election.{start_election, handle_request_vote, record_vote_reply}
use murmur.Raft.Consensus.Follower.{
  follow, splice, splice_one, place, is_consistent, accept, handle_append_entries,
}
use murmur.Raft.Consensus.Leader.{
  submit_command, maybe_advance_commit, commit_walk, is_committable, append_args_for,
}
use murmur.Raft.Consensus.Steps.{Event, exec, Fit}
use murmur.Raft.Cluster.Runs.{trio, begin, request, granted, led, begin-Initial, first-Fit}
use murmur.Raft.Cluster.Replicas.{
  Replicas, put, act, vote, tally, submit, post, deliver, Initial, Reach, start, later,
}
use murmur.Raft.Cluster.Matching.{log_matching}

abbrev empty : Replicas
empty = record { cluster = begin; posts = [] }

empty-Initial : Initial trio empty
unfolding restore
empty-Initial = record { cluster = begin-Initial; nothing_posted = refl; empty = λ i inside. refl }

abbrev elected : Replicas
elected = record empty { cluster = led }

elected-Reach : Reach trio elected
unfolding exec start_election member restore insert_set
elected-Reach =
    later
      (later
        (later (start empty-Initial)
          (act 1 (Event.campaign 5 draw) refl (first-Fit 1) refl refl refl))
        (vote 2 request 6 draw refl (first-Fit 2)))
      (tally 0 granted refl refl refl)

abbrev leading : ConsensusModule
leading = (submit_command (led.nodes 1) (65 ∷ [])).0

abbrev commanded : Replicas
commanded = put elected 1 leading

abbrev message : AppendEntriesArgs
message = append_args_for leading 2

abbrev posted : Replicas
posted = record commanded { posts = message ∷ [] }

abbrev followed : Replicas
followed = put posted 2 (handle_append_entries (led.nodes 2) message 7 draw).0

leader-Fit : Fit (led.nodes 1)
unfolding restore start_election handle_request_vote record_vote_reply become_leader insert_set
    member insert_all Log.last_index Log.last_term save encode le_bytes
leader-Fit = record { encodable = omega arith; next_term = omega arith }

voter-Fit : Fit (led.nodes 2)
unfolding restore start_election handle_request_vote record_vote_reply become_leader insert_set
    member insert_all Log.last_index Log.last_term save encode le_bytes
voter-Fit = record { encodable = omega arith; next_term = omega arith }

followed-Reach : Reach trio followed
unfolding restore start_election handle_request_vote record_vote_reply become_leader insert_set
    member insert_all Log.last_index Log.last_term save submit_command maybe_advance_commit
    commit_walk is_committable Log.append Log.term_at lookup_or lookup insert
followed-Reach =
    later
      (later (later elected-Reach (submit 1 (65 ∷ []) refl leader-Fit (omega arith)))
        (post 1 2 refl refl))
      (deliver 2 0 message 7 draw refl voter-Fit refl)

abbrev written : LogEntry
written = record { term = 1; command = 65 ∷ [] }

leader_log : Log.get (followed.cluster.nodes 1).log 1 ≡ some written
unfolding restore start_election handle_request_vote record_vote_reply become_leader insert_set
    member insert_all Log.last_index Log.last_term save submit_command Log.append Log.get
    maybe_advance_commit commit_walk is_committable Log.term_at lookup_or lookup insert
leader_log = refl

member_log : Log.get (followed.cluster.nodes 2).log 1 ≡ some written
unfolding restore start_election handle_request_vote record_vote_reply become_leader insert_set
    member insert_all Log.last_index Log.last_term save submit_command Log.append Log.get
    handle_append_entries append_args_for maybe_advance_commit commit_walk is_committable
    Log.term_at lookup_or lookup insert accept follow is_consistent splice splice_one place
    Log.entries_after Log.truncate_after Log.position Log.last_term_of
member_log = refl

log_matching_example :
    Log.get (followed.cluster.nodes 1).log 1 ≡ Log.get (followed.cluster.nodes 2).log 1
unfolding member
log_matching_example =
    log_matching trio 1 2 1 written written followed-Reach refl refl leader_log member_log refl 1
      (omega arith)
