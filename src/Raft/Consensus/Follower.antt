-- ===== src/Raft/Consensus/Follower.antt =====
-- raft/consensus.rs: `handle_append_entries` and the conflict hint.
pub mod Splice
pub mod Accept
use murmur.Prelude.{
  ℕ, ◌+◌, ◌-◌, Bool, true, false, not, ◌&&◌, Option, none, some, List, [], ◌∷◌, ltb, leb, ◌==◌,
  if◌then◌else◌, u64, min,
}
use murmur.Raft.Types.{Term, LogIndex, NodeId, follower, LogEntry}
use murmur.Raft.Log
use murmur.Raft.Log.{Log, has_term}
use murmur.Raft.Rpc.{AppendEntriesArgs, AppendEntriesReply, success, rejected}
use murmur.Raft.Config.{Instant, Draw}
use murmur.Raft.Consensus.State.{
  ConsensusModule, reset_election_deadline, persist, step_down, abandon_pre_election,
}

unfoldable pub append_conflict : ConsensusModule → LogIndex → AppendEntriesReply
append_conflict cm prev_log_index = elim (Log.term_at cm.log prev_log_index) [
  | none ↦ record {
    term = cm.current_term;
    success = false;
    conflict_index = some (u64 (Log.last_index cm.log + 1));
    conflict_term = none;
  }
  | some conflict_term ↦ record {
    term = cm.current_term;
    success = false;
    conflict_index = Log.first_index_of_term cm.log conflict_term;
    conflict_term = some conflict_term;
  }
]

-- A message of the current leader makes this node its follower.
unfoldable pub follow : ConsensusModule → Term → NodeId → Instant → Draw → ConsensusModule
unfolding step_down abandon_pre_election reset_election_deadline
follow cm term leader_id now draw =
    let yielded =
      if ltb cm.current_term term
      then step_down cm term
      else abandon_pre_election (record cm { role = follower; votes = [] }) in
    reset_election_deadline
      (record yielded { leader_id = some leader_id; last_leader_contact = now }) now draw

-- One round of the loop: `found` is the term that the log has at the entry's index.
unfoldable pub place : Option Term → LogIndex → LogEntry → Log → Log
place none index e log = (Log.append log e).0
place (some t) index e log =
    if t == e.term then log else (Log.append (Log.truncate_after log (index - 1)) e).0

unfoldable pub splice_one : LogIndex → LogEntry → Log → Log
unfolding place
splice_one index e log =
    if leb index log.snapshot_index then log else place (Log.term_at log index) index e log

-- The loop over the entries; `index` is that of the entry before the first.
unfoldable pub splice : LogIndex → List LogEntry → Log → Log
unfolding splice_one
splice index [] log = log
splice index (e ∷ es) log = splice (u64 (index + 1)) es (splice_one (u64 (index + 1)) e log)

-- The log-consistency check.
unfoldable pub is_consistent : Log → LogIndex → Term → Bool
is_consistent log prev_log_index prev_log_term =
    if ltb log.snapshot_index prev_log_index
    then has_term (Log.term_at log prev_log_index) prev_log_term
    else true

-- The part behind the check: splice, persist, and follow the leader's commit index.
unfoldable pub accept : ConsensusModule → AppendEntriesArgs → ConsensusModule
unfolding persist
accept cm args =
    let spliced = record cm { log = splice args.prev_log_index args.entries cm.log } in
    let saved : ConsensusModule = elim args.entries [ [] ↦ spliced | e ∷ es ↦ persist spliced ] in
    if ltb saved.commit_index args.leader_commit
    then record saved { commit_index = min args.leader_commit (Log.last_index saved.log) }
    else saved

unfoldable pub handle_append_entries :
    ConsensusModule → AppendEntriesArgs → Instant → Draw → ConsensusModule × AppendEntriesReply
handle_append_entries cm args now draw =
    if ltb args.term cm.current_term
    then (cm, rejected cm.current_term)
    else let cm' = follow cm args.term args.leader_id now draw in
      if is_consistent cm'.log args.prev_log_index args.prev_log_term
      then (accept cm' args, success cm'.current_term)
      else (cm', append_conflict cm' args.prev_log_index)
