-- ===== src/Raft/Consensus/Leader.antt =====
-- raft/consensus.rs: the leader's side of replication, and the commit index.
pub mod Commit
pub mod Replies
pub mod Sending
use murmur.Prelude.{
  ℕ, zero, suc, ◌+◌, ◌-◌, Bool, true, false, not, ◌&&◌, ◌||◌, Option, none, some, List, [], ◌∷◌,
  length, count, ltb, leb, ◌==◌, if◌then◌else◌, u64, sub_u64, max,
}
use murmur.Prelude.Maps.{insert, lookup_or}
use murmur.Raft.Types.{Term, LogIndex, NodeId, Bytes, LogEntry}
use murmur.Raft.Log
use murmur.Raft.Log.{Log, has_term}
use murmur.Raft.Rpc.{AppendEntriesArgs, AppendEntriesReply, InstallSnapshotReply}
use murmur.Raft.Consensus.State.{ConsensusModule, is_leader_role, persist}
use murmur.Raft.Consensus.Election.{yield_to}

-- `term_at(..).unwrap_or(0)`
abbrev pub term_or_zero : Option Term → Term
term_or_zero none = 0
term_or_zero (some t) = t

unfoldable pub append_args_for : ConsensusModule → NodeId → AppendEntriesArgs
append_args_for cm peer =
    let next = lookup_or (u64 (Log.last_index cm.log + 1)) peer cm.next_index in
    let prev_log_index = sub_u64 next 1 in
    record {
      term = cm.current_term;
      leader_id = cm.id;
      prev_log_index = prev_log_index;
      prev_log_term = term_or_zero (Log.term_at cm.log prev_log_index);
      entries = Log.entries_after cm.log prev_log_index;
      leader_commit = cm.commit_index;
    }

unfoldable pub is_replicated_on_majority : ConsensusModule → LogIndex → Bool
is_replicated_on_majority cm n =
    leb cm.quorum (1 + count (λ p. leb n (lookup_or 0 p cm.match_index)) cm.peers)

unfoldable pub is_committable : ConsensusModule → LogIndex → Bool
unfolding is_replicated_on_majority
is_committable cm n =
    has_term (Log.term_at cm.log n) cm.current_term && is_replicated_on_majority cm n

-- The loop from `n` down to the commit index, which is `rounds` below.
unfoldable pub commit_walk : ConsensusModule → ℕ → LogIndex → ConsensusModule
commit_walk cm zero n = cm
commit_walk cm (suc rounds) n =
    if is_committable cm n then record cm { commit_index = n } else commit_walk cm rounds (n - 1)

unfoldable pub maybe_advance_commit : ConsensusModule → ConsensusModule
maybe_advance_commit cm = let n = Log.last_index cm.log in commit_walk cm (n - cm.commit_index) n

unfoldable pub submit_command : ConsensusModule → Bytes → ConsensusModule × Option LogIndex
submit_command cm command =
    if not (is_leader_role cm.role)
    then (cm, none)
    else let (log, index) =
        Log.append cm.log (record { term = cm.current_term; command = command }) in
      (maybe_advance_commit (persist (record cm { log = log })), some index)

-- `match last_index_of_term(term) { .. }`
resume_at : Option LogIndex → LogIndex → LogIndex
resume_at none conflict_index = conflict_index
resume_at (some last) conflict_index = u64 (last + 1)

-- `match (conflict_term, conflict_index) { .. }`; `step_back` is the last arm.
resume_from : Log → LogIndex → Option Term → Option LogIndex → LogIndex
unfolding resume_at
resume_from log step_back (some term) (some conflict_index) =
    resume_at (Log.last_index_of_term log term) conflict_index
resume_from log step_back none (some conflict_index) = conflict_index
resume_from log step_back _ none = step_back

unfoldable pub next_index_after_conflict : ConsensusModule → NodeId → AppendEntriesReply → LogIndex
unfolding resume_from
next_index_after_conflict cm peer reply =
    resume_from cm.log (lookup_or 1 peer cm.next_index - 1) reply.conflict_term reply.conflict_index

-- What a success moves: the peer has everything up to `hint`.
unfoldable pub advance_peer : ConsensusModule → NodeId → LogIndex → ConsensusModule
advance_peer cm peer hint =
    let matched = max (lookup_or 0 peer cm.match_index) hint in
    maybe_advance_commit (record cm {
      match_index = insert peer matched cm.match_index;
      next_index = insert peer (u64 (matched + 1)) cm.next_index;
    })

unfoldable pub handle_append_reply :
    ConsensusModule → NodeId → AppendEntriesReply → LogIndex → ConsensusModule
handle_append_reply cm peer reply match_hint =
    if ltb cm.current_term reply.term
    then yield_to cm reply.term
    else if not (is_leader_role cm.role) || not (reply.term == cm.current_term)
    then cm
    else if reply.success
    then advance_peer cm peer match_hint
    else let next = next_index_after_conflict cm peer reply in
      record cm { next_index = insert peer (max next 1) cm.next_index }

unfoldable pub handle_install_snapshot_reply :
    ConsensusModule → NodeId → InstallSnapshotReply → LogIndex → ConsensusModule
handle_install_snapshot_reply cm peer reply last_included_index =
    if ltb cm.current_term reply.term
    then yield_to cm reply.term
    else if not (is_leader_role cm.role) || not (reply.term == cm.current_term)
    then cm
    else advance_peer cm peer last_included_index
