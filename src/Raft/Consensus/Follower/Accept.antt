-- ===== src/Raft/Consensus/Follower/Accept.antt =====
-- `handle_append_entries` of raft/consensus.rs: what it accepts, and the invariant.
use mathlib.Core.Path.{subst₂}
use murmur.Prelude.{
  ◌+◌, ◌^◌, ◌≤◌, ◌<◌, ◌≡◌, sym, true, length, ltb, leb, if◌then◌else◌, min, arith, Bool-cases, inl,
  inr,
}
use murmur.Raft.Types.{Term, LogIndex, NodeId}
use murmur.Raft.Log
use murmur.Raft.Log.{Log, has_term}
use murmur.Raft.Log.Lookup.{Fits, last_index_lem, get-none, term_at_above}
use murmur.Raft.Rpc.{AppendEntriesArgs}
use murmur.Raft.Config.{Instant, Draw}
use murmur.Raft.Consensus.State.{ConsensusModule}
use murmur.Raft.Consensus.Invariant.{IsValid, Origin-same}
use murmur.Raft.Consensus.Follower.{follow, splice, is_consistent, accept, handle_append_entries}
use murmur.Raft.Consensus.Follower.Splice.{splice-Spliced, splice_keeps, AgreesTo}

-- A message of a leader that holds what this node has committed.
pub record Admissible (cm : ConsensusModule) (args : AppendEntriesArgs) : Type 0 where
  pub small : args.prev_log_index + length args.entries < 2 ^ 64
  pub agrees : AgreesTo cm.commit_index cm.log args.prev_log_index args.entries

pub is_consistent_inside :
    (log : Log) (prev : LogIndex) (t : Term)
    → Fits log
    → is_consistent log prev t ≡ true
    → prev ≤ Log.last_index log
unfolding is_consistent
is_consistent_inside log prev t h ok = elim (Bool-cases (leb prev (Log.last_index log))) [
  | inl inside ↦ ground arith
  | inr outside ↦ ground (arith, last_index_lem log h, term_at_above log prev h, get-none log prev)
]

module _ (cm : ConsensusModule) (term : Term) (id : NodeId) (now : Instant) (draw : Draw) where
  pub follow-IsValid : IsValid cm → IsValid (follow cm term id now draw)
  unfolding follow
  follow-IsValid v = ground arith

  pub log-follow : (follow cm term id now draw).log ≡ cm.log
  unfolding follow
  log-follow = ground arith

  pub commit_index-follow : (follow cm term id now draw).commit_index ≡ cm.commit_index
  unfolding follow
  commit_index-follow = ground arith

Admissible-same :
    (cm cm' : ConsensusModule) (args : AppendEntriesArgs)
    → cm'.log ≡ cm.log
    → cm'.commit_index ≡ cm.commit_index
    → Admissible cm args
    → Admissible cm' args
Admissible-same cm cm' args l c a = record {
  small = a.small;
  agrees =
      subst₂ (λ n log. AgreesTo n log args.prev_log_index args.entries) (sym c) (sym l) a.agrees;
}

module _ (cm : ConsensusModule) (args : AppendEntriesArgs) where
  abbrev spliced : Log
  spliced = splice args.prev_log_index args.entries cm.log

  pub log-accept : (accept cm args).log ≡ spliced
  unfolding accept
  log-accept = ground arith

  -- What the part behind the check leaves alone.
  accept_same :
      ((accept cm args).last_applied ≡ cm.last_applied)
      × ((accept cm args).peers ≡ cm.peers)
      × ((accept cm args).quorum ≡ cm.quorum)
      × ((accept cm args).role ≡ cm.role)
      × ((accept cm args).votes ≡ cm.votes)
      × ((accept cm args).snapshot ≡ cm.snapshot)
  unfolding accept
  accept_same = ground arith

  -- The commit index goes to that of the leader, as far as the log reaches, and never back.
  pub commit_index-accept : (accept cm args).commit_index ≡ (
      if ltb cm.commit_index args.leader_commit
      then min args.leader_commit (Log.last_index spliced)
      else cm.commit_index)
  unfolding accept
  commit_index-accept = ground arith

module _ (cm : ConsensusModule) (args : AppendEntriesArgs) where
  accept-IsValid :
      IsValid cm
      → Admissible cm args
      → args.prev_log_index ≤ Log.last_index cm.log
      → IsValid (accept cm args)
  accept-IsValid v a inside =
      let q = splice-Spliced args.entries args.prev_log_index cm.log v.fits a.small inside in
      let (kept, _) =
        splice_keeps args.entries args.prev_log_index cm.log cm.commit_index v.fits a.small inside
          v.committed a.agrees in
      let (same_applied, same_peers, same_quorum, same_role, same_votes, same_snapshot) =
        accept_same cm args in
      record {
        fits = rw (log-accept cm args) q.fits;
        from_snapshot =
            rw (log-accept cm args, same_applied) (omega (arith, q.same_index, v.from_snapshot));
        applied = rw same_applied (ground (arith, commit_index-accept cm args, v.applied));
        committed = rw (log-accept cm args) (ground (arith, commit_index-accept cm args, kept));
        majority = rw (same_quorum, same_peers) v.majority;
        origin =
            rw (log-accept cm args, same_snapshot)
              (Origin-same cm.log (spliced cm args) cm.snapshot q.same_index q.same_term v.origin);
        elected = rw (same_role, same_quorum, same_votes) v.elected;
      }

-- On a valid state, a message whose indices fit in 64 bits and which agrees with what is committed
-- here leaves a valid state, on every branch.
pub handle_append_entries-IsValid :
    (cm : ConsensusModule) (args : AppendEntriesArgs) (now : Instant) (draw : Draw)
    → IsValid cm
    → Admissible cm args
    → IsValid (handle_append_entries cm args now draw).0
unfolding handle_append_entries
handle_append_entries-IsValid cm args now draw v a =
    let cm' = follow cm args.term args.leader_id now draw in
    let v' = follow-IsValid cm args.term args.leader_id now draw v in
    let a' : Admissible cm' args =
      Admissible-same cm cm' args (log-follow cm args.term args.leader_id now draw)
        (commit_index-follow cm args.term args.leader_id now draw) a in
    elim (Bool-cases (ltb args.term cm.current_term)) [
      | inl stale ↦ rw stale v
      | inr current ↦
          rw current
            (elim (Bool-cases (is_consistent cm'.log args.prev_log_index args.prev_log_term)) [
              | inl ok ↦ rw ok (
                  accept-IsValid cm' args v' a' (
                    is_consistent_inside cm'.log args.prev_log_index args.prev_log_term v'.fits ok))
              | inr conflict ↦ rw conflict v'
            ])
    ]
