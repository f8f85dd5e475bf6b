-- ===== src/Raft/Consensus/Replication.antt =====
-- A leader's AppendEntries at a follower, both of raft/consensus.rs.
use murmur.Prelude.{
  ◌+◌, ◌-◌, ◌^◌, ◌≤◌, ◌<◌, ◌≡◌, sym, ap, ◌∙◌, true, false, some, length, get_elem?, arith,
}
use murmur.Raft.Types.{LogIndex, NodeId}
use murmur.Raft.Log
use murmur.Raft.Log.{Log}
use murmur.Raft.Log.Lookup.{last_index_lem, get-some, term_of}
use murmur.Raft.Rpc.{AppendEntriesArgs}
use murmur.Raft.Config.{Instant, Draw}
use murmur.Raft.Consensus.State.{ConsensusModule}
use murmur.Raft.Consensus.Invariant.{IsValid}
use murmur.Raft.Consensus.Follower.{
  follow, splice, is_consistent, append_conflict, handle_append_entries,
}
use murmur.Raft.Consensus.Follower.Splice.{splice-Spliced, splice_agrees}
use murmur.Raft.Consensus.Follower.Accept.{log-follow, log-accept, is_consistent_inside}
use murmur.Raft.Consensus.Leader.{append_args_for}
use murmur.Raft.Consensus.Leader.Sending.{next_for, append_args_for_lem, prev_eq}

pub not_success :
    (cm : ConsensusModule) (prev : LogIndex) → (append_conflict cm prev).success ≡ false
unfolding append_conflict
not_success cm prev = ground arith

module _ (cm : ConsensusModule) (args : AppendEntriesArgs) (now : Instant) (draw : Draw) where
  -- Success means that the log passed the check, and became the splice of the message into it.
  log-handle_append_entries :
      (handle_append_entries cm args now draw).1.success ≡ true
      → ((handle_append_entries cm args now draw).0.log
          ≡ splice args.prev_log_index args.entries cm.log)
        × (is_consistent cm.log args.prev_log_index args.prev_log_term ≡ true)
  unfolding handle_append_entries
  log-handle_append_entries ok =
      let cm' = follow cm args.term args.leader_id now draw in
      ground (
        arith,
        not_success cm' args.prev_log_index,
        log-accept cm' args,
        log-follow cm args.term args.leader_id now draw,
      )

module _ (leader follower : ConsensusModule) (peer : NodeId) (now : Instant) (draw : Draw) where
  abbrev delivered : ConsensusModule
  delivered = (handle_append_entries follower (append_args_for leader peer) now draw).0

  -- Of a valid leader and a valid follower, the leader's next index for the peer being above its
  -- own snapshot and at most one behind its log: when the follower accepts what the leader sends
  -- it, its log reaches the end of the leader's, and from the leader's next index to there it has
  -- the leader's terms, where the follower's own snapshot has not covered them.
  pub replication :
      IsValid leader
      → IsValid follower
      → leader.log.snapshot_index < next_for leader peer
      → next_for leader peer ≤ Log.last_index leader.log + 1
      → (handle_append_entries follower (append_args_for leader peer) now draw).1.success ≡ true
      → (Log.last_index leader.log ≤ Log.last_index delivered.log)
        × ((i : LogIndex)
            → next_for leader peer ≤ i
            → i ≤ Log.last_index leader.log
            → follower.log.snapshot_index < i
            → term_of (Log.get delivered.log i) ≡ term_of (Log.get leader.log i))
  replication vl vf above inside ok =
      let args = append_args_for leader peer in
      let (reach, _, _, sent) = append_args_for_lem leader peer vl above inside in
      let (log_eq, consistent) = log-handle_append_entries follower args now draw ok in
      let near =
        is_consistent_inside follower.log args.prev_log_index args.prev_log_term vf.fits
          consistent in
      let small : args.prev_log_index + length args.entries < 2 ^ 64 =
        omega (arith, last_index_lem leader.log vl.fits, vl.fits) in
      let q = splice-Spliced args.entries args.prev_log_index follower.log vf.fits small near in
      let next_eq = prev_eq leader peer vl above inside in
      rw log_eq (
        omega (arith, q.reaches),
        λ i lo hi own.
            let k = i - (args.prev_log_index + 1) in
            let at : args.prev_log_index + 1 + k ≡ i = omega (arith, next_eq) in
            let (e, got) = get-some leader.log i vl.fits (omega (arith, above)) hi in
            let there : get_elem? args.entries k ≡ some e =
              sent k ∙ ap (Log.get leader.log) at ∙ got in
            ap (λ j. term_of (Log.get (splice args.prev_log_index args.entries follower.log) j))
              (sym at)
            ∙ splice_agrees args.entries args.prev_log_index follower.log k e vf.fits small near
                there (omega arith)
            ∙ sym (ap term_of got),
      )
