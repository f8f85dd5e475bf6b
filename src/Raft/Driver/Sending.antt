-- ===== src/Raft/Driver/Sending.antt =====
-- raft/node.rs: what comes back to a leader of a message that it sent.
use murmur.Prelude.{ℕ, ◌+◌, ◌^◌, ◌≤◌, ◌<◌, ◌≡◌, refl, ◌∙◌, true, false, some, ltb, u64, max, arith}
use murmur.Prelude.Maps.{insert, lookup_or, lookup_or-insert}
use murmur.Raft.Types.{NodeId, LogIndex}
use murmur.Raft.Log
use murmur.Raft.Config.{Instant, Draw}
use murmur.Raft.Rpc.{AppendEntriesArgs, AppendEntriesReply}
use murmur.Raft.Consensus.State.{ConsensusModule, step_down, persist, is_leader_role}
use murmur.Raft.Consensus.Invariant.{IsValid}
use murmur.Raft.Consensus.Follower.{follow, handle_append_entries}
use murmur.Raft.Consensus.Replication.{not_success}
use murmur.Raft.Consensus.Leader.{append_args_for, advance_peer, handle_append_reply}
use murmur.Raft.Consensus.Leader.Commit.{maybe_advance_commit-Advanced}
use murmur.Raft.Consensus.Leader.Sending.{next_for, append_args_for_lem}
use murmur.Raft.Driver.{match_hint, on_append}

advance_peer_lem :
    (cm : ConsensusModule) (peer : NodeId) (hint : LogIndex)
    → (let matched = max (lookup_or 0 peer cm.match_index) hint in
        (lookup_or 0 peer (advance_peer cm peer hint).match_index ≡ matched)
        × ((d : ℕ) → lookup_or d peer (advance_peer cm peer hint).next_index ≡ u64 (matched + 1))
        × ((advance_peer cm peer hint).log ≡ cm.log))
unfolding advance_peer
advance_peer_lem cm peer hint =
    let matched = max (lookup_or 0 peer cm.match_index) hint in
    let moved : ConsensusModule = record cm {
      match_index = insert peer matched cm.match_index;
      next_index = insert peer (u64 (matched + 1)) cm.next_index;
    } in
    rw (maybe_advance_commit-Advanced moved).only_commit (
      ground (arith, lookup_or-insert 0 peer peer matched cm.match_index),
      λ d. ground (arith, lookup_or-insert d peer peer (u64 (matched + 1)) cm.next_index),
      refl,
    )

current_term-follow :
    (cm : ConsensusModule) (term : ℕ) (id : NodeId) (now : Instant) (draw : Draw)
    → ltb term cm.current_term ≡ false
    → (follow cm term id now draw).current_term ≡ term
unfolding follow step_down persist
current_term-follow cm term id now draw current = ground (arith, current)

-- A follower that accepts answers with the leader's term.
term-handle_append_entries :
    (cm : ConsensusModule) (args : AppendEntriesArgs) (now : Instant) (draw : Draw)
    → (handle_append_entries cm args now draw).1.success ≡ true
    → (handle_append_entries cm args now draw).1.term ≡ args.term
unfolding handle_append_entries
term-handle_append_entries cm args now draw ok =
    let cm' = follow cm args.term args.leader_id now draw in
    ground (
      arith,
      ok,
      not_success cm' args.prev_log_index,
      current_term-follow cm args.term args.leader_id now draw,
    )

handle_append_reply-success :
    (cm : ConsensusModule) (peer : NodeId) (reply : AppendEntriesReply) (hint : LogIndex)
    → is_leader_role cm.role ≡ true
    → reply.term ≡ cm.current_term
    → reply.success ≡ true
    → handle_append_reply cm peer reply hint ≡ advance_peer cm peer hint
unfolding handle_append_reply
handle_append_reply-success cm peer reply hint leads same ok = ground (arith, leads, same, ok)

module _ (leader follower : ConsensusModule) (peer : NodeId) (now : Instant) (draw : Draw) where
  abbrev args : AppendEntriesArgs
  args = append_args_for leader peer

  abbrev reply : AppendEntriesReply
  reply = (handle_append_entries follower args now draw).1

  -- A whole exchange, from a valid leader whose log ends before the last u64, to any follower, the
  -- leader's next index for it being above the leader's own snapshot and at most one behind its log,
  -- and its match index for it within the log: when the follower accepts, the answer, folded back by
  -- the task that sent the message, makes the leader count the follower as having its whole log as it
  -- was sent, and go on behind it. Its log does not change.
  pub on_append-handle_append_entries :
      IsValid leader
      → is_leader_role leader.role ≡ true
      → leader.log.snapshot_index < next_for leader peer
      → next_for leader peer ≤ Log.last_index leader.log + 1
      → lookup_or 0 peer leader.match_index ≤ Log.last_index leader.log
      → Log.last_index leader.log + 1 < 2 ^ 64
      → reply.success ≡ true
      → (let leader' = on_append leader peer args (some reply) in
          (lookup_or 0 peer leader'.match_index ≡ Log.last_index leader.log)
          × (next_for leader' peer ≡ Log.last_index leader.log + 1)
          × (leader'.log ≡ leader.log))
  unfolding on_append append_args_for
  on_append-handle_append_entries v leads above inside matched room ok =
      let same : reply.term ≡ leader.current_term =
        term-handle_append_entries follower args now draw ok in
      let (reach, _, _, _) = append_args_for_lem leader peer v above inside in
      let hint : match_hint args ≡ Log.last_index leader.log = omega (arith, reach, room) in
      rw (handle_append_reply-success leader peer reply (match_hint args) leads same ok, hint)
        (let (a, b, c) = advance_peer_lem leader peer (Log.last_index leader.log) in
          (a ∙ ground (arith, matched), b _ ∙ ground (arith, matched, room), c))
