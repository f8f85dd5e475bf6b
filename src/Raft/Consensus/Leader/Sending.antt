-- ===== src/Raft/Consensus/Leader/Sending.antt =====
-- `append_args_for` of raft/consensus.rs: what a leader sends to a peer.
use murmur.Prelude.{
  ℕ, ◌+◌, ◌-◌, ◌≤◌, ◌<◌, ◌≡◌, some, length, get_elem?, u64, ◌==◌, min, arith, Bool-cases, inl, inr,
  length-drop,
}
use murmur.Prelude.Maps.{lookup_or}
use murmur.Raft.Types.{LogIndex, NodeId}
use murmur.Raft.Log
use murmur.Raft.Log.{Log}
use murmur.Raft.Log.Lookup.{Fits, last_index_lem, get_elem?-entries_after, get-some, term_at_lem}
use murmur.Raft.Consensus.State.{ConsensusModule}
use murmur.Raft.Consensus.Invariant.{IsValid}
use murmur.Raft.Consensus.Leader.{append_args_for, term_or_zero}

-- Where the leader believes that the peer's log ends, plus one.
abbrev pub next_for : ConsensusModule → NodeId → LogIndex
next_for cm peer = lookup_or (u64 (Log.last_index cm.log + 1)) peer cm.next_index

length-entries_after :
    (log : Log) (i : LogIndex)
    → Fits log
    → log.snapshot_index ≤ i
    → i ≤ Log.last_index log
    → i + length (Log.entries_after log i) ≡ Log.last_index log
unfolding Log.entries_after
length-entries_after log i h lo hi = omega (
  arith,
  last_index_lem log h,
  length-drop (min (i - log.snapshot_index) (length log.entries)) log.entries,
)

term_at_inside :
    (log : Log) (i : LogIndex)
    → Fits log
    → log.snapshot_index ≤ i
    → i ≤ Log.last_index log
    → Log.term_at log i ≡ some (term_or_zero (Log.term_at log i))
term_at_inside log i h lo hi = elim (Bool-cases (i == log.snapshot_index)) [
  | inl boundary ↦ ground (arith, term_at_lem log i h)
  | inr tail ↦
      let (e, got) = get-some log i h (ground arith) hi in ground (arith, term_at_lem log i h, got)
]

module _ (cm : ConsensusModule) (peer : NodeId) (v : IsValid cm)
    (above : cm.log.snapshot_index < next_for cm peer)
    (inside : next_for cm peer ≤ Log.last_index cm.log + 1) where
  pub prev_eq : (append_args_for cm peer).prev_log_index + 1 ≡ next_for cm peer
  unfolding append_args_for
  prev_eq = omega (arith, v.fits, last_index_lem cm.log v.fits)

  -- What a node in a valid state sends to a peer whose next index is above the snapshot and at
  -- most one behind the log: the entry before, by its true term, every entry from there to the end
  -- of the log, and a commit index that the message reaches.
  pub append_args_for_lem :
      (let args = append_args_for cm peer in
        (args.prev_log_index + length args.entries ≡ Log.last_index cm.log)
        × (Log.term_at cm.log args.prev_log_index ≡ some args.prev_log_term)
        × (args.leader_commit ≤ args.prev_log_index + length args.entries)
        × ((k : ℕ) → get_elem? args.entries k ≡ Log.get cm.log (args.prev_log_index + 1 + k)))
  append_args_for_lem =
      let args = append_args_for cm peer in
      let lo : cm.log.snapshot_index ≤ args.prev_log_index = omega (arith, prev_eq) in
      let hi : args.prev_log_index ≤ Log.last_index cm.log = omega (arith, prev_eq) in
      let reach = length-entries_after cm.log args.prev_log_index v.fits lo hi in
      unfold append_args_for in
      (
        reach,
        term_at_inside cm.log args.prev_log_index v.fits lo hi,
        omega (arith, reach, v.committed),
        λ k. get_elem?-entries_after cm.log args.prev_log_index k v.fits lo,
      )
