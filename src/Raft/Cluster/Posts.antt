-- ===== src/Raft/Cluster/Posts.antt =====
-- Messages of replication between nodes without snapshots: what a leader builds is a path, and a node
-- that receives a path keeps its log one.
use mathlib.Core.Option
use mathlib.Core.Path.{subst}
use murmur.Prelude.{
  ℕ, zero, suc, ◌+◌, ◌-◌, ◌^◌, ◌≤◌, ◌<◌, ◌≡◌, ◌⊎◌, inl, inr, refl, sym, ap, ◌∙◌, true, Option, none,
  some, [], length, get_elem?, get_elem?-lt, drop, length-drop, drop_of_length-le, min, leb, leb→le,
  leb_false→lt, Bool-cases, Option-cases, arith,
}
use murmur.Raft.Types.{Term, LogIndex, NodeId, LogEntry}
use murmur.Raft.Log
use murmur.Raft.Log.{Log, last_term_of, has_term}
use murmur.Raft.Log.Lookup.{Fits, last_index_lem}
use murmur.Raft.Rpc.{AppendEntriesArgs}
use murmur.Raft.Config.{Instant, Draw}
use murmur.Raft.Consensus.State.{ConsensusModule}
use murmur.Raft.Consensus.Follower.{follow, splice, is_consistent, handle_append_entries}
use murmur.Raft.Consensus.Follower.Accept.{log-follow, log-accept, is_consistent_inside}
use murmur.Raft.Consensus.Leader.{append_args_for, term_or_zero}
use murmur.Raft.Cluster.Chain.{Made, Chain, Grows, Chain-Grows, Chain-drop, term_upto}
use murmur.Raft.Cluster.Paths.{Rooted, splice-Rooted, term_at-entries, term_upto-get}

-- A message whose entries are a path behind the entry before them.
pub record Posted (made : Made) (args : AppendEntriesArgs) : Type 0 where
  pub small : args.prev_log_index + length args.entries < 2 ^ 64
  pub origin : args.prev_log_index ≡ 0 → args.prev_log_term ≡ 0
  pub path : Chain made args.prev_log_index args.prev_log_term args.entries

pub Posted-Grows :
    (made made' : Made) (args : AppendEntriesArgs)
    → Grows made made'
    → Posted made args
    → Posted made' args
Posted-Grows made made' args g p = record {
  small = p.small;
  origin = p.origin;
  path = Chain-Grows made made' args.prev_log_index args.prev_log_term args.entries g p.path;
}

-- The term at an index of a log without a snapshot.
term_upto-term_at :
    (log : Log) (n : ℕ) (t : Term)
    → log.snapshot_index ≡ 0
    → Fits log
    → Log.term_at log (n + 1) ≡ some t
    → term_upto 0 log.entries (n + 1) ≡ t
term_upto-term_at log n t zero_index fits at = elim (Option-cases (get_elem? log.entries n)) [
  | inl missing ↦ absurd (ground (arith, at, missing, term_at-entries log n zero_index fits))
  | inr (d, there) ↦
      term_upto-get 0 log.entries n d there
      ∙ ground (arith, at, there, term_at-entries log n zero_index fits)
]

has_term-true : (o : Option Term) (t : Term) → has_term o t ≡ true → o ≡ some t
has_term-true none t h = cc
has_term-true (some u) t h = ap some (ground (arith, h))

consistent_term :
    (log : Log) (prev : LogIndex) (t : Term)
    → log.snapshot_index ≡ 0
    → Fits log
    → (prev ≡ 0 → t ≡ 0)
    → is_consistent log prev t ≡ true
    → term_upto 0 log.entries prev ≡ t
unfolding is_consistent last_term_of
consistent_term log zero t zero_index fits origin ok = sym (origin refl)
consistent_term log (suc m) t zero_index fits origin ok =
    let i : suc m ≡ m + 1 = omega arith in
    let here : has_term (Log.term_at log (suc m)) t ≡ true = ground (arith, zero_index, ok) in
    let passed : has_term (Log.term_at log (m + 1)) t ≡ true = rw i at here in
    rw i
      (term_upto-term_at log m t zero_index fits (has_term-true (Log.term_at log (m + 1)) t passed))

log-handle_append_entries :
    (cm : ConsensusModule) (args : AppendEntriesArgs) (now : Instant) (draw : Draw)
    → let cm' = (handle_append_entries cm args now draw).0 in
      (cm'.log ≡ cm.log)
      ⊎ ((cm'.log ≡ splice args.prev_log_index args.entries cm.log)
          × (is_consistent cm.log args.prev_log_index args.prev_log_term ≡ true))
unfolding handle_append_entries
log-handle_append_entries cm args now draw =
    let cm' = follow cm args.term args.leader_id now draw in
    ground (arith, log-accept cm' args, log-follow cm args.term args.leader_id now draw)

pub handle_append_entries-Rooted :
    (made : Made) (cm : ConsensusModule) (args : AppendEntriesArgs) (now : Instant) (draw : Draw)
    → Rooted made cm.log
    → Posted made args
    → Rooted made (handle_append_entries cm args now draw).0.log
handle_append_entries-Rooted made cm args now draw r p =
    elim (log-handle_append_entries cm args now draw) [
      | inl same ↦ rw same r
      | inr (spliced, ok) ↦
          let inside =
            is_consistent_inside cm.log args.prev_log_index args.prev_log_term r.fits ok in
          let term =
            consistent_term cm.log args.prev_log_index args.prev_log_term r.index r.fits p.origin
              ok in
          rw spliced (
            splice-Rooted made args.entries args.prev_log_index cm.log r
              (omega (arith, inside, last_index_lem cm.log r.fits, r.index)) p.small
              (rw term p.path))
    ]

-- The term that a leader sends along is that of the entry before.
sent_term :
    (log : Log) (prev : LogIndex)
    → log.snapshot_index ≡ 0
    → log.snapshot_term ≡ 0
    → Fits log
    → prev ≤ length log.entries
    → term_or_zero (Log.term_at log prev) ≡ term_upto 0 log.entries prev
unfolding last_term_of Log.term_at
sent_term log zero zero_index zero_term fits near = ground (arith, zero_index, zero_term)
sent_term log (suc m) zero_index zero_term fits near =
    let i : suc m ≡ m + 1 = omega arith in
    let (d, there) = get_elem?-lt log.entries m (omega (arith, near)) in
    let at : Log.term_at log (m + 1) ≡ some d.term =
      term_at-entries log m zero_index fits ∙ ap (Option.map (λ (e : LogEntry). e.term)) there in
    rw i (ap term_or_zero at ∙ sym (term_upto-get 0 log.entries m d there))

after_path :
    (made : Made) (log : Log) (prev : LogIndex)
    → Rooted made log
    → prev < 2 ^ 64
    → (prev + length (Log.entries_after log prev) < 2 ^ 64)
      × (prev ≡ 0 → term_or_zero (Log.term_at log prev) ≡ 0)
      × Chain made prev (term_or_zero (Log.term_at log prev)) (Log.entries_after log prev)
unfolding Log.entries_after last_term_of
after_path made log prev r small = elim (Bool-cases (leb prev (length log.entries))) [
  | inl near ↦
      let here : min (prev - log.snapshot_index) (length log.entries) ≡ prev =
        omega (arith, r.index, leb→le _ _ near) in
      let term = sent_term log prev r.index r.term r.fits (leb→le _ _ near) in
      rw here (
        omega (arith, length-drop prev log.entries, r.fits, small, leb→le _ _ near),
        λ first.
            sent_term log prev r.index r.term r.fits (leb→le _ _ near)
            ∙ ap (λ n. term_upto 0 log.entries n) first,
        rw term (
            subst (λ p. Chain made p (term_upto 0 log.entries prev) (drop prev log.entries))
              (omega arith) (Chain-drop made prev 0 0 log.entries (leb→le _ _ near) r.path)),
      )
  | inr beyond ↦
      let nothing : drop (min (prev - log.snapshot_index) (length log.entries)) log.entries ≡ [] =
        drop_of_length-le _ log.entries (omega (arith, r.index, leb_false→lt _ _ beyond)) in
      rw nothing
        (omega (arith, small), λ first. absurd (omega (arith, first, leb_false→lt _ _ beyond)), tt)
]

pub append_args_for-Posted :
    (made : Made) (cm : ConsensusModule) (peer : NodeId)
    → Rooted made cm.log
    → Posted made (append_args_for cm peer)
unfolding append_args_for
append_args_for-Posted made cm peer r =
    let (small, origin, path) =
      after_path made cm.log (append_args_for cm peer).prev_log_index r (omega arith) in
    record { small = small; origin = origin; path = path }
