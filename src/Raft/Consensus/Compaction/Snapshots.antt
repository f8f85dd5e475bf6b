-- ===== src/Raft/Consensus/Compaction/Snapshots.antt =====
-- Taking and installing snapshots in raft/consensus.rs.
use murmur.Prelude.{
  ◌^◌, ◌≤◌, ◌<◌, ◌≡◌, refl, ◌∙◌, Bool, none, some, ltb, leb, ◌&&◌, if◌then◌else◌, arith, Bool-cases,
  inl, inr,
}
use murmur.Raft.Types.{Term, LogIndex, Bytes}
use murmur.Raft.Log
use murmur.Raft.Log.{Log, has_term}
use murmur.Raft.Log.Lookup.{Fits, last_index_lem, get-some, term_at_lem}
use murmur.Raft.Log.Edit.{compact-Fits, get-compact, last_index-compact}
use murmur.Raft.Rpc.{InstallSnapshotArgs}
use murmur.Raft.Config.{Instant, Draw}
use murmur.Raft.Consensus.State.{ConsensusModule, persist}
use murmur.Raft.Consensus.Invariant.{IsValid}
use murmur.Raft.Consensus.Follower.{follow}
use murmur.Raft.Consensus.Follower.Accept.{follow-IsValid}
use murmur.Raft.Consensus.Compaction.{snapshot_at, snapshot, install, handle_install_snapshot}

compact_index :
    (log : Log) (i : LogIndex) (t : Term)
    → log.snapshot_index < i
    → ((Log.compact log i t).snapshot_index ≡ i) × ((Log.compact log i t).snapshot_term ≡ t)
unfolding Log.compact
compact_index log i t above = ground arith

term_at-some :
    (log : Log) (i : LogIndex)
    → Fits log
    → log.snapshot_index < i
    → i ≤ Log.last_index log
    → (t : Term) × (Log.term_at log i ≡ some t)
term_at-some log i h lo hi =
    let (e, got) = get-some log i h lo hi in (e.term, ground (arith, term_at_lem log i h, got))

module _ (cm : ConsensusModule) (index : LogIndex) (bytes : Bytes) where
  -- What `snapshot` leaves of a valid state.
  compacted-IsValid :
      (t : Term)
      → IsValid cm
      → cm.log.snapshot_index < index
      → index ≤ cm.last_applied
      → Log.term_at cm.log index ≡ some t
      → IsValid (persist (record cm { log = Log.compact cm.log index t; snapshot = some bytes }))
  unfolding persist
  compacted-IsValid t v above applied found =
      let small : index < 2 ^ 64 =
        omega (arith, v.fits, v.applied, v.committed, last_index_lem cm.log v.fits) in
      let (same_index, same_term) = compact_index cm.log index t above in
      let kept : Log.last_index (Log.compact cm.log index t) ≡ Log.last_index cm.log =
        last_index-compact cm.log index t v.fits small above ∙ ground (arith, found) in
      record {
        fits = compact-Fits cm.log index t v.fits small;
        from_snapshot = omega (arith, same_index);
        applied = v.applied;
        committed = omega (arith, kept, v.committed);
        majority = v.majority;
        origin = tt;
        elected = v.elected;
      }

  -- Whether `snapshot` acts: the index is new, and applied.
  abbrev pub is_fresh : Bool
  is_fresh = ltb cm.log.snapshot_index index && leb index cm.last_applied

  -- What `snapshot` does to a state, without the panic.
  pub record Compacted (cm' : ConsensusModule) : Type 0 where
    pub valid : IsValid cm'
    pub boundary : cm'.log.snapshot_index ≡ (if is_fresh then index else cm.log.snapshot_index)
    pub kept :
        (j : LogIndex)
        → Log.get cm'.log j ≡ (if is_fresh && leb j index then none else Log.get cm.log j)
    pub shipped : cm'.snapshot ≡ (if is_fresh then some bytes else cm.snapshot)
    pub end : Log.last_index cm'.log ≡ Log.last_index cm.log

  fresh_Compacted :
      (t : Term)
      → IsValid cm
      → cm.log.snapshot_index < index
      → index ≤ cm.last_applied
      → Log.term_at cm.log index ≡ some t
      → Compacted (persist (record cm { log = Log.compact cm.log index t; snapshot = some bytes }))
  unfolding persist
  fresh_Compacted t v above applied found =
      let small : index < 2 ^ 64 =
        omega (arith, v.fits, v.applied, v.committed, last_index_lem cm.log v.fits) in
      let (same_index, _) = compact_index cm.log index t above in
      record {
        valid = unfold persist in compacted-IsValid t v above applied found;
        boundary = ground (arith, same_index);
        kept = λ j. ground (arith, get-compact cm.log index t j v.fits small, found);
        shipped = ground arith;
        end = last_index-compact cm.log index t v.fits small above ∙ ground (arith, found);
      }

  -- In a valid state `snapshot` never panics. It acts exactly if the index is behind the boundary and
  -- applied: then the boundary moves to the index, the entries up to it are dropped, all others and
  -- the last index stay, and the bytes become the snapshot. The invariant holds again.
  pub snapshot_lem :
      IsValid cm → (cm' : ConsensusModule) × (snapshot cm index bytes ≡ some cm') × Compacted cm'
  unfolding snapshot snapshot_at
  snapshot_lem v = elim (Bool-cases is_fresh) [
    | inl fresh ↦
        let (t, found) =
          term_at-some cm.log index v.fits (ground arith)
            (ground (arith, v.applied, v.committed)) in
        (
          persist (record cm { log = Log.compact cm.log index t; snapshot = some bytes }),
          ground (arith, found),
          fresh_Compacted t v (ground arith) (ground arith) found,
        )
    | inr stale ↦ (
      cm,
      ground arith,
      record {
        valid = v;
        boundary = rw stale;
        kept = λ j. rw stale;
        shipped = rw stale;
        end = refl;
      },
    )
  ]

module _ (cm : ConsensusModule) (args : InstallSnapshotArgs) where
  install-IsValid :
      IsValid cm
      → cm.commit_index < args.last_included_index
      → args.last_included_index < 2 ^ 64
      → IsValid (install cm args)
  unfolding install
  install-IsValid v ahead small =
      let (same_index, _) =
        compact_index cm.log args.last_included_index args.last_included_term
          (omega (arith, v.from_snapshot, v.applied)) in
      let log = Log.compact cm.log args.last_included_index args.last_included_term in
      let fits' =
        compact-Fits cm.log args.last_included_index args.last_included_term v.fits small in
      record {
        fits = fits';
        from_snapshot = omega (arith, same_index);
        applied = omega arith;
        committed = omega (arith, last_index_lem log fits', same_index);
        majority = v.majority;
        origin = tt;
        elected = v.elected;
      }

-- On a valid state, a snapshot whose index fits in 64 bits leaves a valid state, on every branch.
pub handle_install_snapshot-IsValid :
    (cm : ConsensusModule) (args : InstallSnapshotArgs) (now : Instant) (draw : Draw)
    → IsValid cm
    → args.last_included_index < 2 ^ 64
    → IsValid (handle_install_snapshot cm args now draw).0
unfolding handle_install_snapshot
handle_install_snapshot-IsValid cm args now draw v small = ground (
  arith,
  follow-IsValid cm args.term args.leader_id now draw v,
  install-IsValid (follow cm args.term args.leader_id now draw) args,
)
