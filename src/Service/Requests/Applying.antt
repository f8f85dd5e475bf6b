-- ===== src/Service/Requests/Applying.antt =====
-- app.rs: what the apply loop makes of the state machine and of the log.
use murmur.Prelude.{
  ℕ, ◌≤◌, ◌<◌, ◌≡◌, refl, sym, ap, ◌∙◌, Option, some, List, [], ◌∷◌, leb, Bool-cases, inl, inr,
  arith,
}
use murmur.Raft.Types.{LogIndex, Bytes, Apply}
use murmur.Raft.Log
use murmur.Raft.Consensus.State.{ConsensusModule}
use murmur.Raft.Consensus.Invariant.{IsValid}
use murmur.Raft.Consensus.Compaction.{snapshot}
use murmur.Raft.Consensus.Compaction.Snapshots.{snapshot_lem, Compacted}
use murmur.Raft.Consensus.Steps.Cursor.{snapshot-Still}
use murmur.Service.Command.{Command}
use murmur.Service.Store.{Engine}
use murmur.Service.State.{AppState}
use murmur.Service.Snapshot.{build_snapshot, install_snapshot}
use murmur.Service.Requests.{Inner, snapshot_threshold, applied_state, apply_item, run_apply_loop}

module _ {Db : Type 0} (sable : Engine Db) (unknown_op : ℕ → Bytes) (lossy : Bytes → Bytes)
    (decode : Bytes → Option Command) where
  -- The state machine as the stream alone determines it.
  unfoldable pub replay : AppState Db → List Apply → AppState Db
  replay s [] = s
  replay s (Apply.command entry ∷ items) =
      replay (applied_state sable unknown_op lossy decode s entry.command) items
  replay s (Apply.snapshot p ∷ items) = replay (install_snapshot sable lossy s p.bytes) items

  -- The core has lost no entry that was not applied.
  pub record Trimmed (cm cm' : ConsensusModule) : Type 0 where
    pub valid : IsValid cm'
    pub end : Log.last_index cm'.log ≡ Log.last_index cm.log
    pub boundary : cm'.log.snapshot_index ≤ cm.last_applied
    pub cursor : cm'.last_applied ≡ cm.last_applied
    pub kept : (j : LogIndex) → cm.last_applied < j → Log.get cm'.log j ≡ Log.get cm.log j

  Trimmed-refl : (cm : ConsensusModule) → IsValid cm → Trimmed cm cm
  Trimmed-refl cm v = record {
    valid = v;
    end = refl;
    boundary = v.from_snapshot;
    cursor = refl;
    kept = λ j behind. refl;
  }

  Trimmed-trans : (a b c : ConsensusModule) → Trimmed a b → Trimmed b c → Trimmed a c
  Trimmed-trans a b c p q = record {
    valid = q.valid;
    end = q.end ∙ p.end;
    boundary = omega (arith, q.boundary, p.cursor);
    cursor = q.cursor ∙ p.cursor;
    kept = λ j behind. q.kept j (omega (arith, behind, p.cursor)) ∙ p.kept j behind;
  }

  Compacted-Trimmed :
      (cm cm' : ConsensusModule) (index : LogIndex) (image : Bytes)
      → IsValid cm
      → snapshot cm index image ≡ some cm'
      → Compacted cm index image cm'
      → Trimmed cm cm'
  Compacted-Trimmed cm cm' index image v ran c = record {
    valid = c.valid;
    end = c.end;
    boundary = ground (arith, c.boundary, v.from_snapshot);
    cursor = (snapshot-Still cm cm' index image ran).0;
    kept = λ j behind. ground (arith, c.kept j, behind);
  }

  apply_item_lem :
      (inner : Inner Db) (item : Apply)
      → IsValid inner.core
      → (inner' : Inner Db) × (apply_item sable unknown_op lossy decode inner item ≡ some inner')
        × (inner'.state ≡ replay inner.state (item ∷ []))
        × Trimmed inner.core inner'.core
  unfolding apply_item replay
  apply_item_lem inner (Apply.snapshot p) v = (_, refl, refl, Trimmed-refl inner.core v)
  apply_item_lem inner (Apply.command entry) v =
      let state = applied_state sable unknown_op lossy decode inner.state entry.command in
      let image = build_snapshot sable state in
      let (core, ran, c) = snapshot_lem inner.core entry.index image v in
      elim (Bool-cases (leb snapshot_threshold (Log.len inner.core.log))) [
        | inl long ↦ (
          record inner { core = core; state = state },
          rw (long, ran) refl,
          refl,
          Compacted-Trimmed inner.core core entry.index image v ran c,
        )
        | inr short ↦
            (record inner { state = state }, rw short refl, refl, Trimmed-refl inner.core v)
      ]

  replay-cons :
      (s : AppState Db) (item : Apply) (items : List Apply)
      → replay s (item ∷ items) ≡ replay (replay s (item ∷ [])) items
  unfolding replay
  replay-cons s (Apply.command entry) items = refl
  replay-cons s (Apply.snapshot p) items = refl

  -- From a valid core the loop never panics, whatever it receives: the state machine becomes what the
  -- stream alone makes of it, whenever snapshots are taken. The core stays valid, with the same end of
  -- its log and the same apply cursor, and it keeps every entry that was not applied.
  pub run_apply_loop_lem :
      (items : List Apply) (inner : Inner Db)
      → IsValid inner.core
      → (inner' : Inner Db) × (run_apply_loop sable unknown_op lossy decode inner items
          ≡ some inner')
        × (inner'.state ≡ replay inner.state items)
        × Trimmed inner.core inner'.core
  unfolding run_apply_loop
  run_apply_loop_lem [] inner v = (inner, refl, unfold replay in refl, Trimmed-refl inner.core v)
  run_apply_loop_lem (item ∷ items) inner v =
      let (mid, one, same, t) = apply_item_lem inner item v in
      let (inner', rest, same', t') = run_apply_loop_lem items mid t.valid in
      (
        inner',
        rw (run_apply_loop, one) rest,
        same' ∙ ap (λ s. replay s items) same ∙ sym (replay-cons inner.state item items),
        Trimmed-trans inner.core mid.core inner'.core t t',
      )
