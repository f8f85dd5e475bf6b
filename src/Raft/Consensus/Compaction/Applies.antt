-- ===== src/Raft/Consensus/Compaction/Applies.antt =====
-- `take_applies` of raft/consensus.rs.
use mathlib.Core.Path.{subst}
use murmur.Prelude.{ℕ, zero, suc, ◌+◌, ◌-◌, ◌≤◌, ◌≡◌, refl, none, some, List, [], ◌∷◌, ◌++◌, arith}
use murmur.Raft.Types.{LogIndex, LogEntry, Apply}
use murmur.Raft.Log
use murmur.Raft.Log.{Log}
use murmur.Raft.Log.Lookup.{Fits, get-some}
use murmur.Raft.Consensus.State.{ConsensusModule}
use murmur.Raft.Consensus.Invariant.{IsValid}
use murmur.Raft.Consensus.Compaction.{take_entries, take_applies, pending, applied_entry}

-- `out` holds the entries behind `last_applied` up to `upto`, in order, none twice.
abbrev pub InOrder : Log → LogIndex → LogIndex → List Apply → Type 0
InOrder log last_applied upto [] = last_applied ≡ upto
InOrder log last_applied upto (a ∷ out) =
    ((e : LogEntry) × (Log.get log (last_applied + 1) ≡ some e)
      × (a ≡ applied_entry (last_applied + 1) e))
    × InOrder log (last_applied + 1) upto out

shift_suc : (last rounds : ℕ) → last + suc rounds ≡ last + 1 + rounds
shift_suc last rounds = omega arith

take_entries_lem :
    (log : Log) (rounds : ℕ) (last_applied : LogIndex)
    → Fits log
    → log.snapshot_index ≤ last_applied
    → last_applied + rounds ≤ Log.last_index log
    → (out : List Apply) × (take_entries log rounds last_applied ≡ some out)
      × InOrder log last_applied (last_applied + rounds) out
unfolding take_entries
take_entries_lem log zero last h lo hi = ([], refl, omega arith)
take_entries_lem log (suc rounds) last h lo hi =
    let (e, got) = get-some log (last + 1) h (omega arith) (omega arith) in
    let (out, taken, ordered) =
      take_entries_lem log rounds (last + 1) h (omega arith) (omega arith) in
    (
      applied_entry (last + 1) e ∷ out,
      rw (got, taken),
      ((e, got, refl), rw (shift_suc last rounds) ordered),
    )

take_applies_of :
    (cm : ConsensusModule) (out : List Apply)
    → take_entries cm.log (cm.commit_index - cm.last_applied) cm.last_applied ≡ some out
    → cm.last_applied + (cm.commit_index - cm.last_applied) ≡ cm.commit_index
    → take_applies cm
      ≡ some (
        record cm { last_applied = cm.commit_index; pending_snapshot = none },
        pending cm.pending_snapshot ++ out,
      )
unfolding take_applies
take_applies_of cm out taken upto = rw (taken, take_applies) (rw upto)

-- In a valid state no `expect` fails: the applied items are the pending snapshot, if there is one,
-- and then every committed entry that was not applied yet, in log order. Afterwards the apply cursor
-- is the commit index, and no snapshot is pending.
pub take_applies_lem :
    (cm : ConsensusModule)
    → IsValid cm
    → (out : List Apply) × (take_applies cm
        ≡ some (
          record cm { last_applied = cm.commit_index; pending_snapshot = none },
          pending cm.pending_snapshot ++ out,
        ))
      × InOrder cm.log cm.last_applied cm.commit_index out
take_applies_lem cm v =
    let rounds = cm.commit_index - cm.last_applied in
    let upto : cm.last_applied + rounds ≡ cm.commit_index = omega (arith, v.applied) in
    let (out, taken, ordered) =
      take_entries_lem cm.log rounds cm.last_applied v.fits v.from_snapshot
        (omega (arith, v.applied, v.committed)) in
    (
      out,
      take_applies_of cm out taken upto,
      subst (λ n. InOrder cm.log cm.last_applied n out) upto ordered,
    )
