-- ===== src/Raft/Consensus/Leader/Commit.antt =====
-- `maybe_advance_commit` of raft/consensus.rs finds the highest index that may be committed.
use murmur.Prelude.{
  ℕ, zero, suc, ◌-◌, ◌≤◌, ◌<◌, ◌≡◌, refl, ◌⊎◌, true, false, leb, arith, Bool-cases, leb→le,
  leb_false→lt, inl, inr,
}
use murmur.Raft.Types.{LogIndex}
use murmur.Raft.Log
use murmur.Raft.Consensus.State.{ConsensusModule}
use murmur.Raft.Consensus.Leader.{is_committable, commit_walk, maybe_advance_commit}

-- Nothing in the range (low, high] may be committed.
abbrev pub NoneCommittable : ConsensusModule → LogIndex → LogIndex → Type 0
NoneCommittable cm low high = (n : LogIndex) → low < n → n ≤ high → is_committable cm n ≡ false

-- `cm'` is `cm` with the commit index at the highest committable index, if one lies above the old.
pub record Advanced (cm : ConsensusModule) (high : LogIndex) (cm' : ConsensusModule) : Type 0 where
  pub target : LogIndex
  pub only_commit : cm' ≡ record cm { commit_index = target }
  pub above : NoneCommittable cm target high
  pub moved :
      (target ≡ cm.commit_index)
      ⊎ ((cm.commit_index < target) × (target ≤ high) × (is_committable cm target ≡ true))

commit_walk-Advanced :
    (cm : ConsensusModule) (rounds : ℕ) (n : LogIndex)
    → rounds ≡ n - cm.commit_index
    → Advanced cm n (commit_walk cm rounds n)
unfolding commit_walk
commit_walk-Advanced cm zero n e = record {
  target = cm.commit_index;
  only_commit = refl;
  above = λ m lo hi. absurd (omega arith);
  moved = inl refl;
}
commit_walk-Advanced cm (suc rounds) n e = elim (Bool-cases (is_committable cm n)) [
  | inl can ↦ rw can (record {
    target = n;
    only_commit = refl;
    above = λ m lo hi. absurd (omega arith);
    moved = inr (omega arith, omega arith, can);
  })
  | inr cannot ↦ rw cannot (
      let a = commit_walk-Advanced cm rounds (n - 1) (omega arith) in
      record {
        target = a.target;
        only_commit = a.only_commit;
        above = λ m lo hi. elim (Bool-cases (leb m (n - 1))) [
          | inl below ↦ a.above m lo (leb→le _ _ below)
          | inr at_end ↦ let m_eq : m ≡ n = omega (arith, leb_false→lt _ _ at_end) in rw m_eq cannot
        ];
        moved = elim a.moved [
          | inl same ↦ inl same
          | inr (gt, le, can) ↦ inr (gt, omega arith, can)
        ];
      })
]

-- The loop ends at the highest index above the commit index that is committable, and changes
-- nothing else; where there is none it changes nothing.
pub maybe_advance_commit-Advanced :
    (cm : ConsensusModule) → Advanced cm (Log.last_index cm.log) (maybe_advance_commit cm)
unfolding maybe_advance_commit
maybe_advance_commit-Advanced cm = commit_walk-Advanced cm _ (Log.last_index cm.log) refl
