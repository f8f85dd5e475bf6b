-- ===== src/Raft/Cluster/Submitted.antt =====
-- `submit_command` of raft/consensus.rs on one node, and a tree of entries with one more.
use mathlib.Core.Option.{none-ne-some}
use mathlib.Core.Path.{ap₂}
use murmur.Prelude.{
  ◌+◌, ◌^◌, ◌<◌, ◌≡◌, refl, sym, ◌∙◌, inl, inr, true, false, ◌&&◌, none, some, [], ◌∷◌, ◌++◌,
  length, length-append, ◌==◌, if◌then◌else◌, Bool-cases, arith,
}
use murmur.Raft.Types.{Term, LogIndex, Bytes, LogEntry}
use murmur.Raft.Log
use murmur.Raft.Log.{Log, last_term_of}
use murmur.Raft.Consensus.State.{ConsensusModule, is_leader_role, persist}
use murmur.Raft.Consensus.Leader.{submit_command}
use murmur.Raft.Consensus.Leader.Commit.{maybe_advance_commit-Advanced}
use murmur.Raft.Cluster.Chain.{Made, Grows, Chain-append}
use murmur.Raft.Cluster.Paths.{Rooted}

-- What a command makes of a leader.
pub record Submitted (cm : ConsensusModule) (command : Bytes) (cm' : ConsensusModule) : Type 0 where
  pub same_role : cm'.role ≡ cm.role
  pub same_term : cm'.current_term ≡ cm.current_term
  pub grown : cm'.log ≡ record cm.log {
    entries = cm.log.entries ++ (record { term = cm.current_term; command = command } ∷ []);
  }

pub submit_command-leader :
    (cm : ConsensusModule) (command : Bytes)
    → is_leader_role cm.role ≡ true
    → Submitted cm command (submit_command cm command).0
unfolding submit_command persist Log.append
submit_command-leader cm command leads =
    rw (submit_command, leads)
      (let a = maybe_advance_commit-Advanced (
          persist (record cm {
            log = (Log.append cm.log (record { term = cm.current_term; command = command })).0;
          })) in
        rw a.only_commit (record { same_role = refl; same_term = refl; grown = refl }))

pub submit_command-other :
    (cm : ConsensusModule) (command : Bytes)
    → is_leader_role cm.role ≡ false
    → (submit_command cm command).0 ≡ cm
unfolding submit_command
submit_command-other cm command follows = rw (submit_command, follows) refl

-- The tree with one more entry.
abbrev pub create : Made → LogIndex → Term → Bytes × Term → Made
create made n t x i u = if i == n && u == t then some x else made i u

pub create-Grows :
    (made : Made) (n : LogIndex) (t : Term) (x : Bytes × Term)
    → made n t ≡ none
    → Grows made (create made n t x)
create-Grows made n t x free i u y h = elim (Bool-cases (i == n && u == t)) [
  | inl same ↦
      let index : i ≡ n = ground (arith, same) in
      let term : u ≡ t = ground (arith, same) in
      absurd (none-ne-some _ (sym free ∙ sym (ap₂ made index term) ∙ h))
  | inr other ↦ rw other h
]

pub append-Rooted :
    (made : Made) (log : Log) (e : LogEntry)
    → Rooted made log
    → length log.entries + 1 < 2 ^ 64
    → made (length log.entries + 1) e.term ≡ some (e.command, last_term_of 0 log.entries)
    → Rooted made (record log { entries = log.entries ++ (e ∷ []) })
append-Rooted made log e r room there = record {
  index = r.index;
  term = r.term;
  fits = omega (arith, r.index, room, length-append log.entries (e ∷ []));
  path =
      Chain-append made 0 0 log.entries e r.path
        (let at : 0 + length log.entries + 1 ≡ length log.entries + 1 = omega arith in rw at there);
}
