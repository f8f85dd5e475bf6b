-- ===== src/Raft/Cluster/Cast.antt =====
-- The votes that the members of a cluster have cast, and what they bind.
use murmur.Prelude.{
  ℕ, ◌+◌, ◌≤◌, ◌≡◌, sym, ap, ◌∙◌, inl, inr, true, false, ◌&&◌, Option, some, List, [], ◌∷◌, All,
  length, get_elem?, ◌==◌, if◌then◌else◌, Bool-cases, arith,
}
use mathlib.Core.Path.{subst, subst₂, ap₂}
use murmur.Prelude.Maps.{member}
use murmur.Raft.Types.{Term, NodeId, Role, follower, candidate, leader}
use murmur.Raft.Consensus.State.{ConsensusModule}
use murmur.Raft.Consensus.Steps.Saves.{Durable}
use murmur.Raft.Consensus.Steps.Promises.{HasVoted}
use murmur.Raft.Cluster.{Ballot, Cluster, update}
use murmur.Raft.Cluster.Quorum.{Distinct}
use murmur.Raft.Cluster.Tally.{HasMajority}

-- Who has voted for whom in which term.
abbrev pub Cast : Type 0
Cast = NodeId → Term → Option NodeId

-- The votes that a candidate or leader counts were cast for it, by different members.
abbrev pub Tallied : List NodeId → Cast → NodeId → Role → ℕ → Term → List NodeId → Type 0
Tallied members cast i follower quorum term votes = Unit
Tallied members cast i candidate quorum term votes =
    All (λ v. (member v members ≡ true) × (cast v term ≡ some i)) votes × Distinct votes
Tallied members cast i leader quorum term votes =
    All (λ v. (member v members ≡ true) × (cast v term ≡ some i)) votes
    × Distinct votes
    × (quorum ≤ length votes)

pub record IsMember (members : List NodeId) (cast : Cast) (i : NodeId) (cm : ConsensusModule)
    : Type 0 where
  pub named : cm.id ≡ i
  pub sized : length cm.peers + 1 ≡ length members
  pub majority : HasMajority cm
  pub durable : Durable cm
  pub tallied : Tallied members cast i cm.role cm.quorum cm.current_term cm.votes

-- A vote that was granted was cast.
abbrev pub Mailed : List NodeId → Cast → List Ballot → Type 0
Mailed members cast sent =
    (k : ℕ) (b : Ballot)
    → get_elem? sent k ≡ some b
    → b.pre_vote ≡ false
    → b.reply.vote_granted ≡ true
    → (member b.voter members ≡ true) × (cast b.voter b.reply.term ≡ some b.candidate)

pub record Inv (members : List NodeId) (cast : Cast) (s : Cluster) : Type 0 where
  pub joined : (i : NodeId) → member i members ≡ true → IsMember members cast i (s.nodes i)
  pub bound : (v : NodeId) (t : Term) (c : NodeId) → cast v t ≡ some c → HasVoted t c (s.nodes v)
  pub mailed : Mailed members cast s.sent

-- No vote is taken back.
abbrev pub Extends : Cast → Cast → Type 0
Extends cast cast' = (v : NodeId) (t : Term) (c : NodeId) → cast v t ≡ some c → cast' v t ≡ some c

pub All-Extends :
    (members : List NodeId) (cast cast' : Cast) (i : NodeId) (t : Term) (votes : List NodeId)
    → Extends cast cast'
    → All (λ v. (member v members ≡ true) × (cast v t ≡ some i)) votes
    → All (λ v. (member v members ≡ true) × (cast' v t ≡ some i)) votes
All-Extends members cast cast' i t [] e a = tt
All-Extends members cast cast' i t (v ∷ votes) e ((m, h), a) =
    ((m, e v t i h), All-Extends members cast cast' i t votes e a)

Tallied-Extends :
    (members : List NodeId) (cast cast' : Cast) (i : NodeId) (role : Role) (quorum : ℕ) (t : Term)
    (votes : List NodeId)
    → Extends cast cast'
    → Tallied members cast i role quorum t votes
    → Tallied members cast' i role quorum t votes
Tallied-Extends members cast cast' i follower quorum t votes e h = tt
Tallied-Extends members cast cast' i candidate quorum t votes e (a, d) =
    (All-Extends members cast cast' i t votes e a, d)
Tallied-Extends members cast cast' i leader quorum t votes e (a, d, q) =
    (All-Extends members cast cast' i t votes e a, d, q)

pub IsMember-Extends :
    (members : List NodeId) (cast cast' : Cast) (i : NodeId) (cm : ConsensusModule)
    → Extends cast cast'
    → IsMember members cast i cm
    → IsMember members cast' i cm
IsMember-Extends members cast cast' i cm e m = record {
  named = m.named;
  sized = m.sized;
  majority = m.majority;
  durable = m.durable;
  tallied =
      Tallied-Extends members cast cast' i cm.role cm.quorum cm.current_term cm.votes e m.tallied;
}

-- One member changes, and may cast a vote or send a ballot.
pub update-Inv :
    (members : List NodeId) (cast cast' : Cast) (s : Cluster) (i : NodeId) (cm : ConsensusModule)
    (sent : List Ballot)
    → Inv members cast s
    → Extends cast cast'
    → IsMember members cast' i cm
    → ((v : NodeId) (t : Term) (c : NodeId)
        → cast' v t ≡ some c
        → HasVoted t c (update s.nodes i cm v))
    → Mailed members cast' sent
    → Inv members cast' (record { nodes = update s.nodes i cm; sent = sent })
update-Inv members cast cast' s i cm sent inv e own bound mailed = record {
  joined = λ j inside. elim (Bool-cases (i == j)) [
    | inl same ↦
        let at : i ≡ j = ground (arith, same) in
        rw same (subst (λ k. IsMember members cast' k cm) at own)
    | inr other ↦
        rw other (IsMember-Extends members cast cast' j (s.nodes j) e (inv.joined j inside))
  ];
  bound = bound;
  mailed = mailed;
}

-- Where a member changes and casts no vote, what is bound stays so.
pub bound-update :
    (cast : Cast) (nodes : NodeId → ConsensusModule) (i : NodeId) (cm : ConsensusModule)
    → ((v : NodeId) (t : Term) (c : NodeId) → cast v t ≡ some c → HasVoted t c (nodes v))
    → ((t : Term) (c : NodeId) → HasVoted t c (nodes i) → HasVoted t c cm)
    → (v : NodeId) (t : Term) (c : NodeId) → cast v t ≡ some c
    → HasVoted t c (update nodes i cm v)
bound-update cast nodes i cm old keep v t c h = elim (Bool-cases (i == v)) [
  | inl same ↦
      let at : i ≡ v = ground (arith, same) in rw same (keep t c (rw (← at) at (old v t c h)))
  | inr other ↦ rw other (old v t c h)
]

pub Extends-refl : (cast : Cast) → Extends cast cast
Extends-refl cast v t c h = h

-- `v` votes for `c` in term `t`.
abbrev pub record_vote : Cast → NodeId → Term → NodeId → Cast
record_vote cast v t c w u = if v == w && t == u then some c else cast w u

-- A vote extends what was cast, where it does not contradict it.
pub record_vote-Extends :
    (cast : Cast) (v : NodeId) (t : Term) (c : NodeId)
    → ((d : NodeId) → cast v t ≡ some d → d ≡ c)
    → Extends cast (record_vote cast v t c)
record_vote-Extends cast v t c once w u d h = elim (Bool-cases (v == w && t == u)) [
  | inl same ↦
      let voter : v ≡ w = ground (arith, same) in
      let term : t ≡ u = ground (arith, same) in
      rw same (ap some (sym (once d (ap₂ cast voter term ∙ h))))
  | inr other ↦ rw other h
]

-- A member casts a vote that binds it, and may send a ballot.
pub cast-Inv :
    (members : List NodeId) (cast : Cast) (s : Cluster) (i : NodeId) (cm : ConsensusModule)
    (t : Term) (c : NodeId) (sent : List Ballot)
    → Inv members cast s
    → ((d : NodeId) → cast i t ≡ some d → d ≡ c)
    → ((u : Term) (d : NodeId) → HasVoted u d (s.nodes i) → HasVoted u d cm)
    → HasVoted t c cm
    → IsMember members (record_vote cast i t c) i cm
    → Mailed members (record_vote cast i t c) sent
    → Inv members (record_vote cast i t c) (record { nodes = update s.nodes i cm; sent = sent })
cast-Inv members cast s i cm t c sent inv once keep voted own mailed =
    update-Inv members cast (record_vote cast i t c) s i cm sent inv
      (record_vote-Extends cast i t c once) own
      (λ w u d h. elim (Bool-cases (i == w && t == u)) [
        | inl same ↦
            let voter : i ≡ w = ground (arith, same) in
            let term : t ≡ u = ground (arith, same) in
            let choice : c ≡ d = ground (arith, same, h) in
            let here : (i == w) ≡ true = ground (arith, same) in
            rw here (subst₂ (λ x y. HasVoted x y cm) term choice voted)
        | inr other ↦ bound-update cast s.nodes i cm inv.bound keep w u d (rw other at h)
      ])
      mailed
