-- ===== src/Raft/Cluster/Safety.antt =====
-- Election safety: no two members of a cluster lead in one term.
use murmur.Prelude.{
  ◌+◌, ◌/◌, ◌≤◌, ◌≡◌, refl, length, ◌⊎◌, inl, inr, true, none, some, List, [], ◌∷◌, All, ◌==◌,
  Bool-cases, arith,
}
use murmur.Prelude.Maps.{member}
use murmur.Raft.Types.{Term, NodeId, leader}
use murmur.Raft.Config.{Instant, Draw}
use murmur.Raft.Consensus.State.{ConsensusModule}
use murmur.Raft.Consensus.Election.{start_election}
use murmur.Raft.Consensus.Steps.{Event, exec}
use murmur.Raft.Cluster.{Cluster, is_local, Step, act, vote, tally, Initial, Reach, start, later}
use murmur.Raft.Cluster.Quorum.{Distinct, quorums_meet}
use murmur.Raft.Cluster.Tally.{is_quiet}
use murmur.Raft.Cluster.Cast.{Cast, Tallied, Inv, Extends, Extends-refl, All-Extends, record_vote}
use murmur.Raft.Cluster.Members.{quiet-Inv, campaign-Inv}
use murmur.Raft.Cluster.Ballots.{vote-Inv, tally-Inv}

pub Initial-Inv :
    (members : List NodeId) (s : Cluster) → Initial members s → Inv members (λ _ _. none) s
Initial-Inv members s init = record {
  joined = λ i inside. record {
    named = init.named i inside;
    sized = init.sized i inside;
    majority = init.majority i inside;
    durable = init.durable i inside;
    tallied = rw (init.resting i inside) tt;
  };
  bound = λ v t c h. cc;
  mailed = λ k b at real granted. absurd (ground (arith, at, init.nobody_asked));
}

pub local_cases :
    (e : Event)
    → is_local e ≡ true
    → (is_quiet e ≡ true) ⊎ ((now : Instant) × (draw : Draw) × (e ≡ Event.campaign now draw))
local_cases (Event.campaign now draw) h = inr (now, draw, refl)
local_cases (Event.vote_request args now draw) h = cc
local_cases (Event.vote_reply from reply) h = cc
local_cases _ h = inl refl

pub campaign_result :
    (cm cm' : ConsensusModule) (now : Instant) (draw : Draw)
    → exec cm (Event.campaign now draw) ≡ some cm'
    → (start_election cm now draw).0 ≡ cm'
unfolding exec
campaign_result cm cm' now draw r = ground (arith, r)

pub Step-Inv :
    (members : List NodeId) (cast : Cast) {s s' : Cluster}
    → Step members s s'
    → Inv members cast s
    → (cast' : Cast) × Extends cast cast' × Inv members cast' s'
Step-Inv members cast {s} (act i e {cm} inside f local r) inv = elim (local_cases e local) [
  | inl quiet ↦ (cast, Extends-refl cast, quiet-Inv members cast s i e cm inv inside f quiet r)
  | inr (now, draw, chosen) ↦
      let (e, inv') = campaign-Inv members cast s i now draw inv inside f in
      (
        record_vote cast i ((s.nodes i).current_term + 1) i,
        e,
        rw (campaign_result (s.nodes i) cm now draw (rw chosen at r)) at inv',
      )
]
Step-Inv members cast {s} (vote i args now draw inside f) inv =
    vote-Inv members cast s i args now draw inv inside
Step-Inv members cast {s} (tally k b at real inside) inv =
    (cast, Extends-refl cast, tally-Inv members cast s k b inv at real inside)

Reach-Inv :
    (members : List NodeId) {s : Cluster} → Reach members s → (cast : Cast) × Inv members cast s
Reach-Inv members (start init) = ((λ _ _. none), Initial-Inv members _ init)
Reach-Inv members (later r step) =
    let (cast, inv) = Reach-Inv members r in
    let (cast', _, inv') = Step-Inv members cast step inv in (cast', inv')

All-inside :
    (members : List NodeId) (cast : Cast) (i : NodeId) (t : Term) (votes : List NodeId)
    → All (λ v. (member v members ≡ true) × (cast v t ≡ some i)) votes
    → All (λ v. member v members ≡ true) votes
All-inside members cast i t [] a = tt
All-inside members cast i t (v ∷ votes) ((inside, _), a) =
    (inside, All-inside members cast i t votes a)

All-member :
    (members : List NodeId) (cast : Cast) (i : NodeId) (t : Term) (votes : List NodeId) (v : NodeId)
    → All (λ w. (member w members ≡ true) × (cast w t ≡ some i)) votes
    → member v votes ≡ true
    → cast v t ≡ some i
unfolding member
All-member members cast i t [] v a inside = cc
All-member members cast i t (w ∷ votes) v ((_, h), a) inside = elim (Bool-cases (w == v)) [
  | inl same ↦ let at : w ≡ v = ground (arith, same) in rw at at h
  | inr other ↦ All-member members cast i t votes v a (rw other at inside)
]

-- A majority of the members voted for `i` in term `t`.
pub record Chosen (members : List NodeId) (cast : Cast) (t : Term) (i : NodeId) : Type 0 where
  pub votes : List NodeId
  pub by_members : All (λ v. (member v members ≡ true) × (cast v t ≡ some i)) votes
  pub distinct : Distinct votes
  pub enough : length members / 2 + 1 ≤ length votes

-- A member that leads was chosen.
pub leader-Chosen :
    (members : List NodeId) (cast : Cast) (s : Cluster) (i : NodeId)
    → Inv members cast s
    → member i members ≡ true
    → (s.nodes i).role ≡ leader
    → Chosen members cast (s.nodes i).current_term i
leader-Chosen members cast s i inv inside leads =
    let m = inv.joined i inside in
    let led : Tallied members cast i leader (s.nodes i).quorum (s.nodes i).current_term
        (s.nodes i).votes =
      rw leads at m.tallied in
    record {
      votes = (s.nodes i).votes;
      by_members = led.0;
      distinct = led.1;
      enough = omega (arith, led.2, m.majority, m.sized);
    }

pub Chosen-unique :
    (members : List NodeId) (cast : Cast) (t : Term) (i j : NodeId)
    → Chosen members cast t i
    → Chosen members cast t j
    → i ≡ j
Chosen-unique members cast t i j p q =
    let (v, in_p, in_q) =
      quorums_meet p.votes q.votes members p.distinct q.distinct
        (All-inside members cast i t p.votes p.by_members)
        (All-inside members cast j t q.votes q.by_members) p.enough q.enough in
    ground (
      arith,
      All-member members cast i t p.votes v p.by_members in_p,
      All-member members cast j t q.votes v q.by_members in_q,
    )

pub Chosen-Extends :
    (members : List NodeId) (cast cast' : Cast) (t : Term) (i : NodeId)
    → Extends cast cast'
    → Chosen members cast t i
    → Chosen members cast' t i
Chosen-Extends members cast cast' t i e p = record {
  votes = p.votes;
  by_members = All-Extends members cast cast' i t p.votes e p.by_members;
  distinct = p.distinct;
  enough = p.enough;
}

-- In a cluster that starts with followers on working storages that hold their states, whatever is
-- delivered, delayed, repeated, lost, or restarted while the states of the members fit: two members
-- that lead in the same term are one.
pub election_safety :
    (members : List NodeId) {s : Cluster} (i j : NodeId)
    → Reach members s
    → member i members ≡ true
    → member j members ≡ true
    → (s.nodes i).role ≡ leader
    → (s.nodes j).role ≡ leader
    → (s.nodes i).current_term ≡ (s.nodes j).current_term
    → i ≡ j
election_safety members {s} i j r in_i in_j leads_i leads_j same =
    let (cast, inv) = Reach-Inv members r in
    Chosen-unique members cast (s.nodes i).current_term i j
      (leader-Chosen members cast s i inv in_i leads_i)
      (rw (← same) at (leader-Chosen members cast s j inv in_j leads_j))
