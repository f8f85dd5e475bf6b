-- ===== src/Raft/Cluster/Members.antt =====
-- A member acts or campaigns: the votes cast stay bound.
use murmur.Prelude.{
  ◌+◌, ◌^◌, ◌≤◌, ◌<◌, ◌≡◌, refl, ap, ◌∙◌, ◌⊎◌, inl, inr, true, some, List, [], ◌∷◌, length, arith,
}
use murmur.Prelude.Maps.{member, insert_set}
use murmur.Raft.Types.{Term, NodeId, candidate, leader}
use murmur.Raft.Config.{Instant, Draw}
use murmur.Raft.Consensus.State.{ConsensusModule, persist, become_leader, maybe_become_leader}
use murmur.Raft.Consensus.Election.{campaign, start_election}
use murmur.Raft.Consensus.Steps.{Event, exec, Fit}
use murmur.Raft.Consensus.Steps.Saves.{Durable}
use murmur.Raft.Consensus.Steps.Durable.{exec-Durable, start_election-Durable}
use murmur.Raft.Consensus.Steps.Promises.{exec-HasVoted, start_election-HasVoted}
use murmur.Raft.Cluster.{Cluster, update}
use murmur.Raft.Cluster.Tally.{HasMajority, Quiet, is_quiet, exec-Quiet}
use murmur.Raft.Cluster.Cast.{
  Cast, Tallied, IsMember, Inv, Extends, update-Inv, bound-update, Extends-refl, record_vote,
  record_vote-Extends, cast-Inv,
}

Tallied-Quiet :
    (members : List NodeId) (cast : Cast) (i : NodeId) (cm cm' : ConsensusModule)
    → HasMajority cm
    → Quiet cm cm'
    → Tallied members cast i cm.role cm.quorum cm.current_term cm.votes
    → Tallied members cast i cm'.role cm'.quorum cm'.current_term cm'.votes
Tallied-Quiet members cast i cm cm' m q h =
    let same_quorum : cm'.quorum ≡ cm.quorum = ground (arith, m, q) in
    elim q.tally [
      | inl follows ↦ rw follows tt
      | inr (role, term, votes) ↦ rw (role, term, votes, same_quorum) h
    ]

pub IsMember-Quiet :
    (members : List NodeId) (cast : Cast) (i : NodeId) (cm cm' : ConsensusModule)
    → IsMember members cast i cm
    → Quiet cm cm'
    → Durable cm'
    → IsMember members cast i cm'
IsMember-Quiet members cast i cm cm' m q d = record {
  named = q.same_id ∙ m.named;
  sized = rw q.same_peers m.sized;
  majority = q.majority;
  durable = d;
  tallied = Tallied-Quiet members cast i cm cm' m.majority q m.tallied;
}

-- A quiet event.
pub quiet-Inv :
    (members : List NodeId) (cast : Cast) (s : Cluster) (i : NodeId) (e : Event)
    (cm : ConsensusModule)
    → Inv members cast s
    → member i members ≡ true
    → Fit (s.nodes i)
    → is_quiet e ≡ true
    → exec (s.nodes i) e ≡ some cm
    → Inv members cast (record s { nodes = update s.nodes i cm })
quiet-Inv members cast s i e cm inv inside f q r =
    let m = inv.joined i inside in
    update-Inv members cast cast s i cm s.sent inv (Extends-refl cast)
      (IsMember-Quiet members cast i (s.nodes i) cm m
        (exec-Quiet (s.nodes i) cm e m.majority f m.durable q r)
        (exec-Durable (s.nodes i) cm e f m.durable r))
      (bound-update cast s.nodes i cm inv.bound
        (λ t c h. exec-HasVoted t c (s.nodes i) cm e f m.durable h r))
      inv.mailed

-- What a campaign makes of a node.
pub start_election_lem :
    (cm : ConsensusModule) (now : Instant) (draw : Draw)
    → cm.current_term + 1 < 2 ^ 64
    → let cm' = (start_election cm now draw).0 in
      (cm'.id ≡ cm.id)
      × (cm'.peers ≡ cm.peers)
      × (cm'.quorum ≡ cm.quorum)
      × (cm'.current_term ≡ cm.current_term + 1)
      × (cm'.voted_for ≡ some cm.id)
      × (cm'.votes ≡ cm.id ∷ [])
      × ((cm'.role ≡ candidate) ⊎ ((cm'.role ≡ leader) × (cm'.quorum ≤ length cm'.votes)))
unfolding start_election campaign maybe_become_leader become_leader insert_set member persist
start_election_lem cm now draw room = ground arith

Tallied-campaign :
    (members : List NodeId) (cast : Cast) (i : NodeId) (cm : ConsensusModule) (t : Term)
    → member i members ≡ true
    → cast i t ≡ some i
    → cm.current_term ≡ t
    → cm.votes ≡ i ∷ []
    → (cm.role ≡ candidate) ⊎ ((cm.role ≡ leader) × (cm.quorum ≤ length cm.votes))
    → Tallied members cast i cm.role cm.quorum cm.current_term cm.votes
unfolding member
Tallied-campaign members cast i cm t inside voted term votes (inl stands) =
    rw (stands, term, votes) (((inside, voted), tt), (refl, tt))
Tallied-campaign members cast i cm t inside voted term votes (inr (leads, q)) =
    rw (leads, term, votes) (((inside, voted), tt), (refl, tt), rw votes at q)

pub campaign-Inv :
    (members : List NodeId) (cast : Cast) (s : Cluster) (i : NodeId) (now : Instant) (draw : Draw)
    → Inv members cast s
    → member i members ≡ true
    → Fit (s.nodes i)
    → Extends cast (record_vote cast i ((s.nodes i).current_term + 1) i)
      × Inv members
          (record_vote cast i ((s.nodes i).current_term + 1) i)
          (record s { nodes = update s.nodes i (start_election (s.nodes i) now draw).0 })
campaign-Inv members cast s i now draw inv inside f =
    let cm = s.nodes i in
    let m = inv.joined i inside in
    let cm' = (start_election cm now draw).0 in
    let t = cm.current_term + 1 in
    let (id, peers, quorum, term, voted, votes, stands) =
      start_election_lem cm now draw f.next_term in
    let once : (d : NodeId) → cast i t ≡ some d → d ≡ i =
      λ d h. absurd (ground (arith, inv.bound i t d h)) in
    let here : record_vote cast i t i i t ≡ some i = ground arith in
    let own : IsMember members (record_vote cast i t i) i cm' = record {
      named = id ∙ m.named;
      sized = rw peers m.sized;
      majority = ground (arith, peers, quorum, m.majority);
      durable = start_election-Durable cm m.durable now draw;
      tallied =
          Tallied-campaign members (record_vote cast i t i) i cm' t inside here term
            (votes ∙ ap (λ k. k ∷ []) m.named) stands;
    } in
    (
      record_vote-Extends cast i t i once,
      cast-Inv members cast s i cm' t i s.sent inv once
          (λ u d h. start_election-HasVoted u d cm h now draw f.next_term)
          (inr (term, voted ∙ ap some m.named)) own
          (λ k b at real granted.
            let (voter, h) = inv.mailed k b at real granted in
            (voter, record_vote-Extends cast i t i once b.voter b.reply.term b.candidate h)),
    )
