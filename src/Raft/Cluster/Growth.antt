-- ===== src/Raft/Cluster/Growth.antt =====
-- The entries that the leaders of a cluster without snapshots create, and how a member that moves keeps
-- its log a path among them.
use mathlib.Core.Path.{subst}
use murmur.Prelude.{
  ℕ, ◌≤◌, ◌<◌, ◌≡◌, ◌≢◌, sym, ◌∙◌, ◌⊎◌, inl, inr, true, false, some, List, length, get_elem?, ◌==◌,
  Bool-cases, arith,
}
use murmur.Prelude.Maps.{member}
use murmur.Raft.Types.{Term, LogIndex, NodeId, Bytes, follower, candidate, leader}
use murmur.Raft.Config.{Instant, Draw}
use murmur.Raft.Rpc.{AppendEntriesArgs}
use murmur.Raft.Consensus.State.{ConsensusModule, step_down, persist}
use murmur.Raft.Consensus.Follower.{follow, accept, handle_append_entries}
use murmur.Raft.Consensus.Steps.{Event, exec, Fit}
use murmur.Raft.Cluster
use murmur.Raft.Cluster.{Cluster, Ballot, update, is_local, ask, answer}
use murmur.Raft.Cluster.Cast.{Cast, Extends, Inv}
use murmur.Raft.Cluster.Safety.{
  local_cases, campaign_result, Chosen, leader-Chosen, Chosen-unique, Chosen-Extends, Step-Inv,
}
use murmur.Raft.Cluster.Chain.{Made}
use murmur.Raft.Cluster.Paths.{Rooted}
use murmur.Raft.Cluster.Posts.{Posted}
use murmur.Raft.Cluster.Moves.{Moves, quiet-Moves, campaign-Moves}
use murmur.Raft.Cluster.Tally.{HasMajority}
use murmur.Raft.Consensus.Steps.Saves.{Durable}
use murmur.Raft.Cluster.Replicas.{Replicas, put}

-- The node has been in the term, and does not stand in it: it leads, led, or went on.
pub record Past (t : Term) (cm : ConsensusModule) : Type 0 where
  pub reached : t ≤ cm.current_term
  pub not_standing : cm.role ≡ candidate → t ≢ cm.current_term

pub Past-Moves : (t : Term) (cm cm' : ConsensusModule) → Moves cm cm' → Past t cm → Past t cm'
Past-Moves t cm cm' m p = record {
  reached = omega (arith, m.term_up, p.reached);
  not_standing = λ stands e. elim (m.stands stands) [
    | inl (stood, same) ↦ p.not_standing stood (e ∙ same)
    | inr newer ↦ omega (arith, newer, p.reached, e)
  ];
}

-- The tree of entries: `made` has what a leader of the term created, and nothing of a term whose leader
-- is yet to come.
pub record Grown (members : List NodeId) (cast : Cast) (made : Made) (s : Replicas) : Type 0 where
  pub elected : Inv members cast s.cluster
  pub rooted : (i : NodeId) → member i members ≡ true → Rooted made (s.cluster.nodes i).log
  pub posted :
      (k : ℕ) (args : AppendEntriesArgs) → get_elem? s.posts k ≡ some args → Posted made args
  pub origin :
      (n : LogIndex) (t : Term) (x : Bytes × Term)
      → made n t ≡ some x
      → (j : NodeId) × (member j members ≡ true)
        × Chosen members cast t j
        × Past t (s.cluster.nodes j)
  pub complete :
      (i : NodeId)
      → member i members ≡ true
      → (s.cluster.nodes i).role ≡ leader
      → (n : LogIndex) (x : Bytes × Term) → made n (s.cluster.nodes i).current_term ≡ some x
      → n ≤ length (s.cluster.nodes i).log.entries

module _ (nodes : NodeId → ConsensusModule) (i : NodeId) (cm : ConsensusModule) where
  pub update_self : update nodes i cm i ≡ cm
  update_self = ground arith

  pub update-elim :
      (P : NodeId → ConsensusModule → Type 0)
      → P i cm
      → ((j : NodeId) → (i == j) ≡ false → P j (nodes j))
      → (j : NodeId) → P j (update nodes i cm j)
  update-elim P here old j = elim (Bool-cases (i == j)) [
    | inl same ↦ let at : i ≡ j = ground (arith, same) in rw same (subst (λ k. P k cm) at here)
    | inr other ↦ rw other (old j other)
  ]

module _ (members : List NodeId) (cast cast' : Cast) (made : Made) (s : Replicas) (i : NodeId)
    (cm : ConsensusModule) (sent : List Ballot) (g : Grown members cast made s)
    (inside : member i members ≡ true) where
  abbrev moved : Cluster
  moved = record { nodes = update s.cluster.nodes i cm; sent = sent }

  -- A member that comes to lead finds no entry of its term.
  leader_is_first :
      (n : LogIndex) (x : Bytes × Term)
      → Moves (s.cluster.nodes i) cm
      → Extends cast cast'
      → Inv members cast' moved
      → cm.role ≡ leader
      → ((s.cluster.nodes i).role ≡ candidate)
          × (cm.current_term ≡ (s.cluster.nodes i).current_term)
        ⊎ ((s.cluster.nodes i).current_term < cm.current_term)
      → made n cm.current_term ≡ some x
      → ⊥
  leader_is_first n x moves e inv leads fresh h =
      let (j, in_j, chosen, past) = g.origin n cm.current_term x h in
      let self = update_self s.cluster.nodes i cm in
      let mine : Chosen members cast' cm.current_term i =
        rw self at (leader-Chosen members cast' moved i inv inside (rw self leads)) in
      let same : i ≡ j =
        Chosen-unique members cast' cm.current_term i j mine
          (Chosen-Extends members cast cast' cm.current_term j e chosen) in
      let own : Past cm.current_term (s.cluster.nodes i) =
        subst (λ k. Past cm.current_term (s.cluster.nodes k)) (sym same) past in
      elim fresh [
        | inl (stood, same_term) ↦ own.not_standing stood same_term
        | inr newer ↦ omega (arith, newer, own.reached)
      ]

  -- A member moves: its log stays a path, and does not change while it leads.
  pub move-Grown :
      Moves (s.cluster.nodes i) cm
      → Rooted made cm.log
      → (cm.role ≡ leader → cm.log ≡ (s.cluster.nodes i).log)
      → Extends cast cast'
      → Inv members cast' moved
      → Grown members cast' made (record s { cluster = moved })
  move-Grown moves rooted steady e inv = record {
    elected = inv;
    rooted =
        update-elim s.cluster.nodes i cm (λ k c. member k members ≡ true → Rooted made c.log)
          (λ _. rooted) (λ k _. g.rooted k);
    posted = g.posted;
    origin = λ n t x h.
        let (j, in_j, chosen, past) = g.origin n t x h in
        (
          j,
          in_j,
          Chosen-Extends members cast cast' t j e chosen,
          update-elim s.cluster.nodes i cm (λ k c. Past t (s.cluster.nodes k) → Past t c)
              (Past-Moves t (s.cluster.nodes i) cm moves) (λ k _ p. p) j past,
        );
    complete =
        update-elim s.cluster.nodes i cm
          (λ k c.
            member k members ≡ true
            → c.role ≡ leader
            → (n : LogIndex) (x : Bytes × Term) → made n c.current_term ≡ some x
            → n ≤ length c.log.entries)
          (λ _ leads n x h. elim (moves.leads leads) [
            | inl (led, same) ↦ rw (steady leads) (g.complete i inside led n x (rw same at h))
            | inr fresh ↦ absurd (leader_is_first n x moves e inv leads fresh h)
          ])
          (λ k _. g.complete k);
  }

pub act-Moves :
    (cm cm' : ConsensusModule) (e : Event)
    → HasMajority cm
    → Fit cm
    → Durable cm
    → is_local e ≡ true
    → exec cm e ≡ some cm'
    → Moves cm cm'
act-Moves cm cm' e m f d local r = elim (local_cases e local) [
  | inl quiet ↦ quiet-Moves cm cm' e m f d quiet r
  | inr (now, draw, chosen) ↦
      subst (Moves cm) (campaign_result cm cm' now draw (rw chosen at r))
        (campaign-Moves cm now draw f.next_term)
]

role-follow :
    (cm : ConsensusModule) (term : Term) (id : NodeId) (now : Instant) (draw : Draw)
    → (follow cm term id now draw).role ≡ follower
unfolding follow step_down persist
role-follow cm term id now draw = ground arith

role-accept : (cm : ConsensusModule) (args : AppendEntriesArgs) → (accept cm args).role ≡ cm.role
unfolding accept persist
role-accept cm args = ground arith

-- A node that leads after a message has refused it.
pub leader-handle_append_entries :
    (cm : ConsensusModule) (args : AppendEntriesArgs) (now : Instant) (draw : Draw)
    → (handle_append_entries cm args now draw).0.role ≡ leader
    → (handle_append_entries cm args now draw).0.log ≡ cm.log
unfolding handle_append_entries
leader-handle_append_entries cm args now draw leads =
    let cm' = follow cm args.term args.leader_id now draw in
    ground (arith, leads, role-follow cm args.term args.leader_id now draw, role-accept cm' args)

pub act-Grown :
    (members : List NodeId) (cast : Cast) (made : Made) (s : Replicas) (i : NodeId) (e : Event)
    (cm : ConsensusModule)
    → Grown members cast made s
    → member i members ≡ true
    → Fit (s.cluster.nodes i)
    → is_local e ≡ true
    → exec (s.cluster.nodes i) e ≡ some cm
    → Rooted made cm.log
    → (cm.role ≡ leader → cm.log ≡ (s.cluster.nodes i).log)
    → (cast' : Cast) × Grown members cast' made (put s i cm)
act-Grown members cast made s i e cm g inside f local r rooted steady =
    let (cast', grows, inv) = Step-Inv members cast (Cluster.act i e inside f local r) g.elected in
    let m = g.elected.joined i inside in
    (
      cast',
      move-Grown members cast cast' made s i cm s.cluster.sent g inside
          (act-Moves (s.cluster.nodes i) cm e m.majority f m.durable local r) rooted steady grows
          inv,
    )
