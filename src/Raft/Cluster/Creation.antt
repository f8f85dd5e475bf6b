-- ===== src/Raft/Cluster/Creation.antt =====
-- `submit_command` of raft/consensus.rs in a cluster without snapshots: the leader creates an entry that
-- nobody has created before.
use mathlib.Core.Path.{subst}
use murmur.Prelude.{
  ◌+◌, ◌^◌, ◌≤◌, ◌<◌, ◌≡◌, refl, ap, ◌∙◌, inl, inr, true, ◌&&◌, none, some, List, [], ◌∷◌, length,
  length-append, ◌==◌, Bool-cases, Option-cases, arith,
}
use murmur.Prelude.Maps.{member}
use murmur.Raft.Types.{Term, LogIndex, NodeId, Bytes, LogEntry, leader}
use murmur.Raft.Log.{Log, last_term_of}
use murmur.Raft.Consensus.State.{ConsensusModule, is_leader_role}
use murmur.Raft.Consensus.Leader.{submit_command}
use murmur.Raft.Consensus.Steps.{Event, exec, Fit}
use murmur.Raft.Cluster
use murmur.Raft.Cluster.{Cluster, Ballot, update, is_local, ask, answer}
use murmur.Raft.Cluster.Cast.{Cast, Extends, Inv}
use murmur.Raft.Cluster.Safety.{Chosen, leader-Chosen, Chosen-unique, Chosen-Extends, Step-Inv}
use murmur.Raft.Cluster.Chain.{Made, Grows}
use murmur.Raft.Cluster.Paths.{Rooted, Rooted-Grows}
use murmur.Raft.Cluster.Posts.{Posted-Grows}
use murmur.Raft.Cluster.Moves.{Moves}
use murmur.Raft.Cluster.Replicas.{Replicas, put}
use murmur.Raft.Cluster.Growth.{
  Past, Past-Moves, Grown, update_self, update-elim, act-Moves, act-Grown,
}
use murmur.Raft.Cluster.Submitted.{
  Submitted, submit_command-leader, submit_command-other, create, create-Grows, append-Rooted,
}

module _ (members : List NodeId) (cast cast' : Cast) (made : Made) (s : Replicas) (i : NodeId)
    (command : Bytes) (cm : ConsensusModule) (g : Grown members cast made s)
    (inside : member i members ≡ true) (leads : (s.cluster.nodes i).role ≡ leader)
    (sub : Submitted (s.cluster.nodes i) command cm)
    (room : length (s.cluster.nodes i).log.entries + 1 < 2 ^ 64) (grows : Extends cast cast')
    (moves : Moves (s.cluster.nodes i) cm) where
  abbrev entries : List LogEntry
  entries = (s.cluster.nodes i).log.entries

  abbrev term : Term
  term = (s.cluster.nodes i).current_term

  abbrev made' : Made
  made' = create made (length entries + 1) term (command, last_term_of 0 entries)

  free : made (length entries + 1) term ≡ none
  free = elim (Option-cases (made (length entries + 1) term)) [
    | inl nothing ↦ nothing
    | inr (x, h) ↦ absurd (omega (arith, g.complete i inside leads (length entries + 1) x h))
  ]

  made-Grows : Grows made made'
  made-Grows = create-Grows made (length entries + 1) term (command, last_term_of 0 entries) free

  chosen : Chosen members cast' term i
  chosen =
      Chosen-Extends members cast cast' term i grows
        (leader-Chosen members cast s.cluster i g.elected inside leads)

  new-Rooted : Rooted made' cm.log
  new-Rooted = rw sub.grown (
      append-Rooted made' (s.cluster.nodes i).log (record { term = term; command = command })
        (Rooted-Grows made made' (s.cluster.nodes i).log made-Grows (g.rooted i inside)) room
        (ground arith))

  new-origin :
      (n : LogIndex) (t : Term) (x : Bytes × Term)
      → made' n t ≡ some x
      → (j : NodeId) × (member j members ≡ true)
        × Chosen members cast' t j
        × Past t (update s.cluster.nodes i cm j)
  new-origin n t x h = elim (Bool-cases (n == length entries + 1 && t == term)) [
    | inl here ↦
        let at : term ≡ t = ground (arith, here) in
        let own : Past term cm = record {
          reached = omega (arith, sub.same_term);
          not_standing = λ stands same. ground (arith, stands, sub.same_role, leads);
        } in
        let there : Past term (update s.cluster.nodes i cm i) =
          rw (update_self s.cluster.nodes i cm) own in
        subst
          (λ u.
            (j : NodeId) × (member j members ≡ true)
            × Chosen members cast' u j
            × Past u (update s.cluster.nodes i cm j))
          at (i, inside, chosen, there)
    | inr old ↦
        let (j, in_j, was, past) = g.origin n t x (rw old at h) in
        (
          j,
          in_j,
          Chosen-Extends members cast cast' t j grows was,
          update-elim s.cluster.nodes i cm (λ k c. Past t (s.cluster.nodes k) → Past t c)
              (Past-Moves t (s.cluster.nodes i) cm moves) (λ k _ p. p) j past,
        )
  ]

  new_complete :
      (j : NodeId)
      → member j members ≡ true
      → (update s.cluster.nodes i cm j).role ≡ leader
      → (n : LogIndex) (x : Bytes × Term)
      → made' n (update s.cluster.nodes i cm j).current_term ≡ some x
      → n ≤ length (update s.cluster.nodes i cm j).log.entries
  new_complete =
      update-elim s.cluster.nodes i cm
        (λ k c.
          member k members ≡ true
          → c.role ≡ leader
          → (n : LogIndex) (x : Bytes × Term) → made' n c.current_term ≡ some x
          → n ≤ length c.log.entries)
        (λ _ _ n x h.
          let size : length cm.log.entries ≡ length entries + 1 =
            ap (λ (l : Log). length l.entries) sub.grown
            ∙ omega
                (arith, length-append entries (record { term = term; command = command } ∷ [])) in
          let mine : made' n term ≡ some x = rw sub.same_term at h in
          elim (Bool-cases (n == length entries + 1 && term == term)) [
            | inl new ↦ ground (arith, new, size)
            | inr old ↦ omega (arith, g.complete i inside leads n x (rw old at mine), size)
          ])
        (λ k other in_k leads_k n x h.
          elim (Bool-cases (n == length entries + 1 && (s.cluster.nodes k).current_term == term)) [
            | inl new ↦
                let same_term : (s.cluster.nodes k).current_term ≡ term = ground (arith, new) in
                let rival : Chosen members cast term k =
                  subst (λ u. Chosen members cast u k) same_term
                    (leader-Chosen members cast s.cluster k g.elected in_k leads_k) in
                let same : i ≡ k =
                  Chosen-unique members cast term i k
                    (leader-Chosen members cast s.cluster i g.elected inside leads) rival in
                absurd (ground (arith, same, other))
            | inr old ↦ g.complete k in_k leads_k n x (rw old at h)
          ])

  submitted-Grown : Inv members cast' (put s i cm).cluster → Grown members cast' made' (put s i cm)
  submitted-Grown inv = record {
    elected = inv;
    rooted =
        update-elim s.cluster.nodes i cm (λ k c. member k members ≡ true → Rooted made' c.log)
          (λ _. new-Rooted)
          (λ k _ in_k.
            Rooted-Grows made made' (s.cluster.nodes k).log made-Grows (g.rooted k in_k));
    posted = λ k args at. Posted-Grows made made' args made-Grows (g.posted k args at);
    origin = new-origin;
    complete = new_complete;
  }

-- A state that some votes and some tree explain.
abbrev pub GrowsOn : List NodeId → Replicas → Type 0
GrowsOn members s = (cast : Cast) × (made : Made) × Grown members cast made s

-- A member takes a command, or refuses it.
pub submit-Grown :
    (members : List NodeId) (cast : Cast) (made : Made) (s : Replicas) (i : NodeId)
    (command : Bytes)
    → Grown members cast made s
    → member i members ≡ true
    → Fit (s.cluster.nodes i)
    → length (s.cluster.nodes i).log.entries + 1 < 2 ^ 64
    → GrowsOn members (put s i (submit_command (s.cluster.nodes i) command).0)
unfolding exec
submit-Grown members cast made s i command g inside f room =
    let cm0 = s.cluster.nodes i in
    let cm = (submit_command cm0 command).0 in
    let e = Event.submit command in
    let m = g.elected.joined i inside in
    elim (Bool-cases (is_leader_role cm0.role)) [
      | inl leads ↦
          let (cast', grows, inv) =
            Step-Inv members cast (Cluster.act i e inside f refl refl) g.elected in
          (
            cast',
            _,
            submitted-Grown members cast cast' made s i command cm g inside (ground (arith, leads))
                (submit_command-leader cm0 command leads) room grows
                (act-Moves cm0 cm e m.majority f m.durable refl refl) inv,
          )
      | inr follows ↦
          let same : cm.log ≡ cm0.log =
            ap (λ (c : ConsensusModule). c.log) (submit_command-other cm0 command follows) in
          let (cast', g') =
            act-Grown members cast made s i e cm g inside f refl refl (rw same (g.rooted i inside))
              (λ _. same) in
          (cast', made, g')
    ]
