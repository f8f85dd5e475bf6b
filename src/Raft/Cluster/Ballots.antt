-- ===== src/Raft/Cluster/Ballots.antt =====
-- A member answers a request for its vote, or receives an answer.
use murmur.Prelude.{
  ℕ, ◌≤◌, ◌≡◌, ◌∙◌, ◌⊎◌, inl, inr, true, false, not, ◌&&◌, some, List, ◌∷◌, All, length, get_elem?,
  ◌==◌, Bool-cases, zero, suc, arith,
}
use mathlib.Core.Path.{subst}
use murmur.Prelude.Maps.{member, insert_set}
use murmur.Raft.Types.{Term, NodeId, candidate, leader}
use murmur.Raft.Config.{Instant, Draw}
use murmur.Raft.Rpc.{RequestVoteArgs, RequestVoteReply}
use murmur.Raft.Consensus.State.{
  ConsensusModule, is_candidate_role, persist, step_down, become_leader, maybe_become_leader,
}
use murmur.Raft.Consensus.Election.{cast_vote, handle_request_vote, record_vote_reply}
use murmur.Raft.Consensus.Steps.Durable.{handle_request_vote-Durable, record_vote_reply-Durable}
use murmur.Raft.Consensus.Steps.Promises.{
  HasVoted, record_vote_reply-HasVoted, handle_request_vote-HasVoted,
}
use murmur.Raft.Consensus.Steps.Votes.{vote_granted_lem}
use murmur.Raft.Cluster.{Ballot, Cluster, ask, answer}
use murmur.Raft.Cluster.Quorum.{insert_set-Distinct}
use murmur.Raft.Cluster.Tally.{HasMajority, Quiet, handle_request_vote-Quiet, yield_to-Quiet}
use murmur.Raft.Cluster.Cast.{
  Cast, Tallied, IsMember, Mailed, Inv, Extends, IsMember-Extends, update-Inv, bound-update,
  Extends-refl, record_vote, record_vote-Extends, cast-Inv,
}
use murmur.Raft.Cluster.Members.{IsMember-Quiet}

cast_vote_reply :
    (cm : ConsensusModule) (args : RequestVoteArgs) (now : Instant) (draw : Draw)
    → (cast_vote cm args now draw).1.term ≡ (cast_vote cm args now draw).0.current_term
unfolding cast_vote persist
cast_vote_reply cm args now draw = ground arith

-- A reply carries the term in which the voter then is.
reply_term :
    (cm : ConsensusModule) (args : RequestVoteArgs) (now : Instant) (draw : Draw)
    → (handle_request_vote cm args now draw).1.term
      ≡ (handle_request_vote cm args now draw).0.current_term
unfolding handle_request_vote
reply_term cm args now draw = ground (
  arith,
  cast_vote_reply cm args now draw,
  cast_vote_reply (step_down cm args.term) args now draw,
)

abbrev ballot : Cluster → NodeId → RequestVoteArgs → Instant → Draw → Ballot
ballot s i args now draw = record {
  voter = i;
  candidate = args.candidate_id;
  pre_vote = args.pre_vote;
  reply = (handle_request_vote (s.nodes i) args now draw).1;
}

Mailed-cons :
    (members : List NodeId) (cast : Cast) (sent : List Ballot) (b : Ballot)
    → Mailed members cast sent
    → (b.pre_vote ≡ false
        → b.reply.vote_granted ≡ true
        → (member b.voter members ≡ true) × (cast b.voter b.reply.term ≡ some b.candidate))
    → Mailed members cast (b ∷ sent)
Mailed-cons members cast sent b old new zero b' at real granted =
    let e : b ≡ b' = ground (arith, at) in
    subst
      (λ (x : Ballot).
        (member x.voter members ≡ true) × (cast x.voter x.reply.term ≡ some x.candidate))
      e (new (ground (arith, e, real)) (ground (arith, e, granted)))
Mailed-cons members cast sent b old new (suc k) b' at real granted = old k b' at real granted

-- A member answers a request: what it grants it casts.
pub vote-Inv :
    (members : List NodeId) (cast : Cast) (s : Cluster) (i : NodeId) (args : RequestVoteArgs)
    (now : Instant) (draw : Draw)
    → Inv members cast s
    → member i members ≡ true
    → (cast' : Cast) × Extends cast cast' × Inv members cast' (ask s i args now draw)
vote-Inv members cast s i args now draw inv inside =
    let cm = s.nodes i in
    let m = inv.joined i inside in
    let (cm', reply) = handle_request_vote cm args now draw in
    let keep : (u : Term) (d : NodeId) → HasVoted u d cm → HasVoted u d cm' =
      λ u d h. handle_request_vote-HasVoted u d cm h args now draw in
    let own =
      IsMember-Quiet members cast i cm cm' m (handle_request_vote-Quiet cm m.majority args now draw)
        (handle_request_vote-Durable cm m.durable args now draw) in
    elim (Bool-cases (not args.pre_vote && reply.vote_granted)) [
      | inl cast_now ↦
          let real : args.pre_vote ≡ false = ground (arith, cast_now) in
          let granted : reply.vote_granted ≡ true = ground (arith, cast_now) in
          let (term, voted) = vote_granted_lem cm args now draw real granted in
          let t = args.term in
          let c = args.candidate_id in
          let once : (d : NodeId) → cast i t ≡ some d → d ≡ c =
            λ d h. ground (arith, keep t d (inv.bound i t d h), term, voted) in
          let cast' = record_vote cast i t c in
          let e = record_vote-Extends cast i t c once in
          (
            cast',
            e,
            cast-Inv members cast s i cm' t c (ballot s i args now draw ∷ s.sent) inv once keep
                (inr (term, voted)) (IsMember-Extends members cast cast' i cm' e own)
                (Mailed-cons members cast' s.sent (ballot s i args now draw)
                  (λ k b at real granted.
                    let (voter, h) = inv.mailed k b at real granted in
                    (voter, e b.voter b.reply.term b.candidate h))
                  (λ _ _. (inside, ground (arith, reply_term cm args now draw, term)))),
          )
      | inr nothing ↦ (
        cast,
        Extends-refl cast,
        update-Inv members cast cast s i cm' (ballot s i args now draw ∷ s.sent) inv
            (Extends-refl cast) own (bound-update cast s.nodes i cm' inv.bound keep)
            (Mailed-cons members cast s.sent (ballot s i args now draw) inv.mailed
              (λ real granted. absurd (ground (arith, nothing, real, granted)))),
      )
    ]

-- A vote that counts.
pub record Counted (cm : ConsensusModule) (from : NodeId) (reply : RequestVoteReply)
    (cm' : ConsensusModule) : Type 0 where
  pub granted : reply.vote_granted ≡ true
  pub in_term : reply.term ≡ cm.current_term
  pub stood : cm.role ≡ candidate
  pub same_id : cm'.id ≡ cm.id
  pub same_peers : cm'.peers ≡ cm.peers
  pub same_quorum : cm'.quorum ≡ cm.quorum
  pub same_term : cm'.current_term ≡ cm.current_term
  pub counts : cm'.votes ≡ insert_set from cm.votes
  pub stands : (cm'.role ≡ candidate) ⊎ ((cm'.role ≡ leader) × (cm'.quorum ≤ length cm'.votes))

pub record_vote_reply_lem :
    (cm : ConsensusModule) (from : NodeId) (reply : RequestVoteReply)
    → HasMajority cm
    → Quiet cm (record_vote_reply cm from reply)
      ⊎ Counted cm from reply (record_vote_reply cm from reply)
unfolding record_vote_reply maybe_become_leader become_leader
record_vote_reply_lem cm from reply m =
    elim (Bool-cases
      (is_candidate_role cm.role && reply.term == cm.current_term && reply.vote_granted)) [
        | inl counts ↦ inr (ground (arith, counts, m))
        | inr no_vote ↦ inl (ground (arith, no_vote, m, yield_to-Quiet cm m reply.term))
      ]

All-insert_set : (P : ℕ → Type 0) (k : ℕ) (xs : List ℕ) → P k → All P xs → All P (insert_set k xs)
unfolding insert_set
All-insert_set P k xs p a = elim (Bool-cases (member k xs)) [
  | inl old ↦ rw old a
  | inr new ↦ rw new (p, a)
]

Tallied-Counted :
    (members : List NodeId) (cast : Cast) (i : NodeId) (cm : ConsensusModule) (from : NodeId)
    (reply : RequestVoteReply) (cm' : ConsensusModule)
    → Counted cm from reply cm'
    → (member from members ≡ true) × (cast from reply.term ≡ some i)
    → Tallied members cast i cm.role cm.quorum cm.current_term cm.votes
    → Tallied members cast i cm'.role cm'.quorum cm'.current_term cm'.votes
Tallied-Counted members cast i cm from reply cm' n (voter, h) old =
    let was : Tallied members cast i candidate cm.quorum cm.current_term cm.votes =
      rw n.stood at old in
    let voted : cast from cm.current_term ≡ some i = rw n.in_term at h in
    let all =
      All-insert_set (λ v. (member v members ≡ true) × (cast v cm.current_term ≡ some i)) from
        cm.votes (voter, voted) was.0 in
    let distinct = insert_set-Distinct from cm.votes was.1 in
    elim n.stands [
      | inl stands ↦ rw (stands, n.same_term, n.counts) (all, distinct)
      | inr (leads, q) ↦ rw (leads, n.same_term, n.counts) (all, distinct, rw n.counts at q)
    ]

-- A candidate receives an answer.
pub tally-Inv :
    (members : List NodeId) (cast : Cast) (s : Cluster) (k : ℕ) (b : Ballot)
    → Inv members cast s
    → get_elem? s.sent k ≡ some b
    → b.pre_vote ≡ false
    → member b.candidate members ≡ true
    → Inv members cast (answer s b)
tally-Inv members cast s k b inv at real inside =
    let i = b.candidate in
    let cm = s.nodes i in
    let m = inv.joined i inside in
    let cm' = record_vote_reply cm b.voter b.reply in
    let d = record_vote_reply-Durable cm m.durable b.voter b.reply in
    let own : IsMember members cast i cm' =
      elim (record_vote_reply_lem cm b.voter b.reply m.majority) [
        | inl quiet ↦ IsMember-Quiet members cast i cm cm' m quiet d
        | inr n ↦ record {
          named = n.same_id ∙ m.named;
          sized = rw n.same_peers m.sized;
          majority = ground (arith, n, m.majority);
          durable = d;
          tallied =
              Tallied-Counted members cast i cm b.voter b.reply cm' n
                (inv.mailed k b at real n.granted) m.tallied;
        }
      ] in
    update-Inv members cast cast s i cm' s.sent inv (Extends-refl cast) own
      (bound-update cast s.nodes i cm' inv.bound
        (λ t c h. record_vote_reply-HasVoted t c cm h b.voter b.reply))
      inv.mailed
