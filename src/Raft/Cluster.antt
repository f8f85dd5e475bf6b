-- ===== src/Raft/Cluster.antt =====
-- A cluster of nodes of raft/consensus.rs whose calls are carried by raft/transport.rs: in any order,
-- more than once, late, or never. What elections do not depend on is left open: the messages of
-- replication, the clocks and the replies to a probe are whatever they may be.
pub mod Quorum
pub mod Tally
pub mod Cast
pub mod Members
pub mod Ballots
pub mod Safety
pub mod Chain
pub mod Paths
pub mod Posts
pub mod Moves
pub mod Replicas
pub mod Growth
pub mod Submitted
pub mod Creation
pub mod Matching
pub mod Runs
mod MatchingRuns
use murmur.Prelude.{
  ℕ, ◌+◌, ◌/◌, ◌≡◌, Bool, true, false, Option, none, some, List, [], ◌∷◌, length, get_elem?, ◌==◌,
  if◌then◌else◌,
}
use murmur.Prelude.Maps.{member}
use murmur.Raft.Types.{NodeId, follower}
use murmur.Raft.Config.{Instant, Draw}
use murmur.Raft.Rpc.{RequestVoteArgs, RequestVoteReply}
use murmur.Raft.Consensus.State.{ConsensusModule}
use murmur.Raft.Consensus.Election.{handle_request_vote, record_vote_reply}
use murmur.Raft.Consensus.Steps.{Event, exec, Fit}
use murmur.Raft.Consensus.Steps.Saves.{Durable}

-- A reply to a request for a vote, on its way to the candidate.
pub record Ballot : Type 0 where
  pub voter : NodeId
  pub candidate : NodeId
  pub pre_vote : Bool
  pub reply : RequestVoteReply

pub record Cluster : Type 0 where
  pub nodes : NodeId → ConsensusModule
  pub sent : List Ballot

abbrev pub update : (NodeId → ConsensusModule) → NodeId → ConsensusModule → NodeId → ConsensusModule
update nodes i cm j = if i == j then cm else nodes j

-- The events of a node that bring it no vote and ask it for none.
abbrev pub is_local : Event → Bool
is_local (Event.vote_request args now draw) = false
is_local (Event.vote_reply from reply) = false
is_local _ = true

-- A member receives a request for a vote, whoever sent it, and its answer is on its way.
abbrev pub ask : Cluster → NodeId → RequestVoteArgs → Instant → Draw → Cluster
ask s i args now draw =
    let (cm, reply) = handle_request_vote (s.nodes i) args now draw in
    record {
      nodes = update s.nodes i cm;
      sent =
          record {
            voter = i;
            candidate = args.candidate_id;
            pre_vote = args.pre_vote;
            reply = reply;
          }
          ∷ s.sent;
    }

-- A candidate receives an answer to a real request. The answer stays, and may come again.
abbrev pub answer : Cluster → Ballot → Cluster
answer s b = record s {
  nodes = update s.nodes b.candidate (record_vote_reply (s.nodes b.candidate) b.voter b.reply);
}

pub data Step (members : List NodeId) (s : Cluster) : Cluster → Type 0 where
  act :
      (i : NodeId) (e : Event) {cm : ConsensusModule}
      → member i members ≡ true
      → Fit (s.nodes i)
      → is_local e ≡ true
      → exec (s.nodes i) e ≡ some cm
      → Step members s (record s { nodes = update s.nodes i cm })
  vote :
      (i : NodeId) (args : RequestVoteArgs) (now : Instant) (draw : Draw)
      → member i members ≡ true
      → Fit (s.nodes i)
      → Step members s (ask s i args now draw)
  tally :
      (k : ℕ) (b : Ballot)
      → get_elem? s.sent k ≡ some b
      → b.pre_vote ≡ false
      → member b.candidate members ≡ true
      → Step members s (answer s b)

-- Every member is a follower whose storage works and holds its state, and counts the same members.
pub record Initial (members : List NodeId) (s : Cluster) : Type 0 where
  pub nobody_asked : s.sent ≡ []
  pub named : (i : NodeId) → member i members ≡ true → (s.nodes i).id ≡ i
  pub resting : (i : NodeId) → member i members ≡ true → (s.nodes i).role ≡ follower
  pub durable : (i : NodeId) → member i members ≡ true → Durable (s.nodes i)
  pub sized : (i : NodeId) → member i members ≡ true → length (s.nodes i).peers + 1 ≡ length members
  pub majority :
      (i : NodeId)
      → member i members ≡ true
      → (s.nodes i).quorum ≡ (length (s.nodes i).peers + 1) / 2 + 1

pub data Reach (members : List NodeId) : Cluster → Type 0 where
  start : {s : Cluster} → Initial members s → Reach members s
  later : {s s' : Cluster} → Reach members s → Step members s s' → Reach members s'
