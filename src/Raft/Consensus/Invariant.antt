-- ===== src/Raft/Consensus/Invariant.antt =====
-- The invariant of `ConsensusModule` of raft/consensus.rs, at the start and under the elections and
-- role transitions.
use murmur.Prelude.{ℕ, ◌+◌, ◌/◌, ◌≤◌, ◌≡◌, refl, ◌∙◌, Option, none, some, List, length, arith}
use murmur.Raft.Types.{Term, NodeId, Bytes, Role, leader}
use murmur.Raft.Log
use murmur.Raft.Log.{Log}
use murmur.Raft.Log.Lookup.{Fits, last_index_lem}
use murmur.Raft.StateFile.{PersistentState}
use murmur.Raft.Storage.{Storage}
use murmur.Raft.Config.{Timing, Instant, Draw}
use murmur.Raft.Rpc.{RequestVoteArgs, RequestVoteReply}
use murmur.Raft.Consensus.State.{
  ConsensusModule, restore, step_down, become_leader, maybe_become_leader,
}
use murmur.Raft.Consensus.Election.{
  start_pre_election, record_pre_vote_reply, start_election, record_vote_reply, handle_request_vote,
}

-- A log without a snapshot begins at index 1.
abbrev pub Origin : Log → Option Bytes → Type 0
Origin log none = (log.snapshot_index ≡ 0) × (log.snapshot_term ≡ 0)
Origin log (some bytes) = Unit

pub Origin-same :
    (log log' : Log) (o : Option Bytes)
    → log'.snapshot_index ≡ log.snapshot_index
    → log'.snapshot_term ≡ log.snapshot_term
    → Origin log o
    → Origin log' o
Origin-same log log' none i t (hi, ht) = (i ∙ hi, t ∙ ht)
Origin-same log log' (some b) i t h = tt

-- Only a majority of votes makes a leader.
abbrev pub Elected : Role → ℕ → List NodeId → Type 0
Elected leader quorum votes = quorum ≤ length votes
Elected _ quorum votes = Unit

pub record IsValid (cm : ConsensusModule) : Type 0 where
  pub fits : Fits cm.log
  pub from_snapshot : cm.log.snapshot_index ≤ cm.last_applied
  pub applied : cm.last_applied ≤ cm.commit_index
  pub committed : cm.commit_index ≤ Log.last_index cm.log
  pub majority : cm.quorum ≡ (length cm.peers + 1) / 2 + 1
  pub origin : Origin cm.log cm.snapshot
  pub elected : Elected cm.role cm.quorum cm.votes

-- A node starts valid on any state whose log is.
pub restore-IsValid :
    (id : NodeId) (peers : List NodeId) (storage : Storage) (timing : Timing) (now : Instant)
    (draw : Draw) (p : PersistentState)
    → Fits p.log
    → Origin p.log p.snapshot
    → IsValid (restore id peers storage timing now draw p)
unfolding restore
restore-IsValid id peers storage timing now draw p h o = record {
  fits = h;
  from_snapshot = omega arith;
  applied = omega arith;
  committed = omega (arith, last_index_lem p.log h);
  majority = refl;
  origin = o;
  elected = tt;
}

module _ (cm : ConsensusModule) (v : IsValid cm) where
  pub step_down-IsValid : (term : Term) → IsValid (step_down cm term)
  unfolding step_down
  step_down-IsValid term = ground arith

  pub start_pre_election-IsValid :
      (now : Instant) (draw : Draw) → IsValid (start_pre_election cm now draw).0
  unfolding start_pre_election
  start_pre_election-IsValid now draw = ground arith

  pub maybe_become_leader-IsValid : IsValid (maybe_become_leader cm)
  unfolding maybe_become_leader become_leader
  maybe_become_leader-IsValid = ground arith

  pub start_election-IsValid :
      (now : Instant) (draw : Draw) → IsValid (start_election cm now draw).0
  unfolding start_election become_leader
  start_election-IsValid now draw = ground arith

  pub record_pre_vote_reply-IsValid :
      (from : NodeId) (reply : RequestVoteReply) → IsValid (record_pre_vote_reply cm from reply)
  unfolding record_pre_vote_reply
  record_pre_vote_reply-IsValid from reply = ground arith

  pub record_vote_reply-IsValid :
      (from : NodeId) (reply : RequestVoteReply) → IsValid (record_vote_reply cm from reply)
  unfolding record_vote_reply become_leader
  record_vote_reply-IsValid from reply = ground arith

  pub handle_request_vote-IsValid :
      (args : RequestVoteArgs) (now : Instant) (draw : Draw)
      → IsValid (handle_request_vote cm args now draw).0
  unfolding handle_request_vote
  handle_request_vote-IsValid args now draw = ground arith
