-- ===== src/Raft/Consensus/Steps/Saves.antt =====
-- raft/consensus.rs: what is changed and what is saved, by the parts of the operations.
use murmur.Prelude.{none, some, arith}
use murmur.Raft.Consensus.Leader.Commit.{maybe_advance_commit-Advanced}
use murmur.Raft.Types.{Term, NodeId}
use murmur.Raft.Storage.{IsReliable}
use murmur.Raft.Storage.Holds.{Holds, Holds-IsReliable, save-Holds}
use murmur.Raft.Config.{Instant, Draw}
use murmur.Raft.Rpc.{RequestVoteArgs, AppendEntriesArgs, InstallSnapshotArgs}
use murmur.Raft.Consensus.State.{
  ConsensusModule, persist, persistent, step_down, become_leader, maybe_become_leader,
}
use murmur.Raft.Consensus.Election.{start_pre_election, campaign, cast_vote, yield_to}
use murmur.Raft.Consensus.Follower.{follow, splice, accept}
use murmur.Raft.Consensus.Leader.{maybe_advance_commit}
use murmur.Raft.Consensus.Compaction.{install}

-- The storage works, and holds the persistent state.
abbrev pub Durable : ConsensusModule → Type 0
Durable cm = Holds cm.storage (persistent cm)

pub persist-Durable : (cm : ConsensusModule) → IsReliable cm.storage → Durable (persist cm)
unfolding persist
persist-Durable cm r = save-Holds cm.storage (persistent cm) r

module _ (cm : ConsensusModule) (d : Durable cm) where
  pub reliable : IsReliable cm.storage
  reliable = Holds-IsReliable cm.storage (persistent cm) d

  pub step_down-Durable : (term : Term) → Durable (step_down cm term)
  unfolding step_down persist
  step_down-Durable term = ground (
    arith,
    reliable,
    save-Holds cm.storage (record (persistent cm) { current_term = term; voted_for = none })
        reliable,
  )

  pub start_pre_election-Durable :
      (now : Instant) (draw : Draw) → Durable (start_pre_election cm now draw).0
  unfolding start_pre_election
  start_pre_election-Durable now draw = d

  pub campaign-Durable : (now : Instant) (draw : Draw) → Durable (campaign cm now draw)
  unfolding campaign persist
  campaign-Durable now draw = save-Holds cm.storage _ reliable

  pub yield_to-Durable : (term : Term) → Durable (yield_to cm term)
  unfolding yield_to
  yield_to-Durable term = step_down-Durable term

  pub maybe_become_leader-Durable : Durable (maybe_become_leader cm)
  unfolding maybe_become_leader become_leader
  maybe_become_leader-Durable = ground (arith, d)

  pub cast_vote-Durable :
      (args : RequestVoteArgs) (now : Instant) (draw : Draw)
      → Durable (cast_vote cm args now draw).0
  unfolding cast_vote persist
  cast_vote-Durable args now draw = ground (
    arith,
    d,
    save-Holds cm.storage (record (persistent cm) { voted_for = some args.candidate_id }) reliable,
  )

  pub follow-Durable :
      (term : Term) (leader_id : NodeId) (now : Instant) (draw : Draw)
      → Durable (follow cm term leader_id now draw)
  unfolding follow
  follow-Durable term leader_id now draw = ground (arith, d, step_down-Durable term)

  pub accept-Durable : (args : AppendEntriesArgs) → Durable (accept cm args)
  unfolding accept persist splice
  accept-Durable args = ground (
    arith,
    d,
    save-Holds cm.storage
        (record (persistent cm) { log = splice args.prev_log_index args.entries cm.log }) reliable,
  )

  pub install-Durable : (args : InstallSnapshotArgs) → Durable (install cm args)
  unfolding install persist
  install-Durable args = save-Holds cm.storage _ reliable

  pub maybe_advance_commit-Durable : Durable (maybe_advance_commit cm)
  maybe_advance_commit-Durable = let a = maybe_advance_commit-Advanced cm in rw a.only_commit d
