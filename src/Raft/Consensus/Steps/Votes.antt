-- ===== src/Raft/Consensus/Steps/Votes.antt =====
-- raft/consensus.rs: a node votes for one candidate in a term, whatever happens in between, restarts
-- included.
use murmur.Prelude.{◌≤◌, ◌≡◌, inr, true, false, some, arith}
use murmur.Raft.Types.{Term}
use murmur.Raft.Config.{Instant, Draw}
use murmur.Raft.Rpc.{RequestVoteArgs}
use murmur.Raft.Consensus.State.{ConsensusModule, persist, step_down}
use murmur.Raft.Consensus.Election.{cast_vote, handle_request_vote}
use murmur.Raft.Consensus.Steps.{Steps}
use murmur.Raft.Consensus.Steps.Saves.{Durable}
use murmur.Raft.Consensus.Steps.Durable.{handle_request_vote-Durable}
use murmur.Raft.Consensus.Steps.Promises.{handle_request_vote-HasVoted, Steps-HasVoted}

step_down_to :
    (cm : ConsensusModule) (term : Term)
    → cm.current_term ≤ term
    → (step_down cm term).current_term ≡ term
unfolding step_down persist
step_down_to cm term up = ground (arith, up)

cast_vote_granted :
    (cm : ConsensusModule) (args : RequestVoteArgs) (now : Instant) (draw : Draw)
    → (cast_vote cm args now draw).1.vote_granted ≡ true
    → ((cast_vote cm args now draw).0.current_term ≡ cm.current_term)
      × ((cast_vote cm args now draw).0.voted_for ≡ some args.candidate_id)
unfolding cast_vote persist
cast_vote_granted cm args now draw granted = ground (arith, granted)

-- A granted vote binds the voter, in the term of the request.
pub vote_granted_lem :
    (cm : ConsensusModule) (args : RequestVoteArgs) (now : Instant) (draw : Draw)
    → args.pre_vote ≡ false
    → (handle_request_vote cm args now draw).1.vote_granted ≡ true
    → ((handle_request_vote cm args now draw).0.current_term ≡ args.term)
      × ((handle_request_vote cm args now draw).0.voted_for ≡ some args.candidate_id)
unfolding handle_request_vote
vote_granted_lem cm args now draw real granted = ground (
  arith,
  real,
  granted,
  cast_vote_granted cm args now draw,
  cast_vote_granted (step_down cm args.term) args now draw,
  step_down_to cm args.term,
)

-- Of a node whose storage works and holds its state: if it grants a real vote, and later, after
-- any events, restarts included, through which its state fits, it grants a real vote in the same
-- term, then both votes are for the same candidate.
pub one_vote_per_term :
    (cm later : ConsensusModule) (first second : RequestVoteArgs) (now after : Instant)
    (draw draw' : Draw)
    → Durable cm
    → first.pre_vote ≡ false
    → second.pre_vote ≡ false
    → first.term ≡ second.term
    → Steps (handle_request_vote cm first now draw).0 later
    → (handle_request_vote cm first now draw).1.vote_granted ≡ true
    → (handle_request_vote later second after draw').1.vote_granted ≡ true
    → first.candidate_id ≡ second.candidate_id
one_vote_per_term cm later first second now after draw draw' d real real' same steps granted
      granted' =
    let h =
      Steps-HasVoted first.term first.candidate_id steps
        (handle_request_vote-Durable cm d first now draw)
        (inr (vote_granted_lem cm first now draw real granted)) in
    ground (
      arith,
      same,
      vote_granted_lem later second after draw' real' granted',
      handle_request_vote-HasVoted first.term first.candidate_id later h second after draw',
    )
