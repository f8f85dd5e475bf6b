-- ===== src/Raft/Consensus/Election.antt =====
-- raft/consensus.rs: the candidate's side and the voter's side of an election. A method returns the
-- new state and its result.
use murmur.Prelude.{
  ◌+◌, ◌-◌, Bool, true, false, not, ◌&&◌, ◌||◌, Option, none, some, [], length, ltb, leb, ◌==◌,
  if◌then◌else◌, u64,
}
use murmur.Prelude.Maps.{insert_set}
use murmur.Raft.Types.{Term, LogIndex, NodeId, candidate}
use murmur.Raft.Log
use murmur.Raft.Rpc.{RequestVoteArgs, RequestVoteReply}
use murmur.Raft.Config.{Instant, Draw}
use murmur.Raft.Consensus.State.{
  ConsensusModule, is_leader_role, is_candidate_role, reset_election_deadline, persist, step_down,
  abandon_pre_election, maybe_become_leader,
}

unfoldable pub start_pre_election :
    ConsensusModule → Instant → Draw → ConsensusModule × RequestVoteArgs
unfolding reset_election_deadline
start_pre_election cm now draw =
    let probing = record cm { pre_candidate = true; pre_votes = insert_set cm.id [] } in
    (
      reset_election_deadline probing now draw,
      record {
        term = u64 (cm.current_term + 1);
        candidate_id = cm.id;
        last_log_index = Log.last_index cm.log;
        last_log_term = Log.last_term cm.log;
        pre_vote = true;
      },
    )

-- Yield to a higher term: the head of every handler of a reply.
unfoldable pub yield_to : ConsensusModule → Term → ConsensusModule
unfolding step_down
yield_to cm term = record (step_down cm term) { leader_id = none }

unfoldable pub record_pre_vote_reply : ConsensusModule → NodeId → RequestVoteReply → ConsensusModule
unfolding yield_to
record_pre_vote_reply cm from reply =
    if ltb cm.current_term reply.term
    then yield_to cm reply.term
    else if cm.pre_candidate && reply.vote_granted
    then record cm { pre_votes = insert_set from cm.pre_votes }
    else cm

unfoldable pub pre_vote_succeeded : ConsensusModule → Bool
pre_vote_succeeded cm = cm.pre_candidate && leb cm.quorum (length cm.pre_votes)

-- The candidate that `start_election` saves before it counts its own vote.
unfoldable pub campaign : ConsensusModule → Instant → Draw → ConsensusModule
unfolding abandon_pre_election reset_election_deadline persist
campaign cm now draw = persist (
    reset_election_deadline
      (record (abandon_pre_election cm) {
        role = candidate;
        current_term = u64 (cm.current_term + 1);
        voted_for = some cm.id;
        leader_id = none;
        votes = insert_set cm.id [];
      })
      now draw)

unfoldable pub start_election : ConsensusModule → Instant → Draw → ConsensusModule × RequestVoteArgs
unfolding campaign maybe_become_leader
start_election cm now draw =
    let cm' = maybe_become_leader (campaign cm now draw) in
    (
      cm',
      record {
        term = cm'.current_term;
        candidate_id = cm'.id;
        last_log_index = Log.last_index cm'.log;
        last_log_term = Log.last_term cm'.log;
        pre_vote = false;
      },
    )

unfoldable pub record_vote_reply : ConsensusModule → NodeId → RequestVoteReply → ConsensusModule
unfolding yield_to maybe_become_leader
record_vote_reply cm from reply =
    if ltb cm.current_term reply.term
    then yield_to cm reply.term
    else if not (is_candidate_role cm.role) || not (reply.term == cm.current_term)
    then cm
    else if reply.vote_granted
    then maybe_become_leader (record cm { votes = insert_set from cm.votes })
    else cm

unfoldable pub log_is_up_to_date : ConsensusModule → LogIndex → Term → Bool
log_is_up_to_date cm last_log_index last_log_term =
    ltb (Log.last_term cm.log) last_log_term
    || (last_log_term == Log.last_term cm.log && leb (Log.last_index cm.log) last_log_index)

-- `saturating_duration_since` is the subtraction of ℕ.
unfoldable pub grants_pre_vote : ConsensusModule → RequestVoteArgs → Instant → Bool
unfolding log_is_up_to_date
grants_pre_vote cm args now =
    let leader_is_live =
      is_leader_role cm.role || ltb (now - cm.last_leader_contact) cm.timing.election_min in
    leb cm.current_term args.term
    && not leader_is_live
    && log_is_up_to_date cm args.last_log_index args.last_log_term

-- `voted_for.is_none() || voted_for == Some(candidate_id)`
abbrev pub free_to_vote : Option NodeId → NodeId → Bool
free_to_vote none c = true
free_to_vote (some v) c = v == c

-- The end of `handle_request_vote`, once the term is settled.
unfoldable pub cast_vote :
    ConsensusModule → RequestVoteArgs → Instant → Draw → ConsensusModule × RequestVoteReply
unfolding log_is_up_to_date reset_election_deadline persist
cast_vote cm args now draw =
    if free_to_vote cm.voted_for args.candidate_id
      && log_is_up_to_date cm args.last_log_index args.last_log_term
    then (
      persist (reset_election_deadline (record cm { voted_for = some args.candidate_id }) now draw),
      record { term = cm.current_term; vote_granted = true },
    )
    else (cm, record { term = cm.current_term; vote_granted = false })

unfoldable pub handle_request_vote :
    ConsensusModule → RequestVoteArgs → Instant → Draw → ConsensusModule × RequestVoteReply
unfolding grants_pre_vote cast_vote step_down
handle_request_vote cm args now draw =
    if args.pre_vote
    then (cm, record { term = cm.current_term; vote_granted = grants_pre_vote cm args now })
    else if ltb args.term cm.current_term
    then (cm, record { term = cm.current_term; vote_granted = false })
    else cast_vote (if ltb cm.current_term args.term then step_down cm args.term else cm) args now
        draw
