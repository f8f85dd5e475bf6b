-- ===== src/Raft/Consensus/Steps/Runs.antt =====
-- A voter that restarts between two requests, and the theorem about it.
use murmur.Prelude.{◌≡◌, refl, true, false, none, [], ◌∷◌, arith}
use murmur.Prelude.Cursor.{le_bytes}
use murmur.Raft.Types.{follower}
use murmur.Raft.Log
use murmur.Raft.StateFile.{encode}
use murmur.Raft.Storage.{file}
use murmur.Raft.Storage.Holds.{Holds}
use murmur.Raft.Config
use murmur.Raft.Config.{Draw}
use murmur.Raft.Rpc.{RequestVoteArgs}
use murmur.Raft.Consensus.State.{ConsensusModule, restore, persistent}
use murmur.Raft.Consensus.Election.{handle_request_vote}
use murmur.Raft.Consensus.Steps.{Event, exec, Fit, Steps, done, next}
use murmur.Raft.Consensus.Steps.Saves.{Durable}
use murmur.Raft.Consensus.Steps.Durable.{exec-Durable, reboot_lem, handle_request_vote-Durable}
use murmur.Raft.Consensus.Steps.Votes.{one_vote_per_term}

abbrev draw : Draw
draw lo hi = lo

-- Node 3 starts on an empty directory.
abbrev fresh : ConsensusModule
fresh = record {
  id = 3;
  peers = 1 ∷ 2 ∷ [];
  quorum = 2;
  storage = file (record { path = none; tmp = none; unreadable = false; faults = [] });
  timing = Config.default;
  current_term = 0;
  voted_for = none;
  log = Log.new;
  snapshot = none;
  role = follower;
  leader_id = none;
  commit_index = 0;
  last_applied = 0;
  next_index = [];
  match_index = [];
  votes = [];
  pre_candidate = false;
  pre_votes = [];
  last_leader_contact = 0;
  pending_snapshot = none;
  election_deadline = 0;
}

abbrev request : RequestVoteArgs
request = record {
  term = 1;
  candidate_id = 2;
  last_log_index = 0;
  last_log_term = 0;
  pre_vote = false;
}

fresh-Durable : Durable fresh
unfolding Holds
fresh-Durable = (refl, refl, refl)

voted : ConsensusModule
voted = (handle_request_vote fresh request 5 draw).0

granted : (handle_request_vote fresh request 5 draw).1.vote_granted ≡ true
unfolding handle_request_vote Log.last_term Log.last_index
granted = refl

voted-Fit : Fit voted
unfolding voted handle_request_vote Log.last_term Log.last_index encode le_bytes
voted-Fit = record { encodable = omega arith; next_term = omega arith }

restarted : ConsensusModule
restarted = restore voted.id voted.peers voted.storage voted.timing 9 draw (persistent voted)

steps : Steps voted restarted
unfolding exec restarted
steps =
    next (Event.restart 9 draw) voted-Fit
      (reboot_lem voted 9 draw voted-Fit.encodable
        (unfold voted in handle_request_vote-Durable fresh fresh-Durable request 5 draw))
      done

-- The retry of the candidate that has the vote is granted again.
granted_again : (handle_request_vote restarted request 9 draw).1.vote_granted ≡ true
unfolding voted restarted restore handle_request_vote Log.last_term Log.last_index
granted_again = refl

denied_again :
    (handle_request_vote restarted (record request { candidate_id = 1 }) 9 draw).1.vote_granted
    ≡ false
unfolding voted restarted restore handle_request_vote Log.last_term Log.last_index
denied_again = refl

exec-Durable_example : Durable restarted
unfolding exec restarted voted
exec-Durable_example =
    exec-Durable voted restarted (Event.restart 9 draw) voted-Fit
      (handle_request_vote-Durable fresh fresh-Durable request 5 draw)
      (reboot_lem voted 9 draw voted-Fit.encodable
        (handle_request_vote-Durable fresh fresh-Durable request 5 draw))

one_vote_per_term_example : request.candidate_id ≡ request.candidate_id
unfolding voted
one_vote_per_term_example =
    one_vote_per_term fresh restarted request request 5 9 draw draw fresh-Durable refl refl refl
      steps granted granted_again
