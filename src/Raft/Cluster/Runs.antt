-- ===== src/Raft/Cluster/Runs.antt =====
-- An election of three members, and the theorem about it.
use murmur.Prelude.{ℕ, ◌≡◌, refl, false, List, [], ◌∷◌, ◌==◌, if◌then◌else◌, arith}
use murmur.Prelude.Maps.{member, insert_set}
use murmur.Prelude.Cursor.{le_bytes}
use murmur.Raft.Types.{NodeId, leader}
use murmur.Raft.Log
use murmur.Raft.StateFile
use murmur.Raft.StateFile.{encode}
use murmur.Raft.Storage.{in_memory, save}
use murmur.Raft.Storage.Holds.{Holds}
use murmur.Raft.Config
use murmur.Raft.Config.{random_election_timeout}
use murmur.Raft.Rpc.{RequestVoteArgs}
use murmur.Raft.Consensus.Samples.{draw}
use murmur.Raft.Consensus.State.{ConsensusModule, restore, become_leader}
use murmur.Raft.Consensus.Election.{start_election, handle_request_vote, record_vote_reply}
use murmur.Raft.Consensus.Steps.{Event, exec, Fit}
use murmur.Raft.Cluster.{
  Ballot, Cluster, update, ask, answer, act, vote, tally, Initial, Reach, start, later,
}
use murmur.Raft.Cluster.Safety.{election_safety}

abbrev pub trio : List NodeId
trio = 1 ∷ 2 ∷ 3 ∷ []

abbrev peers_of : NodeId → List NodeId
peers_of i = if i == 1 then 2 ∷ 3 ∷ [] else if i == 2 then 1 ∷ 3 ∷ [] else 1 ∷ 2 ∷ []

abbrev pub first : NodeId → ConsensusModule
first i =
    restore i (peers_of i) (in_memory StateFile.default) Config.default 0 draw StateFile.default

abbrev pub begin : Cluster
begin = record { nodes = first; sent = [] }

pub begin-Initial : Initial trio begin
unfolding restore Holds
begin-Initial = record {
  nobody_asked = refl;
  named = λ i inside. refl;
  resting = λ i inside. refl;
  durable = λ i inside. refl;
  sized = λ i inside. ground arith;
  majority = λ i inside. refl;
}

pub first-Fit : (i : NodeId) → Fit (first i)
unfolding restore encode le_bytes
first-Fit i = record { encodable = omega arith; next_term = omega arith }

abbrev pub request : RequestVoteArgs
request = (start_election (first 1) 5 draw).1

abbrev pub campaigning : Cluster
campaigning = record begin { nodes = update first 1 (start_election (first 1) 5 draw).0 }

abbrev pub asked : Cluster
asked = ask campaigning 2 request 6 draw

abbrev pub granted : Ballot
granted = record {
  voter = 2;
  candidate = 1;
  pre_vote = false;
  reply = (handle_request_vote (first 2) request 6 draw).1;
}

abbrev pub led : Cluster
led = answer asked granted

election : Reach trio led
unfolding exec start_election member restore insert_set
election =
    later
      (later
        (later (start begin-Initial) (act 1 (Event.campaign 5 draw) refl (first-Fit 1) refl refl))
        (vote 2 request 6 draw refl (first-Fit 2)))
      (tally 0 granted refl refl refl)

pub leads : (led.nodes 1).role ≡ leader
unfolding restore start_election handle_request_vote record_vote_reply become_leader insert_set
    member Log.last_index Log.last_term save
leads = refl

election_safety_example : ◌≡◌ {A = ℕ} 1 1
unfolding member
election_safety_example = election_safety trio 1 1 election refl refl leads leads refl
