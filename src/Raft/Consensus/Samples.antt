-- ===== src/Raft/Consensus/Samples.antt =====
-- Concrete states of the consensus module for the runs.
use murmur.Prelude.{ℕ, false, none, some, [], ◌∷◌}
use murmur.Raft.Types.{Term, follower, leader, LogEntry}
use murmur.Raft.Log
use murmur.Raft.Log.{Log}
use murmur.Raft.StateFile
use murmur.Raft.Storage.{in_memory}
use murmur.Raft.Config
use murmur.Raft.Config.{Draw}
use murmur.Raft.Consensus.State.{ConsensusModule}

abbrev pub entry : Term → ℕ → LogEntry
entry t b = record { term = t; command = b ∷ [] }

abbrev pub draw : Draw
draw lo hi = lo

-- A log of three entries on a snapshot through index 2.
abbrev pub long_log : Log
long_log = Log.from_parts 2 1 (entry 1 10 ∷ entry 2 20 ∷ entry 2 30 ∷ [])

-- Node 1 leads in term 2; node 2 has entries through index 4.
abbrev pub led : ConsensusModule
led = record {
  id = 1;
  peers = 2 ∷ 3 ∷ [];
  quorum = 2;
  storage = in_memory StateFile.default;
  timing = Config.default;
  current_term = 2;
  voted_for = some 1;
  log = long_log;
  snapshot = some (7 ∷ []);
  role = leader;
  leader_id = some 1;
  commit_index = 3;
  last_applied = 2;
  next_index = (2, 4) ∷ (3, 5) ∷ [];
  match_index = (2, 4) ∷ (3, 0) ∷ [];
  votes = 1 ∷ 2 ∷ [];
  pre_candidate = false;
  pre_votes = [];
  last_leader_contact = 0;
  pending_snapshot = none;
  election_deadline = 0;
}

-- Node 2 follows with an entry of term 1 at index 4, which the leader replaces.
abbrev pub behind : ConsensusModule
behind = record led {
  id = 2;
  peers = 1 ∷ 3 ∷ [];
  role = follower;
  log = Log.from_parts 2 1 (entry 1 10 ∷ entry 1 99 ∷ []);
  votes = [];
}
