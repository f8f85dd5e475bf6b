-- ===== src/Raft/Consensus/Steps/ValidRuns.antt =====
-- The invariant of a concrete node under an event.
use murmur.Prelude.{◌≡◌, some, [], ◌∷◌}
use murmur.Raft.Consensus.Samples.{led}
use murmur.Raft.Consensus.State.{ConsensusModule}
use murmur.Raft.Consensus.Invariant.{IsValid}
use murmur.Raft.Consensus.Runs.{led-IsValid}
use murmur.Raft.Consensus.Steps.{Event, exec}
use murmur.Raft.Consensus.Steps.Valid.{exec-IsValid}

exec-IsValid_example :
    (cm' : ConsensusModule) × (exec led (Event.compact 2 (1 ∷ [])) ≡ some cm') × IsValid cm'
exec-IsValid_example = exec-IsValid led (Event.compact 2 (1 ∷ [])) led-IsValid tt
