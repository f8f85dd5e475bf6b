-- ===== src/Raft/Consensus/State.antt =====
-- raft/consensus.rs: the state of a node, how it starts and persists, and its role transitions.
-- `draw` is one draw of the random number generator.
use murmur.Prelude.{
  ℕ, ◌+◌, ◌/◌, Bool, true, false, not, ◌&&◌, Option, none, some, List, [], ◌∷◌, length, ltb, leb,
  if◌then◌else◌, u64,
}
use murmur.Prelude.Result.{Result, ok, ◌>>=◌}
use murmur.Prelude.Maps.{insert, lookup_or}
use murmur.Raft.Types.{Term, LogIndex, NodeId, Bytes, Role, follower, candidate, leader, Snapshot}
use murmur.Raft.Log
use murmur.Raft.Log.{Log}
use murmur.Raft.StateFile.{PersistentState, Error}
use murmur.Raft.Storage
use murmur.Raft.Storage.{Storage}
use murmur.Raft.Config.{Timing, Instant, Draw, random_election_timeout}

pub record ConsensusModule : Type 0 where
  pub id : NodeId
  pub peers : List NodeId
  pub quorum : ℕ
  pub storage : Storage
  pub timing : Timing
  pub current_term : Term
  pub voted_for : Option NodeId
  pub log : Log
  pub snapshot : Option Bytes
  pub role : Role
  pub leader_id : Option NodeId
  pub commit_index : LogIndex
  pub last_applied : LogIndex
  pub next_index : List (NodeId × LogIndex)
  pub match_index : List (NodeId × LogIndex)
  pub votes : List NodeId
  pub pre_candidate : Bool
  pub pre_votes : List NodeId
  pub last_leader_contact : Instant
  pub pending_snapshot : Option Snapshot
  pub election_deadline : Instant

abbrev pub is_leader_role : Role → Bool
is_leader_role leader = true
is_leader_role _ = false

abbrev pub is_candidate_role : Role → Bool
is_candidate_role candidate = true
is_candidate_role _ = false

unfoldable pub reset_election_deadline : ConsensusModule → Instant → Draw → ConsensusModule
reset_election_deadline cm now draw = record cm {
  election_deadline = now + random_election_timeout cm.timing draw;
}

-- The snapshot that a restarted node hands to the state machine.
startup_snapshot : PersistentState → Option Snapshot
startup_snapshot p = elim p.snapshot [
  | none ↦ none
  | some bytes ↦ some (record {
    last_included_index = p.log.snapshot_index;
    last_included_term = p.log.snapshot_term;
    bytes = bytes;
  })
]

unfoldable pub restore :
    NodeId → List NodeId → Storage → Timing → Instant → Draw → PersistentState → ConsensusModule
unfolding startup_snapshot reset_election_deadline
restore id peers storage timing now draw p =
    reset_election_deadline
      (record {
        id = id;
        peers = peers;
        quorum = (length peers + 1) / 2 + 1;
        storage = storage;
        timing = timing;
        current_term = p.current_term;
        voted_for = p.voted_for;
        log = p.log;
        snapshot = p.snapshot;
        role = follower;
        leader_id = none;
        commit_index = p.log.snapshot_index;
        last_applied = p.log.snapshot_index;
        next_index = [];
        match_index = [];
        votes = [];
        pre_candidate = false;
        pre_votes = [];
        last_leader_contact = now;
        pending_snapshot = startup_snapshot p;
        election_deadline = now;
      })
      now draw

unfoldable pub new :
    NodeId → List NodeId → Storage → Timing → Instant → Draw → Result Error ConsensusModule
unfolding restore
new id peers storage timing now draw = do
  persisted ← Storage.load storage
  ok (restore id peers storage timing now draw persisted)

-- `is_some()`
abbrev pub has_snapshot : Option Bytes → Bool
has_snapshot none = false
has_snapshot (some bytes) = true

unfoldable pub needs_snapshot : ConsensusModule → NodeId → Bool
needs_snapshot cm peer =
    is_leader_role cm.role
    && has_snapshot cm.snapshot
    && leb (lookup_or 1 peer cm.next_index) cm.log.snapshot_index

-- What `persist` saves.
abbrev pub persistent : ConsensusModule → PersistentState
persistent cm = record {
  current_term = cm.current_term;
  voted_for = cm.voted_for;
  log = cm.log;
  snapshot = cm.snapshot;
}

-- An error of the storage is printed and dropped.
unfoldable pub persist : ConsensusModule → ConsensusModule
persist cm = record cm { storage = (Storage.save cm.storage (persistent cm)).0 }

unfoldable pub election_timed_out : ConsensusModule → Instant → Bool
election_timed_out cm now = not (is_leader_role cm.role) && leb cm.election_deadline now

unfoldable pub abandon_pre_election : ConsensusModule → ConsensusModule
abandon_pre_election cm = record cm { pre_candidate = false; pre_votes = [] }

unfoldable pub step_down : ConsensusModule → Term → ConsensusModule
unfolding abandon_pre_election persist
step_down cm term =
    let newer = ltb cm.current_term term in
    let adopted = if newer then record cm { current_term = term; voted_for = none } else cm in
    let yielded = abandon_pre_election (record adopted { role = follower; votes = [] }) in
    if newer then persist yielded else yielded

-- `insert(peer, v)` for every peer.
unfoldable pub insert_all :
    List NodeId → LogIndex → List (NodeId × LogIndex) → List (NodeId × LogIndex)
insert_all [] v m = m
insert_all (p ∷ ps) v m = insert_all ps v (insert p v m)

unfoldable pub become_leader : ConsensusModule → ConsensusModule
unfolding abandon_pre_election
become_leader cm =
    let led = abandon_pre_election (record cm { role = leader; leader_id = some cm.id }) in
    let next = u64 (Log.last_index cm.log + 1) in
    record led { next_index = insert_all cm.peers next []; match_index = insert_all cm.peers 0 [] }

unfoldable pub maybe_become_leader : ConsensusModule → ConsensusModule
maybe_become_leader cm =
    if is_candidate_role cm.role && leb cm.quorum (length cm.votes) then become_leader cm else cm
