-- ===== src/Raft/Node.antt =====
-- raft/node.rs: `start_node` and the handle of a running node. The listener, the two tasks and the
-- channel between them are runtime code: of a task it is kept whether it was aborted.
pub mod Starting
mod Runs
use murmur.Prelude.{ℕ, Bool, true, false, Option, none, some, List, [], ◌∷◌, map}
use murmur.Prelude.Result.{Result, ok, err}
use murmur.Raft.Types.{NodeId, LogIndex, Bytes}
use murmur.Raft.Log
use murmur.Raft.StateFile.{Error}
use murmur.Raft.Storage.{Storage}
use murmur.Raft.Config.{Timing, Instant, Draw, Peer, ClusterConfig}
use murmur.Raft.Consensus.State
use murmur.Raft.Consensus.State.{ConsensusModule}
use murmur.Raft.Consensus.Compaction
use murmur.Raft.Consensus.Leader.{submit_command}
use murmur.Raft.Transport.Clients
use murmur.Raft.Transport.Clients.{RaftClient, PeerClients}
use murmur.Raft.Driver
use murmur.Raft.Driver.{Driver, launch}

pub data Task : Type 0 where
  spawned aborted : Task

-- The core is shared with the driver.
pub record NodeHandle : Type 0 where
  pub id : NodeId
  pub core : ConsensusModule
  pub running : Bool
  pub tasks : List Task

-- Also what `drop` does.
unfoldable pub kill : NodeHandle → NodeHandle
kill h = record h { running = false; tasks = map (λ task. aborted) h.tasks }

-- `NodeHandle::raft_log_len` and that of `RaftControl`.
unfoldable pub raft_log_len : ConsensusModule → ℕ
raft_log_len core = Log.len core.log

-- `RaftControl::snapshot`; `none` is a panic.
unfoldable pub control_snapshot : ConsensusModule → LogIndex → Bytes → Option ConsensusModule
control_snapshot core index bytes = Compaction.snapshot core index bytes

unfoldable pub handle_propose : NodeHandle → Bytes → NodeHandle × Option LogIndex
handle_propose h command =
    let (core, index) = submit_command h.core command in (record h { core = core }, index)

-- The storage cannot be read, or an address is no URI.
pub data StartError : Type 0 where
  storage : Error → StartError
  address : Bytes → StartError

-- What runs: the handle, the driver at its start, and the clients that its tasks call.
pub record Started (Channel : Type 0) : Type 0 where
  pub handle : NodeHandle
  pub driver : Driver
  pub clients : PeerClients Channel

abbrev pub peer_ids : List Peer → List NodeId
peer_ids = map (λ (p : Peer). p.id)

abbrev pub peer_addrs : List Peer → List (NodeId × Bytes)
peer_addrs = map (λ (p : Peer). (p.id, p.addr))

module _ {Channel : Type 0} (grpc : RaftClient Channel) where
  -- The core and then the clients; the driver reads the clock for itself.
  pub with_clients :
      ClusterConfig
      → Timing
      → Instant
      → ConsensusModule
      → Result Bytes (PeerClients Channel)
      → Result StartError (Started Channel)
  with_clients config timing later core (err addr) = err (address addr)
  with_clients config timing later core (ok clients) = ok (record {
    handle = record { id = config.id; core = core; running = true; tasks = spawned ∷ spawned ∷ [] };
    driver = launch core (peer_ids config.peers) timing later;
    clients = clients;
  })

  pub with_core :
      ClusterConfig
      → Timing
      → Instant
      → Result Error ConsensusModule
      → Result StartError (Started Channel)
  unfolding with_clients
  with_core config timing later (err e) = err (storage e)
  with_core config timing later (ok core) =
      with_clients config timing later core (Clients.connect grpc (peer_addrs config.peers))

  unfoldable pub start_node :
      ClusterConfig
      → Storage
      → Timing
      → Instant
      → Instant
      → Draw
      → Result StartError (Started Channel)
  unfolding with_core
  start_node config from timing now later draw =
      with_core config timing later
        (State.new config.id (peer_ids config.peers) from timing now draw)
