-- ===== src/Raft/Node/Starting.antt =====
-- raft/node.rs: a node that starts is ready for its rounds.
use murmur.Prelude.{◌≤◌, ◌≡◌, true, none}
use murmur.Prelude.Maps.{lookup}
use murmur.Raft.Types.{NodeId, follower}
use murmur.Raft.StateFile.{PersistentState}
use murmur.Raft.Storage
use murmur.Raft.Storage.{Storage}
use murmur.Raft.Config.{Instant, ClusterConfig}
use murmur.Raft.Consensus.State
use murmur.Raft.Consensus.State.{ConsensusModule}
use murmur.Raft.Consensus.Invariant.{IsValid}
use murmur.Raft.Consensus.Steps.Delivery.{LevelOf}
use murmur.Raft.Transport.Clients.{RaftClient}
use murmur.Raft.Transport.Calls.{address_of, client_at}
use murmur.Raft.Driver.{heartbeat_due}
use murmur.Raft.Node.{Started, peer_ids, peer_addrs}

module _ {Channel : Type 0} (grpc : RaftClient Channel) where
  -- The core holds what the storage held and is valid, at one level with an empty state machine. The
  -- driver shares it, knows the peers, and sends its first heartbeat at once. Each peer has the client
  -- of its address.
  pub record Ready (config : ClusterConfig) (p : PersistentState) (later : Instant)
      (s : Started Channel) : Type 0 where
    pub id : s.handle.id ≡ config.id
    pub running : s.handle.running ≡ true
    pub shared : s.driver.core ≡ s.handle.core
    pub role : s.handle.core.role ≡ follower
    pub current_term : s.handle.core.current_term ≡ p.current_term
    pub voted_for : s.handle.core.voted_for ≡ p.voted_for
    pub log : s.handle.core.log ≡ p.log
    pub valid : IsValid s.handle.core
    pub level : LevelOf 0 s.handle.core
    pub peers : s.driver.peer_ids ≡ peer_ids config.peers
    pub due : (t : Instant) → later ≤ t → heartbeat_due s.driver t ≡ true
    pub reaches :
        (peer : NodeId)
        → lookup peer s.clients.clients
          ≡ client_at grpc (address_of peer none (peer_addrs config.peers))
