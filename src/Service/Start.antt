-- ===== src/Service/Start.antt =====
-- app.rs: `start`, from a configuration to a service behind a node that runs.
use murmur.Prelude.Result.{Result, ok, ◌>>=◌}
use murmur.Raft.Config.{Timing, Instant, Draw, ClusterConfig}
use murmur.Raft.Storage.{Storage}
use murmur.Raft.Transport.Clients.{RaftClient}
use murmur.Raft.Node.{StartError, Started, start_node}
use murmur.Service.Requests
use murmur.Service.Requests.{Inner}

module _ {Channel Db : Type 0} (grpc : RaftClient Channel) where
  unfoldable pub start :
      ClusterConfig
      → Storage
      → Timing
      → Instant
      → Instant
      → Draw
      → Db
      → Result StartError (Started Channel × Inner Db)
  start config from timing now later draw store = do
    started ← start_node grpc config from timing now later draw
    ok (started, Requests.start config.id started.handle.core store)
