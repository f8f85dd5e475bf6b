-- ===== src/Raft/Node/Runs.antt =====
-- A node of a cluster of three that starts on an empty disk, and the theorem about starting.
use murmur.Prelude.{none, some, [], ◌∷◌}
use murmur.Raft.Types.{Bytes}
use murmur.Raft.StateFile
use murmur.Raft.Storage
use murmur.Raft.Config
use murmur.Raft.Config.{ClusterConfig}
use murmur.Raft.Transport.Clients.{RaftClient}
use murmur.Raft.Node.{address}

-- Every address is good, and a channel is its address.
abbrev grpc : RaftClient Bytes
grpc = record {
  connect_lazy = λ address. some address;
  request_vote = λ channel r. none;
  append_entries = λ channel r. none;
  install_snapshot = λ channel r. none;
}

abbrev config : ClusterConfig
config = record {
  id = 1;
  peers = record { id = 2; addr = 10 ∷ [] } ∷ record { id = 3; addr = 20 ∷ [] } ∷ [];
}
