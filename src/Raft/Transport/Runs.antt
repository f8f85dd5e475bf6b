-- ===== src/Raft/Transport/Runs.antt =====
-- Two nodes that serve behind their addresses, and the theorem about calls.
use murmur.Prelude.{◌≡◌, refl, some, List, [], ◌∷◌}
use murmur.Prelude.Result.{ok}
use murmur.Prelude.Maps.{insert}
use murmur.Raft.Types.{NodeId, Bytes}
use murmur.Raft.Log
use murmur.Raft.Rpc.{RequestVoteArgs, AppendEntriesArgs, AppendEntriesReply, InstallSnapshotArgs}
use murmur.Raft.Consensus.State.{ConsensusModule}
use murmur.Raft.Consensus.Samples.{draw, led, behind}
use murmur.Raft.Consensus.Election.{handle_request_vote}
use murmur.Raft.Consensus.Follower.{handle_append_entries}
use murmur.Raft.Consensus.Compaction.{handle_install_snapshot}
use murmur.Raft.Consensus.Leader.{handle_append_reply}
use murmur.Raft.Transport
use murmur.Raft.Transport.Clients
use murmur.Raft.Transport.Clients.{RaftClient, PeerClients}
use murmur.Raft.Transport.Calls.{calls_lem}

-- A channel is the node behind it, and every address is that of `behind`.
abbrev grpc : RaftClient ConsensusModule
grpc = record {
  connect_lazy = λ uri. some behind;
  request_vote = λ node r. some (Transport.request_vote node r 5 draw).1;
  append_entries = λ node r. some (Transport.append_entries node r 5 draw).1;
  install_snapshot = λ node r. some (Transport.install_snapshot node r 5 draw).1;
}

abbrev table : List (NodeId × Bytes)
table = (2, 10 ∷ []) ∷ (3, 20 ∷ []) ∷ []

abbrev clients : PeerClients ConsensusModule
clients = record { clients = (2, behind) ∷ (3, behind) ∷ [] }

connected : Clients.connect grpc table ≡ ok clients
unfolding Clients.connect Clients.connect_from insert
connected = refl

calls_lem_example :
    ((args : RequestVoteArgs)
      → Clients.request_vote grpc clients 2 args ≡ ok (handle_request_vote behind args 5 draw).1)
    × ((args : InstallSnapshotArgs)
        → Clients.install_snapshot grpc clients 2 args
          ≡ ok (handle_install_snapshot behind args 5 draw).1)
    × ((args : AppendEntriesArgs)
        → (reply : AppendEntriesReply) × (Clients.append_entries grpc clients 2 args ≡ ok reply)
          × (handle_append_reply led 2 reply 5
              ≡ handle_append_reply led 2 (handle_append_entries behind args 5 draw).1 5))
unfolding Log.last_index_of_term Log.rposition
calls_lem_example =
    calls_lem grpc table clients 2 behind led behind 5 5 draw connected refl
      (λ r. refl, λ r. refl, λ r. refl) refl
