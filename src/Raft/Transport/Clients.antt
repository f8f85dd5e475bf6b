-- ===== src/Raft/Transport/Clients.antt =====
-- raft/transport.rs: `PeerClients`, the clients of the peers. The channel of a peer and the call over
-- it are gRPC, and parameters: `none` is an address that is no URI, and a call that fails.
use murmur.Prelude.{Option, none, some, List, [], ◌∷◌}
use murmur.Prelude.Result.{Result, ok, err}
use murmur.Prelude.Maps.{insert, lookup}
use murmur.Raft.Types.{NodeId, Bytes}
use murmur.Raft.Wire
use murmur.Raft.Rpc.{
  RequestVoteArgs, RequestVoteReply, AppendEntriesArgs, AppendEntriesReply, InstallSnapshotArgs,
  InstallSnapshotReply,
}
use murmur.Raft.Transport.{
  vote_req_to_pb, vote_reply_from_pb, append_req_to_pb, append_reply_from_pb, install_req_to_pb,
  install_reply_from_pb,
}

pub record RaftClient (Channel : Type 0) : Type 0 where
  pub connect_lazy : Bytes → Option Channel
  pub request_vote : Channel → Wire.RequestVoteRequest → Option Wire.RequestVoteResponse
  pub append_entries : Channel → Wire.AppendEntriesRequest → Option Wire.AppendEntriesResponse
  pub install_snapshot : Channel → Wire.InstallSnapshotRequest → Option Wire.InstallSnapshotResponse

pub record PeerClients (Channel : Type 0) : Type 0 where
  pub clients : List (NodeId × Channel)

pub data CallError : Type 0 where
  unknown_peer : NodeId → CallError
  call_failed : CallError

-- `http://{addr}`
abbrev pub uri : Bytes → Bytes
uri addr = b'h' ∷ b't' ∷ b't' ∷ b'p' ∷ b':' ∷ b'/' ∷ b'/' ∷ addr

-- What comes back is `into_inner` of the response, read from the wire.
abbrev answered : {A B : Type 0} → (A → B) → Option A → Result CallError B
answered read none = err call_failed
answered read (some response) = ok (read response)

module _ {Channel : Type 0} (grpc : RaftClient Channel) where
  -- The loop of `connect`; the address at which it stops is its error.
  unfoldable pub connect_from :
      List (NodeId × Channel) → List (NodeId × Bytes) → Result Bytes (PeerClients Channel)
  connect_from clients [] = ok (record { clients = clients })
  connect_from clients ((id, addr) ∷ peers) = elim (grpc.connect_lazy (uri addr)) [
    | none ↦ err addr
    | some channel ↦ connect_from (insert id channel clients) peers
  ]

  unfoldable pub connect : List (NodeId × Bytes) → Result Bytes (PeerClients Channel)
  connect peers = connect_from [] peers

  module _ (c : PeerClients Channel) (peer : NodeId) where
    unfoldable pub request_vote : RequestVoteArgs → Result CallError RequestVoteReply
    request_vote args = elim (lookup peer c.clients) [
      | none ↦ err (unknown_peer peer)
      | some channel ↦ answered vote_reply_from_pb (grpc.request_vote channel (vote_req_to_pb args))
    ]

    unfoldable pub append_entries : AppendEntriesArgs → Result CallError AppendEntriesReply
    append_entries args = elim (lookup peer c.clients) [
      | none ↦ err (unknown_peer peer)
      | some channel ↦
          answered append_reply_from_pb (grpc.append_entries channel (append_req_to_pb args))
    ]

    unfoldable pub install_snapshot : InstallSnapshotArgs → Result CallError InstallSnapshotReply
    install_snapshot args = elim (lookup peer c.clients) [
      | none ↦ err (unknown_peer peer)
      | some channel ↦
          answered install_reply_from_pb (grpc.install_snapshot channel (install_req_to_pb args))
    ]
