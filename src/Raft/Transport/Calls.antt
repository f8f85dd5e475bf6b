-- ===== src/Raft/Transport/Calls.antt =====
-- raft/transport.rs: the table of clients, and calls that go through it.
use mathlib.Core.Path.{subst}
use murmur.Prelude.{
  ◌≡◌, ◌⊎◌, inl, inr, refl, sym, ◌∙◌, Option, none, some, List, [], ◌∷◌, ◌==◌, if◌then◌else◌,
  Option-cases, arith,
}
use murmur.Prelude.Result.{Result, ok, err, ok-injective, err-ne-ok}
use murmur.Prelude.Maps.{insert, lookup, lookup-insert}
use murmur.Raft.Types.{NodeId, LogIndex, Bytes}
use murmur.Raft.Log
use murmur.Raft.Wire
use murmur.Raft.Config.{Instant, Draw}
use murmur.Raft.Rpc.{RequestVoteArgs, AppendEntriesArgs, AppendEntriesReply, InstallSnapshotArgs}
use murmur.Raft.Consensus.State.{ConsensusModule}
use murmur.Raft.Consensus.Election.{handle_request_vote}
use murmur.Raft.Consensus.Follower.{handle_append_entries}
use murmur.Raft.Consensus.Compaction.{handle_install_snapshot}
use murmur.Raft.Consensus.Leader.{handle_append_reply}
use murmur.Raft.Transport
use murmur.Raft.Transport.{vote_req_to_pb, append_req_to_pb, install_req_to_pb}
use murmur.Raft.Transport.Exchange.{append_entries_exchange}
use murmur.Raft.Transport.Clients
use murmur.Raft.Transport.Clients.{
  RaftClient, PeerClients, CallError, unknown_peer, uri, connect_from, connect,
}

-- The address of a peer: the last that the configuration names.
abbrev pub address_of : NodeId → Option Bytes → List (NodeId × Bytes) → Option Bytes
address_of id found [] = found
address_of id found ((i, addr) ∷ peers) = address_of id (if i == id then some addr else found) peers

module _ {Channel : Type 0} (grpc : RaftClient Channel) where
  abbrev pub client_at : Option Bytes → Option Channel
  client_at none = none
  client_at (some addr) = grpc.connect_lazy (uri addr)

  -- Every address is good and every peer has the client of its address, or one address is refused.
  abbrev Connected :
      (NodeId → Option Bytes) → List (NodeId × Bytes) → Result Bytes (PeerClients Channel) → Type 0
  Connected found peers r =
      ((c : PeerClients Channel) × (r ≡ ok c)
        × ((id : NodeId) → lookup id c.clients ≡ client_at (address_of id (found id) peers)))
      ⊎ ((addr : Bytes) × (r ≡ err addr) × (grpc.connect_lazy (uri addr) ≡ none))

  connect_from_lem :
      (table : List (NodeId × Channel)) (found : NodeId → Option Bytes)
      (peers : List (NodeId × Bytes))
      → ((id : NodeId) → lookup id table ≡ client_at (found id))
      → Connected found peers (connect_from grpc table peers)
  unfolding connect_from
  connect_from_lem table found [] same = inl (record { clients = table }, refl, same)
  connect_from_lem table found ((i, addr) ∷ peers) same =
      elim (Option-cases (grpc.connect_lazy (uri addr))) [
        | inl bad ↦ inr (addr, rw (connect_from, bad) refl, bad)
        | inr (channel, good) ↦
            rw (connect_from, good)
              (connect_from_lem (insert i channel table)
                (λ id. if i == id then some addr else found id) peers
                (λ id. ground (arith, lookup-insert i id channel table, same id, good)))
      ]

  pub connect_lem :
      (peers : List (NodeId × Bytes)) → Connected (λ id. none) peers (connect grpc peers)
  unfolding connect lookup
  connect_lem peers = connect_from_lem [] (λ id. none) peers (λ id. refl)

  -- The node behind a channel answers every call with its service.
  abbrev pub Serves : Channel → ConsensusModule → Instant → Draw → Type 0
  Serves channel node now draw =
      ((r : Wire.RequestVoteRequest)
        → grpc.request_vote channel r ≡ some (Transport.request_vote node r now draw).1)
      × ((r : Wire.AppendEntriesRequest)
          → grpc.append_entries channel r ≡ some (Transport.append_entries node r now draw).1)
      × ((r : Wire.InstallSnapshotRequest)
          → grpc.install_snapshot channel r ≡ some (Transport.install_snapshot node r now draw).1)

  module _ (c : PeerClients Channel) (peer : NodeId) where
    -- To a peer that the table does not have, no call is made.
    abbrev Unknown : Type 0
    Unknown =
        ((args : RequestVoteArgs) → Clients.request_vote grpc c peer args ≡ err (unknown_peer peer))
        × ((args : AppendEntriesArgs)
            → Clients.append_entries grpc c peer args ≡ err (unknown_peer peer))
        × ((args : InstallSnapshotArgs)
            → Clients.install_snapshot grpc c peer args ≡ err (unknown_peer peer))

    pub unknown_lem : lookup peer c.clients ≡ none → Unknown
    unfolding Clients.request_vote Clients.append_entries Clients.install_snapshot
    unknown_lem none_there = (
      λ args. rw (Clients.request_vote, none_there) refl,
      λ args. rw (Clients.append_entries, none_there) refl,
      λ args. rw (Clients.install_snapshot, none_there) refl,
    )

    module _ (channel : Channel) (node : ConsensusModule) (now : Instant) (draw : Draw)
        (there : lookup peer c.clients ≡ some channel) where
      -- A call of a vote or of a snapshot answers what the node answers.
      request_vote_call :
          (args : RequestVoteArgs)
          → Serves channel node now draw
          → Clients.request_vote grpc c peer args ≡ ok (handle_request_vote node args now draw).1
      unfolding Clients.request_vote Transport.request_vote vote_req_to_pb
          Transport.vote_req_from_pb Transport.vote_reply_to_pb Transport.vote_reply_from_pb
      request_vote_call args (vote, _, _) =
          rw (Clients.request_vote, there, vote (vote_req_to_pb args)) refl

      install_snapshot_call :
          (args : InstallSnapshotArgs)
          → Serves channel node now draw
          → Clients.install_snapshot grpc c peer args
            ≡ ok (handle_install_snapshot node args now draw).1
      unfolding Clients.install_snapshot Transport.install_snapshot install_req_to_pb
          Transport.install_req_from_pb Transport.install_reply_to_pb
          Transport.install_reply_from_pb
      install_snapshot_call args (_, _, install) =
          rw (Clients.install_snapshot, there, install (install_req_to_pb args)) refl

      -- The answer to a call for entries has the effect of the answer of the node.
      append_entries_call :
          (leader : ConsensusModule) (args : AppendEntriesArgs) (hint : LogIndex)
          → Log.last_index_of_term leader.log 0 ≡ none
          → Serves channel node now draw
          → (reply : AppendEntriesReply) × (Clients.append_entries grpc c peer args ≡ ok reply)
            × (handle_append_reply leader peer reply hint
                ≡ handle_append_reply leader peer (handle_append_entries node args now draw).1 hint)
      unfolding Clients.append_entries
      append_entries_call leader args hint no_zero (_, append, _) =
          let (_, same) = append_entries_exchange leader node peer args hint now draw no_zero in
          (_, rw (Clients.append_entries, there, append (append_req_to_pb args)) refl, same)

  -- Through the clients of a configuration, to a peer whose address is good and behind whose channel a
  -- node serves, from a leader whose log has no entry of term 0: a request for a vote and a snapshot
  -- are answered as the node itself answers, and the answer to AppendEntries changes the leader as the
  -- answer of the node itself does.
  pub calls_lem :
      (peers : List (NodeId × Bytes)) (c : PeerClients Channel) (peer : NodeId) (channel : Channel)
      (leader node : ConsensusModule) (hint : LogIndex) (now : Instant) (draw : Draw)
      → connect grpc peers ≡ ok c
      → client_at (address_of peer none peers) ≡ some channel
      → Serves channel node now draw
      → Log.last_index_of_term leader.log 0 ≡ none
      → ((args : RequestVoteArgs)
          → Clients.request_vote grpc c peer args ≡ ok (handle_request_vote node args now draw).1)
        × ((args : InstallSnapshotArgs)
            → Clients.install_snapshot grpc c peer args
              ≡ ok (handle_install_snapshot node args now draw).1)
        × ((args : AppendEntriesArgs)
            → (reply : AppendEntriesReply) × (Clients.append_entries grpc c peer args ≡ ok reply)
              × (handle_append_reply leader peer reply hint
                  ≡ handle_append_reply leader peer
                      (handle_append_entries node args now draw).1
                      hint))
  calls_lem peers c peer channel leader node hint now draw connected good serves no_zero =
      let there : lookup peer c.clients ≡ some channel = elim (connect_lem peers) [
        | inl (c', done, found) ↦
            subst (λ (d : PeerClients Channel). lookup peer d.clients ≡ some channel)
              (ok-injective (sym done ∙ connected)) (found peer ∙ good)
        | inr (addr, refused, _) ↦ absurd (err-ne-ok (sym refused ∙ connected))
      ] in
      (
        λ args. request_vote_call c peer channel node now draw there args serves,
        λ args. install_snapshot_call c peer channel node now draw there args serves,
        λ args.
            append_entries_call c peer channel node now draw there leader args hint no_zero serves,
      )
