-- ===== src/Bin/Murmurd/Main.antt =====
-- bin/murmurd.rs: `main`, up to the call that serves. The machine is a parameter: its disk, its sockets
-- and the connections to other nodes.
pub mod Serving
use murmur.Prelude.{ℕ, Bool, true, false, Option, none, some, List, [], ◌∷◌, ◌++◌}
use murmur.Prelude.Result.{Result, ok, err, ◌>>=◌}
use murmur.Raft.Types.{Bytes}
use murmur.Raft.Config
use murmur.Raft.Config.{Instant, Draw, ClusterConfig}
use murmur.Raft.Storage.{Storage, file, FileStorage}
use murmur.Raft.Transport.Clients.{RaftClient}
use murmur.Raft.Node.{StartError, Started}
use murmur.Service.Store
use murmur.Service.Store.{StoreError}
use murmur.Service.Requests.{Inner}
use murmur.Service.Start
use murmur.Bin.Text.{codes}
use murmur.Bin.Murmurd.{ArgError, Options, defaults, Parsed, start, help, refused, parse_args}

-- `parse_addr` is `parse::<SocketAddr>()`, `disk` what a file of the Raft state holds, `sable_open` is
-- `Db::open`, and `bind` tells whether an address can be listened on.
pub record Host (Channel Addr Db : Type 0) : Type 0 where
  pub parse_addr : Bytes → Option Addr
  pub disk : Bytes → FileStorage
  pub sable_open : Bytes → Result Bytes Db
  pub bind : Addr → Bool
  pub grpc : RaftClient Channel

pub data MainError (Addr : Type 0) : Type 0 where
  arguments : ArgError → MainError Addr
  bad_address : Bytes → MainError Addr
  no_store : StoreError → MainError Addr
  in_use : Addr → MainError Addr
  no_node : StartError → MainError Addr

-- What is there when `main` ends, or begins to serve.
pub data Daemon (Channel Db : Type 0) : Type 0 where
  helped : Daemon Channel Db
  serving : Started Channel → Inner Db → Daemon Channel Db

abbrev pub or_error : {E F A : Type 0} → (E → F) → Result E A → Result F A
or_error f (ok a) = ok a
or_error f (err e) = err (f e)

abbrev pub some_or : {F A : Type 0} → F → Option A → Result F A
some_or f (some a) = ok a
some_or f none = err f

abbrev pub raft_state : Options → Bytes
raft_state o = o.data_dir ++ codes "/raft-state"

abbrev pub kv_dir : Options → Bytes
kv_dir o = o.data_dir ++ codes "/kv"

abbrev pub config_of : Options → ClusterConfig
config_of o = record { id = o.id; peers = o.peers }

module _ {Channel Addr Db : Type 0} (host : Host Channel Addr Db) (now later : Instant)
    (draw : Draw) where
  abbrev pub listen : Addr → Result (MainError Addr) Addr
  listen addr = elim (host.bind addr) [ true ↦ ok addr | false ↦ err (in_use addr) ]

  unfoldable pub serve : Options → Result (MainError Addr) (Daemon Channel Db)
  serve o = do
    raft_addr ← some_or (bad_address o.raft_listen) (host.parse_addr o.raft_listen)
    kv_addr ← some_or (bad_address o.kv_listen) (host.parse_addr o.kv_listen)
    store ← or_error no_store (Store.open_store host.sable_open (kv_dir o))
    raft_listener ← listen raft_addr
    (started, inner) ← or_error no_node (
        Start.start host.grpc (config_of o) (file (host.disk (raft_state o))) Config.default now
          later draw store)
    kv_listener ← listen kv_addr
    ok (serving started inner)

  unfoldable pub main : List Bytes → Result (MainError Addr) (Daemon Channel Db)
  main args = elim (parse_args defaults args) [
    | start o ↦ serve o
    | help ↦ ok helped
    | refused e ↦ err (arguments e)
  ]
