-- ===== src/Bin/Murmurd.antt =====
-- bin/murmurd.rs: the command line of a node.
pub mod CommandLine
pub mod Main
use murmur.Prelude.{ℕ, Option, none, some, List, [], ◌∷◌, ◌++◌, if◌then◌else◌}
use murmur.Prelude.Result.{Result, ok, err}
use murmur.Raft.Types.{NodeId, Bytes}
use murmur.Raft.Config.{Peer}
use murmur.Service.State.{same_bytes}
use murmur.Bin.Text.{codes, parse_u64, split_once}

-- Why `main` ends before it serves.
pub data ArgError : Type 0 where
  bad_peer : Bytes → ArgError
  bad_id : Bytes → ArgError
  unknown_argument : Bytes → ArgError

pub peer_of : Bytes → Option (Bytes × Bytes) → Result ArgError Peer
peer_of spec none = err (bad_peer spec)
peer_of spec (some (id, addr)) = elim (parse_u64 id) [
  | none ↦ err (bad_id id)
  | some n ↦ ok (record { id = n; addr = addr })
]

unfoldable pub parse_peer : Bytes → Result ArgError Peer
unfolding peer_of
parse_peer spec = peer_of spec (split_once spec b'@')

pub record Options : Type 0 where
  pub id : NodeId
  pub raft_listen : Bytes
  pub kv_listen : Bytes
  pub data_dir : Bytes
  pub peers : List Peer

abbrev pub defaults : Options
defaults = record {
  id = 1;
  raft_listen = codes "127.0.0.1:6001";
  kv_listen = codes "127.0.0.1:5001";
  data_dir = codes "data/node1";
  peers = [];
}

pub data Parsed : Type 0 where
  start : Options → Parsed
  help : Parsed
  refused : ArgError → Parsed

pub data Flag : Type 0 where
  id raft_listen kv_listen data_dir peer help other : Flag

unfoldable pub flag : Bytes → Flag
flag arg =
    if same_bytes arg (codes "--id")
    then Flag.id
    else if same_bytes arg (codes "--raft-listen")
    then Flag.raft_listen
    else if same_bytes arg (codes "--kv-listen")
    then Flag.kv_listen
    else if same_bytes arg (codes "--data")
    then Flag.data_dir
    else if same_bytes arg (codes "--peer")
    then Flag.peer
    else if same_bytes arg (codes "-h")
    then Flag.help
    else if same_bytes arg (codes "--help")
    then Flag.help
    else Flag.other

-- A value that is no number keeps the old one.
abbrev pub number_or : ℕ → Bytes → ℕ
number_or old value = elim (parse_u64 value) [ none ↦ old | some n ↦ n ]

-- `peers.push(parse_peer(..)?)`
push_peer : Options → Result ArgError Peer → (Options → Parsed) → Parsed
push_peer o (err e) more = refused e
push_peer o (ok p) more = more (record o { peers = o.peers ++ (p ∷ []) })

-- The loop over the arguments; a flag at the end has no value, and keeps the old one.
unfoldable pub parse_args : Options → List Bytes → Parsed
unfolding push_peer
parse_args o [] = start o
parse_args o (arg ∷ []) = elim (flag arg) [
  | peer ↦ push_peer o (parse_peer []) (λ o'. start o')
  | help ↦ Parsed.help
  | other ↦ refused (unknown_argument arg)
  | _ ↦ start o
]
parse_args o (arg ∷ value ∷ rest) = elim (flag arg) [
  | id ↦ parse_args (record o { id = number_or o.id value }) rest
  | raft_listen ↦ parse_args (record o { raft_listen = value }) rest
  | kv_listen ↦ parse_args (record o { kv_listen = value }) rest
  | data_dir ↦ parse_args (record o { data_dir = value }) rest
  | peer ↦ push_peer o (parse_peer value) (λ o'. parse_args o' rest)
  | help ↦ Parsed.help
  | other ↦ refused (unknown_argument arg)
]
