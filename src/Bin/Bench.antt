-- ===== src/Bin/Bench.antt =====
-- bin/murmur-bench.rs: the command line of the benchmark.
pub mod Run
pub mod Report
use murmur.Prelude.{ℕ, zero, suc, List, [], ◌∷◌, ◌||◌, if◌then◌else◌}
use murmur.Raft.Types.{Bytes}
use murmur.Service.State.{same_bytes}
use murmur.Bin.Text.{codes}
use murmur.Bin.Murmurd.{number_or}
use murmur.Bin.Client.{default_peers}

pub record Options : Type 0 where
  pub peers : Bytes
  pub clients : ℕ
  pub ops : ℕ
  pub value_size : ℕ

abbrev pub defaults : Options
defaults = record { peers = default_peers; clients = 8; ops = 200; value_size = 64 }

pub data Parsed : Type 0 where
  start : Options → Parsed
  help : Parsed
  unknown_argument : Bytes → Parsed

pub data Flag : Type 0 where
  peers clients ops value_size help other : Flag

unfoldable pub flag : Bytes → Flag
flag arg =
    if same_bytes arg (codes "--peers")
    then Flag.peers
    else if same_bytes arg (codes "--clients")
    then Flag.clients
    else if same_bytes arg (codes "--ops")
    then Flag.ops
    else if same_bytes arg (codes "--value-size")
    then Flag.value_size
    else if same_bytes arg (codes "-h") || same_bytes arg (codes "--help")
    then Flag.help
    else Flag.other

-- The loop over the arguments; a flag at the end has no value, and keeps the old one.
unfoldable pub parse_args : Options → List Bytes → Parsed
parse_args o [] = start o
parse_args o (arg ∷ []) = elim (flag arg) [
  | help ↦ Parsed.help
  | other ↦ unknown_argument arg
  | _ ↦ start o
]
parse_args o (arg ∷ value ∷ rest) = elim (flag arg) [
  | peers ↦ parse_args (record o { peers = value }) rest
  | clients ↦ parse_args (record o { clients = number_or o.clients value }) rest
  | ops ↦ parse_args (record o { ops = number_or o.ops value }) rest
  | value_size ↦ parse_args (record o { value_size = number_or o.value_size value }) rest
  | help ↦ Parsed.help
  | other ↦ unknown_argument arg
]

-- `vec![b'x'; value_size]`
unfoldable pub filled : ℕ → Bytes
filled zero = []
filled (suc n) = b'x' ∷ filled n
