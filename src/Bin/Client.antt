-- ===== src/Bin/Client.antt =====
-- bin/murmur.rs: the command line client. A text that is printed is its bytes, before the lossy
-- decoding. `none` is a panic, or a clerk that its fuel stops.
pub mod Answers
pub mod Commands
use murmur.Prelude.{
  ℕ, Bool, true, false, ◌||◌, Option, none, some, List, [], ◌∷◌, map, if◌then◌else◌,
}
use murmur.Raft.Types.{Bytes}
use murmur.Raft.Config.{Instant}
use murmur.Service.Messages.{Status}
use murmur.Service.State.{same_bytes}
use murmur.Clerk
use murmur.Clerk.{Network, Clerk, Reply, Connection}
use murmur.Bin.Text.{codes, split, trim}

abbrev pub default_peers : Bytes
default_peers = codes "127.0.0.1:5001,127.0.0.1:5002,127.0.0.1:5003"

pub data Parsed : Type 0 where
  help : Parsed
  parsed : Bytes → List Bytes → Parsed

abbrev pub is_help : Bytes → Bool
is_help arg = same_bytes arg (codes "-h") || same_bytes arg (codes "--help")

-- The loop over the arguments, up to the first that is no flag.
unfoldable pub parse_args : Bytes → List Bytes → Parsed
parse_args peers [] = parsed peers []
parse_args peers (arg ∷ []) =
    if same_bytes arg (codes "--peers")
    then parsed peers []
    else if is_help arg
    then help
    else parsed peers (arg ∷ [])
parse_args peers (arg ∷ next ∷ rest) =
    let more = parse_args next rest in
    if same_bytes arg (codes "--peers")
    then more
    else if is_help arg
    then help
    else parsed peers (arg ∷ next ∷ rest)

unfoldable pub endpoints_of : Bytes → List Bytes
endpoints_of peers = map trim (split peers b',')

-- The patterns of the `match` on the command and its operands.
pub data Request : Type 0 where
  get : Bytes → Request
  put append : Bytes → Bytes → Request
  del : Bytes → Request
  bad : Request

unfoldable pub request_of : Bytes → List Bytes → Request
request_of command (key ∷ []) =
    if same_bytes command (codes "get")
    then get key
    else if same_bytes command (codes "del")
    then del key
    else bad
request_of command (key ∷ value ∷ []) =
    if same_bytes command (codes "put")
    then put key value
    else if same_bytes command (codes "append")
    then append key value
    else bad
request_of command operands = bad

-- How the process ends: with an error, with a printed line, or with status 1 for a missing key.
pub data Exit : Type 0 where
  usage no_node timed_out absent : Exit
  failed : Status → Exit
  printed : Bytes → Exit

abbrev pub value_or_absent : Option Bytes → Exit
value_or_absent none = absent
value_or_absent (some value) = printed value

module _ {Channel : Type 0} where
  -- `?` on the result of an operation, and what is done with its value.
  unfoldable pub shown : {T : Type 0} → (T → Exit) → Option (Clerk Channel × Reply T) → Option Exit
  shown show none = none
  shown show (some (c, Clerk.returned v)) = some (show v)
  shown show (some (c, Clerk.failed status)) = some (failed status)
  shown show (some (c, Clerk.timed_out)) = some timed_out

  module _ (net : Network Channel) (fuel : ℕ) (now : Instant) (c : Clerk Channel) where
    unfoldable pub run : Request → Option Exit
    run (get key) = shown value_or_absent (Clerk.get net key fuel now c)
    run (put key value) = shown (λ done. printed (codes "OK")) (Clerk.put net key value fuel now c)
    run (append key value) = shown (λ v. printed v) (Clerk.append net key value fuel now c)
    run (del key) = shown (λ done. printed (codes "OK")) (Clerk.delete net key fuel now c)
    run bad = some usage

  -- `first` is what the connection meets, and `net` what the operation meets.
  module _ (first net : Network Channel) (fuel : ℕ) (now later : Instant) where
    pub connected_run : Request → Option (Clerk Channel × Connection) → Option Exit
    connected_run r none = none
    connected_run r (some (c, Clerk.connected)) = run net fuel later c r
    connected_run r (some (c, Clerk.no_answer)) = some no_node
    connected_run r (some (c, Clerk.no_endpoint)) = some no_node

    -- The cluster is connected to before the command is looked at.
    unfoldable pub execute : Parsed → Option Exit
    unfolding connected_run
    execute help = some usage
    execute (parsed peers []) = some usage
    execute (parsed peers (command ∷ operands)) =
        connected_run (request_of command operands)
          (Clerk.connect first (endpoints_of peers) fuel now)

    unfoldable pub main : List Bytes → Option Exit
    main args = execute (parse_args default_peers args)
