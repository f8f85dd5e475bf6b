-- ===== src/Bin/Runs.antt =====
-- Command lines and worlds in which every address is good and no node answers, and the theorems about
-- the programs of bin/.
use murmur.Prelude.{
  ℕ, ◌+◌, ◌*◌, ◌/◌, ◌≤◌, ◌≡◌, ◌≢◌, refl, Bool, true, none, some, List, [], ◌∷◌, length, All, arith,
}
use murmur.Prelude.Result.{Result, ok, err}
use murmur.Raft.Types.{Bytes}
use murmur.Raft.StateFile
use murmur.Raft.Storage
use murmur.Raft.Config.{Duration, from_millis}
use murmur.Raft.Transport.Clients.{uri}
use murmur.Service.Requests
use murmur.Service.State.{same_bytes}
use murmur.Service.Messages.{Code, Status}
use murmur.Clerk.{Network}
use murmur.Clerk.Attempts.{Paced}
use murmur.Bin.Text.{codes, display, digits}
use murmur.Bin.Murmurd.{Options}
use murmur.Bin.Murmurd.Main
use murmur.Bin.Murmurd.Main.{Host}
use murmur.Bin.Client
use murmur.Bin.Client.{Request, Exit, endpoints_of, request_of, parse_args, default_peers}
use murmur.Bin.Client.Answers.{Ended, main_lem}
use murmur.Bin.Client.Commands.{parse_args-request}
use murmur.Bin.Bench.Run
use murmur.Bin.Bench.Run.{World, Failure, key_of, run}
use murmur.Bin.Bench.Run.Phases.{run-Ends}
use murmur.Bin.Bench.Run.Keys.{key_of-injective}
use murmur.Bin.Bench.Report.{Figures, sort, total, mean, figures, report}
use murmur.Bin.Bench.Report.Ranks.{report_lem}

-- An address, a channel and a store are texts.
abbrev host : Host Bytes Bytes Bytes
host = record {
  parse_addr = λ text. some text;
  disk = λ path. record { path = none; tmp = none; unreadable = Bool.false; faults = [] };
  sable_open = λ dir. ok dir;
  bind = λ addr. true;
  grpc = record {
    connect_lazy = λ uri. some uri;
    request_vote = λ channel r. none;
    append_entries = λ channel r. none;
    install_snapshot = λ channel r. none;
  };
}

abbrev options : Options
options = record {
  id = 2;
  raft_listen = codes "127.0.0.1:6002";
  kv_listen = codes "127.0.0.1:5002";
  data_dir = codes "data/node2";
  peers =
      record { id = 1; addr = codes "127.0.0.1:6001" }
      ∷ record { id = 3; addr = codes "127.0.0.1:6003" }
      ∷ [];
}

abbrev down : Status
down = record { code = Code.unavailable; message = []; leader_id = none }

abbrev silent : Network Bytes
silent = record {
  connect = λ k addr. some addr;
  register = λ k channel. err down;
  get = λ k channel request. err down;
  put = λ k channel request. err down;
  append = λ k channel request. err down;
  delete = λ k channel request. err down;
  clock = λ k. from_millis (60 * (k + 1));
}

silent-Paced : Paced silent 0
silent-Paced = (omega arith, λ k. omega arith)

abbrev put_line : List Bytes
put_line = codes "put" ∷ codes "color" ∷ codes "--help" ∷ []

main_lem_example :
    (e : Exit) × (Client.main silent silent 201 0 0 put_line ≡ some e)
    × Ended silent silent
        (endpoints_of default_peers)
        0
        0
        (request_of (codes "put") (codes "color" ∷ codes "--help" ∷ []))
        e
unfolding parse_args same_bytes
main_lem_example =
    main_lem silent silent 0 0 put_line default_peers (codes "put")
      (codes "color" ∷ codes "--help" ∷ []) refl silent-Paced silent-Paced

put_not_bad : Request.put (codes "color") (codes "--help") ≢ Request.bad
put_not_bad = cc

parse_args-request_example :
    (parse_args default_peers put_line ≡ Client.parsed default_peers put_line)
    × (parse_args default_peers (codes "--peers" ∷ codes "a:1" ∷ put_line)
        ≡ Client.parsed (codes "a:1") put_line)
    × (request_of (codes "put") (codes "color" ∷ codes "--help" ∷ [])
        ≡ Request.put (codes "color") (codes "--help"))
parse_args-request_example =
    parse_args-request default_peers (codes "a:1") (Request.put (codes "color") (codes "--help"))
      put_not_bad

abbrev world : World Bytes
world = record {
  first = λ c. silent;
  net = λ c i. silent;
  start = λ c. 0;
  op_start = λ c i. 0;
  elapsed = λ c i. c + i;
}

run-Ends_example :
    (r : Result Failure (List Duration)) × (run world 201 Run.get (codes "a:1" ∷ []) 3 2 ≡ some r)
    × ((ds : List Duration) → r ≡ ok ds → length ds ≡ 3 * 2)
run-Ends_example =
    run-Ends world Run.get (λ c. silent-Paced) (λ c i. silent-Paced) (codes "a:1" ∷ []) 3 2
      (omega arith)

key_of-injective_example : (◌≡◌ {A = ℕ} 1 1) × (◌≡◌ {A = ℕ} 12 12)
key_of-injective_example =
    key_of-injective 1 12 1 12 (omega arith) (omega arith) (omega arith) (omega arith) refl

key_run : key_of 1 12 ≡ codes "c1-k12"
unfolding key_of display digits
key_run = refl

abbrev latencies : List Duration
latencies = 30 ∷ 10 ∷ 20 ∷ []

abbrev scale : ℕ → ℕ → ℕ
scale n p = n * p / 100

report_lem_example :
    (f : Figures) × (report scale latencies ≡ some f)
    × (f.count ≡ 3)
    × (f.p50 ≤ f.p95)
    × (f.p95 ≤ f.p99)
    × (f.p99 ≤ f.longest)
    × (f.average ≤ f.longest)
    × All (λ d. d ≤ f.longest) latencies
    × ((P : Duration → Type 0) → All P latencies → P f.p50 × P f.p95 × P f.p99 × P f.longest)
unfolding total
report_lem_example =
    report_lem scale latencies (omega arith) (omega arith) (omega arith) (omega arith) (omega arith)

-- A phase without an operation: `--ops 0` or `--clients 0`.
report_of_nothing : report scale [] ≡ none
unfolding report figures mean sort total
report_of_nothing = refl
