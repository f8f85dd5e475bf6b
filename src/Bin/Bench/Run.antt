-- ===== src/Bin/Bench/Run.antt =====
-- bin/murmur-bench.rs: a phase of the benchmark. What the tasks meet is a parameter: a network and the
-- time for each operation of each client, and how long the operation took. What
-- `with_capacity` allocates is left out.
pub mod Phases
pub mod Keys
use murmur.Prelude.{ℕ, zero, suc, ◌+◌, Option, none, some, List, [], ◌∷◌, ◌++◌}
use murmur.Prelude.Result.{Result, ok, err}
use murmur.Raft.Types.{Bytes}
use murmur.Raft.Config.{Duration, Instant}
use murmur.Service.Messages.{Status}
use murmur.Clerk
use murmur.Clerk.{Network, Clerk, Reply, Connection}
use murmur.Bin.Text.{display}

pub data Workload : Type 0 where
  put : Bytes → Workload
  get : Workload

-- Why a task ends early.
pub data Failure : Type 0 where
  no_node timed_out : Failure
  failed : Status → Failure

-- What client `c` meets when it connects, and in its operation `i`.
pub record World (Channel : Type 0) : Type 0 where
  pub first : ℕ → Network Channel
  pub net : ℕ → ℕ → Network Channel
  pub start : ℕ → Instant
  pub op_start : ℕ → ℕ → Instant
  pub elapsed : ℕ → ℕ → Duration

-- `c{c}-k{i}`
unfoldable pub key_of : ℕ → ℕ → Bytes
key_of c i = b'c' ∷ (display c ++ b'-' ∷ b'k' ∷ display i)

-- `none` is a panic, or a clerk that its fuel stops; else the latencies, or why the task ended.
abbrev pub Latencies : Type 0
Latencies = Option (Result Failure (List Duration))

-- The latency of an operation that is done, before those of the rest.
pub cons_latency : Duration → Latencies → Latencies
cons_latency d none = none
cons_latency d (some (err e)) = some (err e)
cons_latency d (some (ok ds)) = some (ok (d ∷ ds))

-- `all.extend(..)`
pub join_latencies : Latencies → Latencies → Latencies
join_latencies none rest = none
join_latencies (some (err e)) rest = some (err e)
join_latencies (some (ok ds)) none = none
join_latencies (some (ok ds)) (some (err e)) = some (err e)
join_latencies (some (ok ds)) (some (ok rest)) = some (ok (ds ++ rest))

module _ {Channel : Type 0} where
  -- `?` on the result of an operation whose value is dropped.
  unfoldable pub checked :
      {T : Type 0}
      → Option (Clerk Channel × Reply T)
      → Option (Clerk Channel × Result Failure (Unit {0}))
  checked none = none
  checked (some (c, Clerk.returned v)) = some (c, ok tt)
  checked (some (c, Clerk.failed status)) = some (c, err (failed status))
  checked (some (c, Clerk.timed_out)) = some (c, err timed_out)

  unfoldable pub issue :
      Workload
      → Network Channel
      → Bytes
      → ℕ
      → Instant
      → Clerk Channel
      → Option (Clerk Channel × Result Failure (Unit {0}))
  issue (put value) net key fuel now clerk = checked (Clerk.put net key value fuel now clerk)
  issue get net key fuel now clerk = checked (Clerk.get net key fuel now clerk)

  pub after_op :
      Duration
      → Option (Clerk Channel × Result Failure (Unit {0}))
      → (Clerk Channel → Latencies)
      → Latencies
  unfolding cons_latency
  after_op d none more = none
  after_op d (some (clerk, err e)) more = some (err e)
  after_op d (some (clerk, ok done)) more = cons_latency d (more clerk)

  module _ (world : World Channel) (fuel : ℕ) (workload : Workload) where
    -- The operations of client `c` from `i` on, `n` of them.
    unfoldable pub run_ops : ℕ → ℕ → ℕ → Clerk Channel → Latencies
    unfolding after_op
    run_ops c zero i clerk = some (ok [])
    run_ops c (suc n) i clerk =
        after_op (world.elapsed c i)
          (issue workload (world.net c i) (key_of c i) fuel (world.op_start c i) clerk)
          (λ clerk'. run_ops c n (i + 1) clerk')

    pub connected_task : ℕ → ℕ → Option (Clerk Channel × Connection) → Latencies
    connected_task c ops none = none
    connected_task c ops (some (clerk, Clerk.connected)) = run_ops c ops 0 clerk
    connected_task c ops (some (clerk, Clerk.no_answer)) = some (err no_node)
    connected_task c ops (some (clerk, Clerk.no_endpoint)) = some (err no_node)

    -- The task of client `c`.
    unfoldable pub run_client : List Bytes → ℕ → ℕ → Latencies
    unfolding connected_task
    run_client endpoints ops c =
        connected_task c ops (Clerk.connect (world.first c) endpoints fuel (world.start c))

    -- The tasks run at the same time and are awaited in their order: from client `c` on, `n` of them.
    unfoldable pub run_from : List Bytes → ℕ → ℕ → ℕ → Latencies
    unfolding join_latencies
    run_from endpoints ops zero c = some (ok [])
    run_from endpoints ops (suc n) c =
        join_latencies (run_client endpoints ops c) (run_from endpoints ops n (c + 1))

    unfoldable pub run : List Bytes → ℕ → ℕ → Latencies
    run endpoints clients ops = run_from endpoints ops clients 0
