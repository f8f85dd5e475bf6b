-- ===== src/Bin/Bench/Run/Phases.antt =====
-- bin/murmur-bench.rs: a phase comes to its end, with a latency for each operation.
use murmur.Prelude.{
  ℕ, zero, suc, ◌+◌, ◌*◌, ◌<◌, ◌≡◌, refl, sym, ap, ◌∙◌, Option, none, some, List, length,
  length-append, arith,
}
use murmur.Prelude.Result.{Result, ok, err, ok-injective, err-ne-ok}
use murmur.Raft.Types.{Bytes}
use murmur.Raft.Config.{Duration, Instant}
use murmur.Service.Messages.{Status}
use murmur.Clerk
use murmur.Clerk.{Network, Clerk, Reply, Connection, retry, retry_budget}
use murmur.Clerk.Attempts.{WellFormed, Paced}
use murmur.Clerk.Returns.{retry_returns}
use murmur.Clerk.Connects.{Connects, fresh, connect_returns}
use murmur.Bin.Bench.Run.{
  Workload, put, get, Failure, World, key_of, checked, issue, Latencies, cons_latency, after_op,
  run_ops, connected_task, run_client, join_latencies, run_from, run,
}

-- The latencies of `n` operations, or why there are none.
abbrev Ends : ℕ → Latencies → Type 0
Ends n none = ⊥
Ends n (some (ok ds)) = length ds ≡ n
Ends n (some (err e)) = Unit

cons_latency-Ends :
    (n : ℕ) (d : Duration) (l : Latencies) → Ends n l → Ends (suc n) (cons_latency d l)
unfolding cons_latency
cons_latency-Ends n d none h = h
cons_latency-Ends n d (some (ok ds)) h = ap suc h
cons_latency-Ends n d (some (err e)) h = tt

join_latencies-Ends :
    (n m : ℕ) (l r : Latencies) → Ends n l → Ends m r → Ends (n + m) (join_latencies l r)
unfolding join_latencies
join_latencies-Ends n m none r h k = h
join_latencies-Ends n m (some (err e)) r h k = tt
join_latencies-Ends n m (some (ok ds)) none h k = k
join_latencies-Ends n m (some (ok ds)) (some (err e)) h k = tt
join_latencies-Ends n m (some (ok ds)) (some (ok rest)) h k =
    omega (arith, length-append ds rest, h, k)

Ends-result :
    (n : ℕ) (l : Latencies)
    → Ends n l
    → (r : Result Failure (List Duration)) × (l ≡ some r)
      × ((ds : List Duration) → r ≡ ok ds → length ds ≡ n)
Ends-result n none h = absurd h
Ends-result n (some (ok ds)) h = (ok ds, refl, λ ds' e. sym (ap length (ok-injective e)) ∙ h)
Ends-result n (some (err e)) h = (err e, refl, λ ds' same. absurd (err-ne-ok same))

module _ {Channel : Type 0} where
  -- A clerk that is well formed comes back as one.
  abbrev Comes : Option (Clerk Channel × Result Failure (Unit {0})) → Type 0
  Comes none = ⊥
  Comes (some (c, r)) = WellFormed c

  checked-Comes :
      {T : Type 0} (c : Clerk Channel) (r : Reply T) → WellFormed c → Comes (checked (some (c, r)))
  unfolding checked
  checked-Comes c (Clerk.returned v) w = w
  checked-Comes c (Clerk.failed status) w = w
  checked-Comes c Clerk.timed_out w = w

  retry-Comes :
      {T : Type 0} (net : Network Channel) (op : ℕ → Channel → ℕ → ℕ → Result Status T)
      (now : Instant) (c : Clerk Channel)
      → WellFormed c
      → Paced net now
      → Comes (checked (retry net op 201 now c))
  retry-Comes net op now c w paced =
      let (c', r, ran, w', _, _, _) = retry_returns net op now c w paced in
      rw ran (checked-Comes c' r w')

  issue-Comes :
      (workload : Workload) (net : Network Channel) (key : Bytes) (now : Instant)
      (c : Clerk Channel)
      → WellFormed c
      → Paced net now
      → Comes (issue workload net key 201 now c)
  unfolding issue Clerk.put Clerk.get
  issue-Comes (put value) net key now c w paced = retry-Comes net _ now c w paced
  issue-Comes get net key now c w paced = retry-Comes net _ now c w paced

  after_op-Ends :
      (n : ℕ) (d : Duration) (o : Option (Clerk Channel × Result Failure (Unit {0})))
      (more : Clerk Channel → Latencies)
      → Comes o
      → ((c : Clerk Channel) → WellFormed c → Ends n (more c))
      → Ends (suc n) (after_op d o more)
  unfolding after_op
  after_op-Ends n d none more h rest = h
  after_op-Ends n d (some (c, err e)) more h rest = tt
  after_op-Ends n d (some (c, ok done)) more h rest = cons_latency-Ends n d (more c) (rest c h)

  module _ (world : World Channel) (workload : Workload)
      (paced_start : (c : ℕ) → Paced (world.first c) (world.start c))
      (paced : (c i : ℕ) → Paced (world.net c i) (world.op_start c i)) where
    run_ops-Ends :
        (c n i : ℕ) (clerk : Clerk Channel)
        → WellFormed clerk
        → Ends n (run_ops world 201 workload c n i clerk)
    unfolding run_ops
    run_ops-Ends c zero i clerk w = refl
    run_ops-Ends c (suc n) i clerk w =
        after_op-Ends n (world.elapsed c i) _ _
          (issue-Comes workload (world.net c i) (key_of c i) (world.op_start c i) clerk w
            (paced c i))
          (λ clerk' w'. run_ops-Ends c n (i + 1) clerk' w')

    connected_task-Ends :
        (c n : ℕ) (deadline : Instant) (begun clerk : Clerk Channel) (how : Connection)
        → Connects (world.first c) deadline 0 begun clerk how
        → Ends n (connected_task world 201 workload c n (some (clerk, how)))
    unfolding connected_task
    connected_task-Ends c n deadline begun clerk Clerk.connected (w, none_yet, _) =
        run_ops-Ends c n 0 clerk w
    connected_task-Ends c n deadline begun clerk Clerk.no_answer late = tt
    connected_task-Ends c n deadline begun clerk Clerk.no_endpoint never = tt

    run_client-Ends :
        (endpoints : List Bytes) (n c : ℕ)
        → 0 < length endpoints
        → Ends n (run_client world 201 workload endpoints n c)
    unfolding run_client
    run_client-Ends endpoints n c some_node =
        let (clerk, how, joined, connects) =
          connect_returns (world.first c) endpoints (world.start c) some_node (paced_start c) in
        rw joined (
          connected_task-Ends c n (world.start c + retry_budget) (fresh endpoints) clerk how
            connects)

    run_from-Ends :
        (endpoints : List Bytes) (ops n c : ℕ)
        → 0 < length endpoints
        → Ends (n * ops) (run_from world 201 workload endpoints ops n c)
    unfolding run_from
    run_from-Ends endpoints ops zero c some_node = omega arith
    run_from-Ends endpoints ops (suc n) c some_node =
        let e : suc n * ops ≡ ops + n * ops = omega arith in
        rw e (
          join_latencies-Ends ops (n * ops) _ _ (run_client-Ends endpoints ops c some_node)
            (run_from-Ends endpoints ops n (c + 1) some_node))

    -- While every clock goes on and each attempt ends at least a pause after the one before: a phase
    -- against at least one endpoint comes to its end with 201 attempts for each connection and each
    -- operation, and without an error it gives one latency for each operation of each client.
    pub run-Ends :
        (endpoints : List Bytes) (clients ops : ℕ)
        → 0 < length endpoints
        → (r : Result Failure (List Duration)) × (run world 201 workload endpoints clients ops
            ≡ some r)
          × ((ds : List Duration) → r ≡ ok ds → length ds ≡ clients * ops)
    unfolding run
    run-Ends endpoints clients ops some_node =
        Ends-result (clients * ops) _ (run_from-Ends endpoints ops clients 0 some_node)
