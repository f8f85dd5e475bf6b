-- ===== src/Bin/Client/Answers.antt =====
-- bin/murmur.rs: every command line ends the program, and what it prints was answered by a node.
use mathlib.Core.Path.{subst}
use murmur.Prelude.{
  ℕ, suc, ◌+◌, ◌≤◌, ◌<◌, ◌≡◌, ◌⊎◌, inl, inr, refl, sym, ap, true, false, Option, none, some, List,
  [], ◌∷◌, length, map, u64,
}
use murmur.Prelude.Result.{Result, ok, err}
use murmur.Raft.Types.{Bytes}
use murmur.Raft.Config.{Instant}
use murmur.Service.Messages.{Status, AppendResponse}
use murmur.Clerk
use murmur.Clerk.{
  Network, Clerk, Reply, Connection, retry, retry_budget, retryable, map_ok, found_value,
}
use murmur.Clerk.Attempts.{WellFormed, Paced}
use murmur.Clerk.Returns.{EndsWith, retry_returns}
use murmur.Clerk.Connects.{Connects, fresh, connect_returns}
use murmur.Clerk.Tried.{Mends, CameTo}
use murmur.Bin.Text.{codes, split, trim}
use murmur.Bin.Text.Parts.{split_some}
use murmur.Bin.Client.{
  Request, get, put, append, del, bad, request_of, Exit, usage, no_node, timed_out, failed, printed,
  value_or_absent, endpoints_of, parsed, parse_args, shown, run, connected_run, execute, main,
  default_peers,
}

module _ {Channel : Type 0} (net : Network Channel) (now : Instant) where
  -- What the program shows after attempt n, the last, with this answer: the value that it carries, the
  -- error that is not to be retried, or the end of the budget.
  abbrev pub Tells : {T : Type 0} → (T → Exit) → ℕ → Option (Result Status T) → Exit → Type 0
  Tells show n none e = (e ≡ timed_out) × (now + retry_budget ≤ net.clock n)
  Tells show n (some (ok v)) e = e ≡ show v
  Tells show n (some (err status)) e =
      ((e ≡ failed status) × (retryable status ≡ false))
      ⊎ ((e ≡ timed_out) × (retryable status ≡ true) × (now + retry_budget ≤ net.clock n))

  -- The attempts that the clerk makes of an operation, and what the program shows after them.
  abbrev pub Shows :
      {T : Type 0} → (ℕ → Channel → Result Status T) → (T → Exit) → Clerk Channel → Exit → Type 0
  Shows {T = T} op show c e =
      (n : ℕ) × (a : Option (Result Status T)) × (left : Clerk Channel) × CameTo net op Mends
        (now + retry_budget) 0 c n left a
      × Tells show n a e

  -- The first request of the clerk has number 1.
  abbrev pub Says : Clerk Channel → Request → Exit → Type 0
  Says c (get key) e =
      Shows (λ k channel. map_ok found_value (net.get k channel (record { key = key })))
        value_or_absent (record c { seq = 1 }) e
  Says c (put key value) e =
      Shows
        (λ k channel.
          net.put k channel (record { key = key; value = value; client_id = c.client_id; seq = 1 }))
        (λ done. printed (codes "OK")) (record c { seq = 1 }) e
  Says c (append key value) e =
      Shows
        (λ k channel.
          map_ok (λ (r : AppendResponse). r.value)
            (net.append k channel
              (record { key = key; value = value; client_id = c.client_id; seq = 1 })))
        (λ v. printed v) (record c { seq = 1 }) e
  Says c (del key) e =
      Shows
        (λ k channel. net.delete k channel (record { key = key; client_id = c.client_id; seq = 1 }))
        (λ done. printed (codes "OK")) (record c { seq = 1 }) e
  Says c bad e = e ≡ usage

  exit_of : {T : Type 0} → (T → Exit) → Reply T → Exit
  exit_of show (Clerk.returned v) = show v
  exit_of show (Clerk.failed status) = failed status
  exit_of show Clerk.timed_out = timed_out

  Tells-exit_of :
      {T : Type 0} (op : ℕ → Channel → Result Status T) (show : T → Exit) (n : ℕ)
      (a : Option (Result Status T)) (r : Reply T)
      → EndsWith net op (now + retry_budget) n a r
      → Tells show n a (exit_of show r)
  unfolding exit_of
  Tells-exit_of op show n a (Clerk.returned v) why =
      subst (λ b. Tells show n b (show v)) (sym why) refl
  Tells-exit_of op show n a (Clerk.failed status) (at, final) =
      subst (λ b. Tells show n b (failed status)) (sym at) (inl (refl, final))
  Tells-exit_of op show n none Clerk.timed_out (m, late) = (refl, late)
  Tells-exit_of op show n (some (ok v)) Clerk.timed_out (m, late) = absurd m
  Tells-exit_of op show n (some (err status)) Clerk.timed_out (m, late) = inr (refl, m, late)

  shown-some :
      {T : Type 0} (show : T → Exit) (c : Clerk Channel) (r : Reply T)
      → shown show (some (c, r)) ≡ some (exit_of show r)
  unfolding shown exit_of
  shown-some show c (Clerk.returned v) = refl
  shown-some show c (Clerk.failed status) = refl
  shown-some show c Clerk.timed_out = refl

  module _ (c : Clerk Channel) (w : WellFormed c) (unused : c.seq ≡ 0) (paced : Paced net now) where
    shown_lem :
        {T : Type 0} (op : ℕ → Channel → ℕ → ℕ → Result Status T) (show : T → Exit)
        → (e : Exit) × (shown show (retry net op 201 now c) ≡ some e)
          × Shows (λ k channel. op k channel c.client_id 1) show (record c { seq = 1 }) e
    shown_lem op show =
        let (c', r, ran, _, _, _, (n, a, came, why)) = retry_returns net op now c w paced in
        let number : u64 (c.seq + 1) ≡ 1 = rw unused refl in
        (
          exit_of show r,
          rw ran (shown-some show c' r),
          subst
              (λ q.
                Shows (λ k channel. op k channel c.client_id q) show (record c { seq = q })
                  (exit_of show r))
              number
              (
                n,
                a,
                c',
                came,
                Tells-exit_of (λ k channel. op k channel c.client_id (u64 (c.seq + 1))) show n a r
                    why,
              ),
        )

    run_lem : (r : Request) → (e : Exit) × (run net 201 now c r ≡ some e) × Says c r e
    unfolding run Clerk.get Clerk.put Clerk.append Clerk.delete
    run_lem (get key) =
        shown_lem
          (λ k channel id seq. map_ok found_value (net.get k channel (record { key = key })))
          value_or_absent
    run_lem (put key value) =
        shown_lem
          (λ k channel id seq.
            net.put k channel (record { key = key; value = value; client_id = id; seq = seq }))
          (λ done. printed (codes "OK"))
    run_lem (append key value) =
        shown_lem
          (λ k channel id seq.
            map_ok (λ (r : AppendResponse). r.value)
              (net.append k channel
                (record { key = key; value = value; client_id = id; seq = seq })))
          (λ v. printed v)
    run_lem (del key) =
        shown_lem
          (λ k channel id seq.
            net.delete k channel (record { key = key; client_id = id; seq = seq }))
          (λ done. printed (codes "OK"))
    run_lem bad = (usage, refl, refl)

length-map : {A B : Type 0} (f : A → B) (xs : List A) → length (map f xs) ≡ length xs
length-map f [] = refl
length-map f (x ∷ xs) = ap suc (length-map f xs)

some_endpoint : (peers : Bytes) → 0 < length (endpoints_of peers)
unfolding endpoints_of
some_endpoint peers = rw (length-map trim (split peers b',')) (split_some peers b',')

module _ {Channel : Type 0} (first net : Network Channel) (endpoints : List Bytes)
    (now later : Instant) where
  -- How a command line that names a command ends the program: without a node, after the attempts to
  -- connect, or with what the connected clerk makes of the request.
  abbrev pub Ended : Request → Exit → Type 0
  Ended r e =
      ((e ≡ no_node)
        × ((c : Clerk Channel) × Connects first (now + retry_budget) 0 (fresh endpoints) c
              Clerk.no_answer))
      ⊎ ((c : Clerk Channel) × Connects first (now + retry_budget) 0 (fresh endpoints) c
            Clerk.connected
          × Says net later c r e)

  connected_run_lem :
      (r : Request) (c : Clerk Channel) (how : Connection)
      → Connects first (now + retry_budget) 0 (fresh endpoints) c how
      → Paced net later
      → (e : Exit) × (connected_run first net 201 now later r (some (c, how)) ≡ some e) × Ended r e
  unfolding connected_run
  connected_run_lem r c Clerk.connected (w, unused, came) paced =
      let (e, ran, why) = run_lem net later c w unused paced r in
      (e, ran, inr (c, (w, unused, came), why))
  connected_run_lem r c Clerk.no_answer late paced = (no_node, refl, inl (refl, (c, late)))
  connected_run_lem r c Clerk.no_endpoint never paced = absurd never

module _ {Channel : Type 0} (first net : Network Channel) (now later : Instant) where
  -- While the clocks go on and each attempt ends at least a pause after the one before: a command line
  -- with a command ends the program after at most 201 attempts to connect and 201 of the operation, and
  -- it never panics. It ends without a node only if no attempt to connect to the endpoints that it names
  -- was answered, the last ending when the budget was spent. Otherwise the connected clerk sends the
  -- request with number 1 under the id that it was given, to one node after another. The program shows
  -- the answer of the last attempt or its error, which is not to be retried, or that the time is over
  -- when that attempt met no node or an error to be retried and ended when the budget was spent, or
  -- the usage if the command with its operands is none.
  pub main_lem :
      (args : List Bytes) (peers command : Bytes) (operands : List Bytes)
      → parse_args default_peers args ≡ parsed peers (command ∷ operands)
      → Paced first now
      → Paced net later
      → (e : Exit) × (main first net 201 now later args ≡ some e)
        × Ended first net (endpoints_of peers) now later (request_of command operands) e
  unfolding main execute
  main_lem args peers command operands read paced paced' =
      let (c, how, joined, connects) =
        connect_returns first (endpoints_of peers) now (some_endpoint peers) paced in
      let (e, ran, why) =
        connected_run_lem first net (endpoints_of peers) now later (request_of command operands) c
          how connects paced' in
      (e, rw (main, read, execute, joined) ran, why)
