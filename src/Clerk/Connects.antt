-- ===== src/Clerk/Connects.antt =====
-- clerk.rs: `connect` comes back within its budget.
use murmur.Prelude.{
  ℕ, zero, suc, ◌+◌, ◌*◌, ◌≤◌, ◌<◌, ◌≡◌, refl, ◌∙◌, Bool, true, false, Option, none, some, List, [],
  ◌∷◌, length, map, ltb, Bool-cases, inl, inr, arith,
}
use murmur.Prelude.Result.{Result, ok, err}
use murmur.Raft.Types.{Bytes}
use murmur.Raft.Config.{Instant}
use murmur.Service.Messages.{Status, RegisterResponse}
use murmur.Clerk.{
  Network, Clerk, Connection, connected, no_answer, no_endpoint, retry_budget, retry_pause, rotate,
  attempt, go_on, connect_loop, connect, settle_register,
}
use murmur.Clerk.Tried.{Unregistered, CameTo, CameTo-here, CameTo-again}
use murmur.Clerk.Attempts.{WellFormed, Paced, length-blank, attempt_lem, rotate-WellFormed}

-- The clerk before its first attempt.
abbrev pub fresh : {Channel : Type 0} → List Bytes → Clerk Channel
fresh endpoints = record {
  endpoints = endpoints;
  clients = map (λ e. none) endpoints;
  leader = 0;
  client_id = 0;
  seq = 0;
}

module _ {Channel : Type 0} (net : Network Channel) where
  module _ (deadline : Instant) where
    -- The connection that began with the clerk at attempt k came to attempt n.
    abbrev Arrived :
        ℕ → Clerk Channel → ℕ → Clerk Channel → Option (Result Status RegisterResponse) → Type 0
    Arrived k c n left a = CameTo net net.register Unregistered deadline k c n left a

    -- How a connection that was tried ends, and by which attempts: with the clerk of the attempt that
    -- a node answered, under the id that the node gave, or at an attempt that ended too late.
    abbrev pub Connects : ℕ → Clerk Channel → Clerk Channel → Connection → Type 0
    Connects k c c' connected =
        WellFormed c'
        × (c'.seq ≡ 0)
        × ((n : ℕ) × (left : Clerk Channel) × (resp : RegisterResponse) × Arrived k c n left
              (some (ok resp))
            × (c' ≡ record left { client_id = resp.client_id }))
    Connects k c c' no_answer =
        (n : ℕ) × (a : Option (Result Status RegisterResponse)) × Arrived k c n c' a
        × Unregistered a
        × (deadline ≤ net.clock n)
    Connects k c c' no_endpoint = ⊥

    abbrev Joined : ℕ → Clerk Channel → Option (Clerk Channel × Connection) → Type 0
    Joined k c o = (c' : Clerk Channel) × (r : Connection) × (o ≡ some (c', r)) × Connects k c c' r

    module _ (k : ℕ) (c next : Clerk Channel) (leads : c.leader < length c.endpoints)
        (w : WellFormed next) (z : next.seq ≡ 0) (l : next.leader ≡ c.leader)
        (nodes : next.endpoints ≡ c.endpoints) (in_time : Bool)
        (more : Clerk Channel → Option (Clerk Channel × Connection))
        (late : in_time ≡ false → deadline ≤ net.clock k)
        (early : in_time ≡ true → net.clock k < deadline)
        (rest : in_time ≡ true → Joined (k + 1) (rotate net next) (more (rotate net next))) where
      Connects-again :
          (a : Option (Result Status RegisterResponse)) (c' : Clerk Channel) (r : Connection)
          → Unregistered a
          → attempt net net.register k c ≡ some (next, a)
          → net.clock k < deadline
          → Connects (k + 1) (rotate net next) c' r
          → Connects k c c' r
      Connects-again a c' connected u e soon (w', z', (n, left, resp, came, named)) = (
        w',
        z',
        (
          n,
          left,
          resp,
          CameTo-again net net.register Unregistered deadline e u soon l nodes came,
          named,
        ),
      )
      Connects-again a c' no_answer u e soon (n, b, came, unanswered, over) = (
        n,
        b,
        CameTo-again net net.register Unregistered deadline e u soon l nodes came,
        unanswered,
        over,
      )
      Connects-again a c' no_endpoint u e soon never = never

      go_on_register :
          (a : Option (Result Status RegisterResponse))
          → Unregistered a
          → attempt net net.register k c ≡ some (next, a)
          → Joined k c (go_on net in_time next no_answer more)
      go_on_register a u e = elim (Bool-cases in_time) [
        | inl soon ↦
            let (c', r, ran, why) = rest soon in
            rw soon (c', r, ran, Connects-again a c' r u e (early soon) why)
        | inr over ↦ rw over (
          next,
          no_answer,
          refl,
          (k, a, CameTo-here net net.register Unregistered deadline leads e, u, late over),
        )
      ]

      settle_register_lem :
          (a : Option (Result Status RegisterResponse))
          → attempt net net.register k c ≡ some (next, a)
          → Joined k c (settle_register net in_time (some (next, a)) more)
      unfolding settle_register
      settle_register_lem none e = go_on_register none tt e
      settle_register_lem (some (ok resp)) e = (
        _,
        connected,
        refl,
        (
          record { leads = w.leads; sized = w.sized },
          z,
          (k, next, resp, CameTo-here net net.register Unregistered deadline leads e, refl),
        ),
      )
      settle_register_lem (some (err status)) e = go_on_register (some (err status)) tt e

    connect_loop_lem :
        (fuel k : ℕ) (c : Clerk Channel)
        → WellFormed c
        → c.seq ≡ 0
        → ((j : ℕ) → net.clock j + retry_pause ≤ net.clock (j + 1))
        → deadline ≤ net.clock k + fuel * retry_pause
        → Joined k c (connect_loop net (suc fuel) k deadline c)
    unfolding connect_loop rotate
    connect_loop_lem zero k c w z paced enough =
        let (next, a, e, w', s, l) = attempt_lem net net.register k c w in
        let close =
          settle_register_lem k c next w.leads w' (s.seq ∙ z) l s.endpoints
            (ltb (net.clock k) deadline) _ (λ late. omega (arith, enough))
            (λ soon. ground (arith, soon)) (λ soon. absurd (ground (arith, soon, enough))) a e in
        rw e close
    connect_loop_lem (suc fuel) k c w z paced enough =
        let (next, a, e, w', s, l) = attempt_lem net net.register k c w in
        let rest =
          connect_loop_lem fuel (k + 1) (rotate net next) (rotate-WellFormed net next w')
            (s.seq ∙ z) paced (omega (arith, enough, paced k)) in
        let close =
          settle_register_lem k c next w.leads w' (s.seq ∙ z) l s.endpoints
            (ltb (net.clock k) deadline) _ (λ late. ground (arith, late))
            (λ soon. ground (arith, soon)) (λ soon. rest) a e in
        rw e close

  -- While the clock goes on and each attempt ends at least a pause after the one before: a connection
  -- to at least one endpoint needs no more than 201 attempts. They take the endpoints in turn, beginning
  -- with the first. Each but the last one was not answered, and ended before the deadline. It ends with
  -- the clerk of an attempt that was answered, well formed, under the id that the node gave, which has
  -- numbered no request yet, or with an attempt that was not answered and ended at the deadline or
  -- later.
  pub connect_returns :
      (endpoints : List Bytes) (now : Instant)
      → 0 < length endpoints
      → Paced net now
      → (c' : Clerk Channel) × (r : Connection) × (connect net endpoints 201 now ≡ some (c', r))
        × Connects (now + retry_budget) 0 (fresh endpoints) c' r
  unfolding connect
  connect_returns [] now some_node (begun, paced) = absurd (omega (arith, some_node))
  connect_returns (e ∷ es) now some_node (begun, paced) =
      connect_loop_lem (now + retry_budget) 200 0 (fresh (e ∷ es))
        (record { leads = omega arith; sized = length-blank Channel (e ∷ es) }) refl paced
        (omega (arith, begun))
