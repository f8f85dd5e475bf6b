-- ===== src/Clerk/Returns.antt =====
-- clerk.rs: every operation of the clerk comes back within its budget.
use murmur.Prelude.{
  ℕ, zero, suc, ◌+◌, ◌*◌, ◌≤◌, ◌<◌, ◌≡◌, refl, Bool, true, false, Option, none, some, length, ltb,
  u64, Bool-cases, inl, inr, arith,
}
use murmur.Prelude.Result.{Result, ok, err}
use murmur.Raft.Config.{Instant}
use murmur.Service.Messages.{Status}
use murmur.Clerk.{
  Network, Clerk, Reply, returned, failed, timed_out, retry_budget, retry_pause, retryable, rotate,
  attempt, go_on, settle, retry_loop, retry,
}
use murmur.Clerk.Tried.{Mends, CameTo, CameTo-here, CameTo-again}
use murmur.Clerk.Attempts.{WellFormed, Kept, Paced, attempt_lem, Kept-trans, rotate-WellFormed}

module _ {Channel : Type 0} (net : Network Channel) where
  module _ {T : Type 0} (op : ℕ → Channel → Result Status T) (deadline : Instant) where
    -- Why attempt n, with this answer, is the last, and ends with this reply.
    abbrev pub EndsWith : ℕ → Option (Result Status T) → Reply T → Type 0
    EndsWith n a (returned v) = a ≡ some (ok v)
    EndsWith n a (failed status) = (a ≡ some (err status)) × (retryable status ≡ false)
    EndsWith n a timed_out = Mends a × (deadline ≤ net.clock n)

    -- The attempts that led from the clerk to the reply.
    abbrev pub Justified : ℕ → Clerk Channel → Clerk Channel → Reply T → Type 0
    Justified k c c' r =
        (n : ℕ) × (a : Option (Result Status T)) × CameTo net op Mends deadline k c n c' a
        × EndsWith n a r

    abbrev Ended : ℕ → Clerk Channel → Option (Clerk Channel × Reply T) → Type 0
    Ended k c o =
        (c' : Clerk Channel) × (r : Reply T) × (o ≡ some (c', r))
        × WellFormed c'
        × Kept c c'
        × Justified k c c' r

    module _ (k : ℕ) (c next : Clerk Channel) (leads : c.leader < length c.endpoints)
        (w : WellFormed next) (s : Kept c next) (l : next.leader ≡ c.leader) (in_time : Bool)
        (more : Clerk Channel → Option (Clerk Channel × Reply T))
        (late : in_time ≡ false → deadline ≤ net.clock k)
        (early : in_time ≡ true → net.clock k < deadline)
        (rest : in_time ≡ true → Ended (k + 1) (rotate net next) (more (rotate net next))) where
      turned : (c' : Clerk Channel) → Kept (rotate net next) c' → Kept c c'
      unfolding rotate
      turned c' s' =
          Kept-trans net c next c' s
            (record { endpoints = s'.endpoints; client_id = s'.client_id; seq = s'.seq })

      go_on_lem :
          (a : Option (Result Status T))
          → Mends a
          → attempt net op k c ≡ some (next, a)
          → Ended k c (go_on net in_time next timed_out more)
      go_on_lem a m e = elim (Bool-cases in_time) [
        | inl soon ↦
            let (c', r, ran, w', s', (n, b, came, why)) = rest soon in
            rw soon (
              c',
              r,
              ran,
              w',
              turned c' s',
              (n, b, CameTo-again net op Mends deadline e m (early soon) l s.endpoints came, why),
            )
        | inr over ↦ rw over (
          next,
          timed_out,
          refl,
          w,
          s,
          (k, a, CameTo-here net op Mends deadline leads e, (m, late over)),
        )
      ]

      settle_lem :
          (a : Option (Result Status T))
          → attempt net op k c ≡ some (next, a)
          → Ended k c (settle net in_time (some (next, a)) more)
      unfolding settle
      settle_lem none e = go_on_lem none tt e
      settle_lem (some (ok v)) e = (
        next,
        returned v,
        refl,
        w,
        s,
        (k, some (ok v), CameTo-here net op Mends deadline leads e, refl),
      )
      settle_lem (some (err status)) e = elim (Bool-cases (retryable status)) [
        | inl mends ↦ rw (settle, mends) (go_on_lem (some (err status)) mends e)
        | inr final ↦
            rw (settle, final)
              (
                next,
                failed status,
                refl,
                w,
                s,
                (k, some (err status), CameTo-here net op Mends deadline leads e, (refl, final)),
              )
      ]

    retry_loop_lem :
        (fuel k : ℕ) (c : Clerk Channel)
        → WellFormed c
        → ((j : ℕ) → net.clock j + retry_pause ≤ net.clock (j + 1))
        → deadline ≤ net.clock k + fuel * retry_pause
        → Ended k c (retry_loop net op (suc fuel) k deadline c)
    unfolding retry_loop
    retry_loop_lem zero k c w paced enough =
        let (next, a, e, w', s, l) = attempt_lem net op k c w in
        let close =
          settle_lem k c next w.leads w' s l (ltb (net.clock k) deadline) _
            (λ late. omega (arith, enough)) (λ soon. ground (arith, soon))
            (λ soon. absurd (ground (arith, soon, enough))) a e in
        rw e close
    retry_loop_lem (suc fuel) k c w paced enough =
        let (next, a, e, w', s, l) = attempt_lem net op k c w in
        let rest =
          retry_loop_lem fuel (k + 1) (rotate net next) (rotate-WellFormed net next w') paced
            (omega (arith, enough, paced k)) in
        let close =
          settle_lem k c next w.leads w' s l (ltb (net.clock k) deadline) _
            (λ late. ground (arith, late)) (λ soon. ground (arith, soon)) (λ soon. rest) a e in
        rw e close

  -- Of a clerk that has a node to lead and a place for every client, while the clock goes on and each
  -- attempt ends at least a pause after the one before: whatever the nodes answer, no operation needs
  -- more than 201 attempts. It takes the next sequence number, keeps the client id, and leaves the
  -- clerk as well formed. The attempts take the nodes in turn, beginning with the leader. Each but the
  -- last one met no node or an error to be retried, and ended before the deadline. The last one explains
  -- the reply: a value is its answer, an error is its answer and not to be retried, and if the time is
  -- over it met no node or an error to be retried, and ended at the deadline or later.
  pub retry_returns :
      {T : Type 0} (op : ℕ → Channel → ℕ → ℕ → Result Status T) (now : Instant) (c : Clerk Channel)
      → WellFormed c
      → Paced net now
      → (c' : Clerk Channel) × (r : Reply T) × (retry net op 201 now c ≡ some (c', r))
        × WellFormed c'
        × (c'.client_id ≡ c.client_id)
        × (c'.seq ≡ u64 (c.seq + 1))
        × Justified
            (λ k channel. op k channel c.client_id (u64 (c.seq + 1)))
            (now + retry_budget)
            0
            (record c { seq = u64 (c.seq + 1) })
            c'
            r
  unfolding retry
  retry_returns op now c w (begun, paced) =
      let seq = u64 (c.seq + 1) in
      let started : WellFormed (record c { seq = seq }) = record {
        leads = w.leads;
        sized = w.sized;
      } in
      let (c', r, e, w', s, j) =
        retry_loop_lem (λ k client. op k client c.client_id seq) (now + retry_budget) 200 0
          (record c { seq = seq }) started paced (omega (arith, begun)) in
      (c', r, e, w', s.client_id, s.seq, j)
