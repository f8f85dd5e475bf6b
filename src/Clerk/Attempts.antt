-- ===== src/Clerk/Attempts.antt =====
-- clerk.rs: one attempt of an operation, and what it leaves of the clerk.
use native.Mathlib.Nat.{mod-lt}
use murmur.Prelude.{
  ℕ, zero, suc, ◌+◌, ◌≤◌, ◌<◌, ◌≡◌, refl, ap, ◌∙◌, Option, none, some, List, [], ◌∷◌, length, map,
  get_elem?-lt, Option-cases, inl, inr, arith,
}
use murmur.Prelude.Result.{Result}
use murmur.Raft.Config.{Instant}
use murmur.Service.Messages.{Status}
use murmur.Clerk.{
  Network, Clerk, retry_pause, set_at, reconnect, cached_or_connect, current, rotate, ask, attempt,
}

-- The leader is one of the nodes, and every node has a place for its client.
pub record WellFormed {Channel : Type 0} (c : Clerk Channel) : Type 0 where
  pub leads : c.leader < length c.endpoints
  pub sized : length c.clients ≡ length c.endpoints

-- What no attempt changes.
pub record Kept {Channel : Type 0} (c c' : Clerk Channel) : Type 0 where
  pub endpoints : c'.endpoints ≡ c.endpoints
  pub client_id : c'.client_id ≡ c.client_id
  pub seq : c'.seq ≡ c.seq

length-set_at : {A : Type 0} (xs : List A) (i : ℕ) (a : A) → length (set_at xs i a) ≡ length xs
unfolding set_at
length-set_at [] i a = refl
length-set_at (x ∷ xs) zero a = refl
length-set_at (x ∷ xs) (suc i) a = ap suc (length-set_at xs i a)

-- A fresh clerk has a place for the client of every node.
pub length-blank :
    {A : Type 0} (B : Type 0) (xs : List A) → length (map {B = Option B} (λ x. none) xs) ≡ length xs
length-blank B [] = refl
length-blank B (x ∷ xs) = ap suc (length-blank B xs)

-- The pauses between the attempts take their time, and the clock goes on.
abbrev pub Paced : {Channel : Type 0} → Network Channel → Instant → Type 0
Paced net now = (now ≤ net.clock 0) × ((k : ℕ) → net.clock k + retry_pause ≤ net.clock (k + 1))

module _ {Channel : Type 0} (net : Network Channel) where
  reconnect_lem :
      (c : Clerk Channel) (found : Option Channel)
      → WellFormed c
      → (c' : Clerk Channel) × (a : Option Channel) × (reconnect net c (some found) ≡ some (c', a))
        × WellFormed c'
        × Kept c c'
        × (c'.leader ≡ c.leader)
  unfolding reconnect
  reconnect_lem c none w =
      (c, none, refl, w, record { endpoints = refl; client_id = refl; seq = refl }, refl)
  reconnect_lem c (some client) w = (
    record c { clients = set_at c.clients c.leader (some client) },
    some client,
    refl,
    record { leads = w.leads; sized = length-set_at c.clients c.leader (some client) ∙ w.sized },
    record { endpoints = refl; client_id = refl; seq = refl },
    refl,
  )

  current_lem :
      (k : ℕ) (c : Clerk Channel)
      → WellFormed c
      → (c' : Clerk Channel) × (a : Option Channel) × (current net k c ≡ some (c', a))
        × WellFormed c'
        × Kept c c'
        × (c'.leader ≡ c.leader)
  unfolding current cached_or_connect
  current_lem k c w =
      let (cached, at) = get_elem?-lt c.clients c.leader (omega (arith, w.leads, w.sized)) in
      let (addr, there) = get_elem?-lt c.endpoints c.leader w.leads in
      elim (Option-cases cached) [
        | inl missing ↦
            let (c', a, e, w', s, l) = reconnect_lem c (net.connect k addr) w in
            (c', a, rw (at, missing, there) e, w', s, l)
        | inr (client, present) ↦ (
          c,
          some client,
          rw (at, present) refl,
          w,
          record { endpoints = refl; client_id = refl; seq = refl },
          refl,
        )
      ]

  module _ {T : Type 0} (op : ℕ → Channel → Result Status T) where
    pub attempt_lem :
        (k : ℕ) (c : Clerk Channel)
        → WellFormed c
        → (c' : Clerk Channel) × (a : Option (Result Status T)) × (attempt net op k c
            ≡ some (c', a))
          × WellFormed c'
          × Kept c c'
          × (c'.leader ≡ c.leader)
    unfolding attempt ask
    attempt_lem k c w =
        let (c', found, e, w', s, l) = current_lem k c w in
        elim (Option-cases found) [
          | inl missing ↦ (c', none, rw (e, missing) refl, w', s, l)
          | inr (client, present) ↦ (c', some (op k client), rw (e, present) refl, w', s, l)
        ]

  Kept-refl : (c : Clerk Channel) → Kept c c
  Kept-refl c = record { endpoints = refl; client_id = refl; seq = refl }

  pub rotate-WellFormed : (c : Clerk Channel) → WellFormed c → WellFormed (rotate net c)
  unfolding rotate
  rotate-WellFormed c w = record {
    leads = mod-lt (c.leader + 1) (omega (arith, w.leads));
    sized = w.sized;
  }

  pub Kept-trans : (a b c : Clerk Channel) → Kept a b → Kept b c → Kept a c
  Kept-trans a b c p q = record {
    endpoints = q.endpoints ∙ p.endpoints;
    client_id = q.client_id ∙ p.client_id;
    seq = q.seq ∙ p.seq;
  }
