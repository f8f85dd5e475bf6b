-- ===== src/Clerk/Tried.antt =====
-- clerk.rs: the attempts of one operation, one node after another, before the one that ends it.
use mathlib.Core.Path.{ap₂}
use native.Mathlib.Nat.{mod-add-mod, mod-eq_of_lt}
use murmur.Prelude.{
  ℕ, ◌+◌, ◌-◌, ◌%◌, ◌<◌, ◌≤◌, ◌≡◌, ap, sym, ◌∙◌, true, Option, none, some, List, length, arith,
}
use murmur.Raft.Types.{Bytes}
use murmur.Prelude.Result.{Result, ok, err}
use murmur.Raft.Config.{Instant}
use murmur.Service.Messages.{Status}
use murmur.Clerk.{Network, Clerk, retryable, rotate, attempt}

-- An attempt of `retry` that is to be followed by another: it met no node, or an error to be retried.
abbrev pub Mends : {T : Type 0} → Option (Result Status T) → Type 0
Mends none = Unit
Mends (some (ok v)) = ⊥
Mends (some (err status)) = retryable status ≡ true

-- The same for `connect`, which goes on after any error.
abbrev pub Unregistered : {T : Type 0} → Option (Result Status T) → Type 0
Unregistered none = Unit
Unregistered (some (ok v)) = ⊥
Unregistered (some (err status)) = Unit

module _ {Channel : Type 0} (net : Network Channel) {T : Type 0}
    (op : ℕ → Channel → Result Status T) (mends : Option (Result Status T) → Type 0)
    (deadline : Instant) where
  -- From the clerk at attempt k, every attempt before attempt n was to be followed by another, and
  -- ended before the deadline; then the clerk turned to the next node.
  pub data Tried : ℕ → Clerk Channel → ℕ → Clerk Channel → Type 0 where
    here : {k : ℕ} {c : Clerk Channel} → Tried k c k c
    again :
        {k n : ℕ} {c next d : Clerk Channel} {a : Option (Result Status T)}
        → attempt net op k c ≡ some (next, a)
        → mends a
        → net.clock k < deadline
        → Tried (k + 1) (rotate net next) n d
        → Tried k c n d

  -- The operation that began with the clerk at attempt k came to attempt n, for which the nodes took
  -- turns, and which had this answer and left this clerk.
  pub record CameTo (k : ℕ) (c : Clerk Channel) (n : ℕ) (left : Clerk Channel)
      (a : Option (Result Status T)) : Type 0 where
    pub asked : Clerk Channel
    pub tried : Tried k c n asked
    pub onwards : k ≤ n
    pub turn : asked.leader ≡ (c.leader + (n - k)) % length c.endpoints
    pub met : attempt net op n asked ≡ some (left, a)

  pub CameTo-here :
      {k : ℕ} {c left : Clerk Channel} {a : Option (Result Status T)}
      → c.leader < length c.endpoints
      → attempt net op k c ≡ some (left, a)
      → CameTo k c k left a
  CameTo-here {k} {c} leads e = record {
    asked = c;
    tried = here;
    onwards = omega arith;
    turn =
        let none_yet : c.leader + (k - k) ≡ c.leader = omega arith in
        sym (rw none_yet (mod-eq_of_lt leads));
    met = e;
  }

  pub CameTo-again :
      {k n : ℕ} {c next left : Clerk Channel} {a b : Option (Result Status T)}
      → attempt net op k c ≡ some (next, a)
      → mends a
      → net.clock k < deadline
      → next.leader ≡ c.leader
      → next.endpoints ≡ c.endpoints
      → CameTo (k + 1) (rotate net next) n left b
      → CameTo k c n left b
  unfolding rotate
  CameTo-again {k} {n} {c} {next} e m early same_leader same_nodes r =
      let up : k + 1 ≤ n = r.onwards in
      let count : c.leader + 1 + (n - (k + 1)) ≡ c.leader + (n - k) = omega (arith, up) in
      record {
        asked = r.asked;
        tried = again e m early r.tried;
        onwards = omega (arith, up);
        turn =
            r.turn
            ∙ mod-add-mod (next.leader + 1) (length next.endpoints) (n - (k + 1))
            ∙ ap₂ (λ l (es : List Bytes). (l + 1 + (n - (k + 1))) % length es) same_leader
                same_nodes
            ∙ ap (λ m. m % length c.endpoints) count;
        met = r.met;
      }
