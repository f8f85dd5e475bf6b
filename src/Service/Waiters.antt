-- ===== src/Service/Waiters.antt =====
-- app.rs: the nonces of proposals, and who is woken when a command is applied.
mod Runs
use murmur.Prelude.{
  ℕ, ◌+◌, ◌*◌, ◌%◌, ◌^◌, ◌<◌, ◌≡◌, refl, ap, Option, none, some, Bool, true, not, ◌&&◌, List, [],
  ◌∷◌, ◌==◌, if◌then◌else◌, u64, Bool-cases, inl, inr, arith,
}
use murmur.Prelude.Maps.{member}
use murmur.Raft.Types.{NodeId, Bytes}
use murmur.Service.Op
use murmur.Service.Op.{Op, try_from}
use murmur.Service.Command.{Command}
use murmur.Service.Store.{Engine}
use murmur.Service.State.{AppState, Outcome, run, apply_committed, apply, remove_waiter}

-- `nonce` is the counter: the result is the nonce and the counter behind it. The two operands of `|`
-- share no bit, and `<<` drops what leaves the `u64`.
unfoldable pub next_nonce : NodeId → ℕ → ℕ × ℕ
next_nonce node_id counter = (node_id * 2 ^ 48 % 2 ^ 64 + counter % 2 ^ 48, u64 (counter + 1))

-- Of nodes whose ids fit in 16 bits: equal nonces come from one node, and from counters that agree
-- in their low 48 bits.
pub next_nonce_unique :
    (m n i j : ℕ)
    → m < 2 ^ 16
    → n < 2 ^ 16
    → (next_nonce m i).0 ≡ (next_nonce n j).0
    → (m ≡ n) × (i % 2 ^ 48 ≡ j % 2 ^ 48)
unfolding next_nonce
next_nonce_unique m n i j hm hn e = omega arith

pub member-remove_waiter :
    (nonce n : ℕ) (ns : List ℕ)
    → member n (remove_waiter nonce ns) ≡ (not (n == nonce) && member n ns)
unfolding remove_waiter member
member-remove_waiter nonce n [] = ground arith
member-remove_waiter nonce n (x ∷ ns) = ground (arith, member-remove_waiter nonce n ns)

module _ {Db : Type 0} (sable : Engine Db) (unknown_op : ℕ → Bytes) where
  waiters-run :
      (op : Option Op) (s : AppState Db) (c : Command)
      → ((run sable unknown_op op s c).0.waiters ≡ s.waiters)
        × ((run sable unknown_op op s c).0.sent ≡ s.sent)
  unfolding run
  waiters-run none s c = (refl, refl)
  waiters-run (some Op.get) s c = ground arith
  waiters-run (some Op.put) s c = ground arith
  waiters-run (some Op.delete) s c = ground arith
  waiters-run (some Op.append) s c = ground arith

  waiters-apply_committed :
      (s : AppState Db) (c : Command)
      → ((apply_committed sable unknown_op s c).0.waiters ≡ s.waiters)
        × ((apply_committed sable unknown_op s c).0.sent ≡ s.sent)
  unfolding apply_committed
  waiters-apply_committed s c = ground (arith, waiters-run (try_from c.op) s c)

  -- Applying a command wakes the caller that waits for its nonce, with the outcome of the command,
  -- and nobody else; that caller waits no more, and every other caller waits on.
  pub apply_lem :
      (s : AppState Db) (c : Command) (n : ℕ)
      → ((apply sable unknown_op s c).sent ≡ (
          if member c.nonce s.waiters
          then (c.nonce, (apply_committed sable unknown_op s c).1) ∷ s.sent
          else s.sent))
        × (member n (apply sable unknown_op s c).waiters
            ≡ (not (n == c.nonce) && member n s.waiters))
  unfolding apply
  apply_lem s c n = elim (Bool-cases (member c.nonce s.waiters)) [
    | inl waits ↦
        ground (arith, waits, waiters-apply_committed s c, member-remove_waiter c.nonce n s.waiters)
    | inr nobody ↦ elim (Bool-cases (n == c.nonce)) [
      | inl same ↦
          let at : n ≡ c.nonce = ground (arith, same) in
          ground (arith, same, nobody, waiters-apply_committed s c, ap (λ k. member k s.waiters) at)
      | inr other ↦ ground (arith, other, nobody, waiters-apply_committed s c)
    ]
  ]
