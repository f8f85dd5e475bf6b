-- ===== src/Service/ExactlyOnce.antt =====
-- app.rs: a mutation of a registered client takes effect once, however often it is committed.
use mathlib.Core.Path.{subst}
use murmur.Prelude.{
  ℕ, ◌≤◌, ◌≡◌, refl, sym, ap, ◌∙◌, Bool, true, false, ◌&&◌, Option, none, some, List, [], ◌∷◌, leb,
  ltb, ◌==◌, if◌then◌else◌, All, leb→le, Bool-cases, Option-cases, inl, inr, arith,
}
use murmur.Prelude.Maps.{lookup, lookup-insert}
use murmur.Raft.Types.{Bytes}
use murmur.Service.Op.{Op, try_from}
use murmur.Service.Command.{Command}
use murmur.Service.Store.{Engine}
use murmur.Service.State.{AppState, Outcome, LastApplied, run, is_identified, apply_committed}

-- A later request of the client stands in the table.
abbrev pub supersedes : Command → Command → Bool
supersedes c d = d.client_id == c.client_id && ltb c.seq d.seq

-- The client has an outcome at least as recent as the request.
abbrev is_answered : Command → Option LastApplied → Bool
is_answered c none = false
is_answered c (some last) = leb c.seq last.seq

abbrev updated : Option LastApplied → Command → Outcome → Option LastApplied
updated none c outcome = some (record { seq = c.seq; outcome = outcome })
updated (some last) c outcome =
    if leb c.seq last.seq then some last else some (record { seq = c.seq; outcome = outcome })

module _ {Db : Type 0} (sable : Engine Db) (unknown_op : ℕ → Bytes) where
  unfoldable pub apply_log : AppState Db → List Command → AppState Db
  apply_log s [] = s
  apply_log s (c ∷ cs) = apply_log (apply_committed sable unknown_op s c).0 cs

  dedup-run :
      (op : Option Op) (s : AppState Db) (c : Command)
      → (run sable unknown_op op s c).0.dedup ≡ s.dedup
  unfolding run
  dedup-run none s c = refl
  dedup-run (some Op.get) s c = ground arith
  dedup-run (some Op.put) s c = ground arith
  dedup-run (some Op.delete) s c = ground arith
  dedup-run (some Op.append) s c = ground arith

  -- The table after a command: what the command wrote, or what was there.
  lookup-apply_committed :
      (s : AppState Db) (c : Command) (k : ℕ)
      → lookup k (apply_committed sable unknown_op s c).0.dedup ≡ (
          if k == c.client_id && is_identified c
          then updated (lookup k s.dedup) c (apply_committed sable unknown_op s c).1
          else lookup k s.dedup)
  unfolding apply_committed
  lookup-apply_committed s c k = ground (
    arith,
    dedup-run (try_from c.op) s c,
    lookup-insert c.client_id k
        (record { seq = c.seq; outcome = (run sable unknown_op (try_from c.op) s c).1 })
        (run sable unknown_op (try_from c.op) s c).0.dedup,
  )

  -- A request that is answered stays so, whatever is applied.
  is_answered-apply_committed :
      (c : Command) (s : AppState Db) (d : Command)
      → is_answered c (lookup c.client_id s.dedup) ≡ true
      → is_answered c (lookup c.client_id (apply_committed sable unknown_op s d).0.dedup) ≡ true
  is_answered-apply_committed c s d h = ground (arith, h, lookup-apply_committed s d c.client_id)

  is_answered-apply_log :
      (c : Command) (cs : List Command) (s : AppState Db)
      → is_answered c (lookup c.client_id s.dedup) ≡ true
      → is_answered c (lookup c.client_id (apply_log s cs).dedup) ≡ true
  unfolding apply_log
  is_answered-apply_log c [] s h = h
  is_answered-apply_log c (d ∷ cs) s h =
      is_answered-apply_log c cs _ (is_answered-apply_committed c s d h)

  -- Applying a mutation of a registered client answers it.
  apply_committed-is_answered :
      (s : AppState Db) (c : Command)
      → is_identified c ≡ true
      → is_answered c (lookup c.client_id (apply_committed sable unknown_op s c).0.dedup) ≡ true
  apply_committed-is_answered s c id = ground (arith, id, lookup-apply_committed s c c.client_id)

  -- A request that is answered changes nothing.
  answered_lem :
      (s : AppState Db) (c : Command)
      → is_identified c ≡ true
      → is_answered c (lookup c.client_id s.dedup) ≡ true
      → (apply_committed sable unknown_op s c).0 ≡ s
  unfolding apply_committed
  answered_lem s c id h = ground (arith, id, h)

  -- What a client that does not move on is answered, it is answered again.
  lookup-apply_log :
      (c : Command) (cs : List Command) (s : AppState Db) (last : LastApplied)
      → All (λ d. supersedes c d ≡ false) cs
      → lookup c.client_id s.dedup ≡ some last
      → c.seq ≤ last.seq
      → lookup c.client_id (apply_log s cs).dedup ≡ some last
  unfolding apply_log
  lookup-apply_log c [] s last q e le = e
  lookup-apply_log c (d ∷ cs) s last (qd, q) e le =
      lookup-apply_log c cs _ last q
        (ground (arith, qd, e, le, lookup-apply_committed s d c.client_id)) le

  replayed :
      (s : AppState Db) (c : Command) (last : LastApplied)
      → is_identified c ≡ true
      → lookup c.client_id s.dedup ≡ some last
      → c.seq ≤ last.seq
      → (apply_committed sable unknown_op s c).1 ≡ last.outcome
  unfolding apply_committed
  replayed s c last id e le = ground (arith, id, e, le)

  -- What the table holds for the client afterwards is the answer.
  remembered :
      (s : AppState Db) (c : Command)
      → is_identified c ≡ true
      → (last : LastApplied) × (lookup c.client_id (apply_committed sable unknown_op s c).0.dedup
          ≡ some last)
        × (c.seq ≤ last.seq)
        × ((apply_committed sable unknown_op s c).1 ≡ last.outcome)
  remembered s c id =
      let table = lookup-apply_committed s c c.client_id in
      let fresh : LastApplied = record {
        seq = c.seq;
        outcome = (apply_committed sable unknown_op s c).1;
      } in
      elim (Option-cases (lookup c.client_id s.dedup)) [
        | inl nothing ↦ (fresh, ground (arith, id, nothing, table), omega arith, refl)
        | inr (last, at) ↦ elim (Bool-cases (leb c.seq last.seq)) [
          | inl old ↦ (
            last,
            ground (arith, id, at, old, table),
            leb→le _ _ old,
            replayed s c last id at (leb→le _ _ old),
          )
          | inr newer ↦ (fresh, ground (arith, id, at, newer, table), omega arith, refl)
        ]
      ]

  -- What answers a request answers its retry, and every older request of the client.
  is_answered-retry :
      (c d : Command) (o : Option LastApplied)
      → d.seq ≤ c.seq
      → is_answered c o ≡ true
      → is_answered d o ≡ true
  is_answered-retry c d none old h = h
  is_answered-retry c d (some last) old h = ground (arith, old, h)

  -- For a mutation of a registered client: when a retry of it, under whatever nonce, or an older
  -- mutation of the client is committed, whatever was committed in between, the state machine does not
  -- change.
  pub exactly_once :
      (s : AppState Db) (c d : Command) (cs : List Command)
      → is_identified c ≡ true
      → is_identified d ≡ true
      → d.client_id ≡ c.client_id
      → d.seq ≤ c.seq
      → let later = apply_log s (c ∷ cs) in (apply_committed sable unknown_op later d).0 ≡ later
  unfolding apply_log
  exactly_once s c d cs id id' same old =
      let later = apply_log s (c ∷ cs) in
      let known = is_answered-apply_log c cs _ (apply_committed-is_answered s c id) in
      answered_lem later d id' (
        subst (λ k. is_answered d (lookup k later.dedup) ≡ true) (sym same)
          (is_answered-retry c d (lookup c.client_id later.dedup) old known))

  -- For a mutation of a registered client: when a retry of it, under whatever nonce, is committed, and
  -- no later request of the client was committed in between, it is answered as the first time.
  pub same_answer :
      (s : AppState Db) (c d : Command) (cs : List Command)
      → is_identified c ≡ true
      → is_identified d ≡ true
      → d.client_id ≡ c.client_id
      → d.seq ≡ c.seq
      → All (λ e. supersedes c e ≡ false) cs
      → (apply_committed sable unknown_op (apply_log s (c ∷ cs)) d).1
        ≡ (apply_committed sable unknown_op s c).1
  unfolding apply_log
  same_answer s c d cs id id' same retry q =
      let (last, at, le, first) = remembered s c id in
      let known = lookup-apply_log c cs _ last q at le in
      replayed _ d last id' (ap (λ k. lookup k (apply_log s (c ∷ cs)).dedup) same ∙ known)
        (omega (arith, retry, le))
      ∙ sym first
