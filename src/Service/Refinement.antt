-- ===== src/Service/Refinement.antt =====
-- app.rs: what the state machine promises, as a map and the last answer of each client, and that the
-- code on a store keeps the promise.
use murmur.Prelude.{
  ℕ, ◌≡◌, refl, ap, ◌∙◌, not, Option, none, some, List, [], ◌∷◌, ◌++◌, ◌==◌, if◌then◌else◌,
  Bool-cases, Option-cases, inl, inr, arith,
}
use murmur.Prelude.Result.{ok}
use murmur.Prelude.Maps.{lookup, lookup-insert}
use murmur.Raft.Types.{Bytes}
use murmur.Service.Op.{Op, try_from}
use murmur.Service.Command.{Command}
use murmur.Service.Store.{Engine}
use murmur.Service.State.{
  AppState, Outcome, value, finished, failed, LastApplied, same_bytes, bytes_or_empty,
  is_identified, cached, run, apply_committed,
}
use murmur.Service.Snapshot.Transfer.{Lawful}

abbrev pub KeyMap : Type 0
KeyMap = Bytes → Option Bytes

-- The promise: what every key holds, and the last request and answer of every client.
pub record Abstract : Type 0 where
  pub holds : KeyMap
  pub answered : ℕ → Option LastApplied

unfoldable pub set : KeyMap → Bytes → Option Bytes → KeyMap
set m key o k = if same_bytes key k then o else m k

module _ (unknown_op : ℕ → Bytes) where
  unfoldable pub promised_run : Option Op → KeyMap → Command → KeyMap × Outcome
  promised_run (some Op.get) m c = (m, value (m c.key))
  promised_run (some Op.put) m c = (set m c.key (some c.value), finished)
  promised_run (some Op.delete) m c = (set m c.key none, finished)
  promised_run (some Op.append) m c =
      let v = bytes_or_empty (m c.key) ++ c.value in (set m c.key (some v), value (some v))
  promised_run none m c = (m, failed (unknown_op c.op))

  -- A request of a client that has a later answer, or this one, is answered so and changes nothing.
  unfoldable pub promised : Abstract → Command → Abstract × Outcome
  promised a c =
      let (m, outcome) = promised_run (try_from c.op) a.holds c in
      if not (is_identified c)
      then (record a { holds = m }, outcome)
      else elim (cached (a.answered c.client_id) c) [
        | some old ↦ (a, old)
        | none ↦ (
          record {
            holds = m;
            answered = λ id.
                if c.client_id == id
                then some (record { seq = c.seq; outcome = outcome })
                else a.answered id;
          },
          outcome,
        )
      ]

  unfoldable pub promised_answers : Abstract → List Command → List Outcome
  promised_answers a [] = []
  promised_answers a (c ∷ cs) = (promised a c).1 ∷ promised_answers (promised a c).0 cs

-- Sable as documented, on a disk that does not fail.
pub record Sound {Db : Type 0} (sable : Engine Db) : Type 0 where
  pub lawful : Lawful sable
  pub put_ok : (db : Db) (key v : Bytes) → (sable.put db key v).1 ≡ ok tt
  pub delete_ok : (db : Db) (key : Bytes) → (sable.delete db key).1 ≡ ok tt

module _ {Db : Type 0} (sable : Engine Db) (unknown_op : ℕ → Bytes) (sound : Sound sable) where
  pub record Shows (s : AppState Db) (a : Abstract) : Type 0 where
    pub stored : (k : Bytes) → sable.get s.store k ≡ ok (a.holds k)
    pub remembered : (id : ℕ) → lookup id s.dedup ≡ a.answered id

  unfoldable pub answers : AppState Db → List Command → List Outcome
  answers s [] = []
  answers s (c ∷ cs) =
      (apply_committed sable unknown_op s c).1 ∷ answers (apply_committed sable unknown_op s c).0 cs

  run_lem :
      (op : Option Op) (s : AppState Db) (m : KeyMap) (c : Command)
      → ((k : Bytes) → sable.get s.store k ≡ ok (m k))
      → ((run sable unknown_op op s c).1 ≡ (promised_run unknown_op op m c).1)
        × ((k : Bytes)
            → sable.get (run sable unknown_op op s c).0.store k
              ≡ ok ((promised_run unknown_op op m c).0 k))
        × ((run sable unknown_op op s c).0.dedup ≡ s.dedup)
  unfolding run promised_run set
  run_lem (some Op.get) s m c h =
      (ground (arith, h c.key), λ k. ground (arith, h c.key, h k), ground (arith, h c.key))
  run_lem (some Op.put) s m c h =
      let done = sound.put_ok s.store c.key c.value in
      (
        ground (arith, done),
        λ k. ground (arith, done, h k, sound.lawful.get_put s.store c.key c.value k),
        ground (arith, done),
      )
  run_lem (some Op.delete) s m c h =
      let done = sound.delete_ok s.store c.key in
      (
        ground (arith, done),
        λ k. ground (arith, done, h k, sound.lawful.get_delete s.store c.key k),
        ground (arith, done),
      )
  run_lem (some Op.append) s m c h =
      let v = bytes_or_empty (m c.key) ++ c.value in
      let done = sound.put_ok s.store c.key v in
      let read = h c.key in
      (
        ground (arith, done, read),
        λ k. ground (arith, done, read, h k, sound.lawful.get_put s.store c.key v k),
        ground (arith, done, read),
      )
  run_lem none s m c h = (refl, h, refl)

  -- One command: the code answers as promised, and shows what is promised again.
  apply_committed_lem :
      (s : AppState Db) (a : Abstract) (c : Command)
      → Shows s a
      → ((apply_committed sable unknown_op s c).1 ≡ (promised unknown_op a c).1)
        × Shows (apply_committed sable unknown_op s c).0 (promised unknown_op a c).0
  unfolding apply_committed promised
  apply_committed_lem s a c h =
      let (same, stored, kept) = run_lem (try_from c.op) s a.holds c h.stored in
      elim (Bool-cases (is_identified c)) [
        | inl identified ↦ elim (Option-cases (cached (a.answered c.client_id) c)) [
          | inl new ↦
              rw (identified, h.remembered c.client_id, new)
                (
                  same,
                  record {
                    stored = stored;
                    remembered = λ id.
                        lookup-insert c.client_id id
                          (record {
                            seq = c.seq;
                            outcome = (run sable unknown_op (try_from c.op) s c).1;
                          })
                          (run sable unknown_op (try_from c.op) s c).0.dedup
                        ∙ rw (same, kept, h.remembered id) refl;
                  },
                )
          | inr (old, seen) ↦ rw (identified, h.remembered c.client_id, seen) (refl, h)
        ]
        | inr anonymous ↦ rw anonymous (
          same,
          record { stored = stored; remembered = λ id. ap (lookup id) kept ∙ h.remembered id },
        )
      ]

  -- On an engine that keeps its documented laws and does not fail, from a state that shows an abstract
  -- one: whatever log of commands is applied, the code gives the answers that the map and the last
  -- answers of the clients give.
  pub answers_as_promised :
      (cs : List Command) (s : AppState Db) (a : Abstract)
      → Shows s a
      → answers s cs ≡ promised_answers unknown_op a cs
  unfolding answers promised_answers
  answers_as_promised [] s a h = refl
  answers_as_promised (c ∷ cs) s a h =
      let (same, h') = apply_committed_lem s a c h in rw (same, answers_as_promised cs _ _ h') refl
