-- ===== src/Service/State.antt =====
-- app.rs: the state machine behind the log, with its table of the last request of each client.
use murmur.Prelude.{
  ℕ, Bool, true, false, not, ◌&&◌, ◌||◌, Option, none, some, List, [], ◌∷◌, ◌++◌, leb, ◌==◌,
  if◌then◌else◌,
}
use murmur.Prelude.Result.{Result, ok, err}
use murmur.Prelude.Maps.{lookup, insert, member}
use murmur.Raft.Types.{Bytes}
use murmur.Service.Op.{Op, try_from, is_mutation}
use murmur.Service.Command.{Command}
use murmur.Service.Store
use murmur.Service.Store.{Engine, StoreError}

pub data Outcome : Type 0 where
  value : Option Bytes → Outcome
  finished : Outcome
  failed : Bytes → Outcome

pub record LastApplied : Type 0 where
  pub seq : ℕ
  pub outcome : Outcome

-- `waiters` are the nonces that callers wait for, `sent` what they were sent, the latest first.
pub record AppState (Db : Type 0) : Type 0 where
  pub store : Db
  pub waiters : List ℕ
  pub sent : List (ℕ × Outcome)
  pub dedup : List (ℕ × LastApplied)
  pub keys : List Bytes

-- The `HashSet<Vec<u8>>` of the key directory.
unfoldable pub same_bytes : Bytes → Bytes → Bool
same_bytes [] [] = true
same_bytes (a ∷ as_) (b ∷ bs) = a == b && same_bytes as_ bs
same_bytes _ _ = false

unfoldable pub has_key : Bytes → List Bytes → Bool
has_key key [] = false
has_key key (k ∷ ks) = same_bytes k key || has_key key ks

unfoldable pub insert_key : Bytes → List Bytes → List Bytes
insert_key key ks = if has_key key ks then ks else key ∷ ks

unfoldable pub remove_key : Bytes → List Bytes → List Bytes
remove_key key [] = []
remove_key key (k ∷ ks) = if same_bytes k key then remove_key key ks else k ∷ remove_key key ks

unfoldable pub remove_waiter : ℕ → List ℕ → List ℕ
remove_waiter nonce [] = []
remove_waiter nonce (n ∷ ns) =
    if n == nonce then remove_waiter nonce ns else n ∷ remove_waiter nonce ns

-- `unwrap_or_default()`
abbrev pub bytes_or_empty : Option Bytes → Bytes
bytes_or_empty none = []
bytes_or_empty (some bytes) = bytes

-- A mutation of a registered client.
abbrev pub is_identified : Command → Bool
is_identified c = is_mutation (try_from c.op) && not (c.client_id == 0)

-- `Some(last) if command.seq <= last.seq`
abbrev pub cached : Option LastApplied → Command → Option Outcome
cached none c = none
cached (some last) c = if leb c.seq last.seq then some last.outcome else none

-- `unknown_op` is the text `unknown op {}` with the code in decimal.
module _ {Db : Type 0} (sable : Engine Db) (unknown_op : ℕ → Bytes) where
  -- The end of a write: the key directory follows the store if the write succeeded.
  wrote :
      AppState Db → List Bytes → Outcome → Db × Result StoreError (Unit {0}) → AppState Db × Outcome
  wrote s keys outcome (db, ok _) = (record s { store = db; keys = keys }, outcome)
  wrote s keys outcome (db, err e) = (record s { store = db }, failed (Store.to_string e))

  run_get : AppState Db → Bytes → AppState Db × Outcome
  run_get s key = elim (Store.get sable s.store key) [
    | ok v ↦ (s, value v)
    | err e ↦ (s, failed (Store.to_string e))
  ]

  run_append : AppState Db → Bytes → Bytes → AppState Db × Outcome
  unfolding wrote
  run_append s key suffix = elim (Store.get sable s.store key) [
    | ok old ↦
        let v = bytes_or_empty old ++ suffix in
        wrote s (insert_key key s.keys) (value (some v)) (Store.put sable s.store key v)
    | err e ↦ (s, failed (Store.to_string e))
  ]

  unfoldable pub run : Option Op → AppState Db → Command → AppState Db × Outcome
  unfolding wrote run_get run_append
  run (some Op.get) s c = run_get s c.key
  run (some Op.put) s c =
      wrote s (insert_key c.key s.keys) finished (Store.put sable s.store c.key c.value)
  run (some Op.delete) s c =
      wrote s (remove_key c.key s.keys) finished (Store.delete sable s.store c.key)
  run (some Op.append) s c = run_append s c.key c.value
  run none s c = (s, failed (unknown_op c.op))

  -- The arm that runs the command and remembers its outcome.
  run_and_remember : AppState Db → Command → AppState Db × Outcome
  run_and_remember s c =
      let (s', outcome) = run (try_from c.op) s c in
      (
        record s' {
          dedup = insert c.client_id (record { seq = c.seq; outcome = outcome }) s'.dedup;
        },
        outcome,
      )

  unfoldable pub apply_committed : AppState Db → Command → AppState Db × Outcome
  unfolding run_and_remember
  apply_committed s c =
      if not (is_identified c)
      then run (try_from c.op) s c
      else elim (cached (lookup c.client_id s.dedup) c) [
        | some outcome ↦ (s, outcome)
        | none ↦ run_and_remember s c
      ]

  unfoldable pub apply : AppState Db → Command → AppState Db
  unfolding remove_waiter
  apply s c =
      let (s', outcome) = apply_committed s c in
      if member c.nonce s'.waiters
      then record s' {
        waiters = remove_waiter c.nonce s'.waiters;
        sent = (c.nonce, outcome) ∷ s'.sent;
      }
      else s'
