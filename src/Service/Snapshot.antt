-- ===== src/Service/Snapshot.antt =====
-- app.rs: the bytes of a snapshot of the state machine, and taking and installing one. The order in
-- which the hash tables list their entries is that of the lists.
pub mod RoundTrip
pub mod Transfer
use murmur.Prelude.{
  ℕ, zero, suc, Option, none, some, List, [], ◌∷◌, ◌++◌, length, ◌==◌, if◌then◌else◌,
}
use murmur.Prelude.Result.{Result, ok, err}
use murmur.Prelude.Maps.{insert}
use murmur.Prelude.Cursor.{Cursor, Read, pure, fail, ◌>>=◌, le_bytes, take_bytes, read_u8, read_u64}
use murmur.Raft.Types.{Bytes}
use murmur.Service.Store
use murmur.Service.Store.{Engine, StoreError}
use murmur.Service.State.{
  AppState, Outcome, value, finished, failed, LastApplied, insert_key, bytes_or_empty,
}

pub data Error : Type 0 where
  truncated bad_outcome_tag : ℕ → Error

abbrev pub word : ℕ → Bytes
word = le_bytes 8

unfoldable pub encode_bytes : Bytes → Bytes
encode_bytes bytes = word (length bytes) ++ bytes

-- A text is the list of its UTF-8 bytes.
unfoldable pub encode_outcome : Outcome → Bytes
encode_outcome finished = 0 ∷ []
encode_outcome (value none) = 1 ∷ []
encode_outcome (value (some v)) = 2 ∷ encode_bytes v
encode_outcome (failed text) = 3 ∷ encode_bytes text

unfoldable pub encode_table : List (ℕ × LastApplied) → Bytes
encode_table [] = []
encode_table ((client_id, last) ∷ table) =
    word client_id ++ (word last.seq ++ (encode_outcome last.outcome ++ encode_table table))

unfoldable pub encode_pairs : List (Bytes × Bytes) → Bytes
encode_pairs [] = []
encode_pairs ((key, v) ∷ pairs) = encode_bytes key ++ (encode_bytes v ++ encode_pairs pairs)

-- What `build_snapshot` writes of a table and of the pairs that it reads from the store.
unfoldable pub encode_image : List (ℕ × LastApplied) → List (Bytes × Bytes) → Bytes
encode_image table pairs =
    word (length table) ++ (encode_table table ++ (word (length pairs) ++ encode_pairs pairs))

abbrev pub u64 : Read Error ℕ
u64 = read_u64 truncated

unfoldable pub read_bytes : Read Error Bytes
read_bytes = do len ← u64; take_bytes truncated len

unfoldable pub read_pairs : ℕ → List (Bytes × Bytes) → Read Error (List (Bytes × Bytes))
read_pairs zero pairs = pure pairs
read_pairs (suc n) pairs = do
  key ← read_bytes
  v ← read_bytes
  read_pairs n (pairs ++ ((key, v) ∷ []))

without_cursor : {A : Type 0} → Result Error (A × Cursor) → Result Error A
without_cursor (ok (a, r)) = ok a
without_cursor (err e) = err e

-- `String::from_utf8_lossy` leaves valid UTF-8 as it is; its effect on other bytes is a parameter.
module _ (lossy : Bytes → Bytes) where
  unfoldable pub tagged : ℕ → Read Error Outcome
  tagged tag =
      if tag == 0
      then pure finished
      else if tag == 1
      then pure (value none)
      else if tag == 2
      then (do v ← read_bytes; pure (value (some v)))
      else if tag == 3
      then (do text ← read_bytes; pure (failed (lossy text)))
      else fail (bad_outcome_tag tag)

  unfoldable pub read_outcome : Read Error Outcome
  read_outcome = do tag ← read_u8 truncated; tagged tag

  unfoldable pub read_table : ℕ → List (ℕ × LastApplied) → Read Error (List (ℕ × LastApplied))
  read_table zero table = pure table
  read_table (suc n) table = do
    client_id ← u64
    seq ← u64
    outcome ← read_outcome
    read_table n (insert client_id (record { seq = seq; outcome = outcome }) table)

  unfoldable pub read_image : Read Error (List (ℕ × LastApplied) × List (Bytes × Bytes))
  read_image = do
    dedup_count ← u64
    table ← read_table dedup_count []
    kv_count ← u64
    pairs ← read_pairs kv_count []
    pure (table, pairs)

  -- Bytes behind the image are ignored.
  unfoldable pub decode_snapshot :
      Bytes → Result Error (List (ℕ × LastApplied) × List (Bytes × Bytes))
  unfolding without_cursor
  decode_snapshot image = without_cursor (read_image (record { buf = image; pos = 0 }))

-- `store.get(key).ok().flatten().unwrap_or_default()`
unfoldable pub value_or_empty : Result StoreError (Option Bytes) → Bytes
value_or_empty (ok found) = bytes_or_empty found
value_or_empty (err e) = []

module _ {Db : Type 0} (sable : Engine Db) where
  unfoldable pub read_pairs_of : Db → List Bytes → List (Bytes × Bytes)
  read_pairs_of db [] = []
  read_pairs_of db (key ∷ keys) =
      (key, value_or_empty (Store.get sable db key)) ∷ read_pairs_of db keys

  unfoldable pub build_snapshot : AppState Db → Bytes
  unfolding read_pairs_of
  build_snapshot s = encode_image s.dedup (read_pairs_of s.store s.keys)

  -- The two loops of `install_snapshot`, which drop the errors of the store.
  clear : Db → List Bytes → Db
  clear db [] = db
  clear db (key ∷ keys) = clear (Store.delete sable db key).0 keys

  load_pairs : List (Bytes × Bytes) → Db → List Bytes → Db × List Bytes
  load_pairs [] db keys = (db, keys)
  load_pairs ((key, v) ∷ pairs) db keys =
      load_pairs pairs (Store.put sable db key v).0 (insert_key key keys)

  -- Bytes that cannot be decoded are reported and ignored.
  unfoldable pub install_snapshot : (Bytes → Bytes) → AppState Db → Bytes → AppState Db
  unfolding clear load_pairs
  install_snapshot lossy s image = elim (decode_snapshot lossy image) [
    | err e ↦ s
    | ok (dedup, pairs) ↦
        let (db, keys) = load_pairs pairs (clear s.store s.keys) [] in
        record s { store = db; keys = keys; dedup = dedup }
  ]
