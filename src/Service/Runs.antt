-- ===== src/Service/Runs.antt =====
-- The service over a store that is an association list, and the theorems about it.
use murmur.Prelude.{
  ℕ, ◌≡◌, refl, ap, Bool-cases, inl, inr, Option, none, some, List, [], ◌∷◌, ◌++◌, if◌then◌else◌,
  arith,
}
use murmur.Prelude.Result.{ok}
use murmur.Prelude.Maps.{lookup, insert}
use murmur.Prelude.Cursor.{le_bytes}
use murmur.Raft.Types.{Bytes}
use murmur.Service.Op
use murmur.Service.Command
use murmur.Service.Command.{Command}
use murmur.Service.Store.{Engine}
use murmur.Service.State.{
  AppState, value, finished, same_bytes, has_key, insert_key, apply_committed, run,
}
use murmur.Service.ExactlyOnce.{apply_log, exactly_once, same_answer}
use murmur.Service.Snapshot.{
  encode_image, encode_table, encode_pairs, encode_outcome, encode_bytes, decode_snapshot,
  read_pairs_of, value_or_empty, build_snapshot, install_snapshot,
}
use murmur.Service.Snapshot.Transfer.{Lawful, same_bytes_eq, get-install_snapshot-build_snapshot}
use murmur.Service.Snapshot.RoundTrip.{
  decode_snapshot-encode_image, dedup-install_snapshot-build_snapshot,
}

unfoldable pub find : List (Bytes × Bytes) → Bytes → Option Bytes
find [] key = none
find ((k, v) ∷ db) key = if same_bytes k key then some v else find db key

unfoldable pub erase : List (Bytes × Bytes) → Bytes → List (Bytes × Bytes)
erase [] key = []
erase ((k, v) ∷ db) key = if same_bytes k key then erase db key else (k, v) ∷ erase db key

abbrev pub table_engine : Engine (List (Bytes × Bytes))
table_engine = record {
  put = λ db key v. ((key, v) ∷ erase db key, ok tt);
  get = λ db key. ok (find db key);
  delete = λ db key. (erase db key, ok tt);
}

abbrev pub unknown_op : ℕ → Bytes
unknown_op n = n ∷ []

abbrev pub empty : AppState (List (Bytes × Bytes))
empty = record { store = []; waiters = []; sent = []; dedup = []; keys = [] }

-- Client 7 appends twice; client 8 writes in between.
abbrev pub first : Command
first = Command.append (b'k' ∷ []) (b'a' ∷ []) 7 1

abbrev pub other : Command
other = Command.put (b'k' ∷ []) (b'z' ∷ []) 8 5

abbrev state : AppState (List (Bytes × Bytes))
state = apply_log table_engine unknown_op empty (first ∷ other ∷ [])

-- The retry, proposed by another node under another nonce.
abbrev retried : Command
retried = record first { nonce = 77 }

exactly_once_example : (apply_committed table_engine unknown_op state retried).0 ≡ state
unfolding Op.try_from
exactly_once_example =
    exactly_once table_engine unknown_op empty first retried (other ∷ []) refl refl refl
      (omega arith)

same_answer_example :
    (apply_committed table_engine unknown_op state retried).1
    ≡ (apply_committed table_engine unknown_op empty first).1
unfolding Op.try_from
same_answer_example =
    same_answer table_engine unknown_op empty first retried (other ∷ []) refl refl refl refl
      (refl, tt)

answer_run : (apply_committed table_engine unknown_op state first).1 ≡ value (some (b'a' ∷ []))
unfolding apply_committed apply_log run Op.try_from lookup insert insert_key find
answer_run = refl

-- A table and a store as two clients leave them.
abbrev pub leader_state : AppState (List (Bytes × Bytes))
leader_state = record {
  store = (b'k' ∷ [], b'z' ∷ []) ∷ [];
  waiters = [];
  sent = [];
  dedup =
      (7, record { seq = 1; outcome = value (some (b'a' ∷ [])) })
      ∷ (8, record { seq = 5; outcome = finished })
      ∷ [];
  keys = (b'k' ∷ []) ∷ [];
}

decode_snapshot-encode_image_example :
    decode_snapshot
      (λ text. text)
      (encode_image leader_state.dedup ((b'k' ∷ [], b'z' ∷ []) ∷ []) ++ (0 ∷ []))
    ≡ ok (leader_state.dedup, (b'k' ∷ [], b'z' ∷ []) ∷ [])
unfolding encode_image encode_table encode_pairs encode_outcome encode_bytes le_bytes lookup
decode_snapshot-encode_image_example =
    decode_snapshot-encode_image (λ text. text) leader_state.dedup ((b'k' ∷ [], b'z' ∷ []) ∷ [])
      (0 ∷ []) (omega arith) (refl, (refl, tt)) (omega arith) (omega arith) (omega arith)
      (omega arith)

dedup-install_snapshot-build_snapshot_example :
    (install_snapshot table_engine
      (λ text. text)
      empty
      (build_snapshot table_engine leader_state)).dedup
    ≡ leader_state.dedup
unfolding build_snapshot read_pairs_of find same_bytes encode_image encode_table encode_pairs
    encode_outcome encode_bytes le_bytes lookup value_or_empty
dedup-install_snapshot-build_snapshot_example =
    dedup-install_snapshot-build_snapshot (λ text. text) table_engine leader_state empty
      (omega arith) (refl, (refl, tt)) (omega arith) (omega arith) (omega arith) (omega arith)

find-erase :
    (db : List (Bytes × Bytes)) (key k : Bytes)
    → find (erase db key) k ≡ (if same_bytes key k then none else find db k)
unfolding find erase
find-erase [] key k = ground arith
find-erase ((j, v) ∷ db) key k = elim (Bool-cases (same_bytes j key)) [
  | inl same ↦
      ground (arith, same, find-erase db key k, ap (λ i. same_bytes i k) (same_bytes_eq j key same))
  | inr other ↦ elim (Bool-cases (same_bytes key k)) [
    | inl at ↦
        ground
          (arith, other, at, find-erase db key k, ap (λ i. same_bytes j i) (same_bytes_eq key k at))
    | inr away ↦ ground (arith, other, away, find-erase db key k)
  ]
]

pub table_engine-Lawful : Lawful table_engine
unfolding find
table_engine-Lawful = record {
  get_put = λ db key v k. ground (arith, find-erase db key k);
  get_delete = λ db key k. ground (arith, find-erase db key k);
}

-- A node that holds a key that the leader does not have.
abbrev stale_state : AppState (List (Bytes × Bytes))
stale_state = record empty { store = (b'j' ∷ [], b'y' ∷ []) ∷ []; keys = (b'j' ∷ []) ∷ [] }

get-install_snapshot-build_snapshot_example :
    table_engine.get
      (install_snapshot table_engine
        (λ text. text)
        stale_state
        (build_snapshot table_engine leader_state)).store
      (b'k' ∷ [])
    ≡ ok (some (b'z' ∷ []))
unfolding build_snapshot read_pairs_of find same_bytes has_key encode_image encode_table
    encode_pairs encode_outcome encode_bytes le_bytes lookup value_or_empty
get-install_snapshot-build_snapshot_example =
    get-install_snapshot-build_snapshot table_engine table_engine-Lawful (λ text. text) leader_state
      stale_state (b'k' ∷ []) (omega arith) (refl, (refl, tt)) (omega arith) (omega arith)
      (omega arith) (omega arith)
