-- ===== src/Service/Snapshot/Transfer.antt =====
-- app.rs: what a node holds after it installs the snapshot of another.
use murmur.Prelude.{
  ◌^◌, ◌<◌, ◌≡◌, refl, ap, true, Option, none, some, List, [], ◌∷◌, length, All, if◌then◌else◌,
  Bool-cases, inl, inr, arith, append-nil,
}
use murmur.Prelude.Result.{Result, ok, err}
use murmur.Raft.Types.{Bytes}
use murmur.Service.Store
use murmur.Service.Store.{Engine, engine_error}
use murmur.Service.State.{AppState, same_bytes, has_key, insert_key}
use murmur.Service.Snapshot.{
  value_or_empty, read_pairs_of, clear, load_pairs, build_snapshot, install_snapshot,
}
use murmur.Service.Snapshot.RoundTrip.{RowFits, PairFits, AllFresh, decode_snapshot-encode_image}

-- What Sable documents: a put and a delete change what is read at the key, and at no other.
pub record Lawful {Db : Type 0} (sable : Engine Db) : Type 0 where
  pub get_put :
      (db : Db) (key v k : Bytes)
      → sable.get (sable.put db key v).0 k
        ≡ (if same_bytes key k then ok (some v) else sable.get db k)
  pub get_delete :
      (db : Db) (key k : Bytes)
      → sable.get (sable.delete db key).0 k ≡ (if same_bytes key k then ok none else sable.get db k)

pub same_bytes_eq : (a b : Bytes) → same_bytes a b ≡ true → a ≡ b
unfolding same_bytes
same_bytes_eq [] [] h = refl
same_bytes_eq (x ∷ a) (y ∷ b) h = ground (arith, h, same_bytes_eq a b)
same_bytes_eq [] (y ∷ b) h = ground (arith, h)
same_bytes_eq (x ∷ a) [] h = ground (arith, h)

-- What a snapshot carries for a key at which the engine answers this.
abbrev pub sent_for : Result Bytes (Option Bytes) → Bytes
sent_for (ok (some v)) = v
sent_for (ok none) = []
sent_for (err e) = []

value_or_empty-engine_error :
    (r : Result Bytes (Option Bytes)) → value_or_empty (engine_error r) ≡ sent_for r
unfolding value_or_empty
value_or_empty-engine_error (ok (some v)) = refl
value_or_empty-engine_error (ok none) = refl
value_or_empty-engine_error (err e) = refl

module _ {Db : Type 0} (sable : Engine Db) (law : Lawful sable) where
  get-clear :
      (keys : List Bytes) (db : Db) (k : Bytes)
      → sable.get (clear sable db keys) k ≡ (if has_key k keys then ok none else sable.get db k)
  unfolding clear has_key
  get-clear [] db k = refl
  get-clear (key ∷ keys) db k =
      ground (arith, law.get_delete db key k, get-clear keys (sable.delete db key).0 k)

  get-load_pairs :
      (from : Db) (keys : List Bytes) (db : Db) (ks : List Bytes) (k : Bytes)
      → sable.get (load_pairs sable (read_pairs_of sable from keys) db ks).0 k ≡ (
          if has_key k keys
          then ok (some (value_or_empty (Store.get sable from k)))
          else sable.get db k)
  unfolding load_pairs read_pairs_of has_key
  get-load_pairs from [] db ks k = refl
  get-load_pairs from (key ∷ keys) db ks k =
      let v = value_or_empty (Store.get sable from key) in
      let put = law.get_put db key v k in
      let loaded = get-load_pairs from keys (sable.put db key v).0 (insert_key key ks) k in
      elim (Bool-cases (same_bytes key k)) [
        | inl same ↦ ground (
          arith,
          same,
          put,
          loaded,
          ap (λ j. value_or_empty (Store.get sable from j)) (same_bytes_eq key k same),
        )
        | inr other ↦ ground (arith, other, put, loaded)
      ]

  -- On a lawful engine, where the table and the store of the first node fit the format: after a node
  -- installs the snapshot of the first, it reads at each key of the first's directory the value that
  -- the first reads there, and an empty value where the first finds none or fails to read. At every
  -- other key it reads nothing if its own directory had the key, and else what it read before.
  pub get-install_snapshot-build_snapshot :
      (lossy : Bytes → Bytes) (from to : AppState Db) (k : Bytes)
      → All (RowFits lossy) from.dedup
      → AllFresh [] from.dedup
      → All PairFits (read_pairs_of sable from.store from.keys)
      → length from.dedup < 2 ^ 64
      → length (read_pairs_of sable from.store from.keys) < 2 ^ 64
      → length (build_snapshot sable from) < 2 ^ 64
      → sable.get (install_snapshot sable lossy to (build_snapshot sable from)).store k ≡ (
          if has_key k from.keys
          then ok (some (sent_for (sable.get from.store k)))
          else if has_key k to.keys
          then ok none
          else sable.get to.store k)
  unfolding install_snapshot build_snapshot
  get-install_snapshot-build_snapshot lossy from to k rows fresh fits few_rows few_pairs small =
      let image = read_pairs_of sable from.store from.keys in
      let decoded =
        decode_snapshot-encode_image lossy from.dedup image [] rows fresh fits few_rows few_pairs
          (rw append-nil small) in
      let sent = value_or_empty-engine_error (sable.get from.store k) in
      ground (
        arith,
        rw append-nil at decoded,
        get-clear to.keys to.store k,
        get-load_pairs from.store from.keys (clear sable to.store to.keys) [] k,
        sent,
      )
