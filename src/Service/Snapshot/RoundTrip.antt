-- ===== src/Service/Snapshot/RoundTrip.antt =====
-- app.rs: what `build_snapshot` writes `decode_snapshot` reads back, so a follower that installs a
-- snapshot answers retries as the leader does.
use murmur.Prelude.{
  ℕ, ◌^◌, ◌<◌, ◌≡◌, refl, ap, none, some, List, [], ◌∷◌, ◌++◌, length, All, arith, append-nil,
  append_assoc,
}
use murmur.Prelude.Result.{ok}
use murmur.Prelude.Maps.{lookup, insert}
use murmur.Prelude.Cursor.Reads.{
  Reads, Reads-pure, Reads-bind, Reads-map, Reads-take, Reads-u64, Reads-u8, Before,
}
use murmur.Raft.Types.{Bytes}
use murmur.Service.Store.{Engine}
use murmur.Service.State.{AppState, Outcome, value, finished, failed, LastApplied}
use murmur.Service.Snapshot.{
  truncated, word, encode_bytes, encode_outcome, encode_table, encode_pairs, encode_image, u64,
  read_bytes, tagged, read_outcome, read_table, read_pairs, read_image, without_cursor,
  decode_snapshot, read_pairs_of, build_snapshot, install_snapshot,
}

-- A client id that the table does not hold goes to its end.
insert_fresh :
    (k : ℕ) (last : LastApplied) (table : List (ℕ × LastApplied))
    → lookup k table ≡ none
    → insert k last table ≡ table ++ ((k, last) ∷ [])
unfolding lookup insert
insert_fresh k last [] h = refl
insert_fresh k last ((j, w) ∷ table) h = ground (arith, h, insert_fresh k last table)

-- No client id of the second list stands twice in it, or in the first.
abbrev pub AllFresh : List (ℕ × LastApplied) → List (ℕ × LastApplied) → Type 0
AllFresh table [] = Unit
AllFresh table ((k, last) ∷ rest) =
    (lookup k table ≡ none) × AllFresh (table ++ ((k, last) ∷ [])) rest

abbrev pub PairFits : Bytes × Bytes → Type 0
PairFits (key, v) = (length key < 2 ^ 64) × (length v < 2 ^ 64)

Reads-bytes : (bytes : Bytes) → length bytes < 2 ^ 64 → Reads read_bytes (encode_bytes bytes) bytes
unfolding read_bytes encode_bytes
Reads-bytes bytes h =
    Reads-bind u64 _ (word (length bytes)) bytes (length bytes) bytes
      (Reads-u64 truncated (length bytes) h) (Reads-take truncated (length bytes) bytes refl)

Reads-pairs :
    (pairs done : List (Bytes × Bytes))
    → All PairFits pairs
    → Reads (read_pairs (length pairs) done) (encode_pairs pairs) (done ++ pairs)
unfolding read_pairs encode_pairs
Reads-pairs [] done h = rw append-nil (Reads-pure done)
Reads-pairs ((key, v) ∷ pairs) done ((hk, hv), h) =
    Reads-bind read_bytes _ (encode_bytes key) _ key _ (Reads-bytes key hk) (
      Reads-bind read_bytes _ (encode_bytes v) _ v _ (Reads-bytes v hv)
        (rw append_assoc at (Reads-pairs pairs (done ++ ((key, v) ∷ [])) h)))

module _ (lossy : Bytes → Bytes) where
  -- A text of an error is valid UTF-8, which `lossy` leaves as it is.
  abbrev pub OutcomeFits : Outcome → Type 0
  OutcomeFits (value (some v)) = length v < 2 ^ 64
  OutcomeFits (failed text) = (length text < 2 ^ 64) × (lossy text ≡ text)
  OutcomeFits _ = Unit

  abbrev pub RowFits : ℕ × LastApplied → Type 0
  RowFits (client_id, last) = (client_id < 2 ^ 64) × (last.seq < 2 ^ 64) × OutcomeFits last.outcome

  Reads-outcome : (o : Outcome) → OutcomeFits o → Reads (read_outcome lossy) (encode_outcome o) o
  unfolding read_outcome tagged encode_outcome
  Reads-outcome finished h =
      Reads-bind _ _ (0 ∷ []) [] 0 finished (Reads-u8 truncated 0) (Reads-pure finished)
  Reads-outcome (value none) h =
      Reads-bind _ _ (1 ∷ []) [] 1 (value none) (Reads-u8 truncated 1) (Reads-pure (value none))
  Reads-outcome (value (some v)) h =
      Reads-bind _ _ (2 ∷ []) (encode_bytes v) 2 (value (some v)) (Reads-u8 truncated 2)
        (Reads-map read_bytes _ (encode_bytes v) v (value (some v)) (Reads-bytes v h) refl)
  Reads-outcome (failed text) (h, valid) =
      Reads-bind _ _ (3 ∷ []) (encode_bytes text) 3 (failed text) (Reads-u8 truncated 3) (
        Reads-map read_bytes _ (encode_bytes text) text (failed text) (Reads-bytes text h)
          (ap failed valid))

  Reads-table :
      (table done : List (ℕ × LastApplied))
      → All RowFits table
      → AllFresh done table
      → Reads (read_table lossy (length table) done) (encode_table table) (done ++ table)
  unfolding read_table encode_table
  Reads-table [] done h fresh = rw append-nil (Reads-pure done)
  Reads-table ((client_id, last) ∷ table) done ((hc, hs, ho), h) (new, fresh) =
      Reads-bind u64 _ (word client_id) _ client_id _ (Reads-u64 truncated client_id hc) (
        Reads-bind u64 _ (word last.seq) _ last.seq _ (Reads-u64 truncated last.seq hs) (
          Reads-bind (read_outcome lossy) _ (encode_outcome last.outcome) _ last.outcome _
            (Reads-outcome last.outcome ho)
            (rw (insert_fresh client_id last done new)
              (rw append_assoc at (Reads-table table (done ++ ((client_id, last) ∷ [])) h fresh)))))

  Reads-image :
      (table : List (ℕ × LastApplied)) (pairs : List (Bytes × Bytes))
      → All RowFits table
      → AllFresh [] table
      → All PairFits pairs
      → length table < 2 ^ 64
      → length pairs < 2 ^ 64
      → Reads (read_image lossy) (encode_image table pairs) (table, pairs)
  unfolding read_image encode_image
  Reads-image table pairs rows fresh fits few_rows few_pairs =
      Reads-bind u64 _ (word (length table)) _ (length table) _
        (Reads-u64 truncated (length table) few_rows)
        (Reads-bind (read_table lossy (length table) []) _ (encode_table table) _ table _
          (Reads-table table [] rows fresh)
          (Reads-bind u64 _ (word (length pairs)) _ (length pairs) _
            (Reads-u64 truncated (length pairs) few_pairs)
            (Reads-map (read_pairs (length pairs) []) _ (encode_pairs pairs) pairs (table, pairs)
              (Reads-pairs pairs [] fits) refl)))

  -- For a table of distinct clients whose ids, sequence numbers and outcomes fit in 64 bits, with
  -- texts that are valid UTF-8, and for pairs that fit: what is written is read back, whatever
  -- follows it.
  pub decode_snapshot-encode_image :
      (table : List (ℕ × LastApplied)) (pairs : List (Bytes × Bytes)) (rest : Bytes)
      → All RowFits table
      → AllFresh [] table
      → All PairFits pairs
      → length table < 2 ^ 64
      → length pairs < 2 ^ 64
      → length (encode_image table pairs ++ rest) < 2 ^ 64
      → decode_snapshot lossy (encode_image table pairs ++ rest) ≡ ok (table, pairs)
  unfolding decode_snapshot
  decode_snapshot-encode_image table pairs rest rows fresh fits few_rows few_pairs small =
      let before : Before (record { buf = encode_image table pairs ++ rest; pos = 0 })
          (encode_image table pairs ++ rest) =
        record { small = small; inside = omega arith; ahead = refl } in
      let image = Reads-image table pairs rows fresh fits few_rows few_pairs in
      ap without_cursor (image.at _ rest before)

  -- Where the table of clients and the store of the first node fit the format, the client ids are
  -- distinct and the texts are valid UTF-8: after another node installs the snapshot of the first,
  -- it has the first's table of clients.
  pub dedup-install_snapshot-build_snapshot :
      {Db : Type 0} (sable : Engine Db) (from to : AppState Db)
      → All RowFits from.dedup
      → AllFresh [] from.dedup
      → All PairFits (read_pairs_of sable from.store from.keys)
      → length from.dedup < 2 ^ 64
      → length (read_pairs_of sable from.store from.keys) < 2 ^ 64
      → length (build_snapshot sable from) < 2 ^ 64
      → (install_snapshot sable lossy to (build_snapshot sable from)).dedup ≡ from.dedup
  unfolding install_snapshot build_snapshot
  dedup-install_snapshot-build_snapshot sable from to rows fresh fits few_rows few_pairs small =
      ground (
        arith,
        rw append-nil at (
            decode_snapshot-encode_image from.dedup (read_pairs_of sable from.store from.keys) []
              rows fresh fits few_rows few_pairs (rw append-nil small)),
      )
