-- ===== src/Raft/StateFile/RoundTrip.antt =====
-- What `encode` writes `decode` reads back.
use murmur.Prelude.{
  ℕ, ◌^◌, ◌<◌, ◌≡◌, refl, Option, none, some, List, [], ◌∷◌, ◌++◌, length, length-append,
  if◌then◌else◌, All, arith, ◌==◌, append-nil, append_assoc,
}
use murmur.Prelude.Result.{ok, err}
use murmur.Prelude.Cursor.Reads.{
  Reads, Reads-pure, Reads-bind, Reads-map, Reads-take, Before, Reads-u64, Reads-u8,
}
use murmur.Raft.Types.{NodeId, LogIndex, Term, Bytes, LogEntry}
use murmur.Raft.Log.{Log}
use murmur.Raft.StateFile.{
  PersistentState, truncated, trailing_bytes, word, encode, encode_vote, encode_snapshot,
  encode_entries, decode, decode_state, take_reader, u8, magic, version, snapshot_bytes,
  word_reader, decode_entry, decode_entries, decode_vote, decode_snapshot,
}

abbrev pub EntryFits : LogEntry → Type 0
EntryFits e = (e.term < 2 ^ 64) × (length e.command < 2 ^ 64)

Reads-entry :
    (e : LogEntry)
    → EntryFits e
    → Reads decode_entry (word e.term ++ (word (length e.command) ++ e.command)) e
unfolding decode_entry
Reads-entry e (ht, hc) =
    Reads-bind word_reader _ (word e.term) _ e.term e (Reads-u64 truncated e.term ht) (
      Reads-bind word_reader _ (word (length e.command)) e.command (length e.command) e
        (Reads-u64 truncated (length e.command) hc)
        (Reads-map (take_reader (length e.command)) _ e.command e.command e
          (Reads-take truncated (length e.command) e.command refl) refl))

Reads-entries :
    (es done : List LogEntry)
    → All EntryFits es
    → Reads (decode_entries (length es) done) (encode_entries es) (done ++ es)
unfolding decode_entries encode_entries
Reads-entries [] done h = rw append-nil (Reads-pure done)
Reads-entries (e ∷ es) done (he, hes) =
    Reads-bind decode_entry _ _ _ e (done ++ (e ∷ es)) (Reads-entry e he)
      (rw append_assoc at (Reads-entries es (done ++ (e ∷ [])) hes))

abbrev pub VoteFits : Option NodeId → Type 0
VoteFits none = Unit
VoteFits (some id) = id < 2 ^ 64

Reads-vote : (v : Option NodeId) → VoteFits v → Reads decode_vote (encode_vote v) v
unfolding decode_vote encode_vote
Reads-vote none h =
    Reads-bind u8 _ (0 ∷ []) (word 0) 0 none (Reads-u8 truncated 0)
      (Reads-map word_reader _ (word 0) 0 none (Reads-u64 truncated 0 (omega arith)) refl)
Reads-vote (some id) h =
    Reads-bind u8 _ (1 ∷ []) (word id) 1 (some id) (Reads-u8 truncated 1)
      (Reads-map word_reader _ (word id) id (some id) (Reads-u64 truncated id h) refl)

-- Without a snapshot the file keeps no boundary: the log must begin at index 1.
abbrev pub SnapshotFits : Log → Option Bytes → Type 0
SnapshotFits log none = (log.snapshot_index ≡ 0) × (log.snapshot_term ≡ 0)
SnapshotFits log (some bytes) =
    (log.snapshot_index < 2 ^ 64) × (log.snapshot_term < 2 ^ 64) × (length bytes < 2 ^ 64)

module _ (index : LogIndex) (term : Term) (len : ℕ) (o : Option Bytes) where
  Reads-block :
      (flag : ℕ) (tail : Bytes)
      → (index < 2 ^ 64) × (term < 2 ^ 64) × (len < 2 ^ 64)
      → Reads (snapshot_bytes flag len) tail o
      → Reads decode_snapshot
          ((flag ∷ []) ++ (word index ++ (word term ++ (word len ++ tail))))
          (index, term, o)
  unfolding decode_snapshot
  Reads-block flag tail (hi, ht, hl) h =
      Reads-bind u8 _ (flag ∷ []) _ flag (index, term, o) (Reads-u8 truncated flag)
        (Reads-bind word_reader _ (word index) _ index (index, term, o)
          (Reads-u64 truncated index hi)
          (Reads-bind word_reader _ (word term) _ term (index, term, o)
            (Reads-u64 truncated term ht)
            (Reads-bind word_reader _ (word len) _ len (index, term, o) (Reads-u64 truncated len hl)
              (Reads-map (snapshot_bytes flag len) _ tail o (index, term, o) h refl))))

Reads-snapshot :
    (log : Log) (o : Option Bytes)
    → SnapshotFits log o
    → Reads decode_snapshot (encode_snapshot log o) (log.snapshot_index, log.snapshot_term, o)
unfolding encode_snapshot snapshot_bytes
Reads-snapshot log none (hi, ht) =
    rw (hi, ht) (rw append-nil at (Reads-block 0 0 0 none 0 [] (omega arith) (Reads-pure none)))
Reads-snapshot log (some bytes) h =
    Reads-block log.snapshot_index log.snapshot_term (length bytes) (some bytes) 1 bytes h (
      Reads-map (take_reader (length bytes)) _ bytes bytes (some bytes)
        (Reads-take truncated (length bytes) bytes refl) refl)

-- What the file format can hold.
pub record Encodable (s : PersistentState) : Type 0 where
  pub term_fits : s.current_term < 2 ^ 64
  pub vote_fits : VoteFits s.voted_for
  pub snapshot_fits : SnapshotFits s.log s.snapshot
  pub count_fits : length s.log.entries < 2 ^ 64
  pub entries_fit : All EntryFits s.log.entries
  pub file_fits : length (encode s) < 2 ^ 64

Reads-state : (s : PersistentState) → Encodable s → Reads decode_state (encode s) s
unfolding decode_state encode
Reads-state s h = Reads-bind (take_reader 4) _ magic _ magic s (Reads-take truncated 4 magic refl) (
    Reads-bind u8 _ (version ∷ []) _ version s (Reads-u8 truncated version) (
      Reads-bind word_reader _ (word s.current_term) _ s.current_term s
        (Reads-u64 truncated s.current_term h.term_fits)
        (Reads-bind decode_vote _ (encode_vote s.voted_for) _ s.voted_for s
          (Reads-vote s.voted_for h.vote_fits)
          (Reads-bind decode_snapshot _ (encode_snapshot s.log s.snapshot) _ _ s
            (Reads-snapshot s.log s.snapshot h.snapshot_fits)
            (Reads-bind word_reader _ (word (length s.log.entries)) _ (length s.log.entries) s
              (Reads-u64 truncated (length s.log.entries) h.count_fits)
              (Reads-map (decode_entries (length s.log.entries) []) _ (encode_entries s.log.entries)
                s.log.entries s (Reads-entries s.log.entries [] h.entries_fit) refl))))))

start_Before :
    (bytes : Bytes) → length bytes < 2 ^ 64 → Before (record { buf = bytes; pos = 0 }) bytes
start_Before bytes h = record { small = h; inside = omega arith; ahead = refl }

-- For a state whose fields fit their widths, and a file that fits in 64 bits: decoding a file that
-- begins with the encoding gives the state if nothing follows, and otherwise reports how many
-- bytes follow.
pub decode-encode-append :
    (s : PersistentState) (rest : Bytes)
    → Encodable s
    → length (encode s ++ rest) < 2 ^ 64
    → decode (encode s ++ rest)
      ≡ (if length rest == 0 then ok s else err (trailing_bytes (length rest)))
unfolding decode
decode-encode-append s rest h small =
    rw ((Reads-state s h).at _ rest (start_Before (encode s ++ rest) small))
      (ground (arith, length-append (encode s) rest))

-- Any state that the format can hold is read back from its file as it was.
pub decode-encode : (s : PersistentState) → Encodable s → decode (encode s) ≡ ok s
decode-encode s h = rw append-nil at (decode-encode-append s [] h (rw append-nil h.file_fits))
