-- ===== src/Raft/StateFile.antt =====
-- The persistent state of raft/storage.rs and its file format.
-- `Reader` is the cursor of Prelude/Cursor with the error `truncated`. A `usize` has 64 bits.
pub mod RoundTrip
mod Runs
use murmur.Prelude.Result.{Result, ok, err}
use murmur.Prelude.Cursor.{le_bytes, Cursor, Read, pure, fail, ◌>>=◌, take_bytes, read_u8, read_u64}
use murmur.Prelude.{
  ℕ, zero, suc, ◌-◌, Bool, true, Option, none, some, List, [], ◌∷◌, ◌++◌, length, take, ◌==◌,
  if◌then◌else◌,
}
use murmur.Raft.Types.{Term, LogIndex, NodeId, Bytes, LogEntry}
use murmur.Raft.Log
use murmur.Raft.Log.{Log}

pub record PersistentState : Type 0 where
  pub current_term : Term
  pub voted_for : Option NodeId
  pub log : Log
  pub snapshot : Option Bytes

abbrev pub default : PersistentState
default = record { current_term = 0; voted_for = none; log = Log.new; snapshot = none }

-- Why a state file is refused.
pub data Error : Type 0 where
  bad_magic : Error
  unsupported_version bad_vote_flag bad_snapshot_flag truncated trailing_bytes : ℕ → Error
  io_error : Error

abbrev pub magic : Bytes
magic = b'M' ∷ b'R' ∷ b'M' ∷ b'R' ∷ []

abbrev pub version : ℕ
version = 2

-- A `u64` as it is written, and bytes behind their length.
abbrev pub word : ℕ → Bytes
word = le_bytes 8

encode_vote : Option NodeId → Bytes
encode_vote (some id) = 1 ∷ word id
encode_vote none = 0 ∷ word 0

encode_snapshot : Log → Option Bytes → Bytes
encode_snapshot log (some bytes) =
    1 ∷ (word log.snapshot_index ++ (word log.snapshot_term ++ (word (length bytes) ++ bytes)))
encode_snapshot log none = 0 ∷ (word 0 ++ (word 0 ++ word 0))

encode_entries : List LogEntry → Bytes
encode_entries [] = []
encode_entries (e ∷ es) =
    (word e.term ++ (word (length e.command) ++ e.command)) ++ encode_entries es

unfoldable pub encode : PersistentState → Bytes
unfolding encode_vote encode_snapshot encode_entries
encode s =
    magic
    ++ ((version ∷ [])
        ++ (word s.current_term
            ++ (encode_vote s.voted_for
                ++ (encode_snapshot s.log s.snapshot
                    ++ (word (length s.log.entries) ++ encode_entries s.log.entries)))))

abbrev take_reader : ℕ → Read Error Bytes
take_reader = take_bytes truncated

abbrev u8 : Read Error ℕ
u8 = read_u8 truncated

abbrev word_reader : Read Error ℕ
word_reader = read_u64 truncated

-- `a != b` on byte strings.
same_bytes : Bytes → Bytes → Bool
same_bytes [] [] = true
same_bytes (a ∷ as') (b ∷ bs) = if a == b then same_bytes as' bs else Bool.false
same_bytes _ _ = Bool.false

check_magic : Bytes → Read Error (Unit {0})
unfolding same_bytes
check_magic bytes = if same_bytes bytes magic then pure tt else fail bad_magic

check_version : ℕ → Read Error (Unit {0})
check_version v = if v == version then pure tt else fail (unsupported_version v)

vote_of : ℕ → Read Error (Option NodeId)
vote_of flag =
    if flag == 0
    then (do _ ← word_reader; pure none)
    else if flag == 1
    then (do id ← word_reader; pure (some id))
    else fail (bad_vote_flag flag)

-- `match r.u8()? { .. }`
decode_vote : Read Error (Option NodeId)
unfolding vote_of
decode_vote = do flag ← u8; vote_of flag

snapshot_bytes : ℕ → ℕ → Read Error (Option Bytes)
snapshot_bytes flag len =
    if flag == 0
    then pure none
    else if flag == 1
    then (do bytes ← take_reader len; pure (some bytes))
    else fail (bad_snapshot_flag flag)

-- The snapshot block, from its flag to its bytes.
decode_snapshot : Read Error (LogIndex × Term × Option Bytes)
unfolding snapshot_bytes
decode_snapshot = do
  flag ← u8
  index ← word_reader
  term ← word_reader
  len ← word_reader
  snapshot ← snapshot_bytes flag len
  pure (index, term, snapshot)

decode_entry : Read Error LogEntry
decode_entry = do
  term ← word_reader
  len ← word_reader
  command ← take_reader len
  pure (record { term = term; command = command })

-- The loop `for _ in 0..count`, which pushes to `entries`.
decode_entries : ℕ → List LogEntry → Read Error (List LogEntry)
unfolding decode_entry
decode_entries zero entries = pure entries
decode_entries (suc n) entries = do entry ← decode_entry; decode_entries n (entries ++ (entry ∷ []))

decode_state : Read Error PersistentState
unfolding check_magic check_version decode_vote decode_snapshot decode_entries
decode_state = do
  head ← take_reader 4
  _ ← check_magic head
  v ← u8
  _ ← check_version v
  current_term ← word_reader
  voted_for ← decode_vote
  (snapshot_index, snapshot_term, snapshot) ← decode_snapshot
  count ← word_reader
  entries ← decode_entries count []
  pure (record {
    current_term = current_term;
    voted_for = voted_for;
    log = Log.from_parts snapshot_index snapshot_term entries;
    snapshot = snapshot;
  })

-- The test on trailing bytes stands between the loop and the result, which cannot fail.
check_end : Result Error (PersistentState × Cursor) → Result Error PersistentState
check_end (err e) = err e
check_end (ok (s, r)) =
    if r.pos == length r.buf then ok s else err (trailing_bytes (length r.buf - r.pos))

unfoldable pub decode : Bytes → Result Error PersistentState
unfolding decode_state check_end take_bytes read_u8 read_u64
decode bytes = check_end (decode_state (record { buf = bytes; pos = 0 }))
