-- ===== src/Raft/StateFile/Runs.antt =====
-- The file format at a concrete state, and the theorem about it.
use murmur.Prelude.{◌≡◌, refl, some, [], ◌∷◌, ◌++◌, arith}
use murmur.Prelude.Result.{ok, err}
use murmur.Prelude.Cursor.{le_bytes, from_le_bytes}
use murmur.Raft.Log
use murmur.Raft.StateFile.{PersistentState, trailing_bytes, encode, decode}
use murmur.Raft.StateFile.RoundTrip.{Encodable, decode-encode-append}

-- A log on a snapshot, a vote, and an entry with a command.
abbrev sample : PersistentState
sample = record {
  current_term = 3;
  voted_for = some 2;
  log = Log.from_parts 7 2 (record { term = 3; command = b'x' ∷ b'=' ∷ b'1' ∷ [] } ∷ []);
  snapshot = some (9 ∷ 9 ∷ []);
}

sample-Encodable : Encodable sample
unfolding encode le_bytes
sample-Encodable = omega arith

decode_run : decode (encode sample) ≡ ok sample
unfolding encode decode le_bytes from_le_bytes
decode_run = refl

decode-encode-append_example : decode (encode sample ++ (0 ∷ [])) ≡ err (trailing_bytes 1)
unfolding encode le_bytes
decode-encode-append_example = decode-encode-append sample (0 ∷ []) sample-Encodable (omega arith)
