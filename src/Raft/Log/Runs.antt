-- ===== src/Raft/Log/Runs.antt =====
-- Runs of the log's operations, and the theorems about them at concrete logs.
use murmur.Prelude.{◌+◌, ◌≡◌, ◌≢◌, refl, none, some, [], ◌∷◌, get_elem?, arith, inl}
use murmur.Raft.Types.{Term, LogEntry}
use murmur.Raft.Log
use murmur.Raft.Log.{Log}
use murmur.Raft.Log.Lookup.{get_elem?-entries_after, term_at_lem, term_of}
use murmur.Raft.Log.Terms.{index_of_term-none}

abbrev entry : Term → LogEntry
entry t = record { term = t; command = [] }

-- Terms 1, 4, 4, 6 at the indices 3 to 6, on a snapshot through index 2.
abbrev sample : Log
sample = Log.from_parts 2 1 (entry 1 ∷ entry 4 ∷ entry 4 ∷ entry 6 ∷ [])

compact_run : Log.compact sample 4 4 ≡ Log.from_parts 4 4 (entry 4 ∷ entry 6 ∷ [])
unfolding Log.compact
compact_run = refl

compact_beyond_run : Log.compact sample 9 7 ≡ Log.from_parts 9 7 []
unfolding Log.compact
compact_beyond_run = refl

first_run : Log.first_index_of_term sample 4 ≡ some 4
unfolding Log.first_index_of_term Log.position
first_run = refl

last_run : Log.last_index_of_term sample 4 ≡ some 5
unfolding Log.last_index_of_term Log.rposition
last_run = refl

absent_run : Log.first_index_of_term sample 5 ≡ none
unfolding Log.first_index_of_term Log.position
absent_run = refl

entries_after_run : Log.entries_after sample 4 ≡ entry 4 ∷ entry 6 ∷ []
unfolding Log.entries_after
entries_after_run = refl

get_elem?-entries_after_example :
    get_elem? (Log.entries_after sample 4) 1 ≡ Log.get sample (4 + 1 + 1)
get_elem?-entries_after_example = get_elem?-entries_after sample 4 1 (omega arith) (omega arith)

term_at_lem_example : Log.term_at sample 5 ≡ term_of (Log.get sample 5)
term_at_lem_example = term_at_lem sample 5 (omega arith)

index_of_term-none_example : (entry 6).term ≢ 5
unfolding Log.get
index_of_term-none_example =
    index_of_term-none sample 5 6 (entry 6) (omega arith) (inl absent_run) refl
