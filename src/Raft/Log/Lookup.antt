-- ===== src/Raft/Log/Lookup.antt =====
-- Reading `Log` of raft/types.rs: `last_index`, `term_at`, `get` and `entries_after` describe one
-- partial function from absolute indices to entries.
use murmur.Prelude.{
  ℕ, ◌+◌, ◌-◌, ◌^◌, ◌≤◌, ◌<◌, ◌≡◌, refl, ◌∙◌, Option, none, some, length, get_elem?, leb, ◌==◌,
  if◌then◌else◌, arith, get_elem?-ge, get_elem?-lt, get_elem?-drop, min,
}
use murmur.Raft.Types.{Term, LogIndex, LogEntry}
use murmur.Raft.Log.{Log, last_index, term_at, get, entries_after}

-- The last index is a `u64`, so `last_index` does not wrap.
abbrev pub Fits : Log → Type 0
Fits log = log.snapshot_index + length log.entries < 2 ^ 64

pub last_index_lem :
    (log : Log) → Fits log → last_index log ≡ log.snapshot_index + length log.entries
unfolding last_index
last_index_lem log h = omega arith

pub get_lem :
    (log : Log) (i : LogIndex)
    → Fits log
    → get log i ≡ (
        if leb i log.snapshot_index
        then none
        else get_elem? log.entries (i - log.snapshot_index - 1))
unfolding get
get_lem log i h = ground (arith, get_elem?-ge log.entries (i - log.snapshot_index - 1))

-- The indexing in `get` is in range.
pub get-some :
    (log : Log) (i : LogIndex)
    → Fits log
    → log.snapshot_index < i
    → i ≤ last_index log
    → (e : LogEntry) × (get log i ≡ some e)
get-some log i h lo hi =
    let (e, p) =
      get_elem?-lt log.entries (i - log.snapshot_index - 1) (omega (arith, last_index_lem log h)) in
    (e, get_lem log i h ∙ ground arith)

pub get_range :
    (log : Log) (i : LogIndex) (e : LogEntry)
    → get log i ≡ some e
    → (log.snapshot_index < i) × (i ≤ last_index log)
unfolding get
get_range log i e p = ground arith

pub get-none : (log : Log) (i : LogIndex) → last_index log < i → get log i ≡ none
unfolding get
get-none log i h = ground arith

pub get_covered : (log : Log) (i : LogIndex) → i ≤ log.snapshot_index → get log i ≡ none
unfolding get
get_covered log i h = ground arith

-- The term that `get` finds.
abbrev pub term_of : Option LogEntry → Option Term
term_of none = none
term_of (some e) = some e.term

-- `term_at` is the term of what `get` finds, and the snapshot's term at the boundary.
pub term_at_lem :
    (log : Log) (i : LogIndex)
    → Fits log
    → term_at log i
      ≡ (if i == log.snapshot_index then some log.snapshot_term else term_of (get log i))
unfolding term_at get
term_at_lem log i h = ground arith

pub term_at_above :
    (log : Log) (i : LogIndex)
    → Fits log
    → log.snapshot_index < i
    → term_at log i ≡ term_of (get log i)
term_at_above log i h above = ground (arith, term_at_lem log i h)

pub term_of-none : (o : Option LogEntry) → term_of o ≡ none → o ≡ none
term_of-none none h = refl
term_of-none (some e) h = cc

pub term_of-some :
    (o : Option LogEntry) (t : Term)
    → term_of o ≡ some t
    → (e : LogEntry) × (o ≡ some e) × (e.term ≡ t)
term_of-some none t h = cc
term_of-some (some e) t h = (e, refl, cc)

pub get_elem?-entries_after :
    (log : Log) (i : LogIndex) (k : ℕ)
    → Fits log
    → log.snapshot_index ≤ i
    → get_elem? (entries_after log i) k ≡ get log (i + 1 + k)
unfolding entries_after
get_elem?-entries_after log i k h lo =
    let n = min (i - log.snapshot_index) (length log.entries) in
    ground (
      arith,
      get_lem log (i + 1 + k) h,
      get_elem?-drop n log.entries k,
      get_elem?-ge log.entries (n + k),
      get_elem?-ge log.entries (i - log.snapshot_index + k),
    )
