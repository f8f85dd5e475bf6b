-- ===== src/Raft/Log/Edit.antt =====
-- Changing `Log` of raft/types.rs: what each edit does to the function from indices to entries, and
-- that indices stay within a `u64`.
use murmur.Prelude.{
  ℕ, ◌+◌, ◌-◌, ◌^◌, ◌<◌, ◌≡◌, ◌∙◌, none, some, List, [], ◌∷◌, ◌++◌, zero, suc, length, get_elem?,
  leb, ltb, ◌==◌, ◌&&◌, if◌then◌else◌, arith, get_elem?-take, get_elem?-drop, min, max,
  length-append, length-take-min, length-take-le, length-drop,
}
use murmur.Raft.Types.{Term, LogIndex, LogEntry}
use murmur.Raft.Log.{Log, last_index, term_at, get, append, truncate_after, compact, has_term}
use murmur.Raft.Log.Lookup.{Fits, last_index_lem, get_lem}

get_elem?-append_one :
    (es : List LogEntry) (e : LogEntry) (i : ℕ)
    → get_elem? (es ++ (e ∷ [])) i ≡ (if i == length es then some e else get_elem? es i)
get_elem?-append_one [] e zero = ground arith
get_elem?-append_one [] e (suc i) = ground arith
get_elem?-append_one (x ∷ xs) e zero = ground arith
get_elem?-append_one (x ∷ xs) e (suc i) = ground (arith, get_elem?-append_one xs e i)

pub append-Fits :
    (log : Log) (e : LogEntry) → Fits log → last_index log + 1 < 2 ^ 64 → Fits (append log e).0
unfolding append
append-Fits log e h room = omega (arith, last_index_lem log h, length-append log.entries (e ∷ []))

pub last_index-append :
    (log : Log) (e : LogEntry)
    → Fits log
    → last_index log + 1 < 2 ^ 64
    → last_index (append log e).0 ≡ last_index log + 1
last_index-append log e h room =
    last_index_lem (append log e).0 (append-Fits log e h room)
    ∙ (unfold append in omega (arith, last_index_lem log h, length-append log.entries (e ∷ [])))

-- For a log with room for one more index: the entry goes to the index behind the last, which
-- `append` answers, and all other entries stay.
pub get-append :
    (log : Log) (e : LogEntry) (i : LogIndex)
    → Fits log
    → last_index log + 1 < 2 ^ 64
    → ((append log e).1 ≡ last_index log + 1)
      × (get (append log e).0 i ≡ (if i == last_index log + 1 then some e else get log i))
get-append log e i h room = (
  (unfold append in last_index-append log e h room),
  rw (get_lem (append log e).0 i (append-Fits log e h room)) (
      unfold append in
      ground (
        arith,
        get_lem log i h,
        last_index_lem log h,
        get_elem?-append_one log.entries e (i - log.snapshot_index - 1),
      )),
)

pub truncate_after-Fits : (log : Log) (i : LogIndex) → Fits log → Fits (truncate_after log i)
unfolding truncate_after
truncate_after-Fits log i h = omega (arith, length-take-le (i - log.snapshot_index) log.entries)

-- For a log that fits in 64 bits: truncation keeps the entries at or below the index, and none
-- above it.
pub get-truncate_after :
    (log : Log) (k i : LogIndex)
    → Fits log
    → get (truncate_after log k) i ≡ (if leb i k then get log i else none)
get-truncate_after log k i h = rw (get_lem (truncate_after log k) i (truncate_after-Fits log k h)) (
    unfold truncate_after in
    ground (
      arith,
      get_lem log i h,
      get_elem?-take (k - log.snapshot_index) log.entries (i - log.snapshot_index - 1),
    ))

pub compact-Fits :
    (log : Log) (i : LogIndex) (t : Term) → Fits log → i < 2 ^ 64 → Fits (compact log i t)
unfolding compact
compact-Fits log i t h hi =
    ground (arith, length-drop (i - log.snapshot_index) log.entries, last_index_lem log h)

-- For a log and an index that fit in 64 bits: compacting at or below the boundary changes no
-- entry; above it the entries up to the index go, and those behind it stay exactly if the log has
-- the given term at the index.
pub get-compact :
    (log : Log) (i : LogIndex) (t : Term) (j : LogIndex)
    → Fits log
    → i < 2 ^ 64
    → get (compact log i t) j ≡ (
        if leb i log.snapshot_index
        then get log j
        else if ltb i j && has_term (term_at log i) t
        then get log j
        else none)
get-compact log i t j h hi = rw (get_lem (compact log i t) j (compact-Fits log i t h hi)) (
    unfold compact in
    ground (
      arith,
      get_lem log j h,
      last_index_lem log h,
      get_elem?-drop (i - log.snapshot_index) log.entries (j - i - 1),
    ))

end-truncate_after :
    (log : Log) (k : LogIndex)
    → (truncate_after log k).snapshot_index + length (truncate_after log k).entries
      ≡ min (log.snapshot_index + length log.entries) (max k log.snapshot_index)
unfolding truncate_after
end-truncate_after log k = omega (arith, length-take-min (k - log.snapshot_index) log.entries)

pub last_index-truncate_after :
    (log : Log) (k : LogIndex)
    → Fits log
    → last_index (truncate_after log k) ≡ min (last_index log) (max k log.snapshot_index)
last_index-truncate_after log k h = omega (
  arith,
  last_index_lem (truncate_after log k) (truncate_after-Fits log k h),
  end-truncate_after log k,
  last_index_lem log h,
)

-- The last index after a compaction that is not stale.
pub last_index-compact :
    (log : Log) (i : LogIndex) (t : Term)
    → Fits log
    → i < 2 ^ 64
    → log.snapshot_index < i
    → last_index (compact log i t) ≡ (if has_term (term_at log i) t then last_index log else i)
last_index-compact log i t h hi lo =
    last_index_lem (compact log i t) (compact-Fits log i t h hi)
    ∙ (unfold compact in
        ground (arith, last_index_lem log h, length-drop (i - log.snapshot_index) log.entries))
