-- ===== src/Raft/Log.antt =====
-- `Log` of raft/types.rs: a tail of entries on top of a snapshot boundary, addressed by absolute
-- index. The proofs are in the modules below.
pub mod Lookup
pub mod Edit
pub mod Terms
mod Runs
use mathlib.Core.Option
use murmur.Prelude.{
  ℕ, ◌+◌, ◌-◌, ◌<◌, Bool, ◌&&◌, Option, none, some, List, [], ◌∷◌, ◌++◌, length, get_elem?, take,
  drop, ltb, leb, ◌==◌, if◌then◌else◌, u64, min,
}
use murmur.Raft.Types.{Term, LogIndex, LogEntry}

pub record Log : Type 0 where
  pub entries : List LogEntry
  pub snapshot_index : LogIndex
  pub snapshot_term : Term

abbrev pub new : Log
new = record { entries = []; snapshot_index = 0; snapshot_term = 0 }

abbrev pub from_entries : List LogEntry → Log
from_entries es = record { entries = es; snapshot_index = 0; snapshot_term = 0 }

abbrev pub from_parts : LogIndex → Term → List LogEntry → Log
from_parts i t es = record { entries = es; snapshot_index = i; snapshot_term = t }

unfoldable pub len : Log → ℕ
len log = length log.entries

unfoldable pub last_index : Log → LogIndex
last_index log = u64 (log.snapshot_index + length log.entries)

unfoldable pub last_term_of : Term → List LogEntry → Term
last_term_of t [] = t
last_term_of t (e ∷ es) = last_term_of e.term es

unfoldable pub last_term : Log → Term
unfolding last_term_of
last_term log = last_term_of log.snapshot_term log.entries

-- The subtraction is under the test that its result is not negative.
unfoldable pub term_at : Log → LogIndex → Option Term
unfolding last_index
term_at log index =
    if index == log.snapshot_index
    then some log.snapshot_term
    else if ltb log.snapshot_index index && leb index (last_index log)
    then Option.map (λ e. e.term) (get_elem? log.entries (index - log.snapshot_index - 1))
    else none

-- `iter().position` and `iter().rposition`
unfoldable pub position : (LogEntry → Bool) → List LogEntry → Option ℕ
position p [] = none
position p (e ∷ es) = if p e then some 0 else Option.map (λ i. i + 1) (position p es)

unfoldable pub rposition : (LogEntry → Bool) → List LogEntry → Option ℕ
rposition p [] = none
rposition p (e ∷ es) = elim (rposition p es) [
  | some i ↦ some (i + 1)
  | none ↦ if p e then some 0 else none
]

unfoldable pub first_index_of_term : Log → Term → Option LogIndex
first_index_of_term log t =
    Option.map (λ i. u64 (log.snapshot_index + i + 1)) (position (λ e. e.term == t) log.entries)

unfoldable pub last_index_of_term : Log → Term → Option LogIndex
last_index_of_term log t =
    Option.map (λ i. u64 (log.snapshot_index + i + 1)) (rposition (λ e. e.term == t) log.entries)

unfoldable pub get : Log → LogIndex → Option LogEntry
unfolding last_index
get log index =
    if leb index log.snapshot_index
    then none
    else if ltb (last_index log) index
    then none
    else get_elem? log.entries (index - log.snapshot_index - 1)

unfoldable pub append : Log → LogEntry → Log × LogIndex
unfolding last_index
append log e =
    let grown = record log { entries = log.entries ++ (e ∷ []) } in (grown, last_index grown)

unfoldable pub entries_after : Log → LogIndex → List LogEntry
entries_after log index = drop (min (index - log.snapshot_index) (length log.entries)) log.entries

unfoldable pub truncate_after : Log → LogIndex → Log
truncate_after log index = record log { entries = take (index - log.snapshot_index) log.entries }

-- `self.term_at(i) == Some(t)`
abbrev pub has_term : Option Term → Term → Bool
has_term none t = Bool.false
has_term (some u) t = u == t

unfoldable pub compact : Log → LogIndex → Term → Log
unfolding term_at
compact log i t =
    if leb i log.snapshot_index
    then log
    else if leb i (last_index log) && has_term (term_at log i) t
    then from_parts i t (drop (i - log.snapshot_index) log.entries)
    else from_parts i t []
