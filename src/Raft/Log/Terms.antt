-- ===== src/Raft/Log/Terms.antt =====
-- `first_index_of_term` and `last_index_of_term` of raft/types.rs find the ends of a term's run.
use mathlib.Core.Option
use murmur.Prelude.{
  ℕ, zero, suc, ◌+◌, ◌-◌, ◌<◌, ◌≡◌, ◌≢◌, refl, ◌∙◌, ap, Bool, true, false, Option, none, some, List,
  [], ◌∷◌, length, get_elem?, ◌==◌, arith, inl, inr, ◌⊎◌, ==_iff, u64,
}
use murmur.Raft.Types.{Term, LogIndex, LogEntry}
use murmur.Raft.Log.{Log, get, position, rposition, first_index_of_term, last_index_of_term}
use murmur.Raft.Log.Lookup.{Fits, get_lem, get_range}

get_elem?_bound :
    (es : List LogEntry) (i : ℕ) (e : LogEntry) → get_elem? es i ≡ some e → i < length es
get_elem?_bound [] i e h = cc
get_elem?_bound (x ∷ xs) zero e h = omega arith
get_elem?_bound (x ∷ xs) (suc i) e h = omega (arith, get_elem?_bound xs i e h)

module _ (p : LogEntry → Bool) where
  position_at :
      (es : List LogEntry) (k : ℕ)
      → position p es ≡ some k
      → (e : LogEntry) × (get_elem? es k ≡ some e) × (p e ≡ true)
  unfolding position
  position_at [] k h = cc
  position_at (x ∷ xs) zero h = (x, refl, ground arith)
  position_at (x ∷ xs) (suc k) h = position_at xs k (ground arith)

  position_before :
      (es : List LogEntry) (k j : ℕ) (e : LogEntry)
      → position p es ≡ some k
      → j < k
      → get_elem? es j ≡ some e
      → p e ≡ false
  unfolding position
  position_before [] k j e h lt at = cc
  position_before (x ∷ xs) zero j e h lt at = absurd (omega arith)
  position_before (x ∷ xs) (suc k) zero e h lt at = ground arith
  position_before (x ∷ xs) (suc k) (suc j) e h lt at =
      position_before xs k j e (ground arith) (omega arith) at

  position-none :
      (es : List LogEntry) (j : ℕ) (e : LogEntry)
      → position p es ≡ none
      → get_elem? es j ≡ some e
      → p e ≡ false
  unfolding position
  position-none [] j e h at = cc
  position-none (x ∷ xs) zero e h at = ground arith
  position-none (x ∷ xs) (suc j) e h at = position-none xs j e (ground arith) at

  rposition-none :
      (es : List LogEntry) (j : ℕ) (e : LogEntry)
      → rposition p es ≡ none
      → get_elem? es j ≡ some e
      → p e ≡ false
  unfolding rposition
  rposition-none [] j e h at = cc
  rposition-none (x ∷ xs) zero e h at = ground arith
  rposition-none (x ∷ xs) (suc j) e h at = rposition-none xs j e (ground arith) at

  rposition_at :
      (es : List LogEntry) (k : ℕ)
      → rposition p es ≡ some k
      → (e : LogEntry) × (get_elem? es k ≡ some e) × (p e ≡ true)
  unfolding rposition
  rposition_at [] k h = cc
  rposition_at (x ∷ xs) zero h = (x, refl, ground arith)
  rposition_at (x ∷ xs) (suc k) h = rposition_at xs k (ground arith)

  rposition_after :
      (es : List LogEntry) (k j : ℕ) (e : LogEntry)
      → rposition p es ≡ some k
      → k < j
      → get_elem? es j ≡ some e
      → p e ≡ false
  unfolding rposition
  rposition_after [] k j e h lt at = cc
  rposition_after (x ∷ xs) k zero e h lt at = absurd (omega arith)
  rposition_after (x ∷ xs) zero (suc j) e h lt at = rposition-none xs j e (ground arith) at
  rposition_after (x ∷ xs) (suc k) (suc j) e h lt at =
      rposition_after xs k j e (ground arith) (omega arith) at

-- `get` reads the entry at a place of the tail.
get_of_elem :
    (log : Log) (k : ℕ) (e : LogEntry)
    → Fits log
    → get_elem? log.entries k ≡ some e
    → get log (u64 (log.snapshot_index + k + 1)) ≡ some e
get_of_elem log k e h at =
    let lt = get_elem?_bound log.entries k e at in
    let w : u64 (log.snapshot_index + k + 1) ≡ log.snapshot_index + k + 1 = omega arith in
    rw w (ground (arith, get_lem log (log.snapshot_index + k + 1) h))

-- Where `get` finds an entry, it is this one of the tail.
elem_of_get :
    (log : Log) (i : LogIndex) (e : LogEntry)
    → Fits log
    → get log i ≡ some e
    → get_elem? log.entries (i - log.snapshot_index - 1) ≡ some e
elem_of_get log i e h at = ground (arith, get_lem log i h)

map-some :
    (f : ℕ → ℕ) (o : Option ℕ) (b : ℕ)
    → Option.map f o ≡ some b
    → (a : ℕ) × (o ≡ some a) × (b ≡ f a)
map-some f none b h = cc
map-some f (some a) b h = (a, refl, cc)

map-none : (f : ℕ → ℕ) (o : Option ℕ) → Option.map f o ≡ none → o ≡ none
map-none f none h = refl
map-none f (some a) h = cc

-- For a log that fits in 64 bits, when it answers an index: the entry there has the term, and no
-- entry before it has it.
pub first_index_of_term-some :
    (log : Log) (t : Term) (i : LogIndex)
    → Fits log
    → first_index_of_term log t ≡ some i
    → ((e : LogEntry) × (get log i ≡ some e) × (e.term ≡ t))
      × ((j : LogIndex) (e : LogEntry) → j < i → get log j ≡ some e → e.term ≢ t)
unfolding first_index_of_term
first_index_of_term-some log t i h found =
    let has = λ (e : LogEntry). e.term == t in
    let (k, at, i_eq) = map-some _ (position has log.entries) i found in
    let (e, there, hit) = position_at has log.entries k at in
    (
      (e, ap (get log) i_eq ∙ get_of_elem log k e h there, (==_iff e.term t).0 hit),
      λ j d lt got.
          let tail = elem_of_get log j d h got in
          let miss =
            position_before has log.entries k (j - log.snapshot_index - 1) d at
              (omega (arith, get_elem?_bound log.entries k e there, get_range log j d got)) tail in
          λ same. ground (arith, (==_iff d.term t).1 same),
    )

-- For a log that fits in 64 bits, when it answers an index: the entry there has the term, and no
-- entry behind it has it.
pub last_index_of_term-some :
    (log : Log) (t : Term) (i : LogIndex)
    → Fits log
    → last_index_of_term log t ≡ some i
    → ((e : LogEntry) × (get log i ≡ some e) × (e.term ≡ t))
      × ((j : LogIndex) (e : LogEntry) → i < j → get log j ≡ some e → e.term ≢ t)
unfolding last_index_of_term
last_index_of_term-some log t i h found =
    let has = λ (e : LogEntry). e.term == t in
    let (k, at, i_eq) = map-some _ (rposition has log.entries) i found in
    let (e, there, hit) = rposition_at has log.entries k at in
    (
      (e, ap (get log) i_eq ∙ get_of_elem log k e h there, (==_iff e.term t).0 hit),
      λ j d lt got.
          let tail = elem_of_get log j d h got in
          let miss =
            rposition_after has log.entries k (j - log.snapshot_index - 1) d at
              (omega (arith, get_elem?_bound log.entries k e there, get_range log j d got)) tail in
          λ same. ground (arith, (==_iff d.term t).1 same),
    )

-- Either search fails only where no entry of the tail has the term.
pub index_of_term-none :
    (log : Log) (t : Term) (j : LogIndex) (e : LogEntry)
    → Fits log
    → (first_index_of_term log t ≡ none) ⊎ (last_index_of_term log t ≡ none)
    → get log j ≡ some e
    → e.term ≢ t
unfolding first_index_of_term last_index_of_term
index_of_term-none log t j e h (inl missing) got =
    let has = λ (d : LogEntry). d.term == t in
    let miss =
      position-none has log.entries (j - log.snapshot_index - 1) e (map-none _ _ missing)
        (elem_of_get log j e h got) in
    λ same. ground (arith, (==_iff e.term t).1 same)
index_of_term-none log t j e h (inr missing) got =
    let has = λ (d : LogEntry). d.term == t in
    let miss =
      rposition-none has log.entries (j - log.snapshot_index - 1) e (map-none _ _ missing)
        (elem_of_get log j e h got) in
    λ same. ground (arith, (==_iff e.term t).1 same)
