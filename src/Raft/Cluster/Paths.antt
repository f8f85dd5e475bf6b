-- ===== src/Raft/Cluster/Paths.antt =====
-- The logs of the nodes without snapshots as paths, and what extends them.
use mathlib.Core.Option
use mathlib.Core.Option.{some-injective, none-ne-some}
use murmur.Prelude.{
  ℕ, zero, suc, ◌+◌, ◌-◌, ◌^◌, ◌≤◌, ◌<◌, ◌≡◌, ◌⊎◌, inl, inr, refl, sym, ap, ◌∙◌, false, none, some,
  List, [], ◌∷◌, ◌++◌, length, get_elem?, get_elem?-ge, take, length-append, length-take,
  take_of_length-le, leb, ◌==◌, Bool-cases, Option-cases, u64, arith,
}
use murmur.Raft.Types.{Term, LogIndex, LogEntry}
use murmur.Raft.Log
use murmur.Raft.Log.{Log, last_term_of}
use murmur.Raft.Log.Lookup.{Fits}
use murmur.Raft.Consensus.Follower.{place, splice_one, splice}
use murmur.Raft.Cluster.Chain.{Made, Chain, Grows, Chain-Grows, Chain-take, Chain-append, term_upto}

pub record Rooted (made : Made) (log : Log) : Type 0 where
  pub index : log.snapshot_index ≡ 0
  pub term : log.snapshot_term ≡ 0
  pub fits : Fits log
  pub path : Chain made 0 0 log.entries

pub Rooted-Grows :
    (made made' : Made) (log : Log) → Grows made made' → Rooted made log → Rooted made' log
Rooted-Grows made made' log g r = record {
  index = r.index;
  term = r.term;
  fits = r.fits;
  path = Chain-Grows made made' 0 0 log.entries g r.path;
}

length_of_none : (es : List LogEntry) (n : ℕ) → get_elem? es n ≡ none → length es ≤ n
length_of_none [] n missing = omega arith
length_of_none (e ∷ es) zero missing = absurd (none-ne-some _ (sym missing))
length_of_none (e ∷ es) (suc n) missing = omega (arith, length_of_none es n missing)

pub term_at-entries :
    (log : Log) (n : ℕ)
    → log.snapshot_index ≡ 0
    → Fits log
    → Log.term_at log (n + 1) ≡ Option.map (λ e. e.term) (get_elem? log.entries n)
unfolding Log.term_at
term_at-entries log n zero_index fits = ground (arith, zero_index, fits, get_elem?-ge log.entries n)

length_of_some :
    (es : List LogEntry) (n : ℕ) (d : LogEntry) → get_elem? es n ≡ some d → n + 1 ≤ length es
length_of_some [] n d at = absurd (none-ne-some _ at)
length_of_some (e ∷ es) zero d at = omega arith
length_of_some (e ∷ es) (suc n) d at = omega (arith, length_of_some es n d at)

-- One round of the splice: the entry is there by its term, or it ends the log.
splice_one_cases :
    (log : Log) (n : ℕ) (e : LogEntry)
    → log.snapshot_index ≡ 0
    → Fits log
    → n ≤ length log.entries
    → ((splice_one (n + 1) e log ≡ log)
        × ((d : LogEntry) × (get_elem? log.entries n ≡ some d) × (d.term ≡ e.term)))
      ⊎ (splice_one (n + 1) e log ≡ record log { entries = take n log.entries ++ (e ∷ []) })
unfolding splice_one place Log.append Log.truncate_after
splice_one_cases log n e zero_index fits near =
    let below : leb (n + 1) log.snapshot_index ≡ false = ground (arith, zero_index) in
    let at = term_at-entries log n zero_index fits in
    let found : (d : LogEntry)
        → get_elem? log.entries n ≡ some d
        → Log.term_at log (n + 1) ≡ some d.term =
      λ d there. ground (arith, at, there) in
    elim (Option-cases (get_elem? log.entries n)) [
      | inl missing ↦
          let lost : Log.term_at log (n + 1) ≡ none = ground (arith, at, missing) in
          let whole = take_of_length-le n log.entries (length_of_none log.entries n missing) in
          inr (rw (splice_one, below, lost, place, whole) refl)
      | inr (d, there) ↦ elim (Bool-cases (d.term == e.term)) [
        | inl same ↦ inl (
          rw (splice_one, below, found d there, place, same) refl,
          (d, there, ground (arith, same)),
        )
        | inr differs ↦
            let cut : n + 1 - 1 - log.snapshot_index ≡ n = omega (arith, zero_index) in
            inr (rw (splice_one, below, found d there, place, differs, cut) refl)
      ]
    ]

last_term_of-append :
    (t : Term) (es : List LogEntry) (e : LogEntry) → last_term_of t (es ++ (e ∷ [])) ≡ e.term
unfolding last_term_of
last_term_of-append t [] e = refl
last_term_of-append t (d ∷ es) e = last_term_of-append d.term es e

pub term_upto-get :
    (t : Term) (es : List LogEntry) (n : ℕ) (d : LogEntry)
    → get_elem? es n ≡ some d
    → term_upto t es (n + 1) ≡ d.term
unfolding last_term_of
term_upto-get t [] n d at = absurd (none-ne-some _ at)
term_upto-get t (e ∷ es) zero d at = ap (λ (x : LogEntry). x.term) (some-injective _ _ at)
term_upto-get t (e ∷ es) (suc n) d at =
    let i : suc n + 1 ≡ suc (n + 1) = omega arith in rw i (term_upto-get e.term es n d at)

-- The log that ends with `e` behind its first `n` entries.
grown-Rooted :
    (made : Made) (log : Log) (n : ℕ) (e : LogEntry)
    → Rooted made log
    → n ≤ length log.entries
    → n + 1 < 2 ^ 64
    → made (n + 1) e.term ≡ some (e.command, term_upto 0 log.entries n)
    → let log' = record log { entries = take n log.entries ++ (e ∷ []) } in
      Rooted made log' × (length log'.entries ≡ n + 1) × (term_upto 0 log'.entries (n + 1) ≡ e.term)
grown-Rooted made log n e r near room there =
    let size = length-take n log.entries near in
    let total : length (take n log.entries ++ (e ∷ [])) ≡ n + 1 =
      omega (arith, length-append (take n log.entries) (e ∷ []), size) in
    let behind : 0 + length (take n log.entries) + 1 ≡ n + 1 = omega (arith, size) in
    (
      record {
        index = r.index;
        term = r.term;
        fits = omega (arith, total, r.index, room);
        path =
            Chain-append made 0 0 (take n log.entries) e (Chain-take made n 0 0 log.entries r.path)
              (rw behind there);
      },
      total,
      rw (take_of_length-le (n + 1) (take n log.entries ++ (e ∷ [])) (omega (arith, total)))
          (last_term_of-append 0 (take n log.entries) e),
    )

-- An entry of the tree at the place behind those that agree: the log stays a path, and has it.
splice_one-Rooted :
    (made : Made) (log : Log) (n : ℕ) (e : LogEntry)
    → Rooted made log
    → n ≤ length log.entries
    → n + 1 < 2 ^ 64
    → made (n + 1) e.term ≡ some (e.command, term_upto 0 log.entries n)
    → let log' = splice_one (n + 1) e log in
      Rooted made log' × (n + 1 ≤ length log'.entries) × (term_upto 0 log'.entries (n + 1) ≡ e.term)
splice_one-Rooted made log n e r near room there =
    elim (splice_one_cases log n e r.index r.fits near) [
      | inl (same, (d, at, term)) ↦
          rw same (r, length_of_some log.entries n d at, term_upto-get 0 log.entries n d at ∙ term)
      | inr grown ↦ rw grown (
          let (rooted, total, end) = grown-Rooted made log n e r near room there in
          (rooted, omega (arith, total), end))
    ]

pub splice-Rooted :
    (made : Made) (es : List LogEntry) (n : LogIndex) (log : Log)
    → Rooted made log
    → n ≤ length log.entries
    → n + length es < 2 ^ 64
    → Chain made n (term_upto 0 log.entries n) es
    → Rooted made (splice n es log)
unfolding splice
splice-Rooted made [] n log r near small c = r
splice-Rooted made (e ∷ es) n log r near small (there, c) =
    let next : u64 (n + 1) ≡ n + 1 = omega (arith, small) in
    let (r', near', end) = splice_one-Rooted made log n e r near (omega (arith, small)) there in
    rw next (
      splice-Rooted made es (n + 1) (splice_one (n + 1) e log) r' near' (omega (arith, small))
        (rw end c))
