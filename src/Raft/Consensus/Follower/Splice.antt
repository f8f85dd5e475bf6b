-- ===== src/Raft/Consensus/Follower/Splice.antt =====
-- The loop of `handle_append_entries` in raft/consensus.rs over the log of raft/types.rs.
use murmur.Prelude.{
  ℕ, zero, suc, ◌+◌, ◌-◌, ◌^◌, ◌≤◌, ◌<◌, ◌≡◌, ◌≢◌, refl, sym, ap, ◌∙◌, Option, none, some, List, [],
  ◌∷◌, length, get_elem?, leb, ◌==◌, u64, max, arith, Bool-cases, leb→le, leb_false→lt, inl, inr,
  ==_iff,
}
use murmur.Raft.Types.{Term, LogIndex, LogEntry}
use murmur.Raft.Log
use murmur.Raft.Log.{Log}
use murmur.Raft.Log.Lookup.{
  Fits, get-some, get_range, get-none, term_of, term_of-none, term_of-some, term_at_above,
  last_index_lem,
}
use murmur.Raft.Log.Edit.{
  append-Fits, last_index-append, get-append, truncate_after-Fits, get-truncate_after,
  last_index-truncate_after,
}
use murmur.Raft.Consensus.Follower.{place, splice_one, splice}

-- What one round does to the log: entry `e` belongs at index `i`.
record Placed (log : Log) (i : LogIndex) (e : LogEntry) (log' : Log) : Type 0 where
  fits : Fits log'
  same_index : log'.snapshot_index ≡ log.snapshot_index
  same_term : log'.snapshot_term ≡ log.snapshot_term
  reaches : i ≤ Log.last_index log'
  bounded : Log.last_index log' ≤ max (Log.last_index log) i
  before : (j : LogIndex) → j < i → Log.get log' j ≡ Log.get log j
  here : log.snapshot_index < i → term_of (Log.get log' i) ≡ some e.term
  agreed : (log.snapshot_index < i → term_of (Log.get log i) ≡ some e.term) → log' ≡ log

module _ (log : Log) (i : LogIndex) (e : LogEntry) (h : Fits log) (small : i < 2 ^ 64)
    (near : i ≤ Log.last_index log + 1) where
  append_here :
      log.snapshot_index < i → Log.last_index log + 1 ≡ i → Placed log i e (Log.append log e).0
  append_here above end = record {
    fits = append-Fits log e h (omega arith);
    same_index = unfold Log.append in refl;
    same_term = unfold Log.append in refl;
    reaches = omega (arith, last_index-append log e h (omega arith));
    bounded = omega (arith, last_index-append log e h (omega arith));
    before = λ j lt. ground (arith, (get-append log e j h (omega arith)).1);
    here = λ _. ground (arith, (get-append log e i h (omega arith)).1);
    agreed = λ a. cc (a above, get-none log i (omega arith));
  }

  unchanged :
      i ≤ Log.last_index log
      → (log.snapshot_index < i → term_of (Log.get log i) ≡ some e.term)
      → Placed log i e log
  unchanged inside same = record {
    fits = h;
    same_index = refl;
    same_term = refl;
    reaches = inside;
    bounded = omega arith;
    before = λ j lt. refl;
    here = same;
    agreed = λ _. refl;
  }

module _ (log : Log) (i : LogIndex) (e : LogEntry) (h : Fits log) (small : i < 2 ^ 64) where
  -- A conflict: the log is cut before `i`, and the entry goes to its end.
  replaced :
      (t : Term)
      → log.snapshot_index < i
      → i ≤ Log.last_index log
      → term_of (Log.get log i) ≡ some t
      → t ≢ e.term
      → Placed log i e (Log.append (Log.truncate_after log (i - 1)) e).0
  replaced t above inside found differs =
      let cut = Log.truncate_after log (i - 1) in
      let cut_fits = truncate_after-Fits log (i - 1) h in
      let same : cut.snapshot_index ≡ log.snapshot_index = (unfold Log.truncate_after in refl) in
      let end : Log.last_index cut + 1 ≡ i =
        omega (arith, last_index-truncate_after log (i - 1) h) in
      let p = append_here cut i e cut_fits small (omega arith) (omega arith) end in
      record {
        fits = p.fits;
        same_index = p.same_index ∙ same;
        same_term = p.same_term ∙ (unfold Log.truncate_after in refl);
        reaches = p.reaches;
        bounded = omega (arith, p.bounded);
        before = λ j lt. p.before j lt ∙ ground (arith, get-truncate_after log (i - 1) j h);
        here = λ _. p.here (omega arith);
        agreed = λ a. absurd (differs (cc (a above)));
      }

module _ (log : Log) (i : LogIndex) (e : LogEntry) (h : Fits log) (small : i < 2 ^ 64)
    (near : i ≤ Log.last_index log + 1) where
  placed :
      (o : Option Term)
      → Log.term_at log i ≡ o
      → log.snapshot_index < i
      → Placed log i e (place o i e log)
  unfolding place
  placed none found above =
      let missing = term_of-none _ (sym (term_at_above log i h above) ∙ found) in
      append_here log i e h small near above (ground (arith, get-some log i h above, missing))
  placed (some t) found above =
      let (d, got, _) = term_of-some _ t (sym (term_at_above log i h above) ∙ found) in
      let inside = (get_range log i d got).1 in
      let term_found : term_of (Log.get log i) ≡ some t =
        sym (term_at_above log i h above) ∙ found in
      elim (Bool-cases (t == e.term)) [
        | inl same ↦ rw same (
            unchanged log i e h small near inside
              (λ _. term_found ∙ ap some ((==_iff t e.term).0 same)))
        | inr differs ↦ rw differs (
            replaced log i e h small t above inside term_found
              (λ q. ground (arith, (==_iff t e.term).1 q)))
      ]

  splice_one_lem : Placed log i e (splice_one i e log)
  unfolding splice_one
  splice_one_lem = elim (Bool-cases (leb i log.snapshot_index)) [
    | inl covered ↦ rw covered (
        unchanged log i e h small near (ground (arith, last_index_lem log h))
          (λ above. absurd (ground arith)))
    | inr above ↦ rw above (placed (Log.term_at log i) refl (ground arith))
  ]

-- The shape of the spliced log.
pub record Spliced (log : Log) (index : LogIndex) (es : List LogEntry) (log' : Log) : Type 0 where
  pub fits : Fits log'
  pub same_index : log'.snapshot_index ≡ log.snapshot_index
  pub same_term : log'.snapshot_term ≡ log.snapshot_term
  pub reaches : index + length es ≤ Log.last_index log'
  pub bounded : Log.last_index log' ≤ max (Log.last_index log) (index + length es)
  pub before : (j : LogIndex) → j ≤ index → Log.get log' j ≡ Log.get log j

u64_suc : (index : ℕ) → index + 1 < 2 ^ 64 → u64 (index + 1) ≡ index + 1
u64_suc index h = omega arith

shift_zero : (index : ℕ) → index + 1 + 0 ≡ index + 1
shift_zero index = omega arith

shift_suc : (index k : ℕ) → index + 1 + suc k ≡ index + 1 + 1 + k
shift_suc index k = omega arith

pub splice-Spliced :
    (es : List LogEntry) (index : LogIndex) (log : Log)
    → Fits log
    → index + length es < 2 ^ 64
    → index ≤ Log.last_index log
    → Spliced log index es (splice index es log)
unfolding splice
splice-Spliced [] index log h small near = record {
  fits = h;
  same_index = refl;
  same_term = refl;
  reaches = omega arith;
  bounded = omega arith;
  before = λ j lt. refl;
}
splice-Spliced (e ∷ es) index log h small near = rw (u64_suc index (omega arith)) (
    let p = splice_one_lem log (index + 1) e h (omega arith) (omega arith) in
    let q =
      splice-Spliced es (index + 1) (splice_one (index + 1) e log) p.fits (omega arith) p.reaches in
    record {
      fits = q.fits;
      same_index = q.same_index ∙ p.same_index;
      same_term = q.same_term ∙ p.same_term;
      reaches = omega (arith, q.reaches);
      bounded = omega (arith, q.bounded, p.bounded);
      before = λ j le. q.before j (omega arith) ∙ p.before j (omega arith);
    })

-- For a log and a message that fit in 64 bits, the message starting at or before the last index:
-- after the loop the log has each entry's term at that entry's index, where the snapshot does not
-- cover it.
pub splice_agrees :
    (es : List LogEntry) (index : LogIndex) (log : Log) (k : ℕ) (e : LogEntry)
    → Fits log
    → index + length es < 2 ^ 64
    → index ≤ Log.last_index log
    → get_elem? es k ≡ some e
    → log.snapshot_index < index + 1 + k
    → term_of (Log.get (splice index es log) (index + 1 + k)) ≡ some e.term
unfolding splice
splice_agrees [] index log k e h small near at above = cc
splice_agrees (d ∷ es) index log zero e h small near at above =
    rw (u64_suc index (omega arith), shift_zero index)
      (let p = splice_one_lem log (index + 1) d h (omega arith) (omega arith) in
        let q =
          splice-Spliced es (index + 1) (splice_one (index + 1) d log) p.fits (omega arith)
            p.reaches in
        ap term_of (q.before (index + 1) (omega arith)) ∙ p.here (omega arith) ∙ cc at)
splice_agrees (d ∷ es) index log (suc k) e h small near at above =
    rw (u64_suc index (omega arith), shift_suc index k)
      (let p = splice_one_lem log (index + 1) d h (omega arith) (omega arith) in
        splice_agrees es (index + 1) (splice_one (index + 1) d log) k e p.fits (omega arith)
          p.reaches at (omega (arith, p.same_index)))

-- The entries of a message, as far as `n`, have the terms that the log already has.
abbrev pub AgreesTo : LogIndex → Log → LogIndex → List LogEntry → Type 0
AgreesTo n log index es =
    (k : ℕ) (e : LogEntry)
    → get_elem? es k ≡ some e
    → log.snapshot_index < index + 1 + k
    → index + 1 + k ≤ n
    → term_of (Log.get log (index + 1 + k)) ≡ some e.term

-- For a log and a message that fit in 64 bits, the message starting at or before the last index:
-- what the message agrees with, up to an index of the log, is neither changed nor cut off.
pub splice_keeps :
    (es : List LogEntry) (index : LogIndex) (log : Log) (n : LogIndex)
    → Fits log
    → index + length es < 2 ^ 64
    → index ≤ Log.last_index log
    → n ≤ Log.last_index log
    → AgreesTo n log index es
    → (n ≤ Log.last_index (splice index es log))
      × ((j : LogIndex) → j ≤ n → Log.get (splice index es log) j ≡ Log.get log j)
unfolding splice
splice_keeps [] index log n h small near inside same = (inside, λ j le. refl)
splice_keeps (d ∷ es) index log n h small near inside same = elim (Bool-cases (leb (index + 1) n)) [
  | inr short ↦
      let q = splice-Spliced (d ∷ es) index log h small near in
      (
        omega (arith, leb_false→lt _ _ short, q.reaches),
        λ j le. q.before j (omega (arith, leb_false→lt _ _ short)),
      )
  | inl long ↦
      let p = splice_one_lem log (index + 1) d h (omega arith) (omega arith) in
      let unchanged_log : splice_one (index + 1) d log ≡ log = p.agreed (λ above.
        rw shift_zero at (same 0 d refl (omega arith) (omega (arith, leb→le _ _ long)))) in
      rw (u64_suc index (omega arith), unchanged_log)
        (splice_keeps es (index + 1) log n h (omega arith) (omega (arith, leb→le _ _ long)) inside
          (λ k e at above le. rw shift_suc at (same (suc k) e at (omega arith) (omega arith))))
]
