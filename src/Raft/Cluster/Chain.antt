-- ===== src/Raft/Cluster/Chain.antt =====
-- Logs as paths in the tree of all entries that were ever created: an entry is known by its index and
-- its term, which give its command and the term of the entry before it.
use mathlib.Core.Option.{some-injective, none-ne-some}
use mathlib.Core.Path.{subst}
use murmur.Prelude.{
  ℕ, zero, suc, ◌+◌, ◌≤◌, ◌≡◌, refl, sym, ap, ◌∙◌, Option, some, List, [], ◌∷◌, ◌++◌, length,
  get_elem?, take, drop, ◌==◌, Bool-cases, inl, inr, arith,
}
use murmur.Raft.Types.{Term, LogIndex, Bytes, LogEntry}
use murmur.Raft.Log.{last_term_of}

abbrev pub Made : Type 0
Made = LogIndex → Term → Option (Bytes × Term)

-- The entries behind index `p`, where the term is `t`.
abbrev pub Chain : Made → LogIndex → Term → List LogEntry → Type 0
Chain made p t [] = Unit
Chain made p t (e ∷ es) = (made (p + 1) e.term ≡ some (e.command, t)) × Chain made (p + 1) e.term es

abbrev pub Grows : Made → Made → Type 0
Grows made made' =
    (i : LogIndex) (t : Term) (x : Bytes × Term) → made i t ≡ some x → made' i t ≡ some x

pub Chain-Grows :
    (made made' : Made) (p : LogIndex) (t : Term) (es : List LogEntry)
    → Grows made made'
    → Chain made p t es
    → Chain made' p t es
Chain-Grows made made' p t [] g c = tt
Chain-Grows made made' p t (e ∷ es) g (h, c) =
    (g _ _ _ h, Chain-Grows made made' (p + 1) e.term es g c)

pub Chain-take :
    (made : Made) (n : ℕ) (p : LogIndex) (t : Term) (es : List LogEntry)
    → Chain made p t es
    → Chain made p t (take n es)
Chain-take made zero p t es c = tt
Chain-take made (suc n) p t [] c = tt
Chain-take made (suc n) p t (e ∷ es) (h, c) = (h, Chain-take made n (p + 1) e.term es c)

-- The term at an index, counted from the start of the list.
abbrev pub term_upto : Term → List LogEntry → ℕ → Term
term_upto t es n = last_term_of t (take n es)

pub Chain-drop :
    (made : Made) (n : ℕ) (p : LogIndex) (t : Term) (es : List LogEntry)
    → n ≤ length es
    → Chain made p t es
    → Chain made (p + n) (term_upto t es n) (drop n es)
unfolding last_term_of
Chain-drop made zero p t es h c = let at : p ≡ p + 0 = omega arith in rw at at c
Chain-drop made (suc n) p t [] h c = absurd (omega (arith, h))
Chain-drop made (suc n) p t (e ∷ es) h (_, c) =
    let at : p + 1 + n ≡ p + suc n = omega arith in
    rw at at (Chain-drop made n (p + 1) e.term es (omega (arith, h)) c)

pub Chain-append :
    (made : Made) (p : LogIndex) (t : Term) (es : List LogEntry) (e : LogEntry)
    → Chain made p t es
    → made (p + length es + 1) e.term ≡ some (e.command, last_term_of t es)
    → Chain made p t (es ++ (e ∷ []))
unfolding last_term_of
Chain-append made p t [] e c h = let at : p + 0 + 1 ≡ p + 1 = omega arith in (rw at at h, tt)
Chain-append made p t (d ∷ es) e (hd, c) h =
    let at : p + suc (length es) + 1 ≡ p + 1 + length es + 1 = omega arith in
    (hd, Chain-append made (p + 1) d.term es e c (rw at at h))

term_before : Term → List LogEntry → ℕ → Term
term_before t es zero = t
term_before t [] (suc k) = t
term_before t (e ∷ es) (suc k) = term_before e.term es k

get-Chain :
    (made : Made) (p : LogIndex) (t : Term) (es : List LogEntry) (k : ℕ) (e : LogEntry)
    → Chain made p t es
    → get_elem? es k ≡ some e
    → made (p + 1 + k) e.term ≡ some (e.command, term_before t es k)
unfolding term_before
get-Chain made p t [] k e c at = absurd (none-ne-some _ at)
get-Chain made p t (d ∷ es) zero e (h, c) at =
    let i : p + 1 + 0 ≡ p + 1 = omega arith in
    rw i (
      subst (λ (x : LogEntry). made (p + 1) x.term ≡ some (x.command, t)) (some-injective _ _ at) h)
get-Chain made p t (d ∷ es) (suc k) e (h, c) at =
    let i : p + 1 + 1 + k ≡ p + 1 + suc k = omega arith in
    rw i at (get-Chain made (p + 1) d.term es k e c at)

-- The term before a place is that of the entry at the place before.
term_before-get :
    (t : Term) (es : List LogEntry) (k : ℕ) (e : LogEntry)
    → get_elem? es k ≡ some e
    → term_before t es (suc k) ≡ e.term
unfolding term_before
term_before-get t [] k e at = absurd (none-ne-some _ at)
term_before-get t (d ∷ es) zero e at = ap (λ (x : LogEntry). x.term) (some-injective _ _ at)
term_before-get t (d ∷ es) (suc k) e at = term_before-get d.term es k e at

get-pred :
    (es : List LogEntry) (k : ℕ) (e : LogEntry)
    → get_elem? es (suc k) ≡ some e
    → (d : LogEntry) × (get_elem? es k ≡ some d)
get-pred [] k e at = absurd (none-ne-some _ at)
get-pred (d ∷ es) zero e at = (d, refl)
get-pred (d ∷ es) (suc k) e at = get-pred es k e at

module _ (made : Made) (as_ bs : List LogEntry) (ca : Chain made 0 0 as_)
    (cb : Chain made 0 0 bs) where
  -- One index and one term: one command, and one term before.
  same_node :
      (k : ℕ) (e f : LogEntry)
      → get_elem? as_ k ≡ some e
      → get_elem? bs k ≡ some f
      → e.term ≡ f.term
      → (e ≡ f) × (term_before 0 as_ k ≡ term_before 0 bs k)
  same_node k e f at_a at_b same =
      let x = get-Chain made 0 0 as_ k e ca at_a in
      let y = get-Chain made 0 0 bs k f cb at_b in
      let pair : (e.command, term_before 0 as_ k) ≡ (f.command, term_before 0 bs k) =
        some-injective _ _ (sym x ∙ ap (made (0 + 1 + k)) same ∙ y) in
      (λ i. record { term = same i; command = (pair i).0 }, ap (λ (q : Bytes × Term). q.1) pair)

  pub Chain-matching :
      (k : ℕ) (e f : LogEntry)
      → get_elem? as_ k ≡ some e
      → get_elem? bs k ≡ some f
      → e.term ≡ f.term
      → (j : ℕ) → j ≤ k
      → get_elem? as_ j ≡ get_elem? bs j
  Chain-matching zero e f at_a at_b same zero le =
      at_a ∙ ap some (same_node zero e f at_a at_b same).0 ∙ sym at_b
  Chain-matching zero e f at_a at_b same (suc j) le = absurd (omega (arith, le))
  Chain-matching (suc k) e f at_a at_b same j le = elim (Bool-cases (j == suc k)) [
    | inl here ↦
        let at : j ≡ suc k = ground (arith, here) in
        rw at (at_a ∙ ap some (same_node (suc k) e f at_a at_b same).0 ∙ sym at_b)
    | inr before ↦
        let (d, at_d) = get-pred as_ k e at_a in
        let (g, at_g) = get-pred bs k f at_b in
        Chain-matching k d g at_d at_g
          (sym (term_before-get 0 as_ k d at_d)
            ∙ (same_node (suc k) e f at_a at_b same).1
            ∙ term_before-get 0 bs k g at_g)
          j (ground (arith, before, le))
  ]
