-- ===== src/Bin/Text/Parts.antt =====
-- Parts of texts of bin/: a separator is found where it first stands.
use murmur.Prelude.{
  ℕ, ◌<◌, ◌≡◌, ◌≢◌, ◌⊎◌, inl, inr, refl, ap, none, some, List, [], ◌∷◌, ◌++◌, ◌==◌, length, All,
  Bool-cases, arith,
}
use murmur.Raft.Types.{Bytes}
use murmur.Bin.Text.{split_once, split, grow}

abbrev pub Lacks : ℕ → Bytes → Type 0
Lacks sep s = All (λ c. c ≢ sep) s

decide_eq : (a b : ℕ) → (a ≡ b) ⊎ (a ≢ b)
decide_eq a b = elim (Bool-cases (a == b)) [
  | inl same ↦ inl (ground (arith, same))
  | inr other ↦ inr (ground (arith, other))
]

pub split_once-append :
    (head tail : Bytes) (sep : ℕ)
    → Lacks sep head
    → split_once (head ++ sep ∷ tail) sep ≡ some (head, tail)
unfolding split_once
split_once-append [] tail sep lacks = ground arith
split_once-append (c ∷ head) tail sep (other, others) =
    ground (arith, split_once-append head tail sep others, other)

-- Either the separator is nowhere, or the text is taken apart where it first stands.
pub split_once-cases :
    (s : Bytes) (sep : ℕ)
    → (Lacks sep s × (split_once s sep ≡ none))
      ⊎ ((head tail : Bytes) × (s ≡ head ++ sep ∷ tail)
          × Lacks sep head
          × (split_once s sep ≡ some (head, tail)))
unfolding split_once
split_once-cases [] sep = inl (tt, refl)
split_once-cases (c ∷ s) sep = elim (decide_eq c sep) [
  | inl here ↦ inr ([], s, rw here refl, tt, ground (arith, here))
  | inr other ↦ elim (split_once-cases s sep) [
    | inl (lacks, e) ↦ inl ((other, lacks), ground (arith, other, e))
    | inr (head, tail, parts, lacks, e) ↦
        inr (c ∷ head, tail, ap (λ rest. c ∷ rest) parts, (other, lacks), ground (arith, other, e))
  ]
]

length-grow : (c : ℕ) (parts : List Bytes) → 0 < length (grow c parts)
unfolding grow
length-grow c [] = omega arith
length-grow c (part ∷ parts) = omega arith

-- There is always a first part.
pub split_some : (s : Bytes) (sep : ℕ) → 0 < length (split s sep)
unfolding split
split_some [] sep = omega arith
split_some (c ∷ s) sep = ground (arith, length-grow c (split s sep))
