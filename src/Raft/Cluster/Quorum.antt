-- ===== src/Raft/Cluster/Quorum.antt =====
-- Two majorities of one membership have a member in common.
use murmur.Prelude.{
  ℕ, ◌+◌, ◌/◌, ◌≤◌, ◌<◌, ◌≡◌, ap, Bool, true, false, ◌&&◌, List, [], ◌∷◌, All, length, count, ◌==◌,
  Bool-cases, inl, inr, arith,
}
use murmur.Prelude.Maps.{member, insert_set}

-- No element stands twice.
abbrev pub Distinct : List ℕ → Type 0
Distinct [] = Unit
Distinct (x ∷ xs) = (member x xs ≡ false) × Distinct xs

pub insert_set-Distinct : (k : ℕ) (xs : List ℕ) → Distinct xs → Distinct (insert_set k xs)
unfolding insert_set
insert_set-Distinct k xs d = elim (Bool-cases (member k xs)) [
  | inl old ↦ rw old d
  | inr new ↦ rw new (new, d)
]

count-member-le :
    (a : ℕ) (xs members : List ℕ)
    → count (λ v. member v xs) members ≤ count (λ v. member v (a ∷ xs)) members
unfolding member
count-member-le a xs [] = omega arith
count-member-le a xs (m ∷ members) = ground (arith, count-member-le a xs members)

-- One more element that passes the test raises the count.
count-member-cons :
    (a : ℕ) (xs members : List ℕ)
    → member a members ≡ true
    → member a xs ≡ false
    → count (λ v. member v xs) members + 1 ≤ count (λ v. member v (a ∷ xs)) members
unfolding member
count-member-cons a xs [] inside new = cc
count-member-cons a xs (m ∷ members) inside new = elim (Bool-cases (a == m)) [
  | inl same ↦
      let at : a ≡ m = ground (arith, same) in
      ground (arith, same, new, ap (λ v. member v xs) at, count-member-le a xs members)
  | inr other ↦ ground (arith, other, inside, count-member-cons a xs members)
]

-- A list of distinct members is no longer than its members are many.
length-le-count :
    (xs members : List ℕ)
    → Distinct xs
    → All (λ x. member x members ≡ true) xs
    → length xs ≤ count (λ v. member v xs) members
length-le-count [] members d a = omega arith
length-le-count (x ∷ xs) members (new, d) (inside, a) =
    omega (arith, length-le-count xs members d a, count-member-cons x xs members inside new)

-- Where two tests pass more often together than there are members, some member passes both.
overlap :
    (p q : ℕ → Bool) (members : List ℕ)
    → length members < count p members + count q members
    → (v : ℕ) × (p v ≡ true) × (q v ≡ true)
overlap p q [] h = absurd (omega arith)
overlap p q (m ∷ members) h = elim (Bool-cases (p m && q m)) [
  | inl both ↦ (m, ground (arith, both), ground (arith, both))
  | inr not_both ↦ overlap p q members (ground (arith, not_both))
]

pub quorums_meet :
    (xs ys members : List ℕ)
    → Distinct xs
    → Distinct ys
    → All (λ x. member x members ≡ true) xs
    → All (λ y. member y members ≡ true) ys
    → length members / 2 + 1 ≤ length xs
    → length members / 2 + 1 ≤ length ys
    → (v : ℕ) × (member v xs ≡ true) × (member v ys ≡ true)
quorums_meet xs ys members dx dy ax ay hx hy =
    overlap (λ v. member v xs) (λ v. member v ys) members
      (omega (arith, length-le-count xs members dx ax, length-le-count ys members dy ay))
