-- ===== src/Bin/Bench/Report/Sorted.antt =====
-- bin/murmur-bench.rs: the latencies of a phase in order, and what is at their places.
use mathlib.Core.Option.{some-injective, none-ne-some}
use mathlib.Core.Path.{subst}
use murmur.Prelude.{
  ℕ, zero, suc, ◌+◌, ◌-◌, ◌≤◌, ◌≡◌, refl, some, List, [], ◌∷◌, length, get_elem?, leb, All,
  Bool-cases, inl, inr, arith,
}
use murmur.Raft.Config.{Duration}
use murmur.Bin.Bench.Report.{insert_sorted, sort, total}

-- What comes first is at most what follows.
abbrev IsSorted : List Duration → Type 0
IsSorted [] = Unit
IsSorted (x ∷ xs) = All (λ y. x ≤ y) xs × IsSorted xs

All-weaken : (a b : ℕ) (xs : List ℕ) → a ≤ b → All (λ y. b ≤ y) xs → All (λ y. a ≤ y) xs
All-weaken a b [] h all = tt
All-weaken a b (x ∷ xs) h (first, others) = (omega (arith, h, first), All-weaken a b xs h others)

All-insert_sorted :
    (P : ℕ → Type 0) (d : ℕ) (xs : List ℕ) → P d → All P xs → All P (insert_sorted d xs)
unfolding insert_sorted
All-insert_sorted P d [] h all = (h, tt)
All-insert_sorted P d (x ∷ xs) h (first, others) = elim (Bool-cases (leb d x)) [
  | inl before ↦ rw (insert_sorted, before) (h, (first, others))
  | inr after ↦ rw (insert_sorted, after) (first, All-insert_sorted P d xs h others)
]

insert_sorted-IsSorted : (d : ℕ) (xs : List ℕ) → IsSorted xs → IsSorted (insert_sorted d xs)
unfolding insert_sorted
insert_sorted-IsSorted d [] s = (tt, tt)
insert_sorted-IsSorted d (x ∷ xs) (least, s) = elim (Bool-cases (leb d x)) [
  | inl before ↦
      rw (insert_sorted, before)
        ((ground (arith, before), All-weaken d x xs (ground (arith, before)) least), (least, s))
  | inr after ↦
      rw (insert_sorted, after)
        (
          All-insert_sorted (λ y. x ≤ y) d xs (ground (arith, after)) least,
          insert_sorted-IsSorted d xs s,
        )
]

pub sort-IsSorted : (xs : List ℕ) → IsSorted (sort xs)
unfolding sort
sort-IsSorted [] = tt
sort-IsSorted (x ∷ xs) = insert_sorted-IsSorted x (sort xs) (sort-IsSorted xs)

pub All-sort : (P : ℕ → Type 0) (xs : List ℕ) → All P xs → All P (sort xs)
unfolding sort
All-sort P [] all = tt
All-sort P (x ∷ xs) (first, others) = All-insert_sorted P x (sort xs) first (All-sort P xs others)

length-insert_sorted : (d : ℕ) (xs : List ℕ) → length (insert_sorted d xs) ≡ suc (length xs)
unfolding insert_sorted
length-insert_sorted d [] = refl
length-insert_sorted d (x ∷ xs) = ground (arith, length-insert_sorted d xs)

pub length-sort : (xs : List ℕ) → length (sort xs) ≡ length xs
unfolding sort
length-sort [] = refl
length-sort (x ∷ xs) = omega (arith, length-insert_sorted x (sort xs), length-sort xs)

total-insert_sorted : (d : ℕ) (xs : List ℕ) → total (insert_sorted d xs) ≡ d + total xs
unfolding insert_sorted total
total-insert_sorted d [] = refl
total-insert_sorted d (x ∷ xs) = ground (arith, total-insert_sorted d xs)

pub total-sort : (xs : List ℕ) → total (sort xs) ≡ total xs
unfolding sort total
total-sort [] = refl
total-sort (x ∷ xs) = omega (arith, total-insert_sorted x (sort xs), total-sort xs)

pub All-get_elem? :
    (P : ℕ → Type 0) (xs : List ℕ) (i a : ℕ) → All P xs → get_elem? xs i ≡ some a → P a
All-get_elem? P [] i a all at = absurd (none-ne-some _ at)
All-get_elem? P (x ∷ xs) zero a (first, others) at = subst P (some-injective _ _ at) first
All-get_elem? P (x ∷ xs) (suc i) a (first, others) at = All-get_elem? P xs i a others at

All-from_get_elem? :
    (P : ℕ → Type 0) (xs : List ℕ) → ((i a : ℕ) → get_elem? xs i ≡ some a → P a) → All P xs
All-from_get_elem? P [] h = tt
All-from_get_elem? P (x ∷ xs) h = (h 0 x refl, All-from_get_elem? P xs (λ i a at. h (suc i) a at))

All-insert_sorted_back :
    (P : ℕ → Type 0) (d : ℕ) (xs : List ℕ) → All P (insert_sorted d xs) → P d × All P xs
unfolding insert_sorted
All-insert_sorted_back P d [] all = all
All-insert_sorted_back P d (x ∷ xs) all = elim (Bool-cases (leb d x)) [
  | inl before ↦ rw (insert_sorted, before) at all
  | inr after ↦
      let (first, others) : P x × All P (insert_sorted d xs) = rw (insert_sorted, after) at all in
      let (h, rest) = All-insert_sorted_back P d xs others in (h, (first, rest))
]

pub All-sort_back : (P : ℕ → Type 0) (xs : List ℕ) → All P (sort xs) → All P xs
unfolding sort
All-sort_back P [] all = tt
All-sort_back P (x ∷ xs) all =
    let (first, others) = All-insert_sorted_back P x (sort xs) all in
    (first, All-sort_back P xs others)

last_place : (xs : List ℕ) (i a : ℕ) → get_elem? xs i ≡ some a → i ≤ length xs - 1
last_place [] i a at = absurd (none-ne-some _ at)
last_place (x ∷ xs) zero a at = omega arith
last_place (x ∷ y ∷ xs) (suc i) a at = omega (arith, last_place (y ∷ xs) i a at)
last_place (x ∷ []) (suc i) a at = absurd (none-ne-some _ at)

-- In a sorted list a later place holds no less.
pub get_elem?-IsSorted :
    (xs : List ℕ) (i j a b : ℕ)
    → IsSorted xs
    → i ≤ j
    → get_elem? xs i ≡ some a
    → get_elem? xs j ≡ some b
    → a ≤ b
get_elem?-IsSorted [] i j a b s h at at' = absurd (none-ne-some _ at)
get_elem?-IsSorted (x ∷ xs) zero zero a b s h at at' = grind (arith, at, at')
get_elem?-IsSorted (x ∷ xs) zero (suc j) a b (least, s) h at at' =
    subst (λ c. c ≤ b) (some-injective _ _ at) (All-get_elem? (λ y. x ≤ y) xs j b least at')
get_elem?-IsSorted (x ∷ xs) (suc i) zero a b s h at at' = absurd (omega (arith, h))
get_elem?-IsSorted (x ∷ xs) (suc i) (suc j) a b (least, s) h at at' =
    get_elem?-IsSorted xs i j a b s (omega (arith, h)) at at'

pub below_last :
    (xs : List ℕ) (m : ℕ)
    → IsSorted xs
    → get_elem? xs (length xs - 1) ≡ some m
    → All (λ d. d ≤ m) xs
below_last xs m sorted last =
    All-from_get_elem? (λ d. d ≤ m) xs
      (λ i d h. get_elem?-IsSorted xs i (length xs - 1) d m sorted (last_place xs i d h) h last)
