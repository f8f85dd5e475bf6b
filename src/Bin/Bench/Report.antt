-- ===== src/Bin/Bench/Report.antt =====
-- bin/murmur-bench.rs: `report`, the latencies of a phase. The product of floats `n * p` as a `usize` is
-- a parameter; what floats print is left out.
pub mod Sorted
pub mod Ranks
use murmur.Prelude.{
  ℕ, zero, suc, ◌+◌, ◌-◌, ◌*◌, ◌/◌, ◌%◌, ◌^◌, ◌||◌, Option, none, some, List, [], ◌∷◌, length,
  get_elem?, min, ltb, leb, ◌==◌, if◌then◌else◌,
}
use murmur.Raft.Config.{Duration}

-- `sort_unstable` on numbers, between which no order of equals can be seen.
unfoldable pub insert_sorted : Duration → List Duration → List Duration
insert_sorted d [] = d ∷ []
insert_sorted d (x ∷ xs) = let rest = insert_sorted d xs in if leb d x then d ∷ x ∷ xs else x ∷ rest

unfoldable pub sort : List Duration → List Duration
sort [] = []
sort (x ∷ xs) = insert_sorted x (sort xs)

unfoldable pub total : List Duration → Duration
total [] = 0
total (x ∷ xs) = x + total xs

-- `sum::<Duration>() / n as u32`: the sum panics beyond the largest `Duration`, the division on 0.
unfoldable pub mean : List Duration → Option Duration
mean ds =
    let n = length ds % 2 ^ 32 in
    if leb (2 ^ 64 * 1000000000) (total ds) || n == 0 then none else some (total ds / n)

pub record Figures : Type 0 where
  pub count : ℕ
  pub average : Duration
  pub p50 : Duration
  pub p95 : Duration
  pub p99 : Duration
  pub longest : Duration

-- A panic ends the function.
infixl 5 ◌>>=◌
abbrev ◌>>=◌ : {A B : Type 0} → Option A → (A → Option B) → Option B
none >>= f = none
some a >>= f = f a

-- `scale n p` is `(n as f64 * p) as usize` for `p` in hundredths.
module _ (scale : ℕ → ℕ → ℕ) where
  -- Without a latency `n - 1` wraps or panics, and the index is out of range.
  unfoldable pub pct : List Duration → ℕ → Option Duration
  pct sorted p = get_elem? sorted (min (scale (length sorted) p) (length sorted - 1))

  unfoldable pub figures : List Duration → Option Duration → Option Figures
  figures sorted average = do
    average ← average
    p50 ← pct sorted 50
    p95 ← pct sorted 95
    p99 ← pct sorted 99
    longest ← get_elem? sorted (length sorted - 1)
    some (record {
      count = length sorted;
      average = average;
      p50 = p50;
      p95 = p95;
      p99 = p99;
      longest = longest;
    })

  -- `none` is a panic.
  unfoldable pub report : List Duration → Option Figures
  report latencies = let sorted = sort latencies in figures sorted (mean sorted)
