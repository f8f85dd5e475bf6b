-- ===== src/Bin/Bench/Report/Ranks.antt =====
-- bin/murmur-bench.rs: the figures of a report are in range and in order.
use mathlib.Core.Path.{subst}
use native.Mathlib.Nat.{div-le_of_le-mul}
use murmur.Prelude.{
  ℕ, suc, ◌+◌, ◌-◌, ◌*◌, ◌/◌, ◌%◌, ◌^◌, ◌≤◌, ◌<◌, ◌≡◌, refl, sym, some, List, [], ◌∷◌, length,
  get_elem?, get_elem?-lt, min, All, arith,
}
use murmur.Raft.Config.{Duration}
use murmur.Bin.Bench.Report.{sort, total, mean, Figures, pct, figures, report}
use murmur.Bin.Bench.Report.Sorted.{
  sort-IsSorted, All-sort, length-sort, total-sort, All-get_elem?, All-sort_back,
  get_elem?-IsSorted, below_last,
}

total-le : (m : ℕ) (xs : List ℕ) → All (λ x. x ≤ m) xs → total xs ≤ length xs * m
unfolding total
total-le m [] all = omega arith
total-le m (x ∷ xs) (first, others) =
    let e : suc (length xs) * m ≡ m + length xs * m = omega arith in
    rw e (omega (arith, first, total-le m xs others))

mean-some :
    (xs : List ℕ)
    → 0 < length xs
    → length xs < 2 ^ 32
    → total xs < 2 ^ 64 * 1000000000
    → mean xs ≡ some (total xs / length xs)
unfolding mean
mean-some xs some_one few short =
    let e : length xs % 2 ^ 32 ≡ length xs = omega (arith, few) in
    rw (mean, e) (ground (arith, some_one, short))

module _ (scale : ℕ → ℕ → ℕ) where
  report-some :
      (ds : List Duration) (p50 p95 p99 longest : Duration)
      → let s = sort ds in
        0 < length s
        → length s < 2 ^ 32
        → total s < 2 ^ 64 * 1000000000
        → pct scale s 50 ≡ some p50
        → pct scale s 95 ≡ some p95
        → pct scale s 99 ≡ some p99
        → get_elem? s (length s - 1) ≡ some longest
        → report scale ds
          ≡ some (record {
            count = length s;
            average = total s / length s;
            p50 = p50;
            p95 = p95;
            p99 = p99;
            longest = longest;
          })
  unfolding report figures
  report-some ds p50 p95 p99 longest some_one few short at50 at95 at99 last =
      rw (report, figures, mean-some (sort ds) some_one few short, at50, at95, at99, last) refl

  -- Of the latencies of a phase, at least one and fewer than 2 ^ 32, whose sum is a `Duration`, and where
  -- a larger percentage of their number is no smaller a number: the report does not panic. It counts
  -- them, its percentiles are latencies in order, the longest is one and no latency is above it, and
  -- the average is not above it either.
  pub report_lem :
      (ds : List Duration)
      → 0 < length ds
      → length ds < 2 ^ 32
      → total ds < 2 ^ 64 * 1000000000
      → scale (length ds) 50 ≤ scale (length ds) 95
      → scale (length ds) 95 ≤ scale (length ds) 99
      → (f : Figures) × (report scale ds ≡ some f)
        × (f.count ≡ length ds)
        × (f.p50 ≤ f.p95)
        × (f.p95 ≤ f.p99)
        × (f.p99 ≤ f.longest)
        × (f.average ≤ f.longest)
        × All (λ d. d ≤ f.longest) ds
        × ((P : Duration → Type 0) → All P ds → P f.p50 × P f.p95 × P f.p99 × P f.longest)
  unfolding pct
  report_lem ds some_one few short up up' =
      let s = sort ds in
      let n = length-sort ds in
      let at : (i : ℕ) → (d : Duration) × (get_elem? s (min i (length s - 1)) ≡ some d) =
        λ i. get_elem?-lt s (min i (length s - 1)) (omega (arith, n, some_one)) in
      let (p50, at50) = at (scale (length s) 50) in
      let (p95, at95) = at (scale (length s) 95) in
      let (p99, at99) = at (scale (length s) 99) in
      let (longest, last) = get_elem?-lt s (length s - 1) (omega (arith, n, some_one)) in
      let sorted = sort-IsSorted ds in
      let up50 = subst (λ k. scale k 50 ≤ scale k 95) (sym n) up in
      let up95 = subst (λ k. scale k 95 ≤ scale k 99) (sym n) up' in
      let below = below_last s longest sorted last in
      (
        record {
          count = length s;
          average = total s / length s;
          p50 = p50;
          p95 = p95;
          p99 = p99;
          longest = longest;
        },
        report-some ds p50 p95 p99 longest (omega (arith, n, some_one)) (omega (arith, n, few))
            (omega (arith, total-sort ds, short)) at50 at95 at99 last,
        n,
        get_elem?-IsSorted s _ _ p50 p95 sorted (omega (arith, up50)) at50 at95,
        get_elem?-IsSorted s _ _ p95 p99 sorted (omega (arith, up95)) at95 at99,
        get_elem?-IsSorted s _ _ p99 longest sorted (omega arith) at99 last,
        div-le_of_le-mul (length s) (total-le longest s below),
        All-sort_back (λ d. d ≤ longest) ds below,
        λ P all.
            let holds = All-sort P ds all in
            (
              All-get_elem? P s _ p50 holds at50,
              All-get_elem? P s _ p95 holds at95,
              All-get_elem? P s _ p99 holds at99,
              All-get_elem? P s _ longest holds last,
            ),
      )
