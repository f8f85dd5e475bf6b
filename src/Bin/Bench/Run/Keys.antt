-- ===== src/Bin/Bench/Run/Keys.antt =====
-- bin/murmur-bench.rs: every operation of a phase has a key of its own.
use mathlib.Core.Option.{some-injective}
use murmur.Prelude.{ℕ, ◌≡◌, sym, ap, ◌∙◌, some, [], ◌∷◌, ◌++◌, All, IsU64, arith}
use murmur.Raft.Types.{Bytes}
use murmur.Bin.Text.{display, split_once}
use murmur.Bin.Text.Decimal.{IsDigit, display-IsDigit, display-injective}
use murmur.Bin.Text.Parts.{Lacks, split_once-append}
use murmur.Bin.Bench.Run.{key_of}

IsDigit-Lacks : (s : Bytes) → All IsDigit s → Lacks b'-' s
IsDigit-Lacks [] h = tt
IsDigit-Lacks (c ∷ s) ((low, high), others) = (λ e. omega (arith, low, e), IsDigit-Lacks s others)

tail : Bytes → Bytes
tail [] = []
tail (c ∷ s) = s

-- Two operations of the benchmark, whose numbers are `usize`, use the same key only if they are the
-- same operation of the same client.
pub key_of-injective :
    (c i c' i' : ℕ)
    → IsU64 c
    → IsU64 i
    → IsU64 c'
    → IsU64 i'
    → key_of c i ≡ key_of c' i'
    → (c ≡ c') × (i ≡ i')
unfolding key_of tail
key_of-injective c i c' i' fc fi fc' fi' same =
    let parts : (n m : ℕ)
        → split_once (display n ++ b'-' ∷ b'k' ∷ display m) b'-'
          ≡ some (display n, b'k' ∷ display m) =
      λ n m.
        split_once-append (display n) (b'k' ∷ display m) b'-'
          (IsDigit-Lacks (display n) (display-IsDigit n)) in
    let pair =
      some-injective _ _
        (sym (parts c i) ∙ ap (λ s. split_once (tail s) b'-') same ∙ parts c' i') in
    (
      display-injective c c' fc fc' (ap (λ (p : Bytes × Bytes). p.0) pair),
      display-injective i i' fi fi' (ap (λ (p : Bytes × Bytes). tail p.1) pair),
    )
