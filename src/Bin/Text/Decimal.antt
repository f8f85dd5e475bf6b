-- ===== src/Bin/Text/Decimal.antt =====
-- Numbers of bin/: what is printed is read back.
use mathlib.Core.List.{cons-ne-nil}
use mathlib.Core.Option.{some-injective}
use murmur.Prelude.{
  ℕ, zero, suc, ◌+◌, ◌/◌, ◌%◌, ◌^◌, ◌≤◌, ◌<◌, ◌≡◌, ◌≢◌, refl, sym, ap, ◌∙◌, some, [], ◌∷◌, All,
  IsU64, arith,
}
use murmur.Raft.Types.{Bytes}
use murmur.Bin.Text.{scan, parse_u64, digits, display}

abbrev pub IsDigit : ℕ → Type 0
IsDigit c = (b'0' ≤ c) × (c ≤ b'9')

scan-digits :
    (fuel n : ℕ) (out : Bytes) → n < 10 ^ fuel → IsU64 n → scan (digits fuel n out) 0 ≡ scan out n
unfolding digits scan
scan-digits zero n out short fits = ground (arith, short)
scan-digits (suc fuel) n out short fits =
    let ih =
      scan-digits fuel (n / 10) ((b'0' + n % 10) ∷ out) (omega (arith, short))
        (omega (arith, fits)) in
    ground (arith, ih, fits)

-- The text of a number is some digits, and nothing else.
pub digits-IsDigit : (fuel n : ℕ) (out : Bytes) → All IsDigit out → All IsDigit (digits fuel n out)
unfolding digits
digits-IsDigit zero n out h = h
digits-IsDigit (suc fuel) n out h =
    ground (arith, digits-IsDigit fuel (n / 10) ((b'0' + n % 10) ∷ out), h)

digits-ne-nil : (fuel n : ℕ) (out : Bytes) → out ≢ [] → digits fuel n out ≢ []
unfolding digits
digits-ne-nil zero n out h = h
digits-ne-nil (suc fuel) n out h = ground (
  arith,
  digits-ne-nil fuel (n / 10) ((b'0' + n % 10) ∷ out) (cons-ne-nil (b'0' + n % 10) out),
  h,
)

pub display-IsDigit : (n : ℕ) → All IsDigit (display n)
unfolding display
display-IsDigit n = digits-IsDigit 20 n [] tt

display-ne-nil : (n : ℕ) → display n ≢ []
unfolding display digits
display-ne-nil n = ground (
  arith,
  cons-ne-nil (b'0' + n % 10) [],
  digits-ne-nil 19 (n / 10) ((b'0' + n % 10) ∷ []) (cons-ne-nil (b'0' + n % 10) []),
)

-- A digit is not a sign.
parse_u64-digits : (s : Bytes) → s ≢ [] → All IsDigit s → parse_u64 s ≡ scan s 0
unfolding parse_u64
parse_u64-digits [] h all_digits = absurd (h refl)
parse_u64-digits (c ∷ []) h all_digits = refl
parse_u64-digits (c ∷ d ∷ s) h (first, others) = ground (arith, first)

pub parse_u64-display : (n : ℕ) → IsU64 n → parse_u64 (display n) ≡ some n
unfolding display scan
parse_u64-display n fits =
    rw (parse_u64-digits (display n) (display-ne-nil n) (display-IsDigit n))
      (scan-digits 20 n [] (omega (arith, fits)) fits)

pub display-injective : (m n : ℕ) → IsU64 m → IsU64 n → display m ≡ display n → m ≡ n
display-injective m n fm fn same =
    some-injective _ _ (sym (parse_u64-display m fm) ∙ ap parse_u64 same ∙ parse_u64-display n fn)
