-- ===== src/Bin/Text.antt =====
-- The functions of the standard library that the programs of bin/ use on a `String`: its bytes in
-- UTF-8. A number is decimal.
pub mod Decimal
pub mod Parts
use Prim.Native.Char.{code}
use Prim.Native.String.{String}
use murmur.Prelude.{
  ℕ, zero, suc, ◌+◌, ◌-◌, ◌*◌, ◌/◌, ◌%◌, ◌^◌, ◌≡◌, refl, Bool, true, false, ◌&&◌, Option, none,
  some, List, [], ◌∷◌, length, map, ltb, leb, ◌==◌, if◌then◌else◌,
}
use murmur.Raft.Types.{Bytes}

-- A literal of the source, all of them ASCII.
abbrev pub codes : String → Bytes
codes String.[] = []
codes (String.◌∷◌ c s) = code c ∷ codes s

abbrev pub is_digit : ℕ → Bool
is_digit c = leb b'0' c && leb c b'9'

-- The digits of a number, with `checked_mul` and `checked_add`.
unfoldable pub scan : Bytes → ℕ → Option ℕ
scan [] n = some n
scan (c ∷ s) n =
    let m = n * 10 + (c - b'0') in
    let rest = scan s m in if is_digit c && ltb m (2 ^ 64) then rest else none

-- `parse::<u64>()`, and `parse::<usize>()` on a machine of 64 bits: one `+` may stand before the
-- digits. The kind of an error is dropped.
unfoldable pub parse_u64 : Bytes → Option ℕ
parse_u64 [] = none
parse_u64 (c ∷ []) = scan (c ∷ []) 0
parse_u64 (c ∷ d ∷ s) = if c == b'+' then scan (d ∷ s) 0 else scan (c ∷ d ∷ s) 0

-- `{}` on a `u64`, from the last digit on; twenty digits are enough.
unfoldable pub digits : ℕ → ℕ → Bytes → Bytes
digits zero n out = out
digits (suc fuel) n out =
    let digit = b'0' + n % 10 in
    let rest = digits fuel (n / 10) (digit ∷ out) in if ltb n 10 then digit ∷ out else rest

unfoldable pub display : ℕ → Bytes
display n = digits 20 n []

-- `split_once` at an ASCII character.
before : ℕ → Option (Bytes × Bytes) → Option (Bytes × Bytes)
before c none = none
before c (some (head, tail)) = some (c ∷ head, tail)

unfoldable pub split_once : Bytes → ℕ → Option (Bytes × Bytes)
unfolding before
split_once [] sep = none
split_once (c ∷ s) sep =
    let rest = split_once s sep in if c == sep then some ([], s) else before c rest

-- `split` at an ASCII character: always one part more than separators.
pub grow : ℕ → List Bytes → List Bytes
grow c [] = (c ∷ []) ∷ []
grow c (part ∷ parts) = (c ∷ part) ∷ parts

unfoldable pub split : Bytes → ℕ → List Bytes
unfolding grow
split [] sep = [] ∷ []
split (c ∷ s) sep = let rest = split s sep in if c == sep then [] ∷ rest else grow c rest

-- The characters of `char::is_whitespace`.
abbrev whitespace : List Bytes
whitespace =
    (9 ∷ [])
    ∷ (10 ∷ [])
    ∷ (11 ∷ [])
    ∷ (12 ∷ [])
    ∷ (13 ∷ [])
    ∷ (32 ∷ [])
    ∷ (194 ∷ 133 ∷ [])
    ∷ (194 ∷ 160 ∷ [])
    ∷ (225 ∷ 154 ∷ 128 ∷ [])
    ∷ (226 ∷ 128 ∷ 128 ∷ [])
    ∷ (226 ∷ 128 ∷ 129 ∷ [])
    ∷ (226 ∷ 128 ∷ 130 ∷ [])
    ∷ (226 ∷ 128 ∷ 131 ∷ [])
    ∷ (226 ∷ 128 ∷ 132 ∷ [])
    ∷ (226 ∷ 128 ∷ 133 ∷ [])
    ∷ (226 ∷ 128 ∷ 134 ∷ [])
    ∷ (226 ∷ 128 ∷ 135 ∷ [])
    ∷ (226 ∷ 128 ∷ 136 ∷ [])
    ∷ (226 ∷ 128 ∷ 137 ∷ [])
    ∷ (226 ∷ 128 ∷ 138 ∷ [])
    ∷ (226 ∷ 128 ∷ 168 ∷ [])
    ∷ (226 ∷ 128 ∷ 169 ∷ [])
    ∷ (226 ∷ 128 ∷ 175 ∷ [])
    ∷ (226 ∷ 129 ∷ 159 ∷ [])
    ∷ (227 ∷ 128 ∷ 128 ∷ [])
    ∷ []

unfoldable pub strip_prefix : Bytes → Bytes → Option Bytes
strip_prefix [] s = some s
strip_prefix (p ∷ ps) [] = none
strip_prefix (p ∷ ps) (c ∷ s) = let rest = strip_prefix ps s in if p == c then rest else none

first_of : Option Bytes → Option Bytes → Option Bytes
first_of none other = other
first_of (some rest) other = some rest

unfoldable pub strip_any : List Bytes → Bytes → Option Bytes
unfolding first_of
strip_any [] s = none
strip_any (w ∷ ws) s = first_of (strip_prefix w s) (strip_any ws s)

-- The fuel is the length: every round takes at least a byte.
unfoldable pub trim_front : List Bytes → ℕ → Bytes → Bytes
trim_front ws zero s = s
trim_front ws (suc fuel) s = elim (strip_any ws s) [
  | none ↦ s
  | some rest ↦ trim_front ws fuel rest
]

unfoldable pub reverse_onto : Bytes → Bytes → Bytes
reverse_onto [] out = out
reverse_onto (c ∷ s) out = reverse_onto s (c ∷ out)

abbrev reversed : Bytes → Bytes
reversed s = reverse_onto s []

unfoldable pub trim : Bytes → Bytes
unfolding strip_prefix strip_any trim_front reverse_onto
trim s =
    let front = trim_front whitespace (length s) s in
    reversed (trim_front (map reversed whitespace) (length front) (reversed front))

trim_run : trim (codes "  a b\t ") ≡ codes "a b"
unfolding trim
trim_run = refl

parse_run :
    (parse_u64 (codes "+007") ≡ some 7)
    × (parse_u64 (codes "+") ≡ none)
    × (parse_u64 (codes "18446744073709551616") ≡ none)
unfolding parse_u64 scan
parse_run = (refl, refl, refl)

split_run : split (codes "a,,b") b',' ≡ codes "a" ∷ [] ∷ codes "b" ∷ []
unfolding split
split_run = refl
