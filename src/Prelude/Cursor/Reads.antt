-- ===== src/Prelude/Cursor/Reads.antt =====
-- `Reads p bytes v`: from any place before `bytes`, `p` answers `v` and stops just behind them.
use Prim.Native.Nat.{ℕ, zero, suc, ◌+◌, ◌/◌, ◌^◌, ◌<◌, ◌≤◌}
use mathlib.Core.Path.{◌≡◌, refl, ap, ◌∙◌}
use mathlib.Core.List.{List, [], ◌∷◌, ◌++◌, append_assoc}
use native.Mathlib.Omega.{arith}
use native.Mathlib.Nat.{pow-suc}
use murmur.Prelude.Result.{ok}
use murmur.Prelude.Lists.{
  length, drop, length-append, length-drop, take_append_length, drop_append_length,
}
use murmur.Prelude.Cursor.{
  le_bytes, from_le_bytes, first, Cursor, Read, pure, ◌>>=◌, take_bytes, read_u8, read_u64,
}

abbrev pub remaining : Cursor → List ℕ
remaining r = drop r.pos r.buf

pub record Before (r : Cursor) (bytes : List ℕ) : Type 0 where
  pub small : length r.buf < 2 ^ 64
  pub inside : r.pos ≤ length r.buf
  pub ahead : remaining r ≡ bytes

abbrev pub advance : Cursor → ℕ → Cursor
advance r n = record r { pos = r.pos + n }

pub record Reads {E A : Type 0} (p : Read E A) (bytes : List ℕ) (v : A) : Type 0 where
  pub at :
      (r : Cursor) (rest : List ℕ)
      → Before r (bytes ++ rest)
      → p r ≡ ok (v, advance r (length bytes))

drop-drop : (m n : ℕ) (xs : List ℕ) → drop (m + n) xs ≡ drop n (drop m xs)
drop-drop zero n xs = ap (λ k. drop k xs) (omega arith)
drop-drop (suc m) zero [] = let e : suc m + 0 ≡ suc m = omega arith in rw e
drop-drop (suc m) (suc n) [] = let e : suc m + suc n ≡ suc (m + suc n) = omega arith in rw e
drop-drop (suc m) n (x ∷ xs) =
    let e : suc m + n ≡ suc (m + n) = omega arith in rw e (drop-drop m n xs)

pub length_ahead :
    (r : Cursor) (front back : List ℕ)
    → Before r (front ++ back)
    → r.pos + length front + length back ≡ length r.buf
length_ahead r front back h = omega (
  arith,
  h.inside,
  ap (λ (l : List ℕ). length l) h.ahead,
  length-drop r.pos r.buf,
  length-append front back,
)

pub advance-Before :
    (r : Cursor) (front back : List ℕ)
    → Before r (front ++ back)
    → Before (advance r (length front)) back
advance-Before r front back h = record {
  small = h.small;
  inside = omega (arith, length_ahead r front back h);
  ahead =
      drop-drop r.pos (length front) r.buf
      ∙ ap (drop (length front)) h.ahead
      ∙ drop_append_length front back;
}

advance-advance :
    (r : Cursor) (front back : List ℕ)
    → advance (advance r (length front)) (length back) ≡ advance r (length (front ++ back))
advance-advance r front back =
    ap (λ n. record r { pos = n }) (omega (arith, length-append front back))

module _ {E A : Type 0} where
  pub Reads-pure : (v : A) → Reads {E = E} (pure v) [] v
  Reads-pure v = record { at = λ r rest h. let e : r.pos + 0 ≡ r.pos = omega arith in rw e }

module _ {E A B : Type 0} where
  pub Reads-bind :
      (p : Read E A) (f : A → Read E B) (front back : List ℕ) (v : A) (w : B)
      → Reads p front v
      → Reads (f v) back w
      → Reads (p >>= f) (front ++ back) w
  Reads-bind p f front back v w hp hf = record {
    at = λ r rest h.
        let h' : Before r (front ++ (back ++ rest)) = rw append_assoc at h in
        rw (hp.at r (back ++ rest) h') (
          hf.at (advance r (length front)) rest (advance-Before r front (back ++ rest) h')
          ∙ ap (λ r'. ok (w, r')) (advance-advance r front back));
  }

module _ {E : Type 0} (truncated : ℕ → E) where
  pub Reads-take :
      (n : ℕ) (bytes : List ℕ) → length bytes ≡ n → Reads (take_bytes truncated n) bytes bytes
  Reads-take n bytes e = rw (← e) (record {
    at = λ r rest h.
        let fits = length_ahead r bytes rest h in
        unfold take_bytes in rw h.ahead (rw take_append_length (ground arith));
  })

pub length-le_bytes : (k v : ℕ) → length (le_bytes k v) ≡ k
unfolding le_bytes
length-le_bytes zero v = refl
length-le_bytes (suc k) v = ap suc (length-le_bytes k (v / 256))

from_le_bytes-le_bytes : (k v : ℕ) → v < 256 ^ k → from_le_bytes (le_bytes k v) ≡ v
unfolding le_bytes from_le_bytes
from_le_bytes-le_bytes zero v h = omega arith
from_le_bytes-le_bytes (suc k) v h =
    let smaller : v / 256 < 256 ^ k = omega (arith, pow-suc 256 k) in
    omega (arith, from_le_bytes-le_bytes k (v / 256) smaller)

module _ {E A B : Type 0} where
  pub Reads-map :
      (p : Read E A) (g : A → B) (bytes : List ℕ) (v : A) (w : B)
      → Reads p bytes v
      → g v ≡ w
      → Reads (p >>= λ a. pure (g a)) bytes w
  Reads-map p g bytes v w h e = record {
    at = λ r rest b. rw (h.at r rest b) (ap (λ x. ok (x, advance r (length bytes))) e);
  }

module _ {E : Type 0} (truncated : ℕ → E) where
  pub Reads-u64 : (v : ℕ) → v < 2 ^ 64 → Reads (read_u64 truncated) (le_bytes 8 v) v
  unfolding read_u64
  Reads-u64 v h =
      Reads-map (take_bytes truncated 8) from_le_bytes (le_bytes 8 v) (le_bytes 8 v) v
        (Reads-take truncated 8 (le_bytes 8 v) (length-le_bytes 8 v)) (from_le_bytes-le_bytes 8 v h)

  pub Reads-u8 : (v : ℕ) → Reads (read_u8 truncated) (v ∷ []) v
  unfolding read_u8
  Reads-u8 v =
      Reads-map (take_bytes truncated 1) first (v ∷ []) (v ∷ []) v
        (Reads-take truncated 1 (v ∷ []) refl) refl
