-- ===== src/Prelude/Cursor.antt =====
-- Little-endian integers, and a bounds-checked forward cursor over bytes: what `Reader` of
-- raft/storage.rs and `SnapReader` of app.rs share. The error of a short input is a parameter.
pub mod Reads
use murmur.Prelude.Result.{Result, ok, err}
use murmur.Prelude.Tests.{ltb, leb, if◌then◌else◌}
use murmur.Prelude.Lists.{length, take, drop}
use Prim.Native.Nat.{ℕ, zero, suc, ◌+◌, ◌*◌, ◌/◌, ◌%◌, ◌^◌}
use mathlib.Core.Bool.{◌&&◌}
use mathlib.Core.List.{List, [], ◌∷◌}

-- The first `k` bytes of `v`, lowest first; `to_le_bytes` of a `u64` is `le_bytes 8`.
unfoldable pub le_bytes : ℕ → ℕ → List ℕ
le_bytes zero v = []
le_bytes (suc k) v = (v % 256) ∷ le_bytes k (v / 256)

unfoldable pub from_le_bytes : List ℕ → ℕ
from_le_bytes [] = 0
from_le_bytes (b ∷ bs) = b + 256 * from_le_bytes bs

-- `bytes[0]`, where there is one.
abbrev pub first : List ℕ → ℕ
first [] = 0
first (b ∷ bs) = b

pub record Cursor : Type 0 where
  pub buf : List ℕ
  pub pos : ℕ

-- A method of the cursor that may fail.
abbrev pub Read : Type 0 → Type 0 → Type 0
Read E A = Cursor → Result E (A × Cursor)

module _ {E A : Type 0} where
  abbrev pub pure : A → Read E A
  pure a r = ok (a, r)

  abbrev pub fail : E → Read E A
  fail e r = err e

module _ {E A B : Type 0} where
  abbrev next : (A → Read E B) → Result E (A × Cursor) → Result E (B × Cursor)
  next f (ok (a, r)) = f a r
  next f (err e) = err e

  infixl 5 ◌>>=◌
  abbrev pub ◌>>=◌ : Read E A → (A → Read E B) → Read E B
  ◌>>=◌ m f r = next f (m r)

module _ {E : Type 0} (truncated : ℕ → E) where
  -- `checked_add` refuses an end that is no `usize`.
  unfoldable pub take_bytes : ℕ → Read E (List ℕ)
  take_bytes n r =
      if ltb (r.pos + n) (2 ^ 64) && leb (r.pos + n) (length r.buf)
      then ok (take n (drop r.pos r.buf), record r { pos = r.pos + n })
      else err (truncated n)

  -- `self.take(1)?[0]`
  unfoldable pub read_u8 : Read E ℕ
  unfolding take_bytes
  read_u8 = do bytes ← take_bytes 1; pure (first bytes)

  unfoldable pub read_u64 : Read E ℕ
  unfolding take_bytes from_le_bytes
  read_u64 = do bytes ← take_bytes 8; pure (from_le_bytes bytes)
