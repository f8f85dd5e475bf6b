-- ===== src/Prelude/Result.antt =====
-- `Result<A, E>` of the standard library.
use mathlib.Core.Path.{◌≡◌, ap, subst}

pub data Result (E A : Type 0) : Type 0 where
  ok : A → Result E A
  err : E → Result E A

module _ {E A B : Type 0} where
  infixl 5 ◌>>=◌
  abbrev pub ◌>>=◌ : Result E A → (A → Result E B) → Result E B
  ok a >>= f = f a
  err e >>= f = err e

module _ {E A : Type 0} where
  ok_or : A → Result E A → A
  ok_or a (ok b) = b
  ok_or a (err e) = a

  pub ok-injective : {a b : A} → ◌≡◌ {A = Result E A} (ok a) (ok b) → a ≡ b
  unfolding ok_or
  ok-injective {a} e = ap (ok_or a) e

  abbrev IsErr : Result E A → Type 0
  IsErr (ok a) = ⊥
  IsErr (err e) = Unit

  pub err-ne-ok : {a : A} {e : E} → ◌≡◌ {A = Result E A} (err e) (ok a) → ⊥
  err-ne-ok h = subst IsErr h tt
