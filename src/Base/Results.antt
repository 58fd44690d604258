-- ===== src/Base/Results.antt =====
-- Results of fallible calls, and calls that change the world.
use Prim.Native.String.{String}
use mathlib.Core.Path.{◌≡◌, refl}
use mathlib.Core.Logic.{◌⊎◌, inl, inr}
use mathlib.Core.Bool.{Bool, true, false}
use mathlib.Core.List.{List}
use sonic_operator.Base.Chars.{Text}
use sonic_operator.Base.Int.{ℤ}

-- An error or a message is kept as the format string that builds it and what the format is given.
pub data Arg : Type 0 where
  str : Text → Arg
  int : ℤ → Arg

-- `foreign` is an error of a library, by its text; `wrapf` is a format whose last verb is an error.
pub data Error : Type 0 where
  errorf : String → List Arg → Error
  wrapf : String → List Arg → Error → Error
  foreign : Text → Error

-- A pair (value, error) of which the code uses the one if the other is nil.
pub data Result {ℓ} (E A : Type ℓ) : Type ℓ where
  ok : A → Result E A
  err : E → Result E A

pub Result-cases {ℓ} :
    {E A : Type ℓ} (r : Result E A) → ((e : E) × (r ≡ err e)) ⊎ ((a : A) × (r ≡ ok a))
Result-cases (ok a) = inr (a, refl)
Result-cases (err e) = inl (e, refl)

-- What a call changes stays changed if the call fails, so the world stands beside the error too.
abbrev pub Exec {ℓ} : Type ℓ → Type ℓ → Type ℓ → Type ℓ
Exec W E A = W → Result E A × W

module _ {ℓ} {W E A : Type ℓ} where
  abbrev pub return : A → Exec W E A
  return a w = (ok a, w)

  abbrev pub fail : E → Exec W E A
  fail e w = (err e, w)

  -- A step that touches no state.
  abbrev pub lift : Result E A → Exec W E A
  lift r w = (r, w)

module _ {ℓ} {W E A B : Type ℓ} where
  abbrev pub continue : Result E A → (A → Exec W E B) → Exec W E B
  continue (ok a) f w = f a w
  continue (err e) f w = (err e, w)

  infixl 5 ◌>>=◌ ◌>>◌
  abbrev pub ◌>>=◌ : Exec W E A → (A → Exec W E B) → Exec W E B
  ◌>>=◌ m f w = continue (m w).0 f (m w).1

  abbrev pub ◌>>◌ : Exec W E A → Exec W E B → Exec W E B
  m >> n = m >>= λ _. n

module _ {ℓ} {E F A : Type ℓ} where
  abbrev pub map_err : (E → F) → Result E A → Result F A
  map_err f (ok a) = ok a
  map_err f (err e) = err (f e)

module _ {ℓ} {W E F A : Type ℓ} where
  -- A call whose error is wrapped.
  abbrev pub or_fail : (E → F) → Exec W E A → Exec W F A
  or_fail f m w = (map_err f (m w).0, (m w).1)

  -- A call whose error the code handles.
  abbrev pub attempt : Exec W E A → Exec W F (Result E A)
  attempt m w = (ok (m w).0, (m w).1)

module _ {ℓ} {W E : Type ℓ} where
  -- if test { return err }
  abbrev pub reject : Bool → E → Exec W E (Unit {ℓ})
  reject true e w = (err e, w)
  reject false e w = (ok tt, w)
