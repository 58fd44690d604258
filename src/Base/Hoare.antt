-- ===== src/Base/Hoare.antt =====
-- Pre- and postconditions of calls, on success and on failure, with a rule for each way to build one.
use mathlib.Core.Path.{◌≡◌, refl, subst}
use mathlib.Core.Bool.{Bool, true, false}
use sonic_operator.Base.Results.{
  Result, ok, err, Exec, return, fail, lift, attempt, or_fail, reject, ◌>>=◌, map_err, continue,
}

module _ {W E A : Type 0} where
  abbrev pub Post : (A → W → Type 0) → (E → W → Type 0) → Result E A → W → Type 0
  Post Q X (ok a) w = Q a w
  Post Q X (err e) w = X e w

  -- From a world with `P` the call ends in one with `Q`, or fails in one with `X`.
  pub record Ends (P : W → Type 0) (m : Exec W E A) (Q : A → W → Type 0) (X : E → W → Type 0)
      : Type 0 where
    pub at : (w : W) → P w → Post Q X (m w).0 (m w).1

module _ {W E A : Type 0} (Q : A → W → Type 0) (X : E → W → Type 0) where
  pub lift-Post :
      (r : Result E A) (w : W)
      → ((a : A) → r ≡ ok a → Q a w)
      → ((e : E) → r ≡ err e → X e w)
      → Post Q X r w
  lift-Post (ok a) w h k = h a refl
  lift-Post (err e) w h k = k e refl

module _ {W E A B : Type 0} (Q : A → W → Type 0) (R : B → W → Type 0) (X : E → W → Type 0) where
  continue-Post :
      (f : A → Exec W E B) (r : Result E A) (w : W)
      → Post Q X r w
      → ((a : A) → Ends (Q a) (f a) R X)
      → Post R X (continue r f w).0 (continue r f w).1
  continue-Post f (ok a) w p h = (h a).at w p
  continue-Post f (err e) w p h = p

module _ {W E F A : Type 0} (Q : A → W → Type 0) (X : F → W → Type 0) where
  map_err-Post :
      (f : E → F) (r : Result E A) (w : W) → Post Q (λ e. X (f e)) r w → Post Q X (map_err f r) w
  map_err-Post f (ok a) w p = p
  map_err-Post f (err e) w p = p

module _ {W E : Type 0} (Q : Unit {0} → W → Type 0) (X : E → W → Type 0) where
  reject-Post :
      (b : Bool) (e : E) (w : W)
      → (b ≡ true → X e w)
      → (b ≡ false → Q tt w)
      → Post Q X (reject b e w).0 (reject b e w).1
  reject-Post true e w h k = h refl
  reject-Post false e w h k = k refl

module _ {W E A : Type 0} {P : W → Type 0} {Q : A → W → Type 0} {X : E → W → Type 0} where
  pub Ends-return : (a : A) → ((w : W) → P w → Q a w) → Ends P (return a) Q X
  Ends-return a h = record { at = h }

  pub Ends-fail : (e : E) → ((w : W) → P w → X e w) → Ends P (fail e) Q X
  Ends-fail e h = record { at = h }

  pub Ends-lift :
      (r : Result E A)
      → ((a : A) (w : W) → r ≡ ok a → P w → Q a w)
      → ((e : E) (w : W) → r ≡ err e → P w → X e w)
      → Ends P (lift r) Q X
  Ends-lift r h k = record { at = λ w p. lift-Post Q X r w (λ a x. h a w x p) (λ e x. k e w x p) }

module _ {W E A : Type 0} {T : Type 0} {Q : A → W → Type 0} {X : E → W → Type 0} where
  -- What does not depend on the world is a hypothesis.
  pub Ends-given : (m : Exec W E A) → (T → Ends (λ w. Unit {0}) m Q X) → Ends (λ w. T) m Q X
  Ends-given m h = record { at = λ w t. (h t).at w tt }

module _ {W E A B : Type 0} {P : W → Type 0} {R : B → W → Type 0} {X : E → W → Type 0} where
  pub Ends-bind :
      (Q : A → W → Type 0) (m : Exec W E A) (f : A → Exec W E B)
      → Ends P m Q X
      → ((a : A) → Ends (Q a) (f a) R X)
      → Ends P (m >>= f) R X
  Ends-bind Q m f h k = record { at = λ w p. continue-Post Q R X f (m w).0 (m w).1 (h.at w p) k }

module _ {W E F A : Type 0} {P : W → Type 0} {Q : A → W → Type 0} where
  pub Ends-or_fail :
      {X : F → W → Type 0} (f : E → F) (m : Exec W E A)
      → Ends P m Q (λ e. X (f e))
      → Ends P (or_fail f m) Q X
  Ends-or_fail {X} f m h = record { at = λ w p. map_err-Post Q X f (m w).0 (m w).1 (h.at w p) }

  pub Ends-attempt :
      {X : E → W → Type 0} {Y : F → W → Type 0} (m : Exec W E A)
      → Ends P m Q X
      → Ends P (attempt m) (λ r. Post Q X r) Y
  Ends-attempt m h = record { at = h.at }

module _ {W E : Type 0} {P : W → Type 0} {Q : Unit {0} → W → Type 0} {X : E → W → Type 0} where
  pub Ends-reject :
      (b : Bool) (e : E)
      → ((w : W) → b ≡ true → P w → X e w)
      → ((w : W) → b ≡ false → P w → Q tt w)
      → Ends P (reject b e) Q X
  Ends-reject b e h k = record { at = λ w p. reject-Post Q X b e w (λ x. h w x p) (λ x. k w x p) }

module _ {W E A : Type 0} {P : W → Type 0} {X : E → W → Type 0} where
  -- What follows a call is used on success.
  pub Ends-ok :
      {Q : A → W → Type 0} (m : Exec W E A) (w : W) {a : A}
      → Ends P m Q X
      → P w
      → (m w).0 ≡ ok a
      → Q a (m w).1
  Ends-ok {Q} m w {a} h p e = subst (λ r. Post Q X r (m w).1) e (h.at w p)

  pub Ends-err :
      {Q : A → W → Type 0} (m : Exec W E A) (w : W) {x : E}
      → Ends P m Q X
      → P w
      → (m w).0 ≡ err x
      → X x (m w).1
  Ends-err {Q} m w {x} h p e = subst (λ r. Post Q X r (m w).1) e (h.at w p)

module _ {W E A : Type 0} {P : W → Type 0} (Q Q' : A → W → Type 0) (X X' : E → W → Type 0) where
  pub Ends-weaken :
      (m : Exec W E A)
      → ((a : A) (w : W) → Q a w → Q' a w)
      → ((e : E) (w : W) → X e w → X' e w)
      → Ends P m Q X
      → Ends P m Q' X'
  Ends-weaken m h k c = record { at = λ w p. go w (m w).0 (c.at w p) }
    where
      go : (u : W) (r : Result E A) → Post Q X r (m u).1 → Post Q' X' r (m u).1
      go u (ok a) p = h a (m u).1 p
      go u (err e) p = k e (m u).1 p
