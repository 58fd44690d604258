-- ===== src/Agent/Coded.antt =====
-- The codes of the errors that the agent's calls report, with a rule for each way to build a call.

use sonic_operator.Base.{
  ◌≡◌, refl, ◌≢◌, arith, ℕ, Bool, true, false, String, List, Error, Arg, Result, ok, err, Exec,
  return, fail, lift, attempt, or_fail, reject, ◌>>=◌, map_err, continue,
}
use sonic_operator.Types.{Status, new_error_status}
use sonic_operator.Agent.Host.{bad}

-- An error has a code that is not the one of success.
abbrev pub CodedResult : {A : Type 0} → Result Status A → Type 0
CodedResult (ok a) = Unit {0}
CodedResult (err status) = status.code ≢ 0

pub record Coded {S A : Type 0} (m : Exec S Status A) : Type 0 where
  pub at : (s : S) → CodedResult (m s).0

pub bad_code : (format : String) (args : List Arg) (e : Error) → (bad format args e).code ≢ 0
unfolding new_error_status
bad_code format args e = ground arith

pub code_of : (n : ℕ) (e : Error) → n ≢ 0 → (new_error_status n e).code ≢ 0
unfolding new_error_status
code_of n e h = h

pub coded_errors :
    {A : Type 0} (r : Result Status A) → ((st : Status) → r ≡ err st → st.code ≢ 0) → CodedResult r
coded_errors (ok a) h = tt
coded_errors (err st) h = h st refl

wrapped :
    {E A : Type 0} (f : E → Status)
    → ((e : E) → (f e).code ≢ 0)
    → (r : Result E A) → CodedResult (map_err f r)
wrapped f h (ok a) = tt
wrapped f h (err e) = h e

module _ {S A : Type 0} where
  pub Coded-return : (a : A) → Coded (return {W = S} {E = Status} a)
  Coded-return a = record { at = λ s. tt }

  pub Coded-fail : (st : Status) → st.code ≢ 0 → Coded (fail {W = S} {A = A} st)
  Coded-fail st h = record { at = λ s. h }

  pub Coded-lift : (r : Result Status A) → CodedResult r → Coded (lift {W = S} r)
  Coded-lift r h = record { at = λ s. h }

  pub Coded-attempt : {E : Type 0} (m : Exec S E A) → Coded (attempt {F = Status} m)
  Coded-attempt m = record { at = λ s. tt }

  pub Coded-or_fail :
      {E : Type 0} (f : E → Status) (m : Exec S E A)
      → ((e : E) → (f e).code ≢ 0)
      → Coded (or_fail f m)
  Coded-or_fail f m h = record { at = λ s. wrapped f h (m s).0 }

module _ {S A B : Type 0} where
  next :
      (r : Result Status A) (f : A → Exec S Status B) (s : S)
      → CodedResult r
      → ((a : A) → Coded (f a))
      → CodedResult (continue r f s).0
  next (ok a) f s h k = (k a).at s
  next (err st) f s h k = h

  pub Coded-bind :
      (m : Exec S Status A) (f : A → Exec S Status B)
      → Coded m
      → ((a : A) → Coded (f a))
      → Coded (m >>= f)
  Coded-bind m f h k = record { at = λ s. next (m s).0 f (m s).1 (h.at s) k }

module _ {S A B : Type 0} where
  -- What follows a call whose error is handled.
  pub Coded-after :
      (m : Exec S Status A) (f : Result Status A → Exec S Status B)
      → Coded m
      → ((r : Result Status A) → CodedResult r → Coded (f r))
      → Coded (attempt m >>= f)
  Coded-after m f h k = record { at = λ s. (k (m s).0 (h.at s)).at (m s).1 }

module _ {S : Type 0} where
  rejected : (b : Bool) (st : Status) (s : S) → st.code ≢ 0 → CodedResult (reject {W = S} b st s).0
  rejected true st s h = h
  rejected false st s h = tt

  pub Coded-reject : (b : Bool) (st : Status) → st.code ≢ 0 → Coded (reject {W = S} b st)
  Coded-reject b st h = record { at = λ s. rejected b st s h }
