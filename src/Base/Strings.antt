-- ===== src/Base/Strings.antt =====
-- strings.Split, strings.SplitN, strings.Join and the like, for a separator of one character.
use Prim.Native.Nat.{ℕ, zero, suc}
use mathlib.Core.Bool.{true, false}
use mathlib.Core.List.{List, [], ◌∷◌, ◌++◌}
use sonic_operator.Base.Tests.{◌==◌}
use sonic_operator.Base.Chars.{Text}

-- The current part, and the rest of the text.
unfoldable pub split_from : ℕ → Text → Text → List Text
split_from sep cur [] = cur ∷ []
split_from sep cur (c ∷ s) = elim (c == sep) [
  | true ↦ cur ∷ split_from sep [] s
  | false ↦ split_from sep (cur ++ c ∷ []) s
]

-- strings.Split(s, sep)
unfoldable pub split : Text → ℕ → List Text
unfolding split_from
split s sep = split_from sep [] s

-- With `n` cuts left.
unfoldable pub split_n_from : ℕ → ℕ → Text → Text → List Text
split_n_from n sep cur [] = cur ∷ []
split_n_from zero sep cur (c ∷ s) = (cur ++ c ∷ s) ∷ []
split_n_from (suc n) sep cur (c ∷ s) = elim (c == sep) [
  | true ↦ cur ∷ split_n_from n sep [] s
  | false ↦ split_n_from (suc n) sep (cur ++ c ∷ []) s
]

-- strings.SplitN(s, sep, n + 1)
unfoldable pub split_n : Text → ℕ → ℕ → List Text
unfolding split_n_from
split_n s sep n = split_n_from n sep [] s

-- strings.Join(parts, sep)
unfoldable pub join : List Text → Text → Text
join [] sep = []
join (p ∷ []) sep = p
join (p ∷ q ∷ ps) sep = p ++ (sep ++ join (q ∷ ps) sep)
