-- ===== src/Ztp/Quote/Words.antt =====
-- What a shell makes of quoted values: each is one word, and no character of it is special.
use sonic_operator.Base.{
  ℕ, zero, suc, ◌<◌, ◌≡◌, refl, Text, true, false, Option, none, some, List, [], ◌∷◌, ◌++◌,
  append_assoc, ◌==◌, if◌then◌else◌, arith, length,
}
use sonic_operator.Ztp.Quote.{
  shell_quote, read_word, plain, single, quote, ends_word, read-escape_quotes, escape_quotes,
  quoted_args,
}

-- A text at which a word has ended.
abbrev pub AtEnd : Text → Type 0
AtEnd [] = Unit
AtEnd (c ∷ s) = ends_word c ≡ true

read_word-AtEnd : (word rest : Text) → AtEnd rest → read_word plain word rest ≡ some (word, rest)
unfolding read_word
read_word-AtEnd word [] h = refl
read_word-AtEnd word (c ∷ s) h = ground arith

-- A shell reads the quoted value, where the word ends behind it, as one word that is the value
-- itself, whatever characters the value holds.
pub read_word-shell_quote :
    (value rest : Text)
    → AtEnd rest
    → read_word plain [] (shell_quote value ++ rest) ≡ some (value, rest)
read_word-shell_quote value rest h =
    rw shell_quote_step (rw read-escape_quotes (read_word-AtEnd value rest h))
  where
    shell_quote_step :
        read_word plain [] (shell_quote value ++ rest)
        ≡ read_word single [] (escape_quotes value ++ quote ∷ rest)
    shell_quote_step = unfold shell_quote read_word in (rw append_assoc)

-- The words of a line that ends at a newline; the fuel bounds their number.
pub read_words : ℕ → Text → Option (List Text)
read_words zero s = none
read_words (suc fuel) [] = some []
read_words (suc fuel) (c ∷ s) = elim (c == b' ') [
  | false ↦ if c == b'\n' then some [] else none
  | true ↦ elim (read_word plain [] s) [
    | none ↦ none
    | some (word, rest) ↦ elim (read_words fuel rest) [
      | none ↦ none
      | some words ↦ some (word ∷ words)
    ]
  ]
]

quoted_args-AtEnd :
    (values : List Text) (rest : Text) → AtEnd rest → AtEnd (quoted_args values ++ rest)
unfolding quoted_args
quoted_args-AtEnd [] rest h = h
quoted_args-AtEnd (v ∷ values) rest h = refl

-- A shell reads back, from what the template writes for a list of values at the end of a line,
-- exactly these values in their order, as many words as there are values.
pub read_words-quoted_args :
    (values : List Text) (fuel : ℕ) (after : Text)
    → length values < fuel
    → read_words fuel (quoted_args values ++ b'\n' ∷ after) ≡ some values
unfolding read_words quoted_args
read_words-quoted_args [] zero after h = absurd (omega arith)
read_words-quoted_args [] (suc fuel) after h = refl
read_words-quoted_args (v ∷ values) zero after h = absurd (omega arith)
read_words-quoted_args (v ∷ values) (suc fuel) after h = rw append_assoc (
    ground (
      arith,
      read_word-shell_quote v (quoted_args values ++ b'\n' ∷ after)
          (quoted_args-AtEnd values (b'\n' ∷ after) refl),
      read_words-quoted_args values fuel after,
    ))
