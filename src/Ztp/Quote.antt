-- ===== src/Ztp/Quote.antt =====
-- internal/ztp/generated_mode.go: shellQuote, against the quoting rules of a POSIX shell.
pub mod Words
use sonic_operator.Base.{
  ℕ, ◌≡◌, refl, Text, codes, Bool, true, false, ◌||◌, Option, none, some, List, [], ◌∷◌, ◌++◌,
  append_assoc, append-nil, ==_iff, ◌==◌, if◌then◌else◌, arith,
}

abbrev pub quote : ℕ
quote = 0x27

abbrev double_quote : ℕ
double_quote = 0x22

-- strings.ReplaceAll(value, "'", `'"'"'`)
unfoldable pub escape_quotes : Text → Text
escape_quotes [] = []
escape_quotes (c ∷ value) =
    let rest = escape_quotes value in
    if c == quote then quote ∷ double_quote ∷ quote ∷ double_quote ∷ quote ∷ rest else c ∷ rest

unfoldable pub shell_quote : Text → Text
unfolding escape_quotes
shell_quote value = quote ∷ (escape_quotes value ++ quote ∷ [])

-- How a POSIX shell reads one word. What it would expand or treat as an escape is `none`, so that
-- a word that is read holds what stands in it and nothing else.
pub data Mode : Type 0 where
  plain single double : Mode

abbrev pub ends_word : ℕ → Bool
ends_word c =
    c == b' '
    || c == b'\t'
    || c == b'\n'
    || c == b')'
    || c == b'&'
    || c == b'|'
    || c == b';'
    || c == b'>'
    || c == b'<'

abbrev is_special : ℕ → Bool
is_special c =
    c == b'\\'
    || c == b'$'
    || c == b'`'
    || c == b'*'
    || c == b'?'
    || c == b'['
    || c == b'('
    || c == b'#'
    || c == b'~'

-- The word so far, and the text that follows the word.
unfoldable pub read_word : Mode → Text → Text → Option (Text × Text)
read_word plain word [] = some (word, [])
read_word single word [] = none
read_word double word [] = none
read_word plain word (c ∷ s) =
    let open_single = read_word single word s in
    let open_double = read_word double word s in
    let more = read_word plain (word ++ c ∷ []) s in
    if c == quote
    then open_single
    else if c == double_quote
    then open_double
    else if ends_word c
    then some (word, c ∷ s)
    else if is_special c
    then none
    else more
read_word single word (c ∷ s) =
    let close = read_word plain word s in
    let more = read_word single (word ++ c ∷ []) s in if c == quote then close else more
read_word double word (c ∷ s) =
    let close = read_word plain word s in
    let more = read_word double (word ++ c ∷ []) s in
    if c == double_quote then close else if c == b'\\' || c == b'$' || c == b'`' then none else more

-- Reading an escaped text inside single quotes gives the text.
pub read-escape_quotes :
    (value word rest : Text)
    → read_word single word (escape_quotes value ++ quote ∷ rest)
      ≡ read_word plain (word ++ value) rest
unfolding escape_quotes read_word
read-escape_quotes [] word rest = rw append-nil
read-escape_quotes (c ∷ value) word rest = ground (
  arith,
  ==_iff c quote,
  read-escape_quotes value (word ++ c ∷ []) rest,
  read-escape_quotes value (word ++ quote ∷ []) rest,
  append_assoc word (c ∷ []) value,
  append_assoc word (quote ∷ []) value,
)

-- {{ range . }} {{ shellQuote . }}{{ end }}, as the template writes commands and arguments.
unfoldable pub quoted_args : List Text → Text
quoted_args [] = []
quoted_args (v ∷ values) = b' ' ∷ (shell_quote v ++ quoted_args values)
