-- ===== src/Strconv.antt =====
-- Packages strconv and fmt, as far as the program prints and reads decimal numbers with them. An
-- int has 64 bits.
pub mod RoundTrip
use sonic_operator.Base.{
  ℕ, zero, suc, ◌+◌, ◌-◌, ◌*◌, ◌/◌, ◌%◌, ◌^◌, Text, codes, Bool, true, false, ◌&&◌, ◌||◌, not,
  Option, none, some, List, [], ◌∷◌, ◌++◌, ltb, leb, ◌==◌, if◌then◌else◌, is_space,
}
use sonic_operator.Base.Int.{ℤ, pos, negsuc, sub_ℕ}

-- The decimal digits of a number in front of a text, one round for each digit; the fuel is enough
-- when it is at least the number.
unfoldable pub digits : ℕ → ℕ → Text → Text
digits zero n out = out
digits (suc f) n out =
    let rest = digits f (n / 10) ((b'0' + n % 10) ∷ out) in if n == 0 then out else rest

unfoldable pub format_nat : ℕ → Text
unfolding digits
format_nat n = if n == 0 then b'0' ∷ [] else digits n n []

-- strconv.Itoa(n), strconv.FormatInt(n, 10) and the verb %d
unfoldable pub itoa : ℤ → Text
unfolding format_nat
itoa (pos n) = format_nat n
itoa (negsuc n) = b'-' ∷ format_nat (suc n)

unfoldable pub is_digit : ℕ → Bool
is_digit c = leb b'0' c && leb c b'9'

-- The longest run of digits at the head of a text, and what follows it.
unfoldable pub span_digits : Text → Text × Text
unfolding is_digit
span_digits [] = ([], [])
span_digits (c ∷ s) =
    let (run, rest) = span_digits s in if is_digit c then (c ∷ run, rest) else ([], c ∷ s)

-- The number that digits spell behind `n`.
unfoldable pub value : ℕ → Text → ℕ
value n [] = n
value n (c ∷ s) = value (n * 10 + (c - b'0')) s

-- A number with its sign as an int64, if it fits.
unfoldable pub to_int64 : Bool → ℕ → Option ℤ
to_int64 true n = if leb n (2 ^ 63) then some (sub_ℕ 0 n) else none
to_int64 false n = if ltb n (2 ^ 63) then some (pos n) else none

-- The optional sign: whether it is `-`, and the rest.
unfoldable pub sign : Text → Bool × Text
sign [] = (false, [])
sign (c ∷ s) = if c == b'-' then (true, s) else if c == b'+' then (false, s) else (false, c ∷ s)

-- What strconv.Atoi does with a text: its number, or the value beside its error.
pub data Parsed : Type 0 where
  number : ℤ → Parsed
  syntax : Parsed
  range : ℤ → Parsed

saturate : Bool → ℤ
saturate true = sub_ℕ 0 (2 ^ 63)
saturate false = pos (2 ^ 63 - 1)

checked : Bool → ℕ → Parsed
unfolding to_int64 saturate
checked negative n = elim (to_int64 negative n) [
  | none ↦ range (saturate negative)
  | some i ↦ number i
]

whole : Bool → Text × Text → Parsed
unfolding checked value
whole negative ([], rest) = syntax
whole negative (c ∷ run, []) = checked negative (value 0 (c ∷ run))
whole negative (c ∷ run, d ∷ rest) = syntax

unfoldable pub parse_int : Text → Parsed
unfolding sign span_digits whole
parse_int s = let (negative, body) = sign s in whole negative (span_digits body)

-- n, err := strconv.Atoi(s); the number where `err` is nil
unfoldable pub atoi : Text → Option ℤ
unfolding parse_int
atoi s = elim (parse_int s) [ number i ↦ some i | _ ↦ none ]

-- n, _ := strconv.Atoi(s); the number also beside an error
unfoldable pub atoi_or : Text → ℤ
unfolding parse_int
atoi_or s = elim (parse_int s) [ number i ↦ i | syntax ↦ pos 0 | range i ↦ i ]

-- SkipSpace of package fmt in Sscanf: white space goes, a newline is an error.
unfoldable pub skip_space : Text → Option Text
unfolding is_space
skip_space [] = some []
skip_space (c ∷ s) =
    let rest = skip_space s in
    if c == b'\n' then none else if is_space c then rest else some (c ∷ s)

scanned : Bool → Text × Text → Option (ℤ × Text)
unfolding value to_int64
scanned negative ([], rest) = none
scanned negative (c ∷ run, rest) = elim (to_int64 negative (value 0 (c ∷ run))) [
  | none ↦ none
  | some i ↦ some (i, rest)
]

signed : Text → Option (ℤ × Text)
unfolding sign span_digits scanned
signed s = let (negative, body) = sign s in scanned negative (span_digits body)

-- The verb %d of fmt.Sscanf for an int: the number and the unread text.
unfoldable pub scan_int : Text → Option (ℤ × Text)
unfolding skip_space signed
scan_int s = elim (skip_space s) [ none ↦ none | some t ↦ signed t ]

-- The text up to the first white space.
unfoldable pub until_space : Text → Text
unfolding is_space
until_space [] = []
until_space (c ∷ s) = let rest = until_space s in if is_space c then [] else c ∷ rest

word : Text → Option Text
unfolding until_space
word [] = none
word (c ∷ s) = some (until_space (c ∷ s))

-- The verb %s of fmt.Sscanf at the end of a format.
unfoldable pub scan_word : Text → Option Text
unfolding skip_space word
scan_word s = elim (skip_space s) [ none ↦ none | some t ↦ word t ]
