-- ===== src/Strconv/RoundTrip.antt =====
-- Numbers that are printed and read back.
use sonic_operator.Base.{
  ℕ, zero, suc, ◌+◌, ◌/◌, ◌%◌, ◌^◌, ◌≤◌, ◌<◌, ◌≡◌, ◌≢◌, refl, subst, Text, Bool, true, false, some,
  [], ◌∷◌, ◌++◌, append-nil, ◌==◌, arith, All, is_space,
}
use sonic_operator.Base.Int.{ℤ, pos, negsuc, pos_part, neg_part}
use sonic_operator.Strconv.{
  digits, format_nat, itoa, is_digit, span_digits, value, to_int64, parse_int, atoi, atoi_or,
  number, skip_space, signed, sign, scan_int, scanned, whole, checked,
}

abbrev pub IsInt64 : ℤ → Type 0
IsInt64 i = (pos_part i < 2 ^ 63) × (neg_part i ≤ 2 ^ 63)

abbrev IsDigit : ℕ → Type 0
IsDigit c = is_digit c ≡ true

-- No digit stands at the head of the text.
abbrev pub NoDigit : Text → Type 0
NoDigit [] = Unit
NoDigit (c ∷ s) = is_digit c ≡ false

last_digit : (n : ℕ) → is_digit (b'0' + n % 10) ≡ true
unfolding is_digit
last_digit n = ground arith

-- The digits so far do not change.
value-digits : (f n : ℕ) (out : Text) → n ≤ f → value 0 (digits f n out) ≡ value n out
unfolding value digits
value-digits zero n out h = ground arith
value-digits (suc f) n out h = ground (arith, value-digits f (n / 10) ((b'0' + n % 10) ∷ out))

digits-All : (f n : ℕ) (out : Text) → All IsDigit out → All IsDigit (digits f n out)
unfolding digits
digits-All zero n out h = h
digits-All (suc f) n out h =
    ground (arith, digits-All f (n / 10) ((b'0' + n % 10) ∷ out) (last_digit n, h))

digits-ne-nil : (f n : ℕ) (out : Text) → out ≢ [] → digits f n out ≢ []
unfolding digits
digits-ne-nil zero n out h = h
digits-ne-nil (suc f) n out h = ground (arith, digits-ne-nil f (n / 10) ((b'0' + n % 10) ∷ out))

value-format_nat : (n : ℕ) → value 0 (format_nat n) ≡ n
unfolding format_nat value
value-format_nat n = ground (arith, value-digits n n [])

format_nat-All : (n : ℕ) → All IsDigit (format_nat n)
unfolding format_nat is_digit
format_nat-All n = ground (arith, digits-All n n [] tt)

format_nat-ne-nil : (n : ℕ) → format_nat n ≢ []
unfolding format_nat digits
format_nat-ne-nil zero = ground arith
format_nat-ne-nil (suc n) = ground (arith, digits-ne-nil n (suc n / 10) ((b'0' + suc n % 10) ∷ []))

span_digits-append :
    (run rest : Text) → All IsDigit run → NoDigit rest → span_digits (run ++ rest) ≡ (run, rest)
unfolding span_digits
span_digits-append [] [] h k = refl
span_digits-append [] (c ∷ rest) h k = ground arith
span_digits-append (c ∷ run) rest (hc, h) k = ground (arith, span_digits-append run rest h k)

-- A print begins with a digit.
record Digits (s : Text) (n : ℕ) : Type 0 where
  first : ℕ
  rest : Text
  spelled : s ≡ first ∷ rest
  is_first : is_digit first ≡ true
  are_rest : All IsDigit rest
  worth : value 0 (first ∷ rest) ≡ n

Digits-format_nat : (n : ℕ) → Digits (format_nat n) n
Digits-format_nat n = go (format_nat n) refl
  where
    go : (s : Text) → format_nat n ≡ s → Digits (format_nat n) n
    go [] e = absurd (format_nat-ne-nil n e)
    go (c ∷ s) e =
        let all : All IsDigit (c ∷ s) = subst (All IsDigit) e (format_nat-All n) in
        record {
          first = c;
          rest = s;
          spelled = e;
          is_first = all.0;
          are_rest = all.1;
          worth = subst (λ t. value 0 t ≡ n) e (value-format_nat n);
        }

-- A number without its sign is read up to what follows its digits.
span_digits-format_nat :
    (n : ℕ) (rest : Text) → NoDigit rest → span_digits (format_nat n ++ rest) ≡ (format_nat n, rest)
span_digits-format_nat n rest h = span_digits-append (format_nat n) rest (format_nat-All n) h

-- Neither a sign nor white space begins with a digit.
digit_is_no_space : (c : ℕ) → is_digit c ≡ true → is_space c ≡ false
unfolding is_digit is_space
digit_is_no_space c h = ground arith

digit_is_no_sign :
    (c : ℕ)
    → is_digit c ≡ true
    → ((c == b'-') ≡ false) × ((c == b'+') ≡ false) × ((c == b'\n') ≡ false)
unfolding is_digit
digit_is_no_sign c h = ground arith

sign-format_nat :
    (n : ℕ) (rest : Text) → sign (format_nat n ++ rest) ≡ (false, format_nat n ++ rest)
unfolding sign
sign-format_nat n rest =
    let d = Digits-format_nat n in
    rw d.spelled (ground (arith, digit_is_no_sign d.first d.is_first))

skip_space-format_nat :
    (n : ℕ) (rest : Text) → skip_space (format_nat n ++ rest) ≡ some (format_nat n ++ rest)
unfolding skip_space
skip_space-format_nat n rest =
    let d = Digits-format_nat n in
    rw d.spelled
      (ground (arith, digit_is_no_sign d.first d.is_first, digit_is_no_space d.first d.is_first))

scanned-format_nat :
    (negative : Bool) (n : ℕ) (rest : Text) {i : ℤ}
    → to_int64 negative n ≡ some i
    → scanned negative (format_nat n, rest) ≡ some (i, rest)
scanned-format_nat negative n rest h =
    let d = Digits-format_nat n in rw d.spelled (unfold scanned in (ground (arith, d.worth)))

signed-step :
    (s : Text) {negative : Bool} {body : Text}
    → sign s ≡ (negative, body)
    → signed s ≡ scanned negative (span_digits body)
unfolding signed
signed-step s e = rw e

scan_int-step : (s : Text) {t : Text} → skip_space s ≡ some t → scan_int s ≡ signed t
unfolding scan_int
scan_int-step s e = rw (e, scan_int)

sign-minus : (s : Text) → sign (b'-' ∷ s) ≡ (true, s)
unfolding sign
sign-minus s = refl

skip_space-minus : (s : Text) → skip_space (b'-' ∷ s) ≡ some (b'-' ∷ s)
unfolding skip_space
skip_space-minus s = refl

to_int64-pos : (n : ℕ) → n < 2 ^ 63 → to_int64 false n ≡ some (pos n)
unfolding to_int64
to_int64-pos n h = ground arith

to_int64-neg : (n : ℕ) → suc n ≤ 2 ^ 63 → to_int64 true (suc n) ≡ some (negsuc n)
unfolding to_int64
to_int64-neg n h = ground arith

signed-pos :
    (n : ℕ) (rest : Text)
    → n < 2 ^ 63
    → NoDigit rest
    → signed (format_nat n ++ rest) ≡ some (pos n, rest)
signed-pos n rest h k =
    rw (signed-step _ (sign-format_nat n rest), span_digits-format_nat n rest k)
      (scanned-format_nat false n rest (to_int64-pos n h))

signed-neg :
    (n : ℕ) (rest : Text)
    → suc n ≤ 2 ^ 63
    → NoDigit rest
    → signed (b'-' ∷ (format_nat (suc n) ++ rest)) ≡ some (negsuc n, rest)
signed-neg n rest h k =
    rw
      (
        signed-step _ (sign-minus (format_nat (suc n) ++ rest)),
        span_digits-format_nat (suc n) rest k,
      )
      (scanned-format_nat true (suc n) rest (to_int64-neg n h))

-- What %d reads from a number that %d printed, where no digit follows, is the number.
pub scan_int-itoa :
    (i : ℤ) (rest : Text) → IsInt64 i → NoDigit rest → scan_int (itoa i ++ rest) ≡ some (i, rest)
unfolding itoa
scan_int-itoa (pos n) rest h k =
    rw (scan_int-step _ (skip_space-format_nat n rest)) (signed-pos n rest h.0 k)
scan_int-itoa (negsuc n) rest h k =
    rw (scan_int-step _ (skip_space-minus (format_nat (suc n) ++ rest))) (signed-neg n rest h.1 k)

whole-format_nat :
    (negative : Bool) (n : ℕ) {i : ℤ}
    → to_int64 negative n ≡ some i
    → whole negative (format_nat n, []) ≡ number i
whole-format_nat negative n h =
    let d = Digits-format_nat n in rw d.spelled (unfold whole checked in (ground (arith, d.worth)))

parse_int-step :
    (s : Text) {negative : Bool} {body : Text}
    → sign s ≡ (negative, body)
    → parse_int s ≡ whole negative (span_digits body)
unfolding parse_int
parse_int-step s e = rw e

span_digits-all : (n : ℕ) → span_digits (format_nat n) ≡ (format_nat n, [])
span_digits-all n = rw append-nil at (span_digits-format_nat n [] tt)

sign-all : (n : ℕ) → sign (format_nat n) ≡ (false, format_nat n)
sign-all n = rw append-nil at (sign-format_nat n [])

parse_int-itoa : (i : ℤ) → IsInt64 i → parse_int (itoa i) ≡ number i
unfolding itoa
parse_int-itoa (pos n) h =
    rw (parse_int-step _ (sign-all n), span_digits-all n)
      (whole-format_nat false n (to_int64-pos n h.0))
parse_int-itoa (negsuc n) h =
    rw (parse_int-step _ (sign-minus (format_nat (suc n))), span_digits-all (suc n))
      (whole-format_nat true (suc n) (to_int64-neg n h.1))

-- Every int is read back by strconv.Atoi from its print by strconv.Itoa.
pub atoi-itoa : (i : ℤ) → IsInt64 i → atoi (itoa i) ≡ some i
unfolding atoi
atoi-itoa i h = rw (parse_int-itoa i h, atoi)

pub atoi_or-itoa : (i : ℤ) → IsInt64 i → atoi_or (itoa i) ≡ i
unfolding atoi_or
atoi_or-itoa i h = rw (parse_int-itoa i h, atoi_or)
