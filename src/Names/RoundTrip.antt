-- ===== src/Names/RoundTrip.antt =====
-- A port's native name and its abstract name stand for each other.
use sonic_operator.Base.{
  ℕ, ◌+◌, ◌*◌, ◌/◌, ◌%◌, ◌^◌, ◌<◌, ◌≡◌, refl, Text, codes, some, [], ◌++◌, append-nil, arith, ok,
  sym, ◌∙◌, strip-append, has_prefix-append, trim_prefix-append, ap,
}
use sonic_operator.Base.Int.{pos, scale, ◌+ℤ◌, wrap64, div_trunc, mod_trunc}
use sonic_operator.Strconv.{itoa, scan_int, is_digit}
use sonic_operator.Strconv.RoundTrip.{NoDigit, scan_int-itoa}
use sonic_operator.Names.{to_abstract, to_native, scan_abstract}

-- The native name of a port, and the abstract name of a lane of a port.
abbrev pub native : ℕ → Text
native n = codes "Ethernet" ++ itoa (pos n)

abbrev pub abstract : ℕ → ℕ → Text
abstract port lane = codes "eth" ++ (itoa (pos port) ++ (codes "-" ++ itoa (pos lane)))

scan_all : (n : ℕ) → n < 2 ^ 63 → scan_int (itoa (pos n)) ≡ some (pos n, [])
scan_all n h = rw append-nil at (scan_int-itoa (pos n) [] (omega arith) tt)

dash-NoDigit : (s : Text) → NoDigit (codes "-" ++ s)
unfolding codes is_digit
dash-NoDigit s = refl

div_trunc-pos : (n : ℕ) → div_trunc (pos n) 4 ≡ pos (n / 4)
div_trunc-pos n = ground arith

mod_trunc-pos : (n : ℕ) → mod_trunc (pos n) 4 ≡ pos (n % 4)
mod_trunc-pos n = ground arith

wrap64-pos : (a b : ℕ) → 4 * a + b < 2 ^ 63 → wrap64 (scale 4 (pos a) +ℤ pos b) ≡ pos (4 * a + b)
wrap64-pos a b h = ground arith

-- The abstract name of Ethernet<n> has the port n / 4 and the lane n % 4.
to_abstract-native : (n : ℕ) → n < 2 ^ 63 → to_abstract (native n) ≡ ok (abstract (n / 4) (n % 4))
unfolding to_abstract
to_abstract-native n h = rw (
  has_prefix-append (codes "Ethernet") (itoa (pos n)),
  trim_prefix-append (codes "Ethernet") (itoa (pos n)),
  scan_all n h,
  div_trunc-pos n,
  mod_trunc-pos n,
)

scan_abstract-abstract :
    (port lane : ℕ)
    → port < 2 ^ 63
    → lane < 2 ^ 63
    → scan_abstract (abstract port lane) ≡ some (pos port, pos lane)
unfolding scan_abstract
scan_abstract-abstract port lane h k = rw (
  strip-append (codes "eth") (itoa (pos port) ++ (codes "-" ++ itoa (pos lane))),
  scan_int-itoa (pos port) (codes "-" ++ itoa (pos lane)) (omega arith)
      (dash-NoDigit (itoa (pos lane))),
  strip-append (codes "-") (itoa (pos lane)),
  scan_all lane k,
)

-- The abstract name of a port and a lane is the name of the native port 4 * port + lane, also for a
-- lane of 4 or more.
pub to_native-abstract :
    (port lane : ℕ)
    → 4 * port + lane < 2 ^ 63
    → to_native (abstract port lane) ≡ ok (native (4 * port + lane))
unfolding to_native
to_native-abstract port lane h = rw (
  has_prefix-append (codes "eth") (itoa (pos port) ++ (codes "-" ++ itoa (pos lane))),
  scan_abstract-abstract port lane (omega arith) (omega arith),
  wrap64-pos port lane h,
)

-- For every port number below 2^63 the native name has an abstract name, that of the port n / 4 and
-- the lane n % 4, and the abstract name is converted back to the native name.
pub to_native-to_abstract :
    (n : ℕ)
    → n < 2 ^ 63
    → (to_abstract (native n) ≡ ok (abstract (n / 4) (n % 4)))
      × (to_native (abstract (n / 4) (n % 4)) ≡ ok (native n))
to_native-to_abstract n h = (
  to_abstract-native n h,
  to_native-abstract (n / 4) (n % 4) (omega arith) ∙ ap (λ k. ok (native k)) (omega arith),
)

-- Abstract names are not unique: a lane of 4 or more is a lane of the next port, and the two names
-- are converted to one native name.
pub to_native_alias :
    (port lane : ℕ)
    → 4 * port + (lane + 4) < 2 ^ 63
    → to_native (abstract port (lane + 4)) ≡ to_native (abstract (port + 1) lane)
to_native_alias port lane h =
    to_native-abstract port (lane + 4) h
    ∙ ap (λ k. ok (native k)) (omega arith)
    ∙ sym (to_native-abstract (port + 1) lane (omega arith))
