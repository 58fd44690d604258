-- ===== src/Names.antt =====
-- The names of interfaces: NativeNameToAbstractName and AbstractNameToNativeName of
-- internal/agent/types/conversion_utils.go.
pub mod RoundTrip
use sonic_operator.Base.{
  ℕ, Text, String, codes, has_prefix, trim_prefix, strip, Option, none, some, List, [], ◌∷◌, ◌++◌,
  Error, errorf, wrapf, Arg, str, Result, ok, err, if◌then◌else◌,
}
use sonic_operator.Base.Int.{ℤ, div_trunc, mod_trunc, scale, ◌+ℤ◌, wrap64}
use sonic_operator.Strconv.{itoa, scan_int}

-- What package fmt says of input that does not fit.
abbrev pub scan_error : Error
scan_error = errorf "input does not match format" []

abstract_name : Option (ℤ × Text) → Text → Result Error Text
abstract_name none number =
    err (wrapf "failed to parse interface number %q: %v" (str number ∷ []) scan_error)
abstract_name (some (port, unread)) number =
    ok (codes "eth" ++ (itoa (div_trunc port 4) ++ (codes "-" ++ itoa (mod_trunc port 4))))

-- NativeNameToAbstractName
unfoldable pub to_abstract : Text → Result Error Text
unfolding abstract_name
to_abstract native_name =
    if has_prefix native_name (codes "Ethernet")
    then (let number = trim_prefix native_name (codes "Ethernet") in
        abstract_name (scan_int number) number)
    else err (errorf "unknown native interface name: %s" (str native_name ∷ []))

-- fmt.Sscanf(s, "eth%d-%d", &port, &vport)
second_number : ℤ → Option (ℤ × Text) → Option (ℤ × ℤ)
second_number port none = none
second_number port (some (vport, unread)) = some (port, vport)

after_dash : ℤ → Option Text → Option (ℤ × ℤ)
unfolding second_number
after_dash port none = none
after_dash port (some rest) = second_number port (scan_int rest)

after_first : Option (ℤ × Text) → Option (ℤ × ℤ)
unfolding after_dash
after_first none = none
after_first (some (port, rest)) = after_dash port (strip (codes "-") rest)

after_eth : Option Text → Option (ℤ × ℤ)
unfolding after_first
after_eth none = none
after_eth (some rest) = after_first (scan_int rest)

unfoldable pub scan_abstract : Text → Option (ℤ × ℤ)
unfolding after_eth
scan_abstract s = after_eth (strip (codes "eth") s)

native_name_of : Option (ℤ × ℤ) → Text → Result Error Text
native_name_of none name =
    err (wrapf "failed to parse abstract interface name %q: %v" (str name ∷ []) scan_error)
native_name_of (some (port, vport)) name =
    ok (codes "Ethernet" ++ itoa (wrap64 (scale 4 port +ℤ vport)))

-- AbstractNameToNativeName
unfoldable pub to_native : Text → Result Error Text
unfolding native_name_of scan_abstract
to_native name =
    if has_prefix name (codes "eth")
    then native_name_of (scan_abstract name) name
    else err (errorf "unknown abstract interface name: %s" (str name ∷ []))
