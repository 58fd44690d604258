-- ===== src/Sonic/Keys.antt =====
-- pkg/sonic/db_accessor.go: the accessor's clients, key scans, and the tests of names.
pub mod Vlans
pub mod Scan
use sonic_operator.Base.{
  ℕ, zero, suc, ◌<◌, ◌≤◌, ◌+◌, ◌-◌, ◌/◌, ◌%◌, ◌^◌, Text, String, codes, is_empty, has_prefix,
  trim_prefix, trim_space, split, Bool, true, false, ◌||◌, not, Option, none, some, List, [], ◌∷◌,
  ◌++◌, ltb, ◌==◌, if◌then◌else◌, Error, errorf, foreign, Result, ok, err, Exec, return, fail,
  ◌>>=◌, Arg, str,
}
use sonic_operator.Base.Int.{ℤ, pos, ltb_ℤ, pos_part, neg_part, sub_ℕ, div_trunc}
use sonic_operator.Strconv.{atoi}
use sonic_operator.Redis.{Redis}

pub record DbAccessor (Client : Type 0) : Type 0 where
  pub config_db : Client
  pub state_db : Client
  pub appl_db : Client

unfoldable pub validate_port_name : Text → Result Error (Unit {0})
validate_port_name port_name =
    if has_prefix port_name (codes "Ethernet")
    then ok tt
    else err (errorf "invalid port name %q: must start with Ethernet" (str port_name ∷ []))

bad_vlan_id : Option ℤ → Bool
bad_vlan_id none = true
bad_vlan_id (some id) = ltb_ℤ id (pos 1) || ltb_ℤ (pos 4094) id

unfoldable pub validate_vlan_name : Text → Result Error (Unit {0})
unfolding bad_vlan_id
validate_vlan_name vlan_name =
    if not (has_prefix vlan_name (codes "Vlan"))
    then err (errorf "invalid VLAN name %q: must start with Vlan" (str vlan_name ∷ []))
    else if bad_vlan_id (atoi (trim_prefix vlan_name (codes "Vlan")))
    then err (
        errorf "invalid VLAN name %q: numeric suffix must be between 1 and 4094"
          (str vlan_name ∷ []))
    else ok tt

unfoldable pub validate_loopback_name : Text → Result Error (Unit {0})
validate_loopback_name loopback_name =
    if not (has_prefix loopback_name (codes "Loopback"))
    then err (errorf "invalid loopback name %q: must start with Loopback" (str loopback_name ∷ []))
    else ok tt

-- int32(n): the low 32 bits, with sign.
wrap32 : ℤ → ℤ
wrap32 a =
    let bits = (pos_part a % 2 ^ 32 + (2 ^ 32 - neg_part a % 2 ^ 32)) % 2 ^ 32 in
    if ltb bits (2 ^ 31) then pos bits else sub_ℕ bits (2 ^ 32)

-- The speeds that one part of the raw text adds.
speed_of : Option ℤ → List ℤ
unfolding wrap32
speed_of none = []
speed_of (some mbps) = if ltb_ℤ (pos 0) mbps then wrap32 (div_trunc mbps 1000) ∷ [] else []

speeds_of : List Text → List ℤ
unfolding speed_of
speeds_of [] = []
speeds_of (s ∷ rest) = speed_of (atoi (trim_space s)) ++ speeds_of rest

unfoldable pub parse_supported_speeds : Text → ℤ → List ℤ
unfolding speeds_of
parse_supported_speeds raw fallback_mbps =
    if not (is_empty raw)
    then speeds_of (split raw b',')
    else if ltb_ℤ (pos 0) fallback_mbps
    then wrap32 (div_trunc fallback_mbps 1000) ∷ []
    else []

module _ {W Client : Type 0} (redis : Redis W Client) where
  -- The loop of `scanKeys` from a cursor, with the keys so far; each round is one SCAN, and the
  -- server ends the loop by the cursor 0. The fuel bounds the rounds.
  unfoldable pub scan_loop : ℕ → Client → Text → ℕ → List Text → Exec W Error (List Text)
  scan_loop zero client pattern cursor keys = fail (foreign (codes "out of fuel"))
  scan_loop (suc fuel) client pattern cursor keys = do
    (batch, next_cursor) ← redis.scan client cursor pattern 100
    let more = scan_loop fuel client pattern next_cursor (keys ++ batch)
    if next_cursor == 0 then return (keys ++ batch) else more

  unfoldable pub scan_keys : ℕ → Client → Text → Exec W Error (List Text)
  unfolding scan_loop
  scan_keys fuel client pattern = scan_loop fuel client pattern 0 []
