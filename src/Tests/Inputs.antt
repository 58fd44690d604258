-- ===== src/Tests/Inputs.antt =====
-- The theorems on names and on what package sonic reads and writes, at concrete inputs.
use sonic_operator.Base.{
  ◌⊎◌, ◌↔◌, inr, Fields, split_n, none, List, trim_prefix, ◌&&◌, not, true, Error, Result, ℕ, ◌≡◌,
  ◌↔◌, ◌⊎◌, refl, Text, codes, text_eq, has_prefix, false, some, [], ◌∷◌, ok, arith, lookup, insert,
  strip,
}
use sonic_operator.Base.Int.{pos, ltb_ℤ}
use sonic_operator.Redis.Memory.{
  Server, memory, memory_laws, with_database, fields_of, set_fields, keys_like, before_star,
}
use sonic_operator.Redis.Effects.{Changed}
use sonic_operator.Strconv.{itoa, atoi_or, atoi}
use sonic_operator.Types.Convert.{to_admin_state, of_admin_state, of_admin_state-to_admin_state}
use sonic_operator.Sonic.Keys.{scan_keys, validate_vlan_name}
use sonic_operator.Sonic.Keys.Vlans.{Numbered, validate_vlan_name_accepts}
use sonic_operator.Sonic.Keys.Scan.{Rounds, scan_keys_gathers}
use sonic_operator.Names.{to_abstract, to_native}
use sonic_operator.Names.RoundTrip.{native, abstract, to_native-to_abstract, to_native_alias}
use sonic_operator.Sonic.Keys.{DbAccessor, validate_port_name}
use sonic_operator.Sonic.Interface.{
  ip_table, address_prefix, address_key, list_ip_addresses, sync_ip_addresses, difference,
  remove_ip_addresses, add_ip_addresses, remove_loop, add_loop,
}
use sonic_operator.Sonic.Interface.Sync.{mem, sync_ip_addresses_removes, sync_ip_addresses_adds}
use sonic_operator.Sonic.Vlan.{
  member_key, list_port_vlans, sync_port_vlans, member_vlans, remove_others, remove_vlan_member,
  ensure_desired, ensure_vlan_member, check_desired, is_tagging_mode,
}
use sonic_operator.Sonic.Vlan.Sync.{sync_port_vlans_removes, sync_port_vlans_adds}
use sonic_operator.Sonic.Port.{set_mtu, set_fec, set_speed, port_key, get_port_speed}
use sonic_operator.Sonic.Port.Writes.{
  mtu_write, run_write, set_mtu_sound, set_fec_sound, refused_writes, get_port_speed-set_speed,
}

to_native-to_abstract_example :
    (to_abstract (native 13) ≡ ok (abstract 3 1)) × (to_native (abstract 3 1) ≡ ok (native 13))
to_native-to_abstract_example = to_native-to_abstract 13 (omega arith)

to_native_alias_example : to_native (abstract 0 5) ≡ to_native (abstract 1 1)
to_native_alias_example = to_native_alias 0 1 (omega arith)

abbrev db : DbAccessor ℕ
db = record { config_db = 4; state_db = 6; appl_db = 0 }

abbrev empty : Server
empty d = []

abbrev port0 : Text
port0 = codes "Ethernet0"

mtu_written : (set_mtu memory db port0 (pos 9100) empty).0 ≡ ok tt
unfolding set_mtu validate_port_name has_prefix codes
mtu_written = refl

set_mtu_sound_example :
    (has_prefix port0 (codes "Ethernet") ≡ true)
    × (ltb_ℤ (pos 9100) (pos 68) ≡ false)
    × (ltb_ℤ (pos 9216) (pos 9100) ≡ false)
    × Changed memory_laws empty
        (set_mtu memory db port0 (pos 9100) empty).1
        4
        (port_key port0)
        (codes "mtu")
        (some (itoa (pos 9100)))
set_mtu_sound_example = set_mtu_sound memory_laws db port0 (pos 9100) empty mtu_written

fec_written : (set_fec memory db port0 (codes "rs") empty).0 ≡ ok tt
unfolding set_fec validate_port_name has_prefix codes text_eq
fec_written = refl

set_fec_sound_example :
    (has_prefix port0 (codes "Ethernet") ≡ true)
    × ((codes "rs" ≡ codes "rs") ⊎ ((codes "rs" ≡ codes "fc") ⊎ (codes "rs" ≡ codes "none")))
    × Changed memory_laws empty
        (set_fec memory db port0 (codes "rs") empty).1
        4
        (port_key port0)
        (codes "fec")
        (some (codes "rs"))
set_fec_sound_example = set_fec_sound memory_laws db port0 (codes "rs") empty fec_written

refused_writes_example :
    (¬ (run_write memory db (codes "Ethernet0") (mtu_write (pos 9217)) empty).0 ≡ ok tt)
    × ((run_write memory db (codes "Ethernet0") (mtu_write (pos 9217)) empty).1 ≡ empty)
refused_writes_example =
    refused_writes memory_laws db (codes "Ethernet0") (mtu_write (pos 9217)) empty (inr (inr refl))

speed_set : (set_speed memory db port0 (pos 100000) empty).0 ≡ ok tt
unfolding set_speed validate_port_name has_prefix codes
speed_set = refl

speed_seen :
    (get_port_speed memory db port0 (set_speed memory db port0 (pos 100000) empty).1).0
    ≡ ok (pos 100000)
unfolding set_speed get_port_speed validate_port_name has_prefix codes lookup fields_of
    with_database insert text_eq set_fields atoi_or itoa
speed_seen = refl

get_port_speed-set_speed_example : (pos 100000 ≡ pos 100000) × (ltb_ℤ (pos 0) (pos 100000) ≡ true)
get_port_speed-set_speed_example =
    get_port_speed-set_speed memory_laws db port0 (pos 100000) empty (omega arith) speed_set
      speed_seen

validate_vlan_name_accepts_example :
    (validate_vlan_name (codes "Vlan100") ≡ ok tt) ↔ Numbered (codes "Vlan100")
validate_vlan_name_accepts_example = validate_vlan_name_accepts (codes "Vlan100")

abbrev two_vlans : Server
two_vlans d =
    (codes "VLAN|Vlan7", []) ∷ (codes "PORT|Ethernet0", []) ∷ (codes "VLAN|Vlan9", []) ∷ []

one_round :
    Rounds memory 4
      (codes "VLAN|*")
      0
      two_vlans
      1
      (codes "VLAN|Vlan7" ∷ codes "VLAN|Vlan9" ∷ [])
      two_vlans
unfolding keys_like before_star has_prefix strip codes
one_round = Rounds.last 0 two_vlans _ refl

scan_keys_gathers_example :
    scan_keys memory 1 4 (codes "VLAN|*") two_vlans
    ≡ (ok (codes "VLAN|Vlan7" ∷ codes "VLAN|Vlan9" ∷ []), two_vlans)
scan_keys_gathers_example = scan_keys_gathers memory 4 (codes "VLAN|*") 1 one_round (omega arith)

of_admin_state-to_admin_state_example :
    (((to_admin_state (codes "up")).1 ≡ ok tt) ↔ (
      ((codes "up" ≡ codes "up") × ((to_admin_state (codes "up")).0 ≡ codes "Up"))
      ⊎ ((codes "up" ≡ codes "down") × ((to_admin_state (codes "up")).0 ≡ codes "Down"))))
    × (((to_admin_state (codes "up")).1 ≡ ok tt)
        ↔ (of_admin_state (to_admin_state (codes "up")).0 ≡ (codes "up", ok tt)))
of_admin_state-to_admin_state_example = of_admin_state-to_admin_state (codes "up")

abbrev any_prefix : Text → Result Error Text
any_prefix s = ok s

-- Ethernet0 has the address 10.0.0.1/24.
abbrev one_address : Server
one_address d = (codes "INTERFACE|Ethernet0|10.0.0.1/24", (codes "NULL", codes "NULL") ∷ []) ∷ []

abbrev wanted : List Text
wanted = codes "10.0.0.2/24" ∷ []

abbrev present : List Text
present = codes "10.0.0.1/24" ∷ []

in_table : ip_table port0 ≡ ok (codes "INTERFACE")
unfolding ip_table has_prefix codes
in_table = refl

is_listed : (list_ip_addresses memory db 1 port0 one_address).0 ≡ ok present
unfolding list_ip_addresses ip_table has_prefix codes scan_keys keys_like before_star address_prefix
    trim_prefix
is_listed = refl

is_synced : (sync_ip_addresses memory db any_prefix 1 port0 wanted one_address).0 ≡ ok tt
unfolding sync_ip_addresses list_ip_addresses ip_table has_prefix codes scan_keys difference
    keys_like before_star address_prefix lookup insert text_eq trim_prefix remove_ip_addresses
    remove_loop add_ip_addresses add_loop strip address_key
is_synced = refl

to_go : (mem (codes "10.0.0.1/24") present && not (mem (codes "10.0.0.1/24") wanted)) ≡ true
unfolding mem codes text_eq
to_go = refl

to_come : (mem (codes "10.0.0.2/24") wanted && not (mem (codes "10.0.0.2/24") present)) ≡ true
unfolding mem codes text_eq
to_come = refl

abbrev synced : Server
synced = (sync_ip_addresses memory db any_prefix 1 port0 wanted one_address).1

sync_ip_addresses_removes_example :
    memory_laws.cell synced 4
      (address_key (codes "INTERFACE") port0 (codes "10.0.0.1/24"))
      (codes "NULL")
    ≡ none
sync_ip_addresses_removes_example =
    sync_ip_addresses_removes memory_laws db any_prefix (codes "INTERFACE") port0 in_table 1 wanted
      one_address is_listed is_synced (codes "10.0.0.1/24") (codes "NULL") to_go

sync_ip_addresses_adds_example :
    memory_laws.cell synced 4
      (address_key (codes "INTERFACE") port0 (codes "10.0.0.2/24"))
      (codes "NULL")
    ≡ some (codes "NULL")
sync_ip_addresses_adds_example =
    sync_ip_addresses_adds memory_laws db any_prefix (codes "INTERFACE") port0 in_table 1 wanted
      one_address is_listed is_synced (codes "10.0.0.2/24") to_come

-- Ethernet0 is in the VLAN 7, and is to be in the VLAN 9.
abbrev one_member : Server
one_member d =
    (codes "VLAN_MEMBER|Vlan7|Ethernet0", (codes "tagging_mode", codes "untagged") ∷ []) ∷ []

abbrev memberships : Fields
memberships = (codes "Vlan9", codes "tagged") ∷ []

member_listed : (list_port_vlans memory db 1 port0 one_member).0 ≡ ok (codes "Vlan7" ∷ [])
unfolding list_port_vlans validate_port_name has_prefix codes scan_keys member_vlans keys_like
    before_star split_n
member_listed = refl

member_synced : (sync_port_vlans memory db 1 port0 memberships memberships one_member).0 ≡ ok tt
unfolding sync_port_vlans validate_port_name has_prefix codes check_desired validate_vlan_name atoi
    trim_prefix is_tagging_mode text_eq list_port_vlans scan_keys remove_others member_vlans
    keys_like before_star split_n lookup ensure_desired ensure_vlan_member remove_vlan_member
member_synced = refl

vlan7_listed : mem (codes "Vlan7") (codes "Vlan7" ∷ []) ≡ true
unfolding mem codes text_eq
vlan7_listed = refl

vlan7_unwanted : lookup (codes "Vlan7") memberships ≡ none
unfolding lookup codes text_eq
vlan7_unwanted = refl

vlan9_wanted : lookup (codes "Vlan9") memberships ≡ some (codes "tagged")
unfolding lookup codes text_eq
vlan9_wanted = refl

nothing_else : (lookup {V = Text} (codes "Vlan9") [] ≡ none) × Unit {0}
unfolding lookup
nothing_else = (refl, tt)

abbrev moved : Server
moved = (sync_port_vlans memory db 1 port0 memberships memberships one_member).1

sync_port_vlans_removes_example :
    memory_laws.cell moved 4 (member_key (codes "Vlan7") port0) (codes "tagging_mode") ≡ none
sync_port_vlans_removes_example =
    sync_port_vlans_removes memory_laws db port0 1 memberships memberships one_member member_listed
      member_synced (codes "Vlan7") (codes "tagging_mode") vlan7_listed vlan7_unwanted
      vlan7_unwanted

sync_port_vlans_adds_example :
    memory_laws.cell moved 4 (member_key (codes "Vlan9") port0) (codes "tagging_mode")
    ≡ some (codes "tagged")
sync_port_vlans_adds_example =
    sync_port_vlans_adds memory_laws db port0 1 memberships memberships one_member member_listed
      member_synced (codes "Vlan9") (codes "tagged") nothing_else vlan9_wanted
