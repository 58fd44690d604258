-- ===== src/Sonic/Vlan.antt =====
-- pkg/sonic/db_vlan.go: VLANs, their members, and DHCP relay.
pub mod Sync
use sonic_operator.Base.{
  ℕ, Text, codes, text_eq, is_empty, trim_prefix, Bool, true, false, ◌||◌, not, none, some, ltb,
  List, [], ◌∷◌, ◌++◌, if◌then◌else◌, Error, errorf, wrapf, str, Result, ok, err, Exec, return,
  lift, reject, or_fail, ◌>>=◌, ◌>>◌, Fields, lookup, split_n, join,
}
use sonic_operator.Redis.{Redis}
use sonic_operator.Sonic.Keys.{DbAccessor, validate_port_name, validate_vlan_name, scan_keys}

unfoldable pub vlan_key : Text → Text
vlan_key vlan_name = codes "VLAN|" ++ vlan_name

unfoldable pub member_key : Text → Text → Text
member_key vlan_name port_name = codes "VLAN_MEMBER|" ++ (vlan_name ++ (codes "|" ++ port_name))

unfoldable pub is_tagging_mode : Text → Bool
is_tagging_mode mode = text_eq mode (codes "tagged") || text_eq mode (codes "untagged")

-- The middle of a key that has three parts.
vlan_of : List Text → List Text
vlan_of (table ∷ vlan ∷ port ∷ []) = vlan ∷ []
vlan_of _ = []

unfoldable pub member_vlans : List Text → List Text
unfolding vlan_of
member_vlans [] = []
member_vlans (k ∷ keys) = vlan_of (split_n k b'|' 2) ++ member_vlans keys

-- The fields that EnsureVLANInterface writes.
interface_fields : Text → Fields
interface_fields vrf_name =
    (codes "NULL", codes "NULL")
    ∷ (if is_empty vrf_name then [] else (codes "vrf_name", vrf_name) ∷ [])

-- The first loop of SyncPortVLANs.
unfoldable pub check_desired : Text → Fields → Result Error (Unit {0})
check_desired port_name [] = ok tt
check_desired port_name ((vlan, mode) ∷ desired) =
    let rest = check_desired port_name desired in
    elim (validate_vlan_name vlan) [
      | err e ↦ err e
      | ok u ↦
          if is_tagging_mode mode
          then rest
          else err (
              errorf "invalid tagging mode %q for %s on %s: must be tagged or untagged"
                (str mode ∷ str vlan ∷ str port_name ∷ []))
    ]

module _ {W Client : Type 0} (redis : Redis W Client) (db : DbAccessor Client) where
  unfoldable pub ensure_vlan : Text → Exec W Error (Unit {0})
  ensure_vlan vlan_name = do
    lift (validate_vlan_name vlan_name)
    or_fail (wrapf "failed to ensure VLAN %s: %w" (str vlan_name ∷ [])) (
        redis.hset db.config_db (vlan_key vlan_name)
          ((codes "vlanid", trim_prefix vlan_name (codes "Vlan")) ∷ []))

  unfoldable pub ensure_vlan_interface : Text → Text → Exec W Error (Unit {0})
  unfolding interface_fields
  ensure_vlan_interface vlan_name vrf_name = do
    lift (validate_vlan_name vlan_name)
    or_fail (wrapf "failed to ensure VLAN interface %s: %w" (str vlan_name ∷ []))
        (redis.hset db.config_db (codes "VLAN_INTERFACE|" ++ vlan_name) (interface_fields vrf_name))

  unfoldable pub delete_vlan : Text → Exec W Error (Unit {0})
  delete_vlan vlan_name = do
    lift (validate_vlan_name vlan_name)
    or_fail (wrapf "failed to delete VLAN %s: %w" (str vlan_name ∷ []))
        (redis.del db.config_db (vlan_key vlan_name))

  unfoldable pub delete_vlan_interface : Text → Exec W Error (Unit {0})
  delete_vlan_interface vlan_name = do
    lift (validate_vlan_name vlan_name)
    or_fail (wrapf "failed to delete VLAN interface %s: %w" (str vlan_name ∷ []))
        (redis.del db.config_db (codes "VLAN_INTERFACE|" ++ vlan_name))

  unfoldable pub has_vlan : Text → Exec W Error Bool
  has_vlan vlan_name = do
    lift (validate_vlan_name vlan_name)
    n ←
        or_fail (wrapf "failed to check VLAN %s: %w" (str vlan_name ∷ []))
          (redis.exists db.config_db (vlan_key vlan_name))
    return (ltb 0 n)

  unfoldable pub set_vlan_description : Text → Text → Exec W Error (Unit {0})
  set_vlan_description vlan_name description = do
    lift (validate_vlan_name vlan_name)
    or_fail (wrapf "failed to set description for VLAN %s: %w" (str vlan_name ∷ []))
        (redis.hset db.config_db (vlan_key vlan_name) ((codes "description", description) ∷ []))

  unfoldable pub ensure_vlan_member : Text → Text → Text → Exec W Error (Unit {0})
  ensure_vlan_member vlan_name port_name tagging_mode = do
    lift (validate_vlan_name vlan_name)
    lift (validate_port_name port_name)
    reject (not (is_tagging_mode tagging_mode)) (
        errorf "invalid tagging mode %q for %s on %s: must be tagged or untagged"
          (str tagging_mode ∷ str vlan_name ∷ str port_name ∷ []))
    or_fail (wrapf "failed to ensure VLAN member %s on %s: %w" (str vlan_name ∷ str port_name ∷ []))
        (redis.hset db.config_db (member_key vlan_name port_name)
          ((codes "tagging_mode", tagging_mode) ∷ []))

  unfoldable pub remove_vlan_member : Text → Text → Exec W Error (Unit {0})
  remove_vlan_member vlan_name port_name = do
    lift (validate_vlan_name vlan_name)
    lift (validate_port_name port_name)
    or_fail
        (wrapf "failed to remove VLAN member %s from %s: %w" (str vlan_name ∷ str port_name ∷ []))
        (redis.del db.config_db (member_key vlan_name port_name))

  unfoldable pub list_port_vlans : ℕ → Text → Exec W Error (List Text)
  list_port_vlans fuel port_name = do
    lift (validate_port_name port_name)
    keys ←
        or_fail (wrapf "failed to list VLAN members for %s: %w" (str port_name ∷ []))
          (scan_keys redis fuel db.config_db (codes "VLAN_MEMBER|*|" ++ port_name))
    return (member_vlans keys)

  -- The second loop of SyncPortVLANs.
  unfoldable pub remove_others : Text → Fields → List Text → Exec W Error (Unit {0})
  remove_others port_name desired [] = return tt
  remove_others port_name desired (vlan ∷ current) =
      let rest = remove_others port_name desired current in
      elim (lookup vlan desired) [
        | some mode ↦ rest
        | none ↦ do remove_vlan_member vlan port_name; rest
      ]

  -- The third loop of SyncPortVLANs.
  unfoldable pub ensure_desired : Text → Fields → Exec W Error (Unit {0})
  ensure_desired port_name [] = return tt
  ensure_desired port_name ((vlan, mode) ∷ desired) = do
    ensure_vlan_member vlan port_name mode
    ensure_desired port_name desired

  -- Go ranges over a map in an order of its own each time: `desired` lists the map in the order of
  -- the first loop, and `visited` in that of the third.
  unfoldable pub sync_port_vlans : ℕ → Text → Fields → Fields → Exec W Error (Unit {0})
  sync_port_vlans fuel port_name desired visited = do
    lift (validate_port_name port_name)
    lift (check_desired port_name desired)
    current ← list_port_vlans fuel port_name
    remove_others port_name desired current
    ensure_desired port_name visited

  unfoldable pub delete_dhcp_relay : Text → Exec W Error (Unit {0})
  delete_dhcp_relay vlan_name = do
    lift (validate_vlan_name vlan_name)
    or_fail (wrapf "failed to delete dhcp_servers for %s: %w" (str vlan_name ∷ []))
        (redis.hdel db.config_db (vlan_key vlan_name) (codes "dhcp_servers@"))

  unfoldable pub has_dhcp_relay : Text → Exec W Error Bool
  has_dhcp_relay vlan_name = do
    lift (validate_vlan_name vlan_name)
    or_fail (wrapf "failed to check dhcp_servers for %s: %w" (str vlan_name ∷ []))
        (redis.hexists db.config_db (vlan_key vlan_name) (codes "dhcp_servers@"))

  -- netip.ParseAddr is a parameter.
  module _ {Addr : Type 0} (parse_addr : Text → Result Error Addr) where
    unfoldable pub check_servers : List Text → Result Error (Unit {0})
    check_servers [] = ok tt
    check_servers (s ∷ servers) =
        let rest = check_servers servers in
        elim (parse_addr s) [
          | err e ↦ err (wrapf "invalid DHCP server address %q: %w" (str s ∷ []) e)
          | ok addr ↦ rest
        ]

    no_servers : List Text → Bool
    no_servers [] = true
    no_servers (s ∷ servers) = false

    unfoldable pub ensure_dhcp_relay : Text → List Text → Exec W Error (Unit {0})
    unfolding no_servers
    ensure_dhcp_relay vlan_name servers = do
      lift (validate_vlan_name vlan_name)
      reject (no_servers servers) (errorf "servers must not be empty" [])
      lift (check_servers servers)
      or_fail (wrapf "failed to set dhcp_servers for %s: %w" (str vlan_name ∷ [])) (
          redis.hset db.config_db (vlan_key vlan_name)
            ((codes "dhcp_servers@", join servers (codes ",")) ∷ []))
