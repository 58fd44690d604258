-- ===== src/Sonic/Interface.antt =====
-- pkg/sonic/db_interface.go: the status of interfaces, the loopbacks, and the IP addresses.
pub mod Sync
use sonic_operator.Base.{
  ℕ, Text, codes, text_eq, has_prefix, trim_prefix, Bool, true, false, ◌&&◌, not, Option, none,
  some, List, [], ◌∷◌, ◌++◌, map, if◌then◌else◌, Error, errorf, wrapf, str, Result, ok, err, Exec,
  return, fail, lift, reject, or_fail, ◌>>=◌, ◌>>◌, Dict, insert, lookup,
}
use sonic_operator.Redis.{Redis}
use sonic_operator.Sonic.Keys.{DbAccessor, validate_loopback_name, scan_keys}

is_up : Option Text → Bool
is_up none = false
is_up (some val) = text_eq val (codes "up")

unfoldable pub ip_table : Text → Result Error Text
ip_table interface_name =
    if has_prefix interface_name (codes "Loopback")
    then ok (codes "LOOPBACK_INTERFACE")
    else if has_prefix interface_name (codes "Vlan")
    then ok (codes "VLAN_INTERFACE")
    else if has_prefix interface_name (codes "Ethernet")
    then ok (codes "INTERFACE")
    else if has_prefix interface_name (codes "PortChannel")
    then ok (codes "PORTCHANNEL_INTERFACE")
    else err (errorf "unknown interface type for IP assignment: %s" (str interface_name ∷ []))

-- table + "|" + interfaceName + "|"
unfoldable pub address_prefix : Text → Text → Text
address_prefix table interface_name = table ++ (codes "|" ++ (interface_name ++ codes "|"))

unfoldable pub address_key : Text → Text → Text → Text
unfolding address_prefix
address_key table interface_name prefix = address_prefix table interface_name ++ prefix

-- The key of the hash whose admin_status SetAdminStatus writes.
unfoldable pub admin_key : Text → Result Error Text
admin_key interface_name =
    if has_prefix interface_name (codes "Loopback")
    then ok (codes "LOOPBACK_INTERFACE|" ++ interface_name)
    else if has_prefix interface_name (codes "Vlan")
    then ok (codes "VLAN|" ++ interface_name)
    else if has_prefix interface_name (codes "Ethernet")
    then ok (codes "PORT|" ++ interface_name)
    else if has_prefix interface_name (codes "PortChannel")
    then ok (codes "PORTCHANNEL|" ++ interface_name)
    else err (errorf "unknown interface type for admin status: %s" (str interface_name ∷ []))

-- The set that a loop of insertions into a map[string]struct{} builds.
to_set : List Text → Dict (Unit {0}) → Dict (Unit {0})
to_set [] set = set
to_set (p ∷ ps) set = to_set ps (insert p tt set)

is_missing : Dict (Unit {0}) → Text → Bool
is_missing set p = elim (lookup p set) [ none ↦ true | some u ↦ false ]

keep_missing : Dict (Unit {0}) → List Text → List Text
unfolding is_missing
keep_missing set [] = []
keep_missing set (p ∷ ps) = (if is_missing set p then p ∷ [] else []) ++ keep_missing set ps

-- The entries of the first list that the second lacks, in order.
unfoldable pub difference : List Text → List Text → List Text
unfolding to_set keep_missing
difference ps qs = keep_missing (to_set qs []) ps

module _ {W Client : Type 0} (redis : Redis W Client) (db : DbAccessor Client) where
  unfoldable pub hget_is_up : Client → Text → Text → Exec W Error Bool
  unfolding is_up
  hget_is_up client key name = do val ← redis.hget client key name; return (is_up val)

  unfoldable pub get_admin_status : Text → Exec W Error Bool
  get_admin_status interface_name =
      if has_prefix interface_name (codes "Loopback")
      then hget_is_up db.config_db (codes "LOOPBACK_INTERFACE|" ++ interface_name)
          (codes "admin_status")
      else if has_prefix interface_name (codes "Vlan")
      then hget_is_up db.appl_db (codes "VLAN_TABLE:" ++ interface_name) (codes "admin_status")
      else if has_prefix interface_name (codes "Ethernet")
      then hget_is_up db.appl_db (codes "PORT_TABLE:" ++ interface_name) (codes "admin_status")
      else fail (errorf "unknown interface: %s" (str interface_name ∷ []))

  unfoldable pub get_oper_status : Text → Exec W Error Bool
  get_oper_status interface_name =
      if has_prefix interface_name (codes "Loopback")
      then hget_is_up db.config_db (codes "LOOPBACK_INTERFACE|" ++ interface_name)
          (codes "admin_status")
      else if has_prefix interface_name (codes "Vlan")
      then hget_is_up db.appl_db (codes "VLAN_TABLE:" ++ interface_name) (codes "admin_status")
      else if has_prefix interface_name (codes "Ethernet")
      then hget_is_up db.appl_db (codes "PORT_TABLE:" ++ interface_name) (codes "oper_status")
      else fail (errorf "unknown interface: %s" (str interface_name ∷ []))

  unfoldable pub set_admin_status : Text → Text → Exec W Error (Unit {0})
  set_admin_status interface_name admin_status = do
    reject (not (text_eq admin_status (codes "up")) && not (text_eq admin_status (codes "down"))) (
        errorf "invalid admin_status %q for %s: must be \"up\" or \"down\""
          (str admin_status ∷ str interface_name ∷ []))
    key ← lift (admin_key interface_name)
    or_fail (wrapf "failed to set admin status for %s: %w" (str interface_name ∷ []))
        (redis.hset db.config_db key ((codes "admin_status", admin_status) ∷ []))

  unfoldable pub ensure_loopback : Text → Exec W Error (Unit {0})
  ensure_loopback loopback_name = do
    lift (validate_loopback_name loopback_name)
    or_fail (wrapf "failed to ensure loopback interface %s: %w" (str loopback_name ∷ [])) (
        redis.hset db.config_db (codes "LOOPBACK_INTERFACE|" ++ loopback_name)
          ((codes "NULL", codes "NULL") ∷ []))

  unfoldable pub delete_loopback : Text → Exec W Error (Unit {0})
  delete_loopback loopback_name = do
    lift (validate_loopback_name loopback_name)
    or_fail (wrapf "failed to delete loopback interface %s: %w" (str loopback_name ∷ []))
        (redis.del db.config_db (codes "LOOPBACK_INTERFACE|" ++ loopback_name))

  -- netip.ParsePrefix is a parameter of the calls that test a prefix.
  module _ {Prefix : Type 0} (parse_prefix : Text → Result Error Prefix) where
    unfoldable pub add_loop : Text → Text → List Text → Exec W Error (Unit {0})
    add_loop table interface_name [] = return tt
    add_loop table interface_name (prefix ∷ prefixes) = do
      parsed ←
          or_fail (wrapf "invalid IP prefix %q: %w" (str prefix ∷ [])) (lift (parse_prefix prefix))
      or_fail (wrapf "failed to add IP %s to %s: %w" (str prefix ∷ str interface_name ∷ [])) (
          redis.hset db.config_db (address_key table interface_name prefix)
            ((codes "NULL", codes "NULL") ∷ []))
      add_loop table interface_name prefixes

    unfoldable pub add_ip_addresses : Text → List Text → Exec W Error (Unit {0})
    add_ip_addresses interface_name prefixes = do
      table ← lift (ip_table interface_name)
      add_loop table interface_name prefixes

    unfoldable pub remove_loop : Text → Text → List Text → Exec W Error (Unit {0})
    remove_loop table interface_name [] = return tt
    remove_loop table interface_name (prefix ∷ prefixes) = do
      parsed ←
          or_fail (wrapf "invalid IP prefix %q: %w" (str prefix ∷ [])) (lift (parse_prefix prefix))
      or_fail (wrapf "failed to remove IP %s from %s: %w" (str prefix ∷ str interface_name ∷ []))
          (redis.del db.config_db (address_key table interface_name prefix))
      remove_loop table interface_name prefixes

    unfoldable pub remove_ip_addresses : Text → List Text → Exec W Error (Unit {0})
    remove_ip_addresses interface_name prefixes = do
      table ← lift (ip_table interface_name)
      remove_loop table interface_name prefixes

  unfoldable pub list_ip_addresses : ℕ → Text → Exec W Error (List Text)
  list_ip_addresses fuel interface_name = do
    table ← lift (ip_table interface_name)
    keys ←
        or_fail (wrapf "failed to list IP addresses for %s: %w" (str interface_name ∷ []))
          (scan_keys redis fuel db.config_db (address_prefix table interface_name ++ codes "*"))
    return (map (λ k. trim_prefix k (address_prefix table interface_name)) keys)

  module _ {Prefix : Type 0} (parse_prefix : Text → Result Error Prefix) where
    -- No call is made for an empty list.
    when_any : List Text → Exec W Error (Unit {0}) → Exec W Error (Unit {0})
    when_any [] m = return tt
    when_any (p ∷ ps) m = m

    unfoldable pub sync_ip_addresses : ℕ → Text → List Text → Exec W Error (Unit {0})
    unfolding when_any
    sync_ip_addresses fuel interface_name desired = do
      current ← list_ip_addresses fuel interface_name
      let to_remove = difference current desired
      when_any to_remove (remove_ip_addresses parse_prefix interface_name to_remove)
      let to_add = difference desired current
      when_any to_add (add_ip_addresses parse_prefix interface_name to_add)
