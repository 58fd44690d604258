-- ===== src/Sonic/Port.antt =====
-- pkg/sonic/db_port.go: reading and writing the ports.
pub mod Writes
use sonic_operator.Base.{
  ℕ, suc, ◌<◌, Text, String, codes, text_eq, is_empty, trim_prefix, Bool, true, false, ◌||◌, not,
  Option, none, some, List, [], ◌∷◌, ◌++◌, map, ltb, if◌then◌else◌, Error, errorf, wrapf, Arg, str,
  int, Result, ok, err, Exec, return, fail, lift, reject, or_fail, ◌>>=◌, ◌>>◌, Dict, Fields,
  insert,
}
use sonic_operator.Base.Int.{ℤ, pos, ltb_ℤ}
use sonic_operator.Strconv.{itoa, atoi_or}
use sonic_operator.Redis.{Redis}
use sonic_operator.Sonic.Keys.{DbAccessor, validate_port_name, scan_keys}

unfoldable pub port_key : Text → Text
port_key port_name = codes "PORT|" ++ port_name

valid_fec : Text → Bool
valid_fec fec = text_eq fec (codes "rs") || text_eq fec (codes "fc") || text_eq fec (codes "none")

module _ {W Client : Type 0} (redis : Redis W Client) (db : DbAccessor Client) where
  -- The fuel bounds the rounds of each key scan.
  unfoldable pub list_port_names : ℕ → Exec W Error (List Text)
  list_port_names fuel = do
    keys ←
        or_fail (wrapf "failed to list PORT keys: %w" [])
          (scan_keys redis fuel db.config_db (codes "PORT|*"))
    return (map (λ k. trim_prefix k (codes "PORT|")) keys)

  speed : Option Text → Exec W Error ℤ
  speed none = return (pos 0)
  speed (some raw) = return (atoi_or raw)

  unfoldable pub get_port_speed : Text → Exec W Error ℤ
  unfolding speed port_key
  get_port_speed port_name = do
    lift (validate_port_name port_name)
    reply ←
        or_fail (wrapf "failed to get speed for port %s: %w" (str port_name ∷ []))
          (redis.hget db.config_db (port_key port_name) (codes "speed"))
    speed reply

  -- A field that is absent is read as the empty string.
  or_empty : Option Text → Exec W Error Text
  or_empty none = return []
  or_empty (some raw) = return raw

  unfoldable pub get_port_supported_speeds : Text → Exec W Error Text
  unfolding or_empty
  get_port_supported_speeds port_name = do
    lift (validate_port_name port_name)
    reply ←
        or_fail (wrapf "failed to get supported speeds for port %s: %w" (str port_name ∷ []))
          (redis.hget db.state_db (codes "PORT_TABLE|" ++ port_name) (codes "supported_speeds"))
    or_empty reply

  unfoldable pub get_transceiver_type : Text → Exec W Error Text
  unfolding or_empty
  get_transceiver_type port_name = do
    lift (validate_port_name port_name)
    reply ←
        or_fail (wrapf "failed to get transceiver type for %s: %w" (str port_name ∷ []))
          (redis.hget db.state_db (codes "TRANSCEIVER_INFO|" ++ port_name) (codes "type"))
    or_empty reply

  -- Here a missing field is an error, that of redis.Nil.
  or_nil_error : Text → Option Text → Exec W Error Text
  or_nil_error port_name none =
      fail
        (wrapf "failed to get alias for port %s: %w" (str port_name ∷ []) (errorf "redis: nil" []))
  or_nil_error port_name (some alias) = return alias

  unfoldable pub get_port_alias : Text → Exec W Error Text
  unfolding or_nil_error port_key
  get_port_alias port_name = do
    lift (validate_port_name port_name)
    reply ←
        or_fail (wrapf "failed to get alias for port %s: %w" (str port_name ∷ []))
          (redis.hget db.config_db (port_key port_name) (codes "alias"))
    or_nil_error port_name reply

  -- The nil map is `none`.
  non_empty : Fields → Option Fields
  non_empty [] = none
  non_empty (f ∷ fields) = some (f ∷ fields)

  unfoldable pub get_lldp_entry : Text → Exec W Error (Option Fields)
  unfolding non_empty
  get_lldp_entry port_name = do
    lift (validate_port_name port_name)
    fields ←
        or_fail (wrapf "failed to get LLDP entry for %s: %w" (str port_name ∷ []))
          (redis.hgetall db.appl_db (codes "LLDP_ENTRY_TABLE:" ++ port_name))
    return (non_empty fields)

  table_entries : List Text → Dict Fields → Exec W Error (Dict Fields)
  table_entries [] result = return result
  table_entries (key ∷ keys) result = do
    let port_name = trim_prefix key (codes "PORT_TABLE:")
    fields ←
        or_fail (wrapf "failed to get PORT_TABLE fields for %s: %w" (str port_name ∷ []))
          (redis.hgetall db.appl_db key)
    table_entries keys (insert port_name fields result)

  unfoldable pub list_port_table_entries : ℕ → Exec W Error (Dict Fields)
  unfolding table_entries
  list_port_table_entries fuel = do
    keys ←
        or_fail (wrapf "failed to list PORT_TABLE keys: %w" [])
          (scan_keys redis fuel db.appl_db (codes "PORT_TABLE:*"))
    table_entries keys []

  unfoldable pub has_port : Text → Exec W Error Bool
  unfolding port_key
  has_port port_name = do
    lift (validate_port_name port_name)
    n ←
        or_fail (wrapf "failed to check existence of port %s: %w" (str port_name ∷ []))
          (redis.exists db.config_db (port_key port_name))
    return (ltb 0 n)

  unfoldable pub set_mtu : Text → ℤ → Exec W Error (Unit {0})
  unfolding port_key
  set_mtu port_name mtu = do
    lift (validate_port_name port_name)
    reject (ltb_ℤ mtu (pos 68) || ltb_ℤ (pos 9216) mtu)
        (errorf "invalid MTU %d for %s: must be between 68 and 9216" (int mtu ∷ str port_name ∷ []))
    or_fail (wrapf "failed to set MTU for %s: %w" (str port_name ∷ []))
        (redis.hset db.config_db (port_key port_name) ((codes "mtu", itoa mtu) ∷ []))

  unfoldable pub set_fec : Text → Text → Exec W Error (Unit {0})
  unfolding port_key valid_fec
  set_fec port_name fec = do
    lift (validate_port_name port_name)
    reject (not (valid_fec fec)) (
        errorf "invalid FEC value %q for %s: must be rs, fc, or none"
          (str fec ∷ str port_name ∷ []))
    or_fail (wrapf "failed to set FEC for %s: %w" (str port_name ∷ []))
        (redis.hset db.config_db (port_key port_name) ((codes "fec", fec) ∷ []))

  unfoldable pub set_speed : Text → ℤ → Exec W Error (Unit {0})
  unfolding port_key
  set_speed port_name speed_mbps = do
    lift (validate_port_name port_name)
    reject (not (ltb_ℤ (pos 0) speed_mbps))
        (errorf "invalid speed %d for %s: must be positive" (int speed_mbps ∷ str port_name ∷ []))
    or_fail (wrapf "failed to set speed for %s: %w" (str port_name ∷ []))
        (redis.hset db.config_db (port_key port_name) ((codes "speed", itoa speed_mbps) ∷ []))

  unfoldable pub set_port_alias : Text → Text → Exec W Error (Unit {0})
  unfolding port_key
  set_port_alias port_name alias = do
    lift (validate_port_name port_name)
    reject (is_empty alias) (errorf "alias must not be empty for port %s" (str port_name ∷ []))
    or_fail (wrapf "failed to set alias for port %s: %w" (str port_name ∷ []))
        (redis.hset db.config_db (port_key port_name) ((codes "alias", alias) ∷ []))
