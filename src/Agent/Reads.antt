-- ===== src/Agent/Reads.antt =====
-- The operations of the agent that read one thing: the device, an interface, its neighbour.
pub mod Coded
use sonic_operator.Base.{
  ℕ, ◌+◌, ◌/◌, ◌%◌, Text, String, codes, text_eq, is_empty, has_prefix, ltb, Bool, true, false,
  ◌||◌, ◌&&◌, not, Option, none, some, List, [], ◌∷◌, ◌++◌, if◌then◌else◌, Error, errorf, wrapf,
  str, Result, ok, err, Exec, return, fail, lift, attempt, or_fail, reject, ◌>>=◌, ◌>>◌, Fields,
  lookup, field, map, join, ◌==◌,
}
use sonic_operator.Redis.{Redis}
use sonic_operator.Types.{
  Status, Kind, SwitchDevice, Interface, InterfaceNeighbor, DeviceStatus, new_error_status,
  bad_request, not_found, redis_key_check_fail, status_up, status_down, status_ready, zero_status,
  ok_status,
}
use sonic_operator.Names.{to_abstract, to_native}
use sonic_operator.Agent.Host.{Host, State, on_world, bad}
use sonic_operator.Agent.Pool.{connect}
use sonic_operator.Agent.Version.{parse_version_info}

-- The test of a request, which four operations begin with: the interface and its native name.
unfoldable pub check_name : Interface → Result Status (Interface × Text)
check_name iface =
    if is_empty iface.name
    then err (new_error_status bad_request (errorf "interface name cannot be empty" []))
    else if not (has_prefix iface.name (codes "Ethernet"))
        && not (has_prefix iface.name (codes "eth"))
    then err (
        new_error_status bad_request
          (errorf "invalid interface name. Must start with 'Ethernet' or 'eth'" []))
    else if has_prefix iface.name (codes "eth")
    then elim (to_native iface.name) [
      | ok name ↦ ok (iface, name)
      | err e ↦ err (bad "failed to convert abstract name to native name: %v" [] e)
    ]
    else ok (iface, iface.name)

unfoldable pub resolve : Option Interface → Result Status (Interface × Text)
unfolding check_name
resolve none = err (new_error_status bad_request (errorf "interface name cannot be empty" []))
resolve (some iface) = check_name iface

-- The status that a field of a hash shows.
unfoldable pub status_of : Text → Fields → DeviceStatus
status_of name fields = if text_eq (field name fields) (codes "up") then status_up else status_down

or_default : Result Error Fields → Fields
or_default (ok fields) = fields
or_default (err e) = []

hex_digit : ℕ → ℕ
hex_digit n = if ltb n 10 then b'0' + n else 87 + n

-- net.HardwareAddr.String
unfoldable pub mac_string : List ℕ → Text
unfolding hex_digit
mac_string bytes = join (map (λ b. hex_digit (b / 16) ∷ hex_digit (b % 16) ∷ []) bytes) (codes ":")

unfoldable pub port_key : Text → Text
port_key name = codes "PORT|" ++ name

unfoldable pub state_key : Text → Text
state_key name = codes "PORT_TABLE|" ++ name

unfoldable pub appl_key : Text → Text
appl_key name = codes "PORT_TABLE:" ++ name

-- The interface that GetInterface returns, with the fields of APPL_DB and of STATE_DB.
interface_reply : Text → Text → Text → Text → Fields → Fields → Interface
interface_reply abstract name alias mac appl_fields state_fields = record {
  kind = Kind.interface_kind;
  name = abstract;
  native_name = name;
  alias_name = alias;
  mac_address = mac;
  operation_status = status_of (codes "oper_status") appl_fields;
  admin_status = status_of (codes "admin_status") state_fields;
  status = ok_status;
}

neighbor_reply : Text → Text → Text → Text → InterfaceNeighbor
neighbor_reply name mac system_name handle = record {
  kind = Kind.interface_neighbor_kind;
  name = name;
  mac_address = mac;
  system_name = system_name;
  handle = handle;
  status = ok_status;
}

module _ {W Client : Type 0} (redis : Redis W Client) (host : Host W Client) where
  abbrev Agent : Type 0 → Type 0
  Agent A = Exec (State W Client) Status A

  unfoldable pub open_db : String → String → Agent Client
  open_db name format = or_fail (bad format []) (connect host (codes name))

  -- The version file gives what Redis lacks; a file that cannot be read gives nothing.
  fallback : Text → Text → Result Error Text → Text
  fallback name known (err e) = known
  fallback name known (ok content) =
      if is_empty known then field name (parse_version_info content) else known

  read_version : Bool → Agent (Result Error Text)
  read_version true = attempt (on_world (host.read_file (codes "/etc/sonic/sonic_version.yml")))
  read_version false = return (err (errorf "not read" []))

  require_mac : Option Text → Agent Text
  require_mac (some mac) = return mac
  require_mac none = fail (new_error_status not_found (errorf "missing or invalid MAC address" []))

  unfoldable pub get_device_info : Agent SwitchDevice
  unfolding fallback read_version require_mac
  get_device_info = do
    rdb ← open_db "CONFIG_DB" "failed to connect to Redis: %v"
    fields ←
        or_fail (bad "failed to get device info: %v" [])
          (on_world (redis.hgetall rdb (codes "DEVICE_METADATA|localhost")))
    mac ← require_mac (lookup (codes "mac") fields)
    let hwsku = field (codes "hwsku") fields
    let version = field (codes "sonic_os_version") fields
    let asic = field (codes "asic_type") fields
    file ← read_version (is_empty hwsku || is_empty version || is_empty asic)
    return (record {
      kind = Kind.device_kind;
      local_mac_address = mac;
      hwsku = fallback (codes "hwsku") hwsku file;
      sonic_os_version = fallback (codes "sonic_os_version") version file;
      asic_type = fallback (codes "asic_type") asic file;
      readiness = status_ready;
      status = zero_status;
    })

  -- netlink: the MAC address of a link.
  unfoldable pub link_mac : Text → Agent Text
  link_mac name = do
    mac ←
        or_fail
          (λ e.
            new_error_status not_found (wrapf "failed to get interface %s: %v" (str name ∷ []) e))
          (on_world (host.link_by_name name))
    elim mac [
      | none ↦ fail (
          new_error_status not_found
            (errorf "no MAC address found for interface %s" (str name ∷ [])))
      | some bytes ↦ return (mac_string bytes)
    ]

  unfoldable pub present_alias : Option Text → Agent Text
  present_alias none = fail (
      new_error_status redis_key_check_fail
        (wrapf "failed to get alias: %v" [] (errorf "redis: nil" [])))
  present_alias (some alias) = return alias

  -- The alias of a port; a missing one is the error redis.Nil.
  unfoldable pub port_alias : Client → Text → Agent Text
  port_alias config_db name = do
    alias ←
        or_fail (λ e. new_error_status redis_key_check_fail (wrapf "failed to get alias: %v" [] e))
          (on_world (redis.hget config_db (port_key name) (codes "alias")))
    present_alias alias

  unfoldable pub get_interface : Option Interface → Agent Interface
  unfolding or_default interface_reply
  get_interface request = do
    (iface, name) ← lift (resolve request)
    config_db ← open_db "CONFIG_DB" "failed to connect to CONFIG_DB: %v"
    state_db ← open_db "STATE_DB" "failed to connect to STATE_DB: %v"
    n ←
        or_fail (bad "failed to check interface existence: %v" [])
          (on_world (redis.exists config_db (port_key name)))
    reject (n == 0) (new_error_status not_found (errorf "interface %s not found" (str name ∷ [])))
    state_fields ← attempt (on_world (redis.hgetall state_db (state_key name)))
    appl_db ← open_db "APPL_DB" "failed to connect to APPL_DB: %v"
    appl_fields ← attempt (on_world (redis.hgetall appl_db (appl_key name)))
    mac ← link_mac name
    alias ← port_alias config_db name
    abstract ← lift (elim (to_abstract name) [
      | ok a ↦ ok a
      | err e ↦ err (bad "failed to convert native name to abstract name: %v" [] e)
    ])
    return
        (interface_reply abstract name alias mac (or_default appl_fields) (or_default state_fields))

  -- The remote interface: its description as an abstract name, or its identifier.
  neighbor_handle : Fields → Result Status Text
  neighbor_handle fields =
      let handle = field (codes "lldp_rem_port_desc") fields in
      if is_empty handle
      then ok (field (codes "lldp_rem_port_id") fields)
      else elim (to_abstract handle) [
        | ok name ↦ ok name
        | err e ↦ err (bad "failed to convert native name to abstract name: %v" [] e)
      ]

  unfoldable pub get_interface_neighbor : Option Interface → Agent InterfaceNeighbor
  unfolding neighbor_handle neighbor_reply
  get_interface_neighbor request = do
    (iface, name) ← lift (resolve request)
    appl_db ← open_db "APPL_DB" "failed to connect to APPL_DB: %v"
    let lldp_key = codes "LLDP_ENTRY_TABLE:" ++ name
    n ←
        or_fail (bad "failed to check LLDP entry existence: %v" [])
          (on_world (redis.exists appl_db lldp_key))
    reject (n == 0) (
        new_error_status not_found
          (errorf "no LLDP neighbor found for interface %s" (str name ∷ [])))
    fields ←
        or_fail (bad "failed to get LLDP entry: %v" []) (on_world (redis.hgetall appl_db lldp_key))
    let mac = field (codes "lldp_rem_chassis_id") fields
    let system_name = field (codes "lldp_rem_sys_name") fields
    handle ← lift (neighbor_handle fields)
    reject (is_empty mac || is_empty system_name) (
        new_error_status not_found
          (errorf "incomplete LLDP information for interface %s" (str name ∷ [])))
    return (neighbor_reply name mac system_name handle)
