-- ===== src/Agent/Listing.antt =====
-- The operations of the agent that list: ListInterfaces and ListPorts.
pub mod Coded
use sonic_operator.Base.{
  Text, codes, text_eq, is_empty, strip, Bool, false, Option, none, some, List, [], ◌∷◌, ◌++◌,
  if◌then◌else◌, Error, str, Result, ok, err, Exec, return, fail, lift, attempt, or_fail, ◌>>=◌,
  Fields, lookup, field,
}
use sonic_operator.Strconv.{scan_word}
use sonic_operator.Redis.{Redis}
use sonic_operator.Types.{
  Status, Kind, Interface, InterfaceList, Port, PortList, zero_status, ok_status,
}
use sonic_operator.Names.{to_abstract, scan_error}
use sonic_operator.Agent.Host.{Host, State, on_world, bad}
use sonic_operator.Agent.Reads.{status_of, state_key, appl_key, link_mac, port_alias, open_db}

-- fmt.Sscanf(key, prefix + "%s", &name)
unfoldable pub scan_name : Text → Text → Option Text
scan_name prefix key = elim (strip prefix key) [ none ↦ none | some rest ↦ scan_word rest ]

-- Whether the fields show a physical port: one that is its own parent.
unfoldable pub is_physical : Text → Fields → Bool
is_physical name fields = elim (lookup (codes "parent_port") fields) [
  | none ↦ false
  | some parent ↦ text_eq parent name
]

-- The port that an entry of PORT_TABLE adds.
unfoldable pub port_of : Text → Fields → List Port
unfolding is_physical
port_of name fields =
    let alias = field (codes "alias") fields in
    if is_physical name fields
    then record {
      kind = Kind.port_kind;
      name = name;
      alias = if is_empty alias then name else alias;
      status = ok_status;
    }
      ∷ []
    else []

interface_listed : Text → Text → Text → Text → Fields → Fields → Interface
interface_listed name abstract alias mac appl_fields state_fields = record {
  kind = Kind.interface_kind;
  name = abstract;
  native_name = name;
  alias_name = alias;
  mac_address = mac;
  operation_status = status_of (codes "oper_status") appl_fields;
  admin_status = status_of (codes "admin_status") state_fields;
  status = zero_status;
}

module _ {W Client : Type 0} (redis : Redis W Client) (host : Host W Client) where
  abbrev Agent : Type 0 → Type 0
  Agent A = Exec (State W Client) Status A

  name_of_key : Text → Agent Text
  name_of_key key = elim (scan_name (codes "PORT|") key) [
    | none ↦ fail (bad "failed to parse interface name from key %s: %v" (str key ∷ []) scan_error)
    | some name ↦ return name
  ]

  fields_or_none : Result Error Fields → Fields
  fields_or_none (ok fields) = fields
  fields_or_none (err e) = []

  -- One round of the loop of ListInterfaces.
  unfoldable pub read_interface : Client → Client → Client → Text → Agent Interface
  unfolding name_of_key fields_or_none interface_listed
  read_interface config_db state_db appl_db key = do
    name ← name_of_key key
    state_fields ← attempt (on_world (redis.hgetall state_db (state_key name)))
    appl_fields ←
        or_fail (bad "failed to get state info for interface %s: %v" (str name ∷ []))
          (on_world (redis.hgetall appl_db (appl_key name)))
    mac ← link_mac redis host name
    abstract ← lift (elim (to_abstract name) [
      | ok a ↦ ok a
      | err e ↦ err (bad "failed to convert native name to abstract name: %v" [] e)
    ])
    alias ← port_alias redis host config_db name
    return (interface_listed name abstract alias mac appl_fields (fields_or_none state_fields))

  unfoldable pub interfaces_loop :
      Client → Client → Client → List Text → List Interface → Agent (List Interface)
  interfaces_loop config_db state_db appl_db [] interfaces = return interfaces
  interfaces_loop config_db state_db appl_db (key ∷ keys) interfaces = do
    iface ← read_interface config_db state_db appl_db key
    interfaces_loop config_db state_db appl_db keys (interfaces ++ iface ∷ [])

  unfoldable pub list_interfaces : Agent InterfaceList
  unfolding interfaces_loop
  list_interfaces = do
    config_db ← open_db redis host "CONFIG_DB" "failed to connect to CONFIG_DB: %v"
    state_db ← open_db redis host "STATE_DB" "failed to connect to STATE_DB: %v"
    appl_db ← open_db redis host "APPL_DB" "failed to connect to APPL_DB: %v"
    keys ←
        or_fail (bad "failed to obtain iface keys: %v" [])
          (on_world (redis.keys config_db (codes "PORT|*")))
    interfaces ← interfaces_loop config_db state_db appl_db keys []
    return (record { kind = Kind.interface_list_kind; items = interfaces; status = ok_status })

  -- What the fields of an entry add, if they can be read.
  add_port : Text → Result Error Fields → List Port → List Port
  add_port name (err e) ports = ports
  add_port name (ok fields) ports = ports ++ port_of name fields

  -- One round of the loop of ListPorts: what is malformed, unreadable or not physical is skipped.
  unfoldable pub read_port : Client → Text → List Port → Agent (List Port)
  unfolding add_port
  read_port appl_db key ports = elim (scan_name (codes "PORT_TABLE:") key) [
    | none ↦ return ports
    | some name ↦ do
      fields ← attempt (on_world (redis.hgetall appl_db key))
      return (add_port name fields ports)
  ]

  unfoldable pub ports_loop : Client → List Text → List Port → Agent (List Port)
  ports_loop appl_db [] ports = return ports
  ports_loop appl_db (key ∷ keys) ports = do
    ports' ← read_port appl_db key ports
    ports_loop appl_db keys ports'

  unfoldable pub list_ports : Agent PortList
  unfolding ports_loop
  list_ports = do
    appl_db ← open_db redis host "APPL_DB" "failed to connect to APPL_DB: %v"
    keys ←
        or_fail (bad "failed to obtain PORT_TABLE keys: %v" [])
          (on_world (redis.keys appl_db (codes "PORT_TABLE:*")))
    ports ← ports_loop appl_db keys []
    return (record { kind = Kind.port_list_kind; items = ports; status = ok_status })
