-- ===== src/Print.antt =====
-- internal/agent/agent_client/client/print_render.go: how the client prints what it returns.
pub mod Output
use sonic_operator.Base.{
  ℕ, Text, String, codes, text_eq, is_empty, trim_prefix, ◌++◌, ◌==◌, Bool, true, false, Option,
  none, some, List, [], ◌∷◌, map, if◌then◌else◌, Error, errorf, wrapf, Arg, str, int, Result, ok,
  err, Exec, return, fail, lift, or_fail, ◌>>=◌, ◌>>◌, Dict, lookup, insert,
}
use sonic_operator.Base.Int.{ℤ, pos, ltb_ℤ}
use sonic_operator.Strconv.{atoi_or}
use sonic_operator.Types.{
  Status, SwitchDevice, Interface, InterfaceNeighbor, InterfaceList, Port, PortList, Kind,
  device_name, new_error_status, bad_request, client_error,
}

-- What Print is given: a value of one of the types of the agent, or of another type, by its name.
pub data Value : Type 0 where
  device_value : SwitchDevice → Value
  interface_value : Interface → Value
  port_value : Port → Value
  neighbor_value : InterfaceNeighbor → Value
  interfaces_value : InterfaceList → Value
  ports_value : PortList → Value
  other_value : Text → Value

-- agent.Object, by what its methods return.
pub record Object : Type 0 where
  pub kind : Kind
  pub name : Text
  pub status : Status

-- agent.List, likewise.
pub record Objects : Type 0 where
  pub items : List Object
  pub status : Status

interface_object : Interface → Object
interface_object iface = record { kind = iface.kind; name = iface.name; status = iface.status }

port_object : Port → Object
port_object port = record { kind = port.kind; name = port.name; status = port.status }

-- The first case of a type switch on agent.Object, agent.List and the rest.
pub data View : Type 0 where
  an_object : Object → View
  a_list : Objects → View
  nothing_known : Text → View

unfoldable pub view : Value → View
unfolding interface_object port_object
view (device_value d) =
    an_object (record { kind = d.kind; name = device_name d; status = d.status })
view (interface_value iface) = an_object (interface_object iface)
view (port_value p) = an_object (port_object p)
view (neighbor_value n) = an_object (record { kind = n.kind; name = n.name; status = n.status })
view (interfaces_value list) =
    a_list (record { items = map interface_object list.items; status = list.status })
view (ports_value list) =
    a_list (record { items = map port_object list.items; status = list.status })
view (other_value name) = nothing_known name

-- The kinds are the names of the types.
unfoldable pub kind_name : Kind → Text
kind_name Kind.no_kind = []
kind_name Kind.device_kind = codes "SwitchDevice"
kind_name Kind.interface_kind = codes "Interface"
kind_name Kind.interface_list_kind = codes "InterfaceList"
kind_name Kind.port_kind = codes "Port"
kind_name Kind.port_list_kind = codes "PortList"
kind_name Kind.interface_neighbor_kind = codes "InterfaceNeighbor"

-- strings.ToLower of a kind.
unfoldable pub lower_kind : Kind → Text
lower_kind Kind.no_kind = []
lower_kind Kind.device_kind = codes "switchdevice"
lower_kind Kind.interface_kind = codes "interface"
lower_kind Kind.interface_list_kind = codes "interfacelist"
lower_kind Kind.port_kind = codes "port"
lower_kind Kind.port_list_kind = codes "portlist"
lower_kind Kind.interface_neighbor_kind = codes "interfaceneighbor"

-- What BasicRenderer writes for an object.
unfoldable pub object_line : Object → Text
unfolding lower_kind
object_line obj =
    if is_empty (lower_kind obj.kind)
    then obj.name
    else lower_kind obj.kind ++ (codes "/" ++ obj.name)

pub data Cell : Type 0 where
  text : Text → Cell
  number : ℕ → Cell

pub record TableData : Type 0 where
  pub headers : List String
  pub rows : List (List Cell)

device_row : SwitchDevice → List Cell
device_row d =
    text (device_name d)
    ∷ text d.local_mac_address
    ∷ text d.hwsku
    ∷ text d.sonic_os_version
    ∷ text d.asic_type
    ∷ number d.readiness
    ∷ []

interface_row : Interface → List Cell
interface_row iface =
    text iface.name
    ∷ text iface.native_name
    ∷ text iface.alias_name
    ∷ text iface.mac_address
    ∷ text iface.operation_status
    ∷ text iface.admin_status
    ∷ []

port_row : Port → List Cell
port_row p = text p.name ∷ text p.alias ∷ []

neighbor_row : InterfaceNeighbor → List Cell
neighbor_row n = text n.system_name ∷ text n.handle ∷ text n.mac_address ∷ []

-- The number in a native name; what Atoi gives beside an error counts too.
unfoldable pub port_number : Interface → ℤ
port_number iface = atoi_or (trim_prefix iface.native_name (codes "Ethernet"))

unfoldable pub by_number : Interface → Interface → Bool
unfolding port_number
by_number i j = ltb_ℤ (port_number i) (port_number j)

-- sort.Slice is a parameter.
module _ (sort_slice : (Interface → Interface → Bool) → List Interface → List Interface) where
  unfoldable pub interface_table : List Interface → TableData
  unfolding interface_row by_number
  interface_table ifaces = record {
    headers =
        "Name" ∷ "Native Name" ∷ "Alias Name" ∷ "MAC Address" ∷ "Operation Status" ∷ "Admin Status"
        ∷ [];
    rows = map interface_row (sort_slice by_number ifaces);
  }

  port_table : List Port → TableData
  unfolding port_row
  port_table list = record { headers = "Name" ∷ "Alias" ∷ []; rows = map port_row list }

  -- ConvertToTable
  unfoldable pub to_table : Value → Result Error TableData
  unfolding device_row interface_table port_table neighbor_row
  to_table (device_value d) = ok (record {
    headers =
        "Name" ∷ "MAC Address" ∷ "HW SKU" ∷ "Sonic OS Version" ∷ "ASIC Type" ∷ "Readiness" ∷ [];
    rows = device_row d ∷ [];
  })
  to_table (interface_value iface) = ok (interface_table (iface ∷ []))
  to_table (interfaces_value list) = ok (interface_table list.items)
  to_table (ports_value list) = ok (port_table list.items)
  to_table (port_value p) = ok (port_table (p ∷ []))
  to_table (neighbor_value n) = ok (record {
    headers = "Neighbor Name" ∷ "Handle" ∷ "MAC Address" ∷ [];
    rows = neighbor_row n ∷ [];
  })
  to_table (other_value name) =
      err (errorf "unsupported type %T for table conversion" (str name ∷ []))

-- The renderers, and the registry of them by name.
pub data Renderer : Type 0 where
  basic table : Renderer

-- RegisterRenderer
unfoldable pub register : Text → Renderer → Dict Renderer → Result Error (Dict Renderer)
register name renderer registry = elim (lookup name registry) [
  | none ↦ ok (insert name renderer registry)
  | some known ↦ err (errorf "renderer %s already registered" (str name ∷ []))
]

after_basic : Result Error (Dict Renderer) → Result Error (Dict Renderer)
unfolding register
after_basic (err e) = err e
after_basic (ok registry) = register (codes "table") table registry

-- registerDefaultRenderers, on an empty registry; an error is a panic of NewDefaultPrintRender.
unfoldable pub default_renderers : Result Error (Dict Renderer)
unfolding after_basic register
default_renderers = after_basic (register (codes "basic") basic [])

-- GetRenderer
unfoldable pub get_renderer : Text → Dict Renderer → Result Error Renderer
get_renderer name registry = elim (lookup name registry) [
  | some renderer ↦ ok renderer
  | none ↦ err (errorf "renderer %s not found" (str name ∷ []))
]
