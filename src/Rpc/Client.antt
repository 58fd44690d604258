-- ===== src/Rpc/Client.antt =====
-- internal/agent/agent_client/client/client.go: the operations of defaultSwitchAgentClient.
pub mod Connection
use sonic_operator.Base.{
  Text, String, Bool, true, false, codes, is_empty, ◌==◌, Option, none, some, [], map,
  if◌then◌else◌, Error, foreign, wrapf, Result, ok, err, Exec, return, lift, or_fail, ◌>>=◌,
}
use sonic_operator.Types.{
  Status, SwitchDevice, Interface, InterfaceNeighbor, InterfaceList, Port, PortList, Kind,
  empty_interface, zero_status,
}
use sonic_operator.Names.{to_native}
use sonic_operator.Rpc.Messages.{
  PbStatus, PbInterface, PbPort, PbNeighbor, DeviceInfoResponse, InterfacesResponse, PortsResponse,
  NeighborResponse, Service,
}

-- A call that returns an error may return a value beside it. A panic is a failure that is marked, for
-- its callers to pass on.
pub record Failure (A : Type 0) : Type 0 where
  pub value : Option A
  pub error : Error
  pub panics : Bool

unfoldable pub nothing : {A : Type 0} → Error → Failure A
nothing e = record { value = none; error = e; panics = false }

-- Following a nil pointer is a panic, which no caller recovers from.
abbrev pub panicked : {A : Type 0} → Failure A
panicked = record {
  value = none;
  error = foreign (codes "invalid memory address or nil pointer dereference");
  panics = true;
}

-- ProtoStatusToStatus
unfoldable pub of_proto_status : Option PbStatus → Status
of_proto_status none = zero_status
of_proto_status (some status) = record { code = status.code; message = status.message }

-- The getters of a message that may be nil give the zero values.
unfoldable pub interface_or_zero : Option PbInterface → PbInterface
interface_or_zero (some iface) = iface
interface_or_zero none = record {
  name = [];
  native_name = [];
  alias_name = [];
  operational_status = [];
  admin_status = [];
  mac_address = [];
}

unfoldable pub neighbor_or_zero : Option PbNeighbor → PbNeighbor
neighbor_or_zero (some neighbor) = neighbor
neighbor_or_zero none = record { neighbor_interface_name = []; mac_address = []; system_name = [] }

-- The interface that carries the status of a refusal, and nothing else.
unfoldable pub status_interface : Status → Interface
status_interface status = record empty_interface { status = status }

unfoldable pub status_neighbor : Status → InterfaceNeighbor
status_neighbor status = record {
  kind = Kind.no_kind;
  name = [];
  mac_address = [];
  system_name = [];
  handle = [];
  status = status;
}

unfoldable pub refuse : {A : Type 0} → (Status → A) → String → PbStatus → Failure A
unfolding of_proto_status
refuse carry format status = record {
  value = some (carry (of_proto_status (some status)));
  error = wrapf format [] status.message;
  panics = false;
}

-- if resp.GetStatus().Code != 0 { … }, which follows a nil status.
unfoldable pub check_status :
    {A : Type 0} → (Status → A) → String → Option PbStatus → Result (Failure A) PbStatus
unfolding refuse
check_status carry format none = err panicked
check_status carry format (some status) =
    if status.code == 0 then ok status else err (refuse carry format status)

unfoldable pub of_interface : PbInterface → Interface
of_interface iface = record {
  kind = Kind.interface_kind;
  name = iface.name;
  native_name = iface.native_name;
  alias_name = iface.alias_name;
  mac_address = iface.mac_address;
  operation_status = iface.operational_status;
  admin_status = iface.admin_status;
  status = zero_status;
}

unfoldable pub of_port : PbPort → Port
of_port port = record {
  kind = Kind.port_kind;
  name = port.name;
  alias = port.alias;
  status = zero_status;
}

unfoldable pub device_of : DeviceInfoResponse → SwitchDevice
unfolding of_proto_status
device_of resp = record {
  kind = Kind.device_kind;
  local_mac_address = resp.local_mac_address;
  hwsku = resp.hwsku;
  sonic_os_version = resp.sonic_os_version;
  asic_type = resp.asic_type;
  readiness = resp.readiness;
  status = of_proto_status resp.status;
}

unfoldable pub interfaces_of : InterfacesResponse → InterfaceList
unfolding of_proto_status of_interface
interfaces_of resp = record {
  kind = Kind.interface_list_kind;
  items = map of_interface resp.interfaces;
  status = of_proto_status resp.status;
}

unfoldable pub ports_of : PortsResponse → PortList
unfolding of_proto_status of_port
ports_of resp = record {
  kind = Kind.port_list_kind;
  items = map of_port resp.ports;
  status = of_proto_status resp.status;
}

-- What SetInterfaceAdminStatus makes of its argument, which it changes and returns.
unfoldable pub with_admin : Interface → PbStatus → PbInterface → Interface
unfolding of_proto_status
with_admin iface status got = record iface {
  name = got.name;
  alias_name = got.alias_name;
  native_name = got.native_name;
  mac_address = got.mac_address;
  admin_status = got.admin_status;
  operation_status = got.operational_status;
  status = of_proto_status (some status);
}

-- As SetInterfaceAliasName, which leaves the names of its argument alone.
unfoldable pub with_alias : Interface → PbStatus → PbInterface → Interface
unfolding of_proto_status
with_alias iface status got = record iface {
  admin_status = got.admin_status;
  operation_status = got.operational_status;
  status = of_proto_status (some status);
}

-- What GetInterfaceByAbstractName returns; the names are fields of a message that is not tested for
-- nil.
unfoldable pub found_interface :
    PbStatus → Option PbInterface → Result (Failure Interface) Interface
unfolding of_interface of_proto_status
found_interface status none = err panicked
found_interface status (some got) =
    ok (record (of_interface got) { status = of_proto_status (some status) })

unfoldable pub found_neighbor : PbStatus → NeighborResponse → InterfaceNeighbor
unfolding of_proto_status neighbor_or_zero
found_neighbor status resp = record {
  kind = Kind.interface_neighbor_kind;
  name = resp.interface;
  mac_address = (neighbor_or_zero resp.neighbor).mac_address;
  system_name = (neighbor_or_zero resp.neighbor).system_name;
  handle = (neighbor_or_zero resp.neighbor).neighbor_interface_name;
  status = of_proto_status (some status);
}

-- The address that NewDefaultSwitchAgentClient keeps.
unfoldable pub client_address : Text → Text
client_address address = if is_empty address then codes "localhost:50051" else address

-- grpc.NewClient and conn.Close are parameters, and so are the calls over the connection. The error
-- of closing is dropped.
module _ {N : Type 0} (new_client : Text → Exec N Error (Unit {0}))
    (close : Exec N Error (Unit {0})) (service : Service N) (address : Text) where
  abbrev Call : Type 0 → Type 0
  Call A = Exec N (Failure A) A

  dial_failed : {A : Type 0} → Error → Failure A
  unfolding nothing
  dial_failed e = nothing (wrapf "failed to connect to switch proxy: %w" [] e)

  closing : {A : Type 0} → Result (Failure A) A × N → Result (Failure A) A × N
  closing r = (r.0, (close r.1).1)

  after_dial : {A : Type 0} → Call A → Result Error (Unit {0}) → Call A
  unfolding dial_failed closing
  after_dial m (err e) n = (err (dial_failed e), n)
  after_dial m (ok u) n = closing (m n)

  -- dial, the body of an operation, and the deferred cleanup.
  unfoldable pub connected : {A : Type 0} → Call A → Call A
  unfolding after_dial
  connected m n = after_dial m (new_client address n).0 (new_client address n).1

  unfoldable pub get_device_info : Call SwitchDevice
  unfolding connected nothing device_of
  get_device_info =
      connected (do resp ← or_fail nothing service.get_device_info; return (device_of resp))

  unfoldable pub list_interfaces : Call InterfaceList
  unfolding connected nothing interfaces_of
  list_interfaces =
      connected (do resp ← or_fail nothing service.list_interfaces; return (interfaces_of resp))

  unfoldable pub list_ports : Call PortList
  unfolding connected nothing ports_of
  list_ports = connected (do resp ← or_fail nothing service.list_ports; return (ports_of resp))

  unfoldable pub set_interface_admin_status : Interface → Call Interface
  unfolding connected nothing check_status status_interface with_admin interface_or_zero
  set_interface_admin_status iface = connected (do
    resp ← or_fail nothing (
        service.set_interface_admin_status
          (record { interface_name = iface.name; admin_status = iface.admin_status }))
    status ←
        lift (check_status status_interface "failed to set interface admin status: %s" resp.status)
    return (with_admin iface status (interface_or_zero resp.interface)))

  unfoldable pub set_interface_alias_name : Interface → Call Interface
  unfolding connected nothing check_status status_interface with_alias interface_or_zero
  set_interface_alias_name iface = connected (do
    resp ← or_fail nothing (
        service.set_interface_alias_name
          (record { interface_name = iface.name; alias_name = iface.alias_name }))
    status ←
        lift (check_status status_interface "failed to set interface alias name: %s" resp.status)
    return (with_alias iface status (interface_or_zero resp.interface)))

  unfoldable pub native_or_fail : Result Error Text → Result (Failure Interface) Text
  unfolding nothing
  native_or_fail (ok name) = ok name
  native_or_fail (err e) = err (nothing e)

  unfoldable pub get_interface_by_abstract_name : Interface → Call Interface
  unfolding connected nothing native_or_fail check_status status_interface found_interface
  get_interface_by_abstract_name iface = connected (do
    native ← lift (native_or_fail (to_native iface.name))
    resp ← or_fail nothing (service.get_interface native)
    status ← lift (check_status status_interface "failed to get interface: %s" resp.status)
    lift (found_interface status resp.interface))

  unfoldable pub get_interface_neighbor : Interface → Call InterfaceNeighbor
  unfolding connected nothing check_status status_neighbor found_neighbor
  get_interface_neighbor iface = connected (do
    resp ← or_fail nothing (service.get_interface_neighbor iface.name)
    status ← lift (check_status status_neighbor "failed to get interface neighbor: %s" resp.status)
    return (found_neighbor status resp))

  unfoldable pub no_value : Status → Unit {0}
  no_value status = tt

  unfoldable pub save_config : Call (Unit {0})
  unfolding connected nothing check_status no_value
  save_config = connected (do
    resp ← or_fail nothing service.save_config
    status ← lift (check_status no_value "failed to save config: %s" resp.status)
    return tt)
