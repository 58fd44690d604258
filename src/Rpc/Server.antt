-- ===== src/Rpc/Server.antt =====
-- internal/agent/agent_server/server.go: the handlers of proxyServer.
use sonic_operator.Base.{
  Text, String, Option, none, some, [], map, errorf, wrapf, Result, ok, err, Exec,
}
use sonic_operator.Types.{
  Status, SwitchDevice, Interface, InterfaceNeighbor, InterfaceList, Port, PortList, Kind,
  empty_interface,
}
use sonic_operator.Agent.Host.{Host, State}
use sonic_operator.Redis.{Redis}
use sonic_operator.Agent.Reads
use sonic_operator.Agent.Listing
use sonic_operator.Agent.Writes
use sonic_operator.Rpc.Messages.{
  PbStatus, PbInterface, PbPort, PbNeighbor, DeviceInfoResponse, InterfacesResponse,
  AdminStatusRequest, AliasNameRequest, InterfaceResponse, PortsResponse, NeighborResponse,
  SaveConfigResponse, SwitchAgent,
}

-- &pb.Status{Code: 0, Message: "Success"}
abbrev pub success : Option PbStatus
success = some (record { code = 0; message = errorf "Success" [] })

-- The status of the agent, as it is.
unfoldable pub refused : Status → Option PbStatus
refused status = some (record { code = status.code; message = status.message })

-- The status of the agent with fmt.Sprintf(format, status.Message).
unfoldable pub refused_as : String → Status → Option PbStatus
refused_as format status =
    some (record { code = status.code; message = wrapf format [] status.message })

-- The message of an interface, as ListInterfaces and GetInterface fill it.
unfoldable pub to_interface : Interface → PbInterface
to_interface iface = record {
  name = iface.name;
  native_name = iface.native_name;
  alias_name = iface.alias_name;
  operational_status = iface.operation_status;
  admin_status = iface.admin_status;
  mac_address = iface.mac_address;
}

-- As SetInterfaceAdminStatus fills it.
unfoldable pub to_admin_interface : Interface → PbInterface
to_admin_interface iface = record {
  name = iface.name;
  native_name = [];
  alias_name = [];
  operational_status = iface.operation_status;
  admin_status = iface.admin_status;
  mac_address = [];
}

-- As SetInterfaceAliasName fills it.
unfoldable pub to_alias_interface : Interface → PbInterface
to_alias_interface iface = record {
  name = iface.name;
  native_name = iface.native_name;
  alias_name = iface.alias_name;
  operational_status = iface.operation_status;
  admin_status = iface.admin_status;
  mac_address = [];
}

unfoldable pub to_port : Port → PbPort
to_port port = record { name = port.name; alias = port.alias }

unfoldable pub to_neighbor : InterfaceNeighbor → PbNeighbor
to_neighbor neighbor = record {
  neighbor_interface_name = neighbor.handle;
  mac_address = neighbor.mac_address;
  system_name = neighbor.system_name;
}

-- The interface that a request names, for the agent.
unfoldable pub named_interface : Text → Interface
named_interface name = record empty_interface { kind = Kind.interface_kind; name = name }

unfoldable pub admin_interface : AdminStatusRequest → Interface
unfolding named_interface
admin_interface request = record (named_interface request.interface_name) {
  admin_status = request.admin_status;
}

unfoldable pub alias_interface : AliasNameRequest → Interface
unfolding named_interface
alias_interface request = record (named_interface request.interface_name) {
  alias_name = request.alias_name;
}

unfoldable pub device_response : Result Status SwitchDevice → DeviceInfoResponse
unfolding refused
device_response (err status) = record {
  status = refused status;
  hwsku = [];
  local_mac_address = [];
  sonic_os_version = [];
  asic_type = [];
  readiness = 0;
}
device_response (ok device) = record {
  status = success;
  hwsku = device.hwsku;
  local_mac_address = device.local_mac_address;
  sonic_os_version = device.sonic_os_version;
  asic_type = device.asic_type;
  readiness = device.readiness;
}

unfoldable pub interfaces_response : Result Status InterfaceList → InterfacesResponse
unfolding refused_as to_interface
interfaces_response (err status) = record {
  status = refused_as "failed to list interfaces: %v" status;
  interfaces = [];
}
interfaces_response (ok list) = record {
  status = success;
  interfaces = map to_interface list.items;
}

unfoldable pub admin_response : Result Status Interface → InterfaceResponse
unfolding refused to_admin_interface
admin_response (err status) = record { status = refused status; interface = none }
admin_response (ok iface) = record { status = success; interface = some (to_admin_interface iface) }

unfoldable pub ports_response : Result Status PortList → PortsResponse
unfolding refused_as to_port
ports_response (err status) = record {
  status = refused_as "failed to list ports: %v" status;
  ports = [];
}
ports_response (ok list) = record { status = success; ports = map to_port list.items }

unfoldable pub interface_response : Result Status Interface → InterfaceResponse
unfolding refused_as to_interface
interface_response (err status) = record {
  status = refused_as "failed to get interface: %v" status;
  interface = none;
}
interface_response (ok iface) = record { status = success; interface = some (to_interface iface) }

unfoldable pub alias_response : Result Status Interface → InterfaceResponse
unfolding refused to_alias_interface
alias_response (err status) = record { status = refused status; interface = none }
alias_response (ok iface) = record { status = success; interface = some (to_alias_interface iface) }

unfoldable pub neighbor_response : Text → Result Status InterfaceNeighbor → NeighborResponse
unfolding refused_as to_neighbor
neighbor_response name (err status) = record {
  status = refused_as "failed to get interface neighbor: %v" status;
  interface = [];
  neighbor = none;
}
neighbor_response name (ok neighbor) = record {
  status = success;
  interface = name;
  neighbor = some (to_neighbor neighbor);
}

unfoldable pub save_response : Result Status (Unit {0}) → SaveConfigResponse
unfolding refused_as
save_response (err status) = record { status = refused_as "failed to save config: %v" status }
save_response (ok u) = record { status = success }

-- A handler always returns a response, and the error nil.
abbrev pub Handler : Type 0 → Type 0 → Type 0
Handler S A = S → A × S

unfoldable pub answer : {S A B : Type 0} → (Result Status A → B) → Exec S Status A → Handler S B
answer f m s = (f (m s).0, (m s).1)

module _ {S : Type 0} (agent : SwitchAgent S) where
  unfoldable pub get_device_info : Handler S DeviceInfoResponse
  unfolding answer device_response
  get_device_info = answer device_response agent.get_device_info

  unfoldable pub list_interfaces : Handler S InterfacesResponse
  unfolding answer interfaces_response
  list_interfaces = answer interfaces_response agent.list_interfaces

  unfoldable pub set_interface_admin_status : AdminStatusRequest → Handler S InterfaceResponse
  unfolding answer admin_response admin_interface
  set_interface_admin_status request =
      answer admin_response (agent.set_interface_admin_status (some (admin_interface request)))

  unfoldable pub list_ports : Handler S PortsResponse
  unfolding answer ports_response
  list_ports = answer ports_response agent.list_ports

  unfoldable pub get_interface : Text → Handler S InterfaceResponse
  unfolding answer interface_response named_interface
  get_interface name = answer interface_response (agent.get_interface (some (named_interface name)))

  unfoldable pub set_interface_alias_name : AliasNameRequest → Handler S InterfaceResponse
  unfolding answer alias_response alias_interface
  set_interface_alias_name request =
      answer alias_response (agent.set_interface_alias_name (some (alias_interface request)))

  unfoldable pub get_interface_neighbor : Text → Handler S NeighborResponse
  unfolding answer neighbor_response named_interface
  get_interface_neighbor name =
      answer (neighbor_response name) (agent.get_interface_neighbor (some (named_interface name)))

  unfoldable pub save_config : Handler S SaveConfigResponse
  unfolding answer save_response
  save_config = answer save_response agent.save_config

-- SonicAgent as the agent of the server, as StartServer makes it.
abbrev pub sonic_agent :
    {W Client : Type 0} → Redis W Client → Host W Client → SwitchAgent (State W Client)
sonic_agent redis host = record {
  get_device_info = Reads.get_device_info redis host;
  list_interfaces = Listing.list_interfaces redis host;
  set_interface_admin_status = Writes.set_interface_admin_status redis host;
  set_interface_alias_name = Writes.set_interface_alias_name redis host;
  get_interface = Reads.get_interface redis host;
  get_interface_neighbor = Reads.get_interface_neighbor redis host;
  list_ports = Listing.list_ports redis host;
  save_config = Writes.save_config redis host;
}
