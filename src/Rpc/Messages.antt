-- ===== src/Rpc/Messages.antt =====
-- pkg/agent/proto/switch_agent.proto and internal/agent/interface: the messages, the calls of the
-- service, and the interface of an agent.
use sonic_operator.Base.{ℕ, Text, Option, List, Error, Exec}
use sonic_operator.Types.{
  Status, SwitchDevice, Interface, InterfaceList, InterfaceNeighbor, PortList,
}

-- A message field that is a message may be nil.
pub record PbStatus : Type 0 where
  pub code : ℕ
  pub message : Error

pub record PbInterface : Type 0 where
  pub name : Text
  pub native_name : Text
  pub alias_name : Text
  pub operational_status : Text
  pub admin_status : Text
  pub mac_address : Text

pub record PbPort : Type 0 where
  pub name : Text
  pub alias : Text

pub record PbNeighbor : Type 0 where
  pub neighbor_interface_name : Text
  pub mac_address : Text
  pub system_name : Text

pub record DeviceInfoResponse : Type 0 where
  pub status : Option PbStatus
  pub hwsku : Text
  pub local_mac_address : Text
  pub sonic_os_version : Text
  pub asic_type : Text
  pub readiness : ℕ

pub record InterfacesResponse : Type 0 where
  pub status : Option PbStatus
  pub interfaces : List PbInterface

pub record AdminStatusRequest : Type 0 where
  pub interface_name : Text
  pub admin_status : Text

pub record AliasNameRequest : Type 0 where
  pub interface_name : Text
  pub alias_name : Text

-- The response of GetInterface, SetInterfaceAdminStatus and SetInterfaceAliasName.
pub record InterfaceResponse : Type 0 where
  pub status : Option PbStatus
  pub interface : Option PbInterface

pub record PortsResponse : Type 0 where
  pub status : Option PbStatus
  pub ports : List PbPort

pub record NeighborResponse : Type 0 where
  pub status : Option PbStatus
  pub interface : Text
  pub neighbor : Option PbNeighbor

pub record SaveConfigResponse : Type 0 where
  pub status : Option PbStatus

-- SwitchAgentServiceClient: a call gets a response or an error of the transport. The requests of
-- one name are that name.
pub record Service (N : Type 0) : Type 0 where
  pub get_device_info : Exec N Error DeviceInfoResponse
  pub list_interfaces : Exec N Error InterfacesResponse
  pub set_interface_admin_status : AdminStatusRequest → Exec N Error InterfaceResponse
  pub set_interface_alias_name : AliasNameRequest → Exec N Error InterfaceResponse
  pub get_interface : Text → Exec N Error InterfaceResponse
  pub get_interface_neighbor : Text → Exec N Error NeighborResponse
  pub list_ports : Exec N Error PortsResponse
  pub save_config : Exec N Error SaveConfigResponse

-- SwitchAgent of agent_interface.go: a value, or a status that is not nil.
pub record SwitchAgent (S : Type 0) : Type 0 where
  pub get_device_info : Exec S Status SwitchDevice
  pub list_interfaces : Exec S Status InterfaceList
  pub set_interface_admin_status : Option Interface → Exec S Status Interface
  pub set_interface_alias_name : Option Interface → Exec S Status Interface
  pub get_interface : Option Interface → Exec S Status Interface
  pub get_interface_neighbor : Option Interface → Exec S Status InterfaceNeighbor
  pub list_ports : Exec S Status PortList
  pub save_config : Exec S Status (Unit {0})
