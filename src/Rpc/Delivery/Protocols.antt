-- ===== src/Rpc/Delivery/Protocols.antt =====
-- How each operation of the client reads the response of its handler.
use sonic_operator.Base.{refl, Text, String, wrapf, errorf, [], ok}
use sonic_operator.Types.{Status, Interface, InterfaceNeighbor, Kind}
use sonic_operator.Rpc.Messages.{PbStatus, InterfaceResponse, NeighborResponse, SaveConfigResponse}
use sonic_operator.Rpc.Server.{
  refused, refused_as, to_interface, to_admin_interface, to_alias_interface, to_neighbor,
  admin_response, alias_response, interface_response, neighbor_response, save_response,
}
use sonic_operator.Rpc.Client.{
  of_proto_status, interface_or_zero, with_admin, with_alias, of_interface, found_interface,
  found_neighbor, neighbor_or_zero,
}
use sonic_operator.Rpc.Delivery.{Protocol}

-- The status of a success, as the server sends it.
abbrev pub granted : PbStatus
granted = record { code = 0; message = errorf "Success" [] }

-- The status of a refusal, as it is or wrapped.
abbrev pub as_is : Status → PbStatus
as_is status = record { code = status.code; message = status.message }

abbrev pub wrapped : String → Status → PbStatus
wrapped format status = record { code = status.code; message = wrapf format [] status.message }

-- The status of a success, as the client shows it.
abbrev pub shown_success : Status
shown_success = record { code = 0; message = errorf "Success" [] }

-- What the client shows of the agent's reply to SetInterfaceAdminStatus: its name and its two states,
-- and nothing in place of the other names and the address.
abbrev pub show_admin : Interface → Interface → Interface
show_admin iface reply = record {
  kind = iface.kind;
  name = reply.name;
  native_name = [];
  alias_name = [];
  mac_address = [];
  operation_status = reply.operation_status;
  admin_status = reply.admin_status;
  status = shown_success;
}

unfoldable pub admin_protocol : Interface → Protocol InterfaceResponse Interface Interface
unfolding admin_response refused interface_or_zero with_admin to_admin_interface of_proto_status
admin_protocol iface = record {
  respond = admin_response;
  status = λ resp. resp.status;
  decode = λ status resp. ok (with_admin iface status (interface_or_zero resp.interface));
  show = show_admin iface;
  refusal = as_is;
  refusal_code = λ st. refl;
  refused_status = λ st. refl;
  granted = granted;
  granted_code = refl;
  granted_status = λ b. refl;
  decoded = λ b. refl;
}

-- As SetInterfaceAliasName: the caller's interface with the two states of the reply.
abbrev pub show_alias : Interface → Interface → Interface
show_alias iface reply = record iface {
  operation_status = reply.operation_status;
  admin_status = reply.admin_status;
  status = shown_success;
}

unfoldable pub alias_protocol : Interface → Protocol InterfaceResponse Interface Interface
unfolding alias_response refused interface_or_zero with_alias to_alias_interface of_proto_status
alias_protocol iface = record {
  respond = alias_response;
  status = λ resp. resp.status;
  decode = λ status resp. ok (with_alias iface status (interface_or_zero resp.interface));
  show = show_alias iface;
  refusal = as_is;
  refusal_code = λ st. refl;
  refused_status = λ st. refl;
  granted = granted;
  granted_code = refl;
  granted_status = λ b. refl;
  decoded = λ b. refl;
}

-- As GetInterfaceByAbstractName: all that the agent found.
abbrev pub show_interface : Interface → Interface
show_interface reply = record reply { kind = Kind.interface_kind; status = shown_success }

unfoldable pub interface_protocol : Protocol InterfaceResponse Interface Interface
unfolding interface_response refused_as found_interface of_interface to_interface of_proto_status
interface_protocol = record {
  respond = interface_response;
  status = λ resp. resp.status;
  decode = λ status resp. found_interface status resp.interface;
  show = show_interface;
  refusal = wrapped "failed to get interface: %v";
  refusal_code = λ st. refl;
  refused_status = λ st. refl;
  granted = granted;
  granted_code = refl;
  granted_status = λ b. refl;
  decoded = λ b. refl;
}

-- As GetInterfaceNeighbor: the neighbor that the agent found, by the name of the interface.
abbrev pub show_neighbor : Text → InterfaceNeighbor → InterfaceNeighbor
show_neighbor name reply = record {
  kind = Kind.interface_neighbor_kind;
  name = name;
  mac_address = reply.mac_address;
  system_name = reply.system_name;
  handle = reply.handle;
  status = shown_success;
}

-- What comes with a refusal: its status, and nothing else.
abbrev pub refused_interface : Status → Interface
refused_interface status = record {
  kind = Kind.no_kind;
  name = [];
  native_name = [];
  alias_name = [];
  mac_address = [];
  operation_status = [];
  admin_status = [];
  status = status;
}

abbrev pub refused_neighbor : Status → InterfaceNeighbor
refused_neighbor status = record {
  kind = Kind.no_kind;
  name = [];
  mac_address = [];
  system_name = [];
  handle = [];
  status = status;
}

unfoldable pub neighbor_protocol :
    Text → Protocol NeighborResponse InterfaceNeighbor InterfaceNeighbor
unfolding neighbor_response refused_as found_neighbor to_neighbor of_proto_status neighbor_or_zero
neighbor_protocol name = record {
  respond = neighbor_response name;
  status = λ resp. resp.status;
  decode = λ status resp. ok (found_neighbor status resp);
  show = show_neighbor name;
  refusal = wrapped "failed to get interface neighbor: %v";
  refusal_code = λ st. refl;
  refused_status = λ st. refl;
  granted = granted;
  granted_code = refl;
  granted_status = λ b. refl;
  decoded = λ b. refl;
}

unfoldable pub save_protocol : Protocol SaveConfigResponse (Unit {0}) (Unit {0})
unfolding save_response refused_as
save_protocol = record {
  respond = save_response;
  status = λ resp. resp.status;
  decode = λ status resp. ok tt;
  show = λ u. tt;
  refusal = wrapped "failed to save config: %v";
  refusal_code = λ st. refl;
  refused_status = λ st. refl;
  granted = granted;
  granted_code = refl;
  granted_status = λ b. refl;
  decoded = λ b. refl;
}
