-- ===== src/Tests/Rpcs.antt =====
-- The theorems on the client and the server, at a connection that calls the handlers of an agent
-- whose Redis server is the one in memory.
use sonic_operator.Base.{
  Error, ℕ, ◌≡◌, refl, codes, text_eq, lookup, insert, delete, field, some, [], ◌∷◌, ok, arith,
  is_empty, strip, has_prefix, trim_prefix, errorf, wrapf, str, Exec, Text,
}
use sonic_operator.Base.Hoare.{Post}
use sonic_operator.Redis.Memory.{
  Server, memory, memory_laws, with_database, fields_of, set_fields, count, keys_like, before_star,
}
use sonic_operator.Types.{
  status_down, new_error_status, SwitchDevice, InterfaceList, Interface, Kind, empty_interface,
}
use sonic_operator.Agent.Host.{State}
use sonic_operator.Agent.Pool.{redis_db_id, cached, connect_locked, connect, recheck, create}
use sonic_operator.Agent.Reads.{
  resolve, check_name, open_db, port_key, port_alias, present_alias, status_of, appl_key,
}
use sonic_operator.Agent.Writes
use sonic_operator.Agent.Reads
use sonic_operator.Agent.Listing
use sonic_operator.Names.{to_abstract, to_native}
use sonic_operator.Strconv.{scan_int, scan_word, itoa}
use sonic_operator.Tests.Calls.{
  memory_host, memory_host_laws, memory-Quiet, start, one_port, empty-PoolIsValid,
}
use sonic_operator.Rpc.Messages.{Service, SwitchAgent}
use sonic_operator.Rpc.Server.{Handler, sonic_agent, admin_interface, named_interface}
use sonic_operator.Rpc.Server
use sonic_operator.Rpc.Client.{status_interface, status_neighbor}
use sonic_operator.Rpc.Client
use sonic_operator.Rpc.Delivery.{AgentIsCoded, Delivered, Delivers, Connects, Lost}
use sonic_operator.Rpc.Delivery.EndToEnd.{
  sonic-IsCoded, AdminApplied, set-AdminApplied, AliasApplied, set-AliasApplied,
}
use sonic_operator.Rpc.Delivery.Protocols.{
  as_is, refused_interface, refused_neighbor, wrapped, show_admin, show_neighbor, show_interface,
}
use sonic_operator.Rpc.Delivery.Refinement.{
  admin_request, Refines, set_admin-Refines, get_neighbor-Refines, get_by_name-Refines,
}
use sonic_operator.Rpc.Delivery.Lists.{
  Listed, list_interfaces-Listed, Described, get_device_info-Described,
}

abbrev pub Machine : Type 0
Machine = State Server ℕ

-- A call of the handler in place.
abbrev pub local : {A : Type 0} → Handler Machine A → Exec Machine Error A
local handle n = (ok (handle n).0, (handle n).1)

abbrev agent : SwitchAgent Machine
agent = sonic_agent memory memory_host

abbrev pub service_of : SwitchAgent Machine → Service Machine
service_of agent = record {
  get_device_info = local (Server.get_device_info agent);
  list_interfaces = local (Server.list_interfaces agent);
  set_interface_admin_status = λ request. local (Server.set_interface_admin_status agent request);
  set_interface_alias_name = λ request. local (Server.set_interface_alias_name agent request);
  get_interface = λ name. local (Server.get_interface agent name);
  get_interface_neighbor = λ name. local (Server.get_interface_neighbor agent name);
  list_ports = local (Server.list_ports agent);
  save_config = local (Server.save_config agent);
}

abbrev local_service : Service Machine
local_service = service_of agent

coded : AgentIsCoded agent
coded = sonic-IsCoded memory memory_host

abbrev pub here : Machine → Machine
here s = s

local-Delivered : {A : Type 0} (handle : Handler Machine A) → Delivered here (local handle) handle
local-Delivered handle n resp e = ground (arith, e)

pub service_of-Delivers : (agent : SwitchAgent Machine) → Delivers here (service_of agent) agent
service_of-Delivers agent = record {
  device_delivered = local-Delivered (Server.get_device_info agent);
  interfaces_delivered = local-Delivered (Server.list_interfaces agent);
  ports_delivered = local-Delivered (Server.list_ports agent);
  admin_delivered = λ request. local-Delivered (Server.set_interface_admin_status agent request);
  alias_delivered = λ request. local-Delivered (Server.set_interface_alias_name agent request);
  interface_delivered = λ name. local-Delivered (Server.get_interface agent name);
  neighbor_delivered = λ name. local-Delivered (Server.get_interface_neighbor agent name);
  save_delivered = local-Delivered (Server.save_config agent);
}

local-Delivers : Delivers here local_service agent
local-Delivers = service_of-Delivers agent

abbrev pub dial : Text → Exec Machine Error (Unit {0})
dial address n = (ok tt, n)

abbrev pub hang_up : Exec Machine Error (Unit {0})
hang_up n = (ok tt, n)

pub local-Connects : Connects here dial hang_up
local-Connects = record { new_client_keeps = λ address n. refl; close_keeps = λ n. refl }

-- The interface that a caller wants up.
abbrev wanted : Interface
wanted = record empty_interface {
  kind = Kind.interface_kind;
  name = codes "Ethernet0";
  admin_status = codes "up";
}

abbrev applied : Interface
applied = record wanted {
  name = codes "eth0-0";
  operation_status = codes "down";
  status = record { code = 0; message = errorf "Success" [] };
}

admin_runs :
    (Client.set_interface_admin_status dial hang_up local_service [] wanted (start one_port)).0
    ≡ ok applied
unfolding Client.set_interface_admin_status Server.set_interface_admin_status
    Writes.set_interface_admin_status Client.with_admin Server.admin_interface Server.admin_response
    Server.to_admin_interface connect cached connect_locked recheck create lookup insert delete
    field redis_db_id text_eq codes with_database fields_of set_fields count resolve check_name
    is_empty has_prefix open_db Writes.save_config port_key port_alias present_alias to_abstract
    status_of scan_int appl_key trim_prefix status_down itoa Client.connected Client.check_status
    Client.interface_or_zero Client.nothing Client.of_proto_status Client.refuse
    Client.status_interface Server.answer Server.named_interface Server.refused
admin_runs = refl

set-AdminApplied_example :
    AdminApplied memory memory_host memory_laws memory_host_laws memory-Quiet here dial hang_up
      local_service [] local-Connects local-Delivers wanted applied
      (Client.set_interface_admin_status dial hang_up local_service [] wanted (start one_port)).1
set-AdminApplied_example =
    set-AdminApplied memory memory_host memory_laws memory_host_laws memory-Quiet here dial hang_up
      local_service [] local-Connects local-Delivers wanted (start one_port) empty-PoolIsValid
      admin_runs

set_admin-Refines_example :
    Refines here dial hang_up local_service agent [] local-Connects local-Delivers coded
      (agent.set_interface_admin_status (some (admin_interface (admin_request wanted))))
      (local_service.set_interface_admin_status (admin_request wanted))
      (show_admin wanted)
      refused_interface
      as_is
      (start one_port)
      (Client.set_interface_admin_status dial hang_up local_service [] wanted (start one_port))
set_admin-Refines_example =
    set_admin-Refines here dial hang_up local_service agent [] local-Connects local-Delivers coded
      wanted (start one_port)

get_neighbor-Refines_example :
    Refines here dial hang_up local_service agent [] local-Connects local-Delivers coded
      (agent.get_interface_neighbor (some (named_interface (codes "Ethernet0"))))
      (local_service.get_interface_neighbor (codes "Ethernet0"))
      (show_neighbor (codes "Ethernet0"))
      refused_neighbor
      (wrapped "failed to get interface neighbor: %v")
      (start one_port)
      (Client.get_interface_neighbor dial hang_up local_service [] wanted (start one_port))
get_neighbor-Refines_example =
    get_neighbor-Refines here dial hang_up local_service agent [] local-Connects local-Delivers
      coded wanted (start one_port)

abbrev by_name : Interface
by_name = record wanted { name = codes "eth0-0" }

eth0-Ethernet0 : to_native (codes "eth0-0") ≡ ok (codes "Ethernet0")
unfolding to_native has_prefix codes scan_int itoa
eth0-Ethernet0 = refl

get_by_name-Refines_example :
    Refines here dial hang_up local_service agent [] local-Connects local-Delivers coded
      (agent.get_interface (some (named_interface (codes "Ethernet0"))))
      (local_service.get_interface (codes "Ethernet0"))
      show_interface
      refused_interface
      (wrapped "failed to get interface: %v")
      (start one_port)
      (Client.get_interface_by_abstract_name dial hang_up local_service [] by_name (start one_port))
get_by_name-Refines_example =
    get_by_name-Refines here dial hang_up local_service agent [] local-Connects local-Delivers coded
      by_name (codes "Ethernet0") (start one_port) eth0-Ethernet0

abbrev renamed : Interface
renamed = record wanted { alias_name = codes "uplink" }

abbrev answered : Interface
answered = record renamed {
  operation_status = codes "down";
  admin_status = [];
  status = record { code = 0; message = errorf "Success" [] };
}

alias_runs :
    (Client.set_interface_alias_name dial hang_up local_service [] renamed (start one_port)).0
    ≡ ok answered
unfolding Client.set_interface_alias_name Server.set_interface_alias_name
    Writes.set_interface_alias_name Client.with_alias Server.alias_interface Server.alias_response
    Server.to_alias_interface connect cached connect_locked recheck create lookup insert delete
    field redis_db_id text_eq codes with_database fields_of set_fields count resolve check_name
    is_empty has_prefix open_db Writes.save_config port_key port_alias present_alias to_abstract
    status_of scan_int appl_key trim_prefix status_down itoa Client.connected Client.check_status
    Client.interface_or_zero Client.nothing Client.of_proto_status Client.refuse
    Client.status_interface Server.answer Server.named_interface Server.refused
alias_runs = refl

set-AliasApplied_example :
    AliasApplied memory memory_host memory_laws memory_host_laws memory-Quiet here dial hang_up
      local_service [] local-Connects local-Delivers renamed answered
      (Client.set_interface_alias_name dial hang_up local_service [] renamed (start one_port)).1
set-AliasApplied_example =
    set-AliasApplied memory memory_host memory_laws memory_host_laws memory-Quiet here dial hang_up
      local_service [] local-Connects local-Delivers renamed (start one_port) empty-PoolIsValid
      alias_runs

-- The host of the tests knows no link, so that the list is refused.
abbrev empty_list : InterfaceList
empty_list = record {
  kind = Kind.interface_list_kind;
  items = [];
  status = record {
    code = 201;
    message =
        wrapf "failed to list interfaces: %v" []
          (errorf "no MAC address found for interface %s" (str (codes "Ethernet0") ∷ []));
  };
}

list_runs :
    (Client.list_interfaces dial hang_up local_service [] (start one_port)).0 ≡ ok empty_list
unfolding Client.list_interfaces Server.list_interfaces Listing.list_interfaces open_db connect
    cached lookup connect_locked recheck create redis_db_id text_eq codes insert keys_like
    has_prefix before_star Listing.interfaces_loop Listing.read_interface Listing.scan_name appl_key
    Reads.link_mac port_alias port_key present_alias Reads.state_key status_of strip trim_prefix
    delete field to_abstract Client.connected Client.interfaces_of Client.nothing
    Client.of_proto_status Server.answer Server.interfaces_response Server.refused_as itoa scan_int
    scan_word new_error_status status_down
list_runs = refl

list_interfaces-Listed_example :
    Post
      (λ got n.
        Listed (agent.list_interfaces (start one_port)).0 got
        × (n ≡ (agent.list_interfaces (start one_port)).1))
      (λ f n. Lost dial [] local_service.list_interfaces (start one_port))
      (Client.list_interfaces dial hang_up local_service [] (start one_port)).0
      (Client.list_interfaces dial hang_up local_service [] (start one_port)).1
list_interfaces-Listed_example =
    list_interfaces-Listed here dial hang_up local_service agent [] local-Connects local-Delivers
      (start one_port)

-- DEVICE_METADATA is missing, so that the device is refused.
abbrev no_device : SwitchDevice
no_device = record {
  kind = Kind.device_kind;
  local_mac_address = [];
  hwsku = [];
  sonic_os_version = [];
  asic_type = [];
  readiness = 0;
  status = record { code = 201; message = errorf "missing or invalid MAC address" [] };
}

device_runs :
    (Client.get_device_info dial hang_up local_service [] (start one_port)).0 ≡ ok no_device
unfolding Client.get_device_info Server.get_device_info Reads.get_device_info open_db connect cached
    lookup connect_locked recheck create redis_db_id text_eq codes fields_of new_error_status
device_runs = refl

get_device_info-Described_example :
    Post
      (λ got n.
        Described (agent.get_device_info (start one_port)).0 got
        × (n ≡ (agent.get_device_info (start one_port)).1))
      (λ f n. Lost dial [] local_service.get_device_info (start one_port))
      (Client.get_device_info dial hang_up local_service [] (start one_port)).0
      (Client.get_device_info dial hang_up local_service [] (start one_port)).1
get_device_info-Described_example =
    get_device_info-Described here dial hang_up local_service agent [] local-Connects local-Delivers
      (start one_port)
