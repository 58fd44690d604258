-- ===== src/Tests/Controllers.antt =====
-- The theorems on the reconcilers.
use sonic_operator.Base.{
  Error, ℕ, ◌≡◌, ◌≢◌, refl, codes, text_eq, lookup, insert, delete, field, none, some, [], ◌∷◌,
  foreign, ok, err, arith, is_empty, has_prefix, trim_prefix, wrapf, false,
}
use sonic_operator.Types.{status_down, status_up, new_error_status}
use sonic_operator.Types.Convert.{
  to_admin_state, of_admin_state, to_operation_state, state_up, state_down,
}
use sonic_operator.Agent.Pool.{redis_db_id, cached, connect_locked, connect, recheck, create}
use sonic_operator.Agent.Reads.{
  resolve, check_name, open_db, port_key, state_key, port_alias, present_alias, status_of, appl_key,
}
use sonic_operator.Agent.Writes
use sonic_operator.Agent.Reads
use sonic_operator.Names.{to_abstract, to_native}
use sonic_operator.Strconv.{scan_int, itoa}
use sonic_operator.Rpc.Client
use sonic_operator.Rpc.Server
use sonic_operator.Agent.Host.{Host}
use sonic_operator.Tests.Calls.{memory_host, start, one_port}
use sonic_operator.Tests.Rpcs.{
  Machine, here, dial, hang_up, local-Connects, service_of, service_of-Delivers,
}
use sonic_operator.Redis.Memory.{Server, memory, with_database, fields_of, set_fields, count}
use sonic_operator.Rpc.Messages.{SwitchAgent}
use sonic_operator.Rpc.Server.{sonic_agent}
use sonic_operator.Rpc.Client.{get_interface_by_abstract_name}
use sonic_operator.Rpc.Delivery.{Connects}
use sonic_operator.Rpc.Delivery.EndToEnd.{sonic-IsCoded}
use sonic_operator.Api.{Switch, SwitchInterface, no_neighbor, interface_state_failed}
use sonic_operator.Controller.Cluster.{Objects, Network}
use sonic_operator.Controller.Interfaces.{reconcile_interface, no_neighbor_found, named}
use sonic_operator.Controller.Interfaces.Converge.{
  begun, failure_is_shown, Echoes, Converged, reconciled_is_ready,
}
use sonic_operator.Agent.Writes.Echo.{admin_status_echoed}

-- A switch without a state, whose agent is on this host.
abbrev pub new_switch : Switch
new_switch = record {
  name = codes "leaf";
  namespace = [];
  uid = codes "u1";
  deleting = false;
  finalizers = [];
  spec = record {
    hostname = codes "leaf";
    management = record { host = []; port = [] };
    ztp = none;
    containers = [];
    volumes = [];
    next_boot_mode = [];
    mac_address = [];
    ports = [];
  };
  status = record { state = []; ports = []; mac_address = []; firmware_version = []; sku = [] };
}

abbrev port_interface : SwitchInterface
port_interface = record {
  name = codes "leaf-eth0-0";
  namespace = [];
  deleting = false;
  finalizers = [];
  spec = record {
    handle = codes "eth0-0";
    native_name = codes "Ethernet0";
    switch_ref = some (codes "leaf");
    admin_state = codes "Up";
  };
  status = record {
    admin_state = [];
    operational_state = [];
    state = codes "Pending";
    neighbor = no_neighbor;
    mac_address = [];
    alias_name = [];
  };
}

-- The objects of a server that holds one, which nothing changes.
abbrev only : {K A : Type 0} → A → Objects K A
only a = record {
  get = λ namespace name k. (ok a, k);
  ensure_finalizer = λ finalizer i k. (ok (false, i), k);
  ensure_no_finalizer = λ finalizer i k. (ok (false, i), k);
  patch_status = λ i i' k. (ok i', k);
}

abbrev linked_host : Host Server ℕ
linked_host = record memory_host { link_by_name = λ name w. (ok (some (0 ∷ 1 ∷ [])), w) }

abbrev leaf_agent : SwitchAgent Machine
leaf_agent = sonic_agent memory linked_host

abbrev local_network : Network Machine
local_network = record {
  new_client = dial;
  close = hang_up;
  service = λ address. service_of leaf_agent;
}

-- A network without a route.
abbrev no_route : Error
no_route = foreign (codes "no route to host")

abbrev cut_network : Network Machine
cut_network = record {
  new_client = λ address k. (err no_route, k);
  close = hang_up;
  service = λ address. service_of leaf_agent;
}

cut_off :
    (reconcile_interface (only new_switch) cut_network (begun port_interface (start one_port))).0
    ≡ err (wrapf "failed to connect to switch proxy: %w" [] no_route)
unfolding reconcile_interface is_empty codes get_interface_by_abstract_name
cut_off = refl

cut-Connects : Connects here cut_network.new_client cut_network.close
cut-Connects = record { new_client_keeps = λ address k. refl; close_keeps = λ k. refl }

failure_is_shown_example :
    ((reconcile_interface
        (only new_switch)
        cut_network
        (begun port_interface (start one_port))).1.object.spec
      ≡ port_interface.spec)
    × ((reconcile_interface
          (only new_switch)
          cut_network
          (begun port_interface (start one_port))).1.object.status.state
        ≡ interface_state_failed)
failure_is_shown_example =
    failure_is_shown (only new_switch) cut_network (λ address. here) (λ address. leaf_agent)
      (λ address. cut-Connects) (λ address. service_of-Delivers leaf_agent)
      (λ address. sonic-IsCoded memory linked_host) port_interface (start one_port) cut_off

leaf-Echoes : Echoes leaf_agent
leaf-Echoes = record { admin_echoed = admin_status_echoed memory linked_host }

reconciles :
    (reconcile_interface (only new_switch) local_network (begun port_interface (start one_port))).0
    ≡ ok 0
unfolding reconcile_interface Client.get_interface_by_abstract_name
    Client.set_interface_admin_status Client.get_interface_neighbor
    Server.set_interface_admin_status Writes.set_interface_admin_status Client.with_admin
    Server.admin_interface Server.admin_response Server.to_admin_interface Server.get_interface
    Server.interface_response Server.to_interface Server.refused_as Reads.get_interface
    Reads.link_mac Reads.mac_string Server.get_interface_neighbor Server.neighbor_response
    Reads.get_interface_neighbor Client.found_interface Client.of_interface Client.native_or_fail
    Client.status_neighbor to_admin_state of_admin_state to_operation_state state_up state_down
    new_error_status no_neighbor_found named connect cached connect_locked recheck create lookup
    insert delete field redis_db_id text_eq codes with_database fields_of set_fields count resolve
    check_name is_empty has_prefix open_db Writes.save_config port_key port_alias present_alias
    to_abstract to_native status_of scan_int appl_key state_key trim_prefix status_down status_up
    itoa Client.connected Client.check_status Client.interface_or_zero Client.nothing
    Client.of_proto_status Client.refuse Client.status_interface Server.answer
    Server.named_interface Server.refused
reconciles = refl

has_state : port_interface.status.state ≢ []
unfolding codes
has_state e = absurd (ground (arith, e))

reconciled_is_ready_example :
    Converged
      (only new_switch)
      local_network
      (λ address. here)
      (λ address. leaf_agent)
      (λ address. local-Connects)
      (λ address. service_of-Delivers leaf_agent)
      (λ address. sonic-IsCoded memory linked_host)
      (λ address. leaf-Echoes)
      port_interface
      (reconcile_interface
        (only new_switch)
        local_network
        (begun port_interface (start one_port))).1
reconciled_is_ready_example =
    reconciled_is_ready (only new_switch) local_network (λ address. here) (λ address. leaf_agent)
      (λ address. local-Connects) (λ address. service_of-Delivers leaf_agent)
      (λ address. sonic-IsCoded memory linked_host) (λ address. leaf-Echoes) port_interface
      (codes "leaf") (start one_port) has_state refl reconciles
