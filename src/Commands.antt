-- ===== src/Commands.antt =====
-- internal/agent/agent_client/commands: the Run functions of the command line client. Flags and the
-- commands of cobra are left out.
pub mod Listed
use sonic_operator.Base.{
  ◌≡◌, Text, String, codes, has_prefix, Option, none, some, List, [], ◌∷◌, if◌then◌else◌, Error,
  errorf, wrapf, str, Result, ok, err, Exec, return, fail, lift, or_fail, attempt, ◌>>=◌, ◌>>◌,
}
use sonic_operator.Types.{Interface, Kind, empty_interface}
use sonic_operator.Types.Convert.{validate_device_status}
use sonic_operator.Names.{to_abstract}
use sonic_operator.Rpc.Messages.{Service}
use sonic_operator.Rpc.Client.{
  Failure, panicked, get_device_info, list_interfaces, list_ports, set_interface_admin_status,
  get_interface_by_abstract_name, get_interface_neighbor, save_config,
}
use sonic_operator.Print.{
  Value, device_value, interface_value, neighbor_value, interfaces_value, ports_value,
}

-- The interface of a name, as the commands fill it.
unfoldable pub interface_named : Text → Interface
interface_named name = record empty_interface { kind = Kind.interface_kind; name = name }

abstract_or_fail : Result Error Text → Result Error Text
abstract_or_fail (ok name) = ok name
abstract_or_fail (err e) = err (wrapf "failed to convert native name to abstract name: %v" [] e)

-- The client is the one of an address over a connection; `printer` is Print on the standard output,
-- and `print_line` writes a formatted line to it.
module _ {K : Type 0} (new_client : Text → Exec K Error (Unit {0}))
    (close : Exec K Error (Unit {0})) (service : Service K) (address : Text)
    (printer : String → Value → Exec K Error (Unit {0}))
    (print_line : Error → Exec K Error (Unit {0})) where
  command_failed : {A : Type 0} → String → Failure A → Error
  command_failed format f = if f.panics then f.error else wrapf format [] f.error

  unfoldable pub run_get_device_info : Exec K Error (Unit {0})
  unfolding command_failed
  run_get_device_info = do
    device ←
        or_fail (command_failed "failed to get device info: %v")
          (get_device_info new_client close service address)
    printer "Device Info" (device_value device)

  unfoldable pub run_list_interfaces : Exec K Error (Unit {0})
  unfolding command_failed
  run_list_interfaces = do
    list ←
        or_fail (command_failed "failed to list interfaces: %v")
          (list_interfaces new_client close service address)
    printer "Interfaces" (interfaces_value list)

  unfoldable pub run_list_ports : Exec K Error (Unit {0})
  unfolding command_failed
  run_list_ports = do
    list ←
        or_fail (command_failed "failed to list ports: %v")
          (list_ports new_client close service address)
    printer "Ports" (ports_value list)

  get_and_print : Text → Exec K Error (Unit {0})
  unfolding command_failed interface_named
  get_and_print name = do
    iface ←
        or_fail (command_failed "failed to get interface info: %v")
          (get_interface_by_abstract_name new_client close service address (interface_named name))
    printer "Interface Info" (interface_value iface)

  -- Another name leaves a nil interface, whose status Print follows.
  unfoldable pub run_get_interface : Text → Exec K Error (Unit {0})
  unfolding get_and_print abstract_or_fail
  run_get_interface name =
      if has_prefix name (codes "Ethernet")
      then lift (abstract_or_fail (to_abstract name)) >>= get_and_print
      else if has_prefix name (codes "eth")
      then get_and_print name
      else fail (panicked {A = Interface}).error

  neighbor_and_print : Text → Exec K Error (Unit {0})
  unfolding command_failed interface_named
  neighbor_and_print name = do
    neighbor ←
        or_fail (command_failed "failed to get interface neighbor info: %v")
          (get_interface_neighbor new_client close service address (interface_named name))
    printer "Interface Neighbor Info" (neighbor_value neighbor)

  unfoldable pub run_get_interface_neighbors : Text → Exec K Error (Unit {0})
  unfolding neighbor_and_print abstract_or_fail
  run_get_interface_neighbors name =
      if has_prefix name (codes "Ethernet")
      then lift (abstract_or_fail (to_abstract name)) >>= neighbor_and_print
      else if has_prefix name (codes "eth")
      then neighbor_and_print name
      else fail
          (errorf "invalid interface name: %s. Must start with 'Ethernet' or 'eth'" (str name ∷ []))

  unfoldable pub run_set_interface_status : Text → Text → Exec K Error (Unit {0})
  unfolding command_failed interface_named
  run_set_interface_status name admin_status = do
    status ← lift (validate_device_status admin_status)
    said ← attempt (
        print_line (
          errorf "Setting interface admin status to: %s for interface: %s\n"
            (str status ∷ str name ∷ [])))
    iface ← or_fail (command_failed "failed to set interface admin status: %w") (
        set_interface_admin_status new_client close service address
          (record (interface_named name) { admin_status = status }))
    printer "Interface admin status updated successfully" (interface_value iface)

  unfoldable pub run_save_config : Exec K Error (Unit {0})
  unfolding command_failed
  run_save_config = do
    or_fail (command_failed "failed to save config: %w")
        (save_config new_client close service address)
    print_line (errorf "Config saved successfully" [])
