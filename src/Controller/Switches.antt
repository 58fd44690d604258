-- ===== src/Controller/Switches.antt =====
-- internal/controller/switch_controller.go: the reconciler of Switch.
pub mod Kept
pub mod Live
use sonic_operator.Base.{
  ℕ, ◌+◌, Text, codes, text_eq, leb, Bool, true, false, ◌&&◌, ◌++◌, List, [], ◌∷◌, map, Option,
  none, some, if◌then◌else◌, Error, Result, ok, err, Exec, return, fail, lift, attempt, ◌>>=◌, ◌>>◌,
}
use sonic_operator.Types.{SwitchDevice, Interface, InterfaceList, Port, PortList}
use sonic_operator.Types.Convert.{to_admin_state}
use sonic_operator.Rpc.Client.{Failure, get_device_info, list_interfaces, list_ports}
use sonic_operator.Api.{Switch, SwitchStatus, PortStatus, switch_state_ready}
use sonic_operator.Controller.Cluster.{
  Objects, Network, agent_address, Requeue, Work, outside, update, held, reconcile,
}

-- agentRetryAfter, in seconds
abbrev pub agent_retry_after : Requeue
agent_retry_after = 60

-- The configuration that is applied for an interface: its name, its owner, and the fields of its
-- specification.
pub record Application : Type 0 where
  pub name : Text
  pub owner_name : Text
  pub owner_uid : Text
  pub handle : Text
  pub native_name : Text
  pub switch_ref : Text
  pub admin_state : Text

lower_byte : ℕ → ℕ
lower_byte c = if leb b'A' c && leb c b'Z' then c + 32 else c

-- strings.ToLower on ASCII letters, the only ones that names of objects may have
unfoldable pub to_lower : Text → Text
unfolding lower_byte
to_lower s = map lower_byte s

unfoldable pub application : Switch → Interface → Text → Application
unfolding to_lower
application s iface admin_state = record {
  name = to_lower (s.name ++ (codes "-" ++ iface.name));
  owner_name = s.name;
  owner_uid = s.uid;
  handle = iface.name;
  native_name = iface.native_name;
  switch_ref = s.name;
  admin_state = admin_state;
}

unfoldable pub with_ready : Switch → Switch
with_ready s = record s { status = record s.status { state = switch_state_ready } }

unfoldable pub with_device : SwitchDevice → Switch → Switch
with_device device s = record s {
  status = record s.status {
    mac_address = device.local_mac_address;
    firmware_version = device.sonic_os_version;
    sku = device.hwsku;
  };
}

port_status : Port → PortStatus
port_status port = record { name = port.name; interface_refs = [] }

-- The ports are made anew if there are any, and stay as they are if there are none.
unfoldable pub with_ports : List Port → Switch → Switch
unfolding port_status
with_ports [] s = s
with_ports (port ∷ ports) s = record s {
  status = record s.status { ports = map port_status (port ∷ ports) };
}

module _ {K : Type 0} (apply : Application → Exec K Error (Unit {0})) (network : Network K) where
  abbrev pub Step : Type 0 → Type 0
  Step B = Exec (Work K Switch) Error B

  admin_state_of : Text × Result Error (Unit {0}) → Result Error Text
  admin_state_of (state, ok u) = ok state
  admin_state_of (state, err e) = err e

  -- EnsureInterface
  unfoldable pub ensure_interface : Switch → Interface → Exec K Error (Unit {0})
  unfolding admin_state_of
  ensure_interface s iface = do
    state ← lift (admin_state_of (to_admin_state iface.admin_status))
    apply (application s iface state)

  unfoldable pub ensure_loop : Switch → List Interface → Exec K Error (Unit {0})
  unfolding ensure_interface
  ensure_loop s [] = return tt
  ensure_loop s (iface ∷ items) = do ensure_interface s iface; ensure_loop s items

  -- What follows a call of the client; if it has failed, the agent is unavailable, and that is no
  -- error.
  pub available : {B : Type 0} → Result (Failure B) B → (B → Step Requeue) → Step Requeue
  available (ok b) f = f b
  available (err e) f = return agent_retry_after

  pub enter_ports : PortList → Step Requeue
  unfolding with_ports with_ready
  enter_ports list = do update (with_ports list.items); update with_ready; return 0

  pub enter_interfaces : Text → InterfaceList → Step Requeue
  unfolding ensure_loop available enter_ports
  enter_interfaces address list = do
    s ← held
    outside (ensure_loop s list.items)
    reply ←
        attempt
          (outside (list_ports network.new_client network.close (network.service address) address))
    available reply enter_ports

  pub enter_device : Text → SwitchDevice → Step Requeue
  unfolding available enter_interfaces with_device
  enter_device address device = do
    update (with_device device)
    reply ← attempt (
        outside
          (list_interfaces network.new_client network.close (network.service address) address))
    available reply (enter_interfaces address)

  pub refresh : Text → Step Requeue
  unfolding available enter_device
  refresh address = do
    reply ← attempt (
        outside
          (get_device_info network.new_client network.close (network.service address) address))
    available reply (enter_device address)

  pub begin : Switch → Step Requeue
  unfolding refresh with_ready
  begin s =
      if text_eq s.status.state switch_state_ready
      then refresh (agent_address s)
      else update with_ready >> return 0

  -- What follows the finalizer.
  unfoldable pub reconcile_ready : Step Requeue
  unfolding begin
  reconcile_ready = do s ← held; begin s

  unfoldable pub reconcile_switch : Objects K Switch → Text → Text → Exec K Error Requeue
  unfolding reconcile_ready reconcile
  reconcile_switch switches = reconcile switches (λ s. s.deleting) reconcile_ready
