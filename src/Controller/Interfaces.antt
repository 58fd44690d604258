-- ===== src/Controller/Interfaces.antt =====
-- internal/controller/switchinterface_controller.go: the reconciler of SwitchInterface.
pub mod Outcome
pub mod Ready
pub mod Converge
use sonic_operator.Base.{
  ℕ, Text, codes, text_eq, is_empty, ◌==◌, Bool, true, false, [], Option, none, some, if◌then◌else◌,
  Error, foreign, Result, ok, err, Exec, return, fail, attempt, or_fail, ◌>>=◌, ◌>>◌,
}
use sonic_operator.Types.{Interface, InterfaceNeighbor, Kind, empty_interface, status_up, not_found}
use sonic_operator.Types.Convert.{
  state_up, state_down, to_admin_state, of_admin_state, to_operation_state,
}
use sonic_operator.Rpc.Client.{
  Failure, get_interface_by_abstract_name, set_interface_alias_name, set_interface_admin_status,
  get_interface_neighbor,
}
use sonic_operator.Api.{
  Switch, SwitchInterface, Neighbor, no_neighbor, interface_state_pending, interface_state_ready,
  interface_state_failed,
}
use sonic_operator.Controller.Cluster.{
  ApiError, missing, failed, Objects, Network, agent_address, Requeue, Work, outside, update, held,
  reconcile,
}

-- An error of the API server.
api_error : ApiError → Error
api_error ApiError.missing = foreign (codes "not found")
api_error (ApiError.failed e) = e

-- The interfaces that the reconciler asks the agent for.
unfoldable pub named : Text → Interface
named name = record empty_interface { kind = Kind.interface_kind; name = name }

unfoldable pub with_state : Text → SwitchInterface → SwitchInterface
with_state state i = record i { status = record i.status { state = state } }

unfoldable pub with_admin_state : Text → SwitchInterface → SwitchInterface
with_admin_state state i = record i { status = record i.status { admin_state = state } }

unfoldable pub with_operational_state : Text → SwitchInterface → SwitchInterface
with_operational_state state i = record i { status = record i.status { operational_state = state } }

unfoldable pub with_neighbor : Neighbor → SwitchInterface → SwitchInterface
with_neighbor neighbor i = record i { status = record i.status { neighbor = neighbor } }

-- Up exactly if the agent says so.
unfoldable pub shown_operation : Text → Text
shown_operation status = if text_eq status status_up then state_up else state_down

-- Whether an error of GetInterfaceNeighbor is only that there is no neighbor.
unfoldable pub no_neighbor_found : Option InterfaceNeighbor → Bool
no_neighbor_found none = false
no_neighbor_found (some neighbor) = neighbor.status.code == not_found

unfoldable pub neighbor_of : InterfaceNeighbor → Neighbor
neighbor_of neighbor = record {
  mac_address = neighbor.mac_address;
  system_name = neighbor.system_name;
  interface_handle = neighbor.handle;
}

module _ {K : Type 0} (switches : Objects K Switch) (network : Network K) where
  abbrev pub Step : Type 0 → Type 0
  Step B = Exec (Work K SwitchInterface) Error B

  -- return ctrl.Result{}, err, with the state Failed.
  unfoldable pub give_up : {B : Type 0} → Error → Step B
  unfolding with_state
  give_up e = do update (with_state interface_state_failed); fail e

  unfoldable pub or_give_up : {B : Type 0} → Result Error B → Step B
  unfolding give_up
  or_give_up (ok b) = return b
  or_give_up (err e) = give_up e

  -- A conversion gives a state, and perhaps an error.
  unfoldable pub converted : Text × Result Error (Unit {0}) → Step Text
  unfolding give_up
  converted (state, ok u) = return state
  converted (state, err e) = give_up e

  -- A panic of the client unwinds the reconciler, and only what is deferred still runs.
  unfoldable pub or_unwind : {B : Type 0} → Bool → Error → Step B → Step B
  or_unwind panics e handled = if panics then fail e else handled

  unfoldable pub or_handle : {B : Type 0} → Result (Failure B) B → Step B
  unfolding or_unwind give_up
  or_handle (ok b) = return b
  or_handle (err f) = or_unwind f.panics f.error (give_up f.error)

  -- A call of the client whose value beside an error is not looked at.
  unfoldable pub call : {B : Type 0} → Exec K (Failure B) B → Step B
  unfolding or_handle
  call m = do reply ← attempt (outside m); or_handle reply

  -- NewAgentClientFromSwitchRef, for a reference that is not nil.
  unfoldable pub agent_of_ref : Text → Text → Exec K Error Text
  unfolding api_error
  agent_of_ref ref namespace = do
    owner ← or_fail api_error (switches.get namespace ref)
    return (agent_address owner)

  pub ensure_alias : Text → Text → Interface → Step (Unit {0})
  ensure_alias address handle iface = if text_eq iface.alias_name handle then return tt else do
    renamed ← call (
        set_interface_alias_name network.new_client network.close (network.service address) address
          (record (named iface.name) { alias_name = handle }))
    return tt

  -- Up to the status that the agent reports; a nil interface without an error does not come.
  pub observe : Text → Text → Step (Unit {0})
  unfolding call ensure_alias converted with_operational_state with_admin_state
  observe address handle = do
    iface ← call (
        get_interface_by_abstract_name network.new_client network.close (network.service address)
          address (named handle))
    ensure_alias address handle iface
    update (with_operational_state (shown_operation iface.operation_status))
    admin_state ← converted (to_admin_state iface.admin_status)
    update (with_admin_state admin_state)

  -- ensure i.spec.AdminState is applied
  pub apply_admin : Text → Text → Text → Step (Unit {0})
  unfolding call converted with_admin_state with_operational_state with_state
  apply_admin address native_name admin_state = do
    desired ← converted (of_admin_state admin_state)
    reply ← call (
        set_interface_admin_status network.new_client network.close (network.service address)
          address (record (named native_name) { admin_status = desired }))
    state ← converted (to_admin_state reply.admin_status)
    update (with_admin_state state)
    operation ← converted (to_operation_state reply.operation_status)
    update (with_operational_state operation)
    update (with_operational_state (shown_operation reply.operation_status))
    update (with_state interface_state_ready)

  pub note_neighbor : Result (Failure InterfaceNeighbor) InterfaceNeighbor → Step (Unit {0})
  unfolding with_neighbor give_up or_unwind
  note_neighbor (ok neighbor) = update (with_neighbor (neighbor_of neighbor))
  note_neighbor (err f) =
      or_unwind f.panics f.error
        (if no_neighbor_found f.value then update (with_neighbor no_neighbor) else give_up f.error)

  pub observe_neighbor : Text → Text → Step (Unit {0})
  unfolding note_neighbor
  observe_neighbor address native_name = do
    reply ← attempt (
        outside (
          get_interface_neighbor network.new_client network.close (network.service address) address
            (named native_name)))
    note_neighbor reply

  -- With a reference to a switch.
  unfoldable pub connect : SwitchInterface → Text → Step Requeue
  unfolding observe apply_admin observe_neighbor or_give_up agent_of_ref
  connect i ref = do
    reply ← attempt (outside (agent_of_ref ref i.namespace))
    address ← or_give_up reply
    observe address i.spec.handle
    apply_admin address i.spec.native_name i.spec.admin_state
    observe_neighbor address i.spec.native_name
    return 0

  pub with_ref : SwitchInterface → Option Text → Step Requeue
  unfolding connect with_state
  with_ref i none = do update (with_state interface_state_failed); return 0
  with_ref i (some ref) = connect i ref

  pub begin : SwitchInterface → Step Requeue
  unfolding with_ref with_state
  begin i =
      if is_empty i.status.state
      then update (with_state interface_state_pending) >> return 0
      else with_ref i i.spec.switch_ref

  -- What follows the finalizer.
  unfoldable pub reconcile_interface : Step Requeue
  unfolding begin
  reconcile_interface = do i ← held; begin i

  unfoldable pub reconcile_switch_interface :
      Objects K SwitchInterface → Text → Text → Exec K Error Requeue
  unfolding reconcile_interface reconcile
  reconcile_switch_interface interfaces = reconcile interfaces (λ i. i.deleting) reconcile_interface
