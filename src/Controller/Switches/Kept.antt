-- ===== src/Controller/Switches/Kept.antt =====
-- What a reconciliation of a Switch leaves of the object and of the world.
use sonic_operator.Base.{
  ◌≡◌, refl, subst, sym, Text, text_eq, text_eq_iff, List, [], ◌∷◌, Bool, true, false,
  if◌then◌else◌, Error, Result, ok, err, Exec, return, lift, attempt, ◌>>=◌, ◌>>◌,
}
use sonic_operator.Base.Hoare.{Ends, Post, Ends-return, Ends-bind}
use sonic_operator.Types.{SwitchDevice, Interface, InterfaceList, Port, PortList}
use sonic_operator.Types.Convert.{to_admin_state}
use sonic_operator.Rpc.Client.{Failure, get_device_info, list_interfaces, list_ports}
use sonic_operator.Rpc.Client.Connection.{Stable, device-Stable, interfaces-Stable, ports-Stable}
use sonic_operator.Api.{Switch, SwitchStatus, switch_state_ready}
use sonic_operator.Controller.Cluster.{Network, agent_address, Requeue, Work, outside, update, held}
use sonic_operator.Controller.Switches.{
  Application, application, with_ready, with_device, with_ports, Step, admin_state_of,
  ensure_interface, ensure_loop, available, enter_ports, enter_interfaces, enter_device, refresh,
  begin, reconcile_ready, agent_retry_after,
}

-- The calls of the API server and to the agents that a reconciliation makes leave an assertion
-- alone.
pub record Undisturbed {K : Type 0} (apply : Application → Exec K Error (Unit {0}))
    (network : Network K) (I : K → Type 0) : Type 0 where
  pub applies : (a : Application) → Stable I (apply a)
  pub dials : (address : Text) → Stable I (network.new_client address)
  pub closes : Stable I network.close
  pub device : (address : Text) → Stable I (network.service address).get_device_info
  pub interfaces : (address : Text) → Stable I (network.service address).list_interfaces
  pub ports : (address : Text) → Stable I (network.service address).list_ports

module _ {K : Type 0} (apply : Application → Exec K Error (Unit {0})) (network : Network K)
    (I : K → Type 0) (quiet : Undisturbed apply network I) (Meta : Switch → Type 0)
    (meta : (s : Switch) (status : SwitchStatus)
      → Meta s
      → Meta (record s { status = status })) where
  -- A switch that is Ready, with what its metadata satisfy.
  abbrev pub IsReady : Switch → Type 0
  IsReady s = (s.status.state ≡ switch_state_ready) × Meta s

  -- The object is Ready and the assertion holds.
  abbrev pub Good : Work K Switch → Type 0
  Good w = IsReady w.object × I w.world

  abbrev pub Safe : {B : Type 0} → Step apply network B → Type 0
  Safe m = Ends Good m (λ b. Good) (λ e. Good)

  -- A call that is undisturbed, with its result or its error.
  anyway :
      {E B : Type 0} (r : Result E B) (s : Switch) (k : K)
      → IsReady s
      → I k
      → Post (λ b. Good) (λ e. Good) r (record { object = s; world = k })
  anyway (ok b) s k h p = (h, p)
  anyway (err e) s k h p = (h, p)

  outside-Safe : {B : Type 0} (m : Exec K Error B) → Stable I m → Safe (outside m)
  outside-Safe m h = record {
    at = λ w q. anyway (m w.world).0 w.object (m w.world).1 q.0 (h w.world q.1);
  }

  attempt-Safe : {E B : Type 0} (m : Exec K E B) → Stable I m → Safe (attempt (outside m))
  attempt-Safe m h = record { at = λ w q. (q.0, h w.world q.1) }

  update-Safe : (f : Switch → Switch) → ((s : Switch) → IsReady s → IsReady (f s)) → Safe (update f)
  update-Safe f h = record { at = λ w q. (h w.object q.0, q.1) }

  IsReady-ports : (ports : List Port) (s : Switch) → IsReady s → IsReady (with_ports ports s)
  unfolding with_ports
  IsReady-ports [] s h = h
  IsReady-ports (port ∷ ports) s h = (h.0, meta s (with_ports (port ∷ ports) s).status h.1)

  enter_ports-Safe : (list : PortList) → Safe (enter_ports apply network list)
  unfolding enter_ports with_ready
  enter_ports-Safe list =
      Ends-bind (λ u. Good) _ _ (update-Safe (with_ports list.items) (IsReady-ports list.items))
        (λ u.
          Ends-bind (λ u. Good) _ _
            (update-Safe with_ready (λ s h. (refl, meta s (with_ready s).status h.1)))
            (λ u. Ends-return 0 (λ w q. q)))

  available-Safe :
      {B : Type 0} (r : Result (Failure B) B) (f : B → Step apply network Requeue)
      → ((b : B) → Safe (f b))
      → Safe (available apply network r f)
  unfolding available
  available-Safe (ok b) f h = h b
  available-Safe (err e) f h = Ends-return agent_retry_after (λ w q. q)

  continue_apply :
      (r : Result Error Text) (g : Text → Exec K Error (Unit {0})) (k : K)
      → ((t : Text) → Stable I (g t))
      → I k
      → I ((lift r >>= g) k).1
  continue_apply (ok t) g k h p = h t k p
  continue_apply (err e) g k h p = p

  ensure-Stable :
      (s : Switch) (iface : Interface) → Stable I (ensure_interface apply network s iface)
  unfolding ensure_interface
  ensure-Stable s iface k p =
      continue_apply (admin_state_of apply network (to_admin_state iface.admin_status))
        (λ state. apply (application s iface state)) k (λ t. quiet.applies (application s iface t))
        p

  continue_loop :
      (r : Result Error (Unit {0})) (m : Exec K Error (Unit {0})) (k : K)
      → Stable I m
      → I k
      → I ((lift r >> m) k).1
  continue_loop (ok u) m k h p = h k p
  continue_loop (err e) m k h p = p

  loop-Stable : (s : Switch) (items : List Interface) → Stable I (ensure_loop apply network s items)
  unfolding ensure_loop
  loop-Stable s [] k p = p
  loop-Stable s (iface ∷ items) k p =
      continue_loop (ensure_interface apply network s iface k).0 (ensure_loop apply network s items)
        (ensure_interface apply network s iface k).1 (loop-Stable s items)
        (ensure-Stable s iface k p)

  enter_interfaces-Safe :
      (address : Text) (list : InterfaceList) → Safe (enter_interfaces apply network address list)
  unfolding enter_interfaces
  enter_interfaces-Safe address list =
      Ends-bind (λ s. Good) held _ (record { at = λ w q. q })
        (λ s.
          Ends-bind (λ u. Good) _ _
            (outside-Safe (ensure_loop apply network s list.items) (loop-Stable s list.items))
            (λ u.
              Ends-bind (λ r. Good) _ _
                (attempt-Safe
                  (list_ports network.new_client network.close (network.service address) address)
                  (ports-Stable I network.new_client network.close (network.service address) address
                    quiet.dials quiet.closes (quiet.ports address)))
                (λ r. available-Safe r (enter_ports apply network) enter_ports-Safe)))

  enter_device-Safe :
      (address : Text) (device : SwitchDevice) → Safe (enter_device apply network address device)
  unfolding enter_device with_device
  enter_device-Safe address device =
      Ends-bind (λ u. Good) _ _
        (update-Safe (with_device device) (λ s h. (h.0, meta s (with_device device s).status h.1)))
        (λ u.
          Ends-bind (λ r. Good) _ _
            (attempt-Safe
              (list_interfaces network.new_client network.close (network.service address) address)
              (interfaces-Stable I network.new_client network.close (network.service address)
                address quiet.dials quiet.closes (quiet.interfaces address)))
            (λ r.
              available-Safe r (enter_interfaces apply network address)
                (enter_interfaces-Safe address)))

  refresh-Safe : (address : Text) → Safe (refresh apply network address)
  unfolding refresh
  refresh-Safe address =
      Ends-bind (λ r. Good) _ _
        (attempt-Safe
          (get_device_info network.new_client network.close (network.service address) address)
          (device-Stable I network.new_client network.close (network.service address) address
            quiet.dials quiet.closes (quiet.device address)))
        (λ r. available-Safe r (enter_device apply network address) (enter_device-Safe address))

  choice-Safe :
      (b : Bool) (s : Switch)
      → (b ≡ true → s.status.state ≡ switch_state_ready)
      → Meta s
      → Ends
          (λ w. (w.object ≡ s) × I w.world)
          (if b then refresh apply network (agent_address s) else update with_ready >> return 0)
          (λ r. Good)
          (λ e. Good)
  unfolding with_ready
  choice-Safe true s h m = record {
    at = λ w q. (refresh-Safe (agent_address s)).at w (subst IsReady (sym q.0) (h refl, m), q.1);
  }
  choice-Safe false s h m = record {
    at = λ w q.
        ((refl, subst (λ o. Meta (with_ready o)) (sym q.0) (meta s (with_ready s).status m)), q.1);
  }

  begin-Safe :
      (s : Switch)
      → Meta s
      → Ends (λ w. (w.object ≡ s) × I w.world) (begin apply network s) (λ r. Good) (λ e. Good)
  unfolding begin
  begin-Safe s m =
      choice-Safe (text_eq s.status.state switch_state_ready) s
        (text_eq_iff s.status.state switch_state_ready).0 m

  -- Whatever the agent does and whichever call fails, a reconciliation of a Switch that has its
  -- finalizer leaves the status to be patched Ready, keeps what holds of its metadata, and leaves
  -- alone what each of its calls leaves alone.
  pub stays_ready :
      (s : Switch) (k : K)
      → I k
      → Meta s
      → Good (reconcile_ready apply network (record { object = s; world = k })).1
  unfolding reconcile_ready
  stays_ready s k p m =
      both (begin apply network s (record { object = s; world = k })).0 _
        ((begin-Safe s m).at (record { object = s; world = k }) (refl, p))
    where
      both :
          (r : Result Error Requeue) (w : Work K Switch) → Post (λ r. Good) (λ e. Good) r w → Good w
      both (ok r) w h = h
      both (err e) w h = h
