-- ===== src/Controller/Interfaces/Converge.antt =====
-- The state that a reconciliation of a SwitchInterface shows, with the agent that it talks to.
use sonic_operator.Base.{
  ◌≡◌, ◌≢◌, refl, subst, sym, ap, ◌∙◌, arith, Text, text_eq, text_eq_iff, codes, some, [], Error,
  false, Result, ok, err,
}
use sonic_operator.Base.Hoare.{Post, Ends-ok, Ends-err}
use sonic_operator.Types.{Interface}
use sonic_operator.Types.Convert.{to_admin_state, of_admin_state, state_up, state_down}
use sonic_operator.Rpc.Messages.{SwitchAgent}
use sonic_operator.Rpc.Server.{to_admin_interface, admin_interface}
use sonic_operator.Rpc.Client.{Failure, with_admin, set_interface_admin_status}
use sonic_operator.Rpc.Delivery.{AgentIsCoded, Delivers, Connects, Granted, Denied, Lost}
use sonic_operator.Rpc.Delivery.Protocols.{show_admin, refused_interface, as_is}
use sonic_operator.Rpc.Delivery.Refinement.{
  admin_request, set_admin-Refines, set_alias-Refines, get_neighbor-Refines, get_by_name-calm,
  calm_if,
}
use sonic_operator.Controller.Interfaces.Outcome.{Calm}
use sonic_operator.Api.{Switch, SwitchInterface, interface_state_ready, interface_state_failed}
use sonic_operator.Controller.Cluster.{Objects, Network, Requeue, Work}
use sonic_operator.Controller.Interfaces.{reconcile_interface}
use sonic_operator.Controller.Interfaces.Ready.{
  Outcome, accepted, detached, applied, reconcile-Outcome,
}

-- The object as it was read, and the world.
abbrev pub begun : {K : Type 0} → SwitchInterface → K → Work K SwitchInterface
begun i k = record { object = i; world = k }

-- A reply to SetInterfaceAdminStatus shows the status that was asked for.
pub record Echoes {S : Type 0} (agent : SwitchAgent S) : Type 0 where
  pub admin_echoed :
      (iface : Interface) (s : S) (reply : Interface)
      → (agent.set_interface_admin_status (some iface) s).0 ≡ ok reply
      → reply.admin_status ≡ iface.admin_status

-- A state of the API that is Up or Down is converted back.
pub to_admin_state-of_admin_state :
    (spec desired state : Text)
    → of_admin_state spec ≡ (desired, ok tt)
    → to_admin_state desired ≡ (state, ok tt)
    → spec ≡ state
unfolding to_admin_state of_admin_state state_up state_down codes text_eq
to_admin_state-of_admin_state spec desired state e h =
    ground (arith, e, h, text_eq_iff spec (codes "Up"), text_eq_iff spec (codes "Down"))

module _ {K S : Type 0} (switches : Objects K Switch) (network : Network K) (state : Text → K → S)
    (agents : Text → SwitchAgent S)
    (conn : (address : Text) → Connects (state address) network.new_client network.close)
    (deliver : (address : Text)
      → Delivers (state address) (network.service address) (agents address))
    (coded : (address : Text) → AgentIsCoded (agents address)) where
  -- The agents' responses, which the client gets, have what it reads of them.
  calm : Calm network
  calm = record {
    interface_calm = λ address iface k.
        get_by_name-calm (state address) network.new_client network.close (network.service address)
          (agents address) address (conn address) (deliver address) (coded address) iface k;
    alias_calm = λ address iface k.
        calm_if _ _ _ (λ f h. h.0)
          (set_alias-Refines (state address) network.new_client network.close
            (network.service address) (agents address) address (conn address) (deliver address)
            (coded address) iface k);
    neighbor_calm = λ address iface k.
        calm_if _ _ _ (λ f h. h.0)
          (get_neighbor-Refines (state address) network.new_client network.close
            (network.service address) (agents address) address (conn address) (deliver address)
            (coded address) iface k);
  }

  -- With agents that get the requests and tell errors from success, when a reconciliation of a
  -- SwitchInterface fails after its finalizer is there, whatever call it was that failed, the status
  -- that is patched has the state Failed, and the specification is untouched.
  pub failure_is_shown :
      (i : SwitchInterface) (k : K) {e : Error}
      → (reconcile_interface switches network (begun i k)).0 ≡ err e
      → ((reconcile_interface switches network (begun i k)).1.object.spec ≡ i.spec)
        × ((reconcile_interface switches network (begun i k)).1.object.status.state
            ≡ interface_state_failed)
  failure_is_shown i k h =
      Ends-err (reconcile_interface switches network) (begun i k)
        (reconcile-Outcome switches network calm i (λ desired got. Unit {0})
          (λ spec state. Unit {0})
          (λ address iface k.
            calm_if _ _ _ (λ f h. h.0)
              (set_admin-Refines (state address) network.new_client network.close
                (network.service address) (agents address) address (conn address) (deliver address)
                (coded address) iface k))
          (λ desired got state e t h. tt))
        refl h

  module _ (echoes : (address : Text) → Echoes (agents address)) where
    shown_reply :
        (address : Text) (iface : Interface) (k : K) (r : Result (Failure Interface) Interface × K)
        → Post
            (λ a k'.
              Granted
                ((agents address).set_interface_admin_status
                  (some (admin_interface (admin_request iface))))
                (state address k)
                (show_admin iface)
                a
                (state address k'))
            (λ f k'.
              Denied
                ((agents address).set_interface_admin_status
                  (some (admin_interface (admin_request iface))))
                (state address k)
                (Lost network.new_client address
                  ((network.service address).set_interface_admin_status (admin_request iface))
                  k)
                refused_interface
                as_is
                f)
            r.0
            r.1
        → Post
            (λ b (u : Unit {0}). iface.admin_status ≡ b.admin_status)
            (λ f u. f.panics ≡ false)
            r.0
            tt
    unfolding with_admin to_admin_interface admin_interface
    shown_reply address iface k (ok a, k') g = sym (
        ap (λ b. b.admin_status) g.shown
        ∙ (echoes address).admin_echoed (admin_interface (admin_request iface)) (state address k)
            g.reply g.replied)
    shown_reply address iface k (err e, k') g = g.0

    echo :
        (address : Text) (iface : Interface) (k : K)
        → Post
            (λ b (u : Unit {0}). iface.admin_status ≡ b.admin_status)
            (λ f u. f.panics ≡ false)
            (set_interface_admin_status network.new_client network.close
              (network.service address)
              address
              iface
              k).0
            tt
    echo address iface k =
        shown_reply address iface k
          (set_interface_admin_status network.new_client network.close (network.service address)
            address iface k)
          (set_admin-Refines (state address) network.new_client network.close
            (network.service address) (agents address) address (conn address) (deliver address)
            (coded address) iface k)

    shows :
        (i : SwitchInterface) (desired got state : Text)
        → of_admin_state i.spec.admin_state ≡ (desired, ok tt)
        → desired ≡ got
        → to_admin_state got ≡ (state, ok tt)
        → i.spec.admin_state ≡ state
    shows i desired got state e t h =
        to_admin_state-of_admin_state i.spec.admin_state desired state e
          (subst (λ d. to_admin_state d ≡ (state, ok tt)) (sym t) h)

    abbrev pub Converged : SwitchInterface → Work K SwitchInterface → Type 0
    Converged i w =
        (w.object.spec ≡ i.spec)
        × (w.object.status.state ≡ interface_state_ready)
        × (i.spec.admin_state ≡ w.object.status.admin_state)

    settle :
        (i : SwitchInterface) (ref : Text) (w : Work K SwitchInterface)
        → i.status.state ≢ []
        → i.spec.switch_ref ≡ some ref
        → w.object.spec ≡ i.spec
        → Outcome switches network calm i
            (λ desired got. desired ≡ got)
            (λ spec state. spec ≡ state)
            echo
            (shows i)
            w
        → Converged i w
    settle i ref w h r s (accepted e x) = absurd (h e)
    settle i ref w h r s (detached e x) = absurd (ground (arith, r, e))
    settle i ref w h r s (applied x y) = (s, x, y)

    -- With agents that get the requests, tell errors from success and echo the admin status, when a
    -- reconciliation of a SwitchInterface that has a state and a switch ends without an error, its
    -- status is Ready and shows the admin state that its specification asks for.
    pub reconciled_is_ready :
        (i : SwitchInterface) (ref : Text) (k : K) {requeue : Requeue}
        → i.status.state ≢ []
        → i.spec.switch_ref ≡ some ref
        → (reconcile_interface switches network (begun i k)).0 ≡ ok requeue
        → Converged i (reconcile_interface switches network (begun i k)).1
    reconciled_is_ready i ref k h r e =
        let q =
          Ends-ok (reconcile_interface switches network) (begun i k)
            (reconcile-Outcome switches network calm i (λ desired got. desired ≡ got)
              (λ spec state. spec ≡ state) echo (shows i))
            refl e in
        settle i ref (reconcile_interface switches network (begun i k)).1 h r q.0 q.1
