-- ===== src/Controller/Interfaces/Ready.antt =====
-- How a reconciliation of a SwitchInterface ends.
use sonic_operator.Base.{
  ◌≡◌, refl, subst, sym, ap, arith, Text, is_empty, Bool, true, false, Option, none, some, [], ◌∷◌,
  if◌then◌else◌, Error, Result, ok, err, return, attempt, ◌>>◌,
}
use sonic_operator.Base.Hoare.{Ends, Post, Ends-return, Ends-bind, Ends-weaken}
use sonic_operator.Types.{Interface, InterfaceNeighbor}
use sonic_operator.Types.Convert.{to_admin_state, of_admin_state}
use sonic_operator.Rpc.Client.{Failure, get_interface_neighbor, set_interface_admin_status}
use sonic_operator.Api.{
  Switch, SwitchInterface, no_neighbor, interface_state_pending, interface_state_ready,
  interface_state_failed,
}
use sonic_operator.Controller.Cluster.{Objects, Network, Work, outside, update}
use sonic_operator.Controller.Interfaces.{
  named, with_state, with_neighbor, no_neighbor_found, give_up, agent_of_ref, note_neighbor,
  observe_neighbor, connect, with_ref, begin, reconcile_interface,
}
use sonic_operator.Controller.Interfaces.Outcome.{
  Calm, or_unwind-Keeps, Kept, ShownFailed, or_give_up-Keeps, with-Keeps, observe-Keeps, ShownReady,
  apply_admin-Ready,
}

empty_text : (s : Text) → is_empty s ≡ true → s ≡ []
unfolding is_empty
empty_text [] h = refl
empty_text (c ∷ s) h = absurd (ground (arith, h))

module _ {K : Type 0} (switches : Objects K Switch) (network : Network K) (calm : Calm network)
    (i : SwitchInterface) (T Shown : Text → Text → Type 0)
    (echo : (address : Text) (iface : Interface) (k : K)
      → Post
          (λ b (u : Unit {0}). T iface.admin_status b.admin_status)
          (λ f u. f.panics ≡ false)
          (set_interface_admin_status network.new_client network.close
            (network.service address)
            address
            iface
            k).0
          tt)
    (shows : (desired got state : Text)
      → of_admin_state i.spec.admin_state ≡ (desired, ok tt)
      → T desired got
      → to_admin_state got ≡ (state, ok tt)
      → Shown i.spec.admin_state state) where
  abbrev pub Ready : Work K SwitchInterface → Type 0
  Ready = ShownReady switches network calm i.spec T Shown echo shows

  abbrev pub Fails : Error → Work K SwitchInterface → Type 0
  Fails = ShownFailed switches network calm i.spec

  kept-Ready :
      (b : Bool) (e : Error)
      → Ends Ready
          (if b then update (with_neighbor no_neighbor) else give_up switches network e)
          (λ u. Ready)
          Fails
  unfolding with_neighbor give_up with_state
  kept-Ready true e = record { at = λ w q. q }
  kept-Ready false e = record { at = λ w q. (q.0, refl) }

  note_neighbor-Ready :
      (r : Result (Failure InterfaceNeighbor) InterfaceNeighbor)
      → Post (λ b (u : Unit {0}). Unit {0}) (λ f u. f.panics ≡ false) r tt
      → Ends Ready (note_neighbor switches network r) (λ u. Ready) Fails
  unfolding note_neighbor with_neighbor
  note_neighbor-Ready (ok neighbor) h = record { at = λ w q. q }
  note_neighbor-Ready (err f) h =
      or_unwind-Keeps switches network calm i.spec f.panics f.error Ready _ _ h
        (kept-Ready (no_neighbor_found f.value) f.error)

  observe_neighbor-Ready :
      (address name : Text)
      → Ends Ready (observe_neighbor switches network address name) (λ u. Ready) Fails
  unfolding observe_neighbor
  observe_neighbor-Ready address name = record {
    at = λ w q.
        (note_neighbor-Ready
            (get_interface_neighbor network.new_client network.close (network.service address)
              address (named name) w.world).0
            (calm.neighbor_calm address (named name) w.world)).at
          (record w {
            world =
                (get_interface_neighbor network.new_client network.close (network.service address)
                  address (named name) w.world).1;
          })
          q;
  }

  any_address : (r : Result Error Text) → Post (λ b (u : Unit {0}). Unit {0}) (λ e u. Unit {0}) r tt
  any_address (ok a) = tt
  any_address (err e) = tt

  connect-Ready :
      (ref : Text)
      → Ends (Kept switches network calm i.spec) (connect switches network i ref) (λ r. Ready) Fails
  unfolding connect
  connect-Ready ref =
      Ends-bind (λ r. Kept switches network calm i.spec)
        (attempt (outside (agent_of_ref switches network ref i.namespace))) _
        (record { at = λ w q. q })
        (λ r.
          Ends-bind (λ address w. Kept switches network calm i.spec w × Unit {0}) _ _
            (or_give_up-Keeps switches network calm i.spec r (λ b. Unit {0}) (any_address r))
            (λ address.
              with-Keeps switches network calm i.spec (Kept switches network calm i.spec) _ _ (λ u.
                Ends-bind (λ u. Kept switches network calm i.spec) _ _
                  (observe-Keeps switches network calm i.spec address i.spec.handle)
                  (λ u.
                    Ends-bind (λ u. Ready) _ _
                      (apply_admin-Ready switches network calm i.spec T Shown echo shows address
                        i.spec.native_name)
                      (λ u.
                        Ends-bind (λ u. Ready) _ _
                          (observe_neighbor-Ready address i.spec.native_name)
                          (λ u. Ends-return 0 (λ w q. q)))))))

  -- The ways to end without an error.
  pub data Outcome (w : Work K SwitchInterface) : Type 0 where
    accepted : i.status.state ≡ [] → w.object.status.state ≡ interface_state_pending → Outcome w
    detached : i.spec.switch_ref ≡ none → w.object.status.state ≡ interface_state_failed → Outcome w
    applied :
        w.object.status.state ≡ interface_state_ready
        → Shown i.spec.admin_state w.object.status.admin_state
        → Outcome w

  with_ref-Outcome :
      (o : Option Text)
      → i.spec.switch_ref ≡ o
      → Ends
          (Kept switches network calm i.spec)
          (with_ref switches network i o)
          (λ r w. Kept switches network calm i.spec w × Outcome w)
          Fails
  unfolding with_ref with_state
  with_ref-Outcome none h = record { at = λ w q. (q, detached h refl) }
  with_ref-Outcome (some ref) h =
      Ends-weaken _ _ _ _ (connect switches network i ref) (λ r w q. (q.0, applied q.1 q.2))
        (λ e w q. q) (connect-Ready ref)

  start-Outcome :
      (b : Bool)
      → (b ≡ true → i.status.state ≡ [])
      → Ends
          (Kept switches network calm i.spec)
          (if b
            then update (with_state interface_state_pending) >> return 0
            else with_ref switches network i i.spec.switch_ref)
          (λ r w. Kept switches network calm i.spec w × Outcome w)
          Fails
  unfolding with_state
  start-Outcome true h = record { at = λ w q. (q, accepted (h refl) refl) }
  start-Outcome false h = with_ref-Outcome i.spec.switch_ref refl

  -- From the object as it was read.
  pub reconcile-Outcome :
      Ends
        (λ w. w.object ≡ i)
        (reconcile_interface switches network)
        (λ r w. Kept switches network calm i.spec w × Outcome w)
        Fails
  unfolding reconcile_interface begin
  reconcile-Outcome = record {
    at = λ w q.
        subst
          (λ o.
            Post (λ r w'. Kept switches network calm i.spec w' × Outcome w') Fails
              (begin switches network o w).0 (begin switches network o w).1)
          (sym q)
          ((start-Outcome (is_empty i.status.state) (empty_text i.status.state)).at w
            (ap (λ o. o.spec) q));
  }
