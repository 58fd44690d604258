-- ===== src/Controller/Interfaces/Outcome.antt =====
-- What the steps of the reconciler leave of the object.
use sonic_operator.Base.{
  ◌≡◌, refl, ◌∙◌, arith, Text, text_eq, Bool, true, false, if◌then◌else◌, Error, Result, ok, err,
  Exec, ◌>>=◌, ◌>>◌,
}
use sonic_operator.Base.Hoare.{Ends, Post, Ends-return, Ends-bind, Ends-weaken}
use sonic_operator.Types.{Interface}
use sonic_operator.Types.Convert.{to_admin_state, of_admin_state, to_operation_state}
use sonic_operator.Rpc.Client.{
  Failure, set_interface_admin_status, set_interface_alias_name, get_interface_by_abstract_name,
  get_interface_neighbor,
}
use sonic_operator.Api.{
  Switch, SwitchInterface, SwitchInterfaceSpec, interface_state_ready, interface_state_failed,
}
use sonic_operator.Controller.Cluster.{Objects, Network, Work, update}
use sonic_operator.Controller.Interfaces.{
  named, with_state, with_admin_state, with_operational_state, shown_operation, Step, give_up,
  or_give_up, or_unwind, or_handle, converted, call, ensure_alias, observe, apply_admin,
}

-- A call of the client that does not panic.
abbrev pub NoPanic : {K B : Type 0} → Exec K (Failure B) B → Type 0
NoPanic {K} m = (k : K) → Post (λ b (u : Unit {0}). Unit {0}) (λ f u. f.panics ≡ false) (m k).0 tt

-- The calls of the client that the reconciler makes do not panic.
pub record Calm {K : Type 0} (network : Network K) : Type 0 where
  pub interface_calm :
      (address : Text) (iface : Interface)
      → NoPanic (
          get_interface_by_abstract_name network.new_client network.close
            (network.service address)
            address
            iface)
  pub alias_calm :
      (address : Text) (iface : Interface)
      → NoPanic (
          set_interface_alias_name network.new_client network.close
            (network.service address)
            address
            iface)
  pub neighbor_calm :
      (address : Text) (iface : Interface)
      → NoPanic (
          get_interface_neighbor network.new_client network.close
            (network.service address)
            address
            iface)

module _ {K : Type 0} (switches : Objects K Switch) (network : Network K) (calm : Calm network)
    (spec : SwitchInterfaceSpec) where
  W : Type 0
  W = Work K SwitchInterface

  -- The specification is the one of the start.
  abbrev pub Kept : Work K SwitchInterface → Type 0
  Kept w = w.object.spec ≡ spec

  -- A failure is shown in the status.
  abbrev pub ShownFailed : Error → Work K SwitchInterface → Type 0
  ShownFailed e w = (w.object.spec ≡ spec) × (w.object.status.state ≡ interface_state_failed)

  abbrev pub Keeps :
      {B : Type 0} → Step switches network B → (B → Work K SwitchInterface → Type 0) → Type 0
  Keeps m Q = Ends Kept m Q ShownFailed

  pub give_up-Keeps :
      {B : Type 0} (e : Error) (Q : B → Work K SwitchInterface → Type 0)
      → Keeps (give_up switches network e) Q
  unfolding give_up with_state
  give_up-Keeps e Q = record { at = λ w p. (p, refl) }

  pub or_give_up-Keeps :
      {B : Type 0} (r : Result Error B) (T : B → Type 0)
      → Post (λ b (u : Unit {0}). T b) (λ e u. Unit {0}) r tt
      → Keeps (or_give_up switches network r) (λ b w. Kept w × T b)
  unfolding or_give_up
  or_give_up-Keeps (ok b) T t = Ends-return b (λ w p. (p, t))
  or_give_up-Keeps (err e) T t = give_up-Keeps e (λ b w. Kept w × T b)

  -- A conversion that goes through.
  converted-Keeps :
      (c : Text × Result Error (Unit {0}))
      → Keeps (converted switches network c) (λ state w. Kept w × (c ≡ (state, ok tt)))
  unfolding converted
  converted-Keeps (state, ok tt) = Ends-return state (λ w p. (p, refl))
  converted-Keeps (state, err e) = give_up-Keeps e _

  pub or_unwind-Keeps :
      {B : Type 0} (panics : Bool) (e : Error) (P : Work K SwitchInterface → Type 0)
      (m : Step switches network B) (Q : B → Work K SwitchInterface → Type 0)
      → panics ≡ false
      → Ends P m Q ShownFailed
      → Ends P (or_unwind switches network panics e m) Q ShownFailed
  unfolding or_unwind
  or_unwind-Keeps true e P m Q h k = absurd (ground (arith, h))
  or_unwind-Keeps false e P m Q h k = k

  handle-Keeps :
      {B : Type 0} (r : Result (Failure B) B) (T : B → Type 0)
      → Post (λ b (u : Unit {0}). T b) (λ f u. f.panics ≡ false) r tt
      → Keeps (or_handle switches network r) (λ b w. Kept w × T b)
  unfolding or_handle
  handle-Keeps (ok b) T t = Ends-return b (λ w p. (p, t))
  handle-Keeps (err f) T t =
      or_unwind-Keeps f.panics f.error Kept _ _ t (give_up-Keeps f.error (λ b w. Kept w × T b))

  -- A call of the client that does not panic, and whose result, if there is one, has a property.
  call-Keeps :
      {B : Type 0} (m : Exec K (Failure B) B) (T : B → Type 0)
      → ((k : K) → Post (λ b (u : Unit {0}). T b) (λ f u. f.panics ≡ false) (m k).0 tt)
      → Keeps (call switches network m) (λ b w. Kept w × T b)
  unfolding call
  call-Keeps m T h = record {
    at =
        λ w p. (handle-Keeps (m w.world).0 T (h w.world)).at (record w { world = (m w.world).1 }) p;
  }

  any_call-Keeps :
      {B : Type 0} (m : Exec K (Failure B) B)
      → NoPanic m
      → Keeps (call switches network m) (λ b. Kept)
  any_call-Keeps m h =
      Ends-weaken _ _ _ _ (call switches network m) (λ b w q. q.0) (λ e w q. q)
        (call-Keeps m (λ b. Unit {0}) h)

  update-Keeps :
      (f : SwitchInterface → SwitchInterface)
      → ((i : SwitchInterface) → (f i).spec ≡ i.spec)
      → Keeps (update f) (λ u. Kept)
  update-Keeps f h = record { at = λ w p. h w.object ∙ p }

  -- What does not depend on the object is a hypothesis.
  pub with-Keeps :
      {B T : Type 0} (P : Work K SwitchInterface → Type 0) (m : Step switches network B)
      (Q : B → Work K SwitchInterface → Type 0)
      → (T → Ends P m Q ShownFailed)
      → Ends (λ w. P w × T) m Q ShownFailed
  with-Keeps P m Q h = record { at = λ w q. (h q.1).at w q.0 }

  if-Keeps :
      {B : Type 0} (b : Bool) (m m' : Step switches network B)
      (Q : B → Work K SwitchInterface → Type 0)
      → Keeps m Q
      → Keeps m' Q
      → Keeps (if b then m else m') Q
  if-Keeps true m m' Q h k = h
  if-Keeps false m m' Q h k = k

  ensure_alias-Keeps :
      (address handle : Text) (iface : Interface)
      → Keeps (ensure_alias switches network address handle iface) (λ u. Kept)
  unfolding ensure_alias
  ensure_alias-Keeps address handle iface =
      if-Keeps (text_eq iface.alias_name handle) _ _ _ (Ends-return tt (λ w p. p)) (
        Ends-bind (λ b. Kept) _ _
          (any_call-Keeps _
            (calm.alias_calm address (record (named iface.name) { alias_name = handle })))
          (λ b. Ends-return tt (λ w p. p)))

  -- The status that the agent reports is entered.
  pub observe-Keeps :
      (address handle : Text) → Keeps (observe switches network address handle) (λ u. Kept)
  unfolding observe with_operational_state with_admin_state
  observe-Keeps address handle =
      Ends-bind (λ iface. Kept) _ _ (any_call-Keeps _ (calm.interface_calm address (named handle)))
        (λ iface.
          Ends-bind (λ u. Kept) _ _ (ensure_alias-Keeps address handle iface)
            (λ u.
              Ends-bind (λ u. Kept) _ _
                (update-Keeps (with_operational_state (shown_operation iface.operation_status))
                  (λ i. refl))
                (λ u.
                  Ends-bind (λ state. Kept) _ _
                    (Ends-weaken _ _ _ _
                      (converted switches network (to_admin_state iface.admin_status))
                      (λ state w q. q.0) (λ e w q. q)
                      (converted-Keeps (to_admin_state iface.admin_status)))
                    (λ state. update-Keeps (with_admin_state state) (λ i. refl)))))

  -- What the state of an interface is worth: `T` holds of the status that is asked for and the one
  -- that is reported, and gives `Shown` of the two states of the API.
  module _ (T Shown : Text → Text → Type 0)
      (echo : (address : Text) (iface : Interface) (k : K)
        → Post
            (λ b (u : Unit {0}). T iface.admin_status b.admin_status)
            (λ f u. f.panics ≡ false)
            (set_interface_admin_status network.new_client network.close
              (network.service address)
              address
              iface
              k).0
            tt)
      (shows : (desired got state : Text)
        → of_admin_state spec.admin_state ≡ (desired, ok tt)
        → T desired got
        → to_admin_state got ≡ (state, ok tt)
        → Shown spec.admin_state state) where
    -- The admin status has been applied and is shown.
    abbrev pub ShownReady : Work K SwitchInterface → Type 0
    ShownReady w =
        (w.object.spec ≡ spec)
        × (w.object.status.state ≡ interface_state_ready)
        × Shown spec.admin_state w.object.status.admin_state

    -- After the admin state has been entered.
    AdminShown : Work K SwitchInterface → Type 0
    AdminShown w = Kept w × Shown spec.admin_state w.object.status.admin_state

    operation-Keeps :
        (c : Text × Result Error (Unit {0}))
        → Ends AdminShown (converted switches network c) (λ state. AdminShown) ShownFailed
    unfolding converted give_up with_state AdminShown
    operation-Keeps (state, ok tt) = Ends-return state (λ w p. p)
    operation-Keeps (state, err e) = record { at = λ w p. (p.0, refl) }

    admin-Shown :
        (desired got state : Text)
        → of_admin_state spec.admin_state ≡ (desired, ok tt)
        → T desired got
        → Ends
            (λ w. Kept w × (to_admin_state got ≡ (state, ok tt)))
            (update (with_admin_state state))
            (λ u. AdminShown)
            ShownFailed
    unfolding AdminShown with_admin_state
    admin-Shown desired got state e t = record {
      at = λ w q. (q.0, shows desired got state e t q.1);
    }

    operation-Shown :
        (state : Text)
        → Ends AdminShown (update (with_operational_state state)) (λ u. AdminShown) ShownFailed
    unfolding AdminShown with_operational_state
    operation-Shown state = record { at = λ w q. q }

    ready-Shown :
        Ends AdminShown (update (with_state interface_state_ready)) (λ u. ShownReady) ShownFailed
    unfolding AdminShown with_state
    ready-Shown = record { at = λ w q. (q.0, refl, q.1) }

    applied-Shown :
        (desired : Text) (got : Interface)
        → of_admin_state spec.admin_state ≡ (desired, ok tt)
        → T desired got.admin_status
        → Keeps
            (do
              state ← converted switches network (to_admin_state got.admin_status)
              update (with_admin_state state)
              operation ← converted switches network (to_operation_state got.operation_status)
              update (with_operational_state operation)
              update (with_operational_state (shown_operation got.operation_status))
              update (with_state interface_state_ready))
            (λ u. ShownReady)
    applied-Shown desired got e t =
        Ends-bind (λ state w. Kept w × (to_admin_state got.admin_status ≡ (state, ok tt))) _ _
          (converted-Keeps (to_admin_state got.admin_status))
          (λ state.
            Ends-bind (λ u. AdminShown) _ _ (admin-Shown desired got.admin_status state e t)
              (λ u.
                Ends-bind (λ o. AdminShown) _ _
                  (operation-Keeps (to_operation_state got.operation_status))
                  (λ o.
                    Ends-bind (λ u. AdminShown) _ _ (operation-Shown o)
                      (λ u.
                        Ends-bind (λ u. AdminShown) _ _
                          (operation-Shown (shown_operation got.operation_status))
                          (λ u. ready-Shown)))))

    pub apply_admin-Ready :
        (address name : Text)
        → Keeps (apply_admin switches network address name spec.admin_state) (λ u. ShownReady)
    unfolding apply_admin
    apply_admin-Ready address name =
        Ends-bind (λ desired w. Kept w × (of_admin_state spec.admin_state ≡ (desired, ok tt))) _ _
          (converted-Keeps (of_admin_state spec.admin_state))
          (λ desired. with-Keeps Kept _ _ (λ e.
            Ends-bind (λ got w. Kept w × T desired got.admin_status) _ _
              (call-Keeps _ (λ got. T desired got.admin_status)
                (echo address (record (named name) { admin_status = desired })))
              (λ got. with-Keeps Kept _ _ (λ t. applied-Shown desired got e t))))
