-- ===== src/Controller/Switches/Live.antt =====
-- The reconciliations of a Switch by an API server that can be reached.
use sonic_operator.Base.{
  ℕ, zero, suc, ◌≡◌, subst, sym, ◌∙◌, Text, text_eq, List, [], ◌∷◌, Bool, true, false, Bool-cases,
  inl, inr, Option, some, if◌then◌else◌, Error, Result, ok, Exec,
}
use sonic_operator.Api.{Switch, switch_finalizer, switch_state_ready}
use sonic_operator.Controller.Cluster.{
  Objects, Network, Requeue, Work, finish, after_finalizer, after_get, exists, delete,
  with_finalizer, reconcile,
}
use sonic_operator.Controller.Switches.{Application, reconcile_ready, reconcile_switch}
use sonic_operator.Controller.Switches.Kept.{Undisturbed, stays_ready}

-- controllerutil.ContainsFinalizer, for the finalizer of the operator
unfoldable pub has_finalizer : List Text → Bool
has_finalizer [] = false
has_finalizer (f ∷ finalizers) =
    let rest = has_finalizer finalizers in if text_eq f switch_finalizer then true else rest

-- What holds of a switch that is registered and not being deleted.
abbrev pub Registered : Switch → Type 0
Registered s = (s.deleting ≡ false) × (has_finalizer s.finalizers ≡ true)

module _ {K : Type 0} (switches : Objects K Switch) (namespace name : Text)
    (stored : K → Option Switch) where
  -- The finalizer has been added and stored.
  pub record Added (s : Switch) (r : Result Error (Bool × Switch)) (k : K) : Type 0 where
    pub changed : Switch
    pub result : r ≡ ok (true, changed)
    pub kept : stored k ≡ some changed
    pub there : has_finalizer changed.finalizers ≡ true
    pub stays : changed.deleting ≡ s.deleting

  -- An API server that can be reached, for the object of a name: it gives what it stores, adds the
  -- finalizer if it is not there, and stores what a patch of the status gives.
  pub record Reachable : Type 0 where
    pub found : (k : K) (s : Switch) → stored k ≡ some s → (switches.get namespace name k).0 ≡ ok s
    pub get_keeps :
        (k : K) (s : Switch) → stored k ≡ some s → stored (switches.get namespace name k).1 ≡ some s
    pub had :
        (k : K) (s : Switch)
        → stored k ≡ some s
        → has_finalizer s.finalizers ≡ true
        → ((switches.ensure_finalizer switch_finalizer s k).0 ≡ ok (false, s))
          × (stored (switches.ensure_finalizer switch_finalizer s k).1 ≡ some s)
    pub added :
        (k : K) (s : Switch)
        → stored k ≡ some s
        → has_finalizer s.finalizers ≡ false
        → Added s
            (switches.ensure_finalizer switch_finalizer s k).0
            (switches.ensure_finalizer switch_finalizer s k).1
    pub patched :
        (k : K) (s s' : Switch)
        → stored k ≡ some s
        → stored (switches.patch_status s s' k).1 ≡ some s'

  module _ (apply : Application → Exec K Error (Unit {0})) (network : Network K)
      (server : Reachable)
      (quiet : (o : Option Switch) → Undisturbed apply network (λ k. stored k ≡ o)) where
    -- The stored switch is registered.
    pub record Stored (k : K) : Type 0 where
      pub switch : Switch
      pub at : stored k ≡ some switch
      pub registered : Registered switch

    -- The stored switch is registered and Ready.
    pub record Settled (k : K) : Type 0 where
      pub switch : Switch
      pub at : stored k ≡ some switch
      pub ready : switch.status.state ≡ switch_state_ready
      pub registered : Registered switch

    body : Exec (Work K Switch) Error Requeue
    body = reconcile_ready apply network

    pub step : K → K
    step k = (reconcile_switch apply network switches namespace name k).1

    patched-Settled :
        (s : Switch) (k : K)
        → stored k ≡ some s
        → Registered s
        → Settled (after_finalizer switches body (ok (false, s)) k).1
    unfolding after_finalizer finish body
    patched-Settled s k h m =
        let g =
          stays_ready apply network (λ k. stored k ≡ some s) (quiet (some s)) Registered
            (λ s status q. q) s k h m in
        record {
          switch = (reconcile_ready apply network (record { object = s; world = k })).1.object;
          at = server.patched _ s _ g.1;
          ready = g.0.0;
          registered = g.0.1;
        }

    with-Settled :
        (s : Switch) (k : K)
        → stored k ≡ some s
        → Registered s
        → Settled (with_finalizer switches body s k).1
    unfolding with_finalizer
    with-Settled s k h m =
        subst
          (λ r.
            Settled
              (after_finalizer switches body r
                (switches.ensure_finalizer switch_finalizer s k).1).1)
          (sym (server.had k s h m.1).0)
          (patched-Settled s (switches.ensure_finalizer switch_finalizer s k).1
            (server.had k s h m.1).1 m)

    -- A reconciliation reaches what follows the finalizer.
    reached :
        (P : K → Type 0) (s : Switch) (k : K)
        → stored k ≡ some s
        → s.deleting ≡ false
        → ((k' : K) → stored k' ≡ some s → P (with_finalizer switches body s k').1)
        → P (step k)
    unfolding step reconcile_switch reconcile after_get exists body
    reached P s k h d f =
        subst
          (λ r. P (after_get switches (λ s. s.deleting) body r (switches.get namespace name k).1).1)
          (sym (server.found k s h))
          (subst
            (λ b.
              P
                ((if b then delete switches s else with_finalizer switches body s)
                  (switches.get namespace name k).1).1)
            (sym d) (f (switches.get namespace name k).1 (server.get_keeps k s h)))

    Settled-step : (s : Switch) (k : K) → stored k ≡ some s → Registered s → Settled (step k)
    Settled-step s k h m = reached Settled s k h m.0 (λ k' h'. with-Settled s k' h' m)

    added-Stored :
        (s : Switch) (r : Result Error (Bool × Switch)) (k : K)
        → s.deleting ≡ false
        → Added s r k
        → Stored (after_finalizer switches body r k).1
    unfolding after_finalizer
    added-Stored s r k d a =
        subst (λ r. Stored (after_finalizer switches body r k).1) (sym a.result)
          (record { switch = a.changed; at = a.kept; registered = (a.stays ∙ d, a.there) })

    with-Stored :
        (s : Switch) (k : K)
        → stored k ≡ some s
        → s.deleting ≡ false
        → Stored (with_finalizer switches body s k).1
    unfolding with_finalizer
    with-Stored s k h d = elim (Bool-cases (has_finalizer s.finalizers)) [
      | inl t ↦
          (let g = with-Settled s k h (d, t) in
            record { switch = g.switch; at = g.at; registered = g.registered })
      | inr f ↦
          added-Stored s (switches.ensure_finalizer switch_finalizer s k).0
            (switches.ensure_finalizer switch_finalizer s k).1 d (server.added k s h f)
    ]

    -- The world after a number of reconciliations.
    unfoldable pub steps : ℕ → K → K
    steps zero k = k
    steps (suc n) k = step (steps n k)

    after_first : (s : Switch) (k : K) → stored k ≡ some s → s.deleting ≡ false → Stored (step k)
    after_first s k h d = reached Stored s k h d (λ k' h'. with-Stored s k' h' d)

    -- With an API server that can be reached, and calls that leave the stored switch alone, a Switch
    -- that is not being deleted is Ready after two reconciliations and after every further one,
    -- whether its agent answers or not.
    pub becomes_ready :
        (s : Switch) (k : K) (n : ℕ)
        → stored k ≡ some s
        → s.deleting ≡ false
        → Settled (steps (suc (suc n)) k)
    unfolding steps
    becomes_ready s k zero h d =
        let g = after_first s k h d in Settled-step g.switch (step k) g.at g.registered
    becomes_ready s k (suc n) h d =
        let g = becomes_ready s k n h d in
        Settled-step g.switch (steps (suc (suc n)) k) g.at g.registered
