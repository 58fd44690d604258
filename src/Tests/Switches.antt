-- ===== src/Tests/Switches.antt =====
-- The theorems on the reconciler of Switch, at a server that stores one switch and a network
-- without a route.
use sonic_operator.Base.{
  Error, ◌≡◌, refl, codes, text_eq, text_eq_refl, some, Option, List, [], ◌∷◌, foreign, ok, err,
  arith, Result, Exec, Text, true, false, Bool, ap,
}
use sonic_operator.Api.{Switch, switch_finalizer}
use sonic_operator.Rpc.Messages.{Service}
use sonic_operator.Controller.Cluster.{Objects, Network}
use sonic_operator.Controller.Switches.{Application, reconcile_ready}
use sonic_operator.Controller.Switches.Kept.{Undisturbed, Good, stays_ready}
use sonic_operator.Controller.Switches.Live.{
  has_finalizer, Reachable, Settled, steps, becomes_ready,
}
use sonic_operator.Tests.Controllers.{new_switch}

abbrev with_finalizer : Text → Switch → Switch
with_finalizer finalizer s = record s { finalizers = finalizer ∷ s.finalizers }

abbrev ensured : Text → Switch → Bool → Result Error (Bool × Switch) × Switch
ensured finalizer s true = (ok (false, s), s)
ensured finalizer s false = (ok (true, with_finalizer finalizer s), with_finalizer finalizer s)

-- The world is the stored switch.
abbrev store : Objects Switch Switch
store = record {
  get = λ namespace name k. (ok k, k);
  ensure_finalizer = λ finalizer s k. ensured finalizer s (has_finalizer s.finalizers);
  ensure_no_finalizer = λ finalizer s k. (ok (false, s), k);
  patch_status = λ s s' k. (ok s', s');
}

abbrev no_route : Error
no_route = foreign (codes "no route to host")

abbrev unreachable : {A : Type 0} → Exec Switch Error A
unreachable k = (err no_route, k)

abbrev no_service : Service Switch
no_service = record {
  get_device_info = unreachable;
  list_interfaces = unreachable;
  set_interface_admin_status = λ request. unreachable;
  set_interface_alias_name = λ request. unreachable;
  get_interface = λ name. unreachable;
  get_interface_neighbor = λ name. unreachable;
  list_ports = unreachable;
  save_config = unreachable;
}

abbrev no_network : Network Switch
no_network = record {
  new_client = λ address. unreachable;
  close = unreachable;
  service = λ address. no_service;
}

abbrev apply : Application → Exec Switch Error (Unit {0})
apply a k = (ok tt, k)

same : (k s : Switch) → some k ≡ some s → k ≡ s
same k s h = ground (arith, h)

has :
    (f : Text) (finalizers : List Text)
    → text_eq f switch_finalizer ≡ true
    → has_finalizer (f ∷ finalizers) ≡ true
unfolding has_finalizer
has f finalizers h = ground (arith, h)

store-Reachable : Reachable store [] (codes "leaf") (λ k. some k)
store-Reachable = record {
  found = λ k s h. ap ok (same k s h);
  get_keeps = λ k s h. h;
  had = λ k s h t. (
    ap (λ b. (ensured switch_finalizer s b).0) t,
    ap (λ b. some (ensured switch_finalizer s b).1) t,
  );
  added = λ k s h f. record {
    changed = with_finalizer switch_finalizer s;
    result = ap (λ b. (ensured switch_finalizer s b).0) f;
    kept = ap (λ b. some (ensured switch_finalizer s b).1) f;
    there = has switch_finalizer s.finalizers (text_eq_refl switch_finalizer);
    stays = refl;
  };
  patched = λ k s s' h. refl;
}

quiet : (o : Option Switch) → Undisturbed apply no_network (λ k. some k ≡ o)
quiet o = record {
  applies = λ a k h. h;
  dials = λ address k h. h;
  closes = λ k h. h;
  device = λ address k h. h;
  interfaces = λ address k h. h;
  ports = λ address k h. h;
}

becomes_ready_example :
    Settled store []
      (codes "leaf")
      (λ k. some k)
      apply
      no_network
      store-Reachable
      quiet
      (steps store []
        (codes "leaf")
        (λ k. some k)
        apply
        no_network
        store-Reachable
        quiet
        2
        new_switch)
becomes_ready_example =
    becomes_ready store [] (codes "leaf") (λ k. some k) apply no_network store-Reachable quiet
      new_switch new_switch 0 refl refl

-- The agent of a Ready switch cannot be reached.
abbrev ready_switch : Switch
ready_switch = record new_switch { status = record new_switch.status { state = codes "Ready" } }

stays_ready_example :
    Good apply no_network
      (λ k. some k ≡ some ready_switch)
      (quiet (some ready_switch))
      (λ s. s.name ≡ codes "leaf")
      (λ s status h. h)
      (reconcile_ready apply no_network (record { object = ready_switch; world = ready_switch })).1
stays_ready_example =
    stays_ready apply no_network (λ k. some k ≡ some ready_switch) (quiet (some ready_switch))
      (λ s. s.name ≡ codes "leaf") (λ s status h. h) ready_switch ready_switch refl refl
