-- ===== src/Print/Output/Outcome.antt =====
-- When Print succeeds.
use sonic_operator.Base.{
  ◌≡◌, ◌≢◌, refl, arith, ◌==◌, ==_iff, Text, Bool, true, false, Option, List, [], if◌then◌else◌,
  Error, wrapf, Result, ok, err, Exec, return, fail, lift, or_fail, Dict,
}
use sonic_operator.Base.Hoare.{Ends, Post, Ends-return, Ends-fail, Ends-bind, Ends-or_fail}
use sonic_operator.Types.{Status, Interface, new_error_status}
use sonic_operator.Print.{
  Value, Object, Objects, View, an_object, a_list, nothing_known, view, Renderer, get_renderer,
}
use sonic_operator.Print.Output.{
  Screen, render, shown_info, chosen_type, own_status, render_value, render_object, render_list,
  checked, print_view, print,
}

-- A value of a known type whose status is no error.
abbrev pub IsFine : View → Type 0
IsFine (an_object obj) = obj.status.code ≡ 0
IsFine (a_list list) = list.status.code ≡ 0
IsFine (nothing_known name) = ⊥

module _ {K : Type 0} where
  any_result :
      {A : Type 0} (f : Error → Status) (h : (e : Error) → (f e).code ≢ 0) (r : Result Error A)
      (k : K)
      → Post (λ a k. Unit {0}) (λ e k. (f e).code ≢ 0) r k
  any_result f h (ok a) k = tt
  any_result f h (err e) k = h e

  coded :
      {A : Type 0} (f : Error → Status) (m : Exec K Error A)
      → ((e : Error) → (f e).code ≢ 0)
      → Ends (λ k. Unit {0}) (or_fail f m) (λ a k. Unit {0}) (λ st k. st.code ≢ 0)
  coded f m h = Ends-or_fail f m (record { at = λ k u. any_result f h (m k).0 (m k).1 })

module _ {K : Type 0} (screen : Screen K)
    (sort_slice : (Interface → Interface → Bool) → List Interface → List Interface) where
  -- A status that is reported is an error, and a success is one of the value.
  Truthful : Status → Exec K Status (Unit {0}) → Type 0
  Truthful status m = Ends (λ k. Unit {0}) m (λ u k. status.code ≡ 0) (λ st k. st.code ≢ 0)

  choice-Truthful :
      (b : Bool) (status st : Status)
      → (b ≡ true → status.code ≡ 0)
      → (b ≡ false → st.code ≢ 0)
      → Truthful status (if b then return tt else fail st)
  unfolding Truthful
  choice-Truthful true status st h k = Ends-return tt (λ w u. h refl)
  choice-Truthful false status st h k = Ends-fail st (λ w u. k refl)

  own_status-Truthful : (status : Status) → Truthful status (own_status screen sort_slice status)
  unfolding own_status new_error_status
  own_status-Truthful status =
      choice-Truthful (status.code == 0) status _ (==_iff status.code 0).0
        (λ e. ground (arith, e, ==_iff status.code 0))

  render_value-Truthful :
      (no_renderer not_rendered : Error → Status) (renderer_type : Text) (registry : Dict Renderer)
      (info : Option Error) (v : Value) (status : Status)
      → ((e : Error) → (no_renderer e).code ≢ 0)
      → ((e : Error) → (not_rendered e).code ≢ 0)
      → Truthful status (
          render_value screen sort_slice no_renderer not_rendered renderer_type registry info v
            status)
  unfolding Truthful render_value
  render_value-Truthful no_renderer not_rendered renderer_type registry info v status h k =
      Ends-bind (λ r k. Unit {0}) _ _
        (coded no_renderer
          (lift (get_renderer (chosen_type screen sort_slice status renderer_type) registry)) h)
        (λ renderer.
          Ends-bind (λ u k. Unit {0}) _ _
            (coded not_rendered
              (render screen sort_slice renderer (shown_info screen sort_slice status info) v) k)
            (λ u. own_status-Truthful status))

  render_object-Truthful :
      (renderer_type : Text) (registry : Dict Renderer) (info : Option Error) (v : Value)
      (obj : Object)
      → Truthful obj.status (render_object screen sort_slice renderer_type registry info v obj)
  unfolding render_object new_error_status
  render_object-Truthful renderer_type registry info v obj =
      render_value-Truthful _ _ renderer_type registry info v obj.status (λ e. ground arith)
        (λ e. ground arith)

  render_list-Truthful :
      (renderer_type : Text) (registry : Dict Renderer) (info : Option Error) (v : Value)
      (list : Objects)
      → Truthful list.status (render_list screen sort_slice renderer_type registry info v list)
  unfolding render_list new_error_status
  render_list-Truthful renderer_type registry info v list =
      render_value-Truthful _ _ renderer_type registry info v list.status (λ e. ground arith)
        (λ e. ground arith)

  -- What Print makes of the status.
  fine_if_checked :
      (status : Status) (wrap : Error → Error) (r : Result Status (Unit {0})) (k : K)
      → Post (λ u (k : K). status.code ≡ 0) (λ st k. st.code ≢ 0) r k
      → checked screen sort_slice wrap r ≡ ok tt
      → status.code ≡ 0
  unfolding checked
  fine_if_checked status wrap (ok u) k h e = h
  fine_if_checked status wrap (err st) k h e = absurd (ground (arith, h, e, ==_iff st.code 0))

  view-Fine :
      (renderer_type : Text) (registry : Dict Renderer) (info : Option Error) (v : Value) (w : View)
      (k : K)
      → (print_view screen sort_slice renderer_type registry info v w k).0 ≡ ok tt
      → IsFine w
  unfolding print_view Truthful
  view-Fine renderer_type registry info v (an_object obj) k e =
      fine_if_checked obj.status (wrapf "error rendering object: %s" []) _ _
        ((render_object-Truthful renderer_type registry info v obj).at k tt) e
  view-Fine renderer_type registry info v (a_list list) k e =
      fine_if_checked list.status (wrapf "error rendering list: %s" []) _ _
        ((render_list-Truthful renderer_type registry info v list).at k tt) e
  view-Fine renderer_type registry info v (nothing_known name) k e = absurd (ground (arith, e))

  -- When Print returns no error, whatever the renderer and the writer, the value is one of the
  -- agent's types and its status has the code 0: no error of the agent is printed as a success.
  pub print-IsFine :
      (renderer_type : Text) (registry : Dict Renderer) (info : Option Error) (v : Value) (k : K)
      → (print screen sort_slice renderer_type registry info v k).0 ≡ ok tt
      → IsFine (view v)
  unfolding print
  print-IsFine renderer_type registry info v k e =
      view-Fine renderer_type registry info v (view v) k e
