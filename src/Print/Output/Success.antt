-- ===== src/Print/Output/Success.antt =====
-- Printing that cannot fail, and what it prints.
use sonic_operator.Base.{
  ◌≡◌, refl, subst, sym, ap, arith, ==_iff, Text, Bool, Option, none, some, List, [], ◌∷◌, map,
  if◌then◌else◌, Error, errorf, wrapf, str, ok, Exec, return, fail, lift, attempt, or_fail, ◌>>=◌,
  ◌>>◌, Dict, continue, map_err,
}
use sonic_operator.Types.{Status, Interface, new_error_status}
use sonic_operator.Print.{
  Value, Object, View, an_object, a_list, nothing_known, view, object_line, to_table, by_number,
  interface_table, port_table, device_row, interface_row, port_row, neighbor_row, TableData,
  Renderer, basic, table, get_renderer,
}
use sonic_operator.Print.Output.Lines.{rows_of, lines_of, objects_of, object_lines}
use sonic_operator.Print.Output.{
  Screen, print_info, print_objects, render_basic, draw, render_table, render, shown_info,
  chosen_type, own_status, render_value, render_object, render_list, checked, print_view, print,
}
use sonic_operator.Print.Output.Outcome.{IsFine}

-- The call gives `a` at each world and makes `f` of it.
abbrev Gives : {K E A : Type 0} → Exec K E A → A → (K → K) → Type 0
Gives {K} m a f = (k : K) → m k ≡ (ok a, f k)

module _ {K E A B : Type 0} where
  bind-Gives :
      (m : Exec K E A) (g : A → Exec K E B) (a : A) (b : B) (f h : K → K)
      → Gives m a f
      → Gives (g a) b h
      → Gives (m >>= g) b (λ k. h (f k))
  bind-Gives m g a b f h p q k =
      subst (λ r. continue r.0 g r.1 ≡ (ok b, h (f k))) (sym (p k)) (q (f k))

module _ {K E F A : Type 0} where
  or_fail-Gives :
      (w : E → F) (m : Exec K E A) (a : A) (f : K → K) → Gives m a f → Gives (or_fail w m) a f
  or_fail-Gives w m a f p k = ap (λ r. (map_err w r.0, r.1)) (p k)

  attempt-Gives :
      (m : Exec K E A) (a : A) (f : K → K)
      → Gives m a f
      → Gives (attempt {E = E} {F = F} m) (ok a) f
  attempt-Gives m a f p k = ap (λ r. (ok r.0, r.1)) (p k)

-- The world after some lines are printed.
abbrev pub written : {K : Type 0} → Screen K → List Text → K → K
written screen [] k = k
written screen (l ∷ lines) k =
    written screen lines (screen.print_line (errorf "%s" (str l ∷ [])) k).1

-- The world after the text that comes first.
abbrev pub introduced : {K : Type 0} → Screen K → Option Error → K → K
introduced screen none k = k
introduced screen (some info) k = (screen.print_line info k).1

module _ {K : Type 0} (screen : Screen K)
    (sort_slice : (Interface → Interface → Bool) → List Interface → List Interface)
    (works : (line : Error) (k : K) → (screen.print_line line k).0 ≡ ok tt) where
  line-Gives :
      (line : Error) → Gives (screen.print_line line) tt (λ k. (screen.print_line line k).1)
  line-Gives line k = ap (λ r. (r, (screen.print_line line k).1)) (works line k)

  info-Gives :
      (info : Option Error) → Gives (print_info screen sort_slice info) tt (introduced screen info)
  unfolding print_info
  info-Gives none k = refl
  info-Gives (some info) k = line-Gives info k

  objects-Gives :
      (objs : List Object)
      → Gives (print_objects screen sort_slice objs) tt (written screen (map object_line objs))
  unfolding print_objects
  objects-Gives [] k = refl
  objects-Gives (obj ∷ objs) k =
      bind-Gives (screen.print_line (errorf "%s" (str (object_line obj) ∷ [])))
        (λ u. print_objects screen sort_slice objs) tt tt _ (written screen (map object_line objs))
        (line-Gives _) (objects-Gives objs) k

  basic-Gives :
      (info : Option Error) (w : View)
      → IsFine w
      → Gives
          (render_basic screen sort_slice info w)
          tt
          (λ k. written screen (map object_line (objects_of w)) (introduced screen info k))
  unfolding render_basic objects_of
  basic-Gives info (an_object obj) h k =
      bind-Gives (print_info screen sort_slice info)
        (λ u. print_objects screen sort_slice (obj ∷ [])) tt tt (introduced screen info)
        (written screen (map object_line (obj ∷ []))) (info-Gives info) (objects-Gives (obj ∷ [])) k
  basic-Gives info (a_list list) h k =
      bind-Gives (print_info screen sort_slice info)
        (λ u. print_objects screen sort_slice list.items) tt tt (introduced screen info)
        (written screen (map object_line list.items)) (info-Gives info) (objects-Gives list.items) k
  basic-Gives info (nothing_known name) h k = absurd h

  -- The table of a value of a known type.
  table_of :
      (v : Value)
      → IsFine (view v)
      → (t : TableData) × (to_table sort_slice v ≡ ok t)
        × (t.rows ≡ rows_of (sort_slice by_number) v)
  unfolding interface_table port_table device_row interface_row port_row neighbor_row to_table view
  table_of (Value.device_value d) h = (_, refl, refl)
  table_of (Value.interface_value i) h = (_, refl, refl)
  table_of (Value.port_value p) h = (_, refl, refl)
  table_of (Value.neighbor_value n) h = (_, refl, refl)
  table_of (Value.interfaces_value l) h = (_, refl, refl)
  table_of (Value.ports_value l) h = (_, refl, refl)
  table_of (Value.other_value name) h = absurd h

  table-Gives :
      (info : Option Error) (v : Value) (t : TableData)
      → to_table sort_slice v ≡ ok t
      → Gives
          (render_table screen sort_slice info v)
          tt
          (λ k. screen.draw_table t (introduced screen info k))
  unfolding render_table draw
  table-Gives info v t e k =
      bind-Gives (lift (to_table sort_slice v))
        (λ shown. print_info screen sort_slice info >> draw screen sort_slice shown) t tt (λ k. k)
        (λ k. screen.draw_table t (introduced screen info k)) (λ k. ap (λ r. (r, k)) e)
        (bind-Gives (print_info screen sort_slice info) (λ u. draw screen sort_slice t) tt tt
          (introduced screen info) (screen.draw_table t) (info-Gives info) (λ k. refl))
        k

  -- What is printed of a value of a known type: by the basic renderer its lines, and by the table
  -- renderer its table, after the text that comes first.
  abbrev pub Printed : Option Error → Value → Renderer → K → K → Type 0
  Printed info v basic k k' = k' ≡ written screen (lines_of v) (introduced screen info k)
  Printed info v table k k' =
      (t : TableData) × (to_table sort_slice v ≡ ok t)
      × (t.rows ≡ rows_of (sort_slice by_number) v)
      × (k' ≡ screen.draw_table t (introduced screen info k))

  render-Gives :
      (r : Renderer) (info : Option Error) (v : Value)
      → IsFine (view v)
      → (f : K → K) × Gives (render screen sort_slice r info v) tt f
        × ((k : K) → Printed info v r k (f k))
  unfolding render
  render-Gives basic info v h = (
    _,
    basic-Gives info (view v) h,
    λ k. ap (λ lines. written screen lines (introduced screen info k)) (object_lines v),
  )
  render-Gives table info v h =
      let (t, e, rows) = table_of v h in (_, table-Gives info v t e, λ k. (t, e, rows, refl))

  own-Gives :
      (status : Status) → status.code ≡ 0 → Gives (own_status screen sort_slice status) tt (λ k. k)
  unfolding own_status
  own-Gives status h k =
      subst
        (λ b.
          (if b
              then return {W = K} {E = Status} tt
              else fail (new_error_status status.code status.message))
            k
          ≡ (ok tt, k))
        (sym ((==_iff status.code 0).1 h)) refl

  chosen :
      (status : Status) (renderer_type : Text)
      → status.code ≡ 0
      → chosen_type screen sort_slice status renderer_type ≡ renderer_type
  unfolding chosen_type
  chosen status renderer_type h = ground (arith, h, ==_iff status.code 0)

  same_info :
      (status : Status) (info : Option Error)
      → status.code ≡ 0
      → shown_info screen sort_slice status info ≡ info
  unfolding shown_info
  same_info status info h = ground (arith, h, ==_iff status.code 0)

  value-Gives :
      (no_renderer not_rendered : Error → Status) (renderer_type : Text) (registry : Dict Renderer)
      (r : Renderer) (info : Option Error) (v : Value) (status : Status) (f : K → K)
      → get_renderer renderer_type registry ≡ ok r
      → status.code ≡ 0
      → Gives (render screen sort_slice r info v) tt f
      → Gives
          (render_value screen sort_slice no_renderer not_rendered renderer_type registry info v
            status)
          tt
          f
  unfolding render_value
  value-Gives no_renderer not_rendered renderer_type registry r info v status f g h p =
      bind-Gives
        (or_fail no_renderer
          (lift (get_renderer (chosen_type screen sort_slice status renderer_type) registry)))
        (λ renderer.
          or_fail not_rendered
            (render screen sort_slice renderer (shown_info screen sort_slice status info) v)
          >> own_status screen sort_slice status)
        r tt (λ k. k) f
        (or_fail-Gives no_renderer (lift _) r (λ k. k)
          (λ k.
            ap (λ x. (x, k))
              (subst (λ t. get_renderer t registry ≡ ok r) (sym (chosen status renderer_type h))
                g)))
        (bind-Gives
          (or_fail not_rendered
            (render screen sort_slice r (shown_info screen sort_slice status info) v))
          (λ u. own_status screen sort_slice status) tt tt f (λ k. k)
          (or_fail-Gives not_rendered _ tt f (
            subst (λ i. Gives (render screen sort_slice r i v) tt f) (sym (same_info status info h))
              p))
          (own-Gives status h))

  checked-Gives :
      (wrap : Error → Error) (m : Exec K Status (Unit {0})) (f : K → K)
      → Gives m tt f
      → Gives (attempt m >>= λ r. lift (checked screen sort_slice wrap r)) tt f
  unfolding checked
  checked-Gives wrap m f p =
      bind-Gives (attempt m) (λ r. lift (checked screen sort_slice wrap r)) (ok tt) tt f (λ k. k)
        (attempt-Gives m tt f p) (λ k. refl)

  view-Gives :
      (renderer_type : Text) (registry : Dict Renderer) (r : Renderer) (info : Option Error)
      (v : Value) (w : View) (f : K → K)
      → get_renderer renderer_type registry ≡ ok r
      → IsFine w
      → Gives (render screen sort_slice r info v) tt f
      → Gives (print_view screen sort_slice renderer_type registry info v w) tt f
  unfolding print_view render_object render_list
  view-Gives renderer_type registry r info v (an_object obj) f g h p =
      checked-Gives (wrapf "error rendering object: %s" []) _ f
        (value-Gives _ _ renderer_type registry r info v obj.status f g h p)
  view-Gives renderer_type registry r info v (a_list list) f g h p =
      checked-Gives (wrapf "error rendering list: %s" []) _ f
        (value-Gives _ _ renderer_type registry r info v list.status f g h p)
  view-Gives renderer_type registry r info v (nothing_known name) f g h p = absurd h

  -- With a writer that takes every line and a renderer type that is registered, Print of a value
  -- of one of the agent's types whose status has the code 0 returns no error, and prints the value
  -- after the text that comes first: the basic renderer one line for each object, with its kind in
  -- lower case and its name, and the table renderer the table that ConvertToTable makes, whose rows
  -- are the names and other fields of the objects, interfaces as sort.Slice orders them.
  pub print_succeeds :
      (renderer_type : Text) (registry : Dict Renderer) (r : Renderer) (info : Option Error)
      (v : Value) (k : K)
      → get_renderer renderer_type registry ≡ ok r
      → IsFine (view v)
      → (k' : K) × (print screen sort_slice renderer_type registry info v k ≡ (ok tt, k'))
        × Printed info v r k k'
  unfolding print
  print_succeeds renderer_type registry r info v k g h =
      let (f, p, q) = render-Gives r info v h in
      (f k, view-Gives renderer_type registry r info v (view v) f g h p k, q k)
