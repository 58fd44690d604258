-- ===== src/Tests/Prints.antt =====
-- The theorems on printing, at a writer that keeps its lines.
use sonic_operator.Base.{
  Error, ◌≡◌, refl, codes, text_eq, lookup, insert, none, List, [], ◌∷◌, ok, Bool, Dict,
}
use sonic_operator.Types.{Interface, Kind, empty_interface, zero_status}
use sonic_operator.Print.{
  Value, interfaces_value, view, Renderer, basic, table, default_renderers, get_renderer,
}
use sonic_operator.Print.Output.{Screen, print}
use sonic_operator.Print.Output.Outcome.{IsFine, print-IsFine}
use sonic_operator.Print.Output.Success.{Printed, print_succeeds}

abbrev paper : Screen (List Error)
paper = record {
  print_line = λ line lines. (ok tt, line ∷ lines);
  draw_table = λ shown lines. lines;
}

abbrev unsorted : (Interface → Interface → Bool) → List Interface → List Interface
unsorted less items = items

abbrev pub registry : Dict Renderer
registry = (codes "basic", basic) ∷ (codes "table", table) ∷ []

registry_of_default : default_renderers ≡ ok registry
unfolding default_renderers lookup insert text_eq codes
registry_of_default = refl

abbrev one_interface : Value
one_interface = interfaces_value (record {
  kind = Kind.interface_list_kind;
  items = record empty_interface { kind = Kind.interface_kind; name = codes "eth0-0" } ∷ [];
  status = zero_status;
})

prints : (print paper unsorted (codes "basic") registry none one_interface []).0 ≡ ok tt
unfolding print view get_renderer lookup text_eq codes
prints = refl

print-IsFine_example : IsFine (view one_interface)
print-IsFine_example =
    print-IsFine paper unsorted (codes "basic") registry none one_interface [] prints

works : (line : Error) (k : List Error) → (paper.print_line line k).0 ≡ ok tt
works line k = refl

known : get_renderer (codes "basic") registry ≡ ok basic
unfolding get_renderer lookup text_eq codes
known = refl

fine : IsFine (view one_interface)
unfolding view
fine = refl

print_succeeds_example :
    (k : List Error) × (print paper unsorted (codes "basic") registry none one_interface []
      ≡ (ok tt, k))
    × Printed paper unsorted works none one_interface basic [] k
print_succeeds_example =
    print_succeeds paper unsorted works (codes "basic") registry basic none one_interface [] known
      fine
