-- ===== src/Print/Output/Lines.antt =====
-- The lines that stand for a value.
use sonic_operator.Base.{◌≡◌, refl, ap, Text, codes, is_empty, List, [], ◌∷◌, ◌++◌, map}
use sonic_operator.Types.{Status, Interface, Port, Kind, device_name}
use sonic_operator.Print.{
  Value, Object, View, an_object, a_list, nothing_known, view, object_line, lower_kind,
  interface_object, port_object, Cell, text, number,
}

-- The line of an object: its kind in lower case, a slash and its name.
abbrev pub line_of : Kind → Text → Text
line_of Kind.no_kind name = name
line_of Kind.device_kind name = codes "switchdevice/" ++ name
line_of Kind.interface_kind name = codes "interface/" ++ name
line_of Kind.interface_list_kind name = codes "interfacelist/" ++ name
line_of Kind.port_kind name = codes "port/" ++ name
line_of Kind.port_list_kind name = codes "portlist/" ++ name
line_of Kind.interface_neighbor_kind name = codes "interfaceneighbor/" ++ name

-- The lines of a value: its own, or one for each of its items in their order.
abbrev pub lines_of : Value → List Text
lines_of (Value.device_value d) = line_of d.kind (device_name d) ∷ []
lines_of (Value.interface_value i) = line_of i.kind i.name ∷ []
lines_of (Value.port_value p) = line_of p.kind p.name ∷ []
lines_of (Value.neighbor_value n) = line_of n.kind n.name ∷ []
lines_of (Value.interfaces_value l) = map (λ i. line_of i.kind i.name) l.items
lines_of (Value.ports_value l) = map (λ p. line_of p.kind p.name) l.items
lines_of (Value.other_value name) = []

unfoldable pub objects_of : View → List Object
objects_of (an_object obj) = obj ∷ []
objects_of (a_list list) = list.items
objects_of (nothing_known name) = []

object_line-line_of :
    (kind : Kind) (name : Text) (status : Status)
    → object_line (record { kind = kind; name = name; status = status }) ≡ line_of kind name
unfolding object_line lower_kind codes is_empty
object_line-line_of Kind.no_kind name status = refl
object_line-line_of Kind.device_kind name status = refl
object_line-line_of Kind.interface_kind name status = refl
object_line-line_of Kind.interface_list_kind name status = refl
object_line-line_of Kind.port_kind name status = refl
object_line-line_of Kind.port_list_kind name status = refl
object_line-line_of Kind.interface_neighbor_kind name status = refl

interface_lines :
    (items : List Interface)
    → map object_line (map interface_object items) ≡ map (λ i. line_of i.kind i.name) items
unfolding interface_object
interface_lines [] = refl
interface_lines (i ∷ items) =
    rw (object_line-line_of i.kind i.name i.status) (rw (interface_lines items) refl)

port_lines :
    (items : List Port)
    → map object_line (map port_object items) ≡ map (λ p. line_of p.kind p.name) items
unfolding port_object
port_lines [] = refl
port_lines (p ∷ items) =
    rw (object_line-line_of p.kind p.name p.status) (rw (port_lines items) refl)

pub object_lines : (v : Value) → map object_line (objects_of (view v)) ≡ lines_of v
unfolding view objects_of interface_object port_object
object_lines (Value.device_value d) =
    ap (λ l. l ∷ []) (object_line-line_of d.kind (device_name d) d.status)
object_lines (Value.interface_value i) =
    ap (λ l. l ∷ []) (object_line-line_of i.kind i.name i.status)
object_lines (Value.port_value p) = ap (λ l. l ∷ []) (object_line-line_of p.kind p.name p.status)
object_lines (Value.neighbor_value n) =
    ap (λ l. l ∷ []) (object_line-line_of n.kind n.name n.status)
object_lines (Value.interfaces_value l) = interface_lines l.items
object_lines (Value.ports_value l) = port_lines l.items
object_lines (Value.other_value name) = refl

-- The rows of the table of a value; those of interfaces in the order that `sort_slice` gives them.
abbrev interface_cells : Interface → List Cell
interface_cells i =
    text i.name
    ∷ text i.native_name
    ∷ text i.alias_name
    ∷ text i.mac_address
    ∷ text i.operation_status
    ∷ text i.admin_status
    ∷ []

abbrev pub rows_of : (List Interface → List Interface) → Value → List (List Cell)
rows_of sorted (Value.device_value d) =
    (text (device_name d)
      ∷ text d.local_mac_address
      ∷ text d.hwsku
      ∷ text d.sonic_os_version
      ∷ text d.asic_type
      ∷ number d.readiness
      ∷ [])
    ∷ []
rows_of sorted (Value.interface_value i) = map interface_cells (sorted (i ∷ []))
rows_of sorted (Value.port_value p) = (text p.name ∷ text p.alias ∷ []) ∷ []
rows_of sorted (Value.neighbor_value n) =
    (text n.system_name ∷ text n.handle ∷ text n.mac_address ∷ []) ∷ []
rows_of sorted (Value.interfaces_value l) = map interface_cells (sorted l.items)
rows_of sorted (Value.ports_value l) = map (λ p. text p.name ∷ text p.alias ∷ []) l.items
rows_of sorted (Value.other_value name) = []
