-- ===== src/Print/Output.antt =====
-- The renderers and DefaultPrintRender, on a writer.
pub mod Outcome
pub mod Lines
pub mod Success
use sonic_operator.Base.{
  ℕ, Text, codes, text_eq, ◌==◌, Bool, true, false, Option, none, some, List, [], ◌∷◌,
  if◌then◌else◌, Error, errorf, wrapf, str, int, Result, ok, err, Exec, return, fail, lift, attempt,
  or_fail, ◌>>=◌, ◌>>◌, Dict,
}
use sonic_operator.Base.Int.{pos}
use sonic_operator.Types.{Status, Interface, Kind, new_error_status, bad_request, client_error}
use sonic_operator.Print.{
  Value, Object, Objects, View, an_object, a_list, nothing_known, view, object_line, kind_name,
  TableData, to_table, Renderer, basic, table, get_renderer,
}

-- The writer and the table of package go-pretty, which reports no error.
pub record Screen (K : Type 0) : Type 0 where
  pub print_line : Error → Exec K Error (Unit {0})
  pub draw_table : TableData → K → K

module _ {K : Type 0} (screen : Screen K)
    (sort_slice : (Interface → Interface → Bool) → List Interface → List Interface) where
  -- A text that is printed before the objects, unless it is empty.
  print_info : Option Error → Exec K Error (Unit {0})
  print_info none = return tt
  print_info (some info) = screen.print_line info

  unfoldable pub print_objects : List Object → Exec K Error (Unit {0})
  print_objects [] = return tt
  print_objects (obj ∷ objs) = do
    screen.print_line (errorf "%s" (str (object_line obj) ∷ []))
    print_objects objs

  -- BasicRenderer.Render
  render_basic : Option Error → View → Exec K Error (Unit {0})
  unfolding print_info print_objects
  render_basic info (an_object obj) = do print_info info; print_objects (obj ∷ [])
  render_basic info (a_list list) = do print_info info; print_objects list.items
  render_basic info (nothing_known name) =
      fail (errorf "unsupported type %T for rendering" (str name ∷ []))

  draw : TableData → Exec K Error (Unit {0})
  draw shown k = (ok tt, screen.draw_table shown k)

  -- TableRenderer.Render
  render_table : Option Error → Value → Exec K Error (Unit {0})
  unfolding print_info draw
  render_table info v = do shown ← lift (to_table sort_slice v); print_info info; draw shown

  unfoldable pub render : Renderer → Option Error → Value → Exec K Error (Unit {0})
  unfolding render_basic render_table
  render basic info v = render_basic info (view v)
  render table info v = render_table info v

  server_error : Status → Error
  server_error status = wrapf "server error: %d, %s" (int (pos status.code) ∷ []) status.message

  -- What is printed first, and by which renderer: an error of the server is printed by the basic one
  -- in place of a table.
  unfoldable pub shown_info : Status → Option Error → Option Error
  unfolding server_error
  shown_info status info = if status.code == 0 then info else some (server_error status)

  unfoldable pub chosen_type : Status → Text → Text
  chosen_type status renderer_type =
      if status.code == 0
      then renderer_type
      else if text_eq renderer_type (codes "table")
      then codes "basic"
      else renderer_type

  -- The status of the object itself, at the end.
  own_status : Status → Exec K Status (Unit {0})
  own_status status =
      if status.code == 0 then return tt else fail (new_error_status status.code status.message)

  -- RenderObject and RenderList differ in the errors that they report.
  unfoldable pub render_value :
      (Error → Status)
      → (Error → Status)
      → Text
      → Dict Renderer
      → Option Error
      → Value
      → Status
      → Exec K Status (Unit {0})
  unfolding own_status shown_info chosen_type render
  render_value no_renderer not_rendered renderer_type registry info v status = do
    renderer ← or_fail no_renderer (lift (get_renderer (chosen_type status renderer_type) registry))
    or_fail not_rendered (render renderer (shown_info status info) v)
    own_status status

  unfoldable pub render_object :
      Text → Dict Renderer → Option Error → Value → Object → Exec K Status (Unit {0})
  unfolding render_value
  render_object renderer_type registry info v obj =
      render_value (λ e. new_error_status bad_request (wrapf "error creating renderer: %v" [] e))
        (λ e.
          new_error_status client_error
            (wrapf "error rendering %s: %v" (str (kind_name obj.kind) ∷ []) e))
        renderer_type registry info v obj.status

  unfoldable pub render_list :
      Text → Dict Renderer → Option Error → Value → Objects → Exec K Status (Unit {0})
  unfolding render_value
  render_list renderer_type registry info v list =
      render_value (λ e. new_error_status client_error (wrapf "error creating renderer: %v" [] e))
        (λ e. new_error_status client_error (wrapf "error rendering list: %v" [] e)) renderer_type
        registry info v list.status

  -- status != nil && status.Code != 0
  unfoldable pub checked : (Error → Error) → Result Status (Unit {0}) → Result Error (Unit {0})
  checked wrap (ok u) = ok tt
  checked wrap (err status) = if status.code == 0 then ok tt else err (wrap status.message)

  print_view : Text → Dict Renderer → Option Error → Value → View → Exec K Error (Unit {0})
  unfolding checked render_object render_list
  print_view renderer_type registry info v (an_object obj) = do
    r ← attempt (render_object renderer_type registry info v obj)
    lift (checked (wrapf "error rendering object: %s" []) r)
  print_view renderer_type registry info v (a_list list) = do
    r ← attempt (render_list renderer_type registry info v list)
    lift (checked (wrapf "error rendering list: %s" []) r)
  print_view renderer_type registry info v (nothing_known name) =
      fail (errorf "unsupported type %T for printing" (str name ∷ []))

  -- Print
  unfoldable pub print : Text → Dict Renderer → Option Error → Value → Exec K Error (Unit {0})
  unfolding print_view
  print renderer_type registry info v = print_view renderer_type registry info v (view v)
