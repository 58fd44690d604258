-- ===== src/Agent/Version.antt =====
-- internal/agent/sonic/utils.go: the fields of sonic_version.yml.
use sonic_operator.Base.{
  ℕ, Text, codes, is_empty, has_prefix, trim_space, trim_left, split, split_n, ◌==◌, Bool, ◌||◌,
  List, [], ◌∷◌, if◌then◌else◌, Fields, insert,
}
use mathlib.Core.List.{reverse}

is_quote : ℕ → Bool
is_quote c = c == 0x27 || c == 0x22

-- strings.Trim(value, `'"`)
trim_quotes : Text → Text
unfolding is_quote
trim_quotes s = reverse (trim_left is_quote (reverse (trim_left is_quote s)))

-- What the parts of a line at its first colon add; a line with no colon has one part.
add_parts : List Text → Fields → Fields
unfolding trim_quotes
add_parts (key ∷ value ∷ []) info = insert (trim_space key) (trim_quotes (trim_space value)) info
add_parts _ info = info

add_line : Text → Fields → Fields
unfolding add_parts
add_line line info =
    if has_prefix line (codes "#") || has_prefix line (codes "---") || is_empty line
    then info
    else add_parts (split_n line b':' 1) info

lines_loop : List Text → Fields → Fields
unfolding add_line
lines_loop [] info = info
lines_loop (line ∷ lines) info = lines_loop lines (add_line (trim_space line) info)

unfoldable pub parse_version_info : Text → Fields
unfolding lines_loop
parse_version_info content = lines_loop (split content b'\n') []
