-- ===== src/Sonic/Keys/Vlans.antt =====
-- The VLAN names that validateVlanName accepts.
use sonic_operator.Base.{
  ℕ, ◌<◌, ◌≤◌, ◌≡◌, ◌↔◌, refl, Text, codes, has_prefix, trim_prefix, has_prefix-append,
  trim_prefix-append, has_prefix_sound, true, false, Option, none, some, ◌++◌, ok, arith,
}
use sonic_operator.Base.Int.{ℤ, pos, negsuc}
use sonic_operator.Strconv.{atoi}
use sonic_operator.Sonic.Keys.{validate_vlan_name, bad_vlan_id}

-- The name is the prefix and a text that is read as an id of a VLAN.
pub record Numbered (vlan_name : Text) : Type 0 where
  pub suffix : Text
  pub id : ℕ
  pub shape : vlan_name ≡ codes "Vlan" ++ suffix
  pub read : atoi suffix ≡ some (pos id)
  pub above : 0 < id
  pub below : id ≤ 4094

good_id :
    (o : Option ℤ) → bad_vlan_id o ≡ false → (n : ℕ) × (o ≡ some (pos n)) × (0 < n) × (n ≤ 4094)
unfolding bad_vlan_id
good_id none h = absurd (ground arith)
good_id (some (pos n)) h = (n, refl, ground arith, ground arith)
good_id (some (negsuc n)) h = absurd (ground arith)

accepted :
    (vlan_name : Text)
    → validate_vlan_name vlan_name ≡ ok tt
    → (has_prefix vlan_name (codes "Vlan") ≡ true)
      × (bad_vlan_id (atoi (trim_prefix vlan_name (codes "Vlan"))) ≡ false)
unfolding validate_vlan_name
accepted vlan_name h = (ground arith, ground arith)

Numbered-accepted : (vlan_name : Text) → Numbered vlan_name → validate_vlan_name vlan_name ≡ ok tt
unfolding validate_vlan_name bad_vlan_id
Numbered-accepted vlan_name h = rw (h.shape) (
    ground (
      arith,
      has_prefix-append (codes "Vlan") h.suffix,
      trim_prefix-append (codes "Vlan") h.suffix,
      h.read,
      h.above,
      h.below,
    ))

-- A VLAN name is accepted exactly if it is Vlan and a text that strconv.Atoi reads as a number from
-- 1 to 4094.
pub validate_vlan_name_accepts :
    (vlan_name : Text) → (validate_vlan_name vlan_name ≡ ok tt) ↔ Numbered vlan_name
validate_vlan_name_accepts vlan_name = (
  λ h.
      let (prefixed, good) = accepted vlan_name h in
      let (n, read, above, below) = good_id (atoi (trim_prefix vlan_name (codes "Vlan"))) good in
      record {
        suffix = trim_prefix vlan_name (codes "Vlan");
        id = n;
        shape = has_prefix_sound vlan_name (codes "Vlan") prefixed;
        read = read;
        above = above;
        below = below;
      },
  Numbered-accepted vlan_name,
)
