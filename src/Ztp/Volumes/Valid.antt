-- ===== src/Ztp/Volumes/Valid.antt =====
-- hostPathVolumes accepts the volumes that are named, absolute and have different names.
use sonic_operator.Base.{
  ◌≡◌, ◌≢◌, ◌↔◌, inl, inr, refl, Text, codes, text_eq, text_eq_iff, is_empty, has_prefix, true,
  false, Option, none, some, List, [], ◌∷◌, ok, arith, All, Dict, lookup, insert, lookup-insert,
  if◌then◌else◌, Option-cases, Result-cases, ◌∙◌,
}
use sonic_operator.Api.{Volume}
use sonic_operator.Ztp.Volumes.{check_volume, check_path, volumes_loop, host_path_volumes}

-- A volume with a name and an absolute path.
pub record Valid (v : Volume) : Type 0 where
  pub path : Text
  pub given : v.host_path ≡ some path
  pub absolute : has_prefix path (codes "/") ≡ true
  pub named : is_empty v.name ≡ false

abbrev pub Distinct : List Volume → Type 0
Distinct [] = Unit
Distinct (v ∷ vs) = All (λ u. u.name ≢ v.name) vs × Distinct vs

-- The path of the first volume of the name.
unfoldable pub declared : Text → List Volume → Option Text
declared k [] = none
declared k (v ∷ vs) = let rest = declared k vs in if text_eq v.name k then v.host_path else rest

check_cases :
    (seen : Dict Text) (v : Volume) {path : Text}
    → check_volume seen v ≡ ok path
    → (lookup v.name seen ≡ none) × (v.host_path ≡ some path) × Valid v
unfolding check_volume check_path
check_cases seen v {path} h = elim (Option-cases v.host_path) [
  | inl e ↦ absurd (ground arith)
  | inr (q, e) ↦
      let same : q ≡ path = ground arith in
      (
        ground arith,
        ground arith,
        record { path = q; given = e; absolute = ground arith; named = ground arith },
      )
]

check-Valid :
    (seen : Dict Text) (v : Volume) (p : Valid v)
    → lookup v.name seen ≡ none
    → check_volume seen v ≡ ok p.path
unfolding check_volume check_path
check-Valid seen v p fresh = ground (arith, p.given, p.absolute, p.named, fresh)

-- No volume has a name of the map.
abbrev Fresh : Dict Text → List Volume → Type 0
Fresh seen vs = All (λ v. lookup v.name seen ≡ none) vs

Fresh-insert :
    (k path : Text) (seen : Dict Text) (vs : List Volume)
    → Fresh (insert k path seen) vs ↔ (Fresh seen vs × All (λ u. u.name ≢ k) vs)
Fresh-insert k path seen [] = (λ h. (tt, tt), λ h. tt)
Fresh-insert k path seen (v ∷ vs) =
    let rest = Fresh-insert k path seen vs in
    (
      λ h. (
        (ground (arith, h.0, lookup-insert k v.name path seen), (rest.0 h.1).0),
        (
          λ e. ground (arith, h.0, lookup-insert k v.name path seen, text_eq_iff k v.name),
          (rest.0 h.1).1,
        ),
      ),
      λ h. (
        ground (arith, h.0.0, h.1.0, lookup-insert k v.name path seen, text_eq_iff k v.name),
        rest.1 (h.0.1, h.1.1),
      ),
    )

-- The path of the map, or else the declared one.
abbrev path_of : Dict Text → List Volume → Text → Option Text
path_of seen vs k = elim (lookup k seen) [ some p ↦ some p | none ↦ declared k vs ]

path_of-insert :
    (seen : Dict Text) (v : Volume) (vs : List Volume) {path : Text} (k : Text)
    → lookup v.name seen ≡ none
    → v.host_path ≡ some path
    → path_of (insert v.name path seen) vs k ≡ path_of seen (v ∷ vs) k
unfolding declared
path_of-insert seen v vs {path} k fresh given =
    ground (arith, lookup-insert v.name k path seen, text_eq_iff v.name k, fresh, given)

loop_sound :
    (vs : List Volume) (seen : Dict Text) {m : Dict Text}
    → volumes_loop vs seen ≡ ok m
    → All Valid vs × Distinct vs × Fresh seen vs × ((k : Text) → lookup k m ≡ path_of seen vs k)
unfolding volumes_loop declared
loop_sound [] seen h = (tt, tt, tt, λ k. ground arith)
loop_sound (v ∷ vs) seen {m} h = elim (Result-cases (check_volume seen v)) [
  | inl (x, e) ↦ absurd (ground arith)
  | inr (path, e) ↦
      let (fresh, given, valid) = check_cases seen v {path = path} e in
      let (all_valid, distinct, all_fresh, paths) =
        loop_sound vs (insert v.name path seen) {m = m} (ground arith) in
      let (old, new) = (Fresh-insert v.name path seen vs).0 all_fresh in
      (
        (valid, all_valid),
        (new, distinct),
        (fresh, old),
        λ k. paths k ∙ path_of-insert seen v vs k fresh given,
      )
]

loop_complete :
    (vs : List Volume) (seen : Dict Text)
    → All Valid vs
    → Distinct vs
    → Fresh seen vs
    → (m : Dict Text) × (volumes_loop vs seen ≡ ok m)
unfolding volumes_loop
loop_complete [] seen valid distinct fresh = (seen, refl)
loop_complete (v ∷ vs) seen (p, valid) (new, distinct) (fresh, old) =
    let (m, e) =
      loop_complete vs (insert v.name p.path seen) valid distinct
        ((Fresh-insert v.name p.path seen vs).1 (old, new)) in
    (m, ground (arith, check-Valid seen v p fresh, e))

-- The volumes of a switch are accepted exactly if each has a name and an absolute host path and no
-- two have the same name.
pub host_path_volumes_accepts :
    (volumes : List Volume)
    → ((m : Dict Text) × (host_path_volumes volumes ≡ ok m))
      ↔ (All Valid volumes × Distinct volumes)
unfolding host_path_volumes lookup
host_path_volumes_accepts volumes = (
  λ (m, h). let s = loop_sound volumes [] {m = m} h in (s.0, s.1),
  λ (valid, distinct). loop_complete volumes [] valid distinct (Fresh-nil volumes),
)
  where
    Fresh-nil : (vs : List Volume) → Fresh [] vs
    Fresh-nil [] = tt
    Fresh-nil (v ∷ vs) = (refl, Fresh-nil vs)
