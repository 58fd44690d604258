-- ===== src/Ztp/Volumes/Mounts.antt =====
-- containerVolumeMounts accepts the mounts of known volumes at different absolute paths.
use sonic_operator.Base.{
  ◌≡◌, ◌≢◌, ◌↔◌, inl, inr, refl, Text, codes, text_eq_iff, has_prefix, true, none, some, List, [],
  ◌∷◌, ◌++◌, if◌then◌else◌, ok, arith, All, Dict, lookup, insert, lookup-insert, Option-cases,
  Result-cases, ◌∙◌, append_assoc, append-nil, sym, ap, subst,
}
use sonic_operator.Api.{Container, VolumeMount}
use sonic_operator.Ztp.Volumes.{bind_mount, check_mount, mounts_loop, container_volume_mounts}

-- The bind is the one of a mount of a known volume at an absolute path.
pub record IsBindOf (volumes : Dict Text) (mount : VolumeMount) (bind : Text) : Type 0 where
  pub host_path : Text
  pub known : lookup mount.name volumes ≡ some host_path
  pub absolute : has_prefix mount.mount_path (codes "/") ≡ true
  pub made :
      bind
      ≡ host_path
        ++ (codes ":"
            ++ (mount.mount_path ++ (if mount.read_only then codes ":ro" else codes ":rw")))

-- One bind for each mount, in the order of the mounts.
abbrev pub AreBindsOf : Dict Text → List VolumeMount → List Text → Type 0
AreBindsOf volumes [] [] = Unit
AreBindsOf volumes [] (b ∷ binds) = ⊥
AreBindsOf volumes (m ∷ mounts) [] = ⊥
AreBindsOf volumes (m ∷ mounts) (b ∷ binds) = IsBindOf volumes m b × AreBindsOf volumes mounts binds

abbrev pub DistinctPaths : List VolumeMount → Type 0
DistinctPaths [] = Unit
DistinctPaths (m ∷ mounts) = All (λ n. n.mount_path ≢ m.mount_path) mounts × DistinctPaths mounts

abbrev Unused : Dict (Unit {0}) → List VolumeMount → Type 0
Unused seen mounts = All (λ m. lookup m.mount_path seen ≡ none) mounts

Unused-insert :
    (k : Text) (seen : Dict (Unit {0})) (mounts : List VolumeMount)
    → Unused (insert k tt seen) mounts ↔ (Unused seen mounts × All (λ n. n.mount_path ≢ k) mounts)
Unused-insert k seen [] = (λ h. (tt, tt), λ h. tt)
Unused-insert k seen (m ∷ mounts) =
    let rest = Unused-insert k seen mounts in
    (
      λ h. (
        (ground (arith, h.0, lookup-insert k m.mount_path tt seen), (rest.0 h.1).0),
        (
          λ e.
              ground (arith, h.0, lookup-insert k m.mount_path tt seen, text_eq_iff k m.mount_path),
          (rest.0 h.1).1,
        ),
      ),
      λ h. (
        ground
            (arith, h.0.0, h.1.0, lookup-insert k m.mount_path tt seen, text_eq_iff k m.mount_path),
        rest.1 (h.0.1, h.1.1),
      ),
    )

bind_made :
    (path host_path : Text) (m : VolumeMount)
    → path ≡ host_path
    → bind_mount path m
      ≡ host_path
        ++ (codes ":" ++ (m.mount_path ++ (if m.read_only then codes ":ro" else codes ":rw")))
unfolding bind_mount codes
bind_made path host_path m h = ground (arith, h)

module _ (container : Text) (volumes : Dict Text) where
  check_sound :
      (seen : Dict (Unit {0})) (m : VolumeMount) {path : Text}
      → check_mount container volumes seen m ≡ ok path
      → (lookup m.mount_path seen ≡ none) × IsBindOf volumes m (bind_mount path m)
  unfolding check_mount
  check_sound seen m {path} h = elim (Option-cases (lookup m.name volumes)) [
    | inl e ↦ absurd (ground arith)
    | inr (q, e) ↦
        let same : q ≡ path = ground arith in
        (
          ground arith,
          record {
            host_path = q;
            known = e;
            absolute = ground arith;
            made = bind_made path q m (sym same);
          },
        )
  ]

  check_complete :
      (seen : Dict (Unit {0})) (m : VolumeMount) (b : Text) (i : IsBindOf volumes m b)
      → lookup m.mount_path seen ≡ none
      → check_mount container volumes seen m ≡ ok i.host_path
  unfolding check_mount
  check_complete seen m b i fresh = ground (arith, i.known, i.absolute, fresh)

  loop_sound :
      (mounts : List VolumeMount) (seen : Dict (Unit {0})) (built : List Text) {r : List Text}
      → mounts_loop container volumes mounts seen built ≡ ok r
      → (binds : List Text) × (r ≡ built ++ binds)
        × AreBindsOf volumes mounts binds
        × DistinctPaths mounts
        × Unused seen mounts
  unfolding mounts_loop
  loop_sound [] seen built {r} h = ([], ground (arith, append-nil built), tt, tt, tt)
  loop_sound (m ∷ mounts) seen built {r} h =
      elim (Result-cases (check_mount container volumes seen m)) [
        | inl (x, e) ↦ absurd (ground arith)
        | inr (path, e) ↦
            let (fresh, first) = check_sound seen m {path = path} e in
            let (binds, split, rest, distinct, unused) =
              loop_sound mounts (insert m.mount_path tt seen) (built ++ bind_mount path m ∷ [])
                {r = r} (ground arith) in
            let (old, new) = (Unused-insert m.mount_path seen mounts).0 unused in
            (
              bind_mount path m ∷ binds,
              split ∙ append_assoc built (bind_mount path m ∷ []) binds,
              (first, rest),
              (new, distinct),
              (fresh, old),
            )
      ]

  loop_complete :
      (mounts : List VolumeMount) (seen : Dict (Unit {0})) (built binds : List Text)
      → AreBindsOf volumes mounts binds
      → DistinctPaths mounts
      → Unused seen mounts
      → mounts_loop container volumes mounts seen built ≡ ok (built ++ binds)
  unfolding mounts_loop
  loop_complete [] seen built [] fit distinct unused = ap ok (sym (append-nil built))
  loop_complete [] seen built (b ∷ binds) fit distinct unused = absurd fit
  loop_complete (m ∷ mounts) seen built [] fit distinct unused = absurd fit
  loop_complete (m ∷ mounts) seen built (b ∷ binds) (i, fit) (new, distinct) (fresh, old) =
      let rest =
        loop_complete mounts (insert m.mount_path tt seen) (built ++ b ∷ []) binds fit distinct
          ((Unused-insert m.mount_path seen mounts).1 (old, new)) in
      ground (
        arith,
        check_complete seen m b i fresh,
        i.made,
        bind_made i.host_path i.host_path m refl,
        rest,
        append_assoc built (b ∷ []) binds,
      )

-- The binds are those of a container exactly if they are, one for each of its mounts and in their
-- order, `host:mount:ro` or `host:mount:rw` of the mounted volumes' host paths, and the mount paths are absolute and different.
pub container_volume_mounts_accepts :
    (container : Container) (volumes : Dict Text) (binds : List Text)
    → (container_volume_mounts container volumes ≡ ok binds)
      ↔ (AreBindsOf volumes container.volume_mounts binds × DistinctPaths container.volume_mounts)
unfolding container_volume_mounts lookup
container_volume_mounts_accepts container volumes binds = (
  λ h.
      let (found, same, fit, distinct, unused) =
        loop_sound container.name volumes container.volume_mounts [] [] {r = binds} h in
      (subst (λ b. AreBindsOf volumes container.volume_mounts b) (sym same) fit, distinct),
  λ (fit, distinct).
      loop_complete container.name volumes container.volume_mounts [] [] binds fit distinct
        (Unused-nil container.volume_mounts),
)
  where
    Unused-nil : (mounts : List VolumeMount) → Unused [] mounts
    Unused-nil [] = tt
    Unused-nil (m ∷ mounts) = (refl, Unused-nil mounts)
