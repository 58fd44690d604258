-- ===== src/Tests/Onies.antt =====
-- The theorem on the ONIE server, at a machine that is configured twice.
use sonic_operator.Base.{◌≡◌, codes, [], ◌∷◌, refl, text_eq, lookup, insert}
use sonic_operator.Onie.{OnieImage, images_of, file, serve, IsExpected, serve-IsExpected}

abbrev first : OnieImage
first = record { vendor = codes "m1"; onie_updater = codes "u1"; onie_installer = codes "i1" }

abbrev second : OnieImage
second = record { vendor = codes "m1"; onie_updater = codes "u2"; onie_installer = codes "i2" }

serves_second :
    serve (images_of (first ∷ second ∷ [])) (codes "m1") (codes "os-install") ≡ file (codes "/i2")
unfolding serve lookup images_of insert text_eq codes
serves_second = refl

serve-IsExpected_example :
    IsExpected
      (first ∷ second ∷ [])
      (codes "m1")
      (codes "os-install")
      (serve (images_of (first ∷ second ∷ [])) (codes "m1") (codes "os-install"))
serve-IsExpected_example = serve-IsExpected (first ∷ second ∷ []) (codes "m1") (codes "os-install")
