-- ===== src/Ztp/Build/Kubeconfig.antt =====
-- Where the control kubeconfig of a generated script comes from.
use sonic_operator.Base.{
  ℕ, ◌≡◌, inl, inr, refl, Text, is_empty, Bool, true, false, not, ◌||◌, All, List, [], ◌∷◌, Error,
  Result, ok, err, arith, Result-cases, subst, if◌then◌else◌,
}
use sonic_operator.Api.{Container}
use sonic_operator.Ztp.Build.{kubeconfig_loop, base64, encode_file, read_kubeconfig}

-- The text is the base64 of what stands in the file of the path.
abbrev pub IsFile : (Text → Result Error (List ℕ)) → Text → Text → Type 0
IsFile read_file path text = (bytes : List ℕ) × (read_file path ≡ ok bytes) × (text ≡ base64 bytes)

module _ (read_file : Text → Result Error (List ℕ)) (path : Text) where
  encoded-IsFile :
      (r : Result Error (List ℕ)) {text : Text}
      → read_file path ≡ r
      → encode_file read_file path r ≡ ok text
      → IsFile read_file path text
  unfolding encode_file
  encoded-IsFile (ok bytes) {text} e h = (bytes, e, ground (arith, h))
  encoded-IsFile (err x) {text} e h = absurd (ground (arith, h))

  read-IsFile :
      {text : Text} → read_kubeconfig read_file path ≡ ok text → IsFile read_file path text
  unfolding read_kubeconfig
  read-IsFile {text} h = encoded-IsFile (read_file path) {text = text} refl (ground (arith, h))

  -- What the loop reads for each container that asks for the kubeconfig.
  kubeconfig_loop-IsFile :
      (cs : List Container) (encoded : Text) {r : Text}
      → (is_empty encoded ≡ false → IsFile read_file path encoded)
      → kubeconfig_loop read_file path cs encoded ≡ ok r
      → (IsFile read_file path encoded → IsFile read_file path r)
        × All (λ c. c.inject_control_kubeconfig ≡ true → IsFile read_file path r) cs
  unfolding kubeconfig_loop
  kubeconfig_loop-IsFile [] encoded {r} f h =
      (λ i. subst (IsFile read_file path) (ground (arith, h)) i, tt)
  kubeconfig_loop-IsFile (c ∷ cs) encoded {r} f h =
      by_test (λ text g k. kubeconfig_loop-IsFile cs text {r = r} g k)
        (not c.inject_control_kubeconfig || not (is_empty encoded)) refl h
    where
      by_test :
          ((text : Text)
            → (is_empty text ≡ false → IsFile read_file path text)
            → kubeconfig_loop read_file path cs text ≡ ok r
            → (IsFile read_file path text → IsFile read_file path r)
              × All (λ c. c.inject_control_kubeconfig ≡ true → IsFile read_file path r) cs)
          → (b : Bool) → (not c.inject_control_kubeconfig || not (is_empty encoded)) ≡ b
          → (if b
              then kubeconfig_loop read_file path cs encoded
              else elim (read_kubeconfig read_file path) [
                | err e ↦ err e
                | ok text ↦ kubeconfig_loop read_file path cs text
              ])
            ≡ ok r
          → (IsFile read_file path encoded → IsFile read_file path r)
            × All (λ c. c.inject_control_kubeconfig ≡ true → IsFile read_file path r) (c ∷ cs)
      by_test again true t k =
          let rest = again encoded f k in (rest.0, (λ i. rest.0 (f (ground (arith, t, i))), rest.1))
      by_test again false t k = elim (Result-cases (read_kubeconfig read_file path)) [
        | inl (x, e) ↦ absurd (ground (arith, e, k))
        | inr (text, e) ↦
            let found = read-IsFile {text = text} e in
            let rest = again text (λ u. found) (ground (arith, e, k)) in
            (λ i. rest.0 found, (λ i. rest.0 found, rest.1))
      ]

  pub injected-IsFile :
      (cs : List Container) {r : Text}
      → kubeconfig_loop read_file path cs [] ≡ ok r
      → All (λ c. c.inject_control_kubeconfig ≡ true → IsFile read_file path r) cs
  unfolding is_empty
  injected-IsFile cs {r} h =
      (kubeconfig_loop-IsFile cs [] {r = r} (λ e. absurd (ground (arith, e))) h).1
