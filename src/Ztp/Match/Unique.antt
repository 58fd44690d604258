-- ===== src/Ztp/Match/Unique.antt =====
-- The ZTP server serves a switch only if it is the one switch of the client's address.
use sonic_operator.Base.{
  ◌≡◌, ◌≢◌, ◌↔◌, refl, subst, Option-cases, Result-cases, Text, Bool, true, false, Option, none,
  some, List, [], ◌∷◌, ◌++◌, Error, Result, ok, arith, All, ap, ◌⊎◌, inl, inr,
}
use sonic_operator.Api.{Switch, Ztp}
use sonic_operator.Ztp.Match.{match_loop, matching_switch, source_matches}

module _ {Addr : Type 0} (parse_addr : Text → Result Error Addr) (addr_eq : Addr → Addr → Bool)
    (show_addr : Addr → Text) where
  abbrev loop : Addr → List Switch → Option Switch → Result Error (Option Switch)
  loop = match_loop parse_addr addr_eq show_addr

  -- The switch has a valid ZTP source address, which is `a`.
  pub record Source (s : Switch) (a : Addr) : Type 0 where
    pub ztp : Ztp
    pub declared : s.spec.ztp ≡ some ztp
    pub parsed : parse_addr ztp.source_address ≡ ok a

  -- The switch has no ZTP source, or a valid one that is another address.
  abbrev pub Differs : Addr → Switch → Type 0
  Differs client s = (s.spec.ztp ≡ none) ⊎ ((a : Addr) × Source s a × (a ≢ client))

  -- The first list of switches, then the switch, then the second list; only the switch has the
  -- client for its source, and no address of another one is invalid.
  pub record OneMatch (client : Addr) (switches : List Switch) (s : Switch) : Type 0 where
    pub before : List Switch
    pub after : List Switch
    pub split : switches ≡ before ++ s ∷ after
    pub source : Source s client
    pub others_before : All (Differs client) before
    pub others_after : All (Differs client) after

  abbrev test : Addr → Switch → Result Error Bool
  test = source_matches parse_addr addr_eq show_addr

  module _ (addr_eq_iff : (a b : Addr) → (addr_eq a b ≡ true) ↔ (a ≡ b)) where
    test-Source : (client : Addr) (s : Switch) → Source s client → test client s ≡ ok true
    unfolding source_matches
    test-Source client s h = ground (arith, h.declared, h.parsed, addr_eq_iff client client)

    test-Differs : (client : Addr) (s : Switch) → Differs client s → test client s ≡ ok false
    unfolding source_matches
    test-Differs client s (inl e) = rw e
    test-Differs client s (inr (a, h, ne)) =
        ground (arith, h.declared, h.parsed, addr_eq_iff a client)

    -- The test answers only for a switch with no source or with a valid one.
    test-cases :
        (client : Addr) (s : Switch) (b : Bool)
        → test client s ≡ ok b
        → ((b ≡ false) × (s.spec.ztp ≡ none)) ⊎ ((a : Addr) × Source s a × (addr_eq a client ≡ b))
    unfolding source_matches
    test-cases client s b h = elim (Option-cases s.spec.ztp) [
      | inl e ↦ inl (ground arith, e)
      | inr (z, e) ↦ elim (Result-cases (parse_addr z.source_address)) [
        | inl (x, f) ↦ absurd (ground arith)
        | inr (a, f) ↦ inr (a, record { ztp = z; declared = e; parsed = f }, ground arith)
      ]
    ]

    Source-test : (client : Addr) (s : Switch) → test client s ≡ ok true → Source s client
    Source-test client s h = elim (test-cases client s true h) [
      | inl (f, e) ↦ absurd (ground arith)
      | inr (a, x, f) ↦ subst (λ y. Source s y) ((addr_eq_iff a client).0 f) x
    ]

    Differs-test : (client : Addr) (s : Switch) → test client s ≡ ok false → Differs client s
    Differs-test client s h = elim (test-cases client s false h) [
      | inl (f, e) ↦ inl e
      | inr (a, x, f) ↦ inr (a, x, λ y. ground (arith, addr_eq_iff a client))
    ]

    -- With a match, the loop ends well exactly if the rest differs.
    loop-found :
        (client : Addr) (switches : List Switch) (m : Switch) {r : Option Switch}
        → loop client switches (some m) ≡ ok r
        → All (Differs client) switches × (r ≡ some m)
    unfolding match_loop
    loop-found client [] m h = (tt, ground arith)
    loop-found client (s ∷ switches) m {r} h = elim (Result-cases (test client s)) [
      | inl (x, e) ↦ absurd (ground arith)
      | inr (true, e) ↦ absurd (ground arith)
      | inr (false, e) ↦
          let (others, same) = loop-found client switches m {r = r} (ground arith) in
          ((Differs-test client s e, others), same)
    ]

    loop_sound :
        (client : Addr) (switches : List Switch) {s : Switch}
        → loop client switches none ≡ ok (some s)
        → OneMatch client switches s
    unfolding match_loop
    loop_sound client [] h = absurd (ground arith)
    loop_sound client (t ∷ switches) {s} h = elim (Result-cases (test client t)) [
      | inl (x, e) ↦ absurd (ground arith)
      | inr (true, e) ↦
          let (others, same) = loop-found client switches t {r = some s} (ground arith) in
          let here : t ≡ s = ground arith in
          record {
            before = [];
            after = switches;
            split = ap (λ x. x ∷ switches) here;
            source = subst (λ x. Source x client) here (Source-test client t e);
            others_before = tt;
            others_after = others;
          }
      | inr (false, e) ↦
          let one = loop_sound client switches {s = s} (ground arith) in
          record {
            before = t ∷ one.before;
            after = one.after;
            split = ap (λ x. t ∷ x) one.split;
            source = one.source;
            others_before = (Differs-test client t e, one.others_before);
            others_after = one.others_after;
          }
    ]

    loop-Differs :
        (client : Addr) (switches : List Switch) (m : Option Switch)
        → All (Differs client) switches
        → loop client switches m ≡ ok m
    unfolding match_loop
    loop-Differs client [] m h = refl
    loop-Differs client (s ∷ switches) m (d, h) =
        ground (arith, test-Differs client s d, loop-Differs client switches m h)

    loop_complete :
        (client : Addr) (before after : List Switch) (s : Switch)
        → All (Differs client) before
        → Source s client
        → All (Differs client) after
        → loop client (before ++ s ∷ after) none ≡ ok (some s)
    unfolding match_loop
    loop_complete client [] after s hb hs ha =
        ground (arith, test-Source client s hs, loop-Differs client after (some s) ha)
    loop_complete client (t ∷ before) after s (d, hb) hs ha =
        ground (arith, test-Differs client t d, loop_complete client before after s hb hs ha)

    -- Given the client's address and the listed switches: the server picks a switch exactly if it is
    -- the only switch whose ZTP source address is the client's and every other source address is
    -- valid. So a second switch of that address, or one invalid address, fails the request.
    pub matching_switch_unique :
        (client : Addr) (switches : List Switch) (s : Switch)
        → (matching_switch parse_addr addr_eq show_addr (ok client) (ok switches) ≡ ok s)
          ↔ OneMatch client switches s
    unfolding matching_switch
    matching_switch_unique client switches s = (
      λ h. loop_sound client switches (ground arith),
      λ one. rw (
        one.split,
        loop_complete client one.before one.after s one.others_before one.source one.others_after,
      ),
    )
