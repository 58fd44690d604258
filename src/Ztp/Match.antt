-- ===== src/Ztp/Match.antt =====
-- internal/ztp/ztp.go: the switch whose ZTP source address is the client's.
pub mod Unique
use sonic_operator.Base.{
  Text, String, Bool, true, false, not, Option, none, some, List, [], ◌∷◌, Error, errorf, wrapf,
  Arg, str, Result, ok, err, if◌then◌else◌,
}
use sonic_operator.Api.{Switch}

-- netip.ParseAddr and the comparison of addresses are parameters, and so is the print of one.
module _ {Addr : Type 0} (parse_addr : Text → Result Error Addr) (addr_eq : Addr → Addr → Bool)
    (show_addr : Addr → Text) where
  -- Whether the switch has the client for its ZTP source.
  unfoldable pub source_matches : Addr → Switch → Result Error Bool
  source_matches client s = elim s.spec.ztp [
    | none ↦ ok false
    | some z ↦ elim (parse_addr z.source_address) [
      | err e ↦ err (
          wrapf "switch %q has invalid ZTP source address %q: %w"
            (str s.name ∷ str z.source_address ∷ []) e)
      | ok configured ↦ ok (addr_eq configured client)
    ]
  ]

  -- The loop over the switches, with the match so far.
  unfoldable pub match_loop : Addr → List Switch → Option Switch → Result Error (Option Switch)
  match_loop client [] matched = ok matched
  match_loop client (s ∷ switches) matched =
      let skip = match_loop client switches matched in
      let take = match_loop client switches (some s) in
      elim (source_matches client s) [
        | err e ↦ err e
        | ok false ↦ skip
        | ok true ↦ elim matched [
          | some other ↦
              err
                (errorf "multiple switches use ZTP source address %q" (str (show_addr client) ∷ []))
          | none ↦ take
        ]
      ]

  require_match : Addr → Result Error (Option Switch) → Result Error Switch
  require_match client (err e) = err e
  require_match client (ok none) =
      err (errorf "no switch configured for ZTP source address %q" (str (show_addr client) ∷ []))
  require_match client (ok (some s)) = ok s

  -- `client` is what netip.ParseAddrPort finds in the request, and `listed` what the reader lists.
  unfoldable pub matching_switch :
      Result Error Addr → Result Error (List Switch) → Result Error Switch
  unfolding match_loop require_match
  matching_switch (err e) listed = err e
  matching_switch (ok client) (err e) = err (wrapf "listing switches for ZTP: %w" [] e)
  matching_switch (ok client) (ok switches) = require_match client (match_loop client switches none)
