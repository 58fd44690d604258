-- ===== src/Sonic/Vlan/Sync.antt =====
-- SyncPortVLANs removes the memberships that are not desired.
use mathlib.Core.List.{append_cancel_right}
use sonic_operator.Base.{
  ℕ, ◌≡◌, ◌≢◌, ◌⊎◌, inl, inr, refl, ◌∙◌, Text, codes, text_eq, text_eq_iff, text_eq_refl, true,
  false, Option, none, some, List, [], ◌∷◌, ◌++◌, append_cancel_left, Error, Result, ok,
  Result-cases, Bool-cases, Option-cases, arith, Fields, lookup,
}
use sonic_operator.Redis.{Redis, Laws}
use sonic_operator.Sonic.Keys.{DbAccessor, validate_port_name, validate_vlan_name}
use sonic_operator.Sonic.Interface.Sync.{mem}
use sonic_operator.Sonic.Vlan.{
  member_key, is_tagging_mode, check_desired, ensure_vlan_member, remove_vlan_member,
  list_port_vlans, remove_others, ensure_desired, sync_port_vlans,
}

member_key_injective : (port p q : Text) → member_key p port ≡ member_key q port → p ≡ q
unfolding member_key
member_key_injective port p q h =
    append_cancel_right p q (codes "|" ++ port) (append_cancel_left (codes "VLAN_MEMBER|") _ _ h)

module _ {W Client : Type 0} {redis : Redis W Client} (laws : Laws redis) (db : DbAccessor Client)
    (port : Text) where
  -- A field of a membership of the port.
  abbrev at : Text → Text → W → Option Text
  at p f w = laws.cell w (laws.database db.config_db) (member_key p port) f

  other_key : (p q : Text) → text_eq q p ≡ false → member_key q port ≢ member_key p port
  other_key p q h e = ground (arith, member_key_injective port q p e, text_eq_iff q p)

  abbrev written : Text → Text → W → Result Error (Unit {0}) × W
  written q mode = redis.hset db.config_db (member_key q port) ((codes "tagging_mode", mode) ∷ [])

  member_removed :
      (q : Text) (w : W)
      → (remove_vlan_member redis db q port w).0 ≡ ok tt
      → ((redis.del db.config_db (member_key q port) w).0 ≡ ok tt)
        × ((remove_vlan_member redis db q port w).1
            ≡ (redis.del db.config_db (member_key q port) w).1)
  unfolding remove_vlan_member
  member_removed q w h = elim (Result-cases (validate_vlan_name q)) [
    | inl (x, e) ↦ absurd (ground arith)
    | inr (u, e) ↦ elim (Result-cases (validate_port_name port)) [
      | inl (x, f) ↦ absurd (ground arith)
      | inr (v, f) ↦ elim (Result-cases (redis.del db.config_db (member_key q port) w).0) [
        | inl (x, g) ↦ absurd (ground arith)
        | inr (o, g) ↦ (g, ground arith)
      ]
    ]
  ]

  member_written :
      (q mode : Text) (w : W)
      → (ensure_vlan_member redis db q port mode w).0 ≡ ok tt
      → ((written q mode w).0 ≡ ok tt)
        × ((ensure_vlan_member redis db q port mode w).1 ≡ (written q mode w).1)
  unfolding ensure_vlan_member
  member_written q mode w h = elim (Result-cases (validate_vlan_name q)) [
    | inl (x, e) ↦ absurd (ground arith)
    | inr (u, e) ↦ elim (Result-cases (validate_port_name port)) [
      | inl (x, f) ↦ absurd (ground arith)
      | inr (v, f) ↦ elim (Bool-cases (is_tagging_mode mode)) [
        | inr g ↦ absurd (ground arith)
        | inl g ↦ elim (Result-cases (written q mode w).0) [
          | inl (x, i) ↦ absurd (ground arith)
          | inr (o, i) ↦ (i, ground arith)
        ]
      ]
    ]
  ]

  others : Fields → List Text → W → Result Error (Unit {0}) × W
  others desired vlans = remove_others redis db port desired vlans

  skip_step :
      (desired : Fields) (q : Text) (qs : List Text) (w : W) {mode : Text}
      → lookup q desired ≡ some mode
      → others desired (q ∷ qs) w ≡ others desired qs w
  unfolding others remove_others
  skip_step desired q qs w e = ground (arith, e)

  drop_step :
      (desired : Fields) (q : Text) (qs : List Text) (w : W)
      → lookup q desired ≡ none
      → (others desired (q ∷ qs) w).0 ≡ ok tt
      → ((redis.del db.config_db (member_key q port) w).0 ≡ ok tt)
        × (others desired (q ∷ qs) w
            ≡ others desired qs (redis.del db.config_db (member_key q port) w).1)
  unfolding others remove_others
  drop_step desired q qs w e h = elim (Result-cases (remove_vlan_member redis db q port w).0) [
    | inl (x, f) ↦ absurd (ground arith)
    | inr (u, f) ↦ let (gone, world) = member_removed q w f in (gone, ground (arith, e, f, world))
  ]

  ensure_step :
      (q mode : Text) (rest : Fields) (w : W)
      → (ensure_desired redis db port ((q, mode) ∷ rest) w).0 ≡ ok tt
      → ((written q mode w).0 ≡ ok tt)
        × (ensure_desired redis db port ((q, mode) ∷ rest) w
            ≡ ensure_desired redis db port rest (written q mode w).1)
  unfolding ensure_desired
  ensure_step q mode rest w h = elim (Result-cases (ensure_vlan_member redis db q port mode w).0) [
    | inl (x, f) ↦ absurd (ground arith)
    | inr (u, f) ↦ let (set, world) = member_written q mode w f in (set, ground (arith, f, world))
  ]

  removed :
      (desired : Fields) (vlans : List Text) (w : W) (p f : Text)
      → (others desired vlans w).0 ≡ ok tt
      → lookup p desired ≡ none
      → (mem p vlans ≡ true) ⊎ (at p f w ≡ none)
      → at p f (others desired vlans w).1 ≡ none
  unfolding mem
  removed desired [] w p f h n (inl e) = absurd (ground arith)
  removed desired [] w p f h n (inr e) = unfold others remove_others in e
  removed desired (q ∷ qs) w p f h n c = elim (Option-cases (lookup q desired)) [
    | inr (mode, e) ↦
        let step = skip_step desired q qs w e in
        rw step (
          removed desired qs w p f (rw step at h) n
            (elim c [ inl m ↦ inl (ground (arith, text_eq_iff q p)) | inr x ↦ inr x ]))
    | inl e ↦
        let (gone, step) = drop_step desired q qs w e h in
        rw step (
          removed desired qs (redis.del db.config_db (member_key q port) w).1 p f (rw step at h) n
            (elim (Bool-cases (text_eq q p)) [
              | inl i ↦ inr (
                  ground
                    (arith, laws.del_ok db.config_db (member_key q port) w f gone, text_eq_iff q p))
              | inr i ↦ elim c [
                | inl m ↦ inl (ground arith)
                | inr x ↦ inr (
                    laws.del_other db.config_db (member_key q port) w (laws.database db.config_db)
                      (member_key p port) f (inr (other_key p q i))
                    ∙ x)
              ]
            ]))
  ]

  untouched :
      (fields : Fields) (w : W) (p f : Text)
      → (ensure_desired redis db port fields w).0 ≡ ok tt
      → lookup p fields ≡ none
      → at p f (ensure_desired redis db port fields w).1 ≡ at p f w
  unfolding lookup
  untouched [] w p f h n = unfold ensure_desired in refl
  untouched ((q, mode) ∷ rest) w p f h n =
      let (set, step) = ensure_step q mode rest w h in
      rw step (
        untouched rest (written q mode w).1 p f (rw step at h) (ground arith)
        ∙ laws.hset_other db.config_db (member_key q port) ((codes "tagging_mode", mode) ∷ []) w
            (laws.database db.config_db) (member_key p port) f (inr (other_key p q (ground arith))))

  -- As in a Go map no name has two entries.
  abbrev pub OneEach : Fields → Type 0
  OneEach [] = Unit
  OneEach ((q, mode) ∷ rest) = (lookup q rest ≡ none) × OneEach rest

  abbrev pub mode_field : Text
  mode_field = codes "tagging_mode"

  added :
      (fields : Fields) (w : W) (p mode : Text)
      → (ensure_desired redis db port fields w).0 ≡ ok tt
      → OneEach fields
      → lookup p fields ≡ some mode
      → at p mode_field (ensure_desired redis db port fields w).1 ≡ some mode
  unfolding lookup
  added [] w p mode h o e = absurd (ground arith)
  added ((q, m) ∷ rest) w p mode h o e =
      let (set, step) = ensure_step q m rest w h in
      rw step (elim (Bool-cases (text_eq q p)) [
        | inr i ↦ added rest (written q m w).1 p mode (rw step at h) o.1 (ground arith)
        | inl i ↦
            let here : q ≡ p = (text_eq_iff q p).0 i in
            untouched rest (written q m w).1 p mode_field (rw step at h) (rw here at o.0)
            ∙ ground (
              arith,
              laws.hset_ok db.config_db (member_key q port) ((mode_field, m) ∷ []) w mode_field set,
              here,
              e,
              text_eq_refl mode_field,
            )
      ])

  module _ (fuel : ℕ) (desired visited : Fields) (w : W) {current : List Text}
      (seen : (list_port_vlans redis db fuel port w).0 ≡ ok current)
      (h : (sync_port_vlans redis db fuel port desired visited w).0 ≡ ok tt) where
    abbrev pruned : Result Error (Unit {0}) × W
    pruned = others desired current (list_port_vlans redis db fuel port w).1

    abbrev filled : Result Error (Unit {0}) × W
    filled = ensure_desired redis db port visited pruned.1

    sync_steps :
        (pruned.0 ≡ ok tt)
        × (filled.0 ≡ ok tt)
        × (sync_port_vlans redis db fuel port desired visited w ≡ filled)
    unfolding sync_port_vlans others
    sync_steps = elim (Result-cases (validate_port_name port)) [
      | inl (x, e) ↦ absurd (ground arith)
      | inr (u, e) ↦ elim (Result-cases (check_desired port desired)) [
        | inl (x, f) ↦ absurd (ground arith)
        | inr (v, f) ↦ elim (Result-cases pruned.0) [
          | inl (x, g) ↦ absurd (ground (arith, h, seen, e, f, g))
          | inr (o, g) ↦
              let same : sync_port_vlans redis db fuel port desired visited w ≡ filled =
                ground (arith, seen, e, f, g) in
              (g, rw same at h, same)
        ]
      ]
    ]

    -- Take a server that nobody else writes to, and a map that the third loop visits in an order of
    -- its own: after a successful SyncPortVLANs a VLAN that was listed for the port and is not
    -- desired has no field of a membership of the port in CONFIG_DB.
    pub sync_port_vlans_removes :
        (p f : Text)
        → mem p current ≡ true
        → lookup p desired ≡ none
        → lookup p visited ≡ none
        → at p f (sync_port_vlans redis db fuel port desired visited w).1 ≡ none
    sync_port_vlans_removes p f m n k =
        let (pruned_ok, filled_ok, same) = sync_steps in
        rw same (
          untouched visited pruned.1 p f filled_ok k
          ∙ removed desired current (list_port_vlans redis db fuel port w).1 p f pruned_ok n
              (inl m))

    -- Take a server that nobody else writes to, and a map with one entry for each name: after a
    -- successful SyncPortVLANs each VLAN that the third loop visits has the desired tagging mode for
    -- its membership of the port in CONFIG_DB.
    pub sync_port_vlans_adds :
        (p mode : Text)
        → OneEach visited
        → lookup p visited ≡ some mode
        → at p mode_field (sync_port_vlans redis db fuel port desired visited w).1 ≡ some mode
    sync_port_vlans_adds p mode o e =
        let (pruned_ok, filled_ok, same) = sync_steps in
        rw same (added visited pruned.1 p mode filled_ok o e)
