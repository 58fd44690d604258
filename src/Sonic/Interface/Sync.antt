-- ===== src/Sonic/Interface/Sync.antt =====
-- SyncIPAddresses removes the addresses that are not desired and adds the ones that are missing.
use sonic_operator.Base.{
  ℕ, ◌≡◌, ◌≢◌, ◌⊎◌, inl, inr, refl, ◌∙◌, Text, codes, text_eq, text_eq_iff, text_eq_refl, Bool,
  true, false, ◌&&◌, not, Option, none, some, List, [], ◌∷◌, append_cancel_left, Error, Result, ok,
  Result-cases, Bool-cases, arith, Dict, lookup, insert, lookup-insert, if◌then◌else◌,
}
use sonic_operator.Redis.{Redis, Laws}
use sonic_operator.Sonic.Keys.{DbAccessor}
use sonic_operator.Sonic.Interface.{
  ip_table, address_prefix, address_key, to_set, is_missing, keep_missing, difference, add_loop,
  add_ip_addresses, remove_loop, remove_ip_addresses, list_ip_addresses, when_any,
  sync_ip_addresses,
}

-- Whether the text is in the list.
unfoldable pub mem : Text → List Text → Bool
mem p [] = false
mem p (q ∷ qs) = let rest = mem p qs in if text_eq q p then true else rest

to_set-mem :
    (p : Text) (qs : List Text) (set : Dict (Unit {0}))
    → is_missing (to_set qs set) p ≡ (if mem p qs then false else is_missing set p)
unfolding to_set is_missing mem
to_set-mem p [] set = refl
to_set-mem p (q ∷ qs) set =
    ground (arith, to_set-mem p qs (insert q tt set), lookup-insert q p tt set)

keep_missing-mem :
    (p : Text) (set : Dict (Unit {0})) (ps : List Text)
    → mem p (keep_missing set ps) ≡ (mem p ps && is_missing set p)
unfolding keep_missing mem
keep_missing-mem p set [] = refl
keep_missing-mem p set (q ∷ qs) = ground (arith, keep_missing-mem p set qs, text_eq_iff q p)

difference-mem :
    (p : Text) (ps qs : List Text) → mem p (difference ps qs) ≡ (mem p ps && not (mem p qs))
unfolding difference is_missing lookup
difference-mem p ps qs = ground (arith, keep_missing-mem p (to_set qs []) ps, to_set-mem p qs [])

key_injective :
    (table name p q : Text) → address_key table name p ≡ address_key table name q → p ≡ q
unfolding address_key
key_injective table name p q h = append_cancel_left (address_prefix table name) p q h

module _ {W Client : Type 0} {redis : Redis W Client} (laws : Laws redis) (db : DbAccessor Client)
    {Prefix : Type 0} (parse_prefix : Text → Result Error Prefix) (table name : Text) where
  abbrev key : Text → Text
  key p = address_key table name p

  -- A field of the hash of an address.
  abbrev at : Text → Text → W → Option Text
  at p f w = laws.cell w (laws.database db.config_db) (key p) f

  abbrev null : Text
  null = codes "NULL"

  other_key : (p q : Text) → text_eq q p ≡ false → key q ≢ key p
  other_key p q h e = ground (arith, key_injective table name q p e, text_eq_iff q p)

  remove_step :
      (q : Text) (qs : List Text) (w : W)
      → (remove_loop redis db parse_prefix table name (q ∷ qs) w).0 ≡ ok tt
      → ((redis.del db.config_db (key q) w).0 ≡ ok tt)
        × (remove_loop redis db parse_prefix table name (q ∷ qs) w
            ≡ remove_loop redis db parse_prefix table name qs (redis.del db.config_db (key q) w).1)
  unfolding remove_loop
  remove_step q qs w h = elim (Result-cases (parse_prefix q)) [
    | inl (x, e) ↦ absurd (ground arith)
    | inr (parsed, e) ↦ elim (Result-cases (redis.del db.config_db (key q) w).0) [
      | inl (x, f) ↦ absurd (ground arith)
      | inr (u, f) ↦ (f, ground arith)
    ]
  ]

  add_step :
      (q : Text) (qs : List Text) (w : W)
      → (add_loop redis db parse_prefix table name (q ∷ qs) w).0 ≡ ok tt
      → ((redis.hset db.config_db (key q) ((null, null) ∷ []) w).0 ≡ ok tt)
        × (add_loop redis db parse_prefix table name (q ∷ qs) w
            ≡ add_loop redis db parse_prefix table name qs
                (redis.hset db.config_db (key q) ((null, null) ∷ []) w).1)
  unfolding add_loop
  add_step q qs w h = elim (Result-cases (parse_prefix q)) [
    | inl (x, e) ↦ absurd (ground arith)
    | inr (parsed, e) ↦
        elim (Result-cases (redis.hset db.config_db (key q) ((null, null) ∷ []) w).0) [
          | inl (x, f) ↦ absurd (ground arith)
          | inr (u, f) ↦ (f, ground arith)
        ]
  ]

  removed :
      (ps : List Text) (w : W) (p f : Text)
      → (remove_loop redis db parse_prefix table name ps w).0 ≡ ok tt
      → (mem p ps ≡ true) ⊎ (at p f w ≡ none)
      → at p f (remove_loop redis db parse_prefix table name ps w).1 ≡ none
  unfolding mem
  removed [] w p f h (inl e) = absurd (ground arith)
  removed [] w p f h (inr e) = unfold remove_loop in e
  removed (q ∷ qs) w p f h c =
      let (gone, step) = remove_step q qs w h in
      rw step (
        removed qs (redis.del db.config_db (key q) w).1 p f (rw step at h)
          (elim (Bool-cases (text_eq q p)) [
            | inl e ↦
                inr (ground (arith, laws.del_ok db.config_db (key q) w f gone, text_eq_iff q p))
            | inr e ↦ elim c [
              | inl m ↦ inl (ground arith)
              | inr n ↦ inr (
                  laws.del_other db.config_db (key q) w (laws.database db.config_db) (key p) f
                    (inr (other_key p q e))
                  ∙ n)
            ]
          ]))

  added :
      (ps : List Text) (w : W) (p : Text)
      → (add_loop redis db parse_prefix table name ps w).0 ≡ ok tt
      → (mem p ps ≡ true) ⊎ (at p null w ≡ some null)
      → at p null (add_loop redis db parse_prefix table name ps w).1 ≡ some null
  unfolding mem
  added [] w p h (inl e) = absurd (ground arith)
  added [] w p h (inr e) = unfold add_loop in e
  added (q ∷ qs) w p h c =
      let (set, step) = add_step q qs w h in
      rw step (
        added qs (redis.hset db.config_db (key q) ((null, null) ∷ []) w).1 p (rw step at h)
          (elim (Bool-cases (text_eq q p)) [
            | inl e ↦ inr (
                ground (
                  arith,
                  laws.hset_ok db.config_db (key q) ((null, null) ∷ []) w null set,
                  text_eq_iff q p,
                  text_eq_refl null,
                ))
            | inr e ↦ elim c [
              | inl m ↦ inl (ground arith)
              | inr n ↦ inr (
                  laws.hset_other db.config_db (key q) ((null, null) ∷ []) w
                    (laws.database db.config_db) (key p) null (inr (other_key p q e))
                  ∙ n)
            ]
          ]))

  untouched :
      (ps : List Text) (w : W) (p f : Text)
      → (add_loop redis db parse_prefix table name ps w).0 ≡ ok tt
      → mem p ps ≡ false
      → at p f (add_loop redis db parse_prefix table name ps w).1 ≡ at p f w
  unfolding mem
  untouched [] w p f h m = unfold add_loop in refl
  untouched (q ∷ qs) w p f h m =
      let (set, step) = add_step q qs w h in
      rw step (
        untouched qs (redis.hset db.config_db (key q) ((null, null) ∷ []) w).1 p f (rw step at h)
          (ground arith)
        ∙ laws.hset_other db.config_db (key q) ((null, null) ∷ []) w (laws.database db.config_db)
            (key p) f (inr (other_key p q (ground arith))))

  module _ (known : ip_table name ≡ ok table) where
    remove_any :
        (ps : List Text) (w : W)
        → when_any redis db parse_prefix ps (remove_ip_addresses redis db parse_prefix name ps) w
          ≡ remove_loop redis db parse_prefix table name ps w
    unfolding when_any remove_ip_addresses remove_loop
    remove_any [] w = refl
    remove_any (p ∷ ps) w = rw known

    add_any :
        (ps : List Text) (w : W)
        → when_any redis db parse_prefix ps (add_ip_addresses redis db parse_prefix name ps) w
          ≡ add_loop redis db parse_prefix table name ps w
    unfolding when_any add_ip_addresses add_loop
    add_any [] w = refl
    add_any (p ∷ ps) w = rw known

    module _ (fuel : ℕ) (desired : List Text) (w : W) {current : List Text}
        (seen : (list_ip_addresses redis db fuel name w).0 ≡ ok current) where
      abbrev listed : W
      listed = (list_ip_addresses redis db fuel name w).1

      abbrev pruned : Result Error (Unit {0}) × W
      pruned = remove_loop redis db parse_prefix table name (difference current desired) listed

      abbrev filled : Result Error (Unit {0}) × W
      filled = add_loop redis db parse_prefix table name (difference desired current) pruned.1

      sync_steps :
          (sync_ip_addresses redis db parse_prefix fuel name desired w).0 ≡ ok tt
          → (pruned.0 ≡ ok tt)
            × (filled.0 ≡ ok tt)
            × (sync_ip_addresses redis db parse_prefix fuel name desired w ≡ filled)
      unfolding sync_ip_addresses
      sync_steps h = elim (Result-cases pruned.0) [
        | inl (x, e) ↦
            absurd (ground (arith, h, seen, e, remove_any (difference current desired) listed))
        | inr (u, e) ↦
            let same : sync_ip_addresses redis db parse_prefix fuel name desired w ≡ filled =
              ground (
                arith,
                seen,
                e,
                remove_any (difference current desired) listed,
                add_any (difference desired current) pruned.1,
              ) in
            (e, rw same at h, same)
      ]

      module _ (h : (sync_ip_addresses redis db parse_prefix fuel name desired w).0 ≡ ok tt) where
        -- Take a server that nobody else writes to: after a successful SyncIPAddresses no address that
        -- was listed and is not desired has a field in CONFIG_DB.
        pub sync_ip_addresses_removes :
            (p f : Text)
            → (mem p current && not (mem p desired)) ≡ true
            → at p f (sync_ip_addresses redis db parse_prefix fuel name desired w).1 ≡ none
        sync_ip_addresses_removes p f m =
            let (pruned_ok, filled_ok, same) = sync_steps h in
            rw same (
              untouched (difference desired current) pruned.1 p f filled_ok
                (ground (arith, difference-mem p desired current))
              ∙ removed (difference current desired) listed p f pruned_ok
                  (inl (difference-mem p current desired ∙ m)))

        -- Take a server that nobody else writes to: after a successful SyncIPAddresses each desired
        -- address that was not listed has the field NULL with the value NULL in CONFIG_DB.
        pub sync_ip_addresses_adds :
            (p : Text)
            → (mem p desired && not (mem p current)) ≡ true
            → at p null (sync_ip_addresses redis db parse_prefix fuel name desired w).1 ≡ some null
        sync_ip_addresses_adds p m =
            let (pruned_ok, filled_ok, same) = sync_steps h in
            rw same (
              added (difference desired current) pruned.1 p filled_ok
                (inl (difference-mem p desired current ∙ m)))
