-- ===== src/Sonic/Port/Writes.antt =====
-- What the writes of a port do: an input that they refuse reaches no database, and a write that
-- succeeds changes one field of CONFIG_DB.
use sonic_operator.Base.{
  ◌≡◌, ◌≢◌, Exec, Error, is_empty, ◌⊎◌, inl, inr, Text, codes, has_prefix, true, false, some, [],
  ◌∷◌, arith, ok, text_eq_iff, Result-cases, ◌∙◌,
}
use sonic_operator.Base.Int.{ℤ, pos, ltb_ℤ}
use sonic_operator.Strconv.{itoa, atoi_or}
use sonic_operator.Strconv.RoundTrip.{IsInt64, atoi_or-itoa}
use sonic_operator.Redis.{Redis, Laws}
use sonic_operator.Redis.Effects.{Changed, hset-Changed}
use sonic_operator.Sonic.Keys.{DbAccessor, validate_port_name}
use sonic_operator.Sonic.Port.{
  set_mtu, set_fec, set_speed, set_port_alias, port_key, get_port_speed, valid_fec,
}

-- A write of a port, with its value.
pub data Write : Type 0 where
  mtu_write speed_write : ℤ → Write
  fec_write alias_write : Text → Write

-- The call that makes it.
abbrev pub run_write :
    {W Client : Type 0} (redis : Redis W Client) (db : DbAccessor Client)
    → Text
    → Write
    → Exec W Error (Unit {0})
run_write redis db port_name (mtu_write mtu) = set_mtu redis db port_name mtu
run_write redis db port_name (speed_write speed) = set_speed redis db port_name speed
run_write redis db port_name (fec_write fec) = set_fec redis db port_name fec
run_write redis db port_name (alias_write alias) = set_port_alias redis db port_name alias

-- A value that may not be written.
abbrev pub IsBadValue : Write → Type 0
IsBadValue (mtu_write mtu) = (ltb_ℤ mtu (pos 68) ≡ true) ⊎ (ltb_ℤ (pos 9216) mtu ≡ true)
IsBadValue (speed_write speed) = ltb_ℤ (pos 0) speed ≡ false
IsBadValue (fec_write fec) = (fec ≢ codes "rs") × ((fec ≢ codes "fc") × (fec ≢ codes "none"))
IsBadValue (alias_write alias) = alias ≡ []

abbrev pub IsBad : Text → Write → Type 0
IsBad port_name write = (has_prefix port_name (codes "Ethernet") ≡ false) ⊎ IsBadValue write

module _ {W Client : Type 0} {redis : Redis W Client} (laws : Laws redis)
    (db : DbAccessor Client) where
  -- A successful SetMTU was given a port name with the prefix Ethernet and an MTU from 68 to 9216,
  -- and the field mtu of the port, alone of all that the databases hold, is now its decimal print.
  pub set_mtu_sound :
      (port_name : Text) (mtu : ℤ) (w : W)
      → (set_mtu redis db port_name mtu w).0 ≡ ok tt
      → (has_prefix port_name (codes "Ethernet") ≡ true)
        × (ltb_ℤ mtu (pos 68) ≡ false)
        × (ltb_ℤ (pos 9216) mtu ≡ false)
        × Changed laws w
            (set_mtu redis db port_name mtu w).1
            (laws.database db.config_db)
            (port_key port_name)
            (codes "mtu")
            (some (itoa mtu))
  unfolding set_mtu validate_port_name
  set_mtu_sound port_name mtu w h =
      let reached : (redis.hset db.config_db (port_key port_name) ((codes "mtu", itoa mtu) ∷ [])
            w).0
          ≡ ok tt =
        ground arith in
      let world : (set_mtu redis db port_name mtu w).1
          ≡ (redis.hset db.config_db (port_key port_name) ((codes "mtu", itoa mtu) ∷ []) w).1 =
        ground arith in
      (
        ground arith,
        ground arith,
        ground arith,
        rw world (
            hset-Changed laws db.config_db (port_key port_name) (codes "mtu") (itoa mtu) w reached),
      )

  -- A successful SetFEC was given one of the three codes, and changes the field fec alone.
  pub set_fec_sound :
      (port_name fec : Text) (w : W)
      → (set_fec redis db port_name fec w).0 ≡ ok tt
      → (has_prefix port_name (codes "Ethernet") ≡ true)
        × ((fec ≡ codes "rs") ⊎ ((fec ≡ codes "fc") ⊎ (fec ≡ codes "none")))
        × Changed laws w
            (set_fec redis db port_name fec w).1
            (laws.database db.config_db)
            (port_key port_name)
            (codes "fec")
            (some fec)
  unfolding set_fec validate_port_name
  set_fec_sound port_name fec w h =
      let reached : (redis.hset db.config_db (port_key port_name) ((codes "fec", fec) ∷ []) w).0
          ≡ ok tt =
        ground arith in
      let world : (set_fec redis db port_name fec w).1
          ≡ (redis.hset db.config_db (port_key port_name) ((codes "fec", fec) ∷ []) w).1 =
        ground arith in
      (
        ground arith,
        ground (
          arith,
          text_eq_iff fec (codes "rs"),
          text_eq_iff fec (codes "fc"),
          text_eq_iff fec (codes "none"),
        ),
        rw world (hset-Changed laws db.config_db (port_key port_name) (codes "fec") fec w reached),
      )

  -- A write of a port name, and a value that is bad for it, is an error, and leaves the world as it
  -- was: no command is sent. Bad are names without the prefix Ethernet, an MTU below 68 or above
  -- 9216, an FEC that is none of rs, fc and none, a speed that is not positive and an empty alias.
  pub refused_writes :
      (port_name : Text) (write : Write) (w : W)
      → IsBad port_name write
      → (¬ (run_write redis db port_name write w).0 ≡ ok tt)
        × ((run_write redis db port_name write w).1 ≡ w)
  unfolding set_mtu set_fec set_speed set_port_alias validate_port_name valid_fec is_empty
  refused_writes port_name (mtu_write mtu) w h = (λ e. ground (arith, h, e), ground (arith, h))
  refused_writes port_name (fec_write fec) w h = (
    λ e. ground (
      arith,
      h,
      e,
      text_eq_iff fec (codes "rs"),
      text_eq_iff fec (codes "fc"),
      text_eq_iff fec (codes "none"),
    ),
    ground (
      arith,
      h,
      text_eq_iff fec (codes "rs"),
      text_eq_iff fec (codes "fc"),
      text_eq_iff fec (codes "none"),
    ),
  )
  refused_writes port_name (speed_write speed) w h = (λ e. ground (arith, h, e), ground (arith, h))
  refused_writes port_name (alias_write []) w h = (λ e. ground (arith, h, e), ground (arith, h))
  refused_writes port_name (alias_write (c ∷ alias)) w h =
      (λ e. ground (arith, h, e), ground (arith, h))

  speed_written :
      (port_name : Text) (speed : ℤ) (w : W)
      → (set_speed redis db port_name speed w).0 ≡ ok tt
      → Changed laws w
          (set_speed redis db port_name speed w).1
          (laws.database db.config_db)
          (port_key port_name)
          (codes "speed")
          (some (itoa speed))
  unfolding set_speed validate_port_name
  speed_written port_name speed w h =
      let reached : (redis.hset db.config_db (port_key port_name) ((codes "speed", itoa speed) ∷ [])
            w).0
          ≡ ok tt =
        ground arith in
      let world : (set_speed redis db port_name speed w).1
          ≡ (redis.hset db.config_db (port_key port_name) ((codes "speed", itoa speed) ∷ []) w).1 =
        ground arith in
      rw world
        (hset-Changed laws db.config_db (port_key port_name) (codes "speed") (itoa speed) w reached)

  speed_read :
      (port_name : Text) (w : W) (raw : Text) {speed : ℤ}
      → laws.cell w (laws.database db.config_db) (port_key port_name) (codes "speed") ≡ some raw
      → (get_port_speed redis db port_name w).0 ≡ ok speed
      → speed ≡ atoi_or raw
  unfolding get_port_speed
  speed_read port_name w raw h e =
      elim (Result-cases (redis.hget db.config_db (port_key port_name) (codes "speed") w).0) [
        | inl (x, p) ↦ absurd (ground arith)
        | inr (v, p) ↦
            let seen : v ≡ some raw =
              laws.hget_reply db.config_db (port_key port_name) (codes "speed") w p ∙ h in
            ground arith
      ]

  -- A speed, an int of 64 bits, that SetSpeed has written is the one that GetPortSpeed reads back
  -- from the port, if both succeed; such a speed is positive.
  pub get_port_speed-set_speed :
      (port_name : Text) (speed : ℤ) (w : W) {seen : ℤ}
      → IsInt64 speed
      → (set_speed redis db port_name speed w).0 ≡ ok tt
      → (get_port_speed redis db port_name (set_speed redis db port_name speed w).1).0 ≡ ok seen
      → (seen ≡ speed) × (ltb_ℤ (pos 0) speed ≡ true)
  get_port_speed-set_speed port_name speed w fits h e =
      let wrote = speed_written port_name speed w h in
      (
        speed_read port_name _ (itoa speed) wrote.now e ∙ atoi_or-itoa speed fits,
        unfold set_speed validate_port_name in (ground arith),
      )
