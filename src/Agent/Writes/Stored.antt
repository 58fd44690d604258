-- ===== src/Agent/Writes/Stored.antt =====
-- What the writing operations share: a field of a port in CONFIG_DB that is set and that the calls
-- after it keep.
use sonic_operator.Base.{
  ℕ, ◌≡◌, ◌≢◌, Text, String, codes, ◌==◌, ==_iff, Option, some, [], ◌∷◌, arith, ok, or_fail,
  text_eq_iff,
}
use sonic_operator.Base.Hoare.{Ends, Ends-bind, Ends-or_fail, Ends-reject, lift-Post}
use sonic_operator.Redis.{Redis, Laws}
use sonic_operator.Types.{Interface}
use sonic_operator.Agent.Host.{Host, State, on_world}
use sonic_operator.Agent.Pool.{connect}
use sonic_operator.Agent.Pool.Invariant.{HostLaws, PoolIsValid}
use sonic_operator.Agent.Pool.Connect.{connect_config}
use sonic_operator.Agent.Quiet.{Quiet, Holds}
use sonic_operator.Agent.Reads.{resolve, port_key, open_db}
use sonic_operator.Agent.Writes.{port_exists, set_field, hset_failed, key_check_failed}
use sonic_operator.Agent.Writes.Guarded.{
  OtherError, bad_is_other, hset_failed_is_other, check_failed_is_other, Guarded,
}

module _ {W Client : Type 0} (redis : Redis W Client) (host : Host W Client)
    (laws : Laws redis) where
  -- No call of the host, and no read, changes what Redis holds.
  abbrev pub HostIsQuiet : Type 0
  HostIsQuiet =
      (d : ℕ) (k f : Text) (v : Option Text) → Quiet redis host (λ w. laws.cell w d k f ≡ v)

  -- The value of a field of a port in CONFIG_DB.
  abbrev pub Stored : String → Text → Text → W → Type 0
  Stored key name v w = laws.cell w 4 (port_key name) (codes key) ≡ some v

  module _ (quiet : HostIsQuiet) (key : String) (name v : Text) where
    pub at_stored : Quiet redis host (Stored key name v)
    at_stored = quiet 4 (port_key name) (codes key) (some v)

    found :
        (c : Client) (w : W) (n : ℕ)
        → laws.database c ≡ 4
        → Stored key name v w
        → (redis.exists c (port_key name) w).0 ≡ ok n
        → n ≢ 0
    found c w n db p e z =
        absurd
          (ground (arith, laws.exists_zero c (port_key name) w (codes key) (rw (← z) e), p, db))

    -- A port that has a field exists.
    pub port_exists-Guarded :
        (c : Client) (shown : Text)
        → laws.database c ≡ 4
        → Guarded redis host (Stored key name v) at_stored (port_exists redis host c name shown)
    unfolding port_exists
    port_exists-Guarded c shown db =
        Ends-bind (λ n s. Stored key name v s.world × (n ≢ 0)) _ _
          (Ends-or_fail _ (on_world (redis.exists c (port_key name))) (record {
            at = λ s p.
                lift-Post _ _ (redis.exists c (port_key name) s.world).0 _
                  (λ n e.
                    (at_stored.exists_keeps c (port_key name) s.world p, found c s.world n db p e))
                  (λ e x. check_failed_is_other "failed to verify interface existence: %v" e);
          }))
          (λ n. Ends-reject (n == 0) _ (λ s z p. ground (arith, p.1, ==_iff n 0)) (λ s z p. p.0))

    pub set_field-Stored :
        (c : Client) (format : String)
        → laws.database c ≡ 4
        → Ends
            (λ s. Unit {0})
            (or_fail (hset_failed format) (set_field redis host c name key v))
            (λ u. Holds (Stored key name v))
            OtherError
    unfolding set_field
    set_field-Stored c format db = Ends-or_fail _ _ (record {
      at = λ s p.
          lift-Post _ _ (redis.hset c (port_key name) ((codes key, v) ∷ []) s.world).0 _
            (λ u e. ground (
              arith,
              laws.hset_ok c (port_key name) ((codes key, v) ∷ []) s.world (codes key) e,
              db,
              text_eq_iff (codes key) (codes key),
            ))
            (λ e x. hset_failed_is_other format e);
    })

module _ {W Client : Type 0} (redis : Redis W Client) (host : Host W Client) (laws : Laws redis)
    (host_laws : HostLaws host laws.database) where
  abbrev pub Resolved : Option Interface → Interface × Text → State W Client → Type 0
  Resolved request p s = (resolve request ≡ ok p) × PoolIsValid host laws.database s.client_pool

  pub opened :
      (request : Option Interface) (p : Interface × Text)
      → Ends
          (Resolved request p)
          (open_db redis host "CONFIG_DB" "failed to connect to CONFIG_DB: %v")
          (λ c s. (resolve request ≡ ok p) × (laws.database c ≡ 4))
          OtherError
  unfolding open_db
  opened request p = Ends-or_fail _ _ (record {
    at = λ s q.
        lift-Post _ _ (connect host (codes "CONFIG_DB") s).0 _
          (λ c e. (q.0, connect_config host laws.database host_laws s q.1 e))
          (λ e x. bad_is_other "failed to connect to CONFIG_DB: %v" [] e);
  })

  pub current-Given :
      (format : String) (request : Option Interface) (p : Interface × Text) (c : Client)
      → Ends
          (λ s. (resolve request ≡ ok p) × (laws.database c ≡ 4))
          (or_fail
            (key_check_failed format)
            (on_world {Client = Client} (redis.hgetall c (port_key p.1))))
          (λ fs s. (resolve request ≡ ok p) × (laws.database c ≡ 4))
          OtherError
  current-Given format request p c = Ends-or_fail _ _ (record {
    at = λ s q.
        lift-Post _ _ (redis.hgetall c (port_key p.1) s.world).0 _ (λ fs e. q)
          (λ e x. check_failed_is_other format e);
  })
