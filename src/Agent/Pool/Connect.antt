-- ===== src/Agent/Pool/Connect.antt =====
-- What a call of Connect returns, taken as a whole.
use sonic_operator.Base.{
  ◌⊎◌, inl, inr, ℕ, ◌≡◌, Text, codes, text_eq, none, some, arith, ok, Result-cases,
}
use sonic_operator.Agent.Host.{Host, State}
use sonic_operator.Agent.Pool.{redis_db_id, connect, cached, connect_locked}
use sonic_operator.Agent.Pool.Invariant.{
  HostLaws, PoolIsValid, Serves, locked-PoolIsValid, cached_sound, cached_keeps,
}

module _ {W Client : Type 0} (host : Host W Client) (database : Client → ℕ)
    (laws : HostLaws host database) where
  connect_cases :
      (name : Text) (s : State W Client) {c : Client}
      → (connect host name s).0 ≡ ok c
      → ((cached host name s).0 ≡ ok (some c))
        ⊎ ((connect_locked host name (cached host name s).1).0 ≡ ok c)
  unfolding connect
  connect_cases name s h = elim (Result-cases (cached host name s).0) [
    | inl (x, e) ↦ absurd (ground arith)
    | inr (none, e) ↦ inr (ground arith)
    | inr (some d, e) ↦ inl (ground arith)
  ]

  -- A client that Connect returns is for the database of the name.
  pub connect-Serves :
      (name : Text) (s : State W Client) {c : Client}
      → PoolIsValid host database s.client_pool
      → (connect host name s).0 ≡ ok c
      → Serves host database name c
  connect-Serves name s {c} valid h = elim (connect_cases name s h) [
    | inl e ↦ cached_sound host database laws name s valid e
    | inr e ↦
        let (kept, pooled) =
          locked-PoolIsValid host database laws name (cached host name s).1
            (rw (cached_keeps host database laws name s) valid) in
        kept name c (pooled c e)
  ]

  pub connect_config :
      (s : State W Client) {c : Client}
      → PoolIsValid host database s.client_pool
      → (connect host (codes "CONFIG_DB") s).0 ≡ ok c
      → database c ≡ 4
  unfolding redis_db_id codes text_eq
  connect_config s valid h = ground (arith, connect-Serves (codes "CONFIG_DB") s valid h)
