-- ===== src/Agent/Pool/Safe.antt =====
-- Connect keeps what the host's calls keep.
use sonic_operator.Base.{
  ℕ, ◌≡◌, refl, Text, Option, none, some, arith, Error, Result, ok, err, Exec, attempt, ◌>>=◌,
  lookup,
}
use sonic_operator.Base.Hoare.{Ends-return, Ends-fail, Ends-bind}
use sonic_operator.Redis.{Redis}
use sonic_operator.Agent.Host.{Host, State, on_world}
use sonic_operator.Agent.Quiet.{Quiet, Safe, Holds, Safe-keep, Safe-at}
use sonic_operator.Agent.Pool.{
  connect, cached, recheck, create, connect_locked, redis_db_id, ping_client, drop_dead,
  create_with, admit, or_create, or_lock, new_client,
}

module _ {W Client : Type 0} (redis : Redis W Client) (host : Host W Client) (I : W → Type 0)
    (quiet : Quiet redis host I) where
  ping-Safe : (c : Client) → Safe I (ping_client host c)
  ping-Safe c =
      Safe-keep I _ (λ s p. unfold ping_client in (ground (arith, quiet.ping_keeps c s.world p)))

  cached_world :
      (name : Text) (s : State W Client) (o : Option Client)
      → lookup name s.client_pool ≡ o
      → I s.world
      → I (cached host name s).1.world
  unfolding cached
  cached_world name s none e p = rw (e, cached) p
  cached_world name s (some c) e p = rw (e, cached) (Safe-at I _ s (ping-Safe c) p)

  cached-Safe : (name : Text) → Safe I (cached host name)
  cached-Safe name = Safe-keep I _ (λ s. cached_world name s (lookup name s.client_pool) refl)

  drop_dead-Safe : (name : Text) (c : Client) (o : Option Client) → Safe I (drop_dead host name c o)
  unfolding drop_dead
  drop_dead-Safe name c (some d) = Ends-return _ (λ s p. p)
  drop_dead-Safe name c none = Safe-keep I _ (λ s p. ground (arith, quiet.close_keeps c s.world p))

  answer-Safe : (name : Text) (c : Client) → Safe I (ping_client host c >>= drop_dead host name c)
  answer-Safe name c =
      Ends-bind (λ a. Holds I) (ping_client host c) (drop_dead host name c) (ping-Safe c)
        (drop_dead-Safe name c)

  recheck_world :
      (name : Text) (s : State W Client) (o : Option Client)
      → lookup name s.client_pool ≡ o
      → I s.world
      → I (recheck host name s).1.world
  unfolding recheck
  recheck_world name s none e p = rw (e, recheck) p
  recheck_world name s (some c) e p = rw (e, recheck) (Safe-at I _ s (answer-Safe name c) p)

  recheck-Safe : (name : Text) → Safe I (recheck host name)
  recheck-Safe name = Safe-keep I _ (λ s. recheck_world name s (lookup name s.client_pool) refl)

  admit-Safe :
      (name : Text) (c : Client) (r : Result Error (Unit {0})) → Safe I (admit host name c r)
  unfolding admit
  admit-Safe name c (ok u) = Safe-keep I _ (λ s p. p)
  admit-Safe name c (err e) = Safe-keep I _ (λ s p. ground (arith, quiet.close_keeps c s.world p))

  new_client-Safe : (id : ℕ) → Safe I (new_client host id)
  unfolding new_client
  new_client-Safe id = Safe-keep I _ (λ s p. quiet.new_client_keeps s.redis_addr id s.world p)

  create_with-Safe : (name : Text) (o : Option ℕ) → Safe I (create_with host name o)
  unfolding create_with
  create_with-Safe name none = Ends-fail _ (λ s p. p)
  create_with-Safe name (some id) =
      Ends-bind (λ a. Holds I) _ _ (new_client-Safe id)
        (λ c.
          let pinged : Exec (State W Client) Error (Result Error (Unit {0})) =
            attempt (on_world (host.ping c)) in
          Ends-bind (λ a. Holds I) pinged _
            (Safe-keep I pinged (λ s p. quiet.ping_keeps c s.world p)) (admit-Safe name c))

  or_create-Safe : (name : Text) (o : Option Client) → Safe I (or_create host name o)
  unfolding or_create create
  or_create-Safe name (some c) = Ends-return _ (λ s p. p)
  or_create-Safe name none = create_with-Safe name (redis_db_id name)

  connect_locked-Safe : (name : Text) → Safe I (connect_locked host name)
  unfolding connect_locked
  connect_locked-Safe name = Ends-bind (λ a. Holds I) _ _ (recheck-Safe name) (or_create-Safe name)

  or_lock-Safe : (name : Text) (o : Option Client) → Safe I (or_lock host name o)
  unfolding or_lock
  or_lock-Safe name (some c) = Ends-return _ (λ s p. p)
  or_lock-Safe name none = connect_locked-Safe name

  -- What every call of the host keeps, Connect keeps, on each of its branches.
  pub connect-Safe : (name : Text) → Safe I (connect host name)
  unfolding connect
  connect-Safe name = Ends-bind (λ a. Holds I) _ _ (cached-Safe name) (or_lock-Safe name)
