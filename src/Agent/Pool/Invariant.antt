-- ===== src/Agent/Pool/Invariant.antt =====
-- The pool of Redis clients: every client in it is for the database of its name, whatever the calls
-- of Connect that interleave, and Connect hands out no other client.
use sonic_operator.Base.{
  ℕ, ◌≡◌, ◌≢◌, ◌⊎◌, inl, inr, Text, text_eq_iff, none, some, [], arith, ok, Dict, lookup, insert,
  delete, lookup-insert, lookup-insert_self, lookup-delete, Option-cases, Result-cases,
}
use sonic_operator.Agent.Host.{Host, State}
use sonic_operator.Agent.Pool.{redis_db_id, cached, recheck, create, connect_locked}

-- A new client is for the database that it is made for.
pub record HostLaws {W Client : Type 0} (host : Host W Client) (database : Client → ℕ)
    : Type 0 where
  pub new_client_database :
      (addr : Text) (id : ℕ) (w : W) → database (host.new_client addr id w).0 ≡ id

module _ {W Client : Type 0} (host : Host W Client) (database : Client → ℕ) where
  -- The client is for the database of the name.
  abbrev pub Serves : Text → Client → Type 0
  Serves name c = redis_db_id name ≡ some (database c)

  abbrev pub PoolIsValid : Dict Client → Type 0
  PoolIsValid pool = (name : Text) (c : Client) → lookup name pool ≡ some c → Serves name c

  delete-PoolIsValid :
      (name : Text) (pool : Dict Client) → PoolIsValid pool → PoolIsValid (delete name pool)
  delete-PoolIsValid name pool h j c e = ground (arith, lookup-delete name j pool, h j c)

  insert-PoolIsValid :
      (name : Text) (c : Client) (pool : Dict Client)
      → Serves name c
      → PoolIsValid pool
      → PoolIsValid (insert name c pool)
  insert-PoolIsValid name c pool s h j d e =
      ground (arith, lookup-insert name j c pool, h j d, text_eq_iff name j)

  module _ (laws : HostLaws host database) where
    pub cached_keeps :
        (name : Text) (s : State W Client) → (cached host name s).1.client_pool ≡ s.client_pool
    unfolding cached
    cached_keeps name s = ground arith

    pub cached_sound :
        (name : Text) (s : State W Client) {c : Client}
        → PoolIsValid s.client_pool
        → (cached host name s).0 ≡ ok (some c)
        → Serves name c
    unfolding cached
    cached_sound name s {c} h e = ground (arith, h name c)

    recheck_pool :
        (name : Text) (s : State W Client)
        → ((recheck host name s).1.client_pool ≡ s.client_pool)
          ⊎ ((recheck host name s).1.client_pool ≡ delete name s.client_pool)
    unfolding recheck
    recheck_pool name s = ground arith

    recheck_sound :
        (name : Text) (s : State W Client) {c : Client}
        → PoolIsValid s.client_pool
        → (recheck host name s).0 ≡ ok (some c)
        → (lookup name (recheck host name s).1.client_pool ≡ some c)
    unfolding recheck
    recheck_sound name s {c} h e = ground arith

    recheck-PoolIsValid :
        (name : Text) (s : State W Client)
        → PoolIsValid s.client_pool
        → PoolIsValid (recheck host name s).1.client_pool
    recheck-PoolIsValid name s h = elim (recheck_pool name s) [
      | inl e ↦ rw e h
      | inr e ↦ rw e (delete-PoolIsValid name s.client_pool h)
    ]

    -- A call that makes a client either pools it under the name, or leaves the pool alone.
    create_cases :
        (name : Text) (s : State W Client)
        → ((create host name s).1.client_pool ≡ s.client_pool)
            × ((c : Client) → (create host name s).0 ≢ ok c)
          ⊎ ((c : Client) × ((create host name s).0 ≡ ok c)
              × ((create host name s).1.client_pool ≡ insert name c s.client_pool)
              × Serves name c)
    unfolding create
    create_cases name s = elim (Option-cases (redis_db_id name)) [
      | inl unknown ↦ inl (ground arith, λ c x. ground arith)
      | inr (id, known) ↦
          let made = host.new_client s.redis_addr id s.world in
          let right : database made.0 ≡ id = laws.new_client_database s.redis_addr id s.world in
          elim (Result-cases (host.ping made.0 made.1).0) [
            | inr (u, alive) ↦ inr (made.0, ground arith, ground arith, ground arith)
            | inl (x, dead) ↦ inl (ground arith, λ c y. ground arith)
          ]
    ]

    create-PoolIsValid :
        (name : Text) (s : State W Client)
        → PoolIsValid s.client_pool
        → PoolIsValid (create host name s).1.client_pool
    create-PoolIsValid name s h = elim (create_cases name s) [
      | inl (same, none_made) ↦ rw same h
      | inr (c, made, pooled, serves) ↦ rw pooled (insert-PoolIsValid name c s.client_pool serves h)
    ]

    create_sound :
        (name : Text) (s : State W Client) {c : Client}
        → (create host name s).0 ≡ ok c
        → (lookup name (create host name s).1.client_pool ≡ some c)
    create_sound name s {c} e = elim (create_cases name s) [
      | inl (same, none_made) ↦ absurd (none_made c e)
      | inr (d, made, pooled, serves) ↦ ground (arith, lookup-insert_self name d s.client_pool)
    ]

    locked_cases :
        (name : Text) (s : State W Client)
        → ((connect_locked host name s) ≡ (create host name (recheck host name s).1))
          ⊎ ((connect_locked host name s).1 ≡ (recheck host name s).1)
            × ((c : Client)
                → (connect_locked host name s).0 ≡ ok c
                → (recheck host name s).0 ≡ ok (some c))
    unfolding connect_locked
    locked_cases name s = elim (Result-cases (recheck host name s).0) [
      | inl (x, e) ↦ inr (ground arith, λ c y. ground arith)
      | inr (none, e) ↦ inl (ground arith)
      | inr (some c, e) ↦ inr (ground arith, λ d y. ground arith)
    ]

    -- The part of Connect under the write lock keeps every pooled client right for its name, on all
    -- its branches, and a client that it returns is the pooled one.
    pub locked-PoolIsValid :
        (name : Text) (s : State W Client)
        → PoolIsValid s.client_pool
        → PoolIsValid (connect_locked host name s).1.client_pool
          × ((c : Client)
              → (connect_locked host name s).0 ≡ ok c
              → lookup name (connect_locked host name s).1.client_pool ≡ some c)
    locked-PoolIsValid name s h = elim (locked_cases name s) [
      | inl e ↦ (
        rw e (create-PoolIsValid name _ (recheck-PoolIsValid name s h)),
        λ c x. rw e (create_sound name _ (rw e at x)),
      )
      | inr (e, f) ↦
          (rw e (recheck-PoolIsValid name s h), λ c x. rw e (recheck_sound name s h (f c x)))
    ]

  -- The goroutines of the agent: each call of Connect looks at the pool under the read lock, and may
  -- later work on it under the write lock; the world changes at any time.
  pub data Step : State W Client → State W Client → Type 0 where
    look : (name : Text) (s : State W Client) → Step s (cached host name s).1
    lock : (name : Text) (s : State W Client) → Step s (connect_locked host name s).1
    outside : (s : State W Client) (w : W) → Step s (record s { world = w })

  pub data Reach (s : State W Client) : State W Client → Type 0 where
    here : Reach s s
    next : {t u : State W Client} → Reach s t → Step t u → Reach s u

  module _ (laws : HostLaws host database) where
    Step-PoolIsValid :
        {s t : State W Client} → Step s t → PoolIsValid s.client_pool → PoolIsValid t.client_pool
    Step-PoolIsValid (look name s) h = rw (cached_keeps laws name s) h
    Step-PoolIsValid (lock name s) h = (locked-PoolIsValid laws name s h).0
    Step-PoolIsValid (outside s w) h = h

    Reach-PoolIsValid :
        {s t : State W Client} → Reach s t → PoolIsValid s.client_pool → PoolIsValid t.client_pool
    Reach-PoolIsValid here h = h
    Reach-PoolIsValid (next r st) h = Step-PoolIsValid st (Reach-PoolIsValid r h)

    -- However the calls of Connect interleave from an empty pool, a client that either part of a
    -- call returns for a name is a client for the database of that name; so no client is returned
    -- for a name that has no database.
    pub Reach-Serves :
        (s t : State W Client)
        → s.client_pool ≡ []
        → Reach s t
        → (name : Text) (c : Client)
        → ((cached host name t).0 ≡ ok (some c)) ⊎ ((connect_locked host name t).0 ≡ ok c)
        → Serves name c
    Reach-Serves s t start r name c = elim [
      | inl e ↦ cached_sound laws name t (valid) e
      | inr e ↦
          let (kept, pooled) = locked-PoolIsValid laws name t valid in kept name c (pooled c e)
    ]
      where
        empty-PoolIsValid : PoolIsValid []
        empty-PoolIsValid n d e = unfold lookup in (ground arith)

        valid : PoolIsValid t.client_pool
        valid = Reach-PoolIsValid r (rw start empty-PoolIsValid)
