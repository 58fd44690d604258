-- ===== src/Redis.antt =====
-- The Redis client of go-redis, which the repository only calls: its commands are parameters.
-- `Laws` says what a call relies on, as the Redis documentation describes the commands.
pub mod Memory
pub mod Effects
use sonic_operator.Base.{
  ℕ, suc, ◌≡◌, ◌≢◌, ◌⊎◌, Text, text_eq, Fields, lookup, Bool, true, false, Option, none, some, List,
  [], ◌∷◌, if◌then◌else◌, Error, Exec, ok,
}

-- The commands of a client. A reply that is redis.Nil is `none`.
pub record Redis (W Client : Type 0) : Type 0 where
  pub hset : Client → Text → Fields → Exec W Error (Unit {0})
  pub hget : Client → Text → Text → Exec W Error (Option Text)
  pub hgetall : Client → Text → Exec W Error Fields
  pub hexists : Client → Text → Text → Exec W Error Bool
  pub hdel : Client → Text → Text → Exec W Error (Unit {0})
  pub exists : Client → Text → Exec W Error ℕ
  pub del : Client → Text → Exec W Error (Unit {0})
  pub scan : Client → ℕ → Text → ℕ → Exec W Error (List Text × ℕ)
  pub keys : Client → Text → Exec W Error (List Text)

-- A field after the pairs of one HSET are written in order.
abbrev pub written : Text → Fields → Option Text → Option Text
written f [] old = old
written f ((g, v) ∷ fs) old = written f fs (if text_eq g f then some v else old)

-- The hashes that a server holds, and how the commands read and change them while nobody else
-- writes. Of a write that failed nothing is said about the key that it names.
pub record Laws {W Client : Type 0} (r : Redis W Client) : Type 0 where
  pub database : Client → ℕ
  pub cell : W → ℕ → Text → Text → Option Text
  pub hset_ok :
      (c : Client) (k : Text) (fs : Fields) (w : W) (f : Text)
      → (r.hset c k fs w).0 ≡ ok tt
      → cell (r.hset c k fs w).1 (database c) k f ≡ written f fs (cell w (database c) k f)
  pub hset_other :
      (c : Client) (k : Text) (fs : Fields) (w : W) (d : ℕ) (j f : Text)
      → (d ≢ database c) ⊎ (k ≢ j)
      → cell (r.hset c k fs w).1 d j f ≡ cell w d j f
  pub del_ok :
      (c : Client) (k : Text) (w : W) (f : Text)
      → (r.del c k w).0 ≡ ok tt
      → cell (r.del c k w).1 (database c) k f ≡ none
  pub del_other :
      (c : Client) (k : Text) (w : W) (d : ℕ) (j f : Text)
      → (d ≢ database c) ⊎ (k ≢ j)
      → cell (r.del c k w).1 d j f ≡ cell w d j f
  pub hdel_ok :
      (c : Client) (k f : Text) (w : W) (g : Text)
      → (r.hdel c k f w).0 ≡ ok tt
      → cell (r.hdel c k f w).1 (database c) k g
        ≡ (if text_eq f g then none else cell w (database c) k g)
  pub hdel_other :
      (c : Client) (k f : Text) (w : W) (d : ℕ) (j g : Text)
      → (d ≢ database c) ⊎ (k ≢ j)
      → cell (r.hdel c k f w).1 d j g ≡ cell w d j g
  pub hget_reply :
      (c : Client) (k f : Text) (w : W) {v : Option Text}
      → (r.hget c k f w).0 ≡ ok v
      → v ≡ cell w (database c) k f
  pub hget_keeps :
      (c : Client) (k f : Text) (w : W) (d : ℕ) (j g : Text)
      → cell (r.hget c k f w).1 d j g ≡ cell w d j g
  pub hgetall_reply :
      (c : Client) (k : Text) (w : W) {fs : Fields} (f : Text)
      → (r.hgetall c k w).0 ≡ ok fs
      → lookup f fs ≡ cell w (database c) k f
  pub hgetall_keeps :
      (c : Client) (k : Text) (w : W) (d : ℕ) (j g : Text)
      → cell (r.hgetall c k w).1 d j g ≡ cell w d j g
  pub hexists_false :
      (c : Client) (k f : Text) (w : W)
      → (r.hexists c k f w).0 ≡ ok false
      → cell w (database c) k f ≡ none
  pub hexists_true :
      (c : Client) (k f : Text) (w : W)
      → (r.hexists c k f w).0 ≡ ok true
      → (v : Text) × (cell w (database c) k f ≡ some v)
  pub exists_zero :
      (c : Client) (k : Text) (w : W) (f : Text)
      → (r.exists c k w).0 ≡ ok 0
      → cell w (database c) k f ≡ none
  pub exists_pos :
      (c : Client) (k : Text) (w : W) (n : ℕ)
      → (r.exists c k w).0 ≡ ok (suc n)
      → (f v : Text) × (cell w (database c) k f ≡ some v)
  pub exists_keeps :
      (c : Client) (k : Text) (w : W) (d : ℕ) (j g : Text)
      → cell (r.exists c k w).1 d j g ≡ cell w d j g
