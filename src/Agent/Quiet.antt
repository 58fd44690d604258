-- ===== src/Agent/Quiet.antt =====
-- Assertions about the world that the calls of the agent's host and the reads of Redis keep.
use sonic_operator.Base.{ℕ, Text, Result, ok, err, Exec}
use sonic_operator.Base.Hoare.{Ends, Post}
use sonic_operator.Redis.{Redis}
use sonic_operator.Agent.Host.{Host, State}

-- Every call that is no write of Redis keeps the assertion.
pub record Quiet {W Client : Type 0} (redis : Redis W Client) (host : Host W Client)
    (I : W → Type 0) : Type 0 where
  pub new_client_keeps : (addr : Text) (id : ℕ) (w : W) → I w → I (host.new_client addr id w).1
  pub ping_keeps : (c : Client) (w : W) → I w → I (host.ping c w).1
  pub close_keeps : (c : Client) (w : W) → I w → I (host.close c w).1
  pub bus_keeps : (w : W) → I w → I (host.connect_system_bus w).1
  pub save_keeps : (w : W) → I w → I (host.call_save w).1
  pub close_bus_keeps : (w : W) → I w → I (host.close_bus w).1
  pub sleep_keeps : (n : ℕ) (w : W) → I w → I (host.sleep n w)
  pub hget_keeps : (c : Client) (k f : Text) (w : W) → I w → I (redis.hget c k f w).1
  pub hgetall_keeps : (c : Client) (k : Text) (w : W) → I w → I (redis.hgetall c k w).1
  pub exists_keeps : (c : Client) (k : Text) (w : W) → I w → I (redis.exists c k w).1

module _ {W Client : Type 0} (I : W → Type 0) where
  abbrev pub Holds : State W Client → Type 0
  Holds s = I s.world

  -- The call keeps the assertion, whether it fails or not.
  abbrev pub Safe : {E A : Type 0} → Exec (State W Client) E A → Type 0
  Safe m = Ends Holds m (λ a. Holds) (λ e. Holds)

module _ {W Client E A : Type 0} (I : W → Type 0) where
  const-Post :
      (r : Result E A) (s : State W Client) → I s.world → Post (λ a. Holds I) (λ e. Holds I) r s
  const-Post (ok a) s h = h
  const-Post (err e) s h = h

  pub Safe-keep :
      (m : Exec (State W Client) E A)
      → ((s : State W Client) → I s.world → I (m s).1.world)
      → Safe I m
  Safe-keep m h = record { at = λ s p. const-Post (m s).0 (m s).1 (h s p) }

  -- An assertion that a safe call leaves.
  pub Safe-at :
      (m : Exec (State W Client) E A) (s : State W Client) → Safe I m → I s.world → I (m s).1.world
  Safe-at m s h p = go (m s).0 (h.at s p)
    where
      go : (r : Result E A) → Post (λ a. Holds I) (λ e. Holds I) r (m s).1 → I (m s).1.world
      go (ok a) q = q
      go (err e) q = q
