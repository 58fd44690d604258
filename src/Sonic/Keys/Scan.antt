-- ===== src/Sonic/Keys/Scan.antt =====
-- scanKeys gathers the batches of all the rounds that the server answers.
use sonic_operator.Base.{
  ℕ, zero, suc, ◌<◌, ◌≡◌, ◌≢◌, Text, List, [], ◌++◌, append_assoc, ==_iff, ok, arith,
}
use sonic_operator.Redis.{Redis}
use sonic_operator.Sonic.Keys.{scan_loop, scan_keys}

module _ {W Client : Type 0} (redis : Redis W Client) (client : Client) (pattern : Text) where
  -- The server's answers to SCAN from a cursor on, up to the one with the cursor 0: their number,
  -- the keys of all of them, and the world after them.
  pub data Rounds : ℕ → W → ℕ → List Text → W → Type 0 where
    last :
        (cursor : ℕ) (w : W) (batch : List Text)
        → (redis.scan client cursor pattern 100 w).0 ≡ ok (batch, 0)
        → Rounds cursor w 1 batch (redis.scan client cursor pattern 100 w).1
    more :
        (cursor next : ℕ) (w : W) (batch : List Text) {n : ℕ} {keys : List Text} {w' : W}
        → (redis.scan client cursor pattern 100 w).0 ≡ ok (batch, next)
        → next ≢ 0
        → Rounds next (redis.scan client cursor pattern 100 w).1 n keys w'
        → Rounds cursor w (suc n) (batch ++ keys) w'

  loop_gathers :
      (fuel : ℕ) (found : List Text) {cursor n : ℕ} {w w' : W} {keys : List Text}
      → Rounds cursor w n keys w'
      → n < suc fuel
      → scan_loop redis fuel client pattern cursor found w ≡ (ok (found ++ keys), w')
  unfolding scan_loop
  loop_gathers zero found (last cursor w batch e) h = absurd (omega arith)
  loop_gathers (suc fuel) found (last cursor w batch e) h = ground (arith, e)
  loop_gathers zero found (more cursor next w batch e ne r) h = absurd (omega arith)
  loop_gathers (suc fuel) found (more cursor next w batch {keys = keys} e ne r) h = ground (
    arith,
    e,
    ==_iff next 0,
    loop_gathers fuel (found ++ batch) r (omega arith),
    append_assoc found batch keys,
  )

  -- When the server ends a scan after some rounds, as many rounds of fuel are enough, and scanKeys
  -- returns the keys of all rounds in their order.
  pub scan_keys_gathers :
      (fuel : ℕ) {n : ℕ} {w w' : W} {keys : List Text}
      → Rounds 0 w n keys w'
      → n < suc fuel
      → scan_keys redis fuel client pattern w ≡ (ok keys, w')
  unfolding scan_keys
  scan_keys_gathers fuel r h = loop_gathers fuel [] r h
