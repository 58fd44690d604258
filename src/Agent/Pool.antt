-- ===== src/Agent/Pool.antt =====
-- SonicAgent.Connect and getRedisDBIDByName.
pub mod Invariant
pub mod Safe
pub mod Connect
use sonic_operator.Base.{
  ℕ, Text, String, codes, text_eq, Bool, true, false, ◌||◌, Option, none, some, List, [], ◌∷◌,
  if◌then◌else◌, Error, errorf, wrapf, Arg, str, Result, ok, err, Exec, return, fail, lift, attempt,
  or_fail, ◌>>=◌, ◌>>◌, Dict, lookup, insert, delete,
}
use sonic_operator.Agent.Host.{Host, State, on_world}

-- The numbers of the databases; `none` is the -1 of the code.
unfoldable pub redis_db_id : Text → Option ℕ
redis_db_id name =
    if text_eq name (codes "APPL_DB")
    then some 0
    else if text_eq name (codes "ASIC_DB")
    then some 1
    else if text_eq name (codes "COUNTERS_DB")
    then some 2
    else if text_eq name (codes "LOGLEVEL_DB")
    then some 3
    else if text_eq name (codes "CONFIG_DB")
    then some 4
    else if text_eq name (codes "PFC_WD_DB") || text_eq name (codes "FLEX_COUNTER_DB")
    then some 5
    else if text_eq name (codes "STATE_DB")
    then some 6
    else if text_eq name (codes "SNMP_OVERLAY_DB")
    then some 7
    else if text_eq name (codes "RESTagent_DB")
    then some 8
    else if text_eq name (codes "GB_ASIC_DB")
    then some 9
    else if text_eq name (codes "GB_COUNTERS_DB")
    then some 10
    else if text_eq name (codes "GB_FLEX_COUNTER_DB")
    then some 11
    else if text_eq name (codes "APPL_STATE_DB")
    then some 14
    else none

module _ {W Client : Type 0} (host : Host W Client) where
  abbrev Agent : Type 0 → Type 0
  Agent A = Exec (State W Client) Error A

  pooled : Text → State W Client → Option Client
  pooled db_name s = lookup db_name s.client_pool

  -- The client, if it answers.
  ping_client : Client → Agent (Option Client)
  ping_client c = do
    reply ← attempt (on_world (host.ping c))
    elim reply [ ok u ↦ return (some c) | err e ↦ return none ]

  -- The part under the read lock: the pooled client, if it answers.
  unfoldable pub cached : Text → Agent (Option Client)
  unfolding pooled ping_client
  cached db_name s = elim (lookup db_name s.client_pool) [
    | none ↦ (ok none, s)
    | some c ↦ ping_client c s
  ]

  forget : Text → Agent (Unit {0})
  forget db_name s = (ok tt, record s { client_pool = delete db_name s.client_pool })

  remember : Text → Client → Agent (Unit {0})
  remember db_name c s = (ok tt, record s { client_pool = insert db_name c s.client_pool })

  close_failed : Error → Error
  close_failed e = wrapf "failed to close Redis client: %w" [] e

  -- A dead client is closed and leaves the pool.
  drop_dead : Text → Client → Option Client → Agent (Option Client)
  unfolding forget close_failed
  drop_dead db_name c (some live) = return (some live)
  drop_dead db_name c none = do
    or_fail close_failed (on_world (host.close c))
    forget db_name
    return none

  -- The second look, under the write lock.
  unfoldable pub recheck : Text → Agent (Option Client)
  unfolding ping_client drop_dead
  recheck db_name s = elim (lookup db_name s.client_pool) [
    | none ↦ (ok none, s)
    | some c ↦ (do answer ← ping_client c; drop_dead db_name c answer) s
  ]

  new_client : ℕ → Agent Client
  new_client id s =
      let made = host.new_client s.redis_addr id s.world in
      (ok (made.0), record s { world = made.1 })

  -- What follows the first ping of a new client.
  admit : Text → Client → Result Error (Unit {0}) → Agent Client
  unfolding remember close_failed
  admit db_name c (ok u) = do remember db_name c; return c
  admit db_name c (err e) = do
    or_fail close_failed (on_world (host.close c))
    fail (wrapf "failed to connect to Redis database %s: %w" (str db_name ∷ []) e)

  create_with : Text → Option ℕ → Agent Client
  unfolding new_client admit
  create_with db_name none = fail (errorf "unknown database name: %s" (str db_name ∷ []))
  create_with db_name (some id) = do
    c ← new_client id
    reply ← attempt (on_world (host.ping c))
    admit db_name c reply

  unfoldable pub create : Text → Agent Client
  unfolding create_with
  create db_name = create_with db_name (redis_db_id db_name)

  or_create : Text → Option Client → Agent Client
  or_create db_name (some c) = return c
  or_create db_name none = create db_name

  -- The part under the write lock.
  unfoldable pub connect_locked : Text → Agent Client
  unfolding or_create
  connect_locked db_name = do again ← recheck db_name; or_create db_name again

  or_lock : Text → Option Client → Agent Client
  or_lock db_name (some c) = return c
  or_lock db_name none = connect_locked db_name

  -- Connect, with no other call in between.
  unfoldable pub connect : Text → Agent Client
  unfolding or_lock
  connect db_name = do found ← cached db_name; or_lock db_name found
