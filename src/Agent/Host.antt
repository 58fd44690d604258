-- ===== src/Agent/Host.antt =====
-- What the agent calls outside of the repository beside the Redis commands, its state, and calls
-- that reach the outside.
use sonic_operator.Base.{ℕ, Text, String, Dict, Option, List, Error, Exec, wrapf, Arg}
use sonic_operator.Types.{Status, new_error_status, bad_request}

-- The clients of go-redis, the files, D-Bus and netlink. A call that cannot fail has no error.
pub record Host (W Client : Type 0) : Type 0 where
  pub new_client : Text → ℕ → W → Client × W
  pub ping : Client → Exec W Error (Unit {0})
  pub close : Client → Exec W Error (Unit {0})
  pub read_file : Text → Exec W Error Text
  pub connect_system_bus : Exec W Error (Unit {0})
  pub call_save : Exec W Error (Unit {0})
  pub close_bus : Exec W Error (Unit {0})
  -- the hardware address of a link, which may be nil
  pub link_by_name : Text → Exec W Error (Option (List ℕ))
  pub sleep : ℕ → W → W

-- SonicAgent with the world that it acts on. `redisAddr` never changes.
pub record State (W Client : Type 0) : Type 0 where
  pub redis_addr : Text
  pub client_pool : Dict Client
  pub world : W

module _ {W Client : Type 0} where
  -- A call that leaves the agent's own state alone.
  abbrev pub on_world : {E A : Type 0} → Exec W E A → Exec (State W Client) E A
  on_world m s = ((m s.world).0, record s { world = (m s.world).1 })

-- errors.NewErrorStatus(errors.BAD_REQUEST, fmt.Sprintf(format, err))
abbrev pub bad : String → List Arg → Error → Status
bad format args e = new_error_status bad_request (wrapf format args e)
