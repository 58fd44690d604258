-- ===== src/Agent/Writes/Guarded.antt =====
-- Calls of the writing operations that leave an assertion alone, and the errors that they report.
use sonic_operator.Base.{
  ℕ, ◌≡◌, ◌≢◌, Text, String, codes, Option, none, some, List, [], ◌∷◌, arith, Error, Arg, Result,
  ok, err, Exec, fail, lift, attempt, or_fail, ◌>>=◌, Fields, Result-cases, inl, inr,
}
use sonic_operator.Base.Hoare.{
  Ends, Post, Ends-return, Ends-fail, Ends-bind, Ends-or_fail, Ends-lift, Ends-weaken,
}
use sonic_operator.Redis.{Redis}
use sonic_operator.Types.{Status, Interface, not_found, new_error_status}
use sonic_operator.Agent.Host.{Host, State, on_world, bad}
use sonic_operator.Agent.Pool.Safe.{connect-Safe}
use sonic_operator.Agent.Quiet.{Quiet, Holds, Safe-keep}
use sonic_operator.Names.{to_native}
use sonic_operator.Agent.Reads.{
  resolve, check_name, port_key, state_key, port_alias, present_alias, open_db,
}
use sonic_operator.Agent.Writes.{
  check_state, state_or_undo, pause, set_field, save_config, hset_failed, key_check_failed,
}

-- The status is not the one of a missing interface.
abbrev pub OtherError : {S : Type 0} → Status → S → Type 0
OtherError st s = st.code ≢ not_found

pub bad_is_other :
    (format : String) (args : List Arg) (e : Error) → (bad format args e).code ≢ not_found
unfolding new_error_status
bad_is_other format args e = ground arith

pub hset_failed_is_other : (format : String) (e : Error) → (hset_failed format e).code ≢ not_found
unfolding hset_failed new_error_status
hset_failed_is_other format e = ground arith

pub check_failed_is_other :
    (format : String) (e : Error) → (key_check_failed format e).code ≢ not_found
unfolding key_check_failed new_error_status
check_failed_is_other format e = ground arith

module _ {W Client : Type 0} (redis : Redis W Client) (host : Host W Client) (I : W → Type 0)
    (quiet : Quiet redis host I) where
  -- The call keeps the assertion if it succeeds, and else reports another error.
  abbrev pub Guarded : {A : Type 0} → Exec (State W Client) Status A → Type 0
  Guarded m = Ends (Holds I) m (λ a. Holds I) OtherError

  pub open_db-Guarded : (name format : String) → Guarded (open_db redis host name format)
  unfolding open_db
  open_db-Guarded name format = Ends-or_fail _ _ (
      Ends-weaken _ _ _ _ _ (λ a s p. p) (λ e s p. bad_is_other format [] e)
        (connect-Safe redis host I quiet (codes name)))

  pub pause-Guarded : (ms : ℕ) → Guarded (pause redis host ms)
  unfolding pause
  pause-Guarded ms = record { at = λ s p. quiet.sleep_keeps ms s.world p }

  pub call-Guarded :
      {A : Type 0} (f : Error → Status) (m : Exec W Error A)
      → ((e : Error) → (f e).code ≢ not_found)
      → ((w : W) → I w → I (m w).1)
      → Guarded (or_fail f (on_world m))
  call-Guarded f m other keeps = Ends-or_fail f (on_world m) (
      Ends-weaken _ _ _ _ (on_world m) (λ a s p. p) (λ e s p. other e)
        (Safe-keep I (on_world m) (λ s. keeps s.world)))

  pub attempt-Guarded :
      {A : Type 0} (m : Exec W Error A)
      → ((w : W) → I w → I (m w).1)
      → Guarded (attempt (on_world m))
  attempt-Guarded m keeps = record { at = λ s. keeps s.world }

  pub fail-Guarded : {A : Type 0} (st : Status) → st.code ≢ not_found → Guarded (fail {A = A} st)
  fail-Guarded st h = Ends-fail st (λ s p. h)

  pub bind-Guarded :
      {A B : Type 0} (m : Exec (State W Client) Status A) (f : A → Exec (State W Client) Status B)
      → Guarded m
      → ((a : A) → Guarded (f a))
      → Guarded (m >>= f)
  bind-Guarded m f h k = Ends-bind (λ a. Holds I) m f h k

  pub present-Guarded : (o : Option Text) → Guarded (present_alias redis host o)
  unfolding present_alias new_error_status
  present-Guarded none = fail-Guarded _ (ground arith)
  present-Guarded (some a) = Ends-return a (λ s p. p)

  pub port_alias-Guarded : (c : Client) (name : Text) → Guarded (port_alias redis host c name)
  unfolding port_alias new_error_status
  port_alias-Guarded c name =
      bind-Guarded _ _
        (call-Guarded _ (redis.hget c (port_key name) (codes "alias")) (λ e. ground arith)
          (quiet.hget_keeps c (port_key name) (codes "alias")))
        present-Guarded

  -- An error that is no NOT_FOUND, and nothing on success.
  pub set_field-Other :
      (c : Client) (name : Text) (key : String) (v : Text) (format : String)
      → Ends
          (Holds I)
          (or_fail (hset_failed format) (set_field redis host c name key v))
          (λ u s. Unit {0})
          OtherError
  unfolding set_field
  set_field-Other c name key v format = Ends-or_fail _ _ (record {
    at = λ s p.
        other (record s { world = (redis.hset c (port_key name) ((codes key, v) ∷ []) s.world).1 })
          (redis.hset c (port_key name) ((codes key, v) ∷ []) s.world).0;
  })
    where
      other :
          (s : State W Client) (r : Result Error (Unit {0}))
          → Post (λ u t. Unit {0}) (λ e. OtherError (hset_failed format e)) r s
      other s (ok u) = tt
      other s (err e) = hset_failed_is_other format e

  pub state_or_undo-Guarded :
      (c : Client) (name current : Text) (r : Result Error Fields)
      → Guarded (state_or_undo redis host c name current r)
  unfolding state_or_undo key_check_failed new_error_status
  state_or_undo-Guarded c name current (ok fields) = Ends-return tt (λ s p. p)
  state_or_undo-Guarded c name current (err e) =
      Ends-bind (λ u s. Unit {0}) _ _
        (set_field-Other c name "admin_status" current "failed to rollback admin status: %v")
        (λ u. Ends-fail _ (λ s p. ground arith))

  pub check_state-Guarded :
      (c d : Client) (name current : Text) → Guarded (check_state redis host c d name current)
  unfolding check_state
  check_state-Guarded c d name current =
      bind-Guarded _ _
        (attempt-Guarded (redis.hgetall d (state_key name))
          (quiet.hgetall_keeps d (state_key name)))
        (state_or_undo-Guarded c name current)

  pub save_config-Guarded : Guarded (save_config redis host)
  unfolding save_config
  save_config-Guarded =
      bind-Guarded _ _
        (call-Guarded (bad "failed to connect to D-Bus: %v" []) host.connect_system_bus
          (bad_is_other "failed to connect to D-Bus: %v" []) quiet.bus_keeps)
        (λ u. bind-Guarded _ _ (attempt-Guarded host.call_save quiet.save_keeps) (λ reply.
          bind-Guarded _ _ (attempt-Guarded host.close_bus quiet.close_bus_keeps) (λ closed.
            Ends-or_fail (bad "failed to save config via D-Bus: %v" []) (lift reply) (
              Ends-lift reply (λ a s e p. p)
                (λ e s x p. bad_is_other "failed to save config via D-Bus: %v" [] e)))))

pub check_name-Other :
    (iface : Interface) (st : Status) → check_name iface ≡ err st → st.code ≢ not_found
unfolding check_name new_error_status
check_name-Other iface st e = elim (Result-cases (to_native iface.name)) [
  | inl (x, h) ↦ ground (arith, h, e)
  | inr (n, h) ↦ ground (arith, h, e)
]

-- No request is refused with the status of a missing interface.
pub resolve-Other :
    (request : Option Interface) (st : Status) → resolve request ≡ err st → st.code ≢ not_found
unfolding resolve new_error_status
resolve-Other none st e = ground (arith, e)
resolve-Other (some iface) st e = check_name-Other iface st e
