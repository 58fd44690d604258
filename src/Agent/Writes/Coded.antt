-- ===== src/Agent/Writes/Coded.antt =====
-- The writing operations.
use sonic_operator.Base.{
  ◌≢◌, ℕ, arith, ◌==◌, Text, String, codes, Option, [], Error, Result, ok, err, Fields, field,
  or_fail, lift,
}
use sonic_operator.Redis.{Redis}
use sonic_operator.Types.{Status, Interface, new_error_status, not_found}
use sonic_operator.Agent.Host.{Host, on_world, bad}
use sonic_operator.Agent.Coded.{
  CodedResult, Coded, bad_code, code_of, Coded-return, Coded-fail, Coded-lift, Coded-attempt,
  Coded-or_fail, Coded-bind, Coded-reject, Coded-after,
}
use sonic_operator.Agent.Reads.Coded.{resolve-Coded, open_db-Coded, port_alias-Coded}
use sonic_operator.Agent.Reads.{status_of, port_key, state_key, appl_key}
use sonic_operator.Agent.Writes.{
  set_interface_admin_status, set_interface_alias_name, save_config, set_field, pause, keep_or_undo,
  write_admin, state_or_undo, check_state, port_exists, finish_admin, keep_or_undo_alias,
  write_alias, oper_or_undo, read_oper, finish_alias, hset_failed, key_check_failed, nil_error,
  future_alias, admin_reply, readable,
}

pub hset_code : (format : String) (e : Error) → (hset_failed format e).code ≢ 0
unfolding hset_failed new_error_status
hset_code format e = ground arith

pub check_code : (format : String) (e : Error) → (key_check_failed format e).code ≢ 0
unfolding key_check_failed new_error_status
check_code format e = ground arith

module _ {W Client : Type 0} (redis : Redis W Client) (host : Host W Client) where
  -- SaveConfig reports no error with code 0.
  pub save_config-Coded : Coded (save_config redis host)
  unfolding save_config
  save_config-Coded =
      Coded-bind _ _
        (Coded-or_fail _ (on_world host.connect_system_bus)
          (bad_code "failed to connect to D-Bus: %v" []))
        (λ u. Coded-bind _ _ (Coded-attempt (on_world host.call_save)) (λ reply.
          Coded-bind _ _ (Coded-attempt (on_world host.close_bus)) (λ closed.
            Coded-or_fail (bad "failed to save config via D-Bus: %v" []) (lift reply)
              (bad_code "failed to save config via D-Bus: %v" []))))

  pub set-Coded :
      (c : Client) (name : Text) (key : String) (v : Text) (format : String)
      → Coded (or_fail (hset_failed format) (set_field redis host c name key v))
  set-Coded c name key v format =
      Coded-or_fail _ (set_field redis host c name key v) (hset_code format)

  pub port_exists-Coded :
      (c : Client) (name shown : Text) → Coded (port_exists redis host c name shown)
  unfolding port_exists
  port_exists-Coded c name shown =
      Coded-bind _ _
        (Coded-or_fail _ (on_world (redis.exists c (port_key name)))
          (check_code "failed to verify interface existence: %v"))
        (λ n. Coded-reject (n == 0) _ (code_of not_found _ (ground arith)))

  keep_or_undo-Coded :
      (c : Client) (name current : Text) (r : Result Status (Unit {0}))
      → CodedResult r
      → Coded (keep_or_undo redis host c name current r)
  unfolding keep_or_undo
  keep_or_undo-Coded c name current (ok u) h = Coded-return tt
  keep_or_undo-Coded c name current (err st) h =
      Coded-bind _ _ (Coded-attempt (set_field redis host c name "admin_status" current))
        (λ a. Coded-fail st h)

  write_admin-Coded :
      (c : Client) (name current new : Text) → Coded (write_admin redis host c name current new)
  unfolding write_admin
  write_admin-Coded c name current new =
      Coded-bind _ _ (set-Coded c name "admin_status" new "failed to set admin status: %v") (λ u.
        Coded-after (save_config redis host) _ save_config-Coded
          (keep_or_undo-Coded c name current))

  state_or_undo-Coded :
      (c : Client) (name current : Text) (r : Result Error Fields)
      → Coded (state_or_undo redis host c name current r)
  unfolding state_or_undo
  state_or_undo-Coded c name current (ok fields) = Coded-return tt
  state_or_undo-Coded c name current (err e) =
      Coded-bind _ _ (set-Coded c name "admin_status" current "failed to rollback admin status: %v")
        (λ u. Coded-fail _ (check_code "failed to get state info: %v" nil_error))

  check_state-Coded :
      (c d : Client) (name current : Text) → Coded (check_state redis host c d name current)
  unfolding check_state
  check_state-Coded c d name current =
      Coded-bind _ _ (Coded-attempt (on_world (redis.hgetall d (state_key name))))
        (state_or_undo-Coded c name current)

  pause-Coded : (ms : ℕ) → Coded (pause redis host ms)
  unfolding pause
  pause-Coded ms = record { at = λ s. tt }

  finish_admin-Coded :
      (c : Client) (iface : Interface) (name current : Text)
      → Coded (finish_admin redis host c iface name current)
  unfolding finish_admin
  finish_admin-Coded c iface name current = Coded-bind _ _ (port_exists-Coded c name name) (λ u.
      Coded-bind _ _ (pause-Coded 1000) (λ u.
        Coded-bind _ _ (open_db-Coded redis host "STATE_DB" "failed to connect to STATE_DB: %v")
          (λ d. Coded-bind _ _ (check_state-Coded c d name current) (λ u.
            Coded-bind _ _ (open_db-Coded redis host "APPL_DB" "failed to connect to APPL_DB: %v")
              (λ a.
                Coded-bind _ _ (Coded-attempt (on_world (redis.hgetall a (appl_key name)))) (λ r.
                  Coded-bind _ _ (port_alias-Coded redis host c name)
                    (λ alias. Coded-return (admin_reply iface name (readable r) alias))))))))

  -- SetInterfaceAdminStatus reports no error with code 0.
  pub set_interface_admin_status-Coded :
      (request : Option Interface) → Coded (set_interface_admin_status redis host request)
  unfolding set_interface_admin_status
  set_interface_admin_status-Coded request =
      Coded-bind _ _ (Coded-lift _ (resolve-Coded request)) (λ p.
        Coded-bind _ _ (open_db-Coded redis host "CONFIG_DB" "failed to connect to CONFIG_DB: %v")
          (λ c.
            Coded-bind _ _
              (Coded-or_fail _ (on_world (redis.hgetall c (port_key p.1)))
                (check_code "failed to get current admin status: %v"))
              (λ fields.
                Coded-bind _ _
                  (write_admin-Coded c p.1 (field (codes "admin_status") fields) p.0.admin_status)
                  (λ u. finish_admin-Coded c p.0 p.1 (field (codes "admin_status") fields)))))

  keep_or_undo_alias-Coded :
      (c : Client) (name current : Text) (r : Result Status (Unit {0}))
      → CodedResult r
      → Coded (keep_or_undo_alias redis host c name current r)
  unfolding keep_or_undo_alias
  keep_or_undo_alias-Coded c name current (ok u) h = Coded-return tt
  keep_or_undo_alias-Coded c name current (err st) h =
      Coded-bind _ _ (set-Coded c name "alias" current "failed to rollback alias name: %v")
        (λ u. Coded-fail st h)

  write_alias-Coded :
      (c : Client) (name current new : Text) → Coded (write_alias redis host c name current new)
  unfolding write_alias
  write_alias-Coded c name current new =
      Coded-bind _ _ (set-Coded c name "alias" new "failed to set alias name: %v") (λ u.
        Coded-after (save_config redis host) _ save_config-Coded
          (keep_or_undo_alias-Coded c name current))

  oper_or_undo-Coded :
      (c : Client) (name current : Text) (r : Result Error Fields)
      → Coded (oper_or_undo redis host c name current r)
  unfolding oper_or_undo
  oper_or_undo-Coded c name current (ok fields) = Coded-return fields
  oper_or_undo-Coded c name current (err e) =
      Coded-bind _ _ (set-Coded c name "alias" current "failed to rollback alias name: %v")
        (λ u. Coded-fail _ (check_code "failed to get state info: %v" nil_error))

  read_oper-Coded :
      (c a : Client) (name current : Text) → Coded (read_oper redis host c a name current)
  unfolding read_oper
  read_oper-Coded c a name current =
      Coded-bind _ _ (Coded-attempt (on_world (redis.hgetall a (appl_key name))))
        (oper_or_undo-Coded c name current)

  finish_alias-Coded :
      (c : Client) (iface : Interface) (name current : Text)
      → Coded (finish_alias redis host c iface name current)
  unfolding finish_alias
  finish_alias-Coded c iface name current =
      Coded-bind _ _ (port_exists-Coded c name iface.name) (λ u.
        Coded-bind _ _ (open_db-Coded redis host "APPL_DB" "failed to connect to APPL_DB: %v") (λ a.
          Coded-bind _ _ (read_oper-Coded c a name current) (λ fields.
            Coded-return
              (record iface { operation_status = status_of (codes "oper_status") fields }))))

  -- SetInterfaceAliasName reports no error with code 0.
  pub set_interface_alias_name-Coded :
      (request : Option Interface) → Coded (set_interface_alias_name redis host request)
  unfolding set_interface_alias_name
  set_interface_alias_name-Coded request =
      Coded-bind _ _ (Coded-lift _ (resolve-Coded request)) (λ p.
        Coded-bind _ _ (open_db-Coded redis host "CONFIG_DB" "failed to connect to CONFIG_DB: %v")
          (λ c.
            Coded-bind _ _
              (Coded-or_fail _ (on_world (redis.hgetall c (port_key p.1)))
                (check_code "failed to get current alias name: %v"))
              (λ fields.
                Coded-bind _ _
                  (write_alias-Coded c p.1 (field (codes "alias") fields) (future_alias p.0))
                  (λ u. finish_alias-Coded c p.0 p.1 (field (codes "alias") fields)))))
