-- ===== src/Agent/Writes.antt =====
-- The operations of the agent that write: SaveConfig, SetInterfaceAdminStatus and
-- SetInterfaceAliasName.
pub mod Guarded
pub mod Stored
pub mod Admin
pub mod Alias
pub mod Coded
pub mod Echo
use sonic_operator.Base.{
  ℕ, Text, String, codes, text_eq, is_empty, Bool, true, false, Option, none, some, List, [], ◌∷◌,
  ◌++◌, ◌==◌, if◌then◌else◌, Error, errorf, wrapf, Arg, str, Result, ok, err, Exec, return, fail,
  lift, attempt, or_fail, reject, ◌>>=◌, ◌>>◌, Fields, field,
}
use sonic_operator.Redis.{Redis}
use sonic_operator.Types.{
  Status, Kind, Interface, new_error_status, not_found, redis_hset_fail, redis_key_check_fail,
  ok_status,
}
use sonic_operator.Names.{to_abstract}
use sonic_operator.Agent.Host.{Host, State, on_world, bad}
use sonic_operator.Agent.Reads.{
  resolve, status_of, port_key, state_key, appl_key, port_alias, open_db,
}

pub hset_failed : String → Error → Status
hset_failed format e = new_error_status redis_hset_fail (wrapf format [] e)

pub key_check_failed : String → Error → Status
key_check_failed format e = new_error_status redis_key_check_fail (wrapf format [] e)

-- How the verb %v prints a nil error.
abbrev pub nil_error : Error
nil_error = errorf "<nil>" []

-- An abstract name that cannot be made is the empty one.
name_or_empty : Result Error Text → Text
name_or_empty (ok name) = name
name_or_empty (err e) = []

readable : Result Error Fields → Fields
readable (ok fields) = fields
readable (err e) = []

-- The alias that is asked for, or the interface's name.
unfoldable pub future_alias : Interface → Text
future_alias iface = if is_empty iface.alias_name then iface.name else iface.alias_name

-- The interface that SetInterfaceAdminStatus returns.
admin_reply : Interface → Text → Fields → Text → Interface
unfolding name_or_empty
admin_reply iface name appl_fields alias = record {
  kind = Kind.interface_kind;
  name = name_or_empty (to_abstract name);
  native_name = name;
  alias_name = alias;
  mac_address = [];
  operation_status = status_of (codes "oper_status") appl_fields;
  admin_status = iface.admin_status;
  status = ok_status;
}

module _ {W Client : Type 0} (redis : Redis W Client) (host : Host W Client) where
  abbrev Agent : Type 0 → Type 0
  Agent A = Exec (State W Client) Status A

  -- The error of closing the connection is only logged.
  unfoldable pub save_config : Agent (Unit {0})
  save_config = do
    or_fail (bad "failed to connect to D-Bus: %v" []) (on_world host.connect_system_bus)
    reply ← attempt (on_world host.call_save)
    closed ← attempt (on_world host.close_bus)
    or_fail (bad "failed to save config via D-Bus: %v" []) (lift reply)

  pub set_field : Client → Text → String → Text → Exec (State W Client) Error (Unit {0})
  set_field config_db name key v =
      on_world (redis.hset config_db (port_key name) ((codes key, v) ∷ []))

  pub pause : ℕ → Agent (Unit {0})
  pause ms s = (ok tt, record s { world = host.sleep ms s.world })

  -- The first write is taken back if the save fails, and whether that works is not looked at.
  pub keep_or_undo : Client → Text → Text → Result Status (Unit {0}) → Agent (Unit {0})
  unfolding set_field
  keep_or_undo config_db name current (ok u) = return tt
  keep_or_undo config_db name current (err status) = do
    undone ← attempt (set_field config_db name "admin_status" current)
    fail status

  -- HSET and SaveConfig.
  pub write_admin : Client → Text → Text → Text → Agent (Unit {0})
  unfolding set_field hset_failed keep_or_undo
  write_admin config_db name current new = do
    or_fail (hset_failed "failed to set admin status: %v")
        (set_field config_db name "admin_status" new)
    saved ← attempt save_config
    keep_or_undo config_db name current saved

  pub state_or_undo : Client → Text → Text → Result Error Fields → Agent (Unit {0})
  unfolding set_field hset_failed key_check_failed
  state_or_undo config_db name current (ok fields) = return tt
  state_or_undo config_db name current (err e) = do
    or_fail (hset_failed "failed to rollback admin status: %v")
        (set_field config_db name "admin_status" current)
    fail (key_check_failed "failed to get state info: %v" nil_error)

  -- Reading the state of the port back; the write is undone if that fails. The error of the
  -- read is overwritten by that of the undoing, so that the message shows nil.
  pub check_state : Client → Client → Text → Text → Agent (Unit {0})
  unfolding state_or_undo
  check_state config_db state_db name current = do
    reply ← attempt (on_world (redis.hgetall state_db (state_key name)))
    state_or_undo config_db name current reply

  pub port_exists : Client → Text → Text → Agent (Unit {0})
  unfolding key_check_failed
  port_exists config_db name shown = do
    n ←
        or_fail (key_check_failed "failed to verify interface existence: %v")
          (on_world (redis.exists config_db (port_key name)))
    reject (n == 0) (new_error_status not_found (errorf "interface %s not found" (str shown ∷ [])))

  -- From the second look at CONFIG_DB on.
  pub finish_admin : Client → Interface → Text → Text → Agent Interface
  unfolding check_state readable admin_reply pause port_exists
  finish_admin config_db iface name current = do
    port_exists config_db name name
    pause 1000
    state_db ← open_db redis host "STATE_DB" "failed to connect to STATE_DB: %v"
    check_state config_db state_db name current
    appl_db ← open_db redis host "APPL_DB" "failed to connect to APPL_DB: %v"
    appl_fields ← attempt (on_world (redis.hgetall appl_db (appl_key name)))
    alias ← port_alias redis host config_db name
    return (admin_reply iface name (readable appl_fields) alias)

  unfoldable pub set_interface_admin_status : Option Interface → Agent Interface
  unfolding write_admin finish_admin key_check_failed
  set_interface_admin_status request = do
    (iface, name) ← lift (resolve request)
    config_db ← open_db redis host "CONFIG_DB" "failed to connect to CONFIG_DB: %v"
    fields ←
        or_fail (key_check_failed "failed to get current admin status: %v")
          (on_world (redis.hgetall config_db (port_key name)))
    let current = field (codes "admin_status") fields
    write_admin config_db name current iface.admin_status
    finish_admin config_db iface name current

  -- As for the admin status, but a failure to undo is reported.
  pub keep_or_undo_alias : Client → Text → Text → Result Status (Unit {0}) → Agent (Unit {0})
  unfolding set_field hset_failed
  keep_or_undo_alias config_db name current (ok u) = return tt
  keep_or_undo_alias config_db name current (err status) = do
    or_fail (hset_failed "failed to rollback alias name: %v")
        (set_field config_db name "alias" current)
    fail status

  pub write_alias : Client → Text → Text → Text → Agent (Unit {0})
  unfolding set_field hset_failed keep_or_undo_alias
  write_alias config_db name current new = do
    or_fail (hset_failed "failed to set alias name: %v") (set_field config_db name "alias" new)
    saved ← attempt save_config
    keep_or_undo_alias config_db name current saved

  pub oper_or_undo : Client → Text → Text → Result Error Fields → Agent Fields
  unfolding set_field hset_failed key_check_failed
  oper_or_undo config_db name current (ok fields) = return fields
  oper_or_undo config_db name current (err e) = do
    or_fail (hset_failed "failed to rollback alias name: %v")
        (set_field config_db name "alias" current)
    fail (key_check_failed "failed to get state info: %v" nil_error)

  -- Reading PORT_TABLE; the write is undone if that fails, and the message shows nil.
  pub read_oper : Client → Client → Text → Text → Agent Fields
  unfolding oper_or_undo
  read_oper config_db appl_db name current = do
    reply ← attempt (on_world (redis.hgetall appl_db (appl_key name)))
    oper_or_undo config_db name current reply

  pub finish_alias : Client → Interface → Text → Text → Agent Interface
  unfolding read_oper port_exists
  finish_alias config_db iface name current = do
    port_exists config_db name iface.name
    appl_db ← open_db redis host "APPL_DB" "failed to connect to APPL_DB: %v"
    appl_fields ← read_oper config_db appl_db name current
    return (record iface { operation_status = status_of (codes "oper_status") appl_fields })

  unfoldable pub set_interface_alias_name : Option Interface → Agent Interface
  unfolding write_alias finish_alias future_alias key_check_failed
  set_interface_alias_name request = do
    (iface, name) ← lift (resolve request)
    config_db ← open_db redis host "CONFIG_DB" "failed to connect to CONFIG_DB: %v"
    fields ←
        or_fail (key_check_failed "failed to get current alias name: %v")
          (on_world (redis.hgetall config_db (port_key name)))
    let current = field (codes "alias") fields
    write_alias config_db name current (future_alias iface)
    finish_alias config_db iface name current
