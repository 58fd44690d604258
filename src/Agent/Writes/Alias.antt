-- ===== src/Agent/Writes/Alias.antt =====
-- SetInterfaceAliasName: what CONFIG_DB holds after it, and the errors that it can report.
use sonic_operator.Base.{
  ◌≡◌, ◌≢◌, refl, Text, codes, Option, [], ◌∷◌, Fields, Error, Result, ok, err, or_fail, field,
}
use sonic_operator.Base.Hoare.{
  Ends, Post, Ends-return, Ends-fail, Ends-bind, Ends-or_fail, Ends-attempt, Ends-lift, Ends-ok,
  Ends-err, Ends-weaken, Ends-ok, Ends-err, Ends-given, lift-Post,
}
use sonic_operator.Redis.{Redis, Laws}
use sonic_operator.Types.{Status, Interface, not_found}
use sonic_operator.Agent.Host.{Host, State}
use sonic_operator.Agent.Pool.Invariant.{HostLaws, PoolIsValid}
use sonic_operator.Agent.Quiet.{Quiet, Holds}
use sonic_operator.Agent.Reads.{resolve, status_of, port_key, appl_key}
use sonic_operator.Agent.Writes.{
  set_interface_alias_name, write_alias, finish_alias, keep_or_undo_alias, future_alias,
  oper_or_undo, read_oper, set_field, hset_failed, nil_error,
}
use sonic_operator.Agent.Writes.Guarded.{
  OtherError, hset_failed_is_other, check_failed_is_other, Guarded, open_db-Guarded,
  attempt-Guarded, save_config-Guarded, resolve-Other, set_field-Other,
}
use sonic_operator.Agent.Writes.Stored.{
  HostIsQuiet, Stored, at_stored, port_exists-Guarded, set_field-Stored, Resolved, opened,
  current-Given,
}

module _ {W Client : Type 0} (redis : Redis W Client) (host : Host W Client)
    (laws : Laws redis) where
  -- The alias of a port in CONFIG_DB.
  abbrev pub Alias : Text → Text → W → Type 0
  Alias = Stored redis host laws "alias"

  module _ (quiet : HostIsQuiet redis host laws) (name v : Text) where
    at_alias : Quiet redis host (Alias name v)
    at_alias = at_stored redis host laws quiet "alias" name v

    undo-Other :
        (c : Client) (current : Text) (T : Type 0)
        → Ends
            (λ s. T)
            (or_fail
              (hset_failed "failed to rollback alias name: %v")
              (set_field redis host c name "alias" current))
            (λ u s. T)
            OtherError
    unfolding set_field
    undo-Other c current T = Ends-or_fail _ _ (record {
      at = λ s p.
          lift-Post _ _ (redis.hset c (port_key name) ((codes "alias", current) ∷ []) s.world).0 _
            (λ u e. p) (λ e x. hset_failed_is_other "failed to rollback alias name: %v" e);
    })

    keep_or_undo_alias-Guarded :
        (c : Client) (current : Text) (r : Result Status (Unit {0}))
        → Ends
            (Post (λ u. Holds (Alias name v)) (OtherError {S = State W Client}) r)
            (keep_or_undo_alias redis host c name current r)
            (λ u. Holds (Alias name v))
            OtherError
    unfolding keep_or_undo_alias
    keep_or_undo_alias-Guarded c current (ok u) = Ends-return tt (λ s p. p)
    keep_or_undo_alias-Guarded c current (err status) =
        Ends-bind (λ a s. status.code ≢ not_found) _ _
          (undo-Other c current (status.code ≢ not_found)) (λ a. Ends-fail status (λ s p. p))

    write_alias-Guarded :
        (c : Client) (current : Text)
        → laws.database c ≡ 4
        → Ends
            (λ s. Unit {0})
            (write_alias redis host c name current v)
            (λ u. Holds (Alias name v))
            OtherError
    unfolding write_alias
    write_alias-Guarded c current db =
        Ends-bind (λ u. Holds _) _ _
          (set_field-Stored redis host laws quiet "alias" name v c "failed to set alias name: %v"
            db)
          (λ u.
            Ends-bind _ _ _ (Ends-attempt _ (save_config-Guarded redis host _ at_alias))
              (keep_or_undo_alias-Guarded c current))

    oper_or_undo-Guarded :
        (c : Client) (current : Text) (r : Result Error Fields)
        → Guarded redis host (Alias name v) at_alias (oper_or_undo redis host c name current r)
    unfolding oper_or_undo
    oper_or_undo-Guarded c current (ok fields) = Ends-return fields (λ s p. p)
    oper_or_undo-Guarded c current (err e) =
        Ends-bind (λ u s. Unit {0}) _ _
          (set_field-Other redis host _ at_alias c name "alias" current
            "failed to rollback alias name: %v")
          (λ u. Ends-fail _ (λ s p. check_failed_is_other "failed to get state info: %v" nil_error))

    read_oper-Guarded :
        (c d : Client) (current : Text)
        → Guarded redis host (Alias name v) at_alias (read_oper redis host c d name current)
    unfolding read_oper
    read_oper-Guarded c d current =
        Ends-bind (λ u. Holds _) _ _
          (attempt-Guarded redis host _ at_alias (redis.hgetall d (appl_key name))
            (at_alias.hgetall_keeps d (appl_key name)))
          (oper_or_undo-Guarded c current)

    -- The reply is the request with the operational status.
    finish_alias-Guarded :
        (c : Client) (iface : Interface) (current : Text)
        → laws.database c ≡ 4
        → Ends
            (Holds (Alias name v))
            (finish_alias redis host c iface name current)
            (λ i s.
              Alias name v s.world × (i ≡ record iface { operation_status = i.operation_status }))
            OtherError
    unfolding finish_alias
    finish_alias-Guarded c iface current db =
        Ends-bind (λ u. Holds _) _ _
          (port_exists-Guarded redis host laws quiet "alias" name v c iface.name db)
          (λ u.
            Ends-bind (λ u. Holds _) _ _
              (open_db-Guarded redis host _ at_alias "APPL_DB" "failed to connect to APPL_DB: %v")
              (λ d.
                Ends-bind (λ u. Holds _) _ _ (read_oper-Guarded c d current)
                  (λ fields.
                    Ends-return
                      (record iface { operation_status = status_of (codes "oper_status") fields })
                      (λ s p. (p, refl)))))

module _ {W Client : Type 0} (redis : Redis W Client) (host : Host W Client) (laws : Laws redis)
    (host_laws : HostLaws host laws.database) (quiet : HostIsQuiet redis host laws) where
  -- What a reply of SetInterfaceAliasName says of CONFIG_DB.
  pub record Renamed (request : Option Interface) (reply : Interface) (s : State W Client)
      : Type 0 where
    pub iface : Interface
    pub name : Text
    pub resolved : resolve request ≡ ok (iface, name)
    pub stored : Alias redis host laws name (future_alias iface) s.world
    pub answer : reply ≡ record iface { operation_status = reply.operation_status }

  finish_alias-Renamed :
      (request : Option Interface) (p : Interface × Text) (c : Client) (current : Text)
      → resolve request ≡ ok p
      → laws.database c ≡ 4
      → Ends
          (Holds (Alias redis host laws p.1 (future_alias p.0)))
          (finish_alias redis host c p.0 p.1 current)
          (Renamed request)
          OtherError
  finish_alias-Renamed request p c current e db =
      Ends-weaken _ _ _ _ _
        (λ reply s q. record { iface = p.0; name = p.1; resolved = e; stored = q.0; answer = q.1 })
        (λ st s q. q)
        (finish_alias-Guarded redis host laws quiet p.1 (future_alias p.0) c p.0 current db)

  set_interface_alias_name_lem :
      (request : Option Interface)
      → Ends
          (λ s. PoolIsValid host laws.database s.client_pool)
          (set_interface_alias_name redis host request)
          (Renamed request)
          OtherError
  unfolding set_interface_alias_name
  set_interface_alias_name_lem request =
      Ends-bind (Resolved redis host laws host_laws request) _ _
        (Ends-lift _ (λ p s e q. (e, q)) (λ st s e q. resolve-Other request st e))
        (λ p.
          Ends-bind (λ c s. (resolve request ≡ ok p) × (laws.database c ≡ 4)) _ _
            (opened redis host laws host_laws request p)
            (λ c.
              Ends-bind (λ fs s. (resolve request ≡ ok p) × (laws.database c ≡ 4)) _ _
                (current-Given redis host laws host_laws "failed to get current alias name: %v"
                  request p c)
                (λ fs. Ends-given _ (λ g.
                  Ends-bind (λ u. Holds (Alias redis host laws p.1 (future_alias p.0))) _ _
                    (write_alias-Guarded redis host laws quiet p.1 (future_alias p.0) c
                      (field (codes "alias") fs) g.1)
                    (λ u. finish_alias-Renamed request p c (field (codes "alias") fs) g.0 g.1)))))

  -- In an agent whose pool is valid, when SetInterfaceAliasName returns an interface, CONFIG_DB holds
  -- the alias that was asked for, or the interface's name if none was, for the port that the request
  -- resolves to, and the reply is the request's interface with the operational status set. The
  -- host's calls and the reads of Redis are taken to leave what Redis holds alone.
  pub alias_stored :
      (request : Option Interface) (s : State W Client) {reply : Interface}
      → PoolIsValid host laws.database s.client_pool
      → (set_interface_alias_name redis host request s).0 ≡ ok reply
      → Renamed request reply (set_interface_alias_name redis host request s).1
  alias_stored request s p e = Ends-ok _ s (set_interface_alias_name_lem request) p e

  -- In an agent whose pool is valid SetInterfaceAliasName never fails with NOT_FOUND, whether the
  -- port existed or not. The host's calls and the reads of Redis are taken to leave what Redis holds
  -- alone.
  pub alias_never_not_found :
      (request : Option Interface) (s : State W Client) {status : Status}
      → PoolIsValid host laws.database s.client_pool
      → (set_interface_alias_name redis host request s).0 ≡ err status
      → status.code ≢ not_found
  alias_never_not_found request s p e = Ends-err _ s (set_interface_alias_name_lem request) p e
