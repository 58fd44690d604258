-- ===== src/Agent/Writes/Admin.antt =====
-- SetInterfaceAdminStatus: what CONFIG_DB holds after it, and the errors that it can report.
use sonic_operator.Base.{◌≡◌, ◌≢◌, refl, Text, codes, Option, Result, ok, err, attempt, field}
use sonic_operator.Base.Hoare.{
  Ends, Post, Ends-return, Ends-fail, Ends-bind, Ends-attempt, Ends-lift, Ends-ok, Ends-err,
  Ends-weaken, Ends-ok, Ends-err, Ends-given,
}
use sonic_operator.Redis.{Redis, Laws}
use sonic_operator.Types.{Status, Interface, not_found}
use sonic_operator.Agent.Host.{Host, State}
use sonic_operator.Agent.Pool.Invariant.{HostLaws, PoolIsValid}
use sonic_operator.Agent.Quiet.{Quiet, Holds}
use sonic_operator.Agent.Reads.{resolve, appl_key}
use sonic_operator.Agent.Writes.{
  set_interface_admin_status, write_admin, finish_admin, keep_or_undo, set_field, readable,
  admin_reply,
}
use sonic_operator.Agent.Writes.Guarded.{
  OtherError, open_db-Guarded, pause-Guarded, attempt-Guarded, port_alias-Guarded,
  check_state-Guarded, save_config-Guarded, resolve-Other,
}
use sonic_operator.Agent.Writes.Stored.{
  HostIsQuiet, Stored, at_stored, port_exists-Guarded, set_field-Stored, Resolved, opened,
  current-Given,
}

module _ {W Client : Type 0} (redis : Redis W Client) (host : Host W Client)
    (laws : Laws redis) where
  -- The admin status of a port in CONFIG_DB.
  abbrev pub AdminStatus : Text → Text → W → Type 0
  AdminStatus = Stored redis host laws "admin_status"

  module _ (quiet : HostIsQuiet redis host laws) (name v : Text) where
    at_status : Quiet redis host (AdminStatus name v)
    at_status = at_stored redis host laws quiet "admin_status" name v

    finish_admin-Guarded :
        (c : Client) (iface : Interface) (current : Text)
        → laws.database c ≡ 4
        → Ends
            (Holds (AdminStatus name v))
            (finish_admin redis host c iface name current)
            (λ i s.
              AdminStatus name v s.world
              × (i.admin_status ≡ iface.admin_status)
              × (i.native_name ≡ name))
            OtherError
    unfolding finish_admin admin_reply
    finish_admin-Guarded c iface current db =
        Ends-bind (λ u. Holds _) _ _
          (port_exists-Guarded redis host laws quiet "admin_status" name v c name db)
          (λ u.
            Ends-bind (λ u. Holds _) _ _ (pause-Guarded redis host _ at_status 1000)
              (λ u.
                Ends-bind (λ u. Holds _) _ _
                  (open_db-Guarded redis host _ at_status "STATE_DB"
                    "failed to connect to STATE_DB: %v")
                  (λ d.
                    Ends-bind (λ u. Holds _) _ _
                      (check_state-Guarded redis host _ at_status c d name current)
                      (λ u.
                        Ends-bind (λ u. Holds _) _ _
                          (open_db-Guarded redis host _ at_status "APPL_DB"
                            "failed to connect to APPL_DB: %v")
                          (λ a.
                            Ends-bind (λ u. Holds _) _ _
                              (attempt-Guarded redis host _ at_status
                                (redis.hgetall a (appl_key name))
                                (at_status.hgetall_keeps a (appl_key name)))
                              (λ r.
                                Ends-bind (λ u. Holds _) _ _
                                  (port_alias-Guarded redis host _ at_status c name)
                                  (λ alias.
                                    Ends-return (admin_reply iface name (readable r) alias)
                                      (λ s p. (p, refl, refl)))))))))

    keep_or_undo-Guarded :
        (c : Client) (current : Text) (r : Result Status (Unit {0}))
        → Ends
            (Post (λ u. Holds (AdminStatus name v)) (OtherError {S = State W Client}) r)
            (keep_or_undo redis host c name current r)
            (λ u. Holds (AdminStatus name v))
            OtherError
    unfolding keep_or_undo
    keep_or_undo-Guarded c current (ok u) = Ends-return tt (λ s p. p)
    keep_or_undo-Guarded c current (err status) =
        Ends-bind (λ a s. status.code ≢ not_found)
          (attempt (set_field redis host c name "admin_status" current)) _
          (record { at = λ s p. p }) (λ a. Ends-fail status (λ s p. p))

    write_admin-Guarded :
        (c : Client) (current : Text)
        → laws.database c ≡ 4
        → Ends
            (λ s. Unit {0})
            (write_admin redis host c name current v)
            (λ u. Holds (AdminStatus name v))
            OtherError
    unfolding write_admin
    write_admin-Guarded c current db =
        Ends-bind (λ u. Holds _) _ _
          (set_field-Stored redis host laws quiet "admin_status" name v c
            "failed to set admin status: %v" db)
          (λ u.
            Ends-bind _ _ _ (Ends-attempt _ (save_config-Guarded redis host _ at_status))
              (keep_or_undo-Guarded c current))

module _ {W Client : Type 0} (redis : Redis W Client) (host : Host W Client) (laws : Laws redis)
    (host_laws : HostLaws host laws.database) (quiet : HostIsQuiet redis host laws) where
  -- What a reply of SetInterfaceAdminStatus says of CONFIG_DB.
  pub record Replied (request : Option Interface) (reply : Interface) (s : State W Client)
      : Type 0 where
    pub iface : Interface
    pub name : Text
    pub resolved : resolve request ≡ ok (iface, name)
    pub stored : AdminStatus redis host laws name iface.admin_status s.world
    pub shown : reply.admin_status ≡ iface.admin_status
    pub shown_name : reply.native_name ≡ name

  finish_admin-Replied :
      (request : Option Interface) (p : Interface × Text) (c : Client) (current : Text)
      → resolve request ≡ ok p
      → laws.database c ≡ 4
      → Ends
          (Holds (AdminStatus redis host laws p.1 p.0.admin_status))
          (finish_admin redis host c p.0 p.1 current)
          (Replied request)
          OtherError
  finish_admin-Replied request p c current e db =
      Ends-weaken _ _ _ _ _
        (λ reply s q. record {
          iface = p.0;
          name = p.1;
          resolved = e;
          stored = q.0;
          shown = q.1;
          shown_name = q.2;
        })
        (λ st s q. q)
        (finish_admin-Guarded redis host laws quiet p.1 p.0.admin_status c p.0 current db)

  set_interface_admin_status_lem :
      (request : Option Interface)
      → Ends
          (λ s. PoolIsValid host laws.database s.client_pool)
          (set_interface_admin_status redis host request)
          (Replied request)
          OtherError
  unfolding set_interface_admin_status
  set_interface_admin_status_lem request =
      Ends-bind (Resolved redis host laws host_laws request) _ _
        (Ends-lift _ (λ p s e q. (e, q)) (λ st s e q. resolve-Other request st e))
        (λ p.
          Ends-bind (λ c s. (resolve request ≡ ok p) × (laws.database c ≡ 4)) _ _
            (opened redis host laws host_laws request p)
            (λ c.
              Ends-bind (λ fs s. (resolve request ≡ ok p) × (laws.database c ≡ 4)) _ _
                (current-Given redis host laws host_laws "failed to get current admin status: %v"
                  request p c)
                (λ fs. Ends-given _ (λ g.
                  Ends-bind (λ u. Holds (AdminStatus redis host laws p.1 p.0.admin_status)) _ _
                    (write_admin-Guarded redis host laws quiet p.1 p.0.admin_status c
                      (field (codes "admin_status") fs) g.1)
                    (λ u.
                      finish_admin-Replied request p c (field (codes "admin_status") fs) g.0
                        g.1)))))

  -- In an agent whose pool is valid, when SetInterfaceAdminStatus returns an interface, CONFIG_DB
  -- holds the requested admin status of the port that the request resolves to, and the reply has
  -- the port's native name and that status. The host's calls and the reads of Redis are taken to
  -- leave what Redis holds alone.
  pub admin_status_stored :
      (request : Option Interface) (s : State W Client) {reply : Interface}
      → PoolIsValid host laws.database s.client_pool
      → (set_interface_admin_status redis host request s).0 ≡ ok reply
      → Replied request reply (set_interface_admin_status redis host request s).1
  admin_status_stored request s p e = Ends-ok _ s (set_interface_admin_status_lem request) p e

  -- In an agent whose pool is valid SetInterfaceAdminStatus never fails with NOT_FOUND, whether
  -- the port existed or not: the field is written before the port is looked for. The host's calls
  -- and the reads of Redis are taken to leave what Redis holds alone.
  pub never_not_found :
      (request : Option Interface) (s : State W Client) {status : Status}
      → PoolIsValid host laws.database s.client_pool
      → (set_interface_admin_status redis host request s).0 ≡ err status
      → status.code ≢ not_found
  never_not_found request s p e = Ends-err _ s (set_interface_admin_status_lem request) p e
