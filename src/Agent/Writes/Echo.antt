-- ===== src/Agent/Writes/Echo.antt =====
-- The admin status in the reply of SetInterfaceAdminStatus.
use sonic_operator.Base.{
  ◌≡◌, refl, subst, arith, Text, some, Result, Result-cases, inl, inr, ok, err, Exec, codes, field,
  attempt, or_fail,
}
use sonic_operator.Base.Hoare.{Ends, Post, Ends-return, Ends-bind, Ends-lift, Ends-ok, Ends-given}
use sonic_operator.Redis.{Redis}
use sonic_operator.Types.{Status, Interface}
use sonic_operator.Names.{to_native}
use sonic_operator.Agent.Host.{Host, State, on_world}
use sonic_operator.Agent.Reads.{check_name, resolve, open_db, port_key, appl_key, port_alias}
use sonic_operator.Agent.Writes.{
  set_interface_admin_status, write_admin, finish_admin, check_state, pause, port_exists,
  admin_reply, readable, key_check_failed,
}

module _ {S A : Type 0} where
  done : (r : Result Status A) (s : S) → Post (λ a t. Unit {0}) (λ e t. Unit {0}) r s
  done (ok a) s = tt
  done (err e) s = tt

  -- A call of which nothing is asked.
  any : (m : Exec S Status A) → Ends (λ s. Unit {0}) m (λ a s. Unit {0}) (λ e s. Unit {0})
  any m = record { at = λ s p. done (m s).0 (m s).1 }

-- A request resolves to itself.
pub resolve_same :
    (iface : Interface) (p : Interface × Text) → resolve (some iface) ≡ ok p → p.0 ≡ iface
unfolding resolve check_name
resolve_same iface p e = elim (Result-cases (to_native iface.name)) [
  | inl (x, h) ↦ ground (arith, h, e)
  | inr (n, h) ↦ ground (arith, h, e)
]

module _ {W Client : Type 0} (redis : Redis W Client) (host : Host W Client) where
  finish_admin-Echo :
      (c : Client) (iface : Interface) (name current : Text)
      → Ends
          (λ s. Unit {0})
          (finish_admin redis host c iface name current)
          (λ reply s. reply.admin_status ≡ iface.admin_status)
          (λ e s. Unit {0})
  unfolding finish_admin admin_reply
  finish_admin-Echo c iface name current =
      Ends-bind (λ u s. Unit {0}) _ _ (any (port_exists redis host c name name))
        (λ u.
          Ends-bind (λ u s. Unit {0}) _ _ (any (pause redis host 1000))
            (λ u.
              Ends-bind (λ u s. Unit {0}) _ _
                (any (open_db redis host "STATE_DB" "failed to connect to STATE_DB: %v"))
                (λ d.
                  Ends-bind (λ u s. Unit {0}) _ _ (any (check_state redis host c d name current))
                    (λ u.
                      Ends-bind (λ u s. Unit {0}) _ _
                        (any (open_db redis host "APPL_DB" "failed to connect to APPL_DB: %v"))
                        (λ a.
                          Ends-bind (λ u s. Unit {0}) _ _
                            (any (attempt (on_world (redis.hgetall a (appl_key name)))))
                            (λ r.
                              Ends-bind (λ u s. Unit {0}) _ _ (any (port_alias redis host c name))
                                (λ alias.
                                  Ends-return (admin_reply iface name (readable r) alias)
                                    (λ s p. refl))))))))

  finish_admin-Asked :
      (c : Client) (iface asked : Interface) (name current : Text)
      → iface ≡ asked
      → Ends
          (λ s. Unit {0})
          (finish_admin redis host c iface name current)
          (λ reply s. reply.admin_status ≡ asked.admin_status)
          (λ e s. Unit {0})
  finish_admin-Asked c iface asked name current e =
      subst
        (λ i.
          Ends (λ s. Unit {0}) (finish_admin redis host c iface name current)
            (λ reply s. reply.admin_status ≡ i.admin_status) (λ e s. Unit {0}))
        e (finish_admin-Echo c iface name current)

  echoed :
      (iface : Interface)
      → Ends
          (λ s. Unit {0})
          (set_interface_admin_status redis host (some iface))
          (λ reply s. reply.admin_status ≡ iface.admin_status)
          (λ e s. Unit {0})
  unfolding set_interface_admin_status
  echoed iface =
      Ends-bind (λ p s. resolve (some iface) ≡ ok p) _ _
        (Ends-lift (resolve (some iface)) (λ p s e q. e) (λ st s e q. tt))
        (λ p. Ends-given _ (λ e.
          Ends-bind (λ u s. Unit {0}) _ _
            (any (open_db redis host "CONFIG_DB" "failed to connect to CONFIG_DB: %v"))
            (λ c.
              Ends-bind (λ u s. Unit {0}) _ _
                (any (
                  or_fail (key_check_failed "failed to get current admin status: %v")
                    (on_world (redis.hgetall c (port_key p.1)))))
                (λ fields.
                  Ends-bind (λ u s. Unit {0}) _ _
                    (any (
                      write_admin redis host c p.1 (field (codes "admin_status") fields)
                        p.0.admin_status))
                    (λ u.
                      finish_admin-Asked c p.0 iface p.1 (field (codes "admin_status") fields)
                        (resolve_same iface p e))))))

  pub admin_status_echoed :
      (iface : Interface) (s : State W Client) (reply : Interface)
      → (set_interface_admin_status redis host (some iface) s).0 ≡ ok reply
      → reply.admin_status ≡ iface.admin_status
  admin_status_echoed iface s reply e =
      Ends-ok (set_interface_admin_status redis host (some iface)) s (echoed iface) tt e
