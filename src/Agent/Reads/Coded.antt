-- ===== src/Agent/Reads/Coded.antt =====
-- GetInterface and GetInterfaceNeighbor.
use sonic_operator.Base.{
  ◌≢◌, ℕ, arith, ◌==◌, Text, String, codes, Option, none, some, List, [], ◌∷◌, ◌++◌, Error, Result,
  Result-cases, inl, inr, ◌≡◌, Exec, ok, err, is_empty, ◌||◌, errorf, str, return, fail, Fields,
  field,
}
use sonic_operator.Redis.{Redis}
use sonic_operator.Types.{
  Status, Interface, new_error_status, not_found, bad_request, redis_key_check_fail,
}
use sonic_operator.Agent.Host.{Host, State, on_world, bad}
use sonic_operator.Agent.Pool.{connect}
use sonic_operator.Agent.Coded.{
  CodedResult, Coded, bad_code, code_of, coded_errors, Coded-return, Coded-fail, Coded-lift,
  Coded-attempt, Coded-or_fail, Coded-bind, Coded-reject,
}
use sonic_operator.Names.{to_native, to_abstract}
use sonic_operator.Agent.Reads.{
  check_name, resolve, open_db, link_mac, mac_string, present_alias, port_alias, neighbor_handle,
  interface_reply, neighbor_reply, or_default, get_interface, get_interface_neighbor, port_key,
  state_key, appl_key,
}

pub converted-Coded :
    {A B : Type 0} (f : A → B) (format : String) (r : Result Error A)
    → CodedResult (elim r [ ok a ↦ ok (f a) | err e ↦ err (bad format [] e) ])
converted-Coded f format (ok a) = tt
converted-Coded f format (err e) = bad_code format [] e

-- No request is refused with code 0.
check_name_code : (iface : Interface) (st : Status) → check_name iface ≡ err st → st.code ≢ 0
unfolding check_name new_error_status
check_name_code iface st e = elim (Result-cases (to_native iface.name)) [
  | inl (x, h) ↦ ground (arith, h, e)
  | inr (n, h) ↦ ground (arith, h, e)
]

pub resolve-Coded : (request : Option Interface) → CodedResult (resolve request)
unfolding resolve
resolve-Coded none = code_of bad_request (errorf "interface name cannot be empty" []) (ground arith)
resolve-Coded (some iface) = coded_errors (check_name iface) (check_name_code iface)

abbrev lldp_key : Text → Text
lldp_key name = codes "LLDP_ENTRY_TABLE:" ++ name

module _ {W Client : Type 0} (redis : Redis W Client) (host : Host W Client) where
  pub open_db-Coded : (name format : String) → Coded (open_db redis host name format)
  unfolding open_db
  open_db-Coded name format =
      Coded-or_fail (bad format []) (connect host (codes name)) (bad_code format [])

  mac_or_none :
      (name : Text) (mac : Option (List ℕ))
      → Coded {S = State W Client} {A = Text}
          (elim mac as (λ k. Exec (State W Client) Status Text) [
            | none ↦ fail (
                new_error_status not_found
                  (errorf "no MAC address found for interface %s" (str name ∷ [])))
            | some bytes ↦ return (mac_string bytes)
          ])
  mac_or_none name none = Coded-fail _ (code_of not_found _ (ground arith))
  mac_or_none name (some bytes) = record { at = λ s. tt }

  pub link_mac-Coded : (name : Text) → Coded (link_mac redis host name)
  unfolding link_mac
  link_mac-Coded name =
      Coded-bind _ _
        (Coded-or_fail _ (on_world (host.link_by_name name))
          (λ e. code_of not_found _ (ground arith)))
        (mac_or_none name)

  present-Coded : (alias : Option Text) → Coded (present_alias redis host alias)
  unfolding present_alias
  present-Coded none = Coded-fail _ (code_of redis_key_check_fail _ (ground arith))
  present-Coded (some alias) = Coded-return alias

  pub port_alias-Coded : (c : Client) (name : Text) → Coded (port_alias redis host c name)
  unfolding port_alias
  port_alias-Coded c name =
      Coded-bind _ _
        (Coded-or_fail _ (on_world (redis.hget c (port_key name) (codes "alias")))
          (λ e. code_of redis_key_check_fail _ (ground arith)))
        (present-Coded)

  -- GetInterface reports no error with code 0.
  pub get_interface-Coded : (request : Option Interface) → Coded (get_interface redis host request)
  unfolding get_interface
  get_interface-Coded request = Coded-bind _ _ (Coded-lift _ (resolve-Coded request)) (λ p.
      Coded-bind _ _ (open_db-Coded "CONFIG_DB" "failed to connect to CONFIG_DB: %v") (λ c.
        Coded-bind _ _ (open_db-Coded "STATE_DB" "failed to connect to STATE_DB: %v") (λ d.
          Coded-bind _ _
            (Coded-or_fail _ (on_world (redis.exists c (port_key p.1)))
              (bad_code "failed to check interface existence: %v" []))
            (λ n.
              Coded-bind _ _ (Coded-reject (n == 0) _ (code_of not_found _ (ground arith))) (λ u.
                Coded-bind _ _ (Coded-attempt (on_world (redis.hgetall d (state_key p.1))))
                  (λ state_fields.
                    Coded-bind _ _ (open_db-Coded "APPL_DB" "failed to connect to APPL_DB: %v")
                      (λ a.
                        Coded-bind _ _ (Coded-attempt (on_world (redis.hgetall a (appl_key p.1))))
                          (λ appl_fields. Coded-bind _ _ (link_mac-Coded p.1) (λ mac.
                            Coded-bind _ _ (port_alias-Coded c p.1) (λ alias.
                              Coded-bind _ _
                                (Coded-lift _ (
                                  converted-Coded (λ name. name)
                                    "failed to convert native name to abstract name: %v"
                                    (to_abstract p.1)))
                                (λ n. Coded-return (
                                  interface_reply n p.1 alias mac (or_default appl_fields)
                                    (or_default state_fields)))))))))))))

  neighbor_handle-Coded : (fields : Fields) → CodedResult (neighbor_handle redis host fields)
  unfolding neighbor_handle
  neighbor_handle-Coded fields = coded_errors _ (λ st e.
      elim (Result-cases (to_abstract (field (codes "lldp_rem_port_desc") fields))) [
        | inl (x, h) ↦
            ground (arith, h, e, bad_code "failed to convert native name to abstract name: %v" [] x)
        | inr (n, h) ↦ ground (arith, h, e)
      ])

  -- GetInterfaceNeighbor reports no error with code 0.
  pub get_interface_neighbor-Coded :
      (request : Option Interface) → Coded (get_interface_neighbor redis host request)
  unfolding get_interface_neighbor
  get_interface_neighbor-Coded request = Coded-bind _ _ (Coded-lift _ (resolve-Coded request)) (λ p.
      Coded-bind _ _ (open_db-Coded "APPL_DB" "failed to connect to APPL_DB: %v") (λ a.
        Coded-bind _ _
          (Coded-or_fail _ (on_world (redis.exists a (lldp_key p.1)))
            (bad_code "failed to check LLDP entry existence: %v" []))
          (λ n. Coded-bind _ _ (Coded-reject (n == 0) _ (code_of not_found _ (ground arith))) (λ u.
            Coded-bind _ _
              (Coded-or_fail _ (on_world (redis.hgetall a (lldp_key p.1)))
                (bad_code "failed to get LLDP entry: %v" []))
              (λ fields. Coded-bind _ _ (Coded-lift _ (neighbor_handle-Coded fields)) (λ handle.
                Coded-bind _ _
                  (Coded-reject
                    (is_empty (field (codes "lldp_rem_chassis_id") fields)
                      || is_empty (field (codes "lldp_rem_sys_name") fields))
                    _ (code_of not_found _ (ground arith)))
                  (λ u. Coded-return (
                    neighbor_reply p.1 (field (codes "lldp_rem_chassis_id") fields)
                      (field (codes "lldp_rem_sys_name") fields) handle))))))))
