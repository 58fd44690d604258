-- ===== src/Agent/Listing/Coded.antt =====
-- The codes of the errors of ListInterfaces.
use sonic_operator.Base.{Text, codes, List, [], ◌∷◌, ◌++◌, Option, none, some, str, ok, err, Exec}
use sonic_operator.Redis.{Redis}
use sonic_operator.Types.{Status, Interface}
use sonic_operator.Names.{to_abstract, scan_error}
use sonic_operator.Agent.Host.{Host, State, on_world, bad}
use sonic_operator.Agent.Coded.{
  Coded, bad_code, Coded-return, Coded-fail, Coded-lift, Coded-attempt, Coded-or_fail, Coded-bind,
}
use sonic_operator.Agent.Reads.{state_key, appl_key}
use sonic_operator.Agent.Reads.Coded.{
  converted-Coded, open_db-Coded, link_mac-Coded, port_alias-Coded,
}
use sonic_operator.Agent.Listing.{
  scan_name, name_of_key, fields_or_none, interface_listed, read_interface, interfaces_loop,
  list_interfaces,
}

module _ {W Client : Type 0} (redis : Redis W Client) (host : Host W Client) where
  scanned :
      (key : Text) (o : Option Text)
      → Coded {S = State W Client} {A = Text} (elim o as (λ o. Exec (State W Client) Status Text) [
        | none ↦ (λ s. (
          err (bad "failed to parse interface name from key %s: %v" (str key ∷ []) scan_error),
          s,
        ))
        | some name ↦ (λ s. (ok name, s))
      ])
  scanned key none =
      Coded-fail _
        (bad_code "failed to parse interface name from key %s: %v" (str key ∷ []) scan_error)
  scanned key (some name) = Coded-return name

  name_of_key-Coded : (key : Text) → Coded (name_of_key redis host key)
  unfolding name_of_key
  name_of_key-Coded key = scanned key (scan_name (codes "PORT|") key)

  read_interface-Coded : (c d a : Client) (key : Text) → Coded (read_interface redis host c d a key)
  unfolding read_interface
  read_interface-Coded c d a key = Coded-bind _ _ (name_of_key-Coded key) (λ name.
      Coded-bind _ _ (Coded-attempt (on_world (redis.hgetall d (state_key name)))) (λ state_fields.
        Coded-bind _ _
          (Coded-or_fail (bad "failed to get state info for interface %s: %v" (str name ∷ []))
            (on_world (redis.hgetall a (appl_key name)))
            (bad_code "failed to get state info for interface %s: %v" (str name ∷ [])))
          (λ appl_fields. Coded-bind _ _ (link_mac-Coded redis host name) (λ mac.
            Coded-bind _ _
              (Coded-lift _ (
                converted-Coded (λ n. n) "failed to convert native name to abstract name: %v"
                  (to_abstract name)))
              (λ abstract. Coded-bind _ _ (port_alias-Coded redis host c name) (λ alias.
                Coded-return (
                  interface_listed name abstract alias mac appl_fields
                    (fields_or_none redis host state_fields))))))))

  interfaces_loop-Coded :
      (c d a : Client) (keys : List Text) (items : List Interface)
      → Coded (interfaces_loop redis host c d a keys items)
  unfolding interfaces_loop
  interfaces_loop-Coded c d a [] items = Coded-return items
  interfaces_loop-Coded c d a (key ∷ keys) items =
      Coded-bind _ _ (read_interface-Coded c d a key)
        (λ iface. interfaces_loop-Coded c d a keys (items ++ iface ∷ []))

  -- ListInterfaces reports no error with code 0.
  pub list_interfaces-Coded : Coded (list_interfaces redis host)
  unfolding list_interfaces
  list_interfaces-Coded =
      Coded-bind _ _ (open_db-Coded redis host "CONFIG_DB" "failed to connect to CONFIG_DB: %v")
        (λ c.
          Coded-bind _ _ (open_db-Coded redis host "STATE_DB" "failed to connect to STATE_DB: %v")
            (λ d.
              Coded-bind _ _ (open_db-Coded redis host "APPL_DB" "failed to connect to APPL_DB: %v")
                (λ a.
                  Coded-bind _ _
                    (Coded-or_fail _ (on_world (redis.keys c (codes "PORT|*")))
                      (bad_code "failed to obtain iface keys: %v" []))
                    (λ keys.
                      Coded-bind _ _ (interfaces_loop-Coded c d a keys [])
                        (λ items. record { at = λ s. tt })))))
