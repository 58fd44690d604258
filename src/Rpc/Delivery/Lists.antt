-- ===== src/Rpc/Delivery/Lists.antt =====
-- The operations of the client that do not look at the code of the status.
use sonic_operator.Base.{
  ◌≡◌, refl, ap, subst, sym, inl, inr, Result-cases, Text, List, [], ◌∷◌, map, Error, Result, ok,
  err, Exec, return, continue, map_err, or_fail, ◌>>=◌,
}
use sonic_operator.Base.Hoare.{Post}
use sonic_operator.Types.{Status, SwitchDevice, Interface, InterfaceList, Kind, zero_status}
use sonic_operator.Rpc.Messages.{SwitchAgent, Service}
use sonic_operator.Rpc.Server.{
  answer, to_interface, device_response, interfaces_response, refused, refused_as, success,
}
use sonic_operator.Rpc.Server
use sonic_operator.Rpc.Client.{
  Failure, nothing, of_interface, of_proto_status, device_of, interfaces_of, connected,
}
use sonic_operator.Rpc.Client
use sonic_operator.Rpc.Client.Connection.{Meets, connected-Meets}
use sonic_operator.Rpc.Delivery.{Delivered, Delivers, Connects, Lost}

-- An interface of a list, as it arrives.
abbrev pub received : Interface → Interface
received iface = record iface { kind = Kind.interface_kind; status = zero_status }

arrive : (items : List Interface) → map of_interface (map to_interface items) ≡ map received items
unfolding of_interface to_interface
arrive [] = refl
arrive (iface ∷ items) = rw (arrive items) refl

-- What the client's list is, for the agent's result.
abbrev pub Listed : Result Status InterfaceList → InterfaceList → Type 0
Listed (ok list) got = (got.items ≡ map received list.items) × (got.status.code ≡ 0)
Listed (err status) got = (got.items ≡ []) × (got.status.code ≡ status.code)

-- What the client's device is.
abbrev pub Described : Result Status SwitchDevice → SwitchDevice → Type 0
Described (ok device) got =
    (got.local_mac_address ≡ device.local_mac_address)
    × (got.hwsku ≡ device.hwsku)
    × (got.sonic_os_version ≡ device.sonic_os_version)
    × (got.asic_type ≡ device.asic_type)
    × (got.readiness ≡ device.readiness)
    × (got.status.code ≡ 0)
Described (err status) got =
    (got.local_mac_address ≡ [])
    × (got.hwsku ≡ [])
    × (got.sonic_os_version ≡ [])
    × (got.asic_type ≡ [])
    × (got.readiness ≡ 0)
    × (got.status.code ≡ status.code)

listed : (r : Result Status InterfaceList) → Listed r (interfaces_of (interfaces_response r))
unfolding interfaces_of interfaces_response of_proto_status refused_as
listed (ok list) = (arrive list.items, refl)
listed (err status) = (refl, refl)

described : (r : Result Status SwitchDevice) → Described r (device_of (device_response r))
unfolding device_of device_response of_proto_status refused
described (ok device) = (refl, refl, refl, refl, refl, refl)
described (err status) = (refl, refl, refl, refl, refl, refl)

module _ {N S : Type 0} (state : N → S) (new_client : Text → Exec N Error (Unit {0}))
    (close : Exec N Error (Unit {0})) (service : Service N) (agent : SwitchAgent S) (address : Text)
    (conn : Connects state new_client close) (deliver : Delivers state service agent) where
  -- A call that decodes whatever arrives.
  module _ {R B A : Type 0} (op : Exec S Status B) (respond : Result Status B → R) (decode : R → A)
      (call : Exec N Error R) (delivered : Delivered state call (answer respond op)) where
    Seen : S → A → S → Type 0
    Seen s a s' = (a ≡ decode (respond (op s).0)) × (s' ≡ (op s).1)

    abbrev read : Exec N (Failure A) A
    read = or_fail nothing call >>= λ resp. return (decode resp)

    read-Seen :
        (n : N) → Meets state (Seen (state n)) (λ f. (e : Error) × ((call n).0 ≡ err e)) (read n)
    unfolding Seen answer
    read-Seen n =
        elim (Result-cases (call n).0)
          as (λ c.
            Meets state (Seen (state n)) (λ f. (e : Error) × ((call n).0 ≡ err e)) (read n)) [
              | inl (e, x) ↦
                  subst
                    (λ r.
                      Meets state (Seen (state n)) (λ f. (e : Error) × ((call n).0 ≡ err e))
                        (continue (map_err nothing r) (λ resp. return (decode resp)) (call n).1))
                    (sym x) (e, x)
              | inr (resp, x) ↦
                  subst
                    (λ r.
                      Meets state (Seen (state n)) (λ f. (e : Error) × ((call n).0 ≡ err e))
                        (continue (map_err nothing r) (λ resp. return (decode resp)) (call n).1))
                    (sym x) (ap decode (delivered n resp x).0, (delivered n resp x).1)
            ]

    weakened :
        (n n' : N)
        → state n' ≡ state n
        → (((e : Error) × ((call n').0 ≡ err e)) → Lost new_client address call n)
        → (r : Result (Failure A) A × N)
        → Meets state (Seen (state n')) (λ f. (e : Error) × ((call n').0 ≡ err e)) r
        → Meets state (Seen (state n)) (λ f. Lost new_client address call n) r
    weakened n n' h lost (ok a, m) q = subst (λ s. Seen s a (state m)) h q
    weakened n n' h lost (err f, m) q = lost q

    seen :
        (n : N)
        → Meets state
            (Seen (state n))
            (λ f. Lost new_client address call n)
            (connected new_client close service address read n)
    seen n =
        connected-Meets state (Seen (state n)) (λ f. Lost new_client address call n) new_client
          close service address conn read n (λ e x e'. inl (e, x))
          (λ h.
            weakened n (new_client address n).1 h (λ x. inr x) _
              (read-Seen (new_client address n).1))

    -- What the value that is read says of the agent's result.
    pub report :
        (Says : Result Status B → A → Type 0)
        → ((r : Result Status B) → Says r (decode (respond r)))
        → (n : N)
        → Meets state
            (λ a s. Says (op (state n)).0 a × (s ≡ (op (state n)).1))
            (λ f. Lost new_client address call n)
            (connected new_client close service address read n)
    unfolding Seen
    report Says says n = reported (connected new_client close service address read n) (seen n)
      where
        reported :
            (r : Result (Failure A) A × N)
            → Meets state (Seen (state n)) (λ f. Lost new_client address call n) r
            → Meets state
                (λ a s. Says (op (state n)).0 a × (s ≡ (op (state n)).1))
                (λ f. Lost new_client address call n)
                r
        reported (ok a, m) q =
            (subst (Says (op (state n)).0) (sym q.0) (says (op (state n)).0), q.1)
        reported (err f, m) q = q

  -- Over a connection that delivers requests, ListInterfaces of the client fails only if no connection
  -- could be made or the request failed. Else it returns a list without an error whether the agent
  -- has failed or not: a list of the agent's interfaces in their order, with kind and status reset,
  -- or, when the agent has failed, an empty list of which only the status has the agent's code.
  pub list_interfaces-Listed :
      (n : N)
      → Post
          (λ got n'.
            Listed (agent.list_interfaces (state n)).0 got
            × (state n' ≡ (agent.list_interfaces (state n)).1))
          (λ f n'. Lost new_client address service.list_interfaces n)
          (Client.list_interfaces new_client close service address n).0
          (Client.list_interfaces new_client close service address n).1
  unfolding Client.list_interfaces Server.list_interfaces
  list_interfaces-Listed n =
      report agent.list_interfaces interfaces_response interfaces_of service.list_interfaces
        deliver.interfaces_delivered Listed listed n

  -- The list that is returned.
  pub listed_if_ok :
      (n : N) {got : InterfaceList}
      → (Client.list_interfaces new_client close service address n).0 ≡ ok got
      → Listed (agent.list_interfaces (state n)).0 got
  listed_if_ok n e =
      (subst
        (λ r.
          Post
            (λ got n'.
              Listed (agent.list_interfaces (state n)).0 got
              × (state n' ≡ (agent.list_interfaces (state n)).1))
            (λ f n'. Lost new_client address service.list_interfaces n) r
            (Client.list_interfaces new_client close service address n).1)
        e (list_interfaces-Listed n)).0

  -- Over a connection that delivers requests, GetDeviceInfo of the client fails only if no connection
  -- could be made or the request failed. Else it returns a device without an error whether the agent
  -- has failed or not: with the agent's address, hardware, version, ASIC and readiness, or, when the
  -- agent has failed, with these empty and only the agent's code in the status.
  pub get_device_info-Described :
      (n : N)
      → Post
          (λ got n'.
            Described (agent.get_device_info (state n)).0 got
            × (state n' ≡ (agent.get_device_info (state n)).1))
          (λ f n'. Lost new_client address service.get_device_info n)
          (Client.get_device_info new_client close service address n).0
          (Client.get_device_info new_client close service address n).1
  unfolding Client.get_device_info Server.get_device_info
  get_device_info-Described n =
      report agent.get_device_info device_response device_of service.get_device_info
        deliver.device_delivered Described described n
