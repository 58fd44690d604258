-- ===== src/Rpc/Delivery/Refinement.antt =====
-- Each operation of the client refines the operation of the agent.
use sonic_operator.Base.{
  ◌≡◌, inl, inr, refl, err, subst, sym, Text, String, some, Error, Result, Result-cases, false, ok,
  Exec, lift, continue, ◌>>=◌,
}
use sonic_operator.Base.Hoare.{Post}
use sonic_operator.Types.{Status, Interface}
use sonic_operator.Agent.Coded.{Coded}
use sonic_operator.Names.{to_native}
use sonic_operator.Rpc.Messages.{
  PbStatus, SwitchAgent, Service, AdminStatusRequest, AliasNameRequest,
}
use sonic_operator.Rpc.Server.{
  answer, admin_interface, alias_interface, named_interface, admin_response, alias_response,
  interface_response, neighbor_response, save_response,
}
use sonic_operator.Rpc.Server
use sonic_operator.Rpc.Client.{Failure, nothing, status_interface, status_neighbor, connected}
use sonic_operator.Rpc.Client
use sonic_operator.Rpc.Client.Connection.{connected-Meets}
use sonic_operator.Rpc.Delivery.{
  AgentIsCoded, Delivers, Connects, Protocol, Granted, Denied, Lost, Delivered, Answers, exchange,
  exchange-Answers,
}
use sonic_operator.Rpc.Delivery.Protocols.{
  as_is, wrapped, refused_interface, refused_neighbor, show_admin, show_alias, show_interface,
  show_neighbor, admin_protocol, alias_protocol, interface_protocol, neighbor_protocol,
  save_protocol,
}

-- The requests that the client makes of its argument.
abbrev pub admin_request : Interface → AdminStatusRequest
admin_request iface = record { interface_name = iface.name; admin_status = iface.admin_status }

abbrev pub alias_request : Interface → AliasNameRequest
alias_request iface = record { interface_name = iface.name; alias_name = iface.alias_name }

-- A call that does not panic, by what its failures say.
pub calm_if :
    {N A : Type 0} (Q : A → N → Type 0) (X : Failure A → Type 0) (r : Result (Failure A) A × N)
    → ((f : Failure A) → X f → f.panics ≡ false)
    → Post Q (λ f n. X f) r.0 r.1
    → Post (λ a (u : Unit {0}). Unit {0}) (λ f u. f.panics ≡ false) r.0 tt
calm_if Q X (ok a, n) k h = tt
calm_if Q X (err f, n) k h = k f h

module _ {N S : Type 0} (state : N → S) (new_client : Text → Exec N Error (Unit {0}))
    (close : Exec N Error (Unit {0})) (service : Service N) (agent : SwitchAgent S) (address : Text)
    (conn : Connects state new_client close) (deliver : Delivers state service agent)
    (coded : AgentIsCoded agent) where
  -- A call of the client that starts at `n` refines an operation of the agent at the state there: it
  -- succeeds only if that did, with what `show` makes of its reply, and the agent's state is the one
  -- after it; it fails without a panic, with a value that shows how the agent refused, unless the
  -- request was lost.
  abbrev pub Refines :
      {R A B : Type 0}
      → Exec S Status B
      → Exec N Error R
      → (B → A)
      → (Status → A)
      → (Status → PbStatus)
      → N
      → Result (Failure A) A × N
      → Type 0
  Refines op call show carry refusal n r =
      Post (λ a n'. Granted op (state n) show a (state n'))
        (λ f n'. Denied op (state n) (Lost new_client address call n) carry refusal f) r.0 r.1

  request-Refines :
      {R A B : Type 0} (p : Protocol R B A) (carry : Status → A) (format : String)
      (op : Exec S Status B) (call : Exec N Error R) (n : N)
      → Coded op
      → Delivered state call (answer p.respond op)
      → Refines op call p.show carry p.refusal n
          (connected new_client close service address (exchange p carry format state op call) n)
  unfolding nothing
  request-Refines p carry format op call n c d =
      connected-Meets state (Granted op (state n) p.show)
        (Denied op (state n) (Lost new_client address call n) carry p.refusal) new_client close
        service address conn (exchange p carry format state op call) n
        (λ e x e'. (refl, inl (e, x)))
        (λ h.
          subst
            (λ s.
              Answers p carry format state op (Lost new_client address call n) s
                (exchange p carry format state op call (new_client address n).1))
            h
            (exchange-Answers p carry format state op (Lost new_client address call n) call
              (new_client address n).1 (λ e x. inr (e, x)) c d))

  -- Over a connection that delivers requests to an agent whose errors never have code 0,
  -- SetInterfaceAdminStatus of the client returns an interface only if the agent's
  -- SetInterfaceAdminStatus succeeded on the interface that was named; it then has the name and the
  -- two states of that reply, an empty native name, alias and address, and the agent's state is the
  -- one after that one call. When it fails, it does not panic, and unless no connection could be made
  -- or the request failed, the agent refused, and the value beside the error has its code and message.
  pub set_admin-Refines :
      (iface : Interface) (n : N)
      → Refines
          (agent.set_interface_admin_status (some (admin_interface (admin_request iface))))
          (service.set_interface_admin_status (admin_request iface))
          (show_admin iface)
          refused_interface
          as_is
          n
          (Client.set_interface_admin_status new_client close service address iface n)
  unfolding Client.set_interface_admin_status admin_protocol status_interface status_neighbor
      Server.set_interface_admin_status
  set_admin-Refines iface n =
      request-Refines (admin_protocol iface) refused_interface
        "failed to set interface admin status: %s" _ _ n
        (coded.admin_coded (some (admin_interface (admin_request iface))))
        (deliver.admin_delivered (admin_request iface))

  pub set_alias-Refines :
      (iface : Interface) (n : N)
      → Refines
          (agent.set_interface_alias_name (some (alias_interface (alias_request iface))))
          (service.set_interface_alias_name (alias_request iface))
          (show_alias iface)
          refused_interface
          as_is
          n
          (Client.set_interface_alias_name new_client close service address iface n)
  unfolding Client.set_interface_alias_name alias_protocol status_interface status_neighbor
      Server.set_interface_alias_name
  set_alias-Refines iface n =
      request-Refines (alias_protocol iface) refused_interface
        "failed to set interface alias name: %s" _ _ n
        (coded.alias_coded (some (alias_interface (alias_request iface))))
        (deliver.alias_delivered (alias_request iface))

  -- Over a connection that delivers requests to an agent whose errors never have code 0,
  -- GetInterfaceNeighbor of the client returns a neighbor only if the agent found that one, with its
  -- address, system name and handle. When it fails, it does not panic, and unless no connection could
  -- be made or the request failed, the agent refused, and there is a value beside the error with the
  -- code of the refusal, so that a missing neighbor is told from a failure.
  pub get_neighbor-Refines :
      (iface : Interface) (n : N)
      → Refines
          (agent.get_interface_neighbor (some (named_interface iface.name)))
          (service.get_interface_neighbor iface.name)
          (show_neighbor iface.name)
          refused_neighbor
          (wrapped "failed to get interface neighbor: %v")
          n
          (Client.get_interface_neighbor new_client close service address iface n)
  unfolding Client.get_interface_neighbor neighbor_protocol status_interface status_neighbor
      Server.get_interface_neighbor
  get_neighbor-Refines iface n =
      request-Refines (neighbor_protocol iface.name) refused_neighbor
        "failed to get interface neighbor: %s" _ _ n
        (coded.neighbor_coded (some (named_interface iface.name)))
        (deliver.neighbor_delivered iface.name)

  pub save-Refines :
      (n : N)
      → Refines agent.save_config service.save_config
          (λ u. tt)
          (λ st. tt)
          (wrapped "failed to save config: %v")
          n
          (Client.save_config new_client close service address n)
  unfolding Client.save_config save_protocol Server.save_config Client.no_value
  save-Refines n =
      request-Refines save_protocol (λ st. tt) "failed to save config: %s" _ _ n coded.save_coded
        deliver.save_delivered

  -- Over a connection that delivers requests to an agent whose errors never have code 0,
  -- GetInterfaceByAbstractName, for a name that converts to a native one, returns an interface only
  -- if the agent's GetInterface found one for the native name, with all its names, states and its
  -- address. When it fails, it does not panic, and unless no connection could be made or the request
  -- failed, the agent refused, and the value beside the error has the code of the refusal.
  pub get_by_name-Refines :
      (iface : Interface) (native : Text) (n : N)
      → to_native iface.name ≡ ok native
      → Refines
          (agent.get_interface (some (named_interface native)))
          (service.get_interface native)
          show_interface
          refused_interface
          (wrapped "failed to get interface: %v")
          n
          (Client.get_interface_by_abstract_name new_client close service address iface n)
  unfolding Client.get_interface_by_abstract_name interface_protocol status_interface
      status_neighbor Server.get_interface Client.native_or_fail nothing
  get_by_name-Refines iface native n e =
      connected-Meets state (Granted op (state n) show_interface)
        (Denied op (state n) (Lost new_client address (service.get_interface native) n)
          refused_interface (wrapped "failed to get interface: %v"))
        new_client close service address conn body n (λ x y e'. (refl, inl (x, y)))
        (λ h.
          subst
            (λ s.
              Answers interface_protocol refused_interface "failed to get interface: %s" state op
                (Lost new_client address (service.get_interface native) n) s
                (body (new_client address n).1))
            h
            (subst
              (λ r.
                Answers interface_protocol refused_interface "failed to get interface: %s" state op
                  (Lost new_client address (service.get_interface native) n)
                  (state (new_client address n).1)
                  (continue (Client.native_or_fail new_client close service address r) request
                    (new_client address n).1))
              (sym e)
              (exchange-Answers interface_protocol refused_interface "failed to get interface: %s"
                state op (Lost new_client address (service.get_interface native) n)
                (service.get_interface native) (new_client address n).1 (λ x y. inr (x, y))
                (coded.interface_coded (some (named_interface native)))
                (deliver.interface_delivered native))))
    where
      op : Exec S Status Interface
      op = agent.get_interface (some (named_interface native))

      request : Text → Exec N (Failure Interface) Interface
      request name =
          exchange interface_protocol refused_interface "failed to get interface: %s" state op
            (service.get_interface name)

      body : Exec N (Failure Interface) Interface
      body =
          lift (Client.native_or_fail new_client close service address (to_native iface.name))
          >>= request

  lost_name :
      (iface : Interface) (n : N) (e : Error)
      → to_native iface.name ≡ err e
      → Post
          (λ a n'. Unit {0})
          (λ f n'. f.panics ≡ false)
          (Client.get_interface_by_abstract_name new_client close service address iface n).0
          (Client.get_interface_by_abstract_name new_client close service address iface n).1
  unfolding Client.get_interface_by_abstract_name Client.native_or_fail nothing interface_protocol
      status_interface
  lost_name iface n e x =
      connected-Meets state (λ a s. Unit {0}) (λ f. f.panics ≡ false) new_client close service
        address conn body n (λ y z e'. refl)
        (λ h.
          subst
            (λ r.
              Post (λ a n'. Unit {0}) (λ f n'. f.panics ≡ false)
                (continue (Client.native_or_fail new_client close service address r) request
                  (new_client address n).1).0
                (continue (Client.native_or_fail new_client close service address r) request
                  (new_client address n).1).1)
            (sym x) refl)
    where
      request : Text → Exec N (Failure Interface) Interface
      request name =
          exchange interface_protocol refused_interface "failed to get interface: %s" state
            (agent.get_interface (some iface)) (service.get_interface name)

      body : Exec N (Failure Interface) Interface
      body =
          lift (Client.native_or_fail new_client close service address (to_native iface.name))
          >>= request

  -- GetInterfaceByAbstractName does not panic, whatever the name.
  pub get_by_name-calm :
      (iface : Interface) (n : N)
      → Post
          (λ a (u : Unit {0}). Unit {0})
          (λ f u. f.panics ≡ false)
          (Client.get_interface_by_abstract_name new_client close service address iface n).0
          tt
  get_by_name-calm iface n = elim (Result-cases (to_native iface.name)) [
    | inl (e, x) ↦ calm_if _ _ _ (λ f h. h) (lost_name iface n e x)
    | inr (native, x) ↦ calm_if _ _ _ (λ f h. h.0) (get_by_name-Refines iface native n x)
  ]
