-- ===== src/Rpc/Delivery.antt =====
-- Requests through the client, the connection and the server: what a call of the client gives, as
-- the operation of the agent that it stands for.
pub mod Protocols
pub mod Refinement
pub mod Lists
pub mod EndToEnd
use sonic_operator.Base.{
  ◌≡◌, ◌≢◌, ◌⊎◌, refl, subst, sym, inl, inr, Result-cases, arith, ◌==◌, ==_iff, Text, String, Bool,
  true, false, if◌then◌else◌, ℕ, Option, none, some, Error, Result, ok, err, Exec, lift, or_fail,
  ◌>>=◌, map_err, continue,
}
use sonic_operator.Base.Hoare.{Post, Ends, Ends-bind, lift-Post}
use sonic_operator.Types.{
  Status, SwitchDevice, Interface, InterfaceNeighbor, InterfaceList, PortList,
}
use sonic_operator.Agent.Coded.{CodedResult, Coded}
use sonic_operator.Rpc.Messages.{
  PbStatus, AdminStatusRequest, AliasNameRequest, SwitchAgent, Service,
}
use sonic_operator.Rpc.Server.{Handler, answer, success}
use sonic_operator.Rpc.Server
use sonic_operator.Rpc.Client.{Failure, nothing, refuse, check_status, of_proto_status, connected}

-- No error of the agent has the code of success.
pub record AgentIsCoded {S : Type 0} (agent : SwitchAgent S) : Type 0 where
  pub admin_coded : (request : Option Interface) → Coded (agent.set_interface_admin_status request)
  pub alias_coded : (request : Option Interface) → Coded (agent.set_interface_alias_name request)
  pub interface_coded : (request : Option Interface) → Coded (agent.get_interface request)
  pub neighbor_coded : (request : Option Interface) → Coded (agent.get_interface_neighbor request)
  pub save_coded : Coded agent.save_config

-- What the rest of the world is to the agent: `state` is the agent's state.
module _ {N S : Type 0} (state : N → S) where
  -- A call that succeeds has run the handler once, and brings its response.
  abbrev pub Delivered : {B : Type 0} → Exec N Error B → Handler S B → Type 0
  Delivered {B} call handle =
      (n : N) (resp : B)
      → (call n).0 ≡ ok resp
      → (resp ≡ (handle (state n)).0) × (state (call n).1 ≡ (handle (state n)).1)

  pub record Delivers (service : Service N) (agent : SwitchAgent S) : Type 0 where
    pub device_delivered : Delivered service.get_device_info (Server.get_device_info agent)
    pub interfaces_delivered : Delivered service.list_interfaces (Server.list_interfaces agent)
    pub ports_delivered : Delivered service.list_ports (Server.list_ports agent)
    pub admin_delivered :
        (request : AdminStatusRequest)
        → Delivered
            (service.set_interface_admin_status request)
            (Server.set_interface_admin_status agent request)
    pub alias_delivered :
        (request : AliasNameRequest)
        → Delivered
            (service.set_interface_alias_name request)
            (Server.set_interface_alias_name agent request)
    pub interface_delivered :
        (name : Text) → Delivered (service.get_interface name) (Server.get_interface agent name)
    pub neighbor_delivered :
        (name : Text)
        → Delivered (service.get_interface_neighbor name) (Server.get_interface_neighbor agent name)
    pub save_delivered : Delivered service.save_config (Server.save_config agent)

  -- Making and closing a connection does not run the agent.
  pub record Connects (new_client : Text → Exec N Error (Unit {0}))
      (close : Exec N Error (Unit {0})) : Type 0 where
    pub new_client_keeps : (address : Text) (n : N) → state (new_client address n).1 ≡ state n
    pub close_keeps : (n : N) → state (close n).1 ≡ state n

-- No connection could be made at `n`, or the call over it failed.
abbrev pub Lost :
    {N R : Type 0} → (Text → Exec N Error (Unit {0})) → Text → Exec N Error R → N → Type 0
Lost new_client address call n =
    ((e : Error) × ((new_client address n).0 ≡ err e))
    ⊎ ((e : Error) × ((call (new_client address n).1).0 ≡ err e))

-- How the client reads a response to an operation of the agent that gives a `B`.
pub record Protocol (R B A : Type 0) : Type 0 where
  pub respond : Result Status B → R
  pub status : R → Option PbStatus
  pub decode : PbStatus → R → Result (Failure A) A
  pub show : B → A
  pub refusal : Status → PbStatus
  pub refusal_code : (st : Status) → (refusal st).code ≡ st.code
  pub refused_status : (st : Status) → status (respond (err st)) ≡ some (refusal st)
  pub granted : PbStatus
  pub granted_code : granted.code ≡ 0
  pub granted_status : (b : B) → status (respond (ok b)) ≡ some granted
  pub decoded : (b : B) → decode granted (respond (ok b)) ≡ ok (show b)

module _ {S B A : Type 0} (op : Exec S Status B) (s : S) where
  -- The agent's operation has succeeded at `s`, with what the client shows.
  pub record Granted (show : B → A) (a : A) (s' : S) : Type 0 where
    pub reply : B
    pub replied : (op s).0 ≡ ok reply
    pub shown : a ≡ show reply
    pub after : s' ≡ (op s).1

  pub record Denial (carry : Status → A) (refusal : Status → PbStatus) (a : A) : Type 0 where
    pub status : Status
    pub denied : (op s).0 ≡ err status
    pub shown :
        a ≡ carry (record { code = (refusal status).code; message = (refusal status).message })

  -- A failure with a value is the agent's own, and one without a value is a request that was lost.
  abbrev pub DeniedValue : Type 0 → (Status → A) → (Status → PbStatus) → Option A → Type 0
  DeniedValue Lost carry refusal none = Lost
  DeniedValue Lost carry refusal (some a) = Denial carry refusal a

  abbrev pub Denied : Type 0 → (Status → A) → (Status → PbStatus) → Failure A → Type 0
  Denied Lost carry refusal f = (f.panics ≡ false) × DeniedValue Lost carry refusal f.value

module _ {R B A : Type 0} (p : Protocol R B A) (carry : Status → A) (format : String) where
  checked :
      (status : PbStatus) → status.code ≡ 0 → check_status carry format (some status) ≡ ok status
  unfolding check_status
  checked status h = ground (arith, h, ==_iff status.code 0)

  refuses :
      (status : PbStatus)
      → status.code ≢ 0
      → check_status carry format (some status) ≡ err (refuse carry format status)
  unfolding check_status
  refuses status h = ground (arith, h, ==_iff status.code 0)

  check_granted : (b : B) → check_status carry format (p.status (p.respond (ok b))) ≡ ok p.granted
  check_granted b =
      subst (λ o. check_status carry format o ≡ ok p.granted) (sym (p.granted_status b))
        (checked p.granted p.granted_code)

  check_refused :
      (st : Status)
      → st.code ≢ 0
      → check_status carry format (p.status (p.respond (err st)))
        ≡ err (refuse carry format (p.refusal st))
  check_refused st h =
      subst (λ o. check_status carry format o ≡ err (refuse carry format (p.refusal st)))
        (sym (p.refused_status st))
        (refuses (p.refusal st) (λ e. h (subst (λ c. c ≡ 0) (p.refusal_code st) e)))

  module _ {N S : Type 0} (state : N → S) (op : Exec S Status B) where
    -- The code that reads a response.
    abbrev pub read_response : R → Exec N (Failure A) A
    read_response resp = do
      status ← lift (check_status carry format (p.status resp))
      lift (p.decode status resp)

    -- A request, and the reading of its response.
    abbrev pub exchange : Exec N Error R → Exec N (Failure A) A
    exchange call = or_fail nothing call >>= read_response

    -- What the agent did at `s` is what the client reports.
    abbrev pub Answers : Type 0 → S → Result (Failure A) A × N → Type 0
    Answers Lost s r =
        Post (λ a n. Granted op s p.show a (state n)) (λ f n. Denied op s Lost carry p.refusal f)
          r.0 r.1

    decoded-Answers :
        (Lost : Type 0) (b : B) (s : S) (n : N)
        → (op s).0 ≡ ok b
        → state n ≡ (op s).1
        → Answers Lost s (lift (p.decode p.granted (p.respond (ok b))) n)
    decoded-Answers Lost b s n e h =
        subst (λ r. Answers Lost s (r, n)) (sym (p.decoded b))
          (record { reply = b; replied = e; shown = refl; after = h })

    read-Answers :
        (Lost : Type 0) (r : Result Status B) (s : S) (n : N)
        → CodedResult r
        → (op s).0 ≡ r
        → state n ≡ (op s).1
        → Answers Lost s (read_response (p.respond r) n)
    unfolding refuse of_proto_status
    read-Answers Lost (ok b) s n c e h =
        subst
          (λ r. Answers Lost s (continue r (λ status. lift (p.decode status (p.respond (ok b)))) n))
          (sym (check_granted b)) (decoded-Answers Lost b s n e h)
    read-Answers Lost (err st) s n c e h =
        subst
          (λ r.
            Answers Lost s (continue r (λ status. lift (p.decode status (p.respond (err st)))) n))
          (sym (check_refused st c)) (refl, record { status = st; denied = e; shown = refl })

    failed-Answers :
        (Lost : Type 0) (call : Exec N Error R) (n : N)
        → ((e : Error) → (call n).0 ≡ err e → Lost)
        → ((resp : R)
            → (call n).0 ≡ ok resp
            → Answers Lost (state n) (read_response resp (call n).1))
        → Answers Lost (state n) (exchange call n)
    unfolding nothing
    failed-Answers Lost call n lost h =
        elim (Result-cases (call n).0) as (λ c. Answers Lost (state n) (exchange call n)) [
          | inl (e, x) ↦
              subst
                (λ r.
                  Answers Lost (state n) (continue (map_err nothing r) read_response (call n).1))
                (sym x) (refl, lost e x)
          | inr (resp, x) ↦
              subst
                (λ r.
                  Answers Lost (state n) (continue (map_err nothing r) read_response (call n).1))
                (sym x) (h resp x)
        ]

    pub exchange-Answers :
        (Lost : Type 0) (call : Exec N Error R) (n : N)
        → ((e : Error) → (call n).0 ≡ err e → Lost)
        → Coded op
        → Delivered state call (answer p.respond op)
        → Answers Lost (state n) (exchange call n)
    unfolding answer
    exchange-Answers Lost call n lost c d = failed-Answers Lost call n lost (λ resp e.
        subst (λ r. Answers Lost (state n) (read_response r (call n).1)) (sym (d n resp e).0)
          (read-Answers Lost (op (state n)).0 (state n) (call n).1 (c.at (state n)) refl
            (d n resp e).1))

-- The connection around a request.
module _ {N S A : Type 0} (state : N → S) (new_client : Text → Exec N Error (Unit {0}))
    (close : Exec N Error (Unit {0})) (address : Text) (conn : Connects state new_client close)
    (Q : A → S → Type 0) (X : Failure A → Type 0) where
  abbrev pub Meets : Result (Failure A) A × N → Type 0
  Meets r = Post (λ a n. Q a (state n)) (λ f n. X f) r.0 r.1
