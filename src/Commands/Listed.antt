-- ===== src/Commands/Listed.antt =====
-- What the success of the command that lists interfaces says of the agent.
use sonic_operator.Base.{
  Bool, List, ◌≡◌, ◌≢◌, refl, subst, arith, Text, String, some, Dict, Error, errorf, [], Result,
  Result-cases, inl, inr, ok, err, Exec, map_err, continue, Bool,
}
use sonic_operator.Types.{Status, Interface, InterfaceList}
use sonic_operator.Rpc.Messages.{SwitchAgent, Service}
use sonic_operator.Rpc.Client.{Failure, list_interfaces}
use sonic_operator.Rpc.Delivery.{Connects, Delivers}
use sonic_operator.Rpc.Delivery.Lists.{Listed, listed_if_ok}
use sonic_operator.Print.{Value, interfaces_value, view, Renderer}
use sonic_operator.Print.Output.{Screen, print}
use sonic_operator.Print.Output.Outcome.{print-IsFine}
use sonic_operator.Commands.{command_failed, run_list_interfaces}

-- The agent has listed its interfaces.
pub record Answered {S : Type 0} (agent : SwitchAgent S) (s : S) : Type 0 where
  pub list : InterfaceList
  pub answer : (agent.list_interfaces s).0 ≡ ok list

-- Print of the client, with a text before the value.
abbrev pub print_with :
    {K : Type 0} (screen : Screen K)
    (sort_slice : (Interface → Interface → Bool) → List Interface → List Interface)
    (renderer_type : Text) (registry : Dict Renderer)
    → String
    → Value
    → Exec K Error (Unit {0})
print_with screen sort_slice renderer_type registry info v =
    print screen sort_slice renderer_type registry (some (errorf info [])) v

module _ {K S : Type 0} (state : K → S) (new_client : Text → Exec K Error (Unit {0}))
    (close : Exec K Error (Unit {0})) (service : Service K) (agent : SwitchAgent S) (address : Text)
    (conn : Connects state new_client close) (deliver : Delivers state service agent)
    (coded : (s : S) (status : Status) → (agent.list_interfaces s).0 ≡ err status → status.code ≢ 0)
    (screen : Screen K)
    (sort_slice : (Interface → Interface → Bool) → List Interface → List Interface)
    (renderer_type : Text) (registry : Dict Renderer)
    (print_line : Error → Exec K Error (Unit {0})) where
  abbrev printer : String → Value → Exec K Error (Unit {0})
  printer = print_with screen sort_slice renderer_type registry

  answered :
      (s : S) (got : InterfaceList)
      → Listed (agent.list_interfaces s).0 got
      → got.status.code ≡ 0
      → Answered agent s
  answered s got h z = elim (Result-cases (agent.list_interfaces s).0) [
    | inl (status, e) ↦
        (let g = subst (λ r. Listed r got) e h in absurd (ground (arith, coded s status e, g.1, z)))
    | inr (list, e) ↦ record { list = list; answer = e }
  ]

  after_list :
      (k : K) (r : Result (Failure InterfaceList) InterfaceList) (k' : K)
      → (list_interfaces new_client close service address k).0 ≡ r
      → (continue
          (map_err
            (command_failed new_client close service address printer print_line
              "failed to list interfaces: %v")
            r)
          (λ list. printer "Interfaces" (interfaces_value list))
          k').0
        ≡ ok tt
      → Answered agent (state k)
  unfolding view
  after_list k (ok got) k' e h =
      answered (state k) got
        (listed_if_ok state new_client close service agent address conn deliver k e)
        (print-IsFine screen sort_slice renderer_type registry (some (errorf "Interfaces" []))
          (interfaces_value got) k' h)
  after_list k (err f) k' e h = absurd (ground (arith, h))

  -- Over a connection that delivers requests to an agent whose errors never have code 0, the command
  -- that lists interfaces ends without an error only if the agent has listed its interfaces: the
  -- refusal that the client passes on without an error is reported when it is printed.
  pub run_list_interfaces-Answered :
      (k : K)
      → (run_list_interfaces new_client close service address printer print_line k).0 ≡ ok tt
      → Answered agent (state k)
  unfolding run_list_interfaces
  run_list_interfaces-Answered k h =
      after_list k (list_interfaces new_client close service address k).0
        (list_interfaces new_client close service address k).1 refl h
