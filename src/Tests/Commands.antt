-- ===== src/Tests/Commands.antt =====
-- The theorem on the command that lists interfaces, over a connection in place.
use sonic_operator.Base.{
  ◌≡◌, ◌≢◌, refl, subst, codes, text_eq, lookup, insert, delete, [], err, ok, Bool, List, Exec,
  Error, has_prefix,
}
use sonic_operator.Redis.Memory.{memory, with_database, keys_like, before_star, fields_of}
use sonic_operator.Types.{Status, Interface}
use sonic_operator.Agent.Pool.{redis_db_id, cached, connect_locked, connect, recheck, create}
use sonic_operator.Agent.Coded.{CodedResult}
use sonic_operator.Agent.Reads.{open_db}
use sonic_operator.Agent.Listing
use sonic_operator.Agent.Listing.Coded.{list_interfaces-Coded}
use sonic_operator.Rpc.Messages.{SwitchAgent}
use sonic_operator.Rpc.Server.{sonic_agent}
use sonic_operator.Rpc.Server
use sonic_operator.Rpc.Client
use sonic_operator.Print.{view, get_renderer}
use sonic_operator.Print.Output.{Screen, print}
use sonic_operator.Commands.{run_list_interfaces}
use sonic_operator.Commands.Listed.{Answered, print_with, run_list_interfaces-Answered}
use sonic_operator.Tests.Calls.{memory_host, start, no_ports}
use sonic_operator.Tests.Rpcs.{
  Machine, service_of, service_of-Delivers, here, dial, hang_up, local-Connects,
}
use sonic_operator.Tests.Prints.{registry}

abbrev agent : SwitchAgent Machine
agent = sonic_agent memory memory_host

abbrev blank : Screen Machine
blank = record { print_line = λ line m. (ok tt, m); draw_table = λ shown m. m }

abbrev as_given : (Interface → Interface → Bool) → List Interface → List Interface
as_given less items = items

abbrev say : Error → Exec Machine Error (Unit {0})
say line m = (ok tt, m)

coded : (s : Machine) (status : Status) → (agent.list_interfaces s).0 ≡ err status → status.code ≢ 0
coded s status e = subst CodedResult e ((list_interfaces-Coded memory memory_host).at s)

lists :
    (run_list_interfaces dial hang_up
      (service_of agent)
      []
      (print_with blank as_given (codes "basic") registry)
      say
      (start no_ports)).0
    ≡ ok tt
unfolding run_list_interfaces Client.list_interfaces Client.interfaces_of Client.connected
    Server.list_interfaces Server.interfaces_response Listing.list_interfaces
    Listing.interfaces_loop connect cached connect_locked recheck create open_db redis_db_id lookup
    insert delete text_eq codes with_database keys_like before_star has_prefix fields_of print view
    get_renderer
lists = refl

run_list_interfaces-Answered_example : Answered agent (start no_ports)
run_list_interfaces-Answered_example =
    run_list_interfaces-Answered here dial hang_up (service_of agent) agent [] local-Connects
      (service_of-Delivers agent) coded blank as_given (codes "basic") registry say (start no_ports)
      lists
