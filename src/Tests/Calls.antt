-- ===== src/Tests/Calls.antt =====
-- The theorems on the agent, at an agent whose server is the one in memory.
use sonic_operator.Base.{
  Error, foreign, ℕ, ◌≡◌, ◌≢◌, refl, codes, text_eq, lookup, insert, delete, field, none, some, [],
  ◌∷◌, foreign, ok, err, inl, arith, is_empty, has_prefix, trim_prefix, errorf, wrapf,
}
use sonic_operator.Redis.Memory.{
  Server, memory, memory_laws, with_database, fields_of, set_fields, count,
}
use sonic_operator.Types.{
  Interface, Kind, Status, not_found, ok_status, status_down, new_error_status,
  redis_key_check_fail,
}
use sonic_operator.Agent.Host.{Host, State, bad}
use sonic_operator.Agent.Pool.{redis_db_id, cached, connect_locked, connect, recheck, create}
use sonic_operator.Agent.Pool.Invariant.{HostLaws, PoolIsValid, Serves, Reach, Step, Reach-Serves}
use sonic_operator.Agent.Pool.Connect.{connect-Serves}
use sonic_operator.Agent.Reads.{
  resolve, open_db, port_key, port_alias, present_alias, status_of, appl_key,
}
use sonic_operator.Agent.Writes.{set_interface_admin_status, set_interface_alias_name, save_config}
use sonic_operator.Names.{to_abstract}
use sonic_operator.Strconv.{scan_int, itoa}
use sonic_operator.Agent.Writes.Stored.{HostIsQuiet}
use sonic_operator.Agent.Writes.Alias.{Renamed, alias_stored, alias_never_not_found}
use sonic_operator.Agent.Writes.Admin.{Replied, admin_status_stored, never_not_found}

abbrev pub memory_host : Host Server ℕ
memory_host = record {
  new_client = λ addr id w. (id, w);
  ping = λ c w. (ok tt, w);
  close = λ c w. (ok tt, w);
  read_file = λ path w. (err (foreign (codes "no such file")), w);
  connect_system_bus = λ w. (ok tt, w);
  call_save = λ w. (ok tt, w);
  close_bus = λ w. (ok tt, w);
  link_by_name = λ name w. (ok none, w);
  sleep = λ n w. w;
}

abbrev pub memory_host_laws : HostLaws memory_host (λ c. c)
memory_host_laws = record { new_client_database = λ addr id w. refl }

pub memory-Quiet : HostIsQuiet memory memory_host memory_laws
memory-Quiet d k f v = record {
  new_client_keeps = λ addr id w p. p;
  ping_keeps = λ c w p. p;
  close_keeps = λ c w p. p;
  bus_keeps = λ w p. p;
  save_keeps = λ w p. p;
  close_bus_keeps = λ w p. p;
  sleep_keeps = λ n w p. p;
  hget_keeps = λ c k f w p. p;
  hgetall_keeps = λ c k w p. p;
  exists_keeps = λ c k w p. p;
}

abbrev pub start : Server → State Server ℕ
start w = record { redis_addr = codes "127.0.0.1:6379"; client_pool = []; world = w }

-- CONFIG_DB has the port Ethernet0 with an alias.
abbrev pub one_port : Server
one_port d = (codes "PORT|Ethernet0", (codes "alias", codes "eth0-0") ∷ []) ∷ []

abbrev pub no_ports : Server
no_ports d = []

abbrev pub request : Interface
request = record {
  kind = Kind.interface_kind;
  name = codes "Ethernet0";
  native_name = codes "Ethernet0";
  alias_name = [];
  mac_address = [];
  operation_status = codes "down";
  admin_status = codes "up";
  status = ok_status;
}

abbrev reply : Interface
reply = record request { name = codes "eth0-0"; alias_name = codes "eth0-0" }

run_replies :
    (set_interface_admin_status memory memory_host (some request) (start one_port)).0 ≡ ok reply
unfolding set_interface_admin_status connect cached connect_locked recheck create lookup insert
    delete field redis_db_id text_eq codes with_database fields_of set_fields count resolve is_empty
    has_prefix open_db save_config port_key port_alias present_alias to_abstract status_of scan_int
    appl_key trim_prefix status_down itoa
run_replies = refl

abbrev no_alias : Status
no_alias =
    new_error_status redis_key_check_fail
      (wrapf "failed to get alias: %v" [] (errorf "redis: nil" []))

-- The entry that HSET makes for a port that is not there has no alias.
run_fails :
    (set_interface_admin_status memory memory_host (some request) (start no_ports)).0 ≡ err no_alias
unfolding set_interface_admin_status connect cached connect_locked recheck create lookup insert
    delete field redis_db_id text_eq codes with_database fields_of set_fields count resolve is_empty
    has_prefix open_db save_config port_key port_alias present_alias to_abstract status_of scan_int
    appl_key trim_prefix status_down itoa
run_fails = refl

pub empty-PoolIsValid : PoolIsValid memory_host (λ c. c) []
unfolding lookup
empty-PoolIsValid name c e = absurd (ground arith)

admin_status_stored_example :
    Replied memory memory_host memory_laws memory_host_laws memory-Quiet
      (some request)
      reply
      (set_interface_admin_status memory memory_host (some request) (start one_port)).1
admin_status_stored_example =
    admin_status_stored memory memory_host memory_laws memory_host_laws memory-Quiet (some request)
      (start one_port) empty-PoolIsValid run_replies

never_not_found_example : no_alias.code ≢ not_found
never_not_found_example =
    never_not_found memory memory_host memory_laws memory_host_laws memory-Quiet (some request)
      (start no_ports) empty-PoolIsValid run_fails

connect_runs : (connect memory_host (codes "STATE_DB") (start no_ports)).0 ≡ ok 6
unfolding connect cached connect_locked recheck create lookup insert redis_db_id text_eq codes
connect_runs = refl

connect-Serves_example : Serves memory_host (λ c. c) (codes "STATE_DB") 6
connect-Serves_example =
    connect-Serves memory_host (λ c. c) memory_host_laws (codes "STATE_DB") (start no_ports)
      empty-PoolIsValid connect_runs

abbrev after_connect : State Server ℕ
after_connect = (connect_locked memory_host (codes "STATE_DB") (start no_ports)).1

connected : Reach memory_host (λ c. c) (start no_ports) after_connect
connected = Reach.next Reach.here (Step.lock (codes "STATE_DB") (start no_ports))

look_finds : (cached memory_host (codes "STATE_DB") after_connect).0 ≡ ok (some 6)
unfolding cached connect_locked recheck create lookup insert redis_db_id text_eq codes
look_finds = refl

Reach-Serves_example : Serves memory_host (λ c. c) (codes "STATE_DB") 6
Reach-Serves_example =
    Reach-Serves memory_host (λ c. c) memory_host_laws (start no_ports) after_connect refl connected
      (codes "STATE_DB") 6 (inl look_finds)

-- The interface of the request, which asks for no alias.
abbrev renamed : Interface
renamed = record request { operation_status = codes "down" }

alias_replies :
    (set_interface_alias_name memory memory_host (some request) (start one_port)).0 ≡ ok renamed
unfolding set_interface_alias_name connect cached connect_locked recheck create lookup insert delete
    field redis_db_id text_eq codes with_database fields_of set_fields count resolve is_empty
    has_prefix open_db save_config port_key port_alias present_alias to_abstract status_of scan_int
    appl_key trim_prefix status_down itoa
alias_replies = refl

alias_stored_example :
    Renamed memory memory_host memory_laws memory_host_laws memory-Quiet
      (some request)
      renamed
      (set_interface_alias_name memory memory_host (some request) (start one_port)).1
alias_stored_example =
    alias_stored memory memory_host memory_laws memory_host_laws memory-Quiet (some request)
      (start one_port) empty-PoolIsValid alias_replies

-- A host whose service cannot save.
abbrev pub no_save : Error
no_save = foreign (codes "no such service")

abbrev pub full_host : Host Server ℕ
full_host = record memory_host { call_save = λ w. (err no_save, w) }

abbrev full_host_laws : HostLaws full_host (λ c. c)
full_host_laws = record { new_client_database = λ addr id w. refl }

full-Quiet : HostIsQuiet memory full_host memory_laws
full-Quiet d k f v = record {
  new_client_keeps = λ addr id w p. p;
  ping_keeps = λ c w p. p;
  close_keeps = λ c w p. p;
  bus_keeps = λ w p. p;
  save_keeps = λ w p. p;
  close_bus_keeps = λ w p. p;
  sleep_keeps = λ n w p. p;
  hget_keeps = λ c k f w p. p;
  hgetall_keeps = λ c k w p. p;
  exists_keeps = λ c k w p. p;
}

abbrev pub not_saved : Status
not_saved = bad "failed to save config via D-Bus: %v" [] no_save

alias_fails :
    (set_interface_alias_name memory full_host (some request) (start one_port)).0 ≡ err not_saved
unfolding set_interface_alias_name connect cached connect_locked recheck create lookup insert delete
    field redis_db_id text_eq codes with_database fields_of set_fields count resolve is_empty
    has_prefix open_db save_config port_key port_alias present_alias to_abstract status_of scan_int
    appl_key trim_prefix status_down itoa
alias_fails = refl

alias_never_not_found_example : not_saved.code ≢ not_found
alias_never_not_found_example =
    alias_never_not_found memory full_host memory_laws full_host_laws full-Quiet (some request)
      (start one_port) empty-PoolIsValid alias_fails
