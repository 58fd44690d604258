-- ===== src/Rpc/Delivery/EndToEnd.antt =====
-- The writes of the client, down to CONFIG_DB on the switch.
use sonic_operator.Base.{◌≡◌, refl, ap, subst, sym, Text, [], some, Error, Result, ok, Exec}
use sonic_operator.Base.Hoare.{Post}
use sonic_operator.Redis.{Redis, Laws}
use sonic_operator.Types.{Status, Interface}
use sonic_operator.Agent.Host.{Host, State}
use sonic_operator.Agent.Pool.Invariant.{HostLaws, PoolIsValid}
use sonic_operator.Agent.Reads.{resolve}
use sonic_operator.Agent.Reads.Coded.{get_interface-Coded, get_interface_neighbor-Coded}
use sonic_operator.Agent.Writes.{future_alias}
use sonic_operator.Agent.Writes.Echo.{resolve_same}
use sonic_operator.Agent.Writes.Coded.{
  set_interface_admin_status-Coded, set_interface_alias_name-Coded, save_config-Coded,
}
use sonic_operator.Agent.Writes.Stored.{HostIsQuiet}
use sonic_operator.Agent.Writes.Admin.{AdminStatus, admin_status_stored}
use sonic_operator.Agent.Writes.Alias.{Alias, alias_stored}
use sonic_operator.Rpc.Messages.{Service, PbStatus}
use sonic_operator.Rpc.Server.{sonic_agent, to_admin_interface, admin_interface, alias_interface}
use sonic_operator.Rpc.Client.{
  Failure, with_admin, with_alias, set_interface_admin_status, set_interface_alias_name,
}
use sonic_operator.Rpc.Delivery.{AgentIsCoded, Delivers, Connects, Granted, Denied}
use sonic_operator.Rpc.Delivery.Protocols.{show_admin, show_alias, as_is, refused_interface}
use sonic_operator.Rpc.Delivery.Refinement.{
  admin_request, alias_request, set_admin-Refines, set_alias-Refines,
}

-- No error of SonicAgent has code 0.
pub sonic-IsCoded :
    {W Client : Type 0} (redis : Redis W Client) (host : Host W Client)
    → AgentIsCoded (sonic_agent redis host)
sonic-IsCoded redis host = record {
  admin_coded = set_interface_admin_status-Coded redis host;
  alias_coded = set_interface_alias_name-Coded redis host;
  interface_coded = get_interface-Coded redis host;
  neighbor_coded = get_interface_neighbor-Coded redis host;
  save_coded = save_config-Coded redis host;
}

-- What a call of the client that succeeds refines.
granted :
    {N S A B : Type 0} (state : N → S) (op : Exec S Status B) (show : B → A) (carry : Status → A)
    (refusal : Status → PbStatus) (lost : Type 0) (s : S) (r : Result (Failure A) A × N) {a : A}
    → r.0 ≡ ok a
    → Post (λ x n. Granted op s show x (state n)) (λ f n. Denied op s lost carry refusal f) r.0 r.1
    → Granted op s show a (state r.1)
granted state op show carry refusal lost s r e h =
    subst
      (λ x.
        Post (λ y n. Granted op s show y (state n)) (λ f n. Denied op s lost carry refusal f) x r.1)
      e h

module _ {W Client N : Type 0} (redis : Redis W Client) (host : Host W Client) (laws : Laws redis)
    (host_laws : HostLaws host laws.database) (quiet : HostIsQuiet redis host laws)
    (state : N → State W Client) (new_client : Text → Exec N Error (Unit {0}))
    (close : Exec N Error (Unit {0})) (service : Service N) (address : Text)
    (conn : Connects state new_client close)
    (deliver : Delivers state service (sonic_agent redis host)) where
  -- What an interface that SetInterfaceAdminStatus returns says of the switch.
  pub record AdminApplied (iface got : Interface) (s : State W Client) : Type 0 where
    pub name : Text
    pub resolved :
        resolve (some (admin_interface (admin_request iface)))
        ≡ ok (admin_interface (admin_request iface), name)
    pub stored : AdminStatus redis host laws name iface.admin_status s.world
    pub shown : got.admin_status ≡ iface.admin_status
    pub lost : (got.native_name ≡ []) × (got.alias_name ≡ [])

  admin_Applied :
      (iface got : Interface) (s s' : State W Client)
      → PoolIsValid host laws.database s.client_pool
      → Granted
          ((sonic_agent redis host).set_interface_admin_status
            (some (admin_interface (admin_request iface))))
          s
          (show_admin iface)
          got
          s'
      → AdminApplied iface got s'
  unfolding admin_interface with_admin to_admin_interface
  admin_Applied iface got s s' p g =
      let request = some (admin_interface (admin_request iface)) in
      let r =
        admin_status_stored redis host laws host_laws quiet
          (some (admin_interface (admin_request iface))) s p g.replied in
      let same =
        resolve_same (admin_interface (admin_request iface)) (r.iface, r.name) r.resolved in
      record {
        name = r.name;
        resolved =
            subst (λ i. resolve (some (admin_interface (admin_request iface))) ≡ ok (i, r.name))
              same r.resolved;
        stored =
            subst (λ t. AdminStatus redis host laws r.name iface.admin_status t.world) (sym g.after)
              (subst
                (λ v.
                  AdminStatus redis host laws r.name v
                    ((sonic_agent redis host).set_interface_admin_status request s).1.world)
                (ap (λ i. i.admin_status) same) r.stored);
        shown =
            subst (λ a. a.admin_status ≡ iface.admin_status) (sym g.shown)
              (subst (λ i. g.reply.admin_status ≡ i.admin_status) same r.shown);
        lost = subst (λ a. (a.native_name ≡ []) × (a.alias_name ≡ [])) (sym g.shown) (refl, refl);
      }

  -- What an interface that SetInterfaceAliasName returns says of the switch.
  pub record AliasApplied (iface got : Interface) (s : State W Client) : Type 0 where
    pub name : Text
    pub resolved :
        resolve (some (alias_interface (alias_request iface)))
        ≡ ok (alias_interface (alias_request iface), name)
    pub stored : Alias redis host laws name (future_alias iface) s.world
    pub shown : (got.name ≡ iface.name) × (got.alias_name ≡ iface.alias_name)

  alias_Applied :
      (iface got : Interface) (s s' : State W Client)
      → PoolIsValid host laws.database s.client_pool
      → Granted
          ((sonic_agent redis host).set_interface_alias_name
            (some (alias_interface (alias_request iface))))
          s
          (show_alias iface)
          got
          s'
      → AliasApplied iface got s'
  unfolding alias_interface with_alias future_alias
  alias_Applied iface got s s' p g =
      let request = some (alias_interface (alias_request iface)) in
      let r =
        alias_stored redis host laws host_laws quiet (some (alias_interface (alias_request iface)))
          s p g.replied in
      let same =
        resolve_same (alias_interface (alias_request iface)) (r.iface, r.name) r.resolved in
      record {
        name = r.name;
        resolved =
            subst (λ i. resolve (some (alias_interface (alias_request iface))) ≡ ok (i, r.name))
              same r.resolved;
        stored =
            subst (λ t. Alias redis host laws r.name (future_alias iface) t.world) (sym g.after)
              (subst
                (λ i.
                  Alias redis host laws r.name (future_alias i)
                    ((sonic_agent redis host).set_interface_alias_name request s).1.world)
                same r.stored);
        shown =
            subst (λ a. (a.name ≡ iface.name) × (a.alias_name ≡ iface.alias_name)) (sym g.shown)
              (refl, refl);
      }

  -- Over a connection that delivers requests to a SonicAgent with a valid pool, when
  -- SetInterfaceAdminStatus of the client returns an interface, CONFIG_DB of the switch holds the
  -- status that the caller asked for, for the port that the name resolves to, and the interface
  -- shows that status; but its native name and alias are empty, since the response lacks them. The
  -- host's calls and the reads of Redis are taken to leave what Redis holds alone.
  pub set-AdminApplied :
      (iface : Interface) (n : N) {got : Interface}
      → PoolIsValid host laws.database (state n).client_pool
      → (set_interface_admin_status new_client close service address iface n).0 ≡ ok got
      → AdminApplied iface got
          (state (set_interface_admin_status new_client close service address iface n).1)
  set-AdminApplied iface n {got} p e = admin_Applied iface got (state n) _ p (
      granted state _ (show_admin iface) refused_interface as_is _ (state n)
        (set_interface_admin_status new_client close service address iface n) e
        (set_admin-Refines state new_client close service (sonic_agent redis host) address conn
          deliver (sonic-IsCoded redis host) iface n))

  -- Over a connection that delivers requests to a SonicAgent with a valid pool, when
  -- SetInterfaceAliasName of the client returns an interface, CONFIG_DB of the switch holds the alias
  -- that the caller asked for, or the name that it gave if it asked for none, for the port that the
  -- name resolves to, and the interface has the caller's name and alias. The host's calls and the
  -- reads of Redis are taken to leave what Redis holds alone.
  pub set-AliasApplied :
      (iface : Interface) (n : N) {got : Interface}
      → PoolIsValid host laws.database (state n).client_pool
      → (set_interface_alias_name new_client close service address iface n).0 ≡ ok got
      → AliasApplied iface got
          (state (set_interface_alias_name new_client close service address iface n).1)
  set-AliasApplied iface n {got} p e = alias_Applied iface got (state n) _ p (
      granted state _ (show_alias iface) refused_interface as_is _ (state n)
        (set_interface_alias_name new_client close service address iface n) e
        (set_alias-Refines state new_client close service (sonic_agent redis host) address conn
          deliver (sonic-IsCoded redis host) iface n))
