-- ===== src/Lib.antt =====
-- The verification library of sonic-operator, a Kubernetes operator for switches that run SONiC,
-- with the agent that runs on a switch and the servers that provision it.
--
-- The program's parts and the modules that model them:
-- - internal/agent/sonic: the agent. Agent.Host is what it calls outside of the repository (files,
--   D-Bus, netlink, the clients of go-redis) and SonicAgent as a record with the world that it acts
--   on. Agent.Pool is Connect, in its parts under the read lock and the write lock; Agent.Version is
--   utils.go; Agent.Reads has GetDeviceInfo, GetInterface and GetInterfaceNeighbor, Agent.Listing
--   ListInterfaces and ListPorts, Agent.Writes SaveConfig, SetInterfaceAdminStatus and
--   SetInterfaceAliasName. Agent.Quiet has the assertions that the calls of the host keep.
-- - internal/agent/types and internal/agent/errors: Types, Types.Convert, and Names for the
--   conversion of the names of interfaces.
-- - pkg/sonic: the accessors of the switch's databases. Sonic.Keys is db_accessor.go, Sonic.Port
--   db_port.go, Sonic.Device db_device.go, Sonic.Interface db_interface.go, Sonic.Vlan db_vlan.go.
-- - internal/ztp: Ztp.Match is matchingSwitch of ztp.go; Ztp.Volumes, Ztp.Build and Ztp.Quote are
--   generated_mode.go, with the arguments that the template quotes.
-- - internal/agent/agent_server/server.go, internal/agent/agent_client/client/client.go and
--   pkg/agent/proto: Rpc.Server has the handlers, Rpc.Client the operations of the client around a
--   connection, Rpc.Messages what they exchange. A connection is a parameter: grpc.NewClient,
--   conn.Close and the calls of the service.
-- - internal/agent/agent_client/client/print_render.go: Print has the values, the tables and the
--   registry of renderers, Print.Output the printing on a writer.
-- - internal/agent/agent_client/commands: Commands has the Run functions, over the client and Print.
-- - internal/controller and internal/switch_util: Controller.Switches and Controller.Interfaces are
--   the reconcilers of Switch and SwitchInterface, Controller.Cluster what they share and what they
--   call of the API server and of clientutils. They call the agents through Rpc.Client.
-- - internal/onie: Onie, the choice of the image that the ONIE server sends.
-- - api/v1alpha1: Api, the records of the custom resources Switch and SwitchInterface.
--
-- The child modules of these hold the proofs, by what they prove: Agent.Pool.Invariant the steps of
-- concurrent calls, Agent.Writes.Stored, Admin and Alias the writes, Sonic.Interface.Sync and
-- Sonic.Vlan.Sync the reconciling calls, Ztp.Build.Containers the generated script, Rpc.Delivery the
-- requests through client and server, down to the databases of a switch in Rpc.Delivery.EndToEnd,
-- Controller.Switches.Live and Controller.Interfaces.Converge the outcomes of the reconcilers. Base
-- passes on the shared names; Base.Hoare has the rules for calls that may fail. Tests runs the theorems.
--
-- The agent and the accessors act on Redis by the commands of go-redis, which are the record Redis
-- and a parameter everywhere. Its record Laws says what the databases hold and how the commands read
-- and change it while nobody else writes; Redis.Memory is a server with these laws. A call is a
-- function from a world to a result and a world, so that what a failed call has written stays
-- written. Strings are lists of code points; strconv and fmt, as far as they are used, are module
-- Strconv, with an int of 64 bits. An error is kept as the format that builds it with its operands;
-- log lines are left out.
-- A call over a connection may fail with nothing said of what the agent did; record Delivers says
-- that one that succeeds has run its handler once. A nil pointer that the client follows is a panic:
-- a failure that is marked, which SwitchInterfaceReconciler does not handle, so that only what it
-- defers still runs.
--
-- Fuel: scan_keys bounds the rounds of SCAN, which the server ends; as many rounds of fuel as the
-- server answers are enough. The digits of a number take as much fuel as the number. All other
-- loops go over lists.
--
-- Not modelled: the client's flags and tree of commands; what the ONIE server logs; the HTTP handlers
-- of ZTP and the template's fixed text; programs' flags and start-up; generated code.
pub mod Base
pub mod Strconv
pub mod Redis
pub mod Types
pub mod Names
pub mod Api
pub mod Sonic
pub mod Ztp
pub mod Agent
pub mod Rpc
pub mod Controller
pub mod Print
pub mod Onie
pub mod Commands
mod Tests
