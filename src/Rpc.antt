-- ===== src/Rpc.antt =====
-- The gRPC service of the agent: its messages, the server, the client, and both together.
pub mod Messages
pub mod Server
pub mod Client
pub mod Delivery
