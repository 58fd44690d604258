-- ===== src/Agent.antt =====
-- internal/agent/sonic: the agent that runs on the switch. Modules Host and Pool hold its state and its pool
-- of Redis clients, the others its operations.
pub mod Host
pub mod Pool
pub mod Version
pub mod Reads
pub mod Quiet
pub mod Listing
pub mod Writes
pub mod Coded
