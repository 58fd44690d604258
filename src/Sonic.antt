-- ===== src/Sonic.antt =====
-- Package pkg/sonic: the accessor of a switch's databases.
pub mod Keys
pub mod Port
pub mod Device
pub mod Interface
pub mod Vlan
