-- ===== src/Controller.antt =====
-- internal/controller and internal/switch_util: the reconcilers of Switch and SwitchInterface.
pub mod Cluster
pub mod Interfaces
pub mod Switches
