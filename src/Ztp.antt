-- ===== src/Ztp.antt =====
-- internal/ztp: the zero-touch provisioning server.
pub mod Match
pub mod Quote
pub mod Volumes
pub mod Build
