-- ===== src/Tests.antt =====
-- Runs of the theorems at concrete inputs.
mod Calls
mod Inputs
mod Scripts
mod Commands
mod Rpcs
mod Controllers
mod Switches
mod Prints
mod Onies
