-- ===== src/Tests.antt =====
-- Scenarios: the theorems of the development at concrete inputs.
pub mod Samples
mod Host
mod Leases
mod Mail
pub mod PoolSamples
mod Pool
mod Ports
mod Placement
