-- ===== src/Host.antt =====
-- The host-local NPU coordinator, vaws_coordinator/host/vaws_npu_coordination.py.
pub mod State
pub mod Result
pub mod Table
pub mod Ids
pub mod Guard
pub mod Housekeep
pub mod Devices
pub mod Ports
pub mod Submit
pub mod Acquire
pub mod Preflight
pub mod Activate
pub mod Release
pub mod Holds
pub mod Snapshot
pub mod Probe
pub mod Messages
pub mod Run
pub mod Keeps
pub mod Ledger
pub mod Evidence
pub mod Queue
pub mod Fair
