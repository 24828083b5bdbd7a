-- ===== src/Host/Ledger.antt =====
-- The invariant of the lease ledger: the rows of `tasks` and the counter `next_fence` of
-- vaws_coordinator/host/vaws_npu_coordination.py.
pub mod Rows
pub mod Sweeps
pub mod Selection
pub mod Grant
pub mod Ports
pub mod Acquire
pub mod Updates
pub mod Release
pub mod Submit
pub mod History
pub mod Stale
