-- ===== src/Pool.antt =====
-- The runtime pool of vaws_coordinator/ready_runtime.py.
pub mod Values
pub mod State
pub mod Table
pub mod Registry
pub mod Checkout
pub mod Calls
pub mod Control
pub mod Runs
pub mod Reconcile
pub mod Exclusive
pub mod Lawful
pub mod System
