-- ===== src/Utility.antt =====
-- src/utility.rs: the allocation-free runtime utilities, one child for each.
pub mod EventQueue
pub mod EventQueues
pub mod Hierarchical
pub mod DispatchTable
pub mod SmPool
