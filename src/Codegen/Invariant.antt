-- ===== src/Codegen/Invariant.antt =====
-- Invariants of a generated machine: what the user's callbacks, leaving a state and entering one keep
-- is kept by the whole dispatch.
pub mod Callback
pub mod Arm
pub mod Row
pub mod Whole
pub mod Process
