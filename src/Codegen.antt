-- ===== src/Codegen.antt =====
-- macros/src/codegen.rs: the code that is generated for a table, as the machine that it is when it
-- runs. `quote!` with a fragment in it is that fragment's meaning.
pub mod Sequence
pub mod Runtime
pub mod Arms
pub mod Rows
pub mod Dispatch
pub mod Machine
pub mod Invariant
pub mod Reached
pub mod Moves
pub mod Lifecycle
pub mod Ends
