-- ===== src/Scheduler.antt =====
-- src/scheduler.rs: the schedulers that share a machine among callers. What they drive is the trait
-- `SyncMachineStep`, whose methods are arguments.
pub mod Inline
pub mod Ticket
pub mod Fifo
use sml_rs.Base.{Bool, Option}

-- `SyncMachineStep` and `Terminated`. A step that panics answers nothing, and the machine stays as
-- the panic left it.
pub record SyncMachineStep : Type 1 where
  pub Core : Type 0
  pub Event : Type 0
  pub start : Core → Core × Bool
  pub step : Core → Event → Core × Option Bool
  pub is_terminated : Core → Bool
