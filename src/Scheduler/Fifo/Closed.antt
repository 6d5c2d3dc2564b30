-- ===== src/Scheduler/Fifo/Closed.antt =====
-- `FifoCell` of src/scheduler.rs once the machine has terminated.
use sml_rs.Base.{ℕ, Bool, List}
use sml_rs.Utility.EventQueue
use sml_rs.Scheduler.{SyncMachineStep}
use sml_rs.Scheduler.Fifo.{Shared}
use sml_rs.Scheduler.Fifo.Step.{Step}

module _ (s : SyncMachineStep) (n : ℕ) where
  open s use {Core, Event, start, step, is_terminated}

  -- The machine, what it was stepped with, and the flag that it has terminated.
  abbrev seen : Shared s → Core × List Event × Bool
  seen w = (w.machine, w.ran, w.queue.terminated)
