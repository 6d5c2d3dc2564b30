-- ===== src/Scheduler/Fifo/Order.antt =====
-- `FifoCell` of src/scheduler.rs: the order in which the threads that share a machine step it.
use sml_rs.Base.{ℕ, ◌≤◌, ◌≡◌, ap, ◌∙◌, false, ◌||◌, length, List, ◌++◌, map, arith}
use sml_rs.Utility.EventQueue.Refine.{Holds}
use sml_rs.Scheduler.{SyncMachineStep}
use sml_rs.Scheduler.Fifo.{Shared, fifo_cell}
use sml_rs.Scheduler.Fifo.Step.{Always, Reach, some_knows, in_hand, Exclusive, replay}
use sml_rs.Base.{usize_max}
use sml_rs.Scheduler.Fifo.Sound.{Reach-IsSound, fifo_cell-IsSound}

module _ (s : SyncMachineStep) (n : ℕ) (core : s.Core) where
  open s use {Core, Event, start, step, is_terminated}

  -- Where no thread offers events while it unwinds: after any interleaving of offers and of pieces of
  -- `drain`, panics of the machine included, the
  -- machine is as if it had been started and then stepped, one event after another, with a first
  -- part of the events that were admitted, in the order in which they were admitted.
  pub stepped_in_order :
      n ≤ usize_max
      → (w : Shared s) → Reach s n false Always (fifo_cell s n core) w
      → (w.machine ≡ replay s (start core).0 w.ran)
        × (later : List Event) × (w.admitted ≡ w.ran ++ later)
  stepped_in_order h w r =
      let v = Reach-IsSound s n (start core).0 (fifo_cell-IsSound s n core h) r in
      (v.replayed, v.later, v.order)

  -- Where no thread offers events while it unwinds: after any interleaving, at most one thread is inside `drain`, and one is exactly while the
  -- queue's flag `draining` is set.
  pub drain-Exclusive :
      n ≤ usize_max
      → (w : Shared s) → Reach s n false Always (fifo_cell s n core) w
      → Exclusive w.queue.draining w.drainers
  drain-Exclusive h w r =
      (Reach-IsSound s n (start core).0 (fifo_cell-IsSound s n core h) r).exclusive

  -- Where no thread offers events while it unwinds: after any interleaving in which the machine has not terminated, and no thread has seen it
  -- terminate, no admitted event is lost, doubled or overtaken: the admitted events are those that
  -- the machine was stepped with, then the one that a thread has taken and not run, then those in
  -- the queue's ring from its head on, at most `n` of them.
  pub no_event_lost :
      n ≤ usize_max
      → (w : Shared s) → Reach s n false Always (fifo_cell s n core) w
      → w.queue.terminated || some_knows w.drainers ≡ false
      → (waiting : List (Event × ℕ)) × (w.admitted
          ≡ w.ran ++ (in_hand w.drainers ++ map (λ j. j.0) waiting))
        × (length waiting ≤ n)
        × Holds n w.queue.events waiting
  no_event_lost h w r open_ =
      let v = Reach-IsSound s n (start core).0 (fifo_cell-IsSound s n core h) r in
      (
        v.waiting,
        v.order ∙ ap (λ es. w.ran ++ es) (v.exact open_),
        omega (arith, v.holds.fits, v.holds.count),
        v.holds,
      )
