-- ===== src/Scheduler/Fifo/Strand.antt =====
-- `Unwinding::drop` of src/scheduler.rs: the events that a machine leaves behind when it ends by a panic.
use sml_rs.Base.{ℕ, zero, suc, ◌<◌, ◌≡◌, refl, false, length, List, [], ◌∷◌, arith}
use sml_rs.Utility.EventQueue
use sml_rs.Utility.EventQueue.Deque.{pop_front}
use sml_rs.Utility.EventQueue.Refine.{Holds, pop-Refines}
use sml_rs.Scheduler.{SyncMachineStep}
use sml_rs.Scheduler.Ticket.{TicketState, resolve}
use sml_rs.Scheduler.Fifo.{Shared, strand, resolve_ticket, update}
use sml_rs.Scheduler.Fifo.Settle.{strand-none, strand-some}

-- The tickets of a list of jobs, each resolved to `false`, one after another.
abbrev pub all_refused : {E : Type 0} → List (E × ℕ) → (ℕ → TicketState) → ℕ → TicketState
all_refused [] tickets = tickets
all_refused ((event, t) ∷ js) tickets =
    all_refused js (update tickets t (resolve false (tickets t)).0)

module _ (s : SyncMachineStep) (n : ℕ) where
  open s use {Event}

  -- The loop ends when it has one round more than there are events: it leaves the queue empty, and
  -- has resolved the ticket of every event that waited to `false`, and no other ticket.
  pub strand_lem :
      (fuel : ℕ) (w : Shared s) (js : List (Event × ℕ))
      → Holds n w.queue.events js
      → length js < fuel
      → Holds n (strand s fuel n w).queue.events []
        × ((strand s fuel n w).tickets ≡ all_refused js w.tickets)
  unfolding pop_front resolve_ticket
  strand_lem zero w js hold h = elim h [ ]
  strand_lem (suc fuel) w [] hold h =
      let r = pop-Refines [] hold in rw (strand-none s n w.machine fuel w r.same) (r.holds, refl)
  strand_lem (suc fuel) w ((event, t) ∷ js) hold h =
      let r = pop-Refines ((event, t) ∷ js) hold in
      let popped : Shared s =
        resolve_ticket s t false (record w {
          queue = record (w.queue) { events = (EventQueue.pop n w.queue.events).1 };
        }) in
      let rest : Holds n (strand s fuel n popped).queue.events []
          × ((strand s fuel n popped).tickets ≡ all_refused js popped.tickets) =
        strand_lem fuel popped js r.holds (omega arith) in
      rw (strand-some s n w.machine fuel w r.same) rest
