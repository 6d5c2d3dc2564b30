-- ===== src/Tests/Waiting.antt =====
-- A completion that waits for room in the queue of the machine that adds up its events.
use sml_rs.Base.{ℕ, ◌≡◌, refl, true, false, none, ◌⊎◌, List, [], ◌∷◌, ◌++◌, arith}
use sml_rs.Utility.EventQueue
use sml_rs.Scheduler.Ticket.{pending}
use sml_rs.Scheduler.Fifo.{
  Drainer, runs, resolves, settles, unwinds, full, Shared, fifo_cell, offer, offer_idle, enqueue,
  advance, run_job, settle, resolve_pending, poll_update, update_waiter, wake_waiter, wake_waiters,
  unwind, strand,
}
use sml_rs.Scheduler.Fifo.Completion.{poll_offer, wait_for, poll_answer}
use sml_rs.Scheduler.Fifo.Step.{Always, keep, offers, Reach, here, onwards}
use sml_rs.Scheduler.Fifo.Registered.{WasWoken}
use sml_rs.Scheduler.Fifo.Woken.{drain_on, poll_starts, IsServed, poll_offer-woken}
use sml_rs.Tests.Schedulers.{adder}

-- One event runs, and two fill the queue.
abbrev first : Shared adder
first = (offer adder 2 3 none (fifo_cell adder 2 0)).1

abbrev second : Shared adder
second = (offer adder 2 4 none first).1

abbrev filled : Shared adder
filled = (offer adder 2 5 none second).1

filled-Reach : Reach adder 2 false Always (fifo_cell adder 2 0) filled
filled-Reach =
    onwards (onwards (onwards here (offers 3 none (fifo_cell adder 2 0))) (offers 4 none first))
      (offers 5 none second)

-- The completion with waiter 9 stores the waker 1 and offers the event 6.
abbrev started : Shared adder
started = poll_starts adder 2 9 1 filled

abbrev polled : Shared adder
polled = (poll_offer adder 2 6 9 started).1

finds_full : (poll_offer adder 2 6 9 started).0 ≡ full 6
unfolding poll_offer poll_update fifo_cell offer offer_idle enqueue EventQueue.new EventQueue.pop
    EventQueue.defer
finds_full = refl

goes_on_waiting :
    (poll_answer adder 1 (wait_for 9 false (poll_offer adder 2 6 9 started).0) polled).0 ≡ pending
unfolding poll_offer poll_update fifo_cell offer offer_idle enqueue EventQueue.new EventQueue.pop
    EventQueue.defer wait_for poll_answer
goes_on_waiting = refl

-- The thread that runs the event 3 wakes it.
is_woken : (drain_on adder 2 3 (runs 3 none false) polled).woken ≡ 1 ∷ []
unfolding poll_offer poll_update update_waiter fifo_cell offer offer_idle enqueue EventQueue.new
    EventQueue.pop EventQueue.defer drain_on advance run_job settle resolve_pending wake_waiters
    wake_waiter
is_woken = refl

-- A further event is offered, and refused.
poll_offer-woken_example :
    WasWoken adder 2 1 (offer adder 2 7 none polled).1
    ⊎ IsServed adder 2 9 1 (offer adder 2 7 none polled).1
poll_offer-woken_example =
    poll_offer-woken adder 2 0 (omega arith) filled filled-Reach 9 1 started here 6 6 finds_full
      (offer adder 2 7 none polled).1 (onwards here (offers 7 none polled))

-- A thread that unwinds offers the event 3 and drains; before it drops `Unwinding`, another thread
-- offers 4 and drains; then the flag is taken from that one, and a third thread drains as well.
abbrev next_piece : Drainer ℕ → List (Drainer ℕ) → Shared adder → Shared adder
next_piece d others w = record (advance adder 2 true d w).1 {
  drainers = keep (advance adder 2 true d w).0 ++ others;
}

abbrev unwinding_thread : Shared adder
unwinding_thread =
    next_piece (settles false) []
      (next_piece (resolves none true false) [] (next_piece (runs 3 none false) [] first))

abbrev beside_another : Shared adder
beside_another = record (offer adder 2 4 none unwinding_thread).1 {
  drainers = unwinds ∷ runs 4 none false ∷ [];
}

two_drain :
    (offer adder 2 5 none (next_piece unwinds (runs 4 none false ∷ []) beside_another)).1.drainers
    ≡ runs 5 none false ∷ runs 4 none false ∷ []
unfolding fifo_cell offer offer_idle enqueue EventQueue.new EventQueue.pop EventQueue.defer advance
    run_job settle resolve_pending unwind strand wake_waiters
two_drain = refl
