-- ===== src/Scheduler/Fifo/Completion.antt =====
-- `FifoCompletion` of src/scheduler.rs: the future that a caller of `submit` polls. A caller that finds the machine
-- idle drains it inside `offer`; the pieces below are what it does before and after that.
use sml_rs.Base.{ℕ, Bool, Option, none, some}
use sml_rs.Scheduler.{SyncMachineStep}
use sml_rs.Scheduler.Ticket.{Poll, ready, pending, poll}
use sml_rs.Scheduler.Fifo.{Offer, done, queued, full, drains, Shared, offer, forget, update}

-- A waiter is an address.
pub data FifoWait (E : Type 0) : Type 0 where
  answered : Bool → FifoWait E
  queues : ℕ → FifoWait E
  awaits_room : E → ℕ → FifoWait E

-- The match on what `offer` returns, where `accepted` is what the caller's own `drain` returned.
unfoldable pub wait_for : {E : Type 0} → ℕ → Bool → Offer E → FifoWait E
wait_for waiter accepted (done answer) = answered answer
wait_for waiter accepted (queued ticket) = queues ticket
wait_for waiter accepted (full event) = awaits_room event waiter
wait_for waiter accepted (drains none) = answered accepted
wait_for waiter accepted (drains (some ticket)) = queues ticket

-- `try_submit`, which reports a full queue.
unfoldable pub try_wait_for : {E : Type 0} → Bool → Offer E → Option (FifoWait E)
try_wait_for accepted (done answer) = some (answered answer)
try_wait_for accepted (queued ticket) = some (queues ticket)
try_wait_for accepted (full event) = none
try_wait_for accepted (drains none) = some (answered accepted)
try_wait_for accepted (drains (some ticket)) = some (queues ticket)

module _ (s : SyncMachineStep) where
  open s use {Event}

  -- `submit` up to the answer of `offer`; then `wait_for` is the state of the completion.
  unfoldable pub submit : ℕ → Event → Shared s → Offer Event × Shared s
  unfolding offer
  submit n event w = offer s n event none w

  -- The second piece of the poll of a completion that waits for room, behind `poll_update`, up to the
  -- answer of `offer`.
  unfoldable pub poll_offer : ℕ → Event → ℕ → Shared s → Offer Event × Shared s
  unfolding offer
  poll_offer n event waiter w = offer s n event (some waiter) w

  -- The registration is withdrawn unless the completion goes on waiting.
  unfoldable pub poll_forget : ℕ → FifoWait Event → Shared s → Shared s
  unfolding forget
  poll_forget waiter (answered accepted) w = forget s waiter w
  poll_forget waiter (queues ticket) w = forget s waiter w
  poll_forget waiter (awaits_room event v) w = w

  -- The match at the end of `poll`, with the polling task's waker.
  unfoldable pub poll_answer : ℕ → FifoWait Event → Shared s → Poll × Shared s
  unfolding poll
  poll_answer waker (answered accepted) w = (ready accepted, w)
  poll_answer waker (queues ticket) w =
      let (answer, state) = poll waker (w.tickets ticket) in
      (answer, record w { tickets = update w.tickets ticket state })
  poll_answer waker (awaits_room event waiter) w = (pending, w)

  -- `FifoCompletion::drop`.
  unfoldable pub drop_completion : FifoWait Event → Shared s → Shared s
  unfolding forget
  drop_completion (answered accepted) w = w
  drop_completion (queues ticket) w = w
  drop_completion (awaits_room event waiter) w = forget s waiter w
