-- ===== src/Scheduler/Ticket.antt =====
-- `Ticket` of src/scheduler.rs: the answer to a queued event, and the waker of the task that waits.
use sml_rs.Base.{ℕ, Bool, ◌≡◌, Option, none, some, arith}

pub record TicketState : Type 0 where
  pub accepted : Option Bool
  pub waker : Option ℕ

-- `TicketState::default()`.
abbrev pub unresolved : TicketState
unresolved = record { accepted = none; waker = none }

pub data Poll : Type 0 where
  ready : Bool → Poll
  pending : Poll

-- `Ticket::resolve`: the new state, and the waker that it takes out and wakes.
unfoldable pub resolve : Bool → TicketState → TicketState × Option ℕ
resolve accepted t = (record { accepted = some accepted; waker = none }, t.waker)

-- `Ticket::poll` with the polling task's waker.
unfoldable pub poll : ℕ → TicketState → Poll × TicketState
poll waker t = elim t.accepted [
  | some accepted ↦ (ready accepted, t)
  | none ↦ (pending, record t { waker = some waker })
]

-- The task that polled a ticket last before it is resolved is the one that is woken, and its next
-- poll is ready with the answer, which it keeps.
pub resolve-poll :
    (w v : ℕ) (a : Bool) (t : TicketState)
    → t.accepted ≡ none
    → let resolved = resolve a (poll w t).1 in
      ((poll w t).0 ≡ pending) × (resolved.1 ≡ some w) × (poll v resolved.0 ≡ (ready a, resolved.0))
unfolding resolve poll
resolve-poll w v a t h = ground arith
