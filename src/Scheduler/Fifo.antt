-- ===== src/Scheduler/Fifo.antt =====
-- `FifoScheduler` of src/scheduler.rs. Callers are threads: every piece of code between two lock
-- operations is a function on the shared state, and the threads inside `drain` are a list.
pub mod Step
pub mod Alone
pub mod Settle
pub mod Offered
pub mod Strand
pub mod Sound
pub mod Order
pub mod Closed
pub mod Completion
pub mod Room
pub mod Registered
pub mod Wakes
pub mod Woken
use sml_rs.Base.{
  ℕ, zero, suc, Bool, true, false, not, ◌&&◌, ◌||◌, ◌==◌, if◌then◌else◌, Option, none, some, List,
  [], ◌∷◌, ◌++◌, Result, ok, err,
}
use sml_rs.Utility.EventQueue
use sml_rs.Utility.EventQueue.{EventQueue}
use sml_rs.Scheduler.{SyncMachineStep}
use sml_rs.Scheduler.Ticket.{TicketState, unresolved, resolve}

-- A job is the event that its closure runs; a ticket, and a waiter, are addresses.
pub record FifoQueue (E : Type 0) : Type 0 where
  pub events : EventQueue (E × ℕ)
  pub draining : Bool
  pub terminated : Bool
  pub room : List ℕ

-- Where a thread stands inside `drain`: before it runs a job (its event, its ticket, and whether the
-- machine had terminated), before it resolves the ticket (with the answer, and whether the machine
-- has terminated), before the lock that takes the next job, or, after a step that panicked, before
-- the `drop` of `Pending` and then before that of `Unwinding`.
pub data Drainer (E : Type 0) : Type 0 where
  runs : E → Option ℕ → Bool → Drainer E
  resolves : Option ℕ → Bool → Bool → Drainer E
  settles : Bool → Drainer E
  drops : Option ℕ → Drainer E
  unwinds : Drainer E

-- What `offer` answers; `drains` stands for the thread's own call of `drain`, after which the caller
-- has its answer, or waits for the ticket.
pub data Offer (E : Type 0) : Type 0 where
  done : Bool → Offer E
  queued : ℕ → Offer E
  full : E → Offer E
  drains : Option ℕ → Offer E

abbrev pub contains : ℕ → List ℕ → Bool
contains w [] = false
contains w (v ∷ vs) = v == w || contains w vs

-- The registration of a waiter in `room`, once; a submission registers none.
abbrev pub register : Option ℕ → List ℕ → List ℕ
register none room = room
register (some waiter) room = if contains waiter room then room else room ++ waiter ∷ []

-- `room.retain(…)`: every registration but those of one waiter.
abbrev pub others : ℕ → List ℕ → List ℕ
others w [] = []
others w (v ∷ vs) = if v == w then others w vs else v ∷ others w vs

-- A ticket's state is changed where the ticket is resolved or polled.
abbrev pub update : (ℕ → TicketState) → ℕ → TicketState → ℕ → TicketState
update tickets t state u = if t == u then state else tickets u

-- `Waiter::update`, of the wakers that the waiters hold.
unfoldable pub update_waiter : ℕ → ℕ → (ℕ → Option ℕ) → ℕ → Option ℕ
update_waiter waiter waker wakers v =
    if waiter == v
    then elim (wakers v) [
      | none ↦ some waker
      | some known ↦ if known == waker then some known else some waker
    ]
    else wakers v

-- `Waiter::wake`: the waker that it takes out and wakes.
unfoldable pub wake_waiter : ℕ → (ℕ → Option ℕ) → Option ℕ × (ℕ → Option ℕ)
wake_waiter waiter wakers = (wakers waiter, λ v. if waiter == v then none else wakers v)

-- `for waiter in room { waiter.wake(); }`, of the wakers that the waiters hold and those that were woken.
unfoldable pub wake_waiters : List ℕ → (ℕ → Option ℕ) × List ℕ → (ℕ → Option ℕ) × List ℕ
unfolding wake_waiter
wake_waiters [] log = log
wake_waiters (waiter ∷ room) (wakers, woken) =
    let (waker, wakers') = wake_waiter waiter wakers in
    wake_waiters room (wakers', elim waker [ none ↦ woken | some k ↦ k ∷ woken ])

module _ (s : SyncMachineStep) where
  open s use {Core, Event, start, step, is_terminated}

  -- `FifoShared`, the tickets that were handed out (those below `next_ticket`), the wakers of
  -- the waiters, the wakers that were woken, the threads inside `drain`; and two records of the past that no code
  -- reads: the events that were admitted, and those that the machine was stepped with, in order.
  pub record Shared : Type 0 where
    pub machine : Core
    pub queue : FifoQueue Event
    pub tickets : ℕ → TicketState
    pub next_ticket : ℕ
    pub wakers : ℕ → Option ℕ
    pub woken : List ℕ
    pub drainers : List (Drainer Event)
    pub admitted : List Event
    pub ran : List Event

  -- `Schedule::cell`.
  unfoldable pub fifo_cell : ℕ → Core → Shared
  unfolding EventQueue.new
  fifo_cell n core =
      let (core', started) = start core in
      record {
        machine = core';
        queue = record {
          events = EventQueue.new n;
          draining = false;
          terminated = not started || is_terminated core';
          room = [];
        };
        tickets = λ t. unresolved;
        next_ticket = 0;
        wakers = λ v. none;
        woken = [];
        drainers = [];
        admitted = [];
        ran = [];
      }

  -- `ticket.resolve(accepted)`.
  unfoldable pub resolve_ticket : ℕ → Bool → Shared → Shared
  unfolding resolve
  resolve_ticket t accepted w = record w {
    tickets = update w.tickets t (resolve accepted (w.tickets t)).0;
    woken = elim (resolve accepted (w.tickets t)).1 [ none ↦ w.woken | some k ↦ k ∷ w.woken ];
  }

  -- `Pending`: a job's ticket is resolved if it has one.
  unfoldable pub resolve_pending : Option ℕ → Bool → Shared → Shared
  unfolding resolve_ticket
  resolve_pending none accepted w = w
  resolve_pending (some t) accepted w = resolve_ticket t accepted w

  -- A ticket for a new event, and the event's place at the end of the queue.
  unfoldable pub enqueue : ℕ → Event → Shared → Result (Unit {0}) (Unit {0}) × Shared
  enqueue n event w =
      let (r, events) = EventQueue.defer n (event, w.next_ticket) w.queue.events in
      elim r [
        | err _ ↦ (err tt, record w { next_ticket = suc w.next_ticket })
        | ok _ ↦ (
          ok tt,
          record w {
            queue = record (w.queue) { events = events };
            next_ticket = suc w.next_ticket;
            admitted = w.admitted ++ event ∷ [];
          },
        )
      ]

  -- A thread that calls `drain` with this job.
  abbrev pub enter_drain : Event → Option ℕ → Shared → Shared
  enter_drain event ticket w = record w { drainers = runs event ticket false ∷ w.drainers }

  -- `offer` on an idle machine, from `queue.draining = true` on.
  unfoldable pub offer_idle : ℕ → Event → Shared → Offer Event × Shared
  unfolding enqueue resolve_ticket
  offer_idle n event w =
      let (next, rest) = EventQueue.pop n w.queue.events in
      let claimed : Shared = record w {
        queue = record (w.queue) { events = rest; draining = true };
      } in
      elim next [
        | none ↦ (
          drains none,
          enter_drain event none (record claimed { admitted = claimed.admitted ++ event ∷ [] }),
        )
        | some (older, older_ticket) ↦
            let ticket : ℕ = claimed.next_ticket in
            let (r, placed) = enqueue n event claimed in
            let settled : Shared = elim r [
              | ok _ ↦ placed
              | err _ ↦ resolve_ticket ticket false placed
            ] in
            (drains (some ticket), enter_drain older (some older_ticket) settled)
      ]

  -- `FifoCell::offer`, under the queue's lock.
  unfoldable pub offer : ℕ → Event → Option ℕ → Shared → Offer Event × Shared
  unfolding offer_idle enqueue
  offer n event waiter w =
      if w.queue.terminated
      then (done false, w)
      else if w.queue.draining
      then (if w.queue.events.len == n
          then (
            full event,
            record w { queue = record (w.queue) { room = register waiter w.queue.room } },
          )
          else (let (r, placed) = enqueue n event w in
              elim r [ ok _ ↦ (queued w.next_ticket, placed) | err _ ↦ (done false, placed) ]))
      else offer_idle n event w

  -- `FifoCell::forget`, under the queue's lock.
  unfoldable pub forget : ℕ → Shared → Shared
  forget waiter w = record w { queue = record (w.queue) { room = others waiter w.queue.room } }

  -- `waiter.update(cx.waker())`, the first piece of a poll.
  unfoldable pub poll_update : ℕ → ℕ → Shared → Shared
  unfolding update_waiter
  poll_update waiter waker w = record w { wakers = update_waiter waiter waker w.wakers }

  -- `FifoCell::run` under the machine's lock, and the test of `Pending::run` before it.
  unfoldable pub run_job : Event → Option ℕ → Bool → Shared → Drainer Event × Shared
  run_job event ticket true w = (resolves ticket false true, w)
  run_job event ticket false w =
      let (core, answer) = step w.machine event in
      let stepped : Shared = record w { machine = core; ran = w.ran ++ event ∷ [] } in
      elim answer [
        | none ↦ (drops ticket, stepped)
        | some accepted ↦ (resolves ticket accepted (is_terminated core), stepped)
      ]

  -- The body of the loop of `drain` under the queue's lock, and the wakes after it. A thread that
  -- finds no further job returns from `drain`; then `Unwinding` is dropped, which does its work where
  -- the thread was unwinding already when it called `offer`.
  unfoldable pub settle : ℕ → Bool → Bool → Shared → Option (Drainer Event) × Shared
  unfolding wake_waiters
  settle n panicking terminated w =
      let (next, rest) = EventQueue.pop n w.queue.events in
      let (wakers, woken) = wake_waiters w.queue.room (w.wakers, w.woken) in
      elim next [
        | none ↦ (
          if panicking then some unwinds else none,
          record w {
            queue = record { events = rest; draining = false; terminated = terminated; room = [] };
            wakers = wakers;
            woken = woken;
          },
        )
        | some (event, ticket) ↦ (
          some (runs event (some ticket) terminated),
          record w {
            queue = record (w.queue) { events = rest; terminated = terminated; room = [] };
            wakers = wakers;
            woken = woken;
          },
        )
      ]

  -- `while let Some((_, ticket)) = queue.events.pop()`, and the tickets resolved to `false`.
  unfoldable pub strand : ℕ → ℕ → Shared → Shared
  unfolding resolve_ticket
  strand zero n w = w
  strand (suc fuel) n w =
      let (next, rest) = EventQueue.pop n w.queue.events in
      let popped : Shared = record w { queue = record (w.queue) { events = rest } } in
      elim next [
        | none ↦ popped
        | some (event, ticket) ↦ strand fuel n (resolve_ticket ticket false popped)
      ]

  -- `Unwinding::drop` where `std::thread::panicking()`. What it does after the queue's lock, it does to tickets
  -- and wakers that it took out under it.
  unfoldable pub unwind : ℕ → Shared → Shared
  unfolding strand wake_waiters
  unwind n w =
      let terminated : Bool = w.queue.terminated || is_terminated w.machine in
      let (wakers, woken) = wake_waiters w.queue.room (w.wakers, w.woken) in
      let freed : Shared = record w {
        queue = record (w.queue) { draining = false; terminated = terminated; room = [] };
        wakers = wakers;
        woken = woken;
      } in
      if terminated then strand (suc w.queue.events.len) n freed else freed

  -- One piece of `drain` between two lock operations: where the thread stands next. The Boolean is
  -- `std::thread::panicking()` of the thread when it called `offer`.
  unfoldable pub advance : ℕ → Bool → Drainer Event → Shared → Option (Drainer Event) × Shared
  unfolding run_job resolve_pending settle unwind
  advance n panicking (runs event ticket terminated) w =
      let (next, w') = run_job event ticket terminated w in (some next, w')
  advance n panicking (resolves ticket accepted terminated) w =
      (some (settles terminated), resolve_pending ticket accepted w)
  advance n panicking (settles terminated) w = settle n panicking terminated w
  advance n panicking (drops ticket) w = (some unwinds, resolve_pending ticket false w)
  advance n panicking unwinds w = (none, unwind n w)
