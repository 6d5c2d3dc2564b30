-- ===== src/Scheduler/Fifo/Settle.antt =====
-- `drain` of src/scheduler.rs: what the next job, and the drop of an unwinding thread, keep.
use sml_rs.Base.{ℕ, zero, suc, ◌≡◌, refl, Bool, false, none, some, List, [], ◌∷◌, map, arith}
use sml_rs.Utility.EventQueue
use sml_rs.Utility.EventQueue.Deque.{pop_front}
use sml_rs.Utility.EventQueue.Refine.{Holds, pop-Refines}
use sml_rs.Scheduler.{SyncMachineStep}
use sml_rs.Scheduler.Fifo.{runs, settles, Shared, settle, strand, resolve_ticket, wake_waiters}
use sml_rs.Scheduler.Fifo.Step.{keep, IsSound}
use sml_rs.Scheduler.Fifo.Alone.{Alone, still_open}

module _ (s : SyncMachineStep) (n : ℕ) (origin : s.Core) where
  open s use {Core, Event, step, is_terminated}

  settle-none :
      (b : Bool) (w : Shared s)
      → (EventQueue.pop n w.queue.events).0 ≡ none
      → settle s n false b w ≡ (
        none,
        record w {
          queue = record {
            events = (EventQueue.pop n w.queue.events).1;
            draining = false;
            terminated = b;
            room = [];
          };
          wakers = (wake_waiters w.queue.room (w.wakers, w.woken)).0;
          woken = (wake_waiters w.queue.room (w.wakers, w.woken)).1;
        },
      )
  unfolding settle
  settle-none b w e = rw (e, settle)

  settle-some :
      (b : Bool) (w : Shared s) {event : Event} {t : ℕ}
      → (EventQueue.pop n w.queue.events).0 ≡ some (event, t)
      → settle s n false b w ≡ (
        some (runs event (some t) b),
        record w {
          queue = record (w.queue) {
            events = (EventQueue.pop n w.queue.events).1;
            terminated = b;
            room = [];
          };
          wakers = (wake_waiters w.queue.room (w.wakers, w.woken)).0;
          woken = (wake_waiters w.queue.room (w.wakers, w.woken)).1;
        },
      )
  unfolding settle
  settle-some b w e = rw (e, settle)

  pub settle-IsSound :
      (b : Bool) (w : Shared s)
      → Alone s n origin w (settles b)
      → IsSound s n origin
          (record (settle s n false b w).1 { drainers = keep (settle s n false b w).0 })
  unfolding pop_front
  settle-IsSound b w a = go a.sound.waiting a.sound.holds (λ k. (still_open s n origin a k).1)
    where
      go :
          (js : List (Event × ℕ))
          → Holds n w.queue.events js
          → (b ≡ false → a.sound.later ≡ map (λ j. j.0) js)
          → IsSound s n origin
              (record (settle s n false b w).1 { drainers = keep (settle s n false b w).0 })
      go [] hold due =
          let r = pop-Refines [] hold in
          rw (settle-none b w r.same) (record {
            waiting = [];
            later = a.sound.later;
            holds = r.holds;
            exclusive = refl;
            order = a.sound.order;
            exact = λ h. due (ground (arith, h));
            replayed = a.sound.replayed;
            closed = λ h. refl;
          })
      go ((event, t) ∷ js) hold due =
          let r = pop-Refines ((event, t) ∷ js) hold in
          rw (settle-some b w r.same) (record {
            waiting = js;
            later = a.sound.later;
            holds = r.holds;
            exclusive = rw a.draining (runs event (some t) b, refl);
            order = a.sound.order;
            exact = λ h. due (ground (arith, h));
            replayed = a.sound.replayed;
            closed = λ h. ground (arith, h);
          })

  -- What the pops of an unwinding thread leave alone.
  pub record SameElse (w u : Shared s) : Type 0 where
    pub machine : u.machine ≡ w.machine
    pub draining : u.queue.draining ≡ w.queue.draining
    pub terminated : u.queue.terminated ≡ w.queue.terminated
    pub drainers : u.drainers ≡ w.drainers
    pub admitted : u.admitted ≡ w.admitted
    pub ran : u.ran ≡ w.ran
    pub waiting : List (Event × ℕ)
    pub holds : Holds n u.queue.events waiting

  pub strand-none :
      (fuel : ℕ) (w : Shared s)
      → (EventQueue.pop n w.queue.events).0 ≡ none
      → strand s (suc fuel) n w
        ≡ record w { queue = record (w.queue) { events = (EventQueue.pop n w.queue.events).1 } }
  unfolding strand
  strand-none fuel w e = rw (e, strand)

  pub strand-some :
      (fuel : ℕ) (w : Shared s) {event : Event} {t : ℕ}
      → (EventQueue.pop n w.queue.events).0 ≡ some (event, t)
      → strand s (suc fuel) n w
        ≡ strand s fuel n (
            resolve_ticket s t false (record w {
              queue = record (w.queue) { events = (EventQueue.pop n w.queue.events).1 };
            }))
  unfolding strand
  strand-some fuel w e = rw (e, strand)

  pub strand-SameElse :
      (fuel : ℕ) (w : Shared s) (js : List (Event × ℕ))
      → Holds n w.queue.events js
      → SameElse w (strand s fuel n w)
  unfolding pop_front resolve_ticket
  strand-SameElse zero w js hold =
      unfold strand in
      record {
        machine = refl;
        draining = refl;
        terminated = refl;
        drainers = refl;
        admitted = refl;
        ran = refl;
        waiting = js;
        holds = hold;
      }
  strand-SameElse (suc fuel) w [] hold =
      let r = pop-Refines [] hold in
      rw (strand-none fuel w r.same) (record {
        machine = refl;
        draining = refl;
        terminated = refl;
        drainers = refl;
        admitted = refl;
        ran = refl;
        waiting = [];
        holds = r.holds;
      })
  strand-SameElse (suc fuel) w ((event, t) ∷ js) hold =
      let r = pop-Refines ((event, t) ∷ js) hold in
      let popped : Shared s =
        resolve_ticket s t false (record w {
          queue = record (w.queue) { events = (EventQueue.pop n w.queue.events).1 };
        }) in
      let rest : SameElse popped (strand s fuel n popped) =
        strand-SameElse fuel popped js r.holds in
      rw (strand-some fuel w r.same) (record {
        machine = rest.machine;
        draining = rest.draining;
        terminated = rest.terminated;
        drainers = rest.drainers;
        admitted = rest.admitted;
        ran = rest.ran;
        waiting = rest.waiting;
        holds = rest.holds;
      })
