-- ===== src/Scheduler/Fifo/Sound.antt =====
-- Every piece of `drain` of src/scheduler.rs, and every offer, keeps what holds of a shared machine.
use sml_rs.Base.{
  ℕ, suc, ◌≤◌, ◌≡◌, refl, sym, ap, ◌∙◌, Bool, true, false, Bool-cases, inl, inr, Option, none, some,
  Option-cases, ◌⊎◌, List, [], ◌∷◌, ◌++◌, map, append-nil,
}
use sml_rs.Utility.EventQueue.Refine.{new-Holds}
use sml_rs.Scheduler.Fifo.{fifo_cell}
use sml_rs.Base.{usize_max}
use sml_rs.Scheduler.{SyncMachineStep}
use sml_rs.Scheduler.Fifo.{
  Drainer, runs, resolves, settles, drops, unwinds, Shared, advance, strand, unwind, run_job,
  resolve_pending, resolve_ticket, forget, others, poll_update, wake_waiters,
}
use sml_rs.Scheduler.Fifo.Step.{
  keep, Step, offers, forgets, updates, advances, Reach, here, onwards, Exclusive, IsSound,
}
use sml_rs.Scheduler.Fifo.Alone.{Alone, alone, still_open, run_job-end, run_job-steps, goes_on}
use sml_rs.Scheduler.Fifo.Offered.{offer-IsSound, waiter-IsSound}
use sml_rs.Scheduler.Fifo.Settle.{settle-IsSound, SameElse, strand-SameElse}

module _ (s : SyncMachineStep) (n : ℕ) (origin : s.Core) where
  open s use {Core, Event, step, is_terminated}

  unwind-IsSound :
      (w : Shared s)
      → Alone s n origin w unwinds
      → IsSound s n origin (record (unwind s n w) { drainers = [] })
  unfolding unwind
  unwind-IsSound w a = elim (Bool-cases (is_terminated w.machine)) [
    | inl e ↦ ended e
    | inr e ↦
        rw (open_, e)
          (record {
            waiting = a.sound.waiting;
            later = a.sound.later;
            holds = a.sound.holds;
            exclusive = refl;
            order = a.sound.order;
            exact = λ h. due;
            replayed = a.sound.replayed;
            closed = λ h. refl;
          })
  ]
    where
      open_ : w.queue.terminated ≡ false
      open_ = (still_open s n origin a refl).0

      due : a.sound.later ≡ map (λ j. j.0) a.sound.waiting
      due = (still_open s n origin a refl).1

      freed : Shared s
      freed = record w {
        queue = record (w.queue) { draining = false; terminated = true; room = [] };
        wakers = (wake_waiters w.queue.room (w.wakers, w.woken)).0;
        woken = (wake_waiters w.queue.room (w.wakers, w.woken)).1;
      }

      ended :
          is_terminated w.machine ≡ true
          → IsSound s n origin (record (unwind s n w) { drainers = [] })
      ended e =
          let same : SameElse s n origin freed (strand s (suc w.queue.events.len) n freed) =
            strand-SameElse s n origin (suc w.queue.events.len) freed a.sound.waiting
              a.sound.holds in
          rw (open_, e)
            (record {
              waiting = same.waiting;
              later = a.sound.later;
              holds = same.holds;
              exclusive = rw same.draining refl;
              order = rw (same.admitted, same.ran) a.sound.order;
              exact = λ h. absurd (cc (same.terminated, h));
              replayed = rw (same.machine, same.ran) a.sound.replayed;
              closed = λ h. refl;
            })

  job_panics :
      (w : Shared s) (event : Event) (ticket : Option ℕ)
      → (step w.machine event).1 ≡ none
      → run_job s event ticket false w
        ≡ (drops ticket, record w { machine = (step w.machine event).0; ran = w.ran ++ event ∷ [] })
  unfolding run_job
  job_panics w event ticket e = rw (e, run_job)

  job_answers :
      (w : Shared s) (event : Event) (ticket : Option ℕ) {accepted : Bool}
      → (step w.machine event).1 ≡ some accepted
      → run_job s event ticket false w ≡ (
        resolves ticket accepted (is_terminated (step w.machine event).0),
        record w { machine = (step w.machine event).0; ran = w.ran ++ event ∷ [] },
      )
  unfolding run_job
  job_answers w event ticket e = rw (e, run_job)

  advance-IsSound :
      (d : Drainer Event) (w : Shared s)
      → Alone s n origin w d
      → IsSound s n origin
          (record (advance s n false d w).1 { drainers = keep (advance s n false d w).0 })
  unfolding advance resolve_pending resolve_ticket
  advance-IsSound (runs event ticket true) w a =
      unfold run_job in run_job-end s n origin w event ticket a
  advance-IsSound (runs event ticket false) w a = elim answered [
    | inl e ↦
        rw (advance, job_panics w event ticket e)
          (run_job-steps s n origin w event ticket (drops ticket) a refl)
    | inr (accepted, e) ↦
        rw (advance, job_answers w event ticket e)
          (run_job-steps s n origin w event ticket
            (resolves ticket accepted (is_terminated (step w.machine event).0)) a refl)
  ]
    where
      answered :
          ((step w.machine event).1 ≡ none)
          ⊎ ((accepted : Bool) × ((step w.machine event).1 ≡ some accepted))
      answered = Option-cases (step w.machine event).1
  advance-IsSound (resolves none accepted b) w a =
      goes_on s n origin w (resolves none accepted b) (settles b) w.tickets w.woken a refl refl refl
  advance-IsSound (resolves (some t) accepted b) w a =
      goes_on s n origin w (resolves (some t) accepted b) (settles b)
        (resolve_ticket s t accepted w).tickets (resolve_ticket s t accepted w).woken a refl refl
        refl
  advance-IsSound (settles b) w a = settle-IsSound s n origin b w a
  advance-IsSound (drops none) w a =
      goes_on s n origin w (drops none) unwinds w.tickets w.woken a refl refl refl
  advance-IsSound (drops (some t)) w a =
      goes_on s n origin w (drops (some t)) unwinds (resolve_ticket s t false w).tickets
        (resolve_ticket s t false w).woken a refl refl refl
  advance-IsSound unwinds w a = unwind-IsSound w a

  -- A list of one thread, taken apart around a thread, has no other.
  only_one :
      {E : Type 0} (before after : List (Drainer E)) (d d' : Drainer E)
      → before ++ d ∷ after ≡ d' ∷ []
      → (before ≡ []) × (after ≡ [])
  only_one [] after d d' e = (refl, cc)
  only_one (b ∷ []) after d d' e = absurd cc
  only_one (b ∷ c ∷ bs) after d d' e = absurd cc

  pub someone_drains :
      (b : Bool) (before after : List (Drainer Event)) (d : Drainer Event)
      (ds : List (Drainer Event))
      → Exclusive b ds
      → ds ≡ before ++ d ∷ after
      → (before ≡ []) × (after ≡ [])
  someone_drains true before after d ds (d', x) e = only_one before after d d' (sym e ∙ x)
  someone_drains false [] after d ds x e = absurd cc
  someone_drains false (b ∷ bs) after d ds x e = absurd cc

  -- The thread that goes on is the only one there is.
  pub lone :
      {w : Shared s} (v : IsSound s n origin w) (before after : List (Drainer Event))
      (d : Drainer Event)
      → w.drainers ≡ before ++ d ∷ after
      → (before ≡ []) × (after ≡ []) × Alone s n origin w d
  lone {w} v before after d e =
      let (b, a) = someone_drains w.queue.draining before after d w.drainers v.exclusive e in
      let here_alone : w.drainers ≡ d ∷ [] =
        e ∙ ap (λ ds. ds ++ d ∷ after) b ∙ ap (λ ds. d ∷ ds) a in
      (b, a, alone s n origin w d v here_alone)

  pub false_not_true : false ≡ true → ⊥
  false_not_true h = cc

  -- Every step keeps it, where no thread offers events while it unwinds.
  pub Step-IsSound :
      {used : ℕ → Type 0} {w u : Shared s}
      → IsSound s n origin w
      → Step s n false used w u
      → IsSound s n origin u
  unfolding forget poll_update
  Step-IsSound v (offers event waiter w) = offer-IsSound s n origin event waiter w v
  Step-IsSound v (forgets waiter w p) = waiter-IsSound s n origin (others waiter w.queue.room) w v
  Step-IsSound v (updates waiter waker w p) = record {
    waiting = v.waiting;
    later = v.later;
    holds = v.holds;
    exclusive = v.exclusive;
    order = v.order;
    exact = v.exact;
    replayed = v.replayed;
    closed = v.closed;
  }
  Step-IsSound v (advances true p before after d w e) = absurd (false_not_true (p refl))
  Step-IsSound v (advances false p before after d w e) =
      let (b, a, one) = lone v before after d e in rw (b, a, append-nil) (advance-IsSound d w one)

  pub Reach-IsSound :
      {used : ℕ → Type 0} {w u : Shared s}
      → IsSound s n origin w
      → Reach s n false used w u
      → IsSound s n origin u
  Reach-IsSound v here = v
  Reach-IsSound v (onwards r t) = Step-IsSound (Reach-IsSound v r) t

pub fifo_cell-IsSound :
    (s : SyncMachineStep) (n : ℕ) (core : s.Core)
    → n ≤ usize_max
    → IsSound s n (s.start core).0 (fifo_cell s n core)
unfolding fifo_cell
fifo_cell-IsSound s n core h = record {
  waiting = [];
  later = [];
  holds = new-Holds n h;
  exclusive = refl;
  order = refl;
  exact = λ h. refl;
  replayed = refl;
  closed = λ h. refl;
}
