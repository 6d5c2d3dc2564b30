-- ===== src/Scheduler/Fifo/Wakes.antt =====
-- `drain` of src/scheduler.rs: what each piece of it does with the completions that wait for room.
use sml_rs.Base.{
  ℕ, zero, suc, ◌≡◌, ◌≢◌, refl, ap, ◌∙◌, Bool, true, false, ◌||◌, ◌==◌, ==_iff, ==_ne, Bool-cases,
  if_true, if_false, if◌then◌else◌, inl, inr, ◌⊎◌, Option, Option-cases, none, some, List, [], ◌∷◌,
  Result, Result-cases, ok, err,
}
use sml_rs.Utility.EventQueue
use sml_rs.Scheduler.{SyncMachineStep}
use sml_rs.Scheduler.Ticket.{resolve}
use sml_rs.Scheduler.Fifo.{
  Drainer, runs, resolves, settles, drops, unwinds, Shared, forget, run_job, offer, offer_idle,
  enqueue, resolve_pending, resolve_ticket, settle, strand, unwind, advance, contains, wake_waiters,
  poll_update, update_waiter,
}
use sml_rs.Scheduler.Fifo.Room.{
  others-kept, others-before, contains-behind, wake_waiters-kept, wake_waiters-woken,
  wake_waiters-other,
}
use sml_rs.Scheduler.Fifo.Registered.{IsRegistered, WasWoken, offer-IsRegistered, offer-draining}
use sml_rs.Scheduler.Fifo.Step.{Step, offers, forgets, updates, advances, Reach, here, onwards}
use sml_rs.Scheduler.Fifo.Settle.{strand-none, strand-some}
use sml_rs.Scheduler.Fifo.Sound.{false_not_true}
use sml_rs.Scheduler.Fifo.Offered.{
  closed-kept, idle_empty, idle_some, claimed, behind, idle_offer, busy_full, busy_room,
}

module _ (s : SyncMachineStep) (n : ℕ) where
  open s use {Core, Event, start, step}

  -- The waiters keep their wakers, and no wake is forgotten.
  abbrev pub Keeps : ℕ → Shared s → Shared s → Type 0
  Keeps k w u = (u.wakers ≡ w.wakers) × (WasWoken s n k w → WasWoken s n k u)

  resolve_ticket-Keeps :
      (t : ℕ) (b : Bool) (w : Shared s) (k : ℕ) → Keeps k w (resolve_ticket s t b w)
  unfolding resolve_ticket resolve
  resolve_ticket-Keeps t b w k = elim (Option-cases (w.tickets t).waker) [
    | inl e ↦ rw e (refl, λ h. h)
    | inr (j, e) ↦ rw e (refl, λ h. contains-behind k (j ∷ []) w.woken h)
  ]

  enqueue-Keeps : (event : Event) (w : Shared s) (k : ℕ) → Keeps k w (enqueue s n event w).1
  unfolding enqueue
  enqueue-Keeps event w k =
      elim (Result-cases (EventQueue.defer n (event, w.next_ticket) w.queue.events).0) [
        | inl (u, e) ↦ rw (e, enqueue) (refl, λ h. h)
        | inr (u, e) ↦ rw (e, enqueue) (refl, λ h. h)
      ]

  idle-Keeps : (event : Event) (w : Shared s) (k : ℕ) → Keeps k w (offer_idle s n event w).1
  idle-Keeps event w k = elim (Option-cases (EventQueue.pop n w.queue.events).0) [
    | inl e ↦ rw (idle_empty s n w.machine event w e) (refl, λ h. h)
    | inr ((older, t), e) ↦ rw (idle_some s n w.machine event w e) (
        placed (enqueue s n event (claimed s n w.machine w)).0 older t
          (enqueue-Keeps event (claimed s n w.machine w) k))
  ]
    where
      settled : Shared s
      settled = (enqueue s n event (claimed s n w.machine w)).1

      placed :
          (r : Result (Unit {0}) (Unit {0})) (older : Event) (t : ℕ)
          → Keeps k w settled
          → Keeps k w (behind s n w.machine w.next_ticket older t (r, settled)).1
      placed (ok u) older t h = h
      placed (err u) older t (same, kept) =
          let (same', kept') = resolve_ticket-Keeps w.next_ticket false settled k in
          (same' ∙ same, λ h. kept' (kept h))

  offer-Keeps :
      (event : Event) (waiter : Option ℕ) (w : Shared s) (k : ℕ)
      → Keeps k w (offer s n event waiter w).1
  offer-Keeps event waiter w k = elim (Bool-cases w.queue.terminated) [
    | inl e ↦ rw (closed-kept s n w.machine event waiter w e) (refl, λ h. h)
    | inr o ↦ elim (Bool-cases w.queue.draining) [
      | inl d ↦ elim (Bool-cases (w.queue.events.len == n)) [
        | inl e ↦ rw (busy_full s n w.machine event waiter w o d e) (refl, λ h. h)
        | inr e ↦ rw (busy_room s n w.machine event waiter w o d e) (enqueue-Keeps event w k)
      ]
      | inr d ↦ rw (idle_offer s n w.machine event waiter w o d) (idle-Keeps event w k)
    ]
  ]

  -- The pieces that take no lock of the queue leave it as it is.
  abbrev pub Apart : ℕ → Shared s → Shared s → Type 0
  Apart k w u = (u.queue ≡ w.queue) × Keeps k w u

  pub run_job-Apart :
      (event : Event) (ticket : Option ℕ) (b : Bool) (w : Shared s) (k : ℕ)
      → Apart k w (run_job s event ticket b w).1
  unfolding run_job
  run_job-Apart event ticket true w k = (refl, (refl, λ h. h))
  run_job-Apart event ticket false w k = elim (Option-cases (step w.machine event).1) [
    | inl e ↦ rw (e, run_job) (refl, (refl, λ h. h))
    | inr (a, e) ↦ rw (e, run_job) (refl, (refl, λ h. h))
  ]

  pub resolve_pending-Apart :
      (ticket : Option ℕ) (b : Bool) (w : Shared s) (k : ℕ)
      → Apart k w (resolve_pending s ticket b w)
  unfolding resolve_pending
  resolve_pending-Apart none b w k = (refl, (refl, λ h. h))
  resolve_pending-Apart (some t) b w k =
      (unfold resolve_ticket in refl, resolve_ticket-Keeps t b w k)

  -- A piece that wakes all waiters of the queue, and may wake others.
  pub record Wakes (w u : Shared s) : Type 0 where
    pub emptied : u.queue.room ≡ []
    pub held : u.wakers ≡ (wake_waiters w.queue.room (w.wakers, w.woken)).0
    pub logged :
        (k : ℕ)
        → contains k (wake_waiters w.queue.room (w.wakers, w.woken)).1 ≡ true
        → WasWoken s n k u

  pub settle-Wakes : (b : Bool) (w : Shared s) → Wakes w (settle s n false b w).1
  unfolding settle
  settle-Wakes b w = elim (Option-cases (EventQueue.pop n w.queue.events).0) [
    | inl e ↦ rw (e, settle) (record { emptied = refl; held = refl; logged = λ k h. h })
    | inr (j, e) ↦ rw (e, settle) (record { emptied = refl; held = refl; logged = λ k h. h })
  ]

  strand-Keeps :
      (fuel : ℕ) (w : Shared s) (k : ℕ)
      → Keeps k w (strand s fuel n w) × ((strand s fuel n w).queue.room ≡ w.queue.room)
  strand-Keeps zero w k = unfold strand in ((refl, λ h. h), refl)
  strand-Keeps (suc fuel) w k = elim (Option-cases (EventQueue.pop n w.queue.events).0) [
    | inl e ↦ rw (strand-none s n w.machine fuel w e) ((refl, λ h. h), refl)
    | inr ((event, t), e) ↦
        let popped : Shared s = record w {
          queue = record (w.queue) { events = (EventQueue.pop n w.queue.events).1 };
        } in
        let ((same, kept), room) = strand-Keeps fuel (resolve_ticket s t false popped) k in
        let (same', kept') = resolve_ticket-Keeps t false popped k in
        rw (strand-some s n w.machine fuel w e)
          ((same ∙ same', λ h. kept (kept' h)), room ∙ unfold resolve_ticket in refl)
  ]

  pub unwind-Wakes : (w : Shared s) → Wakes w (unwind s n w)
  unfolding unwind
  unwind-Wakes w = elim (Bool-cases (w.queue.terminated || s.is_terminated w.machine)) [
    | inl e ↦ rw e (record {
      emptied = (stranded 0).1;
      held = (stranded 0).0.0;
      logged = λ k h. (stranded k).0.1 h;
    })
    | inr e ↦ rw e (record { emptied = refl; held = refl; logged = λ k h. h })
  ]
    where
      freed : Shared s
      freed = record w {
        queue = record (w.queue) { draining = false; terminated = true; room = [] };
        wakers = (wake_waiters w.queue.room (w.wakers, w.woken)).0;
        woken = (wake_waiters w.queue.room (w.wakers, w.woken)).1;
      }

      stranded :
          (k : ℕ)
          → Keeps k freed (strand s (suc w.queue.events.len) n freed)
            × ((strand s (suc w.queue.events.len) n freed).queue.room ≡ [])
      stranded k = strand-Keeps (suc w.queue.events.len) freed k

  pub Wakes-woken :
      {w u : Shared s} (v k : ℕ)
      → Wakes w u
      → IsRegistered s n v w
      → w.wakers v ≡ some k
      → WasWoken s n k u
  Wakes-woken {w} v k x h e = x.logged k (wake_waiters-woken v k w.queue.room w.wakers w.woken h e)

  advance-Wakes :
      (d : Drainer Event) (w : Shared s) (k : ℕ)
      → Apart k w (advance s n false d w).1 ⊎ Wakes w (advance s n false d w).1
  unfolding advance
  advance-Wakes (runs e t b) w k = inl (run_job-Apart e t b w k)
  advance-Wakes (resolves t a b) w k = inl (resolve_pending-Apart t a w k)
  advance-Wakes (drops t) w k = inl (resolve_pending-Apart t false w k)
  advance-Wakes (settles b) w k = inr (settle-Wakes b w)
  advance-Wakes unwinds w k = inr (unwind-Wakes w)

  -- The waiter holds the waker, and stays registered if it was.
  abbrev pub Armed : ℕ → ℕ → Shared s → Shared s → Type 0
  Armed v k w u = (u.wakers v ≡ some k) × (IsRegistered s n v w → IsRegistered s n v u)

  -- The waiter `v` is used by no step.
  abbrev pub Others : ℕ → ℕ → Type 0
  Others v x = x ≢ v

  pub update_waiter-at : (v k : ℕ) (wakers : ℕ → Option ℕ) → update_waiter v k wakers v ≡ some k
  unfolding update_waiter
  update_waiter-at v k wakers = if_true ((==_iff v v).1 refl) _ _ ∙ held (wakers v)
    where
      held :
          (o : Option ℕ)
          → elim o [ none ↦ some k | some j ↦ if j == k then some j else some k ] ≡ some k
      held none = refl
      held (some j) = elim (Bool-cases (j == k)) [
        | inl e ↦ if_true e _ _ ∙ ap some ((==_iff j k).0 e)
        | inr e ↦ if_false e _ _
      ]

  -- A step of others keeps the waiter armed, or wakes its waker.
  pub Step-Armed :
      {w u : Shared s} (v k : ℕ)
      → Step s n false (Others v) w u
      → w.wakers v ≡ some k
      → WasWoken s n k u ⊎ Armed v k w u
  unfolding forget poll_update update_waiter
  Step-Armed v k (offers event waiter w) e =
      inr (
        ap (λ f. f v) (offer-Keeps event waiter w k).0 ∙ e,
        offer-IsRegistered s n event waiter w v,
      )
  Step-Armed v k (forgets x w p) e = inr (e, λ h. others-kept v x w.queue.room h (==_ne x v p))
  Step-Armed v k (updates x j w p) e = inr (if_false (==_ne x v p) _ _ ∙ e, λ h. h)
  Step-Armed v k (advances true p before after d w l) e =
      absurd (false_not_true s n w.machine (p refl))
  Step-Armed v k (advances false p before after d w l) e = elim (advance-Wakes d w k) [
    | inl (same, (wakers, kept)) ↦ inr (ap (λ f. f v) wakers ∙ e, λ h. rw same h)
    | inr x ↦ elim (Bool-cases (contains v w.queue.room)) [
      | inl h ↦ inl (Wakes-woken v k x h e)
      | inr h ↦ inr (
        ap (λ f. f v) x.held ∙ wake_waiters-other v w.queue.room w.wakers w.woken h ∙ e,
        λ h'. absurd cc,
      )
    ]
  ]

  pub Step-WasWoken :
      {w u : Shared s} {used : ℕ → Type 0} (k : ℕ)
      → Step s n false used w u
      → WasWoken s n k w
      → WasWoken s n k u
  unfolding forget poll_update
  Step-WasWoken k (offers event waiter w) h = (offer-Keeps event waiter w k).1 h
  Step-WasWoken k (forgets x w p) h = h
  Step-WasWoken k (updates x j w p) h = h
  Step-WasWoken k (advances true p before after d w l) h =
      absurd (false_not_true s n w.machine (p refl))
  Step-WasWoken k (advances false p before after d w l) h = elim (advance-Wakes d w k) [
    | inl (same, (wakers, kept)) ↦ kept h
    | inr x ↦ x.logged k (wake_waiters-kept k w.queue.room w.wakers w.woken h)
  ]

  -- While a waiter is registered, a thread is inside `drain`.
  abbrev pub Watched : ℕ → Shared s → Type 0
  Watched v w = IsRegistered s n v w → w.queue.draining ≡ true

  Step-Watched :
      {w u : Shared s} {used : ℕ → Type 0} (v : ℕ)
      → Step s n false used w u
      → Watched v w
      → Watched v u
  unfolding forget poll_update
  Step-Watched v (offers event waiter w) busy h = elim (offer-draining s n event waiter w) [
    | inl same ↦ rw same (busy (rw same at h))
    | inr d ↦ d
  ]
  Step-Watched v (forgets x w p) busy h = busy (others-before v x w.queue.room h)
  Step-Watched v (updates x j w p) busy h = busy h
  Step-Watched v (advances true p before after d w l) busy h =
      absurd (false_not_true s n w.machine (p refl))
  Step-Watched v (advances false p before after d w l) busy h = elim (advance-Wakes d w 0) [
    | inl (same, kept) ↦ rw same (busy (rw same at h))
    | inr x ↦ absurd (nobody (advance s n false d w).1.queue.room x.emptied h)
  ]
    where
      nobody : (room : List ℕ) → room ≡ [] → contains v room ≡ true → ⊥
      nobody room e h = cc

  pub Reach-Watched :
      {used : ℕ → Type 0} {w u : Shared s} (v : ℕ)
      → Reach s n false used w u
      → Watched v w
      → Watched v u
  Reach-Watched v here busy = busy
  Reach-Watched v (onwards r t) busy = Step-Watched v t (Reach-Watched v r busy)
