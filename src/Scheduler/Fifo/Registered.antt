-- ===== src/Scheduler/Fifo/Registered.antt =====
-- The completions that are registered in `room` of `FifoQueue` in src/scheduler.rs, and what `offer` does
-- with them.
use sml_rs.Base.{
  ℕ, ◌≡◌, refl, sym, ap, ◌∙◌, true, false, ◌==◌, Bool-cases, if_true, if_false, inl, inr, ◌⊎◌,
  Option, Option-cases, none, some, Result, Result-cases, ok, err,
}
use sml_rs.Utility.EventQueue
use sml_rs.Scheduler.{SyncMachineStep}
use sml_rs.Scheduler.Fifo.{
  Offer, done, queued, full, drains, contains, Shared, enqueue, offer_idle, offer, resolve_ticket,
}
use sml_rs.Scheduler.Fifo.Room.{contains-register, registers}
use sml_rs.Scheduler.Fifo.Offered.{
  closed-kept, idle_empty, idle_some, claimed, behind, idle_offer, busy_full, busy_room,
}

module _ (s : SyncMachineStep) (n : ℕ) where
  open s use {Core, Event, start, step}

  -- Whether a waiter is registered, and whether a waker was woken.
  abbrev pub IsRegistered : ℕ → Shared s → Type 0
  IsRegistered v w = contains v w.queue.room ≡ true

  abbrev pub WasWoken : ℕ → Shared s → Type 0
  WasWoken k w = contains k w.woken ≡ true

  -- What each piece does with the queue.
  enqueue-queue :
      (event : Event) (w : Shared s)
      → ((enqueue s n event w).1.queue.room ≡ w.queue.room)
        × ((enqueue s n event w).1.queue.draining ≡ w.queue.draining)
  unfolding enqueue
  enqueue-queue event w =
      elim (Result-cases (EventQueue.defer n (event, w.next_ticket) w.queue.events).0) [
        | inl (u, e) ↦ rw (e, enqueue) (refl, refl)
        | inr (u, e) ↦ rw (e, enqueue) (refl, refl)
      ]

  idle-queue :
      (event : Event) (w : Shared s)
      → ((offer_idle s n event w).1.queue.room ≡ w.queue.room)
        × ((offer_idle s n event w).1.queue.draining ≡ true)
  unfolding resolve_ticket
  idle-queue event w = elim (Option-cases (EventQueue.pop n w.queue.events).0) [
    | inl e ↦ rw (idle_empty s n w.machine event w e) (refl, refl)
    | inr ((older, t), e) ↦ rw (idle_some s n w.machine event w e) (
        placed (enqueue s n event (claimed s n w.machine w)).0 older t
          (enqueue-queue event (claimed s n w.machine w)))
  ]
    where
      entered : Result (Unit {0}) (Unit {0}) → Event → ℕ → Shared s
      entered r older t =
          (behind s n w.machine w.next_ticket older t
            (r, (enqueue s n event (claimed s n w.machine w)).1)).1

      placed :
          (r : Result (Unit {0}) (Unit {0})) (older : Event) (t : ℕ)
          → ((enqueue s n event (claimed s n w.machine w)).1.queue.room ≡ w.queue.room)
            × ((enqueue s n event (claimed s n w.machine w)).1.queue.draining ≡ true)
          → ((entered r older t).queue.room ≡ w.queue.room)
            × ((entered r older t).queue.draining ≡ true)
      placed (ok u) older t h = h
      placed (err u) older t h = h

  pub offer-IsRegistered :
      (event : Event) (waiter : Option ℕ) (w : Shared s) (v : ℕ)
      → IsRegistered v w
      → IsRegistered v (offer s n event waiter w).1
  offer-IsRegistered event waiter w v h = elim (Bool-cases w.queue.terminated) [
    | inl e ↦ rw (closed-kept s n w.machine event waiter w e) h
    | inr o ↦ elim (Bool-cases w.queue.draining) [
      | inl d ↦ elim (Bool-cases (w.queue.events.len == n)) [
        | inl e ↦
            rw (busy_full s n w.machine event waiter w o d e)
              (contains-register v waiter w.queue.room h)
        | inr e ↦ rw (busy_room s n w.machine event waiter w o d e, (enqueue-queue event w).0) h
      ]
      | inr d ↦ rw (idle_offer s n w.machine event waiter w o d, (idle-queue event w).0) h
    ]
  ]

  pub offer-draining :
      (event : Event) (waiter : Option ℕ) (w : Shared s)
      → ((offer s n event waiter w).1 ≡ w) ⊎ ((offer s n event waiter w).1.queue.draining ≡ true)
  offer-draining event waiter w = elim (Bool-cases w.queue.terminated) [
    | inl e ↦ inl (rw (closed-kept s n w.machine event waiter w e))
    | inr o ↦ inr (elim (Bool-cases w.queue.draining) [
      | inl d ↦ elim (Bool-cases (w.queue.events.len == n)) [
        | inl e ↦ rw (busy_full s n w.machine event waiter w o d e) d
        | inr e ↦ rw (busy_room s n w.machine event waiter w o d e, (enqueue-queue event w).1) d
      ]
      | inr d ↦ rw (idle_offer s n w.machine event waiter w o d, (idle-queue event w).1)
    ])
  ]

  -- Only the branch that registers answers that the queue is full.
  room_answer :
      (event event' : Event) (waiter : Option ℕ) (w : Shared s)
      → w.queue.terminated ≡ false
      → w.queue.draining ≡ true
      → (w.queue.events.len == n) ≡ false
      → (offer s n event waiter w).0 ≡ full event'
      → ⊥
  unfolding offer
  room_answer event event' waiter w o d e h = placed (enqueue s n event w).0 (
      sym (
        ap {A = Offer Event × Shared s} (λ p. p.0)
          (if_false o _ _ ∙ if_true d _ _ ∙ if_false e _ _))
      ∙ h)
    where
      placed :
          (r : Result (Unit {0}) (Unit {0}))
          → (elim r as (λ x. Offer Event × Shared s) [
            | ok _ ↦ (queued w.next_ticket, (enqueue s n event w).1)
            | err _ ↦ (done false, (enqueue s n event w).1)
          ]).0
            ≡ full event'
          → ⊥
      placed (ok u) h = cc
      placed (err u) h = cc

  idle_answer : (event event' : Event) (w : Shared s) → (offer_idle s n event w).0 ≡ full event' → ⊥
  idle_answer event event' w h = elim (Option-cases (EventQueue.pop n w.queue.events).0) [
    | inl e ↦
        let a : drains none ≡ full event' = rw (idle_empty s n w.machine event w e) at h in cc a
    | inr ((older, t), e) ↦
        let a : drains (some w.next_ticket) ≡ full event' =
          rw (idle_some s n w.machine event w e) at h in
        cc a
  ]

  pub full-IsRegistered :
      (event event' : Event) (v : ℕ) (w : Shared s)
      → (offer s n event (some v) w).0 ≡ full event'
      → IsRegistered v (offer s n event (some v) w).1
  full-IsRegistered event event' v w h = elim (Bool-cases w.queue.terminated) [
    | inl e ↦
        let a : done false ≡ full event' = rw (closed-kept s n w.machine event (some v) w e) at h in
        cc a
    | inr o ↦ elim (Bool-cases w.queue.draining) [
      | inl d ↦ elim (Bool-cases (w.queue.events.len == n)) [
        | inl e ↦ rw (busy_full s n w.machine event (some v) w o d e) (registers v w.queue.room)
        | inr e ↦ absurd (room_answer event event' (some v) w o d e h)
      ]
      | inr d ↦
          absurd
            (idle_answer event event' w (rw (idle_offer s n w.machine event (some v) w o d) at h))
    ]
  ]
