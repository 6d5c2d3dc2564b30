-- ===== src/Scheduler/Fifo/Offered.antt =====
-- `offer` of src/scheduler.rs: what each of its answers keeps.
use sml_rs.Base.{
  ℕ, suc, ◌≡◌, ◌≢◌, refl, sym, ap, subst, ◌∙◌, true, false, ◌==◌, Bool-cases, if_true, if_false,
  inl, inr, length, Option, none, some, List, [], ◌∷◌, ◌++◌, map, append-nil, append_assoc, ok, err,
  Result, arith,
}
use mathlib.Core.List.{map-append}
use sml_rs.Utility.EventQueue
use sml_rs.Utility.EventQueue.Deque.{pop_front}
use sml_rs.Utility.EventQueue.Refine.{Holds, pop-Refines, defer-room}
use sml_rs.Scheduler.{SyncMachineStep}
use sml_rs.Scheduler.Fifo.{
  runs, drains, full, done, queued, Offer, enter_drain, register, Shared, offer, offer_idle,
  enqueue, resolve_ticket,
}
use sml_rs.Scheduler.Fifo.Step.{in_hand, Exclusive, IsSound}

module _ (s : SyncMachineStep) (n : ℕ) (origin : s.Core) where
  open s use {Core, Event, step, is_terminated}

  map-snoc :
      (js : List (Event × ℕ)) (event : Event) (t : ℕ)
      → map (λ j. j.0) (js ++ (event, t) ∷ []) ≡ map (λ j. j.0) js ++ event ∷ []
  map-snoc js event t = map-append (λ j. j.0) js ((event, t) ∷ [])

  enqueue-room :
      (event : Event) (w : Shared s)
      → (EventQueue.defer n (event, w.next_ticket) w.queue.events).0 ≡ ok tt
      → enqueue s n event w ≡ (
        ok tt,
        record w {
          queue = record (w.queue) {
            events = (EventQueue.defer n (event, w.next_ticket) w.queue.events).1;
          };
          next_ticket = suc w.next_ticket;
          admitted = w.admitted ++ event ∷ [];
        },
      )
  unfolding enqueue EventQueue.defer
  enqueue-room event w e = rw (e, enqueue)

  -- A busy machine with room: the event waits behind those that wait.
  queued-IsSound :
      (event : Event) (w : Shared s) (v : IsSound s n origin w)
      → length v.waiting ≢ n
      → IsSound s n origin (enqueue s n event w).1
  queued-IsSound event w v h =
      let (answer, hold) = defer-room v.holds (event, w.next_ticket) h in
      rw (enqueue-room event w answer) (record {
        waiting = v.waiting ++ (event, w.next_ticket) ∷ [];
        later = v.later ++ event ∷ [];
        holds = hold;
        exclusive = v.exclusive;
        order = ap (λ es. es ++ event ∷ []) v.order ∙ append_assoc w.ran v.later (event ∷ []);
        exact = λ k.
            ap (λ es. es ++ event ∷ []) (v.exact k)
            ∙ append_assoc (in_hand w.drainers) (map (λ j. j.0) v.waiting) (event ∷ [])
            ∙ ap (λ es. in_hand w.drainers ++ es) (sym (map-snoc v.waiting event w.next_ticket));
        replayed = v.replayed;
        closed = v.closed;
      })

  pub idle_empty :
      (event : Event) (w : Shared s)
      → (EventQueue.pop n w.queue.events).0 ≡ none
      → offer_idle s n event w ≡ (
        drains none,
        record w {
          queue = record (w.queue) {
            events = (EventQueue.pop n w.queue.events).1;
            draining = true;
          };
          drainers = runs event none false ∷ w.drainers;
          admitted = w.admitted ++ event ∷ [];
        },
      )
  unfolding offer_idle
  idle_empty event w e = rw (e, offer_idle)

  -- An idle machine that a thread has claimed, less its oldest event.
  abbrev pub claimed : Shared s → Shared s
  claimed w = record w {
    queue = record (w.queue) { events = (EventQueue.pop n w.queue.events).1; draining = true };
  }

  -- What follows the attempt to place the new event.
  abbrev pub behind :
      ℕ → Event → ℕ → Result (Unit {0}) (Unit {0}) × Shared s → Offer Event × Shared s
  behind ticket older t (r, placed) = (
    drains (some ticket),
    enter_drain s older (some t)
        (elim r [ ok _ ↦ placed | err _ ↦ resolve_ticket s ticket false placed ]),
  )

  pub idle_some :
      (event : Event) (w : Shared s) {older : Event} {t : ℕ}
      → (EventQueue.pop n w.queue.events).0 ≡ some (older, t)
      → offer_idle s n event w ≡ behind w.next_ticket older t (enqueue s n event (claimed w))
  unfolding offer_idle
  idle_some event w e = rw (e, offer_idle)

  idle_behind :
      (event : Event) (w : Shared s) {older : Event} {t : ℕ}
      → (EventQueue.pop n w.queue.events).0 ≡ some (older, t)
      → (EventQueue.defer n (event, w.next_ticket) (EventQueue.pop n w.queue.events).1).0 ≡ ok tt
      → offer_idle s n event w ≡ (
        drains (some w.next_ticket),
        record w {
          queue = record (w.queue) {
            events =
                (EventQueue.defer n (event, w.next_ticket) (EventQueue.pop n w.queue.events).1).1;
            draining = true;
          };
          next_ticket = suc w.next_ticket;
          drainers = runs older (some t) false ∷ w.drainers;
          admitted = w.admitted ++ event ∷ [];
        },
      )
  idle_behind event w {older} {t} e r =
      idle_some event w e ∙ ap (behind w.next_ticket older t) (enqueue-room event (claimed w) r)

  -- An idle machine: the thread takes the oldest event there is, and leaves its own behind it.
  idle-IsSound :
      (event : Event) (w : Shared s) (v : IsSound s n origin w)
      → w.drainers ≡ []
      → w.queue.terminated ≡ false
      → IsSound s n origin (offer_idle s n event w).1
  unfolding pop_front
  idle-IsSound event w v alone open_ =
      go v.waiting v.holds (v.exact (rw (open_, alone) refl) ∙ ap (λ ds. in_hand ds ++ waits) alone)
    where
      waits : List Event
      waits = map (λ j. j.0) v.waiting

      go :
          (js : List (Event × ℕ))
          → Holds n w.queue.events js
          → v.later ≡ map (λ j. j.0) js
          → IsSound s n origin (offer_idle s n event w).1
      go [] hold due =
          let r = pop-Refines [] hold in
          rw (idle_empty event w r.same) (record {
            waiting = [];
            later = event ∷ [];
            holds = r.holds;
            exclusive = rw alone (runs event none false, refl);
            order = rw (v.order, due, append-nil);
            exact = λ h. rw alone;
            replayed = v.replayed;
            closed = λ h. cc (open_, h);
          })
      go ((older, t) ∷ js) hold due =
          let r = pop-Refines ((older, t) ∷ js) hold in
          let room : length js ≢ n = ground (arith, hold.count, hold.fits) in
          let (answer, placed) = defer-room r.holds (event, w.next_ticket) room in
          rw (idle_behind event w r.same answer) (record {
            waiting = js ++ (event, w.next_ticket) ∷ [];
            later = v.later ++ event ∷ [];
            holds = placed;
            exclusive = rw alone (runs older (some t) false, refl);
            order = ap (λ es. es ++ event ∷ []) v.order ∙ append_assoc w.ran v.later (event ∷ []);
            exact = λ h. rw (alone, due, map-snoc);
            replayed = v.replayed;
            closed = λ h. cc (open_, h);
          })

  pub closed-kept :
      (event : Event) (waiter : Option ℕ) (w : Shared s)
      → w.queue.terminated ≡ true
      → offer s n event waiter w ≡ (done false, w)
  unfolding offer
  closed-kept event waiter w e = if_true e _ _

  pub idle_offer :
      (event : Event) (waiter : Option ℕ) (w : Shared s)
      → w.queue.terminated ≡ false
      → w.queue.draining ≡ false
      → offer s n event waiter w ≡ offer_idle s n event w
  unfolding offer
  idle_offer event waiter w o d = if_false o _ _ ∙ if_false d _ _

  pub busy_full :
      (event : Event) (waiter : Option ℕ) (w : Shared s)
      → w.queue.terminated ≡ false
      → w.queue.draining ≡ true
      → (w.queue.events.len == n) ≡ true
      → offer s n event waiter w ≡ (
        full event,
        record w { queue = record (w.queue) { room = register waiter w.queue.room } },
      )
  unfolding offer
  busy_full event waiter w o d e = if_false o _ _ ∙ if_true d _ _ ∙ if_true e _ _

  pub busy_room :
      (event : Event) (waiter : Option ℕ) (w : Shared s)
      → w.queue.terminated ≡ false
      → w.queue.draining ≡ true
      → (w.queue.events.len == n) ≡ false
      → (offer s n event waiter w).1 ≡ (enqueue s n event w).1
  unfolding offer
  busy_room event waiter w o d e =
      ap {A = Offer Event × Shared s} (λ p. p.1) (if_false o _ _ ∙ if_true d _ _ ∙ if_false e _ _)
      ∙ placed (enqueue s n event w).0
    where
      placed :
          (r : Result (Unit {0}) (Unit {0}))
          → (elim r as (λ x. Offer Event × Shared s) [
            | ok _ ↦ (queued w.next_ticket, (enqueue s n event w).1)
            | err _ ↦ (done false, (enqueue s n event w).1)
          ]).1
            ≡ (enqueue s n event w).1
      placed (ok u) = refl
      placed (err u) = refl

  has_room :
      {w : Shared s} (v : IsSound s n origin w)
      → (w.queue.events.len == n) ≡ false
      → length v.waiting ≢ n
  has_room v h = ground (arith, h, v.holds.count)

  pub waiter-IsSound :
      (room : List ℕ) (w : Shared s)
      → IsSound s n origin w
      → IsSound s n origin (record w { queue = record (w.queue) { room = room } })
  waiter-IsSound room w v = record {
    waiting = v.waiting;
    later = v.later;
    holds = v.holds;
    exclusive = v.exclusive;
    order = v.order;
    exact = v.exact;
    replayed = v.replayed;
    closed = v.closed;
  }

  pub offer-IsSound :
      (event : Event) (waiter : Option ℕ) (w : Shared s)
      → IsSound s n origin w
      → IsSound s n origin (offer s n event waiter w).1
  offer-IsSound event waiter w v = elim (Bool-cases w.queue.terminated) [
    | inl e ↦ rw (closed-kept event waiter w e) v
    | inr o ↦ elim (Bool-cases w.queue.draining) [
      | inl d ↦ elim (Bool-cases (w.queue.events.len == n)) [
        | inl e ↦
            rw (busy_full event waiter w o d e) (waiter-IsSound (register waiter w.queue.room) w v)
        | inr h ↦ rw (busy_room event waiter w o d h) (queued-IsSound event w v (has_room v h))
      ]
      | inr d ↦
          rw (idle_offer event waiter w o d)
            (idle-IsSound event w v (subst (λ b. Exclusive b w.drainers) d v.exclusive) o)
    ]
  ]
