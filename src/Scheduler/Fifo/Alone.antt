-- ===== src/Scheduler/Fifo/Alone.antt =====
-- `drain` of src/scheduler.rs where one thread runs it: what a step of the machine keeps.
use sml_rs.Base.{
  ℕ, ◌≡◌, refl, sym, ap, subst, ◌∙◌, Bool, true, false, ◌&&◌, ◌||◌, Option, List, [], ◌∷◌, ◌++◌,
  map, append-nil, append_assoc, arith,
}
use sml_rs.Scheduler.{SyncMachineStep}
use sml_rs.Scheduler.Ticket.{TicketState}
use sml_rs.Scheduler.Fifo.{Drainer, runs, resolves, Shared}
use sml_rs.Scheduler.Fifo.Step.{
  knows_end, some_knows, all_know, held, in_hand, Exclusive, replay, IsSound,
}

pub not_true : (b : Bool) → (b ≡ true → ⊥) → b ≡ false
not_true true h = absurd (h refl)
not_true false h = refl

module _ (s : SyncMachineStep) (n : ℕ) (origin : s.Core) where
  open s use {Core, Event, step, is_terminated}

  pub replay-append :
      (m : Core) (es : List Event) (e : Event)
      → replay s m (es ++ e ∷ []) ≡ (step (replay s m es) e).0
  replay-append m [] e = refl
  replay-append m (x ∷ es) e = replay-append (step m x).0 es e

  -- What the invariant says where one thread drains, at `d`.
  pub record Alone (w : Shared s) (d : Drainer Event) : Type 0 where
    pub sound : IsSound s n origin w
    pub draining : w.queue.draining ≡ true
    pub exact :
        w.queue.terminated || knows_end d ≡ false
        → sound.later ≡ held d ++ map (λ j. j.0) sound.waiting
    pub closed : w.queue.terminated ≡ true → knows_end d ≡ true

  pub alone :
      (w : Shared s) (d : Drainer Event) → IsSound s n origin w → w.drainers ≡ d ∷ [] → Alone w d
  alone w d v e = record {
    sound = v;
    draining = draining_lem w.queue.draining w.drainers v.exclusive e;
    exact = λ h. exact_lem (subst Exact e v.exact) h;
    closed = λ h. closed_lem (subst AllKnow e v.closed h);
  }
    where
      waits : List Event
      waits = map (λ j. j.0) v.waiting

      Exact : List (Drainer Event) → Type 0
      Exact ds = w.queue.terminated || some_knows ds ≡ false → v.later ≡ in_hand ds ++ waits

      AllKnow : List (Drainer Event) → Type 0
      AllKnow ds = w.queue.terminated ≡ true → all_know ds ≡ true

      exact_lem :
          Exact (d ∷ []) → w.queue.terminated || knows_end d ≡ false → v.later ≡ held d ++ waits
      exact_lem x h = x (ground (arith, h)) ∙ ap (λ es. es ++ waits) (append-nil (held d))

      closed_lem : knows_end d && true ≡ true → knows_end d ≡ true
      closed_lem h = ground (arith, h)

      draining_lem :
          (b : Bool) (ds : List (Drainer Event)) → Exclusive b ds → ds ≡ d ∷ [] → b ≡ true
      draining_lem true ds x e = refl
      draining_lem false ds x e = cc

  -- The thread goes on, and knows no more than it did; nothing else changes that the invariant reads.
  pub run_job-end :
      (w : Shared s) (event : Event) (t : Option ℕ)
      → Alone w (runs event t true)
      → IsSound s n origin (record w { drainers = resolves t false true ∷ [] })
  run_job-end w event t a = record {
    waiting = a.sound.waiting;
    later = a.sound.later;
    holds = a.sound.holds;
    exclusive = rw a.draining (resolves t false true, refl);
    order = a.sound.order;
    exact = λ h. absurd (ground arith);
    replayed = a.sound.replayed;
    closed = λ h. refl;
  }

  -- A thread that does not know that the machine has terminated is right, and holds what is due.
  pub still_open :
      {w : Shared s} {d : Drainer Event} (a : Alone w d)
      → knows_end d ≡ false
      → (w.queue.terminated ≡ false) × (a.sound.later ≡ held d ++ map (λ j. j.0) a.sound.waiting)
  still_open {w} a k =
      let f = not_true w.queue.terminated (λ h. cc (a.closed h, k)) in
      (f, a.exact (ground (arith, f, k)))

  pub run_job-steps :
      (w : Shared s) (event : Event) (t : Option ℕ) (next : Drainer Event)
      → Alone w (runs event t false)
      → held next ≡ []
      → IsSound s n origin (record w {
        machine = (step w.machine event).0;
        ran = w.ran ++ event ∷ [];
        drainers = next ∷ [];
      })
  run_job-steps w event t next a none_held =
      let (open_, due) = still_open a refl in
      record {
        waiting = a.sound.waiting;
        later = map (λ j. j.0) a.sound.waiting;
        holds = a.sound.holds;
        exclusive = rw a.draining (next, refl);
        order =
            a.sound.order
            ∙ ap (λ es. w.ran ++ es) due
            ∙ sym (append_assoc w.ran (event ∷ []) (map (λ j. j.0) a.sound.waiting));
        exact = λ h. rw none_held;
        replayed = rw (a.sound.replayed, replay-append);
        closed = λ h. cc (open_, h);
      }

  -- The thread goes on with the same knowledge; nothing that the invariant reads changes.
  pub goes_on :
      (w : Shared s) (d next : Drainer Event) (tickets : ℕ → TicketState) (woken : List ℕ)
      → Alone w d
      → held d ≡ []
      → held next ≡ []
      → knows_end next ≡ knows_end d
      → IsSound s n origin (record w { tickets = tickets; woken = woken; drainers = next ∷ [] })
  goes_on w d next tickets woken a hd hn k = record {
    waiting = a.sound.waiting;
    later = a.sound.later;
    holds = a.sound.holds;
    exclusive = rw a.draining (next, refl);
    order = a.sound.order;
    exact = λ h. rw hn (rw hd at (a.exact (ground (arith, h, k))));
    replayed = a.sound.replayed;
    closed = λ h. ground (arith, k, a.closed h);
  }
