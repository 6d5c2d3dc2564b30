-- ===== src/Scheduler/Fifo/Woken.antt =====
-- `drain` of src/scheduler.rs: the completions that wait for room, and who wakes them.
use sml_rs.Base.{
  ℕ, zero, suc, ◌≤◌, ◌≡◌, ap, subst, ◌∙◌, Bool, true, false, refl, inl, inr, ◌⊎◌, Option,
  Option-cases, none, some, [], ◌∷◌, ◌++◌, usize_max, arith,
}
use sml_rs.Scheduler.{SyncMachineStep}
use sml_rs.Scheduler.Fifo.{
  Drainer, runs, resolves, settles, drops, unwinds, full, Shared, fifo_cell, offer, poll_update,
  run_job, resolve_pending, advance,
}
use sml_rs.Scheduler.Fifo.Completion.{poll_offer}
use sml_rs.Scheduler.Fifo.Registered.{IsRegistered, WasWoken, full-IsRegistered}
use sml_rs.Scheduler.Fifo.Wakes.{
  Apart, resolve_pending-Apart, settle-Wakes, unwind-Wakes, Wakes-woken, Others, update_waiter-at,
  Step-Armed, Step-WasWoken, Watched, Reach-Watched,
}
use sml_rs.Scheduler.Fifo.Step.{Always, Step, offers, Reach, here, onwards, Exclusive, IsSound}
use sml_rs.Scheduler.Fifo.Sound.{Step-IsSound, Reach-IsSound, fifo_cell-IsSound}

module _ (s : SyncMachineStep) (n : ℕ) where
  open s use {Core, Event, start, step}

  -- The pieces of `drain` that are left up to the next wakes, and the thread that runs them alone.
  abbrev pub pieces : Drainer Event → ℕ
  pieces (runs e t b) = 3
  pieces (resolves t a b) = 2
  pieces (drops t) = 2
  pieces (settles b) = 1
  pieces unwinds = 1

  unfoldable pub drain_on : ℕ → Drainer Event → Shared s → Shared s
  unfolding advance
  drain_on zero d w = w
  drain_on (suc k) d w =
      let (next, w') = advance s n false d w in elim next [ none ↦ w' | some d' ↦ drain_on k d' w' ]

  drain_on-once : (d : Drainer Event) (w : Shared s) → drain_on 1 d w ≡ (advance s n false d w).1
  unfolding drain_on
  drain_on-once d w = elim (Option-cases (advance s n false d w).0) [
    | inl e ↦ rw (drain_on, e)
    | inr (d', e) ↦ rw (drain_on, e)
  ]

  -- The waiter is registered with this waker.
  abbrev Waits : ℕ → ℕ → Shared s → Type 0
  Waits v k w = IsRegistered s n v w × (w.wakers v ≡ some k)

  Apart-Waits : (w u : Shared s) (v k : ℕ) → Apart s n k w u → Waits v k w → Waits v k u
  Apart-Waits w u v k (same, (wakers, kept)) (h, e) = (rw same h, ap (λ f. f v) wakers ∙ e)

  settles-wakes :
      (b : Bool) (w : Shared s) (v k : ℕ) → Waits v k w → WasWoken s n k (drain_on 1 (settles b) w)
  unfolding advance
  settles-wakes b w v k (h, e) =
      rw (drain_on-once (settles b) w) (Wakes-woken s n v k (settle-Wakes s n b w) h e)

  unwinds-wakes : (w : Shared s) (v k : ℕ) → Waits v k w → WasWoken s n k (drain_on 1 unwinds w)
  unfolding advance
  unwinds-wakes w v k (h, e) =
      rw (drain_on-once unwinds w) (Wakes-woken s n v k (unwind-Wakes s n w) h e)

  resolves-wakes :
      (t : Option ℕ) (a b : Bool) (w : Shared s) (v k : ℕ)
      → Waits v k w
      → WasWoken s n k (drain_on 2 (resolves t a b) w)
  unfolding drain_on advance
  resolves-wakes t a b w v k h =
      settles-wakes b (resolve_pending s t a w) v k
        (Apart-Waits w (resolve_pending s t a w) v k (resolve_pending-Apart s n t a w k) h)

  drops-wakes :
      (t : Option ℕ) (w : Shared s) (v k : ℕ)
      → Waits v k w
      → WasWoken s n k (drain_on 2 (drops t) w)
  unfolding drain_on advance
  drops-wakes t w v k h =
      unwinds-wakes (resolve_pending s t false w) v k
        (Apart-Waits w (resolve_pending s t false w) v k (resolve_pending-Apart s n t false w k) h)

  -- The state behind a step of the machine.
  abbrev stepped : Event → Shared s → Shared s
  stepped e w = record w { machine = (step w.machine e).0; ran = w.ran ++ e ∷ [] }

  drain_on-more :
      (k : ℕ) (d d' : Drainer Event) (w w' : Shared s)
      → advance s n false d w ≡ (some d', w')
      → drain_on (suc k) d w ≡ drain_on k d' w'
  unfolding drain_on
  drain_on-more k d d' w w' e =
      ap {A = Option (Drainer Event) × Shared s}
        (λ p. elim p.0 [ none ↦ p.1 | some d' ↦ drain_on k d' p.1 ]) e

  runs-closed :
      (e : Event) (t : Option ℕ) (w : Shared s)
      → advance s n false (runs e t true) w ≡ (some (resolves t false true), w)
  unfolding advance run_job
  runs-closed e t w = refl

  runs-panics :
      (e : Event) (t : Option ℕ) (w : Shared s)
      → (step w.machine e).1 ≡ none
      → advance s n false (runs e t false) w ≡ (some (drops t), stepped e w)
  unfolding advance run_job
  runs-panics e t w o = rw (advance, run_job, o)

  runs-answers :
      (e : Event) (t : Option ℕ) (w : Shared s) (a : Bool)
      → (step w.machine e).1 ≡ some a
      → advance s n false (runs e t false) w
        ≡ (some (resolves t a (s.is_terminated (step w.machine e).0)), stepped e w)
  unfolding advance run_job
  runs-answers e t w a o = rw (advance, run_job, o)

  drain_on-wakes :
      (d : Drainer Event) (w : Shared s) (v k : ℕ)
      → Waits v k w
      → WasWoken s n k (drain_on (pieces d) d w)
  drain_on-wakes (runs e t true) w v k h =
      rw (drain_on-more 2 (runs e t true) (resolves t false true) w w (runs-closed e t w))
        (resolves-wakes t false true w v k h)
  drain_on-wakes (runs e t false) w v k h = elim (Option-cases (step w.machine e).1) [
    | inl o ↦
        rw (drain_on-more 2 (runs e t false) (drops t) w (stepped e w) (runs-panics e t w o))
          (drops-wakes t (stepped e w) v k h)
    | inr (a, o) ↦
        let ended : Bool = s.is_terminated (step w.machine e).0 in
        rw
          (drain_on-more 2 (runs e t false) (resolves t a ended) w (stepped e w)
            (runs-answers e t w a o))
          (resolves-wakes t a ended (stepped e w) v k h)
  ]
  drain_on-wakes (resolves t a b) w v k h = resolves-wakes t a b w v k h
  drain_on-wakes (drops t) w v k h = drops-wakes t w v k h
  drain_on-wakes (settles b) w v k h = settles-wakes b w v k h
  drain_on-wakes unwinds w v k h = unwinds-wakes w v k h

  -- Steps of others, from a state in which the waiter holds the waker.
  Reach-held :
      (v k : ℕ) {w u : Shared s}
      → Reach s n false (Others s n v) w u
      → WasWoken s n k w ⊎ (w.wakers v ≡ some k)
      → WasWoken s n k u ⊎ (u.wakers v ≡ some k)
  Reach-held v k here h = h
  Reach-held v k (onwards r t) h = elim (Reach-held v k r h) [
    | inl woken ↦ inl (Step-WasWoken s n k t woken)
    | inr e ↦ elim (Step-Armed s n v k t e) [ inl woken ↦ inl woken | inr armed ↦ inr armed.0 ]
  ]

  Reach-Waits :
      (v k : ℕ) {w u : Shared s}
      → Reach s n false (Others s n v) w u
      → WasWoken s n k w ⊎ Waits v k w
      → WasWoken s n k u ⊎ Waits v k u
  Reach-Waits v k here h = h
  Reach-Waits v k (onwards r t) h = elim (Reach-Waits v k r h) [
    | inl woken ↦ inl (Step-WasWoken s n k t woken)
    | inr (now, e) ↦ elim (Step-Armed s n v k t e) [
      | inl woken ↦ inl woken
      | inr (e', on) ↦ inr (on now, e')
    ]
  ]

  onwards_to :
      {used : ℕ → Type 0} {w v m u : Shared s}
      → Reach s n false used w v
      → Step s n false used v m
      → Reach s n false used m u
      → Reach s n false used w u
  onwards_to r t here = onwards r t
  onwards_to r t (onwards q x) = onwards (onwards_to r t q) x

  pieces-le : (d : Drainer Event) → pieces d ≤ 3
  pieces-le (runs e t b) = omega arith
  pieces-le (resolves t a b) = omega arith
  pieces-le (drops t) = omega arith
  pieces-le (settles b) = omega arith
  pieces-le unwinds = omega arith

  -- What a waiter that waits may rely on.
  abbrev pub IsServed : ℕ → ℕ → Shared s → Type 0
  IsServed v k u =
      IsRegistered s n v u
      × (d : Drainer Event) × (u.drainers ≡ d ∷ [])
      × (pieces d ≤ 3)
      × WasWoken s n k (drain_on (pieces d) d u)

  Waits-IsServed :
      (origin : Core) (u : Shared s) (v k : ℕ)
      → IsSound s n origin u
      → Watched s n v u
      → Waits v k u
      → IsServed v k u
  Waits-IsServed origin u v k sound busy (h, e) =
      let alone : Exclusive true u.drainers =
        subst (λ b. Exclusive b u.drainers) (busy h) sound.exclusive in
      (h, alone.0, alone.1, pieces-le alone.0, drain_on-wakes alone.0 u v k (h, e))

  -- A completion stores a waker at the start of a poll, and no waker has been woken since.
  abbrev pub poll_starts : ℕ → ℕ → Shared s → Shared s
  poll_starts v k w = poll_update s v k (record w { woken = [] })

  poll_starts-IsSound :
      (origin : Core) (v k : ℕ) (w : Shared s)
      → IsSound s n origin w
      → IsSound s n origin (poll_starts v k w)
  unfolding poll_update
  poll_starts-IsSound origin v k w a = record {
    waiting = a.waiting;
    later = a.later;
    holds = a.holds;
    exclusive = a.exclusive;
    order = a.order;
    exact = a.exact;
    replayed = a.replayed;
    closed = a.closed;
  }

  nothing_registered : (core : Core) (v : ℕ) → Watched s n v (fifo_cell s n core)
  unfolding fifo_cell
  nothing_registered core v h = cc

  -- Where no thread offers events while it unwinds: a completion stores the waker `k` of its poll,
  -- other threads go on in any order, and its offer finds the queue full; then other threads go on
  -- again. In every state that is reached, `k` has been woken since the poll began, or the completion
  -- is registered, exactly one thread is inside `drain`, and at most three pieces of
  -- what that thread runs wake `k`, also where the machine panics or has terminated.
  pub poll_offer-woken :
      (core : Core)
      → n ≤ usize_max
      → (w : Shared s) → Reach s n false Always (fifo_cell s n core) w
      → (v k : ℕ) (between : Shared s) → Reach s n false (Others s n v) (poll_starts v k w) between
      → (event event' : Event) → (poll_offer s n event v between).0 ≡ full event'
      → (u : Shared s) → Reach s n false (Others s n v) (poll_offer s n event v between).1 u
      → WasWoken s n k u ⊎ IsServed v k u
  unfolding poll_offer
  poll_offer-woken core bound w r v k between q event event' h u q' =
      elim (Reach-Waits v k q' offered) [
        | inl woken ↦ inl woken
        | inr waits ↦ inr (Waits-IsServed (start core).0 u v k sound busy waits)
      ]
    where
      o : Step s n false (Others s n v) between (offer s n event (some v) between).1
      o = offers event (some v) between

      held : WasWoken s n k between ⊎ (between.wakers v ≡ some k)
      held = Reach-held v k q (inr (unfold poll_update in update_waiter-at s n v k w.wakers))

      offered :
          WasWoken s n k (offer s n event (some v) between).1
          ⊎ Waits v k (offer s n event (some v) between).1
      offered = elim held [
        | inl woken ↦ inl (Step-WasWoken s n k o woken)
        | inr e ↦ elim (Step-Armed s n v k o e) [
          | inl woken ↦ inl woken
          | inr armed ↦ inr (full-IsRegistered s n event event' v between h, armed.0)
        ]
      ]

      sound : IsSound s n (start core).0 u
      sound =
          Reach-IsSound s n (start core).0
            (Step-IsSound s n (start core).0
              (Reach-IsSound s n (start core).0
                (poll_starts-IsSound (start core).0 v k w
                  (Reach-IsSound s n (start core).0 (fifo_cell-IsSound s n core bound) r))
                q)
              o)
            q'

      started : Watched s n v (poll_starts v k w)
      started = unfold poll_update in Reach-Watched s n v r (nothing_registered core v)

      busy : Watched s n v u
      busy = Reach-Watched s n v (onwards_to q o q') started
