-- ===== src/Utility/EventQueues/Dispatch.antt =====
-- `EventQueues::dispatch` as a whole: it ends, drains every processed event, and counts right.
use sml_rs.Base.{
  ℕ, ◌+◌, ◌≤◌, ◌≡◌, sym, subst, ◌∙◌, ltb, Bool-cases, Option-cases, inl, inr, none, some, arith,
}
use native.Mathlib.Nat.{add_comm}
use sml_rs.Utility.EventQueue
use sml_rs.Utility.EventQueues.{
  DispatchStatus, DispatchSummary, no_dispatch, record_status, EventQueues, Callback, Progress,
  offer, drain_processed, retry_deferred, dispatch,
}
use sml_rs.Utility.EventQueues.Drain.{Ends, drain_more, drain_inv, drain-empty}
use sml_rs.Utility.EventQueues.Retry.{retry_Ends, retry_more, retry_inv}

module _ {M E : Type 0} (d p : ℕ) (callback : Callback M E) where
  retry_deferred-Ends :
      ((w : Progress M E) → Ends p callback w)
      → (w : Progress M E)
      → (fuel : ℕ) × (v : Progress M E) × (retry_deferred d p callback fuel w ≡ some v)
  unfolding retry_deferred
  retry_deferred-Ends drains (m, q, s) = elim (Bool-cases (ltb 0 s.transitioned)) [
    | inl yes_ ↦
        let (f, v, h) = retry_Ends d p callback drains q.deferred.len (m, q, s) in (f, v, rw yes_ h)
    | inr no_ ↦ (0, (m, q, s), rw no_)
  ]

  retry_deferred_more :
      (fuel j : ℕ) (w : Progress M E) {v : Progress M E}
      → retry_deferred d p callback fuel w ≡ some v
      → retry_deferred d p callback (j + fuel) w ≡ some v
  unfolding retry_deferred
  retry_deferred_more fuel j (m, q, s) {v} h = elim (Bool-cases (ltb 0 s.transitioned)) [
    | inl t ↦ rw t (retry_more d p callback fuel j q.deferred.len (m, q, s) (rw t at h))
    | inr t ↦ rw t (rw t at h)
  ]

  -- A dispatch that returns, by what each of its two stages returns.
  dispatch_stages :
      (fuel : ℕ) (m : M) (q : EventQueues E) (e : E) {v : Progress M E}
      → dispatch d p callback fuel m q e ≡ some v
      → (w : Progress M E) × (drain_processed p callback fuel (offer callback e (m, q, no_dispatch))
          ≡ some w)
        × (retry_deferred d p callback fuel w ≡ some v)
  dispatch_stages fuel m q e {v} h =
      elim (Option-cases (drain_processed p callback fuel (offer callback e (m, q, no_dispatch)))) [
        | inl n ↦ absurd (unfold dispatch in cc (stop n))
        | inr (w, n) ↦ (w, n, sym (go w n) ∙ h)
      ]
    where
      stop :
          drain_processed p callback fuel (offer callback e (m, q, no_dispatch)) ≡ none
          → dispatch d p callback fuel m q e ≡ none
      stop n = unfold dispatch in rw (n, dispatch)

      go :
          (w : Progress M E)
          → drain_processed p callback fuel (offer callback e (m, q, no_dispatch)) ≡ some w
          → dispatch d p callback fuel m q e ≡ retry_deferred d p callback fuel w
      go w n = unfold dispatch in rw (n, dispatch)

  pub dispatch_from_stages :
      (fuel : ℕ) (m : M) (q : EventQueues E) (e : E) {w v : Progress M E}
      → drain_processed p callback fuel (offer callback e (m, q, no_dispatch)) ≡ some w
      → retry_deferred d p callback fuel w ≡ some v
      → dispatch d p callback fuel m q e ≡ some v
  unfolding dispatch
  dispatch_from_stages fuel m q e n h = rw (n, dispatch) h

  -- Where every drain of processed events ends, a dispatch returns, whatever the callback defers.
  pub dispatch-Ends :
      ((w : Progress M E) → Ends p callback w)
      → (m : M) (q : EventQueues E) (e : E)
      → (fuel : ℕ) × (v : Progress M E) × (dispatch d p callback fuel m q e ≡ some v)
  dispatch-Ends drains m q e =
      let (f, w, h) = drains (offer callback e (m, q, no_dispatch)) in
      let (g, v, i) = retry_deferred-Ends drains w in
      (
        g + f,
        v,
        dispatch_from_stages (g + f) m q e (drain_more p callback f g _ h) (
            subst (λ n. retry_deferred d p callback n w ≡ some v) (add_comm f g)
              (retry_deferred_more g f w i)),
      )

  abbrev NoneProcessed : Progress M E → Type 0
  NoneProcessed v = (EventQueue.pop p v.1.processed).0 ≡ none

  retry_deferred-empty :
      (fuel : ℕ) (w : Progress M E) {v : Progress M E}
      → NoneProcessed w
      → retry_deferred d p callback fuel w ≡ some v
      → NoneProcessed v
  unfolding retry_deferred
  retry_deferred-empty fuel (m, q, s) {v = v} h e = elim (Bool-cases (ltb 0 s.transitioned)) [
    | inl t ↦
        retry_inv d p callback NoneProcessed fuel (λ m q s h. h)
          (λ x w v h. drain-empty p callback fuel (offer callback x w)) q.deferred.len (m, q, s) h
          (rw t at e)
    | inr t ↦ let same : (m, q, s) ≡ v = cc (rw t at e) in subst NoneProcessed same h
  ]

  -- When a dispatch returns, no event that an action asked to be processed is left waiting.
  pub dispatch-empty :
      (fuel : ℕ) (m : M) (q : EventQueues E) (e : E) {v : Progress M E}
      → dispatch d p callback fuel m q e ≡ some v
      → (EventQueue.pop p v.1.processed).0 ≡ none
  dispatch-empty fuel m q e h =
      let (w, n, r) = dispatch_stages fuel m q e h in
      retry_deferred-empty fuel w (drain-empty p callback fuel _ n) r

-- A summary counts no event as handled, or as a change of state, that it does not count at all.
pub record Consistent (s : DispatchSummary) : Type 0 where
  pub some_event : 1 ≤ s.dispatched
  pub handled_within : s.handled ≤ s.dispatched
  pub transitioned_within : s.transitioned ≤ s.dispatched

record_status-first : (st : DispatchStatus) → Consistent (record_status no_dispatch st)
unfolding record_status
record_status-first st = ground arith

record_status-Consistent :
    (s : DispatchSummary) (st : DispatchStatus) → Consistent s → Consistent (record_status s st)
unfolding record_status
record_status-Consistent s st h = ground arith

module _ {M E : Type 0} (d p : ℕ) (callback : Callback M E) where
  abbrev Counts : Progress M E → Type 0
  Counts w = Consistent w.2

  offer-Counts : (x : E) (w : Progress M E) → Counts w → Counts (offer callback x w)
  unfolding offer
  offer-Counts x (m, q, s) h = record_status-Consistent s (callback m q x).0 h

  drain-Counts :
      (fuel : ℕ) (w : Progress M E) {v : Progress M E}
      → Counts w
      → drain_processed p callback fuel w ≡ some v
      → Counts v
  drain-Counts fuel w = drain_inv p callback Counts (λ m q s h. h) offer-Counts fuel w

  retry_deferred-Counts :
      (fuel : ℕ) (w : Progress M E) {v : Progress M E}
      → Counts w
      → retry_deferred d p callback fuel w ≡ some v
      → Counts v
  unfolding retry_deferred
  retry_deferred-Counts fuel (m, q, s) {v = v} h e = elim (Bool-cases (ltb 0 s.transitioned)) [
    | inl t ↦
        retry_inv d p callback Counts fuel (λ m q s h. h)
          (λ x w v h. drain-Counts fuel (offer callback x w) (offer-Counts x w h)) q.deferred.len
          (m, q, s) h (rw t at e)
    | inr t ↦ let same : (m, q, s) ≡ v = cc (rw t at e) in subst Counts same h
  ]

  -- The summary that a dispatch returns counts at least the event itself, and no more handled
  -- events or changes of state than events, also where its counters saturate.
  pub dispatch-Consistent :
      (fuel : ℕ) (m : M) (q : EventQueues E) (e : E) {v : Progress M E}
      → dispatch d p callback fuel m q e ≡ some v
      → Consistent v.2
  dispatch-Consistent fuel m q e h =
      let (w, n, r) = dispatch_stages d p callback fuel m q e h in
      retry_deferred-Counts fuel w
        (drain-Counts fuel (offer callback e (m, q, no_dispatch))
          (unfold offer in record_status-first (callback m q e).0) n)
        r
