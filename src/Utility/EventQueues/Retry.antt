-- ===== src/Utility/EventQueues/Retry.antt =====
-- The retries of `EventQueues::dispatch`, step by step, and that they end.
use sml_rs.Base.{
  ℕ, zero, suc, ◌+◌, ◌≡◌, refl, sym, subst, ◌∙◌, Option-cases, inl, inr, Option, none, some,
}
use native.Mathlib.Nat.{add_comm}
use sml_rs.Utility.EventQueue
use sml_rs.Utility.EventQueues.{
  DispatchSummary, EventQueues, Callback, Progress, offer, drain_processed, retry,
}
use sml_rs.Utility.EventQueues.Drain.{past_deferred, Ends, drain_more}

module _ {M E : Type 0} (d p : ℕ) (callback : Callback M E) where
  abbrev pub drain : ℕ → Progress M E → Option (Progress M E)
  drain = drain_processed p callback

  pub retry-none :
      (fuel k : ℕ) (m : M) (q : EventQueues E) (s : DispatchSummary)
      → (EventQueue.pop d q.deferred).0 ≡ none
      → retry d p callback fuel (suc k) (m, q, s)
        ≡ retry d p callback fuel k (m, past_deferred d q, s)
  unfolding retry
  retry-none fuel k m q s h = rw (h, retry)

  pub retry-some :
      (fuel k : ℕ) (m : M) (q : EventQueues E) (s : DispatchSummary) {x : E} {w : Progress M E}
      → (EventQueue.pop d q.deferred).0 ≡ some x
      → drain fuel (offer callback x (m, past_deferred d q, s)) ≡ some w
      → retry d p callback fuel (suc k) (m, q, s) ≡ retry d p callback fuel k w
  unfolding retry
  retry-some fuel k m q s h e = rw (h, e, retry)

  retry_stuck :
      (fuel k : ℕ) (m : M) (q : EventQueues E) (s : DispatchSummary) {x : E}
      → (EventQueue.pop d q.deferred).0 ≡ some x
      → drain fuel (offer callback x (m, past_deferred d q, s)) ≡ none
      → retry d p callback fuel (suc k) (m, q, s) ≡ none
  unfolding retry
  retry_stuck fuel k m q s h e = rw (h, e, retry)

  pub retry_more :
      (fuel j k : ℕ) (w : Progress M E) {v : Progress M E}
      → retry d p callback fuel k w ≡ some v
      → retry d p callback (j + fuel) k w ≡ some v
  retry_more fuel j zero w h = unfold retry in h
  retry_more fuel j (suc k) (m, q, s) h = elim (Option-cases (EventQueue.pop d q.deferred).0) [
    | inl e ↦
        retry-none (j + fuel) k m q s e
        ∙ retry_more fuel j k (m, past_deferred d q, s) (sym (retry-none fuel k m q s e) ∙ h)
    | inr (x, e) ↦ elim (Option-cases (drain fuel (offer callback x (m, past_deferred d q, s)))) [
      | inl n ↦ absurd (cc (retry_stuck fuel k m q s e n))
      | inr (w, n) ↦
          retry-some (j + fuel) k m q s e (drain_more p callback fuel j _ n)
          ∙ retry_more fuel j k w (sym (retry-some fuel k m q s e n) ∙ h)
    ]
  ]

  abbrev pub RetryEnds : ℕ → Progress M E → Type 0
  RetryEnds k w = (fuel : ℕ) × (v : Progress M E) × (retry d p callback fuel k w ≡ some v)

  pub retry_Ends :
      ((w : Progress M E) → Ends p callback w) → (k : ℕ) (w : Progress M E) → RetryEnds k w
  retry_Ends drains zero w = (0, w, unfold retry in refl)
  retry_Ends drains (suc k) (m, q, s) = elim (Option-cases (EventQueue.pop d q.deferred).0) [
    | inl e ↦
        let (f, v, h) = retry_Ends drains k (m, past_deferred d q, s) in
        (f, v, retry-none f k m q s e ∙ h)
    | inr (x, e) ↦
        let (f, w, h) = drains (offer callback x (m, past_deferred d q, s)) in
        let (g, v, i) = retry_Ends drains k w in
        (
          g + f,
          v,
          retry-some (g + f) k m q s e (drain_more p callback f g _ h)
              ∙ subst (λ n. retry d p callback n k w ≡ some v) (add_comm f g)
                  (retry_more g f k w i),
        )
  ]

  -- What every retried event's drain keeps holds after the retries.
  pub retry_inv :
      (P : Progress M E → Type 0) (fuel : ℕ)
      → ((m : M) (q : EventQueues E) (s : DispatchSummary)
          → P (m, q, s)
          → P (m, past_deferred d q, s))
      → ((x : E) (w v : Progress M E) → P w → drain fuel (offer callback x w) ≡ some v → P v)
      → (k : ℕ) (w : Progress M E) {v : Progress M E} → P w
      → retry d p callback fuel k w ≡ some v
      → P v
  retry_inv P fuel popped drained zero w {v = v} h e =
      let same : w ≡ v = unfold retry in cc e in subst P same h
  retry_inv P fuel popped drained (suc k) (m, q, s) h e =
      elim (Option-cases (EventQueue.pop d q.deferred).0) [
        | inl n ↦
            retry_inv P fuel popped drained k (m, past_deferred d q, s) (popped m q s h)
              (sym (retry-none fuel k m q s n) ∙ e)
        | inr (x, n) ↦
            elim (Option-cases (drain fuel (offer callback x (m, past_deferred d q, s)))) [
              | inl t ↦ absurd (cc (retry_stuck fuel k m q s n t))
              | inr (w, t) ↦
                  retry_inv P fuel popped drained k w
                    (drained x (m, past_deferred d q, s) w (popped m q s h) t)
                    (sym (retry-some fuel k m q s n t) ∙ e)
            ]
      ]
