-- ===== src/Utility/EventQueues/Drain.antt =====
-- The loops of `EventQueues::dispatch`, step by step, and that they end.
use sml_rs.Base.{
  ℕ, zero, suc, ◌+◌, ◌<◌, ◌≡◌, sym, subst, ◌∙◌, Option-cases, inl, inr, none, some, arith,
}
use native.Mathlib.Nat.{add-suc}
use sml_rs.Utility.EventQueue
use sml_rs.Utility.EventQueue.{EventQueue}
use sml_rs.Utility.EventQueues.{
  DispatchSummary, EventQueues, Callback, Progress, offer, drain_processed,
}

module _ {E : Type 0} where
  -- What the queues are once the next processed, or deferred, event is out.
  abbrev pub past_processed : ℕ → EventQueues E → EventQueues E
  past_processed p q = record q { processed = (EventQueue.pop p q.processed).1 }

  abbrev pub past_deferred : ℕ → EventQueues E → EventQueues E
  past_deferred d q = record q { deferred = (EventQueue.pop d q.deferred).1 }

pop-none_same :
    {E : Type 0} (p : ℕ) (q : EventQueue E)
    → (EventQueue.pop p q).0 ≡ none
    → (EventQueue.pop p q).1 ≡ q
unfolding EventQueue.pop
pop-none_same p q h = ground arith

pop_again :
    {E : Type 0} (p : ℕ) (q : EventQueue E)
    → (EventQueue.pop p q).0 ≡ none
    → (EventQueue.pop p (EventQueue.pop p q).1).0 ≡ none
pop_again p q h = rw (pop-none_same p q h) h

module _ {M E : Type 0} (p : ℕ) (callback : Callback M E) where
  pub drain_some :
      (fuel : ℕ) (m : M) (q : EventQueues E) (s : DispatchSummary) {e : E}
      → (EventQueue.pop p q.processed).0 ≡ some e
      → drain_processed p callback (suc fuel) (m, q, s)
        ≡ drain_processed p callback fuel (offer callback e (m, past_processed p q, s))
  unfolding drain_processed
  drain_some fuel m q s h = rw (h, drain_processed)

  pub drain_none :
      (fuel : ℕ) (m : M) (q : EventQueues E) (s : DispatchSummary)
      → (EventQueue.pop p q.processed).0 ≡ none
      → drain_processed p callback (suc fuel) (m, q, s) ≡ some (m, past_processed p q, s)
  unfolding drain_processed
  drain_none fuel m q s h = rw (h, drain_processed)

  -- More fuel gives the same result.
  pub drain_more :
      (fuel k : ℕ) (w : Progress M E) {v : Progress M E}
      → drain_processed p callback fuel w ≡ some v
      → drain_processed p callback (k + fuel) w ≡ some v
  drain_more zero k w h = absurd (unfold drain_processed in cc)
  drain_more (suc fuel) k (m, q, s) h =
      rw add-suc (elim (Option-cases (EventQueue.pop p q.processed).0) [
        | inl e ↦ drain_none (k + fuel) m q s e ∙ sym (drain_none fuel m q s e) ∙ h
        | inr (x, e) ↦
            drain_some (k + fuel) m q s e
            ∙ drain_more fuel k (offer callback x (m, past_processed p q, s))
                (sym (drain_some fuel m q s e) ∙ h)
      ])

  -- A run of `drain_processed` that ends.
  abbrev pub Ends : Progress M E → Type 0
  Ends w = (fuel : ℕ) × (v : Progress M E) × (drain_processed p callback fuel w ≡ some v)

  -- Where each offer of a processed event lowers a measure, every drain ends.
  pub drain_Ends :
      (measure : M → EventQueues E → ℕ)
      → ((m : M) (q : EventQueues E) (s : DispatchSummary) (x : E)
          → (EventQueue.pop p q.processed).0 ≡ some x
          → let (m', q', s') = offer callback x (m, past_processed p q, s) in
            measure m' q' < measure m q)
      → (w : Progress M E) → Ends w
  drain_Ends measure falls (m, q, s) = go (suc (measure m q)) m q s (omega arith)
    where
      go :
          (fuel : ℕ) (m : M) (q : EventQueues E) (s : DispatchSummary)
          → measure m q < fuel
          → Ends (m, q, s)
      go zero m q s h = elim h [ ]
      go (suc fuel) m q s h = elim (Option-cases (EventQueue.pop p q.processed).0) [
        | inl e ↦ (1, (m, past_processed p q, s), drain_none 0 m q s e)
        | inr (x, e) ↦
            let (m', q', s') = offer callback x (m, past_processed p q, s) in
            let (f, v, h') = go fuel m' q' s' (omega (arith, falls m q s x e)) in
            (suc f, v, drain_some f m q s e ∙ h')
      ]

  -- What every offer and every `pop` keeps holds after a drain.
  pub drain_inv :
      (P : Progress M E → Type 0)
      → ((m : M) (q : EventQueues E) (s : DispatchSummary)
          → P (m, q, s)
          → P (m, past_processed p q, s))
      → ((x : E) (w : Progress M E) → P w → P (offer callback x w))
      → (fuel : ℕ) (w : Progress M E) {v : Progress M E} → P w
      → drain_processed p callback fuel w ≡ some v
      → P v
  drain_inv P popped offered zero w h e = absurd (unfold drain_processed in cc)
  drain_inv P popped offered (suc fuel) (m, q, s) h e =
      elim (Option-cases (EventQueue.pop p q.processed).0) [
        | inl n ↦ subst P (cc (drain_none fuel m q s n)) (popped m q s h)
        | inr (x, n) ↦
            drain_inv P popped offered fuel (offer callback x (m, past_processed p q, s))
              (offered x (m, past_processed p q, s) (popped m q s h))
              (sym (drain_some fuel m q s n) ∙ e)
      ]

  -- A drain ends only when no processed event is left.
  pub drain-empty :
      (fuel : ℕ) (w : Progress M E) {v : Progress M E}
      → drain_processed p callback fuel w ≡ some v
      → (EventQueue.pop p v.1.processed).0 ≡ none
  drain-empty zero w e = absurd (unfold drain_processed in cc)
  drain-empty (suc fuel) (m, q, s) {v = v} e =
      elim (Option-cases (EventQueue.pop p q.processed).0) [
        | inl n ↦
            let same : (m, past_processed p q, s) ≡ v = cc (drain_none fuel m q s n) in
            subst (λ w. (EventQueue.pop p w.1.processed).0 ≡ none) same (pop_again p q.processed n)
        | inr (x, n) ↦
            drain-empty fuel (offer callback x (m, past_processed p q, s))
              (sym (drain_some fuel m q s n) ∙ e)
      ]
