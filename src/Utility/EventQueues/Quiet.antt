-- ===== src/Utility/EventQueues/Quiet.antt =====
-- The order in which `EventQueues::dispatch` offers events, for a callback that queues none itself.
use sml_rs.Base.{
  ℕ, zero, suc, ◌<◌, ◌≡◌, refl, sym, subst, ◌∙◌, ltb, if◌then◌else◌, Bool-cases, inl, inr, length,
  some, List, [], ◌∷◌, arith,
}
use sml_rs.Utility.EventQueue.Deque.{pop_front}
use sml_rs.Utility.EventQueue.Refine.{Holds, pop-Refines}
use sml_rs.Utility.EventQueues.{
  DispatchStatus, DispatchSummary, no_dispatch, record_status, EventQueues, Callback, offer,
  drain_processed, retry, retry_deferred, dispatch,
}
use sml_rs.Utility.EventQueues.Drain.{past_processed, past_deferred, drain_some, drain_none}
use sml_rs.Utility.EventQueues.Retry.{retry-some}
use sml_rs.Utility.EventQueues.Dispatch.{dispatch_from_stages}

-- A machine's answer to one event.
abbrev pub Handler : Type 0 → Type 0 → Type 0
Handler M E = M → E → DispatchStatus × M

-- The callback that queues nothing.
abbrev pub quiet : {M E : Type 0} → Handler M E → Callback M E
quiet handle m q e = ((handle m e).0, (handle m e).1, q)

-- The machine and the summary after a list of events is offered in order.
abbrev pub offers :
    {M E : Type 0} → Handler M E → M → DispatchSummary → List E → M × DispatchSummary
offers handle m s [] = (m, s)
offers handle m s (x ∷ xs) = offers handle (handle m x).1 (record_status s (handle m x).0) xs

-- The two queues hold these events, the next ones first.
pub record Hold {E : Type 0} (d p : ℕ) (q : EventQueues E) (ds ps : List E) : Type 0 where
  pub deferred_holds : Holds d q.deferred ds
  pub processed_holds : Holds p q.processed ps

module _ {M E : Type 0} (d p : ℕ) (handle : Handler M E) where
  drain_quiet :
      (ps ds : List E) (fuel : ℕ) (m : M) (q : EventQueues E) (s : DispatchSummary)
      → Hold d p q ds ps
      → length ps < fuel
      → (q' : EventQueues E) × (drain_processed p (quiet handle) fuel (m, q, s)
          ≡ some ((offers handle m s ps).0, q', (offers handle m s ps).1))
        × Hold d p q' ds []
  unfolding pop_front offer
  drain_quiet ps ds zero m q s v h = elim h [ ]
  drain_quiet [] ds (suc fuel) m q s v h =
      let r = pop-Refines [] v.processed_holds in
      (
        past_processed p q,
        drain_none p (quiet handle) fuel m q s r.same,
        record { deferred_holds = v.deferred_holds; processed_holds = r.holds },
      )
  drain_quiet (x ∷ ps) ds (suc fuel) m q s v h =
      let r = pop-Refines (x ∷ ps) v.processed_holds in
      let (q', e, v') =
        drain_quiet ps ds fuel (handle m x).1 (past_processed p q) (record_status s (handle m x).0)
          (record { deferred_holds = v.deferred_holds; processed_holds = r.holds }) (omega arith) in
      (q', drain_some p (quiet handle) fuel m q s r.same ∙ e, v')

  retry-quiet :
      (ds : List E) (fuel : ℕ) (m : M) (q : EventQueues E) (s : DispatchSummary)
      → Hold d p q ds []
      → 0 < fuel
      → (q' : EventQueues E) × (retry d p (quiet handle) fuel (length ds) (m, q, s)
          ≡ some ((offers handle m s ds).0, q', (offers handle m s ds).1))
        × Hold d p q' [] []
  unfolding pop_front offer
  retry-quiet [] fuel m q s v h = (q, unfold retry in refl, v)
  retry-quiet (x ∷ ds) fuel m q s v h =
      let r = pop-Refines (x ∷ ds) v.deferred_holds in
      let (q₁, e₁, v₁) =
        drain_quiet [] ds fuel (handle m x).1 (past_deferred d q) (record_status s (handle m x).0)
          (record { deferred_holds = r.holds; processed_holds = v.processed_holds }) h in
      let (q', e, v') =
        retry-quiet ds fuel (handle m x).1 q₁ (record_status s (handle m x).0) v₁ h in
      (q', retry-some d p (quiet handle) fuel (length ds) m q s r.same e₁ ∙ e, v')

  -- The events that a dispatch leaves deferred, and what it makes of the machine and the summary:
  -- the deferred events are offered too if some offer before them changed the state.
  abbrev pub dispatch_order : M × DispatchSummary → List E → M × DispatchSummary × List E
  dispatch_order (m, s) ds =
      if ltb 0 s.transitioned
      then ((offers handle m s ds).0, (offers handle m s ds).1, [])
      else (m, s, ds)

  finish_quiet :
      (ds : List E) (fuel : ℕ) (w : M × DispatchSummary) (q : EventQueues E)
      → Hold d p q ds []
      → 0 < fuel
      → (q' : EventQueues E) × (retry_deferred d p (quiet handle) fuel (w.0, q, w.1)
          ≡ some ((dispatch_order w ds).0, q', (dispatch_order w ds).1))
        × Hold d p q' (dispatch_order w ds).2 []
  unfolding retry_deferred
  finish_quiet ds fuel (m, s) q v h = elim (Bool-cases (ltb 0 s.transitioned)) [
    | inl t ↦
        let (q', e, v') = retry-quiet ds fuel m q s v h in
        rw t (
          q',
          subst
              (λ k.
                retry d p (quiet handle) fuel k (m, q, s)
                ≡ some ((offers handle m s ds).0, q', (offers handle m s ds).1))
              (sym v.deferred_holds.count) e,
          v',
        )
    | inr t ↦ (q, rw t, rw t v)
  ]

  -- With a callback that itself neither defers nor requests events: a dispatch offers the event
  -- first, then the events that wait to be processed in order, and then, exactly if one of these
  -- changed the state, each event that was deferred before once in order. No event to be processed is
  -- left, and the deferred ones are left as they were unless they were retried.
  pub dispatch-quiet :
      (ds ps : List E) (fuel : ℕ) (m : M) (q : EventQueues E) (event : E)
      → Hold d p q ds ps
      → length ps < fuel
      → let out = dispatch_order (offers handle m no_dispatch (event ∷ ps)) ds in
        (q' : EventQueues E) × (dispatch d p (quiet handle) fuel m q event
          ≡ some (out.0, q', out.1))
        × Hold d p q' out.2 []
  unfolding offer
  dispatch-quiet ds ps fuel m q event v h =
      let (q₁, e₁, v₁) =
        drain_quiet ps ds fuel (handle m event).1 q (record_status no_dispatch (handle m event).0) v
          h in
      let (q', e, v') =
        finish_quiet ds fuel (offers handle m no_dispatch (event ∷ ps)) q₁ v₁ (omega arith) in
      (q', dispatch_from_stages d p (quiet handle) fuel m q event e₁ e, v')
