-- ===== src/Utility/EventQueues.antt =====
-- `EventQueues`, `DispatchStatus` and `DispatchSummary` of src/utility.rs: a dispatch that drains the
-- events that actions requested and retries the deferred ones.
pub mod Drain
pub mod Retry
pub mod Dispatch
pub mod Quiet
use sml_rs.Base.{
  ℕ, zero, suc, ltb, Bool, if◌then◌else◌, Option, none, some, saturating_add, from_bool, Result,
}
use sml_rs.Utility.EventQueue
use sml_rs.Utility.EventQueue.{EventQueue, QueueFull}

pub record DispatchStatus : Type 0 where
  pub handled : Bool
  pub transitioned : Bool

pub record DispatchSummary : Type 0 where
  pub dispatched : ℕ
  pub handled : ℕ
  pub transitioned : ℕ

-- `DispatchSummary::default()`.
abbrev pub no_dispatch : DispatchSummary
no_dispatch = record { dispatched = 0; handled = 0; transitioned = 0 }

-- `DispatchSummary::record`.
unfoldable pub record_status : DispatchSummary → DispatchStatus → DispatchSummary
record_status s status = record {
  dispatched = saturating_add s.dispatched 1;
  handled = saturating_add s.handled (from_bool status.handled);
  transitioned = saturating_add s.transitioned (from_bool status.transitioned);
}

pub record EventQueues (E : Type 0) : Type 0 where
  pub deferred : EventQueue E
  pub processed : EventQueue E

-- The dispatch closure: it may change the machine and both queues.
abbrev pub Callback : Type 0 → Type 0 → Type 0
Callback M E = M → EventQueues E → E → DispatchStatus × M × EventQueues E

-- The machine, the queues and the summary that a loop carries.
abbrev pub Progress : Type 0 → Type 0 → Type 0
Progress M E = M × EventQueues E × DispatchSummary

-- `d` and `p` stand for the const parameters `DEFERRED` and `PROCESSED`.
module _ {E : Type 0} where
  unfoldable pub new : ℕ → ℕ → EventQueues E
  unfolding EventQueue.new
  new d p = record { deferred = EventQueue.new d; processed = EventQueue.new p }

  unfoldable pub defer : ℕ → E → EventQueues E → Result (Unit {0}) QueueFull × EventQueues E
  defer d event q =
      let (r, deferred) = EventQueue.defer d event q.deferred in
      (r, record q { deferred = deferred })

  unfoldable pub process : ℕ → E → EventQueues E → Result (Unit {0}) QueueFull × EventQueues E
  process p event q =
      let (r, processed) = EventQueue.process p event q.processed in
      (r, record q { processed = processed })

module _ {M E : Type 0} (callback : Callback M E) where
  -- One offer of an event, and its entry in the summary.
  unfoldable pub offer : E → Progress M E → Progress M E
  offer event (m, q, s) =
      let (status, m', q') = callback m q event in (m', q', record_status s status)

module _ {M E : Type 0} (p : ℕ) (callback : Callback M E) where
  -- `while let Some(event) = self.processed.pop()`; `none` when the fuel runs out.
  unfoldable pub drain_processed : ℕ → Progress M E → Option (Progress M E)
  drain_processed zero w = none
  drain_processed (suc fuel) (m, q, s) =
      let (next, rest) = EventQueue.pop p q.processed in
      let q' : EventQueues E = record q { processed = rest } in
      elim next [
        | none ↦ some (m, q', s)
        | some event ↦ drain_processed fuel (offer callback event (m, q', s))
      ]

module _ {M E : Type 0} (d p : ℕ) (callback : Callback M E) where
  -- `for _ in 0..retries`.
  unfoldable pub retry : ℕ → ℕ → Progress M E → Option (Progress M E)
  retry fuel zero w = some w
  retry fuel (suc k) (m, q, s) =
      let (next, rest) = EventQueue.pop d q.deferred in
      let q' : EventQueues E = record q { deferred = rest } in
      elim next [
        | none ↦ retry fuel k (m, q', s)
        | some event ↦ elim (drain_processed p callback fuel (offer callback event (m, q', s))) [
          | none ↦ none
          | some w ↦ retry fuel k w
        ]
      ]

  -- The retries after the first drain, if any status changed the state.
  unfoldable pub retry_deferred : ℕ → Progress M E → Option (Progress M E)
  retry_deferred fuel (m, q, s) =
      if ltb 0 s.transitioned then retry fuel q.deferred.len (m, q, s) else some (m, q, s)

  unfoldable pub dispatch : ℕ → M → EventQueues E → E → Option (Progress M E)
  dispatch fuel m q event =
      elim (drain_processed p callback fuel (offer callback event (m, q, no_dispatch))) [
        | none ↦ none
        | some w ↦ retry_deferred fuel w
      ]
