-- ===== src/Utility/SmPool.antt =====
-- `SmPool`, `IndexedEvent` and `OrthogonalRegions` of src/utility.rs: groups of machines in storage
-- that the caller chooses, read here as the list that `AsMut<[M]>` gives.
pub mod Batch
use sml_rs.Base.{
  ℕ, zero, suc, ◌+◌, Bool, Option, none, some, List, [], ◌∷◌, map, get_elem?, set, saturating_add,
  from_bool,
}

pub record IndexedEvent (E : Type 0) : Type 0 where
  pub index : ℕ
  pub event : E

unfoldable pub with_id : {E : Type 0} → ℕ → E → IndexedEvent E
with_id index event = record { index = index; event = event }

module _ {M : Type 0} where
  -- `enumerate` counts the machines from `index` on.
  unfoldable pub reset_from : (ℕ → M) → ℕ → List M → List M
  reset_from initialize index [] = []
  reset_from initialize index (m ∷ ms) = initialize index ∷ reset_from initialize (suc index) ms

  unfoldable pub reset : (ℕ → M) → List M → List M
  unfolding reset_from
  reset initialize machines = reset_from initialize 0 machines

module _ {M E R : Type 0} where
  -- `get_mut(index).map(|machine| dispatch(machine, event))`.
  unfoldable pub process_indexed : ℕ → E → (M → E → M × R) → List M → Option R × List M
  process_indexed index event dispatch machines = elim (get_elem? machines index) [
    | none ↦ (none, machines)
    | some m ↦ (some (dispatch m event).1, set machines index (dispatch m event).0)
  ]

-- A batch closure, `FnMut(&mut M, E)`, changes a machine and the state `S` that it captures.
module _ {M E S : Type 0} (dispatch : M → E → S → M × S) where
  -- The machines, `handled`, and what the closure captures.
  abbrev pub Batched : Type 0
  Batched = List M × ℕ × S

  -- The loop body of both batches, for one index.
  unfoldable pub batch_step : ℕ → E → Batched → Batched
  batch_step index event (machines, handled, s) = elim (get_elem? machines index) [
    | none ↦ (machines, handled, s)
    | some m ↦
        let (m', s') = dispatch m event s in (set machines index m', saturating_add handled 1, s')
  ]

  unfoldable pub indexed_batch_from : List ℕ → E → Batched → Batched
  unfolding batch_step
  indexed_batch_from [] event w = w
  indexed_batch_from (index ∷ indices) event w =
      indexed_batch_from indices event (batch_step index event w)

  unfoldable pub process_indexed_batch : List ℕ → E → List M → S → Batched
  unfolding indexed_batch_from
  process_indexed_batch indices event machines s = indexed_batch_from indices event (machines, 0, s)

  unfoldable pub event_batch_from : List (IndexedEvent E) → Batched → Batched
  unfolding batch_step
  event_batch_from [] w = w
  event_batch_from (e ∷ es) w = event_batch_from es (batch_step e.index e.event w)

  unfoldable pub process_event_batch : List (IndexedEvent E) → List M → S → Batched
  unfolding event_batch_from
  process_event_batch events machines s = event_batch_from events (machines, 0, s)

-- `Machine::process_event` of the regions is the argument: the new region, and whether it accepted.
module _ {M E : Type 0} (process : M → E → M × Bool) where
  -- The `fold` over the regions, with the count so far.
  unfoldable pub broadcast_from : E → ℕ → List M → List M × ℕ
  broadcast_from event handled [] = ([], handled)
  broadcast_from event handled (m ∷ ms) =
      let (m', accepted) = process m event in
      let (ms', total) = broadcast_from event (saturating_add handled (from_bool accepted)) ms in
      (m' ∷ ms', total)

  -- `OrthogonalRegions::process_event`.
  unfoldable pub broadcast : E → List M → List M × ℕ
  unfolding broadcast_from
  broadcast event regions = broadcast_from event 0 regions
