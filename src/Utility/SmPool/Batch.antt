-- ===== src/Utility/SmPool/Batch.antt =====
-- Which machine of a pool receives which events, and what the counts of a batch mean.
use sml_rs.Base.{
  ℕ, zero, suc, ◌+◌, ◌≤◌, ◌≡◌, ◌≢◌, refl, ap, ◌∙◌, Bool, ltb, ◌==◌, if◌then◌else◌, some, List, [],
  ◌∷◌, map, length, get_elem?, length-set, get_elem?-set_self, get_elem?-set_ne, saturating_add,
  from_bool, min, usize_max, Bool-cases, ==_iff, ==_eq, get_elem?_lt, get_elem?_ge, Option-cases,
  inl, inr, arith,
}
use mathlib.Core.Option
use sml_rs.Utility.SmPool.{
  IndexedEvent, with_id, reset_from, reset, batch_step, indexed_batch_from, process_indexed_batch,
  event_batch_from, process_event_batch, broadcast_from, broadcast,
}

-- What the closure does to a machine, which does not depend on what it captures.
module _ {M E S : Type 0} (dispatch : M → E → S → M × S) (change : M → E → M)
    (changes : (m : M) (e : E) (s : S) → (dispatch m e s).0 ≡ change m e) where
  -- The events of a batch that bear the index `i`, in their order.
  abbrev pub events_for : ℕ → List (IndexedEvent E) → List E
  events_for i [] = []
  events_for i (e ∷ es) = if e.index == i then e.event ∷ events_for i es else events_for i es

  -- A machine after a list of events.
  abbrev pub deliver : M → List E → M
  deliver m [] = m
  deliver m (e ∷ es) = deliver (change m e) es

  batch_step_at :
      (index : ℕ) (e : E) (machines : List M) (n : ℕ) (s : S) (i : ℕ) {m : M}
      → get_elem? machines i ≡ some m
      → get_elem? (batch_step dispatch index e (machines, n, s)).0 i
        ≡ some (if index == i then change m e else m)
  unfolding batch_step
  batch_step_at index e machines n s i {m} h = elim (Bool-cases (index == i)) [
    | inl same ↦
        let p : index ≡ i = (==_iff index i).0 same in
        let at : get_elem? machines index ≡ some m = rw p h in
        rw (same, at, batch_step, changes m e s)
          (rw p (get_elem?-set_self machines i (change m e) (get_elem?_lt machines i h)))
    | inr other ↦
        let p : index ≢ i = λ q. cc (==_eq index i q) in
        rw other (elim (Option-cases (get_elem? machines index)) [
          | inl out ↦ rw (out, batch_step) h
          | inr (m', in_) ↦
              rw (in_, batch_step) (get_elem?-set_ne machines (dispatch m' e s).0 p ∙ h)
        ])
  ]

  event_batch_from_at :
      (events : List (IndexedEvent E)) (w : List M × ℕ × S) (i : ℕ) {m : M}
      → get_elem? w.0 i ≡ some m
      → get_elem? (event_batch_from dispatch events w).0 i ≡ some (deliver m (events_for i events))
  unfolding event_batch_from
  event_batch_from_at [] w i h = h
  event_batch_from_at (e ∷ es) (machines, n, s) i {m} h =
      event_batch_from_at es (batch_step dispatch e.index e.event (machines, n, s)) i
        (batch_step_at e.index e.event machines n s i h)
      ∙ rest
    where
      rest :
          some (deliver (if e.index == i then change m e.event else m) (events_for i es))
          ≡ some (deliver m (events_for i (e ∷ es)))
      rest = elim (Bool-cases (e.index == i)) [ inl t ↦ rw t | inr t ↦ rw t ]

  -- The machine at place `i` of a pool receives exactly the events of the batch that bear `i`, in
  -- their order, whatever the other events are, where what the closure does to a machine depends on the
  -- machine and the event, and not on what it captures.
  pub process_event_batch_at :
      (events : List (IndexedEvent E)) (machines : List M) (s : S) (i : ℕ) {m : M}
      → get_elem? machines i ≡ some m
      → get_elem? (process_event_batch dispatch events machines s).0 i
        ≡ some (deliver m (events_for i events))
  unfolding process_event_batch
  process_event_batch_at events machines s i h = event_batch_from_at events (machines, 0, s) i h

module _ {M E S : Type 0} (dispatch : M → E → S → M × S) where
  -- How many events bear the index of one of `k` machines.
  abbrev pub valid : ℕ → List (IndexedEvent E) → ℕ
  valid k [] = 0
  valid k (e ∷ es) = from_bool (ltb e.index k) + valid k es

  batch_step_counts :
      (index : ℕ) (e : E) (w : List M × ℕ × S)
      → (length (batch_step dispatch index e w).0 ≡ length w.0)
        × ((batch_step dispatch index e w).1
            ≡ (if ltb index (length w.0) then saturating_add w.1 1 else w.1))
  unfolding batch_step
  batch_step_counts index e (machines, n, s) = elim (Option-cases (get_elem? machines index)) [
    | inl out ↦ ground (arith, out, get_elem?_ge machines index out)
    | inr (m, at) ↦
        ground
          (arith, at, get_elem?_lt machines index at, length-set machines index (dispatch m e s).0)
  ]

  event_batch_from_counts :
      (events : List (IndexedEvent E)) (w : List M × ℕ × S)
      → w.1 ≤ usize_max
      → (length (event_batch_from dispatch events w).0 ≡ length w.0)
        × ((event_batch_from dispatch events w).1 ≡ min (w.1 + valid (length w.0) events) usize_max)
  unfolding event_batch_from
  event_batch_from_counts [] w h = (refl, omega arith)
  event_batch_from_counts (e ∷ es) w h = ground (
    arith,
    batch_step_counts e.index e.event w,
    event_batch_from_counts es (batch_step dispatch e.index e.event w),
  )

  -- A batch keeps the number of machines, and returns how many of its events bear the index of one,
  -- up to `usize::MAX`.
  pub process_event_batch_counts :
      (events : List (IndexedEvent E)) (machines : List M) (s : S)
      → (length (process_event_batch dispatch events machines s).0 ≡ length machines)
        × ((process_event_batch dispatch events machines s).1
            ≡ min (valid (length machines) events) usize_max)
  unfolding process_event_batch
  process_event_batch_counts events machines s =
      ground (arith, event_batch_from_counts events (machines, 0, s))

  -- One event for many indices is the batch that pairs each index with that event.
  pub process_indexed_batch_lem :
      (indices : List ℕ) (event : E) (machines : List M) (s : S)
      → process_indexed_batch dispatch indices event machines s
        ≡ process_event_batch dispatch (map (λ i. with_id i event) indices) machines s
  unfolding process_indexed_batch process_event_batch with_id
  process_indexed_batch_lem indices event machines s = go indices (machines, 0, s)
    where
      go :
          (is : List ℕ) (w : List M × ℕ × S)
          → indexed_batch_from dispatch is event w
            ≡ event_batch_from dispatch (map (λ i. record { index = i; event = event }) is) w
      go [] w = refl
      go (i ∷ is) w = go is (batch_step dispatch i event w)

module _ {M : Type 0} (initialize : ℕ → M) where
  reset_from_at :
      (machines : List M) (k i : ℕ)
      → get_elem? (reset_from initialize k machines) i
        ≡ Option.map (λ _. initialize (k + i)) (get_elem? machines i)
  unfolding reset_from
  reset_from_at [] k i = refl
  reset_from_at (m ∷ ms) k zero = ap (λ n. some (initialize n)) (omega arith)
  reset_from_at (m ∷ ms) k (suc i) =
      let same : suc k + i ≡ k + suc i = omega arith in reset_from_at ms (suc k) i ∙ rw same

  -- `reset` gives each machine of the storage its initial state by its own index, and adds none.
  pub reset_at :
      (machines : List M) (i : ℕ)
      → get_elem? (reset initialize machines) i
        ≡ Option.map (λ _. initialize i) (get_elem? machines i)
  unfolding reset
  reset_at machines i = let same : 0 + i ≡ i = omega arith in reset_from_at machines 0 i ∙ rw same

module _ {M E : Type 0} (process : M → E → M × Bool) where
  -- How many regions accept the event.
  abbrev pub accepting : E → List M → ℕ
  accepting e [] = 0
  accepting e (m ∷ ms) = from_bool (process m e).1 + accepting e ms

  broadcast_from_lem :
      (e : E) (n : ℕ) (regions : List M)
      → n ≤ usize_max
      → broadcast_from process e n regions
        ≡ (map (λ m. (process m e).0) regions, min (n + accepting e regions) usize_max)
  unfolding broadcast_from
  broadcast_from_lem e n [] h = ground arith
  broadcast_from_lem e n (m ∷ ms) h =
      ground (arith, broadcast_from_lem e (saturating_add n (from_bool (process m e).1)) ms)

  -- A broadcast runs the event once in every region, each from its own state whatever the others
  -- answer, and returns how many regions accepted it, up to `usize::MAX`.
  pub broadcast_lem :
      (e : E) (regions : List M)
      → broadcast process e regions
        ≡ (map (λ m. (process m e).0) regions, min (accepting e regions) usize_max)
  unfolding broadcast
  broadcast_lem e regions = ground (arith, broadcast_from_lem e 0 regions)
