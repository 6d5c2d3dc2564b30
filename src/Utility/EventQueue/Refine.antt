-- ===== src/Utility/EventQueue/Refine.antt =====
-- An `EventQueue` behaves as the bounded list of the events that it holds.
use sml_rs.Base.{
  ℕ, suc, ◌-◌, ◌≤◌, ◌<◌, ◌≡◌, refl, ◌∙◌, subst, ◌≢◌, ◌⊎◌, inl, inr, usize_max, length, ==_eq, ==_ne,
  get_elem?, set, length-set, length-append, length-replicate, get_elem?-set_self, get_elem?_in,
  Option, none, some, List, [], ◌∷◌, ◌++◌, map, ok, err, arith,
}
use mathlib.Core.List.{map-append}
use sml_rs.Utility.EventQueue.{
  EventQueue, queue_full, new, defer, process, pop, next, tail, new_head,
}
use sml_rs.Utility.EventQueue.Deque.{push_back, push_front, pop_front}
use sml_rs.Utility.EventQueue.Window.{ahead, window, next_in, window-set_outside, window-suc}

abbrev filled : {E : Type 0} → E → Option (Option E)
filled x = some (some x)

-- The queue holds the events `xs`, the next one first, in the slots from `head` on.
pub record Holds {E : Type 0} (n : ℕ) (q : EventQueue E) (xs : List E) : Type 0 where
  pub size : length q.events ≡ n
  pub small : n ≤ usize_max
  pub head_in : q.head ≤ n - 1
  pub count : q.len ≡ length xs
  pub fits : q.len ≤ n
  pub slots : window q.events n q.head q.len ≡ map filled xs

-- Where the four indices lie, with no arithmetic of theirs saturating.
tail_in :
    {E : Type 0} {n : ℕ} {q : EventQueue E} {xs : List E} → Holds n q xs → q.len < n → tail n q < n
tail_in v h = ground arith

ahead-tail :
    {E : Type 0} {n : ℕ} {q : EventQueue E} {xs : List E}
    → Holds n q xs
    → q.len < n
    → q.len ≡ ahead n q.head (tail n q)
ahead-tail v h = ground arith

new_head_in :
    {E : Type 0} {n : ℕ} {q : EventQueue E} {xs : List E}
    → Holds n q xs
    → q.len < n
    → new_head n q < n
new_head_in v h = ground arith

ahead-next_self : (n h k : ℕ) → n ≤ usize_max → h < n → suc k ≤ n → k ≤ ahead n (next n h) h
ahead-next_self n h k small hh room = ground arith

ahead-new_head :
    {E : Type 0} {n : ℕ} {q : EventQueue E} {xs : List E}
    → Holds n q xs
    → q.len < n
    → q.len ≤ ahead n q.head (new_head n q)
ahead-new_head v h = ground arith

next-new_head :
    {E : Type 0} {n : ℕ} {q : EventQueue E} {xs : List E}
    → Holds n q xs
    → q.len < n
    → next n (new_head n q) ≡ q.head
next-new_head v h = ground arith

-- A call's result is that of the list operation, and its queue holds the list that results.
pub record Refines {E R : Type 0} (n : ℕ) (call : R × EventQueue E) (spec : R × List E)
    : Type 0 where
  pub same : call.0 ≡ spec.0
  pub holds : Holds n call.1 spec.1

module _ {E : Type 0} {n : ℕ} {q : EventQueue E} {xs : List E} (v : Holds n q xs) where
  slot_in : (i : ℕ) → i < n → (x : Option E) × (get_elem? q.events i ≡ some x)
  slot_in i h = get_elem?_in q.events i (rw v.size h)

  full_or_room : ((q.len ≡ n) × (length xs ≡ n)) ⊎ ((q.len < n) × (length xs ≢ n))
  full_or_room = ground (arith, v)

  defer_full : (e : E) → q.len ≡ n → defer n e q ≡ (err queue_full, q)
  unfolding defer
  defer_full e h = ground arith

  process_full : (e : E) → q.len ≡ n → process n e q ≡ (err queue_full, q)
  unfolding process
  process_full e h = ground arith

  defer_room :
      (e : E)
      → q.len < n
      → defer n e q
        ≡ (ok tt, record q { events = set q.events (tail n q) (some e); len = suc q.len })
  unfolding defer
  defer_room e h = let (x, at) = slot_in (tail n q) (tail_in v h) in ground (arith, v, at)

  process_room :
      (e : E)
      → q.len < n
      → process n e q ≡ (
        ok tt,
        record {
          events = set q.events (new_head n q) (some e);
          head = new_head n q;
          len = suc q.len;
        },
      )
  unfolding process
  process_room e h = let (x, at) = slot_in (new_head n q) (new_head_in v h) in ground (arith, v, at)

  head_lt : 0 < n → q.head < n
  head_lt h = omega (arith, v.head_in)

  defer_room-Holds :
      (e : E)
      → q.len < n
      → Holds n
          (record q { events = set q.events (tail n q) (some e); len = suc q.len })
          (xs ++ e ∷ [])
  defer_room-Holds e h = record {
    size = length-set q.events (tail n q) (some e) ∙ v.size;
    small = v.small;
    head_in = v.head_in;
    count = omega (arith, v.count, length-append xs (e ∷ []));
    fits = omega arith;
    slots = rw (
      window-suc (set q.events (tail n q) (some e)) n q.head q.len (tail n q) v.small
          (head_lt (omega arith)) (tail_in v h) (ahead-tail v h),
      window-set_outside q.events n q.head q.len (tail n q) (some e) v.small (head_lt (omega arith))
          (tail_in v h) (omega (arith, ahead-tail v h)),
      get_elem?-set_self q.events (tail n q) (some e) (rw v.size (tail_in v h)),
      v.slots,
      map-append,
    );
  }

  process_room-Holds :
      (e : E)
      → q.len < n
      → Holds n
          (record {
            events = set q.events (new_head n q) (some e);
            head = new_head n q;
            len = suc q.len;
          })
          (e ∷ xs)
  process_room-Holds e h = record {
    size = length-set q.events (new_head n q) (some e) ∙ v.size;
    small = v.small;
    head_in = omega (arith, new_head_in v h);
    count = omega (arith, v.count);
    fits = omega arith;
    slots = rw (
      next-new_head v h,
      get_elem?-set_self q.events (new_head n q) (some e) (rw v.size (new_head_in v h)),
      window-set_outside q.events n q.head q.len (new_head n q) (some e) v.small
          (head_lt (omega arith)) (new_head_in v h) (ahead-new_head v h),
      v.slots,
    );
  }

  -- `defer` appends to the list, and refuses exactly when it holds `n` events.
  pub defer-Refines : (e : E) → Refines n (defer n e q) (push_back n e xs)
  unfolding push_back
  defer-Refines e = elim full_or_room [
    | inl (f, l) ↦ rw (defer_full e f, ==_eq _ _ l) (record { same = refl; holds = v })
    | inr (f, l) ↦
        rw (defer_room e f, ==_ne _ _ l) (record { same = refl; holds = defer_room-Holds e f })
  ]

  -- With room left, `defer` succeeds.
  pub defer-room :
      (e : E) → length xs ≢ n → ((defer n e q).0 ≡ ok tt) × Holds n (defer n e q).1 (xs ++ e ∷ [])
  defer-room e h = elim full_or_room [
    | inl (f, l) ↦ absurd (h l)
    | inr (f, l) ↦ rw (defer_room e f) (refl, defer_room-Holds e f)
  ]

  -- `process` puts the event first, and refuses exactly when the list holds `n` events.
  pub process-Refines : (e : E) → Refines n (process n e q) (push_front n e xs)
  unfolding push_front
  process-Refines e = elim full_or_room [
    | inl (f, l) ↦ rw (process_full e f, ==_eq _ _ l) (record { same = refl; holds = v })
    | inr (f, l) ↦
        rw (process_room e f, ==_ne _ _ l) (record { same = refl; holds = process_room-Holds e f })
  ]

-- What a queue that holds `x ∷ xs` looks like at its head.
module _ {E : Type 0} {n : ℕ} {q : EventQueue E} {x : E} {xs : List E}
    (v : Holds n q (x ∷ xs)) where
  split :
      get_elem? q.events q.head ∷ window q.events n (next n q.head) (length xs)
      ≡ filled x ∷ map filled xs
  split = subst (λ k. window q.events n q.head k ≡ map filled (x ∷ xs)) v.count v.slots

  head_slot : get_elem? q.events q.head ≡ some (some x)
  head_slot = cc split

  rest_slots : window q.events n (next n q.head) (length xs) ≡ map filled xs
  rest_slots = cc split

  room : suc (length xs) ≤ n
  room = omega (arith, v.count, v.fits)

  inside : q.head < n
  inside = omega (arith, room, v.head_in)

  popped : EventQueue E
  popped = record { events = set q.events q.head none; head = next n q.head; len = length xs }

  pop-some : pop n q ≡ (some x, popped)
  unfolding pop popped
  pop-some = ground (arith, v, head_slot)

  popped-Holds : Holds n popped xs
  unfolding popped
  popped-Holds = record {
    size = length-set q.events q.head none ∙ v.size;
    small = v.small;
    head_in = ground (arith, v);
    count = refl;
    fits = omega (arith, v.count, v.fits);
    slots = rw (
      window-set_outside q.events n (next n q.head) (length xs) q.head none v.small
          (next_in n q.head v.small inside) inside
          (ahead-next_self n q.head (length xs) v.small inside room),
      rest_slots,
    );
  }

pub pop-none : {E : Type 0} {n : ℕ} {q : EventQueue E} → Holds n q [] → pop n q ≡ (none, q)
unfolding pop
pop-none v = ground (arith, v)

-- `pop` takes the first event of the list, and changes nothing when there is none.
pub pop-Refines :
    {E : Type 0} {n : ℕ} {q : EventQueue E} (xs : List E)
    → Holds n q xs
    → Refines n (pop n q) (pop_front xs)
unfolding pop_front
pop-Refines [] v = rw (pop-none v) (record { same = refl; holds = v })
pop-Refines (x ∷ xs) v = rw (pop-some v) (record { same = refl; holds = popped-Holds v })

-- A new queue holds no event.
pub new-Holds : {E : Type 0} (n : ℕ) → n ≤ usize_max → Holds {E = E} n (new n) []
unfolding new
new-Holds n h = record {
  size = length-replicate n none;
  small = h;
  head_in = omega arith;
  count = refl;
  fits = omega arith;
  slots = refl;
}
