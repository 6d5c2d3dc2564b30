-- ===== src/Utility/EventQueue.antt =====
-- `EventQueue` of src/utility.rs: a ring of `N` slots that is pushed at both ends and popped at the
-- head. A method that takes `&mut self` returns the new queue beside its result.
pub mod Deque
pub mod Window
pub mod Refine
pub mod Run
use sml_rs.Base.{
  ℕ, zero, suc, Bool, ◌||◌, Option, none, some, List, ◌==◌, leb, if◌then◌else◌, saturating_add,
  saturating_sub, get_elem?, set, replicate, Result, ok, err,
}

pub data QueueFull : Type 0 where
  queue_full : QueueFull

-- The number of slots, the const parameter `N`, is an argument of the operations.
pub record EventQueue (E : Type 0) : Type 0 where
  pub events : List (Option E)
  pub head : ℕ
  pub len : ℕ

-- The index after `h`, going round.
abbrev pub next : ℕ → ℕ → ℕ
next n h = if h == saturating_sub n 1 then 0 else saturating_add h 1

module _ {E : Type 0} where
  unfoldable pub new : ℕ → EventQueue E
  new n = record { events = replicate n none; head = 0; len = 0 }

  unfoldable pub is_empty : EventQueue E → Bool
  is_empty q = q.len == 0

  -- The slot that `defer` writes.
  abbrev pub tail : ℕ → EventQueue E → ℕ
  tail n q =
      if leb (saturating_sub n q.len) q.head
      then saturating_sub q.head (saturating_sub n q.len)
      else saturating_add q.head q.len

  unfoldable pub defer : ℕ → E → EventQueue E → Result (Unit {0}) QueueFull × EventQueue E
  defer n event q =
      if q.len == n || n == 0 then (err queue_full, q) else elim (get_elem? q.events (tail n q)) [
        | none ↦ (err queue_full, q)
        | some _ ↦ (
          ok tt,
          record q { events = set q.events (tail n q) (some event); len = saturating_add q.len 1 },
        )
      ]

  -- The slot that `process` writes, and its new head.
  abbrev pub new_head : ℕ → EventQueue E → ℕ
  new_head n q = if q.head == 0 then saturating_sub n 1 else saturating_sub q.head 1

  unfoldable pub process : ℕ → E → EventQueue E → Result (Unit {0}) QueueFull × EventQueue E
  process n event q =
      if q.len == n || n == 0
      then (err queue_full, q)
      else elim (get_elem? q.events (new_head n q)) [
        | none ↦ (err queue_full, q)
        | some _ ↦ (
          ok tt,
          record {
            events = set q.events (new_head n q) (some event);
            head = new_head n q;
            len = saturating_add q.len 1;
          },
        )
      ]

  -- What follows `Option::take` on the head's slot: an empty slot or none at all ends the call.
  abbrev pub take_slot : ℕ → EventQueue E → Option (Option E) → Option E × EventQueue E
  take_slot n q (some (some event)) = (
    some event,
    record {
      events = set q.events q.head none;
      head = next n q.head;
      len = saturating_sub q.len 1;
    },
  )
  take_slot n q _ = (none, q)

  unfoldable pub pop : ℕ → EventQueue E → Option E × EventQueue E
  pop n q = if q.len == 0 then (none, q) else take_slot n q (get_elem? q.events q.head)

  -- `while self.pop().is_some() {}` on fuel.
  unfoldable pub clear_loop : ℕ → ℕ → EventQueue E → EventQueue E
  clear_loop zero n q = q
  clear_loop (suc fuel) n q =
      let rest = clear_loop fuel n (pop n q).1 in
      elim (pop n q).0 [ none ↦ (pop n q).1 | some _ ↦ rest ]

  -- Each round that goes on removes an event, so `len + 1` rounds are enough.
  unfoldable pub clear : ℕ → EventQueue E → EventQueue E
  unfolding clear_loop
  clear n q = clear_loop (suc q.len) n q
