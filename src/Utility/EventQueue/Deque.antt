-- ===== src/Utility/EventQueue/Deque.antt =====
-- What `EventQueue` promises: a list of at most `n` events, the next one first.
use sml_rs.Base.{
  ℕ, ◌==◌, if◌then◌else◌, length, Option, none, some, List, [], ◌∷◌, ◌++◌, Result, ok, err,
}
use sml_rs.Utility.EventQueue.{QueueFull, queue_full}

module _ {E : Type 0} where
  unfoldable pub push_back : ℕ → E → List E → Result (Unit {0}) QueueFull × List E
  push_back n e xs = if length xs == n then (err queue_full, xs) else (ok tt, xs ++ e ∷ [])

  unfoldable pub push_front : ℕ → E → List E → Result (Unit {0}) QueueFull × List E
  push_front n e xs = if length xs == n then (err queue_full, xs) else (ok tt, e ∷ xs)

  unfoldable pub pop_front : List E → Option E × List E
  pop_front [] = (none, [])
  pop_front (x ∷ xs) = (some x, xs)
