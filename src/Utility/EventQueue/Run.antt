-- ===== src/Utility/EventQueue/Run.antt =====
-- Every sequence of calls of an `EventQueue`, with what each returns.
use sml_rs.Base.{
  ℕ, zero, suc, ◌≤◌, ◌<◌, ◌≡◌, refl, ap, usize_max, length, Option, none, some, List, [], ◌∷◌,
  Result, arith,
}
use sml_rs.Utility.EventQueue.{EventQueue, QueueFull, new, defer, process, pop, clear, clear_loop}
use sml_rs.Utility.EventQueue.Deque.{push_back, push_front, pop_front}
use sml_rs.Utility.EventQueue.Refine.{
  Holds, Refines, defer-Refines, process-Refines, pop-Refines, new-Holds,
}

clear_loop-some :
    {E : Type 0} (n fuel : ℕ) (q : EventQueue E) {x : E}
    → (pop n q).0 ≡ some x
    → clear_loop (suc fuel) n q ≡ clear_loop fuel n (pop n q).1
unfolding clear_loop
clear_loop-some n fuel q e = rw (e, clear_loop)

clear_loop-none :
    {E : Type 0} (n fuel : ℕ) (q : EventQueue E)
    → (pop n q).0 ≡ none
    → clear_loop (suc fuel) n q ≡ (pop n q).1
unfolding clear_loop
clear_loop-none n fuel q e = rw (e, clear_loop)

-- With fuel above the number of events, the loop of `clear` ends with none left.
clear_loop-Holds :
    {E : Type 0} (n fuel : ℕ) (xs : List E) (q : EventQueue E)
    → Holds n q xs
    → length xs < fuel
    → Holds n (clear_loop fuel n q) []
unfolding pop_front
clear_loop-Holds n zero xs q v h = elim h [ ]
clear_loop-Holds n (suc fuel) [] q v h =
    let r = pop-Refines [] v in rw (clear_loop-none n fuel q r.same) r.holds
clear_loop-Holds n (suc fuel) (x ∷ xs) q v h =
    let r = pop-Refines (x ∷ xs) v in
    rw (clear_loop-some n fuel q r.same)
      (clear_loop-Holds n fuel xs (pop n q).1 r.holds (omega arith))

-- `clear` drops every event: the queue then holds the empty list.
pub clear-Holds :
    {E : Type 0} {n : ℕ} {q : EventQueue E} (xs : List E) → Holds n q xs → Holds n (clear n q) []
unfolding clear
clear-Holds {n = n} {q} xs v = clear_loop-Holds n (suc q.len) xs q v (omega (arith, v.count))

-- The calls that an owner makes, and what it sees of each.
pub data Call (E : Type 0) : Type 0 where
  later sooner : E → Call E
  take drop_all : Call E

pub data Reply (E : Type 0) : Type 0 where
  pushed : Result (Unit {0}) QueueFull → Reply E
  popped : Option E → Reply E
  cleared : Reply E

module _ {E : Type 0} where
  unfoldable pub serve : ℕ → Call E → EventQueue E → Reply E × EventQueue E
  serve n (later e) q = (pushed (defer n e q).0, (defer n e q).1)
  serve n (sooner e) q = (pushed (process n e q).0, (process n e q).1)
  serve n take q = (popped (pop n q).0, (pop n q).1)
  serve n drop_all q = (cleared, clear n q)

  unfoldable pub serve_list : ℕ → Call E → List E → Reply E × List E
  serve_list n (later e) xs = (pushed (push_back n e xs).0, (push_back n e xs).1)
  serve_list n (sooner e) xs = (pushed (push_front n e xs).0, (push_front n e xs).1)
  serve_list n take xs = (popped (pop_front xs).0, (pop_front xs).1)
  serve_list n drop_all xs = (cleared, [])

  serve-Refines :
      (n : ℕ) (c : Call E) (q : EventQueue E) (xs : List E)
      → Holds n q xs
      → Refines n (serve n c q) (serve_list n c xs)
  unfolding serve serve_list
  serve-Refines n (later e) q xs v =
      let r = defer-Refines v e in record { same = ap pushed r.same; holds = r.holds }
  serve-Refines n (sooner e) q xs v =
      let r = process-Refines v e in record { same = ap pushed r.same; holds = r.holds }
  serve-Refines n take q xs v =
      let r = pop-Refines xs v in record { same = ap popped r.same; holds = r.holds }
  serve-Refines n drop_all q xs v = record { same = refl; holds = clear-Holds xs v }

  -- The replies to a sequence of calls.
  unfoldable pub run : ℕ → List (Call E) → EventQueue E → List (Reply E)
  run n [] q = []
  run n (c ∷ cs) q = (serve n c q).0 ∷ run n cs (serve n c q).1

  unfoldable pub run_list : ℕ → List (Call E) → List E → List (Reply E)
  run_list n [] xs = []
  run_list n (c ∷ cs) xs = (serve_list n c xs).0 ∷ run_list n cs (serve_list n c xs).1

  run_refines :
      (n : ℕ) (cs : List (Call E)) (q : EventQueue E) (xs : List E)
      → Holds n q xs
      → run n cs q ≡ run_list n cs xs
  unfolding run run_list
  run_refines n [] q xs v = refl
  run_refines n (c ∷ cs) q xs v =
      let r = serve-Refines n c q xs v in
      rw (r.same, run_refines n cs (serve n c q).1 (serve_list n c xs).1 r.holds)

  -- No sequence of `defer`, `process`, `pop` and `clear` tells a new queue with `n` slots from an
  -- empty list that holds at most `n` events: each call returns the same on both.
  pub new_refines :
      (n : ℕ) (cs : List (Call E)) → n ≤ usize_max → run n cs (new n) ≡ run_list n cs []
  new_refines n cs h = run_refines n cs (new n) [] (new-Holds n h)
