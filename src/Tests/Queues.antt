-- ===== src/Tests/Queues.antt =====
-- Event queues and their dispatch on concrete events.
use sml_rs.Base.{ℕ, ◌≡◌, refl, true, ◌==◌, if◌then◌else◌, none, some, List, [], ◌∷◌, ok, err, arith}
use sml_rs.Utility.EventQueue
use sml_rs.Utility.EventQueue.{EventQueue, queue_full}
use sml_rs.Utility.EventQueue.Refine.{Holds}
use sml_rs.Utility.EventQueue.Run.{
  Call, later, sooner, take, pushed, popped, serve, run, run_list, new_refines,
}
use sml_rs.Utility.EventQueues
use sml_rs.Utility.EventQueues.{
  DispatchStatus, DispatchSummary, no_dispatch, EventQueues, Callback, Progress, dispatch, offer,
  record_status, drain_processed, retry, retry_deferred,
}
use sml_rs.Utility.EventQueues.Dispatch.{dispatch-empty, Consistent, dispatch-Consistent}
use sml_rs.Utility.EventQueues.Quiet.{Hold, Handler, quiet, offers, dispatch_order, dispatch-quiet}

abbrev calls : List (Call ℕ)
calls = later 1 ∷ later 2 ∷ later 3 ∷ take ∷ sooner 4 ∷ take ∷ take ∷ take ∷ []

-- Two slots: the third `defer` is refused, and `process` goes first.
calls_served :
    run 2 calls (EventQueue.new 2)
    ≡ pushed (ok tt)
      ∷ pushed (ok tt)
      ∷ pushed (err queue_full)
      ∷ popped (some 1)
      ∷ pushed (ok tt)
      ∷ popped (some 4)
      ∷ popped (some 2)
      ∷ popped none
      ∷ []
unfolding run serve EventQueue.new EventQueue.defer EventQueue.process EventQueue.pop
calls_served = refl

new_refines_example : run 2 calls (EventQueue.new 2) ≡ run_list 2 calls []
new_refines_example = new_refines 2 calls (omega arith)

-- Three slots, `7` and then `8`, round the end.
abbrev wrapped : EventQueue ℕ
wrapped = record { events = some 8 ∷ none ∷ some 7 ∷ []; head = 2; len = 2 }

wrapped-Holds : Holds 3 wrapped (7 ∷ 8 ∷ [])
wrapped-Holds = record {
  size = refl;
  small = omega arith;
  head_in = omega arith;
  count = refl;
  fits = omega arith;
  slots = refl;
}

abbrev empty : EventQueue ℕ
empty = record { events = none ∷ none ∷ []; head = 0; len = 0 }

empty-Holds : Holds 2 empty []
empty-Holds = record {
  size = refl;
  small = omega arith;
  head_in = omega arith;
  count = refl;
  fits = omega arith;
  slots = refl;
}

abbrev queues : EventQueues ℕ
queues = record { deferred = wrapped; processed = empty }

-- Every event is handled, and changes the state.
abbrev counting : Handler (List ℕ) ℕ
counting seen e = (record { handled = true; transitioned = true }, e ∷ seen)

queues-Hold : Hold 3 2 queues (7 ∷ 8 ∷ []) []
queues-Hold = record { deferred_holds = wrapped-Holds; processed_holds = empty-Holds }

dispatch-quiet_example :
    let out = dispatch_order 3 2 counting (offers counting [] no_dispatch (5 ∷ [])) (7 ∷ 8 ∷ []) in
    (q' : EventQueues ℕ) × (dispatch 3 2 (quiet counting) 1 [] queues 5 ≡ some (out.0, q', out.1))
    × Hold 3 2 q' out.2 []
dispatch-quiet_example =
    dispatch-quiet 3 2 counting (7 ∷ 8 ∷ []) [] 1 [] queues 5 queues-Hold (omega arith)

abbrev waiting : EventQueues ℕ → ℕ
waiting q = q.processed.len

-- The event 5 asks for the event 6 to be processed.
abbrev asking : Callback (List ℕ) ℕ
asking seen q e =
    let status : DispatchStatus = record { handled = true; transitioned = true } in
    (status, e ∷ seen, if e == 5 then (EventQueues.process 2 6 q).1 else q)

abbrev emptied : EventQueue ℕ
emptied = record { events = none ∷ none ∷ none ∷ []; head = 1; len = 0 }

abbrev left : EventQueue ℕ
left = record { events = none ∷ none ∷ []; head = 0; len = 0 }

abbrev finished : Progress (List ℕ) ℕ
finished = (
  8 ∷ 7 ∷ 6 ∷ 5 ∷ [],
  record { deferred = emptied; processed = left },
  record { dispatched = 4; handled = 4; transitioned = 4 },
)

asking_runs : dispatch 3 2 asking 3 [] queues 5 ≡ some finished
unfolding dispatch drain_processed retry retry_deferred offer record_status EventQueues.process
    EventQueue.process EventQueue.pop
asking_runs = refl

dispatch-empty_example : (EventQueue.pop 2 left).0 ≡ none
dispatch-empty_example = dispatch-empty 3 2 asking 3 [] queues 5 asking_runs

dispatch-Consistent_example : Consistent (record { dispatched = 4; handled = 4; transitioned = 4 })
dispatch-Consistent_example = dispatch-Consistent 3 2 asking 3 [] queues 5 asking_runs
