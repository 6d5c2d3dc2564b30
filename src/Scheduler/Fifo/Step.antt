-- ===== src/Scheduler/Fifo/Step.antt =====
-- The threads that share a FIFO machine, interleaved, and what holds of every state that they reach.
use sml_rs.Base.{
  ℕ, Bool, true, false, ◌&&◌, ◌||◌, ◌≡◌, Option, none, some, List, [], ◌∷◌, ◌++◌, map,
}
use sml_rs.Utility.EventQueue.Refine.{Holds}
use sml_rs.Scheduler.{SyncMachineStep}
use sml_rs.Scheduler.Fifo.{
  Drainer, runs, resolves, settles, drops, unwinds, Shared, offer, forget, poll_update, advance,
}

abbrev pub keep : {A : Type 0} → Option A → List A
keep none = []
keep (some a) = a ∷ []

-- Every waiter may be used.
abbrev pub Always : ℕ → Type 0
Always waiter = Unit

-- Whether threads offer events while they unwind from a panic, and which waiters their completions use.
module _ (s : SyncMachineStep) (n : ℕ) (unwinding : Bool) (used : ℕ → Type 0) where
  open s use {Core, Event, step}

  -- Any caller offers an event, with or without a waiter, or withdraws a waiter, or polls with a
  -- waker, or any thread inside `drain` goes on.
  pub data Step : Shared s → Shared s → Type 0 where
    offers :
        (event : Event) (waiter : Option ℕ) (w : Shared s) → Step w (offer s n event waiter w).1
    forgets : (waiter : ℕ) (w : Shared s) → used waiter → Step w (forget s waiter w)
    updates :
        (waiter waker : ℕ) (w : Shared s) → used waiter → Step w (poll_update s waiter waker w)
    advances :
        (panicking : Bool)
        → (panicking ≡ true → unwinding ≡ true)
        → (before after : List (Drainer Event)) (d : Drainer Event) (w : Shared s)
        → w.drainers ≡ before ++ d ∷ after
        → Step w (record (advance s n panicking d w).1 {
          drainers = before ++ keep (advance s n panicking d w).0 ++ after;
        })

  pub data Reach (w : Shared s) : Shared s → Type 0 where
    here : Reach w w
    onwards : {v u : Shared s} → Reach w v → Step v u → Reach w u

module _ {E : Type 0} where
  -- The thread knows that the machine has terminated.
  abbrev pub knows_end : Drainer E → Bool
  knows_end (runs e t b) = b
  knows_end (resolves t a b) = b
  knows_end (settles b) = b
  knows_end (drops t) = false
  knows_end unwinds = false

  abbrev pub some_knows : List (Drainer E) → Bool
  some_knows [] = false
  some_knows (d ∷ ds) = knows_end d || some_knows ds

  abbrev pub all_know : List (Drainer E) → Bool
  all_know [] = true
  all_know (d ∷ ds) = knows_end d && all_know ds

  -- The events that threads hold and have not run yet.
  abbrev pub held : Drainer E → List E
  held (runs e t b) = e ∷ []
  held _ = []

  abbrev pub in_hand : List (Drainer E) → List E
  in_hand [] = []
  in_hand (d ∷ ds) = held d ++ in_hand ds

  -- At most one thread drains, and exactly while the queue says so.
  abbrev pub Exclusive : Bool → List (Drainer E) → Type 0
  Exclusive true ds = (d : Drainer E) × (ds ≡ d ∷ [])
  Exclusive false ds = ds ≡ []

module _ (s : SyncMachineStep) where
  open s use {Core, Event, step}

  -- The machine after it was stepped with a list of events, one at a time.
  abbrev pub replay : Core → List Event → Core
  replay m [] = m
  replay m (e ∷ es) = replay (step m e).0 es

  -- What holds between any two steps of threads that share a machine which started as `origin`.
  pub record IsSound (n : ℕ) (origin : Core) (w : Shared s) : Type 0 where
    pub waiting : List (Event × ℕ)
    pub later : List Event
    pub holds : Holds n w.queue.events waiting
    pub exclusive : Exclusive w.queue.draining w.drainers
    pub order : w.admitted ≡ w.ran ++ later
    pub exact :
        w.queue.terminated || some_knows w.drainers ≡ false
        → later ≡ in_hand w.drainers ++ map (λ j. j.0) waiting
    pub replayed : w.machine ≡ replay origin w.ran
    pub closed : w.queue.terminated ≡ true → all_know w.drainers ≡ true
