-- ===== src/Tests/Schedulers.antt =====
-- The schedulers on a machine that adds up its events.
use sml_rs.Base.{
  ℕ, ◌+◌, ◌≡◌, refl, true, false, not, ◌||◌, leb, ◌==◌, if◌then◌else◌, ◌++◌, none, some, List, [],
  ◌∷◌, map, length, ◌≤◌, arith,
}
use sml_rs.Utility.EventQueue
use sml_rs.Utility.EventQueue.Refine.{Holds}
use sml_rs.Scheduler.{SyncMachineStep}
use sml_rs.Scheduler.Inline.{InlineCell}
use sml_rs.Scheduler.Fifo.{
  Drainer, runs, resolves, settles, Shared, fifo_cell, offer, offer_idle, enqueue, advance, run_job,
  settle, resolve_pending,
}
use sml_rs.Scheduler.Fifo.Step.{
  Always, keep, offers, advances, Reach, here, onwards, Exclusive, replay, some_knows, in_hand,
}
use sml_rs.Scheduler.Fifo.Order.{stepped_in_order, drain-Exclusive, no_event_lost}
use sml_rs.Utility.EventQueue.Refine.{new-Holds, defer-room}
use sml_rs.Scheduler.Fifo.{strand}
use sml_rs.Scheduler.Fifo.Strand.{strand_lem, all_refused}

-- It refuses 4, panics at 7, and ends at 20.
abbrev pub adder : SyncMachineStep
adder = record {
  Core = ℕ;
  Event = ℕ;
  start = λ m. (m, true);
  step = λ m e. (m + e, if e == 7 then none else some (not (e == 4)));
  is_terminated = λ m. leb 20 m;
}

-- Three events are offered; the first one runs and is answered, and the second one is taken.
abbrev busy : Shared adder
busy =
    (offer adder 4 5 none (offer adder 4 4 none (offer adder 4 3 none (fifo_cell adder 4 0)).1).1).1

abbrev after_piece : Drainer ℕ → Shared adder → Shared adder
after_piece d w = record (advance adder 4 false d w).1 {
  drainers = keep (advance adder 4 false d w).0 ++ [];
}

abbrev taken : Shared adder
taken =
    after_piece (settles false)
      (after_piece (resolves none true false) (after_piece (runs 3 none false) busy))

taken-Reach : Reach adder 4 false Always (fifo_cell adder 4 0) taken
unfolding fifo_cell offer offer_idle enqueue advance run_job settle resolve_pending EventQueue.new
    EventQueue.pop EventQueue.defer
taken-Reach =
    onwards
      (onwards
        (onwards
          (onwards (onwards (onwards here (offers 3 none (fifo_cell adder 4 0))) (offers 4 none _))
            (offers 5 none _))
          (advances false (λ p. p) [] [] (runs 3 none false) busy refl))
        (advances false (λ p. p) [] [] (resolves none true false)
          (after_piece (runs 3 none false) busy) refl))
      (advances false (λ p. p) [] [] (settles false)
        (after_piece (resolves none true false) (after_piece (runs 3 none false) busy)) refl)

taken_hands : in_hand taken.drainers ≡ 4 ∷ []
unfolding fifo_cell offer offer_idle enqueue advance run_job settle resolve_pending EventQueue.new
    EventQueue.pop EventQueue.defer
taken_hands = refl

stepped_in_order_example :
    (taken.machine ≡ replay adder 0 taken.ran)
    × (later : List ℕ) × (taken.admitted ≡ taken.ran ++ later)
stepped_in_order_example = stepped_in_order adder 4 0 (omega arith) taken taken-Reach

drain-Exclusive_example : Exclusive taken.queue.draining taken.drainers
drain-Exclusive_example = drain-Exclusive adder 4 0 (omega arith) taken taken-Reach

nobody_knows : taken.queue.terminated || some_knows taken.drainers ≡ false
unfolding fifo_cell offer offer_idle enqueue advance run_job settle resolve_pending EventQueue.new
    EventQueue.pop EventQueue.defer
nobody_knows = refl

no_event_lost_example :
    (waiting : List (ℕ × ℕ)) × (taken.admitted
      ≡ taken.ran ++ (in_hand taken.drainers ++ map (λ j. j.0) waiting))
    × (length waiting ≤ 4)
    × Holds 4 taken.queue.events waiting
no_event_lost_example = no_event_lost adder 4 0 (omega arith) taken taken-Reach nobody_knows

-- An event that ends the machine.
abbrev ended_cell : Shared adder
ended_cell = after_piece (settles true) (
    after_piece (resolves none true true)
      (after_piece (runs 25 none false) (offer adder 4 25 none (fifo_cell adder 4 0)).1))

abbrev ended_inline : InlineCell adder
ended_inline = record { machine = 21; started = true }

-- A machine that ended by a panic while the event 3 waited for the ticket 0.
abbrev left_behind : Shared adder
left_behind = record (fifo_cell adder 4 0) {
  queue = record {
    events = (EventQueue.defer 4 (3, 0) (EventQueue.new 4)).1;
    draining = false;
    terminated = true;
    room = [];
  };
  next_ticket = 1;
}

left_behind-Holds : Holds 4 left_behind.queue.events ((3, 0) ∷ [])
left_behind-Holds = (defer-room (new-Holds 4 (omega arith)) (3, 0) (omega arith)).1

strand_lem_example :
    Holds 4 (strand adder 2 4 left_behind).queue.events []
    × ((strand adder 2 4 left_behind).tickets
        ≡ all_refused {E = ℕ} ((3, 0) ∷ []) left_behind.tickets)
strand_lem_example = strand_lem adder 4 2 left_behind ((3, 0) ∷ []) left_behind-Holds (omega arith)
