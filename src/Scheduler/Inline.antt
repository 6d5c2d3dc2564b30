-- ===== src/Scheduler/Inline.antt =====
-- `InlineScheduler` of src/scheduler.rs: each event runs in the calling task under the machine's lock.
use sml_rs.Base.{Bool, false, not, ◌&&◌, if◌then◌else◌, ◌≡◌, refl, Option, some, List, [], ◌∷◌, map}
use sml_rs.Scheduler.{SyncMachineStep}

module _ (s : SyncMachineStep) where
  open s use {Core, Event, start, step, is_terminated}

  pub record InlineCell : Type 0 where
    pub machine : Core
    pub started : Bool

  -- `Schedule::cell`.
  unfoldable pub inline_cell : Core → InlineCell
  inline_cell core =
      let (core', started) = start core in record { machine = core'; started = started }

  -- `Queued::submit`: `none` when the step panics in the caller.
  unfoldable pub inline_submit : Event → InlineCell → Option Bool × InlineCell
  inline_submit event cell =
      if cell.started && not (is_terminated cell.machine)
      then (let (core, answer) = step cell.machine event in
          (answer, record cell { machine = core }))
      else (some false, cell)

  -- The answers to a list of events, and the cell after them.
  pub inline_run : List Event → InlineCell → List (Option Bool) × InlineCell
  inline_run [] cell = ([], cell)
  inline_run (e ∷ es) cell =
      let (answer, cell') = inline_submit e cell in
      let (answers, last) = inline_run es cell' in (answer ∷ answers, last)

  inline_submit_closed :
      (e : Event) (cell : InlineCell)
      → cell.started && not (is_terminated cell.machine) ≡ false
      → inline_submit e cell ≡ (some false, cell)
  unfolding inline_submit
  inline_submit_closed e cell h = rw h

  -- A machine whose initialization failed, or that has terminated, refuses every later event and
  -- does not change.
  pub inline_run_closed :
      (events : List Event) (cell : InlineCell)
      → cell.started && not (is_terminated cell.machine) ≡ false
      → inline_run events cell ≡ (map (λ _. some false) events, cell)
  unfolding inline_run
  inline_run_closed [] cell h = refl
  inline_run_closed (e ∷ es) cell h =
      rw (inline_submit_closed e cell h, inline_run_closed es cell h)
