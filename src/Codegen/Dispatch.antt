-- ===== src/Codegen/Dispatch.antt =====
-- The generated functions of macros/src/codegen.rs: `process_completion`, `process_exception` and the
-- body of `__sml_process_event_unlocked`.
use sml_rs.Base.{
  ℕ, zero, suc, Bool, true, false, if◌then◌else◌, Option, none, some, Result, ok, err,
}
use sml_rs.Base.Stateful.{pure, raise, exhausted, ◌>>=◌}
use sml_rs.Parser.Table.{Syntax, EventMapping, ParsedStateMachine}
use sml_rs.Codegen.Runtime.{
  no_payload, error_data, Callbacks, Event, Arguments, Core, MachineError, invalid_event,
  transitions_failed, queue_full, guard_failed, action_failed, Run,
}
use sml_rs.Codegen.Arms.{
  Options, has_anonymous_completion, is_completion_event, has_exception_handlers, mappings_of,
  event_arm, completion_arm, exception_arm,
}
use sml_rs.Codegen.Rows.{run_arm}

module _ {x : Syntax} (u : Callbacks x) (options : Options) (sm : ParsedStateMachine x)
    (request retry : Event u → Run u (Unit {0})) where
  open x use {Ident}

  -- The rows that run.
  abbrev pub arm :
      ℕ
      → Run u (Unit {0})
      → Option (EventMapping x)
      → Option u.Data
      → Arguments u
      → Run u (Option Bool)
  arm = run_arm u sm request retry

  abbrev pub was_taken : Option Bool → Bool
  was_taken none = false
  was_taken (some taken) = taken

  abbrev pub origin_name : Option (Event u) → Option Ident
  origin_name none = none
  origin_name (some event) = some event.ident

  abbrev pub origin_data : Option (Event u) → Option u.Data
  origin_data none = none
  origin_data (some event) = event.data_of

  -- `process_completion`: `origin` is `none` for `__AnyCompletion`.
  unfoldable pub process_completion : ℕ → Option (Event u) → Run u Bool
  unfolding run_arm completion_arm
  process_completion fuel origin core =
      (do
        answer ←
            arm fuel (pure tt)
              (completion_arm x (mappings_of x sm core.state.ident) (origin_name origin))
              (origin_data origin) no_payload
        pure (was_taken answer))
        core

  -- `while self.process_completion(completion_origin)? {}`.
  unfoldable pub run_completions : ℕ → Option (Event u) → Run u (Unit {0})
  unfolding process_completion
  run_completions zero origin = exhausted
  run_completions (suc fuel) origin = do
    again ← process_completion fuel origin
    elim again [ true ↦ run_completions fuel origin | false ↦ pure tt ]

  -- `finish_transition` of a row for an event, with the event's completion origin.
  unfoldable pub finish_event : ℕ → Option (Option (Event u)) → Run u (Unit {0})
  unfolding run_completions
  finish_event fuel none = pure tt
  finish_event fuel (some origin) = run_completions fuel origin

  -- `capture_completion_origin`.
  unfoldable pub completion_origin : Event u → Option (Option (Event u))
  unfolding is_completion_event has_anonymous_completion
  completion_origin event =
      if is_completion_event x sm event.ident
      then some (some event)
      else if has_anonymous_completion x sm
      then some none
      else none

  -- `match self.state { … }` with the arms for events.
  unfoldable pub state_dispatch : ℕ → Event u → Run u (Unit {0})
  unfolding run_arm event_arm finish_event completion_origin
  state_dispatch fuel event core =
      (do
        answer ←
            arm fuel (finish_event fuel (completion_origin event))
              (event_arm x (mappings_of x sm core.state.ident) event.ident) event.data_of no_payload
        elim answer [
          | none ↦ raise invalid_event
          | some taken ↦ if taken then pure tt else raise transitions_failed
        ])
        core

  -- The error that a callback answered.
  abbrev pub callback_error : MachineError u → Option u.Error
  callback_error (guard_failed e) = some e
  callback_error (action_failed e) = some e
  callback_error invalid_event = none
  callback_error transitions_failed = none
  callback_error queue_full = none

  -- `process_exception`.
  unfoldable pub process_exception : ℕ → MachineError u → Run u (Unit {0})
  unfolding run_arm exception_arm
  process_exception fuel error core =
      let value : Arguments u = elim (callback_error error) [
        | none ↦ no_payload
        | some e ↦ error_data e
      ] in
      let rows : Run u (Unit {0}) = (do
        answer ← arm fuel (pure tt) (exception_arm x (mappings_of x sm core.state.ident)) none value
        if was_taken answer then pure tt else raise error) in
      elim (callback_error error) [
        | some e ↦ rows core
        | none ↦ if options.fixed_error then some (err error, core) else rows core
      ]

  -- `event_dispatch`: an error of a callback goes to `process_exception`, where there are exceptions.
  abbrev pub recover :
      ℕ
      → Option (Result (Unit {0}) (MachineError u) × Core u)
      → Option (Result (Unit {0}) (MachineError u) × Core u)
  recover fuel none = none
  recover fuel (some (ok a, core)) = some (ok a, core)
  recover fuel (some (err e, core)) = elim (callback_error e) [
    | some _ ↦ process_exception fuel e core
    | none ↦ some (err e, core)
  ]

  unfoldable pub event_dispatch : ℕ → Event u → Run u (Unit {0})
  unfolding state_dispatch process_exception has_exception_handlers
  event_dispatch fuel event core =
      if has_exception_handlers x sm
      then recover fuel (state_dispatch fuel event core)
      else state_dispatch fuel event core

  -- The body of `__sml_process_event_unlocked`, or of `dispatch_queued`.
  unfoldable pub dispatch_event : ℕ → Event u → Run u (Unit {0})
  unfolding event_dispatch
  dispatch_event fuel event core =
      let policy = u.log_process_event event.ident core.policy in
      if u.dispatch policy event.ident
      then event_dispatch fuel event (record core { policy = policy })
      else some (err invalid_event, record core { policy = policy })
