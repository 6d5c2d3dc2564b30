-- ===== src/Codegen/Invariant/Whole.antt =====
-- The whole dispatch keeps an invariant.
use sml_rs.Base.{ℕ, zero, suc, Bool, true, false, if◌then◌else◌, Option, none, some, Result, err}
use sml_rs.Base.Stateful.{pure, raise, ◌>>=◌, Leaves, runs_out, succeeds, errs, Leaves-bind}
use sml_rs.Parser.Table.{Syntax, EventMapping, ParsedStateMachine}
use sml_rs.Codegen.Runtime.{
  no_payload, error_data, Callbacks, Event, Arguments, Core, MachineError, invalid_event,
  transitions_failed, queue_full, guard_failed, action_failed, Run,
}
use sml_rs.Codegen.Arms.{
  Options, has_exception_handlers, mappings_of, completion_arm, exception_arm,
}
use sml_rs.Codegen.Dispatch.{
  arm, was_taken, origin_name, origin_data, process_completion, run_completions, finish_event,
  completion_origin, state_dispatch, callback_error, process_exception, recover, event_dispatch,
  dispatch_event,
}
use sml_rs.Codegen.Invariant.Callback.{Keeps}
use sml_rs.Codegen.Invariant.Row.{IsInvariant, IsArm, run_arm-Keeps}
use sml_rs.Codegen.Invariant.Arm.{Among, event_arm-Among, completion_arm-Among, exception_arm-Among}

module _ {x : Syntax} (u : Callbacks x) (options : Options) (sm : ParsedStateMachine x)
    {I : Core u → Type 0} {J : x.Ident → Core u → Type 0} (inv : IsInvariant u sm I J) where
  open x use {Ident}

  abbrev pub Holds : {A : Type 0} → Run u A → Type 0
  Holds = Keeps u I inv.inside

  module _ (ask_for again : Event u → Run u (Unit {0}))
      (ask_for-Keeps : (event : Event u) → Holds (ask_for event))
      (again-Keeps : (event : Event u) → Holds (again event)) where
    Among-IsArm :
        (s : Ident) (o : Option (EventMapping x))
        → Among x (mappings_of x sm s) o
        → IsArm u sm inv ask_for again ask_for-Keeps again-Keeps s o
    Among-IsArm s none h = tt
    Among-IsArm s (some m) h = h

    pub arm-Keeps :
        (fuel : ℕ) (finish : Run u (Unit {0})) (o : Option (EventMapping x)) (d : Option u.Data)
        (error : Arguments u) (core : Core u)
        → Holds finish
        → Among x (mappings_of x sm core.state.ident) o
        → I core
        → Leaves I I (arm u options sm ask_for again fuel finish o d error core)
    arm-Keeps fuel finish o d error core finishes found h =
        run_arm-Keeps u sm inv ask_for again ask_for-Keeps again-Keeps fuel finish o d error core
          finishes (Among-IsArm core.state.ident o found) h

    pub nothing-Keeps : Holds (pure tt)
    nothing-Keeps core h = succeeds tt h

    process_completion-Keeps :
        (fuel : ℕ) (origin : Option (Event u))
        → Holds (process_completion u options sm ask_for again fuel origin)
    unfolding process_completion
    process_completion-Keeps fuel origin core h =
        Leaves-bind (λ answer. pure (was_taken u options sm ask_for again answer))
          (arm-Keeps fuel (pure tt)
            (completion_arm x (mappings_of x sm core.state.ident)
              (origin_name u options sm ask_for again origin))
            (origin_data u options sm ask_for again origin) no_payload core nothing-Keeps
            (completion_arm-Among x (mappings_of x sm core.state.ident)
              (origin_name u options sm ask_for again origin))
            h)
          (λ answer c k. succeeds (was_taken u options sm ask_for again answer) k)

    run_completions-Keeps :
        (fuel : ℕ) (origin : Option (Event u))
        → Holds (run_completions u options sm ask_for again fuel origin)
    unfolding run_completions
    run_completions-Keeps zero origin core h = runs_out
    run_completions-Keeps (suc fuel) origin core h =
        Leaves-bind _ (process_completion-Keeps fuel origin core h)
          (λ more c k. round (run_completions-Keeps fuel origin) more c k)
      where
        round :
            Holds (run_completions u options sm ask_for again fuel origin)
            → (more : Bool) (c : Core u) → I c
            → Leaves I I (
                let m : Run u (Unit {0}) = elim more [
                  | true ↦ run_completions u options sm ask_for again fuel origin
                  | false ↦ pure tt
                ] in
                m c)
        round rest true c k = rest c k
        round rest false c k = succeeds tt k

    finish_event-Keeps :
        (fuel : ℕ) (origin : Option (Option (Event u)))
        → Holds (finish_event u options sm ask_for again fuel origin)
    unfolding finish_event
    finish_event-Keeps fuel none core h = succeeds tt h
    finish_event-Keeps fuel (some origin) core h = run_completions-Keeps fuel origin core h

    -- The answer of an arm as the answer of the dispatch.
    verdict-Keeps :
        (answer : Option Bool) (core : Core u)
        → I core
        → Leaves I I (
            let m : Run u (Unit {0}) = elim answer [
              | none ↦ raise invalid_event
              | some taken ↦ if taken then pure tt else raise transitions_failed
            ] in
            m core)
    verdict-Keeps none core h = errs invalid_event h
    verdict-Keeps (some true) core h = succeeds tt h
    verdict-Keeps (some false) core h = errs transitions_failed h

    state_dispatch-Keeps :
        (fuel : ℕ) (event : Event u) → Holds (state_dispatch u options sm ask_for again fuel event)
    unfolding state_dispatch
    state_dispatch-Keeps fuel event core h =
        Leaves-bind _
          (arm-Keeps fuel _ _ event.data_of no_payload core
            (finish_event-Keeps fuel (completion_origin u options sm ask_for again event))
            (event_arm-Among x (mappings_of x sm core.state.ident) event.ident) h)
          (λ answer c k. verdict-Keeps answer c k)

    unless-Keeps :
        (b : Bool) (error : MachineError u) (core : Core u)
        → I core
        → Leaves I I ((if b then pure tt else raise error) core)
    unless-Keeps true error core h = succeeds tt h
    unless-Keeps false error core h = errs error h

    if-holds :
        (b : Bool) {m n : Option (Result (Unit {0}) (MachineError u) × Core u)}
        → Leaves I I m
        → Leaves I I n
        → Leaves I I (if b then m else n)
    if-holds true h k = h
    if-holds false h k = k

    process_exception-Keeps :
        (fuel : ℕ) (error : MachineError u)
        → Holds (process_exception u options sm ask_for again fuel error)
    unfolding process_exception
    process_exception-Keeps fuel error core h =
        cases (callback_error u options sm ask_for again error) (
          rows (elim (callback_error u options sm ask_for again error) [
            | none ↦ no_payload
            | some e ↦ error_data e
          ]))
      where
        rows_of : Arguments u → Run u (Unit {0})
        rows_of d c =
            (do
              answer ←
                  arm u options sm ask_for again fuel (pure tt)
                    (exception_arm x (mappings_of x sm c.state.ident)) none d
              if was_taken u options sm ask_for again answer then pure tt else raise error)
              c

        rows : (d : Arguments u) → Leaves I I (rows_of d core)
        rows d =
            Leaves-bind _
              (arm-Keeps fuel (pure tt) _ none d core nothing-Keeps
                (exception_arm-Among x (mappings_of x sm core.state.ident)) h)
              (λ answer c k. unless-Keeps (was_taken u options sm ask_for again answer) error c k)

        cases :
            {run : Option (Result (Unit {0}) (MachineError u) × Core u)} (known : Option u.Error)
            → Leaves I I run
            → Leaves I I (elim known [
              | some e ↦ run
              | none ↦ if options.fixed_error then some (err error, core) else run
            ])
        cases (some e) k = k
        cases none k = if-holds options.fixed_error (errs error h) k

    recover-Keeps :
        (fuel : ℕ) {o : Option (Result (Unit {0}) (MachineError u) × Core u)}
        → Leaves I I o
        → Leaves I I (recover u options sm ask_for again fuel o)
    recover-Keeps fuel runs_out = runs_out
    recover-Keeps fuel (succeeds a h) = succeeds a h
    recover-Keeps fuel (errs invalid_event h) = errs invalid_event h
    recover-Keeps fuel (errs transitions_failed h) = errs transitions_failed h
    recover-Keeps fuel (errs queue_full h) = errs queue_full h
    recover-Keeps fuel (errs (guard_failed e) h) = process_exception-Keeps fuel (guard_failed e) _ h
    recover-Keeps fuel (errs (action_failed e) h) =
        process_exception-Keeps fuel (action_failed e) _ h

    event_dispatch-Keeps :
        (fuel : ℕ) (event : Event u) → Holds (event_dispatch u options sm ask_for again fuel event)
    unfolding event_dispatch
    event_dispatch-Keeps fuel event core h =
        if-holds (has_exception_handlers x sm)
          (recover-Keeps fuel (state_dispatch-Keeps fuel event core h))
          (state_dispatch-Keeps fuel event core h)

    pub dispatch_event-Keeps :
        (fuel : ℕ) (event : Event u) → Holds (dispatch_event u options sm ask_for again fuel event)
    unfolding dispatch_event
    dispatch_event-Keeps fuel event core h =
        if-holds (u.dispatch (u.log_process_event event.ident core.policy) event.ident)
          (event_dispatch-Keeps fuel event _ (inv.inside.on_policy core _ h))
          (errs invalid_event (inv.inside.on_policy core _ h))
