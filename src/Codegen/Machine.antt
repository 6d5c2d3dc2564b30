-- ===== src/Codegen/Machine.antt =====
-- The generated machine of macros/src/codegen.rs: `__sml_process_event_unlocked`, in a synchronous machine
-- and in one that queues, `__sml_initialize_unlocked`, `is_terminated` and the values at the start. The
-- fuel bounds how deep requested events nest, and the rounds of each loop.
use sml_rs.Base.{
  ℕ, zero, suc, Bool, true, false, ◌&&◌, Option, none, some, Result, ok, err, if◌then◌else◌,
}
use sml_rs.Base.Stateful.{pure, exhausted, ◌>>=◌, ◌>>◌}
use sml_rs.Parser.HashMap.{get}
use sml_rs.Parser.Table.{Syntax, completion, same_kind, ParsedStateMachine}
use sml_rs.Codegen.Runtime.{
  no_payload, Callbacks, Event, Core, MachineError, invalid_event, transitions_failed, queue_full,
  guard_failed, action_failed, Run, run_lifecycle, push_pending,
}
use sml_rs.Codegen.Arms.{
  Options, has_anonymous_completion, async_queue, lifecycle_actions, mappings_of, find_mapping,
}
use sml_rs.Codegen.Rows.{entry_actions, run_arm}
use sml_rs.Codegen.Dispatch.{was_taken, dispatch_event}

module _ {x : Syntax} (u : Callbacks x) (options : Options) (sm : ParsedStateMachine x) where
  open x use {Ident, same_ident, terminal}

  -- A deferred event that is run at once may find no transition; other errors end the dispatch.
  abbrev pub ignore_refusal :
      Option (Result (Unit {0}) (MachineError u) × Core u)
      → Option (Result (Unit {0}) (MachineError u) × Core u)
  ignore_refusal none = none
  ignore_refusal (some (ok a, core)) = some (ok tt, core)
  ignore_refusal (some (err invalid_event, core)) = some (ok tt, core)
  ignore_refusal (some (err transitions_failed, core)) = some (ok tt, core)
  ignore_refusal (some (err queue_full, core)) = some (err queue_full, core)
  ignore_refusal (some (err (guard_failed e), core)) = some (err (guard_failed e), core)
  ignore_refusal (some (err (action_failed e), core)) = some (err (action_failed e), core)

  -- A machine without `async_queue` calls itself for each event that a row requests.
  unfoldable pub process_now : ℕ → Event u → Run u (Unit {0})
  unfolding dispatch_event
  process_now zero = λ event. exhausted
  process_now (suc fuel) =
      dispatch_event u options sm (process_now fuel)
        (λ event core. ignore_refusal (process_now fuel event core)) fuel

  -- `while let Some(event) = self.pending.pop()`: each is dispatched to its end, and what its rows
  -- request is queued in front.
  unfoldable pub drain_pending : ℕ → Run u (Unit {0})
  unfolding dispatch_event push_pending
  drain_pending zero core = none
  drain_pending (suc fuel) core =
      let (event, queue) = u.pop core.pending in
      elim event [
        | none ↦ some (ok tt, record core { pending = queue })
        | some e ↦
            (do
              dispatch_event u options sm (push_pending u) (push_pending u) fuel e
              drain_pending fuel)
              (record core { pending = queue })
      ]

  -- `__sml_process_event_unlocked`.
  unfoldable pub process_event_unlocked : ℕ → Event u → Run u (Unit {0})
  unfolding process_now drain_pending push_pending async_queue
  process_event_unlocked fuel event =
      if async_queue x options sm
      then (do push_pending u event; drain_pending fuel)
      else process_now fuel event

  -- What the rows of completions request while the machine starts.
  abbrev pub request_event : ℕ → Event u → Run u (Unit {0})
  request_event fuel event =
      if async_queue x options sm then push_pending u event else process_now fuel event

  abbrev pub retry_event : ℕ → Event u → Run u (Unit {0})
  retry_event fuel event core =
      if async_queue x options sm
      then push_pending u event core
      else ignore_refusal (process_now fuel event core)

  -- `process_anonymous_completion`.
  unfoldable pub process_anonymous_completion : ℕ → Run u Bool
  unfolding run_arm find_mapping process_now push_pending async_queue
  process_anonymous_completion fuel core =
      (do
        answer ←
            run_arm u sm (request_event fuel) (retry_event fuel) fuel (pure tt)
              (find_mapping x (λ m. same_kind m.event_kind completion && m.event_wildcard)
                (mappings_of x sm core.state.ident))
              none no_payload
        pure (was_taken u options sm (request_event fuel) (retry_event fuel) answer))
        core

  unfoldable pub stabilize : ℕ → Run u (Unit {0})
  unfolding process_anonymous_completion
  stabilize zero = exhausted
  stabilize (suc fuel) = do
    again ← process_anonymous_completion fuel
    elim again [ true ↦ stabilize fuel | false ↦ pure tt ]

  -- `__sml_initialize_unlocked`: the initial state is entered, and then anonymous completions run.
  unfoldable pub initialize_unlocked : ℕ → Run u (Unit {0})
  unfolding run_lifecycle lifecycle_actions stabilize has_anonymous_completion
  initialize_unlocked fuel core =
      (do
        run_lifecycle u (entry_actions u sm core.state.ident)
        (if has_anonymous_completion x sm then stabilize fuel else pure tt))
        (record core { context = u.on_entry core.state.ident core.context })

  -- `is_terminated`.
  unfoldable pub is_terminated : Core u → Bool
  unfolding get
  is_terminated core = elim (get same_ident sm.states terminal) [
    | none ↦ false
    | some state ↦ same_ident core.state.ident state
  ]

  -- `new`, with the data of the starting state, if it has any.
  unfoldable pub new : u.Context → Option u.Data → u.Policy → u.Queue → u.Queue → Core u
  new context state_data policy deferred pending = record {
    state = record { ident = sm.starting_state; data_of = state_data };
    exit_skip = false;
    context = context;
    policy = policy;
    deferred = deferred;
    pending = pending;
  }
