-- ===== src/Codegen/Invariant/Process.antt =====
-- Processing an event keeps an invariant, however its rows request events of their own, and so does
-- the start.
use sml_rs.Base.{
  ℕ, zero, suc, Bool, true, false, ◌&&◌, if◌then◌else◌, Option, none, some, Result, ok,
}
use sml_rs.Base.Stateful.{pure, ◌>>◌, Leaves, runs_out, succeeds, errs, Leaves-bind}
use sml_rs.Parser.Table.{Syntax, completion, same_kind, ParsedStateMachine}
use sml_rs.Codegen.Runtime.{
  no_payload, Callbacks, Event, Core, MachineError, invalid_event, transitions_failed, queue_full,
  guard_failed, action_failed, Run, push_pending,
}
use sml_rs.Codegen.Arms.{Options, has_anonymous_completion, async_queue, mappings_of, find_mapping}
use sml_rs.Codegen.Rows.{entry_actions}
use sml_rs.Codegen.Dispatch.{was_taken, dispatch_event}
use sml_rs.Codegen.Machine.{
  ignore_refusal, process_now, drain_pending, process_event_unlocked, request_event, retry_event,
  process_anonymous_completion, stabilize, initialize_unlocked,
}
use sml_rs.Codegen.Invariant.Callback.{run_lifecycle-Keeps, push_pending-Keeps}
use sml_rs.Codegen.Invariant.Row.{IsInvariant}
use sml_rs.Codegen.Invariant.Arm.{find_mapping-Among}
use sml_rs.Codegen.Invariant.Whole.{Holds, arm-Keeps, dispatch_event-Keeps}

module _ {x : Syntax} (u : Callbacks x) (options : Options) (sm : ParsedStateMachine x)
    {I : Core u → Type 0} {J : x.Ident → Core u → Type 0} (inv : IsInvariant u sm I J) where
  ignore_refusal-Keeps :
      {o : Option (Result (Unit {0}) (MachineError u) × Core u)}
      → Leaves I I o
      → Leaves I I (ignore_refusal u options sm o)
  ignore_refusal-Keeps runs_out = runs_out
  ignore_refusal-Keeps (succeeds a h) = succeeds tt h
  ignore_refusal-Keeps (errs invalid_event h) = succeeds tt h
  ignore_refusal-Keeps (errs transitions_failed h) = succeeds tt h
  ignore_refusal-Keeps (errs queue_full h) = errs queue_full h
  ignore_refusal-Keeps (errs (guard_failed e) h) = errs (guard_failed e) h
  ignore_refusal-Keeps (errs (action_failed e) h) = errs (action_failed e) h

  push-Keeps : (event : Event u) → Holds u options sm inv (push_pending u event)
  push-Keeps = push_pending-Keeps u I inv.inside

  process_now-Keeps :
      (fuel : ℕ) (event : Event u) → Holds u options sm inv (process_now u options sm fuel event)
  unfolding process_now
  process_now-Keeps zero event core h = runs_out
  process_now-Keeps (suc fuel) event core h =
      dispatch_event-Keeps u options sm inv (process_now u options sm fuel)
        (λ e c. ignore_refusal u options sm (process_now u options sm fuel e c))
        (process_now-Keeps fuel) (λ e c k. ignore_refusal-Keeps (process_now-Keeps fuel e c k)) fuel
        event core h

  drain_pending-Keeps : (fuel : ℕ) → Holds u options sm inv (drain_pending u options sm fuel)
  unfolding drain_pending
  drain_pending-Keeps zero core h = runs_out
  drain_pending-Keeps (suc fuel) core h = popped (drain_pending-Keeps fuel) (u.pop core.pending).0
    where
      after : I (record core { pending = (u.pop core.pending).1 })
      after = inv.inside.on_pending core _ h

      popped :
          Holds u options sm inv (drain_pending u options sm fuel)
          → (event : Option (Event u))
          → Leaves I I (elim event [
            | none ↦ some (ok tt, record core { pending = (u.pop core.pending).1 })
            | some e ↦
                (do
                  dispatch_event u options sm (push_pending u) (push_pending u) fuel e
                  drain_pending u options sm fuel)
                  (record core { pending = (u.pop core.pending).1 })
          ])
      popped rest none = succeeds tt after
      popped rest (some e) =
          Leaves-bind _
            (dispatch_event-Keeps u options sm inv (push_pending u) (push_pending u) push-Keeps
              push-Keeps fuel e _ after)
            (λ done c k. rest c k)

  if-Keeps :
      (b : Bool) {m n : Run u (Unit {0})}
      → Holds u options sm inv m
      → Holds u options sm inv n
      → Holds u options sm inv (if b then m else n)
  if-Keeps true h k = h
  if-Keeps false h k = k

  pub process_event_unlocked-Keeps :
      (fuel : ℕ) (event : Event u)
      → Holds u options sm inv (process_event_unlocked u options sm fuel event)
  unfolding process_event_unlocked
  process_event_unlocked-Keeps fuel event =
      if-Keeps (async_queue x options sm)
        (λ core h.
          Leaves-bind _ (push-Keeps event core h) (λ done c k. drain_pending-Keeps fuel c k))
        (process_now-Keeps fuel event)

  request_event-Keeps :
      (fuel : ℕ) (event : Event u) → Holds u options sm inv (request_event u options sm fuel event)
  request_event-Keeps fuel event =
      if-Keeps (async_queue x options sm) (push-Keeps event) (process_now-Keeps fuel event)

  retry_event-Keeps :
      (fuel : ℕ) (event : Event u) → Holds u options sm inv (retry_event u options sm fuel event)
  retry_event-Keeps fuel event core h = chosen (async_queue x options sm)
    where
      chosen :
          (b : Bool)
          → Leaves I I (
              if b
              then push_pending u event core
              else ignore_refusal u options sm (process_now u options sm fuel event core))
      chosen true = push-Keeps event core h
      chosen false = ignore_refusal-Keeps (process_now-Keeps fuel event core h)

  process_anonymous_completion-Keeps :
      (fuel : ℕ) → Holds u options sm inv (process_anonymous_completion u options sm fuel)
  unfolding process_anonymous_completion
  process_anonymous_completion-Keeps fuel core h =
      Leaves-bind
        (λ answer. pure (
          was_taken u options sm (request_event u options sm fuel) (retry_event u options sm fuel)
            answer))
        (arm-Keeps u options sm inv (request_event u options sm fuel)
          (retry_event u options sm fuel) (request_event-Keeps fuel) (retry_event-Keeps fuel) fuel
          (pure tt)
          (find_mapping x (λ m. same_kind m.event_kind completion && m.event_wildcard)
            (mappings_of x sm core.state.ident))
          none no_payload core (λ c k. succeeds tt k)
          (find_mapping-Among x _ (mappings_of x sm core.state.ident)) h)
        (λ answer c k. succeeds _ k)

  stabilize-Keeps : (fuel : ℕ) → Holds u options sm inv (stabilize u options sm fuel)
  unfolding stabilize
  stabilize-Keeps zero core h = runs_out
  stabilize-Keeps (suc fuel) core h =
      Leaves-bind _ (process_anonymous_completion-Keeps fuel core h)
        (λ more c k. round (stabilize-Keeps fuel) more c k)
    where
      round :
          Holds u options sm inv (stabilize u options sm fuel)
          → (more : Bool) (c : Core u) → I c
          → Leaves I I (
              let m : Run u (Unit {0}) = elim more [
                | true ↦ stabilize u options sm fuel
                | false ↦ pure tt
              ] in
              m c)
      round rest true c k = rest c k
      round rest false c k = succeeds tt k

  -- The start, from a machine in which the initial state's `on_entry` has run.
  pub initialize_unlocked-Keeps :
      (fuel : ℕ) (core : Core u)
      → I (record core { context = u.on_entry core.state.ident core.context })
      → Leaves I I (initialize_unlocked u options sm fuel core)
  unfolding initialize_unlocked
  initialize_unlocked-Keeps fuel core h =
      Leaves-bind _ (run_lifecycle-Keeps u I inv.inside (entry_actions u sm core.state.ident) _ h)
        (λ done c k.
          if-Keeps (has_anonymous_completion x sm) (stabilize-Keeps fuel) (λ c' k'. succeeds tt k')
            c k)
