-- ===== src/Codegen/Arms.antt =====
-- What the generator of macros/src/codegen.rs reads off a parsed table: which machinery the machine
-- needs, and which rows stand in the arm that a state has for an event, a completion or an error.
use sml_rs.Base.{
  Bool, true, false, not, ◌&&◌, ◌||◌, if◌then◌else◌, Option, none, some, List, [], ◌∷◌,
}
use sml_rs.Parser.Guard.{AsyncIdent}
use sml_rs.Parser.HashMap.{HashMap, get}
use sml_rs.Parser.Table.{
  Syntax, EventKind, normal, unexpected, completion, exception, same_kind, EvalAction, Transition,
  EventMapping, EventKey, ParsedStateMachine,
}
use sml_rs.Codegen.Sequence.{guard_is_async}

-- What the generator reads besides the table: `entry_exit_async`, and whether there is a
-- `fixed_error_type`.
pub record Options : Type 0 where
  pub entry_exit_async : Bool
  pub fixed_error : Bool

abbrev pub any : {A : Type 0} → (A → Bool) → List A → Bool
any test [] = false
any test (a ∷ l) = test a || any test l

abbrev pub is_nil : {A : Type 0} → List A → Bool
is_nil [] = true
is_nil (a ∷ l) = false

module _ (x : Syntax) where
  open x use {Ident, same_ident}

  abbrev pub Mappings : Type 0
  Mappings = HashMap (EventKey x) (EventMapping x)

  -- `transition.action.iter().chain(transition.additional_actions.iter())`.
  abbrev pub row_actions : Transition x → List (AsyncIdent Ident)
  row_actions t = elim t.action [ none ↦ t.additional_actions | some a ↦ a ∷ t.additional_actions ]

  -- `sm.states_events_mapping.values().flat_map(|mappings| mappings.values()).any(…)`.
  abbrev pub any_mapping : (EventMapping x → Bool) → ParsedStateMachine x → Bool
  any_mapping test sm =
      any (λ (row : Ident × Mappings). any (λ (m : EventKey x × EventMapping x). test m.1) row.1)
        sm.states_events_mapping

  unfoldable pub has_anonymous_completion : ParsedStateMachine x → Bool
  has_anonymous_completion =
      any_mapping (λ m. same_kind m.event_kind completion && m.event_wildcard)

  -- Whether `completion_events` holds an event.
  unfoldable pub is_completion_event : ParsedStateMachine x → Ident → Bool
  is_completion_event sm event =
      any_mapping
        (λ m. same_kind m.event_kind completion && not m.event_wildcard && same_ident m.event event)
        sm

  -- `has_anonymous_completion || !completion_events.is_empty()`.
  unfoldable pub has_completion_events : ParsedStateMachine x → Bool
  has_completion_events = any_mapping (λ m. same_kind m.event_kind completion)

  unfoldable pub has_exception_handlers : ParsedStateMachine x → Bool
  has_exception_handlers = any_mapping (λ m. same_kind m.event_kind exception)

  unfoldable pub has_deferred_events : ParsedStateMachine x → Bool
  has_deferred_events = any_mapping (λ m. any (λ (t : Transition x). t.defer) m.transitions)

  -- `has_queue_actions`.
  unfoldable pub has_queue_actions : ParsedStateMachine x → Bool
  unfolding has_deferred_events
  has_queue_actions sm =
      has_deferred_events sm
      || any_mapping (λ m. any (λ (t : Transition x). not (is_nil t.process_events)) m.transitions)
          sm

  -- Whether a row's actions, guard or evals await.
  unfoldable pub row_is_async : Transition x → Bool
  unfolding guard_is_async
  row_is_async t =
      any (λ (a : AsyncIdent Ident). a.is_async) (row_actions t)
      || elim t.guard [ none ↦ false | some e ↦ guard_is_async x e ]
      || any (λ (e : EvalAction x). e.action.is_async || guard_is_async x e.guard) t.eval_actions

  -- `is_async_state_machine`.
  unfoldable pub is_async_state_machine : Options → ParsedStateMachine x → Bool
  unfolding row_is_async
  is_async_state_machine options sm =
      options.entry_exit_async || any_mapping (λ m. any row_is_async m.transitions) sm

  -- An asynchronous machine queues the events that its rows request, a synchronous one runs them
  -- at once.
  unfoldable pub async_queue : Options → ParsedStateMachine x → Bool
  unfolding is_async_state_machine has_queue_actions
  async_queue options sm = is_async_state_machine options sm && has_queue_actions sm

  -- `entry_actions` and `exit_actions`: the actions of the first row of the state's mapping of that
  -- kind; a later mapping replaces an earlier one.
  abbrev pub first_row_actions :
      List (Transition x) → List (AsyncIdent Ident) → List (AsyncIdent Ident)
  first_row_actions [] before = before
  first_row_actions (t ∷ ts) before = row_actions t

  unfoldable pub lifecycle_actions :
      EventKind → Mappings → List (AsyncIdent Ident) → List (AsyncIdent Ident)
  lifecycle_actions kind [] before = before
  lifecycle_actions kind ((k, m) ∷ mappings) before =
      lifecycle_actions kind mappings
        (if same_kind m.event_kind kind then first_row_actions m.transitions before else before)

  -- The rows of a state; a state of no row has no arm, and does not compile.
  abbrev pub mappings_of : ParsedStateMachine x → Ident → Mappings
  mappings_of sm state = elim (get same_ident sm.states_events_mapping state) [
    | none ↦ []
    | some mappings ↦ mappings
  ]

  -- The first mapping that a test accepts, and the last one.
  unfoldable pub find_mapping : (EventMapping x → Bool) → Mappings → Option (EventMapping x)
  find_mapping test [] = none
  find_mapping test ((k, m) ∷ mappings) = if test m then some m else find_mapping test mappings

  unfoldable pub last_mapping :
      (EventMapping x → Bool) → Mappings → Option (EventMapping x) → Option (EventMapping x)
  last_mapping test [] before = before
  last_mapping test ((k, m) ∷ mappings) before =
      last_mapping test mappings (if test m then some m else before)

  -- `#event_pattern`.
  abbrev pub matches : Ident → EventMapping x → Bool
  matches event m = m.event_wildcard || same_ident m.event event

  -- The arm of a state that takes an event: the rows for that event, else those for it as an
  -- unexpected event, else those for any unexpected event.
  unfoldable pub event_arm : Mappings → Ident → Option (EventMapping x)
  unfolding find_mapping last_mapping
  event_arm mappings event =
      elim (find_mapping (λ m. same_kind m.event_kind normal && matches event m) mappings) [
        | some m ↦ some m
        | none ↦
            elim (find_mapping
              (λ m.
                same_kind m.event_kind unexpected
                && not m.event_wildcard
                && same_ident m.event event)
              mappings) [
                | some m ↦ some m
                | none ↦
                    last_mapping (λ m. same_kind m.event_kind unexpected && m.event_wildcard)
                      mappings none
              ]
      ]

  -- The arm of a state that takes a completion: that of its origin, else the anonymous one.
  -- `none` is the origin `__AnyCompletion`.
  unfoldable pub completion_arm : Mappings → Option Ident → Option (EventMapping x)
  unfolding find_mapping last_mapping
  completion_arm mappings origin =
      let anonymous : Option (EventMapping x) =
        last_mapping (λ m. same_kind m.event_kind completion && m.event_wildcard) mappings none in
      elim origin [
        | none ↦ anonymous
        | some event ↦
            elim (find_mapping
              (λ m.
                same_kind m.event_kind completion
                && not m.event_wildcard
                && same_ident m.event event)
              mappings) [ some m ↦ some m | none ↦ anonymous ]
      ]

  -- The arm of a state that takes an error: a typed exception, else any.
  unfoldable pub exception_arm : Mappings → Option (EventMapping x)
  unfolding find_mapping
  exception_arm mappings =
      elim (find_mapping (λ m. same_kind m.event_kind exception && not m.event_wildcard) mappings) [
        | some m ↦ some m
        | none ↦ find_mapping (λ m. same_kind m.event_kind exception) mappings
      ]
