-- ===== src/Codegen/Runtime.antt =====
-- What a generated machine runs on: the state that `#core_type_name` of macros/src/codegen.rs holds, and
-- what its user supplies, the context's callbacks and the policy (`Logger`, `Observer`, `Dispatch` and the
-- queues of src/policy.rs), which are parameters.
use sml_rs.Base.{
  ℕ, Bool, true, false, not, if◌then◌else◌, Option, none, some, List, [], ◌∷◌, Result, ok, err,
}
use sml_rs.Base.Stateful.{M, pure, ◌>>=◌}
use sml_rs.Parser.Guard.{AsyncIdent, GuardExpression, guard, not_, group, and_, or_}
use sml_rs.Parser.Table.{Syntax}
use sml_rs.Utility.EventQueue.{QueueFull}
use sml_rs.Codegen.Sequence.{Step, call, eval_call}

-- A value of the enum of the states, or of the events: its variant, and its payload.
pub record Value (I D : Type 0) : Type 0 where
  pub ident : I
  pub data_of : Option D

-- The event's part of the arguments of a callback: `event_data`, `error_data`, or nothing.
pub data Payload (D E : Type 0) : Type 0 where
  no_payload : Payload D E
  event_data : D → Payload D E
  error_data : E → Payload D E

module _ (x : Syntax) where
  open x use {Ident, Expr}

  -- The logs take `""` for the event of an entry or exit action. A method of the context that takes
  -- `&self` leaves it as it is.
  pub record Callbacks : Type 1 where
    pub Data : Type 0
    pub Error : Type 0
    pub Context : Type 0
    pub Policy : Type 0
    pub Queue : Type 0
    pub guard : Ident → Context → Option Data → Payload Data Error → Result Bool Error
    pub action : Ident → Context → Option Data → Payload Data Error → Result Data Error × Context
    pub on_entry : Ident → Context → Context
    pub on_exit : Ident → Context → Context
    -- `core::default::Default::default()` of a state's data.
    pub default_data : Ident → Data
    -- An event that a row processes, an expression over the context and the arguments.
    pub expression : Expr → Context → Option Data → Payload Data Error → Value Ident Data
    pub log_process_event : Ident → Policy → Policy
    pub log_state_change : Ident → Ident → Policy → Policy
    pub log_action : Ident → Option Ident → Policy → Policy
    pub log_guard : Ident → Ident → Bool → Policy → Policy
    pub dispatch : Policy → Ident → Bool
    pub dispatch_candidate : Policy → Ident → Ident → ℕ → Bool
    pub defer : Value Ident Data → Queue → Result (Unit {0}) QueueFull × Queue
    pub process : Value Ident Data → Queue → Result (Unit {0}) QueueFull × Queue
    pub pop : Queue → Option (Value Ident Data) × Queue

module _ {x : Syntax} (u : Callbacks x) where
  open x use {Ident, Expr}

  abbrev pub Event : Type 0
  Event = Value Ident u.Data

  abbrev pub Arguments : Type 0
  Arguments = Payload u.Data u.Error

  pub record Core : Type 0 where
    pub state : Value Ident u.Data
    pub exit_skip : Bool
    pub context : u.Context
    pub policy : u.Policy
    pub deferred : u.Queue
    pub pending : u.Queue

  -- `#error_type_name`.
  pub data MachineError : Type 0 where
    invalid_event transitions_failed queue_full : MachineError
    guard_failed action_failed : u.Error → MachineError

  abbrev pub Run : Type 0 → Type 0
  Run = M Core MachineError

  -- The surroundings of a row's code: the source state and its data, the event's name and payload. A
  -- guard's payload may differ from an action's: that of a typed exception is for actions only.
  pub record Scope : Type 0 where
    pub in_state : Ident
    pub state_data : Option u.Data
    pub event_name : Ident
    pub guard_payload : Arguments
    pub payload : Arguments

  -- A guard's block: `self.context.guard(…).map_err(GuardFailed)?`, then the logs.
  unfoldable pub ask_guard : Scope → AsyncIdent Ident → Run Bool
  ask_guard scope g core =
      elim (u.guard g.ident core.context scope.state_data scope.guard_payload) [
        | err e ↦ some (err (guard_failed e), core)
        | ok passed ↦ some (
          ok passed,
          record core { policy = u.log_guard g.ident scope.event_name passed core.policy },
        )
      ]

  -- The Boolean expression that `to_token_stream` prints, with Rust's `!`, `&&` and `||`.
  unfoldable pub eval_guard : Scope → GuardExpression Ident → Run Bool
  unfolding ask_guard
  eval_guard scope (guard g) = ask_guard scope g
  eval_guard scope (not_ e) = do passed ← eval_guard scope e; pure (not passed)
  eval_guard scope (group e) = eval_guard scope e
  eval_guard scope (and_ l r) = do
    passed ← eval_guard scope l
    elim passed [ true ↦ eval_guard scope r | false ↦ pure false ]
  eval_guard scope (or_ l r) = do
    passed ← eval_guard scope l
    elim passed [ true ↦ pure true | false ↦ eval_guard scope r ]

  -- `self.context.action(…).map_err(ActionFailed)?`, then the log.
  unfoldable pub call_action : Ident → Option u.Data → Arguments → Option Ident → Run u.Data
  call_action action state_data payload event core =
      let (answer, context) = u.action action core.context state_data payload in
      elim answer [
        | err e ↦ some (err (action_failed e), record core { context = context })
        | ok d ↦ some (
          ok d,
          record core { context = context; policy = u.log_action action event core.policy },
        )
      ]

  -- The steps of a row's action sequence; the result is `_data`, if a step binds it.
  unfoldable pub run_steps : Scope → List (Step x) → Option u.Data → Run (Option u.Data)
  unfolding eval_guard call_action
  run_steps scope [] kept = pure kept
  run_steps scope (call a keeps ∷ steps) kept = do
    d ← call_action a.ident scope.state_data scope.payload (some scope.event_name)
    run_steps scope steps (if keeps then some d else kept)
  run_steps scope (eval_call test a ∷ steps) kept = do
    passed ← eval_guard scope test
    done ← elim passed [
      | true ↦ (do
        _ ← call_action a.ident scope.state_data scope.payload (some scope.event_name)
        pure tt)
      | false ↦ pure tt
    ]
    run_steps scope steps kept

  -- The actions of an entry or exit row, which take no arguments.
  unfoldable pub run_lifecycle : List (AsyncIdent Ident) → Run (Unit {0})
  unfolding call_action
  run_lifecycle [] = pure tt
  run_lifecycle (a ∷ actions) = do
    _ ← call_action a.ident none no_payload none
    run_lifecycle actions

  -- `.map_err(|_| QueueFull)?` on the deferred and on the pending events.
  unfoldable pub push_deferred : Event → Run (Unit {0})
  push_deferred event core =
      let (answer, queue) = u.defer event core.deferred in
      elim answer [
        | ok _ ↦ some (ok tt, record core { deferred = queue })
        | err _ ↦ some (err queue_full, record core { deferred = queue })
      ]

  unfoldable pub push_pending : Event → Run (Unit {0})
  push_pending event core =
      let (answer, queue) = u.process event core.pending in
      elim answer [
        | ok _ ↦ some (ok tt, record core { pending = queue })
        | err _ ↦ some (err queue_full, record core { pending = queue })
      ]
