-- ===== src/Codegen/Invariant/Callback.antt =====
-- The code that runs callbacks keeps whatever they keep.
use sml_rs.Base.{
  Bool, true, false, not, if◌then◌else◌, Option, none, some, List, [], ◌∷◌, Result, ok, err,
}
use sml_rs.Base.Stateful.{pure, ◌>>=◌, Leaves, succeeds, errs, Leaves-bind}
use sml_rs.Parser.Guard.{AsyncIdent, GuardExpression, guard, not_, group, and_, or_}
use sml_rs.Parser.Table.{Syntax}
use sml_rs.Utility.EventQueue.{QueueFull}
use sml_rs.Codegen.Sequence.{Step, call, eval_call}
use sml_rs.Codegen.Runtime.{
  Callbacks, Event, Arguments, Core, MachineError, queue_full, guard_failed, action_failed, Run,
  Scope, ask_guard, eval_guard, call_action, run_steps, run_lifecycle, no_payload, push_deferred,
  push_pending,
}

-- Whatever an action, a log or a queue does.
pub record Stable {x : Syntax} (u : Callbacks x) (P : Core u → Type 0) : Type 0 where
  pub on_action :
      (core : Core u) (a : x.Ident) (d : Option u.Data) (p : Arguments u)
      → P core
      → P (record core { context = (u.action a core.context d p).1 })
  pub on_policy : (core : Core u) (policy : u.Policy) → P core → P (record core { policy = policy })
  pub on_deferred :
      (core : Core u) (queue : u.Queue) → P core → P (record core { deferred = queue })
  pub on_pending : (core : Core u) (queue : u.Queue) → P core → P (record core { pending = queue })

module _ {x : Syntax} (u : Callbacks x) (P : Core u → Type 0) (stable : Stable u P) where
  open x use {Ident}

  -- The call keeps `P`, whatever it answers.
  abbrev pub Keeps : {A : Type 0} → Run u A → Type 0
  Keeps m = (core : Core u) → P core → Leaves P P (m core)

  pub ask_guard-Keeps : (scope : Scope u) (g : AsyncIdent Ident) → Keeps (ask_guard u scope g)
  unfolding ask_guard
  ask_guard-Keeps scope g core h =
      answered (u.guard g.ident core.context scope.state_data scope.guard_payload)
    where
      answered :
          (answer : Result Bool u.Error)
          → Leaves {E = MachineError u} {A = Bool} P P (elim answer [
            | err e ↦ some (err (guard_failed e), core)
            | ok passed ↦ some (
              ok passed,
              record core { policy = u.log_guard g.ident scope.event_name passed core.policy },
            )
          ])
      answered (ok passed) = succeeds passed (stable.on_policy core _ h)
      answered (err e) = errs (guard_failed e) h

  pub eval_guard-Keeps :
      (scope : Scope u) (e : GuardExpression Ident) → Keeps (eval_guard u scope e)
  unfolding eval_guard
  eval_guard-Keeps scope (guard g) core h = ask_guard-Keeps scope g core h
  eval_guard-Keeps scope (not_ e) core h =
      Leaves-bind _ (eval_guard-Keeps scope e core h) (λ passed c k. succeeds (not passed) k)
  eval_guard-Keeps scope (group e) core h = eval_guard-Keeps scope e core h
  eval_guard-Keeps scope (and_ l r) core h =
      Leaves-bind _ (eval_guard-Keeps scope l core h) (λ passed.
        elim passed
          as (λ b.
            (c : Core u)
            → P c
            → Leaves P P (
                let m : Run u Bool = elim b [ true ↦ eval_guard u scope r | false ↦ pure false ] in
                m c)) [
                  | true ↦ λ c k. eval_guard-Keeps scope r c k
                  | false ↦ λ c k. succeeds false k
                ])
  eval_guard-Keeps scope (or_ l r) core h =
      Leaves-bind _ (eval_guard-Keeps scope l core h) (λ passed.
        elim passed
          as (λ b.
            (c : Core u)
            → P c
            → Leaves P P (
                let m : Run u Bool = elim b [ true ↦ pure true | false ↦ eval_guard u scope r ] in
                m c)) [
                  | true ↦ λ c k. succeeds true k
                  | false ↦ λ c k. eval_guard-Keeps scope r c k
                ])

  pub call_action-Keeps :
      (a : Ident) (d : Option u.Data) (p : Arguments u) (event : Option Ident)
      → Keeps (call_action u a d p event)
  unfolding call_action
  call_action-Keeps a d p event core h = answered (u.action a core.context d p).0
    where
      after : P (record core { context = (u.action a core.context d p).1 })
      after = stable.on_action core a d p h

      answered :
          (answer : Result u.Data u.Error)
          → Leaves {E = MachineError u} {A = u.Data} P P (elim answer [
            | err e ↦
                some
                  (err (action_failed e), record core { context = (u.action a core.context d p).1 })
            | ok v ↦ some (
              ok v,
              record core {
                context = (u.action a core.context d p).1;
                policy = u.log_action a event core.policy;
              },
            )
          ])
      answered (ok v) = succeeds v (stable.on_policy _ _ after)
      answered (err e) = errs (action_failed e) after

  pub run_steps-Keeps :
      (scope : Scope u) (steps : List (Step x)) (kept : Option u.Data)
      → Keeps (run_steps u scope steps kept)
  unfolding run_steps
  run_steps-Keeps scope [] kept core h = succeeds kept h
  run_steps-Keeps scope (call a keeps ∷ steps) kept core h =
      Leaves-bind _ (call_action-Keeps a.ident _ _ _ core h)
        (λ d c k. run_steps-Keeps scope steps (if keeps then some d else kept) c k)
  run_steps-Keeps scope (eval_call test a ∷ steps) kept core h =
      Leaves-bind _ (eval_guard-Keeps scope test core h) (λ passed c k.
        Leaves-bind _ (guarded passed c k) (λ done c' k'. run_steps-Keeps scope steps kept c' k'))
    where
      guarded :
          (passed : Bool) (c : Core u)
          → P c
          → Leaves P P (
              let m : Run u (Unit {0}) = elim passed [
                | true ↦ (do
                  _ ← call_action u a.ident scope.state_data scope.payload (some scope.event_name)
                  pure tt)
                | false ↦ pure tt
              ] in
              m c)
      guarded true c k =
          Leaves-bind _ (call_action-Keeps a.ident _ _ _ c k) (λ d c' k'. succeeds tt k')
      guarded false c k = succeeds tt k

  pub run_lifecycle-Keeps : (actions : List (AsyncIdent Ident)) → Keeps (run_lifecycle u actions)
  unfolding run_lifecycle
  run_lifecycle-Keeps [] core h = succeeds tt h
  run_lifecycle-Keeps (a ∷ actions) core h =
      Leaves-bind _ (call_action-Keeps a.ident none no_payload none core h)
        (λ d c k. run_lifecycle-Keeps actions c k)

  pub push_deferred-Keeps : (event : Event u) → Keeps (push_deferred u event)
  unfolding push_deferred
  push_deferred-Keeps event core h = answered (u.defer event core.deferred).0
    where
      after : P (record core { deferred = (u.defer event core.deferred).1 })
      after = stable.on_deferred core _ h

      answered :
          (answer : Result (Unit {0}) QueueFull)
          → Leaves {E = MachineError u} {A = Unit {0}} P P (elim answer [
            | ok _ ↦ some (ok tt, record core { deferred = (u.defer event core.deferred).1 })
            | err _ ↦
                some (err queue_full, record core { deferred = (u.defer event core.deferred).1 })
          ])
      answered (ok v) = succeeds tt after
      answered (err e) = errs queue_full after

  pub push_pending-Keeps : (event : Event u) → Keeps (push_pending u event)
  unfolding push_pending
  push_pending-Keeps event core h = answered (u.process event core.pending).0
    where
      after : P (record core { pending = (u.process event core.pending).1 })
      after = stable.on_pending core _ h

      answered :
          (answer : Result (Unit {0}) QueueFull)
          → Leaves {E = MachineError u} {A = Unit {0}} P P (elim answer [
            | ok _ ↦ some (ok tt, record core { pending = (u.process event core.pending).1 })
            | err _ ↦
                some (err queue_full, record core { pending = (u.process event core.pending).1 })
          ])
      answered (ok v) = succeeds tt after
      answered (err e) = errs queue_full after
