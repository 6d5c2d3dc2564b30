-- ===== src/Codegen/Ends.antt =====
-- A generated machine whose rows request nothing, and whose completions descend, always answers.
pub mod Quiet
pub mod Answer
pub mod Process
use sml_rs.Base.{
  ◌≡◌, Bool, true, false, not, if◌then◌else◌, Option, none, some, List, [], ◌∷◌, Result, ok, err,
}
use sml_rs.Base.Stateful.{M, resume, pure, ◌>>=◌}
use sml_rs.Parser.Guard.{AsyncIdent, GuardExpression, guard, not_, group, and_, or_}
use sml_rs.Parser.Table.{Syntax}
use sml_rs.Codegen.Sequence.{Step, call, eval_call}
use sml_rs.Codegen.Runtime.{
  Callbacks, Arguments, Core, MachineError, guard_failed, action_failed, Run, Scope, ask_guard,
  eval_guard, call_action, run_steps, run_lifecycle, no_payload,
}

-- The call returns: after a success `Q` holds of the value and the state.
pub data Answers {S E A : Type 0} (Q : A → S → Type 0) : Option (Result A E × S) → Type 0 where
  succeeded : (a : A) {s : S} → Q a s → Answers Q (some (ok a, s))
  failed_with : (e : E) (s : S) → Answers Q (some (err e, s))

pub Answers-bind :
    {S E A B : Type 0} {P : A → S → Type 0} {Q : B → S → Type 0} {o : Option (Result A E × S)}
    (f : A → M S E B)
    → Answers P o
    → ((a : A) (s : S) → P a s → Answers Q (f a s))
    → Answers Q (resume o f)
Answers-bind f (succeeded a h) k = k a _ h
Answers-bind f (failed_with e s) k = failed_with e s

module _ {x : Syntax} (u : Callbacks x) where
  open x use {Ident}

  -- The call returns, and leaves the machine in the state `s`.
  abbrev pub In : {A : Type 0} → Ident → A → Core u → Type 0
  In s a core = core.state.ident ≡ s

  abbrev pub Stays : {A : Type 0} → Run u A → Type 0
  Stays m = (s : Ident) (core : Core u) → core.state.ident ≡ s → Answers (In s) (m core)

  ask_guard-Stays : (scope : Scope u) (g : AsyncIdent Ident) → Stays (ask_guard u scope g)
  unfolding ask_guard
  ask_guard-Stays scope g s core h =
      answered (u.guard g.ident core.context scope.state_data scope.guard_payload)
    where
      answered :
          (answer : Result Bool u.Error)
          → Answers {E = MachineError u} {A = Bool} (In s) (elim answer [
            | err e ↦ some (err (guard_failed e), core)
            | ok passed ↦ some (
              ok passed,
              record core { policy = u.log_guard g.ident scope.event_name passed core.policy },
            )
          ])
      answered (ok passed) = succeeded passed h
      answered (err e) = failed_with (guard_failed e) core

  pub eval_guard-Stays :
      (scope : Scope u) (e : GuardExpression Ident) → Stays (eval_guard u scope e)
  unfolding eval_guard
  eval_guard-Stays scope (guard g) s core h = ask_guard-Stays scope g s core h
  eval_guard-Stays scope (not_ e) s core h =
      Answers-bind _ (eval_guard-Stays scope e s core h) (λ passed c k. succeeded (not passed) k)
  eval_guard-Stays scope (group e) s core h = eval_guard-Stays scope e s core h
  eval_guard-Stays scope (and_ l r) s core h =
      Answers-bind _ (eval_guard-Stays scope l s core h) (λ passed.
        elim passed
          as (λ b.
            (c : Core u)
            → In s b c
            → Answers (In s) (
                let m : Run u Bool = elim b [ true ↦ eval_guard u scope r | false ↦ pure false ] in
                m c)) [
                  | true ↦ λ c k. eval_guard-Stays scope r s c k
                  | false ↦ λ c k. succeeded false k
                ])
  eval_guard-Stays scope (or_ l r) s core h =
      Answers-bind _ (eval_guard-Stays scope l s core h) (λ passed.
        elim passed
          as (λ b.
            (c : Core u)
            → In s b c
            → Answers (In s) (
                let m : Run u Bool = elim b [ true ↦ pure true | false ↦ eval_guard u scope r ] in
                m c)) [
                  | true ↦ λ c k. succeeded true k
                  | false ↦ λ c k. eval_guard-Stays scope r s c k
                ])

  call_action-Stays :
      (a : Ident) (d : Option u.Data) (p : Arguments u) (event : Option Ident)
      → Stays (call_action u a d p event)
  unfolding call_action
  call_action-Stays a d p event s core h = answered (u.action a core.context d p).0
    where
      answered :
          (answer : Result u.Data u.Error)
          → Answers {E = MachineError u} {A = u.Data} (In s) (elim answer [
            | err e ↦
                some
                  (err (action_failed e), record core { context = (u.action a core.context d p).1 })
            | ok v ↦ some (
              ok v,
              record core {
                context = (u.action a core.context d p).1;
                policy = u.log_action a event core.policy;
              },
            )
          ])
      answered (ok v) = succeeded v h
      answered (err e) = failed_with (action_failed e) _

  pub run_steps-Stays :
      (scope : Scope u) (steps : List (Step x)) (kept : Option u.Data)
      → Stays (run_steps u scope steps kept)
  unfolding run_steps
  run_steps-Stays scope [] kept s core h = succeeded kept h
  run_steps-Stays scope (call a keeps ∷ steps) kept s core h =
      Answers-bind _ (call_action-Stays a.ident _ _ _ s core h)
        (λ d c k. run_steps-Stays scope steps (if keeps then some d else kept) s c k)
  run_steps-Stays scope (eval_call test a ∷ steps) kept s core h =
      Answers-bind _ (eval_guard-Stays scope test s core h) (λ passed c k.
        Answers-bind _ (guarded passed c k)
          (λ done c' k'. run_steps-Stays scope steps kept s c' k'))
    where
      guarded :
          (passed : Bool) (c : Core u)
          → c.state.ident ≡ s
          → Answers (In s) (
              let m : Run u (Unit {0}) = elim passed [
                | true ↦ (do
                  _ ← call_action u a.ident scope.state_data scope.payload (some scope.event_name)
                  pure tt)
                | false ↦ pure tt
              ] in
              m c)
      guarded true c k =
          Answers-bind _ (call_action-Stays a.ident _ _ _ s c k) (λ d c' k'. succeeded tt k')
      guarded false c k = succeeded tt k

  pub run_lifecycle-Stays : (actions : List (AsyncIdent Ident)) → Stays (run_lifecycle u actions)
  unfolding run_lifecycle
  run_lifecycle-Stays [] s core h = succeeded tt h
  run_lifecycle-Stays (a ∷ actions) s core h =
      Answers-bind _ (call_action-Stays a.ident none no_payload none s core h)
        (λ d c k. run_lifecycle-Stays actions s c k)
