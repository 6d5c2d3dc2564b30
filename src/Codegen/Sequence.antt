-- ===== src/Codegen/Sequence.antt =====
-- The action sequences of a row, `/ (first, eval [guard] / second, process(event), defer)`: what the
-- parser of macros/src/parser/transition.rs collects from one, and what `generate_actions` of
-- macros/src/codegen.rs makes of that.
pub mod Order
use sml_rs.Base.{
  ℕ, zero, suc, ◌+◌, Bool, true, false, ◌&&◌, ◌||◌, ◌==◌, if◌then◌else◌, Option, none, some, List,
  [], ◌∷◌, ◌++◌, length, get_elem?, saturating_add, Result, ok, err, ◌>>=◌,
}
use sml_rs.Parser.Guard.{AsyncIdent, GuardExpression, guard, not_, group, and_, or_}
use sml_rs.Parser.Table.{Syntax, EvalAction}

module _ (x : Syntax) where
  open x use {Ident, Expr}

  -- One item of the sequence, as the loop's branches tell them apart.
  pub data Item : Type 0 where
    callback : AsyncIdent Ident → Item
    eval : GuardExpression Ident → AsyncIdent Ident → Item
    defer_item : Item
    process_item : Expr → Item

  -- The variables of the loop.
  pub record ActionItems : Type 0 where
    pub actions : List (AsyncIdent Ident)
    pub process_events : List Expr
    pub defer : Bool
    pub eval_actions : List (EvalAction x)
    pub position : ℕ

  abbrev pub no_items : ActionItems
  no_items = record {
    actions = [];
    process_events = [];
    defer = false;
    eval_actions = [];
    position = 0;
  }

  -- One round of the loop, once the item's tokens are parsed: every item counts as a position.
  unfoldable pub collect_item : Item → ActionItems → ActionItems
  collect_item (callback action) c = record c {
    actions = c.actions ++ action ∷ [];
    position = saturating_add c.position 1;
  }
  collect_item (eval test action) c = record c {
    eval_actions =
        c.eval_actions ++ record { position = c.position; guard = test; action = action } ∷ [];
    position = saturating_add c.position 1;
  }
  collect_item defer_item c = record c { defer = true; position = saturating_add c.position 1 }
  collect_item (process_item event) c = record c {
    process_events = c.process_events ++ event ∷ [];
    position = saturating_add c.position 1;
  }

  unfoldable pub collect_items : List Item → ActionItems → ActionItems
  unfolding collect_item
  collect_items [] c = c
  collect_items (i ∷ items) c = collect_items items (collect_item i c)

  -- A step of the generated code: an action, whose answer becomes the target's data if `keeps`, or
  -- an action under a guard.
  pub data Step : Type 0 where
    call : AsyncIdent Ident → (keeps : Bool) → Step
    eval_call : GuardExpression Ident → AsyncIdent Ident → Step

  -- The error "generated action sequence references a missing action".
  pub data Missing : Type 0 where
    missing_action : Missing

  -- Whether a guard of the expression is `async`.
  unfoldable pub guard_is_async : GuardExpression Ident → Bool
  guard_is_async (guard g) = g.is_async
  guard_is_async (not_ e) = guard_is_async e
  guard_is_async (group e) = guard_is_async e
  guard_is_async (and_ l r) = guard_is_async l || guard_is_async r
  guard_is_async (or_ l r) = guard_is_async l || guard_is_async r

  -- `eval_actions.iter().find(|eval| eval.position == position)`.
  unfoldable pub find_eval : ℕ → List (EvalAction x) → Option (EvalAction x)
  find_eval position [] = none
  find_eval position (e ∷ evals) =
      if e.position == position then some e else find_eval position evals

  module _ (actions : List (AsyncIdent Ident)) (produces_state_data : Bool) where
    -- `produces_state_data && normal_index.saturating_add(1) == actions.len()`.
    abbrev pub keeps_data : ℕ → Bool
    keeps_data normal_index =
        produces_state_data && (saturating_add normal_index 1 == length actions)

    -- The loop over the positions that are left, of which `position` is the first.
    unfoldable pub generate_steps :
        List (EvalAction x) → ℕ → ℕ → ℕ → Result (Bool × List Step) Missing
    unfolding find_eval guard_is_async
    generate_steps evals zero position normal_index = ok (false, [])
    generate_steps evals (suc left) position normal_index = elim (find_eval position evals) [
      | some e ↦ (do
        (is_async, steps) ← generate_steps evals left (suc position) normal_index
        ok (
          e.action.is_async || guard_is_async e.guard || is_async,
          eval_call e.guard e.action ∷ steps,
        ))
      | none ↦ elim (get_elem? actions normal_index) [
        | none ↦ err missing_action
        | some action ↦ (do
          (is_async, steps) ←
              generate_steps evals left (suc position) (saturating_add normal_index 1)
          ok (action.is_async || is_async, call action (keeps_data normal_index) ∷ steps))
      ]
    ]

  -- `generate_actions`: whether the code awaits, and its steps.
  unfoldable pub generate_actions :
      List (AsyncIdent Ident) → Bool → List (EvalAction x) → Result (Bool × List Step) Missing
  unfolding generate_steps
  generate_actions actions produces_state_data evals =
      generate_steps actions produces_state_data evals
        (saturating_add (length actions) (length evals)) 0 0
