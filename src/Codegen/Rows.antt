-- ===== src/Codegen/Rows.antt =====
-- The code block of a row and the candidates of an arm: `code_blocks` of macros/src/codegen.rs. Each
-- loop takes fuel.
use sml_rs.Base.{
  ℕ, zero, suc, Bool, true, false, not, ◌&&◌, ◌||◌, if◌then◌else◌, Option, none, some, List, [],
  ◌∷◌, ok, err,
}
use sml_rs.Base.Stateful.{pure, ◌>>=◌, ◌>>◌}
use sml_rs.Parser.Guard.{AsyncIdent, GuardExpression}
use sml_rs.Parser.HashMap.{get, contains_key}
use sml_rs.Parser.Table.{
  Syntax, EventKind, normal, unexpected, entry, exit, exception, same_kind, Transition,
  EventMapping, ParsedStateMachine,
}
use sml_rs.Codegen.Sequence.{Step, generate_actions}
use sml_rs.Codegen.Runtime.{
  Value, no_payload, event_data, error_data, Callbacks, Event, Arguments, Core, Run, Scope,
  eval_guard, run_steps, run_lifecycle, push_deferred,
}
use sml_rs.Codegen.Arms.{is_nil, row_actions, has_deferred_events, lifecycle_actions, mappings_of}

module _ {x : Syntax} (u : Callbacks x) (sm : ParsedStateMachine x) where
  open x use {Ident, Expr, same_ident}

  -- Whether the variant of a state holds data.
  abbrev pub has_data : Ident → Bool
  has_data state = contains_key same_ident sm.state_data.data_types state

  -- The steps of a row. A row for which there are none does not compile.
  unfoldable pub row_steps : Transition x → List (Step x)
  unfolding generate_actions contains_key get
  row_steps t = elim (generate_actions x (row_actions x t) (has_data t.out_state) t.eval_actions) [
    | ok (_, steps) ↦ steps
    | err _ ↦ []
  ]

  abbrev pub exit_actions : Ident → List (AsyncIdent Ident)
  exit_actions state = lifecycle_actions x exit (mappings_of x sm state) []

  abbrev pub entry_actions : Ident → List (AsyncIdent Ident)
  entry_actions state = lifecycle_actions x entry (mappings_of x sm state) []

  -- What a row does first: it leaves its source, unless an earlier row did and then failed.
  unfoldable pub leave : Ident → Run u (Unit {0})
  unfolding run_lifecycle lifecycle_actions
  leave in_state core = elim core.exit_skip [
    | true ↦ some (ok tt, record core { exit_skip = true })
    | false ↦
        (do
          run_lifecycle u (exit_actions in_state)
          (λ core'. some (ok tt, record core' { exit_skip = true })))
          (record core { context = u.on_exit in_state core.context })
  ]

  -- The new state, and its `on_entry`.
  unfoldable pub enter : Ident → Value Ident u.Data → Core u → Core u
  enter in_state out_state core = record core {
    state = out_state;
    exit_skip = false;
    policy = u.log_state_change in_state out_state.ident core.policy;
    context = u.on_entry out_state.ident core.context;
  }

  -- `self.deferred.defer(event)`, where the row says so.
  unfoldable pub defer_row : Scope u → Transition x → Run u (Unit {0})
  unfolding push_deferred
  defer_row scope t =
      if t.defer
      then push_deferred u (record {
        ident = scope.event_name;
        data_of = elim (scope.payload) [
          | event_data d ↦ some d
          | no_payload ↦ none
          | error_data e ↦ none
        ];
      })
      else pure tt

  -- `default_output_code`.
  abbrev pub with_default : Transition x → Option u.Data → Option u.Data
  with_default t kept =
      if t.default_output && is_nil (row_actions x t) && has_data t.out_state
      then some (u.default_data t.out_state)
      else kept

  -- `request` is what `process_code` does with an event, `retry` what `drain_deferred` does.
  module _ (request retry : Event u → Run u (Unit {0})) where
    unfoldable pub process_row : Scope u → List Expr → Run u (Unit {0})
    process_row scope [] = pure tt
    process_row scope (e ∷ events) = do
      (λ core. request (u.expression e core.context scope.state_data scope.payload) core)
      process_row scope events

    -- `while let Some(deferred_event) = self.deferred.pop()`.
    unfoldable pub drain_deferred : ℕ → Run u (Unit {0})
    drain_deferred zero core = none
    drain_deferred (suc fuel) core =
        let (event, queue) = u.pop core.deferred in
        elim event [
          | none ↦ some (ok tt, record core { deferred = queue })
          | some e ↦ (do retry e; drain_deferred fuel) (record core { deferred = queue })
        ]

    -- A row's code, in front of `finish_transition`.
    unfoldable pub run_transition : ℕ → Scope u → Transition x → Run u (Unit {0})
    unfolding row_steps run_steps leave enter run_lifecycle lifecycle_actions defer_row process_row
        drain_deferred has_deferred_events
    run_transition fuel scope t =
        if t.internal_transition
        then (do
          _ ← run_steps u scope (row_steps t) none
          defer_row scope t
          process_row scope t.process_events)
        else (do
          leave scope.in_state
          kept ← run_steps u scope (row_steps t) none
          (λ core. some (
            ok tt,
            enter scope.in_state
                (record {
                  ident = t.out_state;
                  data_of = if has_data t.out_state then with_default t kept else none;
                })
                core,
          ))
          run_lifecycle u (entry_actions t.out_state)
          defer_row scope t
          process_row scope t.process_events
          (if has_deferred_events x sm then drain_deferred fuel else pure tt))

    -- The candidates of an arm, from the one at `index` on: whether one of them was taken.
    abbrev pub candidate_allowed : EventKind → Scope u → ℕ → Core u → Bool
    candidate_allowed kind scope index core =
        if same_kind kind normal || same_kind kind unexpected
        then u.dispatch_candidate core.policy scope.in_state scope.event_name index
        else true

    abbrev pub ask : Scope u → Option (GuardExpression Ident) → Run u Bool
    ask scope none = pure true
    ask scope (some test) = eval_guard u scope test

    unfoldable pub run_candidates :
        ℕ → EventKind → Scope u → Run u (Unit {0}) → List (Transition x) → ℕ → Run u Bool
    unfolding run_transition eval_guard
    run_candidates fuel kind scope finish [] index core = some (ok false, core)
    run_candidates fuel kind scope finish (t ∷ ts) index core =
        elim (candidate_allowed kind scope index core) [
          | false ↦ run_candidates fuel kind scope finish ts (suc index) core
          | true ↦
              (do
                passed ← ask scope t.guard
                elim passed [
                  | true ↦ (do run_transition fuel scope t; finish; pure true)
                  | false ↦ run_candidates fuel kind scope finish ts (suc index)
                ])
                core
        ]

    -- The surroundings of the rows of a mapping, in the state where the machine is.
    abbrev pub scope_of : Core u → EventMapping x → Option u.Data → Arguments u → Scope u
    scope_of core m value error =
        let payload : Arguments u =
          if m.event_wildcard
          then no_payload
          else elim value [ none ↦ no_payload | some d ↦ event_data d ] in
        record {
          in_state = core.state.ident;
          state_data = core.state.data_of;
          event_name = m.event;
          guard_payload = payload;
          payload =
              if same_kind m.event_kind exception && not m.event_wildcard then error else payload;
        }

    -- The code of an arm, if the state has one.
    unfoldable pub run_arm :
        ℕ
        → Run u (Unit {0})
        → Option (EventMapping x)
        → Option u.Data
        → Arguments u
        → Run u (Option Bool)
    unfolding run_candidates
    run_arm fuel finish none value error core = some (ok none, core)
    run_arm fuel finish (some m) value error core =
        (do
          taken ←
              run_candidates fuel m.event_kind (scope_of core m value error) finish m.transitions 0
          pure (some taken))
          core
