-- ===== src/Parser/Generics.antt =====
-- `ParsedStateMachine::new` of macros/src/parser/mod.rs: its checks of generic events and of
-- completion rows, which come before the table is built, and `new` itself.
use sml_rs.Base.{
  Bool, true, false, not, ◌&&◌, ◌||◌, if◌then◌else◌, Option, none, some, List, [], ◌∷◌, Result, ok,
  err, ◌>>=◌,
}
use sml_rs.Parser.HashMap.{map_values}
use sml_rs.Parser.Table.{
  Syntax, EventKind, exception, EventMapping, TransitionMap, ParsedStateMachine,
}
use sml_rs.Parser.Names.{StateTransition, Collision, validate_machine_names}
use sml_rs.Parser.Build.{
  StateMachine, BuildError, generic_queue, generic_state, generic_exception, generic_event,
  unused_generic, generic_context, mutable_origin, name_collision, derive_out_state,
  nothing_collected, collect_rows, add_rows, derive_out_states, find_starting_state, is_completion,
}

module _ (x : Syntax) where
  open x use {
    Ident, DataType, GenericParam, same_ident, is_type_or_const, uses_generic_param,
    is_mutable_reference,
  }

  abbrev pub Checked : Type 0
  Checked = Result (Unit {0}) (BuildError x)

  abbrev pub any : {A : Type 0} → (A → Bool) → List A → Bool
  any p [] = false
  any p (a ∷ rest) = p a || any p rest

  abbrev pub is_empty : {A : Type 0} → List A → Bool
  is_empty [] = true
  is_empty (a ∷ rest) = false

  -- `for`, with the `return` of an error in the body.
  abbrev pub check_each : {A : Type 0} → (A → Checked) → List A → Checked
  check_each check [] = ok tt
  check_each check (a ∷ rest) = do _ ← check a; check_each check rest

  abbrev pub refuse_if : Bool → BuildError x → Checked
  refuse_if b e = if b then err e else ok tt

  abbrev pub data_uses : Option DataType → GenericParam → Bool
  data_uses none generic = false
  data_uses (some data_type) generic = uses_generic_param data_type generic

  unfoldable pub check_queue : StateMachine x → Checked
  check_queue sm =
      refuse_if
        (not (is_empty sm.event_generics)
          && any (λ t. t.defer || not (is_empty t.process_events)) sm.transitions)
        generic_queue

  -- The data of one state of a row, against each type and constant parameter.
  unfoldable pub check_stored : List GenericParam → Ident → Option DataType → Checked
  check_stored params state none = ok tt
  check_stored params state (some data_type) =
      check_each
        (λ generic.
          refuse_if (is_type_or_const generic && uses_generic_param data_type generic)
            (generic_state state generic))
        params

  unfoldable pub check_states : StateMachine x → Checked
  unfolding check_stored
  check_states sm =
      check_each
        (λ t. do
          _ ← check_stored sm.event_generics t.in_state.ident t.in_state.data_type
          check_stored sm.event_generics t.out_state.ident t.out_state.data_type)
        sm.transitions

  abbrev pub is_exception : EventKind → Bool
  is_exception exception = true
  is_exception _ = false

  -- The event of a row: an exception's payload uses no parameter, and the payload of an event that
  -- is external or uses one parameter uses every type and constant parameter.
  unfoldable pub check_event : List GenericParam → StateTransition x → Checked
  check_event params t = elim t.event.data_type [
    | none ↦ ok tt
    | some event_type ↦ (do
      _ ←
          (if is_exception t.event.kind
            then check_each
                (λ generic.
                  refuse_if (uses_generic_param event_type generic)
                    (generic_exception t.event.ident generic))
                params
            else ok tt)
      (if not t.event.external && not (any (uses_generic_param event_type) params)
          then ok tt
          else check_each
              (λ generic.
                refuse_if (is_type_or_const generic && not (uses_generic_param event_type generic))
                  (generic_event t.event.ident generic))
              params))
  ]

  unfoldable pub check_events : StateMachine x → Checked
  unfolding check_event
  check_events sm = check_each (check_event sm.event_generics) sm.transitions

  -- Every parameter is used by some event.
  unfoldable pub check_used : StateMachine x → Checked
  check_used sm =
      check_each
        (λ generic.
          refuse_if (not (any (λ t. data_uses t.event.data_type generic) sm.transitions))
            (unused_generic generic))
        sm.event_generics

  unfoldable pub check_context : StateMachine x → Checked
  check_context sm = elim sm.temporary_context_type [
    | none ↦ ok tt
    | some context ↦
        if any (uses_generic_param context) sm.event_generics
        then check_each
            (λ generic.
              refuse_if (is_type_or_const generic && not (uses_generic_param context generic))
                (generic_context generic))
            sm.event_generics
        else ok tt
  ]

  abbrev pub is_mutable : Option DataType → Bool
  is_mutable none = false
  is_mutable (some data_type) = is_mutable_reference data_type

  -- A completion row, against the external events of its name.
  unfoldable pub check_completion : List (StateTransition x) → StateTransition x → Checked
  check_completion rows t =
      refuse_if
        (is_completion x t.event.kind
          && (is_mutable t.event.data_type
              || (not t.event.wildcard
                  && any
                      (λ candidate.
                        candidate.event.external
                        && same_ident candidate.event.ident t.event.ident
                        && is_mutable candidate.event.data_type)
                      rows)))
        (mutable_origin t.event.ident)

  abbrev pub lift_names : {A : Type 0} → Result A (Collision x) → Result A (BuildError x)
  lift_names (ok a) = ok a
  lift_names (err e) = err (name_collision e)

  -- `external_events`, and the flag that it gives to each mapping.
  unfoldable pub mark_external : List (StateTransition x) → TransitionMap x → TransitionMap x
  mark_external rows m =
      map_values
        (map_values (λ (mapping : EventMapping x). record mapping {
          event_external =
              any (λ t. t.event.external && same_ident t.event.ident mapping.event) rows;
        }))
        m

  -- `ParsedStateMachine::new` from the check of the names on.
  unfoldable pub build : List (StateTransition x) → Result (ParsedStateMachine x) (BuildError x)
  unfolding validate_machine_names find_starting_state collect_rows add_rows mark_external
  build rows = do
    _ ← lift_names (validate_machine_names x rows)
    starting_state ← find_starting_state x rows
    c ← collect_rows x rows (nothing_collected x)
    mapping ← add_rows x rows c c.states_events_mapping
    ok (record {
      states = c.states;
      starting_state = starting_state;
      state_data = c.state_data;
      events = c.events;
      event_data = c.event_data;
      states_events_mapping = mark_external rows mapping;
    })

  -- `ParsedStateMachine::new` up to the derivation of the internal rows' targets.
  unfoldable pub check_machine : StateMachine x → Checked
  unfolding check_queue check_states check_events check_used check_context check_completion
  check_machine sm = do
    _ ← check_queue sm
    _ ← check_states sm
    _ ← check_events sm
    _ ← check_used sm
    _ ← check_context sm
    check_each (check_completion sm.transitions) sm.transitions

  -- `ParsedStateMachine::new`.
  unfoldable pub new : StateMachine x → Result (ParsedStateMachine x) (BuildError x)
  unfolding check_machine build derive_out_state
  new sm = do _ ← check_machine sm; build (derive_out_states x sm.transitions)
