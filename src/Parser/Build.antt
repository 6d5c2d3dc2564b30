-- ===== src/Parser/Build.antt =====
-- `ParsedStateMachine::new` of macros/src/parser/mod.rs: the table of a machine from its rows.
pub mod Expected
pub mod Rows
pub mod Wildcard
pub mod Collecting
pub mod States
pub mod Complete
use sml_rs.Base.{
  Bool, true, false, not, ◌&&◌, ◌||◌, if◌then◌else◌, Option, none, some, List, [], ◌∷◌, ◌++◌,
  Result, ok, err, ◌>>=◌,
}
use sml_rs.Parser.HashMap.{HashMap, get, insert, contains_key, map_values}
use sml_rs.Parser.Table.{
  Syntax, EventKind, normal, unexpected, completion, entry, exit, exception, Transition,
  EventMapping, EventKey, same_key, DataDefinitions, TransitionMap, ParsedStateMachine,
}
use sml_rs.Parser.Names.{
  InputState, OutputState, Event, StateTransition, Collision, validate_machine_names,
}
use sml_rs.Parser.Lifetimes.{DataError, no_data, collect}

module _ (x : Syntax) where
  open x use {Ident, DataType, GenericParam, same_ident, identifier_source}

  -- `StateMachine` of macros/src/parser/state_machine.rs, less what `new` only copies.
  pub record StateMachine : Type 0 where
    pub temporary_context_type : Option DataType
    pub transitions : List (StateTransition x)
    pub event_generics : List GenericParam

  -- The errors, one constructor for each message.
  pub data BuildError : Type 0 where
    generic_queue no_start many_starts : BuildError
    generic_state generic_exception generic_event : Ident → GenericParam → BuildError
    unused_generic generic_context : GenericParam → BuildError
    mutable_origin missing_source no_action missing_wildcard_source no_effect : Ident → BuildError
    name_collision : Collision x → BuildError
    data_error : DataError x → BuildError

  -- `event_key`.
  unfoldable pub event_key : Event x → EventKey x
  event_key event = elim event.kind [
    | normal ↦ record { kind = normal; name = some event.ident }
    | unexpected ↦ record {
      kind = unexpected;
      name = if event.wildcard then none else some event.ident;
    }
    | completion ↦ record {
      kind = completion;
      name = if event.wildcard then none else some event.ident;
    }
    | entry ↦ record { kind = entry; name = none }
    | exit ↦ record { kind = exit; name = none }
    | exception ↦ record {
      kind = exception;
      name = if event.wildcard then none else some event.ident;
    }
  ]

  abbrev pub is_some : {A : Type 0} → Option A → Bool
  is_some none = false
  is_some (some a) = true

  -- The `Transition` that `add_transition` makes of a row.
  unfoldable pub to_transition : StateTransition x → Transition x
  to_transition t = record {
    guard = t.guard;
    action = t.action;
    additional_actions = t.additional_actions;
    process_events = t.process_events;
    defer = t.defer;
    eval_actions = t.eval_actions;
    default_output = is_some t.out_state.composite;
    out_state = t.out_state.ident;
    internal_transition = t.internal_transition;
  }

  -- `match p.entry(event_key(&transition.event))`.
  unfoldable pub add_to_events :
      StateTransition x
      → HashMap (EventKey x) (EventMapping x)
      → HashMap (EventKey x) (EventMapping x)
  unfolding get insert event_key to_transition same_key
  add_to_events t p =
      insert (same_key x) p (event_key t.event) (elim (get (same_key x) p (event_key t.event)) [
        | none ↦ record {
          in_state = t.in_state.ident;
          event = t.event.ident;
          event_kind = t.event.kind;
          event_wildcard = t.event.wildcard;
          event_external = t.event.external;
          transitions = to_transition t ∷ [];
        }
        | some mapping ↦ record mapping {
          transitions = mapping.transitions ++ to_transition t ∷ [];
        }
      ])

  -- `add_transition`.
  unfoldable pub add_transition :
      StateTransition x → DataDefinitions x → TransitionMap x → Result (TransitionMap x) BuildError
  unfolding get insert contains_key add_to_events
  add_transition t state_data m = elim (get same_ident m t.in_state.ident) [
    | none ↦ err (missing_source t.in_state.ident)
    | some p ↦
        if contains_key same_ident state_data.data_types t.out_state.ident
          && not (is_some t.action)
          && not (is_some t.out_state.composite)
        then err (no_action t.out_state.ident)
        else ok (insert same_ident m t.in_state.ident (add_to_events t p))
  ]

  -- The target of an internal row with one source is that source.
  unfoldable pub derive_out_state : StateTransition x → StateTransition x
  derive_out_state t =
      if t.out_state.internal_transition && not t.in_state.wildcard
      then record t {
        out_state = record (t.out_state) {
          ident = t.in_state.ident;
          source = t.in_state.source;
          data_type = t.in_state.data_type;
          internal_transition = false;
        };
      }
      else t

  abbrev pub derive_out_states : List (StateTransition x) → List (StateTransition x)
  derive_out_states [] = []
  derive_out_states (t ∷ ts) = derive_out_state t ∷ derive_out_states ts

  -- The rows with a starting source.
  unfoldable pub starting : List (StateTransition x) → List (StateTransition x)
  starting [] = []
  starting (t ∷ ts) = let rest = starting ts in if t.in_state.start then t ∷ rest else rest

  unfoldable pub find_starting_state : List (StateTransition x) → Result Ident BuildError
  unfolding starting
  find_starting_state ts = elim (starting ts) [
    | [] ↦ err no_start
    | t ∷ more ↦ elim more [ [] ↦ ok t.in_state.ident | _ ∷ _ ↦ err many_starts ]
  ]

  -- What the loop over the rows collects.
  pub record Collected : Type 0 where
    pub states : HashMap Ident Ident
    pub state_data : DataDefinitions x
    pub events : HashMap Ident Ident
    pub event_data : DataDefinitions x
    pub states_events_mapping : TransitionMap x

  abbrev pub nothing_collected : Collected
  nothing_collected = record {
    states = [];
    state_data = no_data x;
    events = [];
    event_data = no_data x;
    states_events_mapping = [];
  }

  abbrev pub lift_data : {A : Type 0} → Result A (DataError x) → Result A BuildError
  lift_data (ok a) = ok a
  lift_data (err e) = err (data_error e)

  -- A state's name, its data, and its empty row in the mapping.
  unfoldable pub collect_state : Ident → Option DataType → Collected → Result Collected BuildError
  unfolding insert collect
  collect_state ident data_type c = do
    state_data ← lift_data (collect x c.state_data ident data_type)
    ok (record c {
      states = insert same_ident c.states ident ident;
      state_data = state_data;
      states_events_mapping = insert same_ident c.states_events_mapping ident [];
    })

  abbrev pub is_lifecycle_or_exception : EventKind → Bool
  is_lifecycle_or_exception normal = false
  is_lifecycle_or_exception unexpected = false
  is_lifecycle_or_exception completion = false
  is_lifecycle_or_exception entry = true
  is_lifecycle_or_exception exit = true
  is_lifecycle_or_exception exception = true

  abbrev pub is_completion : EventKind → Bool
  is_completion completion = true
  is_completion _ = false

  unfoldable pub collect_event : Event x → Collected → Result Collected BuildError
  unfolding insert collect
  collect_event event c = do
    event_data ←
        (if not (is_completion event.kind) || is_some event.data_type
          then lift_data (collect x c.event_data event.ident event.data_type)
          else ok c.event_data)
    ok (record c {
      events = insert same_ident c.events event.ident event.ident;
      event_data = event_data;
    })

  -- The body of the loop that collects the states and the events of the rows.
  unfoldable pub collect_row : StateTransition x → Collected → Result Collected BuildError
  unfolding collect_state collect_event
  collect_row t c = do
    with_source ←
        (if not t.in_state.wildcard
          then collect_state t.in_state.ident t.in_state.data_type c
          else ok c)
    with_target ←
        (if not t.out_state.internal_transition
          then collect_state t.out_state.ident t.out_state.data_type with_source
          else ok with_source)
    (if not t.event.wildcard && not (is_lifecycle_or_exception t.event.kind)
        then collect_event t.event with_target
        else ok with_target)

  unfoldable pub collect_rows : List (StateTransition x) → Collected → Result Collected BuildError
  unfolding collect_row
  collect_rows [] c = ok c
  collect_rows (t ∷ ts) c = do c' ← collect_row t c; collect_rows ts c'

  -- A wildcard row for one state.
  unfoldable pub expand_row :
      StateTransition x → DataDefinitions x → Ident → Ident → StateTransition x
  unfolding get
  expand_row t state_data name in_state = record t {
    in_state = record {
      start = false;
      wildcard = false;
      ident = in_state;
      source = identifier_source in_state;
      data_type = get same_ident state_data.data_types name;
      composite = none;
      history = false;
    };
    out_state =
        if t.out_state.internal_transition
        then record (t.out_state) {
          ident = in_state;
          data_type = get same_ident state_data.data_types name;
        }
        else t.out_state;
  }

  -- The loop over the states for a wildcard row, with `transition_added`.
  unfoldable pub expand_wildcard :
      StateTransition x
      → DataDefinitions x
      → HashMap Ident Ident
      → Bool
      → TransitionMap x
      → Result (Bool × TransitionMap x) BuildError
  unfolding get contains_key event_key add_transition expand_row
  expand_wildcard t state_data [] added m = ok (added, m)
  expand_wildcard t state_data ((name, in_state) ∷ states) added m =
      elim (get same_ident m in_state) [
        | none ↦ err (missing_wildcard_source in_state)
        | some p ↦ elim (contains_key (same_key x) p (event_key t.event)) [
          | true ↦ expand_wildcard t state_data states added m
          | false ↦ (do
            m' ← add_transition (expand_row t state_data name in_state) state_data m
            expand_wildcard t state_data states true m')
        ]
      ]

  -- The body of the loop that adds the rows to the mapping.
  unfoldable pub add_row :
      StateTransition x → Collected → TransitionMap x → Result (TransitionMap x) BuildError
  unfolding expand_wildcard add_transition
  add_row t c m =
      if t.in_state.wildcard
      then (do
        (added, m') ← expand_wildcard t c.state_data c.states false m
        if added then ok m' else err (no_effect t.in_state.ident))
      else add_transition t c.state_data m

  unfoldable pub add_rows :
      List (StateTransition x) → Collected → TransitionMap x → Result (TransitionMap x) BuildError
  unfolding add_row
  add_rows [] c m = ok m
  add_rows (t ∷ ts) c m = do m' ← add_row t c m; add_rows ts c m'
