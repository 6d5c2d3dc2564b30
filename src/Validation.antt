-- ===== src/Validation.antt =====
-- macros/src/validation.rs: the checks of a parsed table before code is generated.
pub mod Reachable
use sml_rs.Base.{
  ℕ, zero, suc, ◌-◌, Bool, true, false, ◌&&◌, ◌==◌, ltb, if◌then◌else◌, Option, none, some, List,
  [], ◌∷◌, ◌++◌, length, saturating_add, saturating_sub, Result, ok, err, ◌>>=◌,
}
use sml_rs.Parser.Guard.{AsyncIdent, GuardExpression, Failure, syntax, lift, visit_guards}
use sml_rs.Parser.Table.{
  DataTypes, same_kind, normal, TransitionMap, EventKey, Syntax, EvalAction, Transition,
  EventMapping, ParsedStateMachine,
}
use sml_rs.Parser.HashMap.{HashMap, get}

module _ (x : Syntax) where
  open x use {Ident, DataType, same_ident, same_type}

  -- The errors, one constructor for each message.
  pub data ValidationError : Type 0 where
    action_reused eval_action_reused guard_reused eval_guard_reused : Ident → ValidationError
    guarded_unreachable : Ident → EventKey x → GuardExpression Ident → ValidationError
    duplicate : Ident → EventKey x → ValidationError

  pub record FunctionSignature : Type 0 where
    pub arguments : List DataType
    pub result : Option DataType
    pub is_async : Bool

  abbrev pub to_list : Option DataType → List DataType
  to_list none = []
  to_list (some t) = t ∷ []

  -- `FunctionSignature::new`.
  unfoldable pub new :
      Option DataType → Option DataType → Option DataType → Bool → FunctionSignature
  new input_data event_data output_data is_async = record {
    arguments = to_list input_data ++ to_list event_data;
    result = output_data;
    is_async = is_async;
  }

  -- `FunctionSignature::new_guard`.
  unfoldable pub new_guard : Option DataType → Option DataType → Bool → FunctionSignature
  unfolding new
  new_guard input_state event is_async = new input_state event none is_async

  -- The derived `==` of signatures.
  abbrev pub same_types : List DataType → List DataType → Bool
  same_types [] [] = true
  same_types [] (u ∷ us) = false
  same_types (t ∷ ts) [] = false
  same_types (t ∷ ts) (u ∷ us) = same_type t u && same_types ts us

  abbrev pub same_result : Option DataType → Option DataType → Bool
  same_result none none = true
  same_result none (some u) = false
  same_result (some t) none = false
  same_result (some t) (some u) = same_type t u

  abbrev pub same_bool : Bool → Bool → Bool
  same_bool true b = b
  same_bool false true = false
  same_bool false false = true

  unfoldable pub same_signature : FunctionSignature → FunctionSignature → Bool
  same_signature f g =
      same_types f.arguments g.arguments
      && same_result f.result g.result
      && same_bool f.is_async g.is_async

  -- `entry(name).or_insert_with(signature)`, and the check of what is registered then.
  unfoldable pub register :
      ValidationError
      → Ident
      → FunctionSignature
      → HashMap Ident FunctionSignature
      → Result (Unit {0}) ValidationError × HashMap Ident FunctionSignature
  unfolding get same_signature
  register error name signature known = elim (get same_ident known name) [
    | none ↦
        (if same_signature signature signature then ok tt else err error, (name, signature) ∷ known)
    | some registered ↦ (if same_signature registered signature then ok tt else err error, known)
  ]

  -- The loop over the transitions of one state and event, with `unguarded_count`.
  unfoldable pub unreachable_from :
      Ident → EventKey x → ℕ → List (Transition x) → Result (Unit {0}) ValidationError
  unreachable_from in_state event unguarded_count [] = ok tt
  unreachable_from in_state event unguarded_count (t ∷ ts) = elim t.guard [
    | some g ↦
        if ltb 0 unguarded_count
        then err (guarded_unreachable in_state event g)
        else unreachable_from in_state event unguarded_count ts
    | none ↦
        if ltb 1 (saturating_add unguarded_count 1)
        then err (duplicate in_state event)
        else unreachable_from in_state event (saturating_add unguarded_count 1) ts
  ]

  -- The loop over the events of one state.
  unfoldable pub unreachable_in_state :
      Ident → HashMap (EventKey x) (EventMapping x) → Result (Unit {0}) ValidationError
  unfolding unreachable_from
  unreachable_in_state in_state [] = ok tt
  unreachable_in_state in_state ((event, event_mapping) ∷ rest) = do
    _ ←
        (if ltb 1 (length event_mapping.transitions)
          then unreachable_from in_state event 0 event_mapping.transitions
          else ok tt)
    unreachable_in_state in_state rest

  -- The loop over the states.
  unfoldable pub unreachable_in : TransitionMap x → Result (Unit {0}) ValidationError
  unfolding unreachable_in_state
  unreachable_in [] = ok tt
  unreachable_in ((in_state, event_mappings) ∷ rest) = do
    _ ← unreachable_in_state in_state event_mappings
    unreachable_in rest

  unfoldable pub validate_unreachable_transitions :
      ParsedStateMachine x → Result (Unit {0}) ValidationError
  unfolding unreachable_in
  validate_unreachable_transitions sm = unreachable_in sm.states_events_mapping

  -- A check that records signatures, and ends at the first error.
  abbrev pub Recorder : Type 0
  Recorder =
      HashMap Ident FunctionSignature
      → Result (Unit {0}) (Failure ValidationError) × HashMap Ident FunctionSignature

  abbrev pub no_more : Recorder
  no_more known = (ok tt, known)

  abbrev pub and_then : Recorder → Recorder → Recorder
  and_then first second known =
      let (r, known') = first known in elim r [ ok _ ↦ second known' | err e ↦ (err e, known') ]

  -- `for`, with the `return` of an error in the body.
  abbrev pub for_each : {A : Type 0} → (A → Recorder) → List A → Recorder
  for_each body [] = no_more
  for_each body (a ∷ rest) = and_then (body a) (for_each body rest)

  abbrev pub recorded :
      Result (Unit {0}) ValidationError × HashMap Ident FunctionSignature
      → Result (Unit {0}) (Failure ValidationError) × HashMap Ident FunctionSignature
  recorded (ok u, known) = (ok u, known)
  recorded (err e, known) = (err (syntax e), known)

  -- What the signatures of one state and event are made of.
  pub record Place : Type 0 where
    pub in_state_data : Option DataType
    pub event_data : Option DataType
    pub out_state_data : Option DataType

  -- The closure of `visit_guards`.
  unfoldable pub register_guard :
      (Ident → ValidationError)
      → Place
      → AsyncIdent Ident
      → HashMap Ident FunctionSignature
      → Result (Unit {0}) ValidationError × HashMap Ident FunctionSignature
  unfolding register new_guard
  register_guard error place guard =
      register (error guard.ident) guard.ident
        (new_guard place.in_state_data place.event_data guard.is_async)

  unfoldable pub transition_guards : Place → Transition x → Recorder
  unfolding register_guard
  transition_guards place transition =
      and_then
        (elim transition.guard [
          | none ↦ no_more
          | some expr ↦ visit_guards (register_guard guard_reused place) expr
        ])
        (for_each (λ eval. visit_guards (register_guard eval_guard_reused place) eval.guard)
          transition.eval_actions)

  -- An action in its place among the actions of a transition: only the last one has an output.
  unfoldable pub register_action : Place → ℕ → ℕ → AsyncIdent Ident → Recorder
  unfolding register new
  register_action place last_action_index action_index action known = recorded (
      register (action_reused action.ident) action.ident
        (new place.in_state_data place.event_data
          (if action_index == last_action_index then place.out_state_data else none)
          action.is_async)
        known)

  unfoldable pub register_actions : Place → ℕ → ℕ → List (AsyncIdent Ident) → Recorder
  unfolding register_action
  register_actions place last_action_index action_index [] = no_more
  register_actions place last_action_index action_index (action ∷ actions) =
      and_then (register_action place last_action_index action_index action)
        (register_actions place last_action_index (suc action_index) actions)

  unfoldable pub register_eval : Place → EvalAction x → Recorder
  unfolding register new
  register_eval place eval known = recorded (
      register (eval_action_reused eval.action.ident) eval.action.ident
        (new place.in_state_data place.event_data none eval.action.is_async) known)

  -- `transition.action.iter().chain(transition.additional_actions.iter())`.
  abbrev pub transition_actions : Transition x → List (AsyncIdent Ident)
  transition_actions transition = elim transition.action [
    | none ↦ transition.additional_actions
    | some action ↦ action ∷ transition.additional_actions
  ]

  unfoldable pub transition_signatures : Place → Transition x → Recorder
  unfolding register_actions register_eval
  transition_signatures place transition =
      and_then
        (register_actions place (saturating_sub (length (transition_actions transition)) 1) 0
          (transition_actions transition))
        (for_each (register_eval place) transition.eval_actions)

  -- The lookup of an event's key among the states' data: a key with a prefix names no state.
  unfoldable pub data_of_key : DataTypes x → EventKey x → Option DataType
  unfolding get
  data_of_key data_types key =
      if same_kind key.kind normal
      then elim key.name [ none ↦ none | some name ↦ get same_ident data_types name ]
      else none

  -- The loops over the states, their events and the transitions; the key of an event's entry is
  -- looked up among the states' data, as the source does.
  unfoldable pub for_each_transition :
      (Place → Transition x → Recorder) → ParsedStateMachine x → Recorder
  unfolding get data_of_key
  for_each_transition body sm =
      for_each
        (λ (in_state_name, from_transitions).
          for_each
            (λ (out_state_name, event_mapping).
              for_each
                (body (record {
                  in_state_data = get same_ident sm.state_data.data_types in_state_name;
                  event_data = get same_ident sm.event_data.data_types event_mapping.event;
                  out_state_data = data_of_key sm.state_data.data_types out_state_name;
                }))
                event_mapping.transitions)
            from_transitions)
        sm.states_events_mapping

  unfoldable pub validate_action_signatures :
      ParsedStateMachine x → Result (Unit {0}) (Failure ValidationError)
  unfolding for_each_transition transition_signatures
  validate_action_signatures sm = (for_each_transition transition_signatures sm []).0

  unfoldable pub validate_guard_signatures :
      ParsedStateMachine x → Result (Unit {0}) (Failure ValidationError)
  unfolding for_each_transition transition_guards
  validate_guard_signatures sm = (for_each_transition transition_guards sm []).0

  unfoldable pub validate : ParsedStateMachine x → Result (Unit {0}) (Failure ValidationError)
  unfolding validate_action_signatures validate_guard_signatures validate_unreachable_transitions
  validate sm = do
    _ ← validate_action_signatures sm
    _ ← validate_guard_signatures sm
    lift (validate_unreachable_transitions sm)
