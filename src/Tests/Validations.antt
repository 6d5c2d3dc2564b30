-- ===== src/Tests/Validations.antt =====
-- The validation of small tables.
use sml_rs.Base.{ℕ, ◌≡◌, ◌↔◌, refl, false, ◌==◌, Option, none, some, List, [], ◌∷◌, ok, err}
use sml_rs.Parser.Guard.{AsyncIdent, guard, syntax, visit_guards, visit_loop}
use sml_rs.Parser.HashMap.{HashMap, IsEquality}
use sml_rs.Parser.Table.{
  DataDefinitions, EventKey, Syntax, normal, Transition, EventMapping, ParsedStateMachine,
}
use sml_rs.Parser.HashMap.{get}
use sml_rs.Validation.{
  new, new_guard, register, register_guard, register_action, register_actions, register_eval,
  same_signature, for_each_transition, data_of_key, transition_guards, transition_signatures,
  guard_reused, guarded_unreachable, unreachable_from, unreachable_in_state, unreachable_in,
  validate_action_signatures, validate_guard_signatures, validate_unreachable_transitions,
}
use sml_rs.Base.{==_iff, true}
use sml_rs.Parser.Names.{
  StateTransition, collides, record_name, record_if, record_transition, record_transitions,
  validate_machine_names,
}
use sml_rs.Parser.Names.Distinct.{Compares, as_source, as_target, further, state_names_distinct}
use sml_rs.Validation.Reachable.{Each, StateReachable, validate_unreachable_transitions_iff}

-- Identifiers and types are numbers.
abbrev pub numbers : Syntax
numbers = record {
  Ident = ℕ;
  Expr = ℕ;
  DataType = ℕ;
  Text = ℕ;
  same_ident = λ a b. a == b;
  same_type = λ a b. a == b;
  same_text = λ a b. a == b;
  Lifetime = ℕ;
  same_lifetime = λ a b. a == b;
  is_static = λ a. a == 0;
  GenericParam = ℕ;
  is_type_or_const = λ g. true;
  uses_generic_param = λ t g. t == g;
  is_mutable_reference = λ t. t == 999;
  TypeError = Unit {0};
  lifetimes_in = λ t. ok [];
  identifier_source = λ i. i;
  terminal = 88;
}

pub numbers_equal : IsEquality numbers.same_ident
numbers_equal = record { same_iff = ==_iff }

abbrev pub call : ℕ → AsyncIdent ℕ
call n = record { ident = n; is_async = false }

abbrev pub step_to : Option ℕ → Option ℕ → ℕ → Transition numbers
step_to test action out_state = record {
  guard = elim test [ none ↦ none | some g ↦ some (guard (call g)) ];
  action = elim action [ none ↦ none | some a ↦ some (call a) ];
  additional_actions = [];
  process_events = [];
  defer = false;
  eval_actions = [];
  default_output = false;
  out_state = out_state;
  internal_transition = false;
}

abbrev pub named : ℕ → EventKey numbers
named event = record { kind = normal; name = some event }

abbrev pub on : ℕ → ℕ → List (Transition numbers) → EventKey numbers × EventMapping numbers
on state event ts = (
  named event,
  record {
    in_state = state;
    event = event;
    event_kind = normal;
    event_wildcard = false;
    event_external = false;
    transitions = ts;
  },
)

abbrev pub types : HashMap ℕ ℕ → DataDefinitions numbers
types entries = record { data_types = entries; all_lifetimes = []; lifetimes = [] }

-- States 1 and 2 with no data, and states 3 and 4 with data; events 11 and 12.
abbrev table : List (Transition numbers) → List (Transition numbers) → ParsedStateMachine numbers
table first second = record {
  states = (1, 1) ∷ (2, 2) ∷ (3, 3) ∷ (4, 4) ∷ [];
  starting_state = 1;
  events = (11, 11) ∷ (12, 12) ∷ [];
  state_data = types ((3, 100) ∷ (4, 200) ∷ []);
  event_data = types ((12, 300) ∷ []);
  states_events_mapping = (1, on 1 11 first ∷ on 1 12 second ∷ []) ∷ (2, []) ∷ [];
}

abbrev guarded_first : ParsedStateMachine numbers
guarded_first =
    table (step_to (some 21) none 2 ∷ step_to none none 1 ∷ []) (step_to none none 1 ∷ [])

abbrev unguarded_first : ParsedStateMachine numbers
unguarded_first =
    table (step_to none none 2 ∷ step_to (some 21) none 1 ∷ []) (step_to none none 1 ∷ [])

unguarded_first_refused :
    validate_unreachable_transitions numbers unguarded_first
    ≡ err (guarded_unreachable 1 (named 11) (guard (call 21)))
unfolding validate_unreachable_transitions unreachable_in unreachable_in_state unreachable_from
unguarded_first_refused = refl

-- The guard 21 is asked with the data of the event 12, and without data.
guard_refused :
    validate_guard_signatures numbers
      (table (step_to (some 21) none 2 ∷ []) (step_to (some 21) none 2 ∷ []))
    ≡ err (syntax (guard_reused 21))
unfolding data_of_key validate_guard_signatures for_each_transition transition_guards visit_guards
    visit_loop register_guard register new_guard new same_signature get
guard_refused = refl

-- One action makes the data of the state 3 and of the state 4, which differ, and is accepted.
abbrev two_outputs : ParsedStateMachine numbers
two_outputs = table (step_to (some 21) (some 31) 3 ∷ step_to none (some 31) 4 ∷ []) []

two_outputs_accepted : validate_action_signatures numbers two_outputs ≡ ok tt
unfolding data_of_key validate_action_signatures for_each_transition transition_signatures
    register_actions register_action register_eval register new same_signature get
two_outputs_accepted = refl

validate_unreachable_transitions_iff_example :
    (validate_unreachable_transitions numbers guarded_first ≡ ok tt)
    ↔ Each (StateReachable numbers) guarded_first.states_events_mapping
validate_unreachable_transitions_iff_example =
    validate_unreachable_transitions_iff numbers guarded_first

-- A row of the table; a state's identifier, and how it is written.
abbrev pub row : ℕ × ℕ → ℕ × ℕ → StateTransition numbers
row (from_, written) (to, written_to) = record {
  in_state = record {
    start = false;
    wildcard = false;
    ident = from_;
    source = written;
    data_type = none;
    composite = none;
    history = false;
  };
  event = record {
    ident = 11;
    source = 11;
    data_type = none;
    kind = normal;
    wildcard = false;
    external = false;
  };
  guard = none;
  action = none;
  additional_actions = [];
  process_events = [];
  defer = false;
  eval_actions = [];
  out_state = record {
    ident = to;
    source = written_to;
    internal_transition = false;
    data_type = none;
    composite = none;
  };
  internal_transition = false;
}

abbrev rows : List (StateTransition numbers)
rows = row (1, 101) (2, 102) ∷ row (2, 102) (1, 101) ∷ []

two_spellings :
    validate_machine_names numbers (row (1, 101) (2, 102) ∷ row (2, 103) (1, 101) ∷ [])
    ≡ err (collides 2 103 102)
unfolding validate_machine_names record_transitions record_transition record_if record_name get
two_spellings = refl

rows_accepted : validate_machine_names numbers rows ≡ ok tt
unfolding validate_machine_names record_transitions record_transition record_if record_name get
rows_accepted = refl

numbers_compare : Compares numbers
numbers_compare = record {
  ident_eq = λ a b. (==_iff a b).0;
  ident_refl = λ a. (==_iff a a).1 refl;
  text_eq = λ a b. (==_iff a b).0;
}

state_names_distinct_example : ◌≡◌ {A = ℕ} 102 102
state_names_distinct_example =
    state_names_distinct numbers numbers_compare rows 2 102 102 rows_accepted
      (as_target (row (1, 101) (2, 102)) _ refl)
      (further (row (1, 101) (2, 102)) (as_source (row (2, 102) (1, 101)) _ refl))
