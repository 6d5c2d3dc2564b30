-- ===== src/Tests/Machines.antt =====
-- A machine with two states that runs: its first event's action fails, and an exception row recovers.
use sml_rs.Base.{
  ℕ, ◌≡◌, refl, ap, ◌∙◌, ◌==◌, ==_eq, if_true, Bool-cases, inl, inr, if◌then◌else◌, Bool, true,
  false, Option, none, some, List, [], ◌∷◌, ◌++◌, Result, ok, err, arith,
}
use sml_rs.Parser.Guard.{guard}
use sml_rs.Parser.Table.{exception, exit, EventKey, EventMapping, ParsedStateMachine}
use sml_rs.Codegen.Sequence.{
  Item, callback, eval, process_item, call, eval_call, collect_items, no_items, generate_actions,
}
use sml_rs.Codegen.Sequence.Order.{in_order, awaits, generate_actions-collect_items}
use sml_rs.Codegen.Runtime.{Value, Callbacks, Event, Core, action_failed, invalid_event}
use sml_rs.Codegen.Arms.{Options}
use sml_rs.Parser.HashMap.{get}
use sml_rs.Codegen.Arms.{Mappings, lifecycle_actions}
use sml_rs.Codegen.Rows.{exit_actions}
use sml_rs.Codegen.Machine.{new, initialize_unlocked, process_event_unlocked}
use sml_rs.Codegen.Lifecycle.{Hooks, Succeed, InPhase, Reached-InPhase}
use sml_rs.Codegen.Moves.{Moves, Reached-Moves}
use sml_rs.Codegen.Reached.{Reached, started, processed}
use sml_rs.Tests.Validations.{numbers, call as named_call, step_to, on, types}

-- The items of `(a31, eval [g21] / a32, a33)`.
abbrev sequence : List (Item numbers)
sequence =
    callback (named_call 31)
    ∷ eval (guard (named_call 21)) (named_call 32)
    ∷ callback (named_call 33)
    ∷ []

generate_actions-collect_items_example :
    generate_actions numbers
      (collect_items numbers sequence (no_items numbers)).actions
      true
      (collect_items numbers sequence (no_items numbers)).eval_actions
    ≡ ok (awaits numbers sequence, in_order numbers true sequence)
generate_actions-collect_items_example =
    generate_actions-collect_items numbers sequence true tt (omega arith)

-- The items of `(a31, process(e), eval [g21] / a32, a33)`: the eval is generated behind `a33`.
abbrev shifted : List (Item numbers)
shifted =
    callback (named_call 31)
    ∷ process_item 5
    ∷ eval (guard (named_call 21)) (named_call 32)
    ∷ callback (named_call 33)
    ∷ []

shifted_order :
    generate_actions numbers
      (collect_items numbers shifted (no_items numbers)).actions
      false
      (collect_items numbers shifted (no_items numbers)).eval_actions
    ≡ ok (
      false,
      call (named_call 31) false
          ∷ call (named_call 33) false
          ∷ eval_call (guard (named_call 21)) (named_call 32)
          ∷ [],
    )
unfolding generate_actions collect_items
shifted_order = refl

-- A context that notices a hook out of turn.
pub data Location : Type 0 where
  inside : ℕ → Location
  outside broken : Location

abbrev pub come : ℕ → Location → Location
come s outside = inside s
come s (inside t) = broken
come s broken = broken

abbrev pub go : ℕ → Location → Location
go s (inside t) = if s == t then outside else broken
go s outside = broken
go s broken = broken

-- The action 31 fails.
abbrev pub act : ℕ → Location → Result ℕ ℕ × Location
act a c = if a == 31 then (err 7, c) else (ok 0, c)

abbrev pub user : Callbacks numbers
user = record {
  Data = ℕ;
  Error = ℕ;
  Context = Location;
  Policy = Unit {0};
  Queue = List (Value ℕ ℕ);
  guard = λ g c d p. ok true;
  action = λ a c d p. act a c;
  on_entry = come;
  on_exit = go;
  default_data = λ s. 0;
  expression = λ e c d p. record { ident = e; data_of = none };
  log_process_event = λ e p. p;
  log_state_change = λ a b p. p;
  log_action = λ a e p. p;
  log_guard = λ g e b p. p;
  dispatch = λ p e. true;
  dispatch_candidate = λ p s e i. true;
  defer = λ e q. (ok tt, q ++ e ∷ []);
  process = λ e q. (ok tt, e ∷ q);
  pop = pop_first;
}
  where
    pop_first : List (Value ℕ ℕ) → Option (Value ℕ ℕ) × List (Value ℕ ℕ)
    pop_first [] = (none, [])
    pop_first (e ∷ q) = (some e, q)

-- Any error in the state 1 leads to the state 2.
abbrev recovery : EventKey numbers × EventMapping numbers
recovery = (
  record { kind = exception; name = none },
  record {
    in_state = 1;
    event = 99;
    event_kind = exception;
    event_wildcard = true;
    event_external = false;
    transitions = step_to none none 2 ∷ [];
  },
)

-- Leaving the state 1 runs the action 32.
abbrev leaving : EventKey numbers × EventMapping numbers
leaving = (
  record { kind = exit; name = none },
  record {
    in_state = 1;
    event = 98;
    event_kind = exit;
    event_wildcard = false;
    event_external = false;
    transitions = step_to none (some 32) 1 ∷ [];
  },
)

abbrev rows_1 : Mappings numbers
rows_1 = on 1 11 (step_to (some 21) (some 31) 1 ∷ []) ∷ recovery ∷ leaving ∷ []

abbrev rows_2 : Mappings numbers
rows_2 = on 2 12 (step_to none none 1 ∷ []) ∷ []

abbrev two_states : ParsedStateMachine numbers
two_states = record {
  states = (1, 1) ∷ (2, 2) ∷ [];
  starting_state = 1;
  events = (11, 11) ∷ (12, 12) ∷ [];
  state_data = types [];
  event_data = types [];
  states_events_mapping = (1, rows_1) ∷ (2, rows_2) ∷ [];
}

abbrev pub plain : Options
plain = record { entry_exit_async = false; fixed_error = false }

abbrev pub core_in : ℕ → Core user
core_in s = record {
  state = record { ident = s; data_of = none };
  exit_skip = false;
  context = inside s;
  policy = tt;
  deferred = [];
  pending = [];
}

abbrev pub event : ℕ → Event user
event e = record { ident = e; data_of = none }

starts :
    initialize_unlocked user plain two_states 3 (new user plain two_states outside none tt [] [])
    ≡ some (ok tt, core_in 1)
unfolding initialize_unlocked new
starts = refl

recovers :
    process_event_unlocked user plain two_states 3 (event 11) (core_in 1) ≡ some (ok tt, core_in 2)
unfolding process_event_unlocked
recovers = refl

Reached-core_in : Reached user plain two_states outside [] (core_in 2)
Reached-core_in = processed 3 (event 11) (started 3 none tt starts) recovers

Reached-Moves_example : Moves two_states 1 2
Reached-Moves_example = Reached-Moves user plain two_states outside [] (core_in 2) Reached-core_in

exits_succeed : (s : ℕ) → Succeed user (exit_actions user two_states s)
unfolding get lifecycle_actions
exits_succeed s = chosen (1 == s) (2 == s)
  where
    chosen :
        (b c : Bool)
        → Succeed user (
            lifecycle_actions numbers exit
              (elim (if b then some rows_1 else if c then some rows_2 else none) [
                | none ↦ []
                | some mappings ↦ mappings
              ])
              [])
    chosen true c = ((λ p. (0, refl)), tt)
    chosen false true = tt
    chosen false false = tt

abbrev Inside : ℕ → Location → Type 0
Inside s c = c ≡ inside s

abbrev Outside : ℕ → Location → Type 0
Outside s c = c ≡ outside

go_inside : (s : ℕ) → go s (inside s) ≡ outside
go_inside s = if_true (==_eq s s refl) outside broken

act_location : (a : ℕ) (c : Location) → (act a c).1 ≡ c
act_location a c = elim (Bool-cases (a == 31)) [ inl e ↦ rw e | inr e ↦ rw e ]

location_hooks : Hooks user Inside Outside
location_hooks = record {
  exits = λ s c h. ap (go s) h ∙ go_inside s;
  enters = λ s t c h. ap (come t) h;
  acts_inside = λ s a c d p h. act_location a c ∙ h;
  acts_outside = λ s a c d p h. act_location a c ∙ h;
}

Reached-InPhase_example : InPhase user plain two_states location_hooks exits_succeed (core_in 2)
Reached-InPhase_example =
    Reached-InPhase user plain two_states location_hooks exits_succeed outside [] (core_in 2)
      (λ s. refl) Reached-core_in

-- The exit row's own action fails behind `on_exit`, and the row that recovers runs `on_exit` again.
abbrev failing_exit : ParsedStateMachine numbers
failing_exit = record two_states {
  states_events_mapping =
      (
        1,
        on 1 11 (step_to none none 2 ∷ [])
            ∷ recovery
            ∷ (leaving.0, record (leaving.1) { transitions = step_to none (some 31) 1 ∷ [] })
            ∷ [],
      )
      ∷ (2, rows_2)
      ∷ [];
}

exits_again :
    process_event_unlocked user plain failing_exit 3 (event 11) (core_in 1)
    ≡ some (err (action_failed 7), record (core_in 1) { context = broken })
unfolding process_event_unlocked
exits_again = refl

-- The event 11 is deferred in the state 1 and refused in the state 2.
abbrev deferring : ParsedStateMachine numbers
deferring = record two_states {
  states_events_mapping =
      (
        1,
        on 1 11 (record (step_to none none 1) { internal_transition = true; defer = true } ∷ [])
            ∷ on 1 12 (step_to none none 2 ∷ [])
            ∷ [],
      )
      ∷ (2, [])
      ∷ [];
}

abbrev one_deferred : Core user
one_deferred = record (core_in 1) { deferred = event 11 ∷ [] }

-- A synchronous machine ignores that, an asynchronous one fails although the event 12 has led it to the
-- state 2.
refusal_ignored :
    process_event_unlocked user plain deferring 6 (event 12) one_deferred ≡ some (ok tt, core_in 2)
unfolding process_event_unlocked
refusal_ignored = refl

refusal_fails :
    process_event_unlocked user
      (record plain { entry_exit_async = true })
      deferring
      6
      (event 12)
      one_deferred
    ≡ some (err invalid_event, core_in 2)
unfolding process_event_unlocked
refusal_fails = refl
