-- ===== src/Tests/Builds.antt =====
-- The table that is built from a few rows.
use sml_rs.Base.{◌≡◌, refl, true, none, some, List, [], ◌∷◌, ok, err}
use sml_rs.Parser.Table.{normal, EventKey, ParsedStateMachine}
use sml_rs.Parser.Names.{StateTransition}
use sml_rs.Parser.Build.{StateMachine, many_starts, no_effect, derive_out_states}
use sml_rs.Parser.Generics.{new}
use sml_rs.Parser.Build.Expected.{found, expected, has_state}
use sml_rs.Parser.Build.States.{mentioned}
use sml_rs.Parser.Build.Complete.{StartsAt, new-StartsAt, new-found}
use sml_rs.Tests.Validations.{numbers, row, numbers_equal}

abbrev first_row : StateTransition numbers
first_row =
    let r : StateTransition numbers = row (1, 101) (2, 102) in
    record r { in_state = record (r.in_state) { start = true } }

-- In every state, the event 12 is handled where the machine is.
abbrev anywhere : StateTransition numbers
anywhere =
    let r : StateTransition numbers = row (0, 0) (0, 0) in
    record r {
      in_state = record (r.in_state) { wildcard = true };
      event = record (r.event) { ident = 12; source = 12 };
      out_state = record (r.out_state) { internal_transition = true };
      internal_transition = true;
    }

abbrev machine : List (StateTransition numbers) → StateMachine numbers
machine rows = record { temporary_context_type = none; transitions = rows; event_generics = [] }

abbrev three_rows : List (StateTransition numbers)
three_rows = first_row ∷ anywhere ∷ row (2, 102) (1, 101) ∷ []

abbrev built : ParsedStateMachine numbers
built = elim (new numbers (machine three_rows)) [
  | ok p ↦ p
  | err e ↦ record {
    states = [];
    starting_state = 0;
    state_data = record { data_types = []; all_lifetimes = []; lifetimes = [] };
    events = [];
    event_data = record { data_types = []; all_lifetimes = []; lifetimes = [] };
    states_events_mapping = [];
  }
]

built_lem : new numbers (machine three_rows) ≡ ok built
unfolding new
built_lem = refl

two_starts : new numbers (machine (first_row ∷ first_row ∷ [])) ≡ err many_starts
unfolding new
two_starts = refl

only_wildcard : new numbers (machine (first_row ∷ anywhere ∷ anywhere ∷ [])) ≡ err (no_effect 0)
unfolding new
only_wildcard = refl

built_starts : built.starting_state ≡ 1
unfolding new
built_starts = refl

abbrev key_12 : EventKey numbers
key_12 = record { kind = normal; name = some 12 }

new-StartsAt_example :
    StartsAt numbers numbers_equal (derive_out_states numbers three_rows) built.starting_state
new-StartsAt_example = new-StartsAt numbers numbers_equal (machine three_rows) built built_lem

new-found_example :
    (found numbers built.states_events_mapping 2 key_12
      ≡ expected numbers built.states (derive_out_states numbers three_rows) 2 key_12 none)
    × (has_state numbers built.states 2
        ≡ mentioned numbers (derive_out_states numbers three_rows) 2)
new-found_example = new-found numbers numbers_equal (machine three_rows) built 2 key_12 built_lem
