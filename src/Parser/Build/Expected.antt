-- ===== src/Parser/Build/Expected.antt =====
-- What a table is meant to hold: for each state and each event, the rows that apply, in the order
-- of the source.
use sml_rs.Base.{Bool, false, ◌&&◌, ◌||◌, if◌then◌else◌, Option, none, some, List, [], ◌∷◌, ◌++◌}
use sml_rs.Parser.HashMap.{HashMap, get, map_option}
use sml_rs.Parser.Table.{Syntax, Transition, EventMapping, EventKey, same_key, TransitionMap}
use sml_rs.Parser.Names.{StateTransition}
use sml_rs.Parser.Build.{event_key, to_transition}

module _ (x : Syntax) where
  open x use {Ident, same_ident}

  -- The transitions that a table has for an event among the events of one state.
  abbrev pub at : HashMap (EventKey x) (EventMapping x) → EventKey x → Option (List (Transition x))
  at p k = map_option (λ mapping. mapping.transitions) (get (same_key x) p k)

  abbrev pub at_state :
      Option (HashMap (EventKey x) (EventMapping x)) → EventKey x → Option (List (Transition x))
  at_state none k = none
  at_state (some p) k = at p k

  abbrev pub found : TransitionMap x → Ident → EventKey x → Option (List (Transition x))
  found m s k = at_state (get same_ident m s) k

  -- A named row comes after the rows there are.
  abbrev pub append_row : Option (List (Transition x)) → Transition x → List (Transition x)
  append_row none row = row ∷ []
  append_row (some rows) row = rows ++ row ∷ []

  -- A wildcard row only serves where there is no row.
  abbrev pub or_row : Option (List (Transition x)) → Transition x → List (Transition x)
  or_row none row = row ∷ []
  or_row (some rows) row = rows

  abbrev pub has_state : HashMap Ident Ident → Ident → Bool
  has_state [] s = false
  has_state ((name, state) ∷ states) s = same_ident state s || has_state states s

  -- A wildcard row for the state `s`: an internal one stays there.
  abbrev pub for_state : StateTransition x → Ident → Transition x
  for_state t s = record (to_transition x t) {
    out_state = if t.out_state.internal_transition then s else t.out_state.ident;
  }

  abbrev pub expected_step :
      HashMap Ident Ident
      → StateTransition x
      → Ident
      → EventKey x
      → Option (List (Transition x))
      → Option (List (Transition x))
  expected_step states t s k rows =
      if t.in_state.wildcard
      then (if has_state states s && same_key x (event_key x t.event) k
          then some (or_row rows (for_state t s))
          else rows)
      else if same_ident t.in_state.ident s && same_key x (event_key x t.event) k
      then some (append_row rows (to_transition x t))
      else rows

  abbrev pub expected :
      HashMap Ident Ident
      → List (StateTransition x)
      → Ident
      → EventKey x
      → Option (List (Transition x))
      → Option (List (Transition x))
  expected states [] s k rows = rows
  expected states (t ∷ ts) s k rows = expected states ts s k (expected_step states t s k rows)
