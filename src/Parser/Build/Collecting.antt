-- ===== src/Parser/Build/Collecting.antt =====
-- The loop of `ParsedStateMachine::new` that collects states and events leaves every state without rows.
use sml_rs.Base.{
  Ensures, returns, Ensures-bind, Ensures-any, Bool, true, false, not, ◌&&◌, ◌||◌, if◌then◌else◌,
  ◌≡◌, refl, inl, inr, Bool-cases, Option, none, List, [], ◌∷◌, Result, ok,
}
use sml_rs.Parser.HashMap.{IsEquality, get, insert, get-insert}
use sml_rs.Parser.Table.{Syntax, EventKey, TransitionMap}
use sml_rs.Parser.Names.{StateTransition}
use sml_rs.Parser.Build.{BuildError, Collected, is_some}
use sml_rs.Parser.Build.Expected.{found}
use sml_rs.Parser.Lifetimes.{collect}
use sml_rs.Parser.Names.{Event}
use sml_rs.Parser.Build.{
  collect_state, collect_event, collect_row, collect_rows, lift_data, is_lifecycle_or_exception,
  is_completion,
}

module _ (x : Syntax) (c : IsEquality x.same_ident) where
  open x use {Ident, DataType, same_ident}

  -- A mapping with no rows yet.
  abbrev pub NoRows : TransitionMap x → Type 0
  NoRows m = (s : Ident) (k : EventKey x) → found x m s k ≡ none

  insert-NoRows : (m : TransitionMap x) (i : Ident) → NoRows m → NoRows (insert same_ident m i [])
  insert-NoRows m i n s k = rw (get-insert c) (elim (Bool-cases (same_ident i s)) [
    | inl e ↦ rw e (unfold get in refl)
    | inr e ↦ rw e (n s k)
  ])

  -- The collecting loop leaves the mapping without rows.
  abbrev pub Keeps : Result (Collected x) (BuildError x) → Type 0
  Keeps r = Ensures (λ b. NoRows b.states_events_mapping) (λ _. Unit {0}) r

  collect_state-Keeps :
      (i : Ident) (data_type : Option DataType) (a : Collected x)
      → NoRows a.states_events_mapping
      → Keeps (collect_state x i data_type a)
  unfolding collect_state
  collect_state-Keeps i data_type a n =
      Ensures-bind _ (Ensures-any (lift_data x (collect x a.state_data i data_type)))
        (λ d u. returns (insert-NoRows a.states_events_mapping i n))

  collect_event-Keeps :
      (event : Event x) (a : Collected x)
      → NoRows a.states_events_mapping
      → Keeps (collect_event x event a)
  unfolding collect_event
  collect_event-Keeps event a n =
      Ensures-bind _
        (Ensures-any (
          if not (is_completion x event.kind) || is_some x event.data_type
          then lift_data x (collect x a.event_data event.ident event.data_type)
          else ok a.event_data))
        (λ d u. returns n)

  if-Keeps :
      (b : Bool) (r : Result (Collected x) (BuildError x)) (a : Collected x)
      → Keeps r
      → NoRows a.states_events_mapping
      → Keeps (if b then r else ok a)
  if-Keeps true r a h n = h
  if-Keeps false r a h n = returns n

  collect_row-Keeps :
      (t : StateTransition x) (a : Collected x)
      → NoRows a.states_events_mapping
      → Keeps (collect_row x t a)
  unfolding collect_row
  collect_row-Keeps t a n =
      Ensures-bind _
        (if-Keeps (not t.in_state.wildcard) _ a
          (collect_state-Keeps t.in_state.ident t.in_state.data_type a n) n)
        (λ a1 n1.
          Ensures-bind _
            (if-Keeps (not t.out_state.internal_transition) _ a1
              (collect_state-Keeps t.out_state.ident t.out_state.data_type a1 n1) n1)
            (λ a2 n2.
              if-Keeps (not t.event.wildcard && not (is_lifecycle_or_exception x t.event.kind)) _ a2
                (collect_event-Keeps t.event a2 n2) n2))

  pub collect_rows-Keeps :
      (ts : List (StateTransition x)) (a : Collected x)
      → NoRows a.states_events_mapping
      → Keeps (collect_rows x ts a)
  unfolding collect_rows
  collect_rows-Keeps [] a n = returns n
  collect_rows-Keeps (t ∷ ts) a n =
      Ensures-bind _ (collect_row-Keeps t a n) (λ a1 n1. collect_rows-Keeps ts a1 n1)
