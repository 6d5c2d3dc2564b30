-- ===== src/Parser/Names.antt =====
-- `validate_machine_names` of macros/src/parser/mod.rs, over the transitions that it reads:
-- `StateTransition` of macros/src/parser/transition.rs with its states and its event.
pub mod Distinct
use sml_rs.Base.{
  ℕ, Bool, true, false, not, ◌&&◌, if◌then◌else◌, Option, none, some, List, [], ◌∷◌, Result, ok,
  err, ◌>>=◌,
}
use sml_rs.Parser.Guard.{AsyncIdent, GuardExpression}
use sml_rs.Parser.Table.{
  Syntax, EventKind, normal, unexpected, completion, entry, exit, exception, EvalAction,
}
use sml_rs.Parser.HashMap.{HashMap, get}

module _ (x : Syntax) where
  open x use {Ident, Expr, DataType, Text, same_ident, same_text}

  pub record InputState : Type 0 where
    pub start : Bool
    pub wildcard : Bool
    pub ident : Ident
    pub source : Text
    pub data_type : Option DataType
    pub composite : Option Ident
    pub history : Bool

  pub record OutputState : Type 0 where
    pub ident : Ident
    pub source : Text
    pub internal_transition : Bool
    pub data_type : Option DataType
    pub composite : Option Ident

  pub record Event : Type 0 where
    pub ident : Ident
    pub source : Text
    pub data_type : Option DataType
    pub kind : EventKind
    pub wildcard : Bool
    pub external : Bool

  pub record StateTransition : Type 0 where
    pub in_state : InputState
    pub event : Event
    pub guard : Option (GuardExpression Ident)
    pub action : Option (AsyncIdent Ident)
    pub additional_actions : List (AsyncIdent Ident)
    pub process_events : List Expr
    pub defer : Bool
    pub eval_actions : List (EvalAction x)
    pub out_state : OutputState
    pub internal_transition : Bool

  -- The two names that collide, and how each was written.
  pub data Collision : Type 0 where
    collides : Ident → Text → Text → Collision

  -- A map from names to how they were written first.
  unfoldable pub record_name :
      HashMap Ident Text → Ident → Text → Result (HashMap Ident Text) Collision
  unfolding get
  record_name names ident source = elim (get same_ident names ident) [
    | some previous ↦
        if same_text previous source then ok names else err (collides ident source previous)
    | none ↦ ok ((ident, source) ∷ names)
  ]

  abbrev pub is_normal : EventKind → Bool
  is_normal normal = true
  is_normal unexpected = false
  is_normal completion = false
  is_normal entry = false
  is_normal exit = false
  is_normal exception = false

  -- `if condition { record_name(...)?; }`.
  unfoldable pub record_if :
      Bool → HashMap Ident Text → Ident → Text → Result (HashMap Ident Text) Collision
  unfolding record_name
  record_if true names ident source = record_name names ident source
  record_if false names ident source = ok names

  -- The loop's body, on the states and the events.
  unfoldable pub record_transition :
      StateTransition
      → HashMap Ident Text × HashMap Ident Text
      → Result (HashMap Ident Text × HashMap Ident Text) Collision
  unfolding record_if
  record_transition t (states, events) = do
    states_in ← record_if (not t.in_state.wildcard) states t.in_state.ident t.in_state.source
    states_out ←
        record_if (not t.out_state.internal_transition) states_in t.out_state.ident
          t.out_state.source
    events' ←
        record_if (not t.event.wildcard && is_normal t.event.kind) events t.event.ident
          t.event.source
    ok (states_out, events')

  unfoldable pub record_transitions :
      List StateTransition
      → HashMap Ident Text × HashMap Ident Text
      → Result (HashMap Ident Text × HashMap Ident Text) Collision
  unfolding record_transition
  record_transitions [] names = ok names
  record_transitions (t ∷ ts) names = do
    names' ← record_transition t names
    record_transitions ts names'

  unfoldable pub validate_machine_names : List StateTransition → Result (Unit {0}) Collision
  unfolding record_transitions
  validate_machine_names ts = do _ ← record_transitions ts ([], []); ok tt
