-- ===== src/Parser/Table.antt =====
-- The parsed transition table: `Transition`, `EventMapping` and `EventKind` of
-- macros/src/parser/event.rs, `EvalAction` of macros/src/parser/transition.rs and `ParsedStateMachine`
-- of macros/src/parser/mod.rs.
use sml_rs.Base.{ℕ, Bool, Option, none, some, List, true, false, ◌&&◌, Result}
use sml_rs.Parser.HashMap.{HashMap}
use sml_rs.Parser.Guard.{AsyncIdent, GuardExpression}

-- What the table takes from the crate syn: identifiers, which the code compares and looks up by
-- their text, expressions, and types with their `==`.
pub record Syntax : Type 1 where
  pub Ident : Type 0
  pub Expr : Type 0
  pub DataType : Type 0
  pub Text : Type 0
  pub same_ident : Ident → Ident → Bool
  pub same_type : DataType → DataType → Bool
  pub same_text : Text → Text → Bool
  -- A lifetime, and whether it is `'static`.
  pub Lifetime : Type 0
  pub same_lifetime : Lifetime → Lifetime → Bool
  pub is_static : Lifetime → Bool
  -- A generic parameter, whether it is a type or a constant, and whether a type uses it: what
  -- `ParsedStateMachine::type_uses_generic_param` finds when it walks through the type.
  pub GenericParam : Type 0
  pub is_type_or_const : GenericParam → Bool
  pub uses_generic_param : DataType → GenericParam → Bool
  pub is_mutable_reference : DataType → Bool
  -- The lifetimes that `Lifetimes::insert_from_type` meets in a type, in order, or its error.
  pub TypeError : Type 0
  pub lifetimes_in : DataType → Result (List Lifetime) TypeError
  -- The text `identifier:` and a name.
  pub identifier_source : Ident → Text
  -- The identifier `X` of the terminal state.
  pub terminal : Ident

pub data EventKind : Type 0 where
  normal unexpected completion entry exit exception : EventKind

abbrev pub same_kind : EventKind → EventKind → Bool
same_kind normal normal = true
same_kind unexpected unexpected = true
same_kind completion completion = true
same_kind entry entry = true
same_kind exit exit = true
same_kind exception exception = true
same_kind _ _ = false

module _ (x : Syntax) where
  open x use {Ident, Expr, DataType, Lifetime, same_ident}

  pub record EvalAction : Type 0 where
    pub position : ℕ
    pub guard : GuardExpression Ident
    pub action : AsyncIdent Ident

  pub record Transition : Type 0 where
    pub guard : Option (GuardExpression Ident)
    pub action : Option (AsyncIdent Ident)
    pub additional_actions : List (AsyncIdent Ident)
    pub process_events : List Expr
    pub defer : Bool
    pub eval_actions : List EvalAction
    pub default_output : Bool
    pub out_state : Ident
    pub internal_transition : Bool

  pub record EventMapping : Type 0 where
    pub in_state : Ident
    pub event : Ident
    pub event_kind : EventKind
    pub event_wildcard : Bool
    pub event_external : Bool
    pub transitions : List Transition

  -- The key of a row among the rows of a state, a text: what stands before `::`, and the name after
  -- it, if that is not `*`. Events have their name alone; entry and exit have no name.
  pub record EventKey : Type 0 where
    pub kind : EventKind
    pub name : Option Ident

  abbrev pub same_name : Option Ident → Option Ident → Bool
  same_name none none = true
  same_name none (some b) = false
  same_name (some a) none = false
  same_name (some a) (some b) = same_ident a b

  unfoldable pub same_key : EventKey → EventKey → Bool
  same_key a b = same_kind a.kind b.kind && same_name a.name b.name

  abbrev pub DataTypes : Type 0
  DataTypes = HashMap Ident DataType

  pub record DataDefinitions : Type 0 where
    pub data_types : DataTypes
    pub all_lifetimes : List Lifetime
    pub lifetimes : HashMap Ident (List Lifetime)

  abbrev pub TransitionMap : Type 0
  TransitionMap = HashMap Ident (HashMap EventKey EventMapping)

  -- `ParsedStateMachine`, less what is copied from the input.
  pub record ParsedStateMachine : Type 0 where
    pub states : HashMap Ident Ident
    pub starting_state : Ident
    pub state_data : DataDefinitions
    pub events : HashMap Ident Ident
    pub event_data : DataDefinitions
    pub states_events_mapping : TransitionMap
