-- ===== src/Parser/Lifetimes.antt =====
-- `Lifetimes` of macros/src/parser/lifetimes.rs, a list without repetitions, and `DataDefinitions` of
-- macros/src/parser/data.rs, which collects the types of states and of events.
use sml_rs.Base.{
  Bool, false, ◌||◌, if◌then◌else◌, Option, none, some, List, [], ◌∷◌, ◌++◌, Result, ok, err, ◌>>=◌,
}
use sml_rs.Parser.HashMap.{get, insert}
use sml_rs.Parser.Table.{Syntax, DataDefinitions}

module _ (x : Syntax) where
  open x use {
    Ident, DataType, Lifetime, TypeError, same_ident, same_type, same_lifetime, is_static,
    lifetimes_in,
  }

  unfoldable pub has_lifetime : List Lifetime → Lifetime → Bool
  has_lifetime [] lifetime = false
  has_lifetime (l ∷ ls) lifetime = same_lifetime l lifetime || has_lifetime ls lifetime

  -- `Lifetimes::insert`.
  unfoldable pub insert_lifetime : List Lifetime → Lifetime → List Lifetime
  unfolding has_lifetime
  insert_lifetime lifetimes lifetime =
      if is_static lifetime
      then lifetimes
      else if has_lifetime lifetimes lifetime
      then lifetimes
      else lifetimes ++ lifetime ∷ []

  -- `Lifetimes::extend`.
  unfoldable pub extend : List Lifetime → List Lifetime → List Lifetime
  unfolding insert_lifetime
  extend lifetimes [] = lifetimes
  extend lifetimes (l ∷ other) = extend (insert_lifetime lifetimes l) other

  -- `Lifetimes::without`.
  unfoldable pub without : List Lifetime → List Lifetime → List Lifetime
  unfolding has_lifetime
  without [] other = []
  without (l ∷ lifetimes) other =
      let rest = without lifetimes other in if has_lifetime other l then rest else l ∷ rest

  -- `Lifetimes::from_type`: each lifetime that the walk meets is inserted.
  unfoldable pub from_type : DataType → Result (List Lifetime) TypeError
  unfolding extend
  from_type data_type = do met ← lifetimes_in data_type; ok (extend [] met)

  -- The errors of `DataDefinitions`.
  pub data DataError : Type 0 where
    mismatch : Ident → DataError
    bad_type : TypeError → DataError

  abbrev pub no_data : DataDefinitions x
  no_data = record { data_types = []; all_lifetimes = []; lifetimes = [] }

  abbrev pub lift_type : {A : Type 0} → Result A TypeError → Result A DataError
  lift_type (ok a) = ok a
  lift_type (err e) = err (bad_type e)

  -- `DataDefinitions::add`.
  unfoldable pub add : DataDefinitions x → Ident → DataType → Result (DataDefinitions x) DataError
  unfolding from_type insert extend
  add definitions key data_type = do
    lifetimes ← lift_type (from_type data_type)
    let added : DataDefinitions x = record definitions {
      data_types = insert same_ident definitions.data_types key data_type;
    }
    ok (elim lifetimes [
      | [] ↦ added
      | l ∷ ls ↦ record added {
        all_lifetimes = extend definitions.all_lifetimes (l ∷ ls);
        lifetimes = insert same_ident definitions.lifetimes key (l ∷ ls);
      }
    ])

  -- `if let Some(data_type) = data_type { self.add(...)?; }`.
  unfoldable pub add_some :
      DataDefinitions x → Ident → Option DataType → Result (DataDefinitions x) DataError
  unfolding add
  add_some definitions key none = ok definitions
  add_some definitions key (some data_type) = add definitions key data_type

  -- `DataDefinitions::collect`.
  unfoldable pub collect :
      DataDefinitions x → Ident → Option DataType → Result (DataDefinitions x) DataError
  unfolding get add_some
  collect definitions key data_type = elim (get same_ident definitions.data_types key) [
    | none ↦ add_some definitions key data_type
    | some prev ↦ elim data_type [
      | none ↦ err (mismatch key)
      | some t ↦ if same_type prev t then add_some definitions key (some t) else err (mismatch key)
    ]
  ]
