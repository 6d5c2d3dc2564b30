-- ===== src/Orthogonal.antt =====
-- The regions of an orthogonal machine, from macros/src/orthogonal_codegen.rs: the analysis that comes
-- before its code is generated.
pub mod Adjacency
pub mod Discovered
pub mod Exploring
pub mod Regions
use sml_rs.Base.{
  ℕ, zero, suc, ◌+◌, Bool, true, false, not, ◌&&◌, ◌||◌, ◌==◌, if◌then◌else◌, length, Option, none,
  some, List, [], ◌∷◌, ◌++◌, Result, ok, err, ◌>>=◌,
}
use sml_rs.Parser.HashMap.{HashMap, get, insert, contains_key}
use sml_rs.Parser.Table.{Syntax, completion}
use sml_rs.Parser.Names.{StateTransition}

module _ (x : Syntax) where
  open x use {Ident, same_ident, terminal}

  -- `out_of_fuel` is the model's own.
  pub data RegionError : Type 0 where
    completion_stays overlap unconnected : Ident → RegionError
    out_of_fuel : RegionError

  pub record Region : Type 0 where
    pub initial : Ident
    pub states : List Ident

  -- `validate_supported`.
  unfoldable pub validate_supported : List (StateTransition x) → Result (Unit {0}) RegionError
  validate_supported [] = ok tt
  validate_supported (t ∷ ts) =
      let rest = validate_supported ts in
      elim t.event.kind [
        | completion ↦
            if t.internal_transition then err (completion_stays t.in_state.ident) else rest
        | _ ↦ rest
      ]

  -- `adjacency.entry(state).or_default()`.
  unfoldable pub or_default : HashMap Ident (List Ident) → Ident → HashMap Ident (List Ident)
  unfolding get insert
  or_default adjacency state = elim (get same_ident adjacency state) [
    | none ↦ insert same_ident adjacency state []
    | some _ ↦ adjacency
  ]

  -- The states next to a state, none for one that has no entry.
  abbrev pub neighbours : HashMap Ident (List Ident) → Ident → List Ident
  neighbours adjacency state = elim (get same_ident adjacency state) [
    | none ↦ []
    | some states ↦ states
  ]

  -- `adjacency.entry(from).or_default().push(to)`.
  unfoldable pub push : HashMap Ident (List Ident) → Ident → Ident → HashMap Ident (List Ident)
  unfolding get insert
  push adjacency from_ to =
      insert same_ident adjacency from_ (neighbours adjacency from_ ++ to ∷ [])

  -- The body of the loop over the rows.
  unfoldable pub connect :
      StateTransition x → HashMap Ident (List Ident) → HashMap Ident (List Ident)
  unfolding or_default push
  connect t adjacency =
      if t.in_state.wildcard
      then adjacency
      else if not t.internal_transition && not (same_ident t.out_state.ident terminal)
      then push (push (or_default adjacency t.in_state.ident) t.in_state.ident t.out_state.ident)
          t.out_state.ident t.in_state.ident
      else or_default adjacency t.in_state.ident

  unfoldable pub connect_all :
      List (StateTransition x) → HashMap Ident (List Ident) → HashMap Ident (List Ident)
  unfolding connect
  connect_all [] adjacency = adjacency
  connect_all (t ∷ ts) adjacency = connect_all ts (connect t adjacency)

  -- `initials`.
  unfoldable pub initials : List (StateTransition x) → List Ident
  initials [] = []
  initials (t ∷ ts) =
      let rest = initials ts in if t.in_state.start then t.in_state.ident ∷ rest else rest

  -- A set of states.
  abbrev pub has : List Ident → Ident → Bool
  has [] state = false
  has (s ∷ ss) state = same_ident s state || has ss state

  abbrev pub set_insert : List Ident → Ident → List Ident
  set_insert states state = if has states state then states else state ∷ states

  -- `while let Some(state) = queue.pop_front()`, with `claimed` and the states of the region.
  unfoldable pub explore :
      ℕ
      → HashMap Ident (List Ident)
      → ℕ
      → List Ident
      → HashMap Ident ℕ
      → List Ident
      → Result (HashMap Ident ℕ × List Ident) RegionError
  unfolding get insert
  explore zero adjacency index queue claimed states = err out_of_fuel
  explore (suc fuel) adjacency index [] claimed states = ok (claimed, states)
  explore (suc fuel) adjacency index (state ∷ queue) claimed states =
      elim (get same_ident claimed state) [
        | some owner ↦ elim (owner == index) [
          | false ↦ err (overlap state)
          | true ↦ explore fuel adjacency index queue claimed states
        ]
        | none ↦
            explore fuel adjacency index (queue ++ neighbours adjacency state)
              (insert same_ident claimed state index) (set_insert states state)
      ]

  -- The loop over the initial states.
  unfoldable pub claim_regions :
      ℕ
      → HashMap Ident (List Ident)
      → List Ident
      → ℕ
      → HashMap Ident ℕ
      → Result (HashMap Ident ℕ × List Region) RegionError
  unfolding explore
  claim_regions fuel adjacency [] index claimed = ok (claimed, [])
  claim_regions fuel adjacency (initial ∷ more) index claimed = do
    (claimed', states) ← explore fuel adjacency index (initial ∷ []) claimed []
    (last, regions) ← claim_regions fuel adjacency more (suc index) claimed'
    ok (last, record { initial = initial; states = states } ∷ regions)

  -- Every state with an entry is claimed.
  unfoldable pub check_claimed :
      HashMap Ident (List Ident) → HashMap Ident ℕ → Result (Unit {0}) RegionError
  unfolding contains_key
  check_claimed [] claimed = ok tt
  check_claimed ((state, states) ∷ entries) claimed =
      let rest = check_claimed entries claimed in
      if contains_key same_ident claimed state then rest else err (unconnected state)

  abbrev pub edges : HashMap Ident (List Ident) → ℕ
  edges [] = 0
  edges ((state, states) ∷ entries) = length states + edges entries

  -- `discover_regions`. A region is explored in at most one round for its initial state, one for
  -- each neighbour of a state, and one to see that the queue is empty.
  unfoldable pub discover_regions : List (StateTransition x) → Result (List Region) RegionError
  unfolding connect_all initials claim_regions check_claimed
  discover_regions ts = do
    let adjacency : HashMap Ident (List Ident) = connect_all ts []
    (claimed, regions) ← claim_regions (suc (suc (edges adjacency))) adjacency (initials ts) 0 []
    _ ← check_claimed adjacency claimed
    ok regions
