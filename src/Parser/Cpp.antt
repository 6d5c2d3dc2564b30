-- ===== src/Parser/Cpp.antt =====
-- macros/src/parser/cpp.rs: the table in the spelling of sml.cpp. A body is split into its rows, each row is
-- brought into the form that the parser of rows reads, and typed exceptions fix the error type.
pub mod Split
pub mod Body
pub mod Normal
pub mod ErrorType
use sml_rs.Base.{
  ℕ, zero, suc, ◌-◌, Bool, true, false, not, ◌&&◌, ◌||◌, ◌==◌, if◌then◌else◌, Option, none, some,
  List, [], ◌∷◌, ◌++◌, ltb, saturating_add, saturating_sub, Result, ok, err, ◌>>=◌,
}
use sml_rs.Parser.Table.{Syntax, EventKind, exception, same_kind}
use sml_rs.Parser.Names.{StateTransition}

-- `proc_macro2::TokenTree`: the character of a punctuation token, whether a token is a group in
-- brackets, `Punct::new(…, Spacing::Alone)`, and the tokens of `quote! { + completion<_> }`.
pub record TokenTrees : Type 1 where
  pub TokenTree : Type 0
  pub as_char : TokenTree → Option ℕ
  pub is_bracket_group : TokenTree → Bool
  pub alone : ℕ → TokenTree
  pub completion_trigger : List TokenTree

-- The arm that takes a token: `<` that is no `<=`, `>` behind such a one, `,` outside of them.
pub data Arm : Type 0 where
  opens closes separates plain : Arm

-- The errors of ranges that do not lie in the tokens.
pub data RangeError : Type 0 where
  invalid_target invalid_source invalid_range invalid_suffix : RangeError

-- `tokens.get(n..)` and `tokens.get(..n)`.
unfoldable pub get_from : {A : Type 0} → RangeError → ℕ → List A → Result (List A) RangeError
get_from e zero l = ok l
get_from e (suc n) [] = err e
get_from e (suc n) (a ∷ l) = get_from e n l

unfoldable pub get_to : {A : Type 0} → RangeError → ℕ → List A → Result (List A) RangeError
get_to e zero l = ok []
get_to e (suc n) [] = err e
get_to e (suc n) (a ∷ l) = do taken ← get_to e n l; ok (a ∷ taken)

module _ (k : TokenTrees) where
  open k use {TokenTree, as_char, is_bracket_group, alone, completion_trigger}

  -- `matches!(token, TokenTree::Punct(punct) if punct.as_char() == c)`.
  unfoldable pub is_char : ℕ → TokenTree → Bool
  is_char c t = elim (as_char t) [ none ↦ false | some d ↦ d == c ]

  unfoldable pub next_is : ℕ → List TokenTree → Bool
  next_is c [] = false
  next_is c (t ∷ ts) = is_char c t

  unfoldable pub arm_of : TokenTree → List TokenTree → ℕ → Arm
  unfolding is_char next_is
  arm_of t ts angle_depth =
      if is_char b'<' t && not (next_is b'=' ts)
      then opens
      else if is_char b'>' t && ltb 0 angle_depth
      then closes
      else if is_char b',' t && (angle_depth == 0)
      then separates
      else plain

  -- `if !current.is_empty() { transitions.push(current) }`, in front of what is pushed later.
  abbrev pub push_row : List TokenTree → List (List TokenTree) → List (List TokenTree)
  push_row [] later = later
  push_row (t ∷ row) later = (t ∷ row) ∷ later

  unfoldable pub split_loop : List TokenTree → List TokenTree → ℕ → List (List TokenTree)
  unfolding arm_of
  split_loop [] current angle_depth = push_row current []
  split_loop (t ∷ ts) current angle_depth = elim (arm_of t ts angle_depth) [
    | opens ↦ split_loop ts (current ++ t ∷ []) (saturating_add angle_depth 1)
    | closes ↦ split_loop ts (current ++ t ∷ []) (saturating_sub angle_depth 1)
    | separates ↦ push_row current (split_loop ts [] angle_depth)
    | plain ↦ split_loop ts (current ++ t ∷ []) angle_depth
  ]

  unfoldable pub split_transitions : List TokenTree → List (List TokenTree)
  unfolding split_loop
  split_transitions body = split_loop body [] 0

  -- `tokens.windows(2).position(…)`: the first `<` in front of a `=`.
  unfoldable pub reverse_at : List TokenTree → Option ℕ
  unfolding is_char next_is
  reverse_at [] = none
  reverse_at (t ∷ ts) =
      if is_char b'<' t && next_is b'=' ts
      then some 0
      else elim (reverse_at ts) [ none ↦ none | some i ↦ some (suc i) ]

  unfoldable pub normalize_direction : List TokenTree → Result (List TokenTree) RangeError
  unfolding reverse_at get_from get_to
  normalize_direction tokens = elim (reverse_at tokens) [
    | none ↦ ok tokens
    | some index ↦ (do
      suffix ← get_from invalid_target (saturating_add index 2) tokens
      prefix ← get_to invalid_source index tokens
      ok (suffix ++ alone b'=' ∷ prefix))
  ]

  abbrev pub has_char : ℕ → List TokenTree → Bool
  has_char c [] = false
  has_char c (t ∷ ts) = is_char c t || has_char c ts

  -- Where the trigger ends: at an action, a target or a guard.
  unfoldable pub ends_trigger : TokenTree → Bool
  unfolding is_char
  ends_trigger t = (is_char b'/' t || is_char b'=' t) || is_bracket_group t

  unfoldable pub insertion_at : List TokenTree → Option ℕ
  unfolding ends_trigger
  insertion_at [] = none
  insertion_at (t ∷ ts) =
      if ends_trigger t
      then some 0
      else elim (insertion_at ts) [ none ↦ none | some i ↦ some (suc i) ]

  -- The second half of `normalize_transition`, from the place where the trigger goes on.
  unfoldable pub insert_at : Option ℕ → List TokenTree → Result (List TokenTree) RangeError
  unfolding get_to get_from
  insert_at none tokens = ok tokens
  insert_at (some insertion) tokens = do
    prefix ← get_to invalid_range insertion tokens
    suffix ← get_from invalid_suffix insertion tokens
    ok (prefix ++ completion_trigger ++ suffix)

  unfoldable pub insert_trigger : List TokenTree → Result (List TokenTree) RangeError
  unfolding insertion_at insert_at is_char
  insert_trigger tokens =
      if has_char b'+' tokens then ok tokens else insert_at (insertion_at tokens) tokens

  unfoldable pub normalize_transition : List TokenTree → Result (List TokenTree) RangeError
  unfolding normalize_direction insert_trigger
  normalize_transition transition = do
    tokens ← normalize_direction transition
    insert_trigger tokens
