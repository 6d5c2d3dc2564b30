-- ===== src/Parser/Guard.antt =====
-- `AsyncIdent` of macros/src/parser/mod.rs and `GuardExpression` of macros/src/parser/transition.rs:
-- the guard grammar, its parser by recursive descent, its printer and its visitor.
pub mod Grammar
pub mod RoundTrip
pub mod Total
pub mod Visit
use sml_rs.Base.{
  ℕ, zero, suc, ◌+◌, Bool, true, false, if◌then◌else◌, Result, ok, err, ◌>>=◌, List, [], ◌∷◌,
}
use sml_rs.Parser.Stream.{Mark, or_or, and_and, bang, async_word, ParseStream, Quote}

pub record AsyncIdent (I : Type 0) : Type 0 where
  pub ident : I
  pub is_async : Bool

pub data GuardExpression (I : Type 0) : Type 0 where
  guard : AsyncIdent I → GuardExpression I
  not_ group : GuardExpression I → GuardExpression I
  and_ or_ : GuardExpression I → GuardExpression I → GuardExpression I

-- A parse fails with an error of `syn`; `out_of_fuel` is the model's own.
pub data Failure (E : Type 0) : Type 0 where
  syntax : E → Failure E
  out_of_fuel : Failure E

abbrev pub lift : {A E : Type 0} → Result A E → Result A (Failure E)
lift (ok a) = ok a
lift (err e) = err (syntax e)

module _ (p : ParseStream) where
  open p use {Stream, Ident, Error, peek, peek_paren, parse_mark, parse_ident, parenthesized}

  -- An expression and what is left of the input.
  abbrev pub Parsed : Type 0
  Parsed = Result (GuardExpression Ident × Stream) (Failure Error)

  -- `parse_primary`; `parse_inner` is the call of `parse_or` on a group's content. Tokens that the
  -- content has left over are for `syn` to report.
  unfoldable pub parse_primary : (Stream → Parsed) → Stream → Parsed
  parse_primary parse_inner input =
      if peek_paren input
      then (do
        (content, rest) ← lift (parenthesized input)
        (expr, _) ← parse_inner content
        ok (group expr, rest))
      else if peek async_word input
      then (do
        after ← lift (parse_mark async_word input)
        (ident, rest) ← lift (parse_ident after)
        ok (guard (record { ident = ident; is_async = true }), rest))
      else (do
        (ident, rest) ← lift (parse_ident input)
        ok (guard (record { ident = ident; is_async = false }), rest))

  unfoldable pub parse_not : (Stream → Parsed) → Stream → Parsed
  parse_not parse_inner input =
      if peek bang input
      then (do
        after ← lift (parse_mark bang input)
        (expr, rest) ← parse_primary parse_inner after
        ok (not_ expr, rest))
      else parse_primary parse_inner input

  -- `while input.peek(Token![&&])`, with `left` parsed so far.
  unfoldable pub and_loop : (Stream → Parsed) → ℕ → GuardExpression Ident → Stream → Parsed
  and_loop parse_inner zero left input = err out_of_fuel
  and_loop parse_inner (suc fuel) left input = elim (peek and_and input) [
    | false ↦ ok (left, input)
    | true ↦ (do
      after ← lift (parse_mark and_and input)
      (right, rest) ← parse_not parse_inner after
      and_loop parse_inner fuel (and_ left right) rest)
  ]

  unfoldable pub parse_and : (Stream → Parsed) → ℕ → Stream → Parsed
  parse_and parse_inner fuel input = do
    (left, rest) ← parse_not parse_inner input
    and_loop parse_inner fuel left rest

  -- `while input.peek(Token![||])`.
  unfoldable pub or_loop : (Stream → Parsed) → ℕ → GuardExpression Ident → Stream → Parsed
  or_loop parse_inner zero left input = err out_of_fuel
  or_loop parse_inner (suc fuel) left input = elim (peek or_or input) [
    | false ↦ ok (left, input)
    | true ↦ (do
      after ← lift (parse_mark or_or input)
      (right, rest) ← parse_and parse_inner fuel after
      or_loop parse_inner fuel (or_ left right) rest)
  ]

  -- `parse_or`. The fuel bounds the nesting of groups and the rounds of each loop.
  unfoldable pub parse_or : ℕ → Stream → Parsed
  parse_or zero input = err out_of_fuel
  parse_or (suc fuel) input = do
    (left, rest) ← parse_and (parse_or fuel) fuel input
    or_loop (parse_or fuel) fuel left rest

  -- `to_token_stream`: the tokens of an expression, put in front of a stream.
  module _ (q : Quote p) (visit : AsyncIdent Ident → Stream → Stream) where
    open q use {nothing, put, put_paren}

    unfoldable pub to_token_stream : GuardExpression Ident → Stream → Stream
    to_token_stream (guard ident) rest = visit ident rest
    to_token_stream (not_ expr) rest = put bang (to_token_stream expr rest)
    to_token_stream (group expr) rest = put_paren (to_token_stream expr nothing) rest
    to_token_stream (and_ left right) rest =
        to_token_stream left (put and_and (to_token_stream right rest))
    to_token_stream (or_ left right) rest =
        to_token_stream left (put or_or (to_token_stream right rest))

-- `visit_guards`: a stack of expressions; the closure's captured state is `S`.
module _ {I S E : Type 0} (visit_guard : AsyncIdent I → S → Result (Unit {0}) E × S) where
  abbrev pub Visited : Type 0
  Visited = Result (Unit {0}) (Failure E) × S

  unfoldable pub visit_loop : ℕ → List (GuardExpression I) → S → Visited
  visit_loop zero stack s = (err out_of_fuel, s)
  visit_loop (suc fuel) [] s = (ok tt, s)
  visit_loop (suc fuel) (guard g ∷ stack) s =
      let (r, s') = visit_guard g s in
      elim r [ ok _ ↦ visit_loop fuel stack s' | err e ↦ (err (syntax e), s') ]
  visit_loop (suc fuel) (not_ inner ∷ stack) s = visit_loop fuel (inner ∷ stack) s
  visit_loop (suc fuel) (group inner ∷ stack) s = visit_loop fuel (inner ∷ stack) s
  visit_loop (suc fuel) (and_ left right ∷ stack) s = visit_loop fuel (right ∷ left ∷ stack) s
  visit_loop (suc fuel) (or_ left right ∷ stack) s = visit_loop fuel (right ∷ left ∷ stack) s

-- The nodes of an expression: one round of the loop for each.
abbrev pub nodes : {I : Type 0} → GuardExpression I → ℕ
nodes (guard g) = 1
nodes (not_ e) = suc (nodes e)
nodes (group e) = suc (nodes e)
nodes (and_ l r) = suc (nodes l + nodes r)
nodes (or_ l r) = suc (nodes l + nodes r)

unfoldable pub visit_guards :
    {I S E : Type 0}
    → (AsyncIdent I → S → Result (Unit {0}) E × S)
    → GuardExpression I
    → S
    → Result (Unit {0}) (Failure E) × S
unfolding visit_loop
visit_guards visit_guard expr s = visit_loop visit_guard (suc (nodes expr)) (expr ∷ []) s
