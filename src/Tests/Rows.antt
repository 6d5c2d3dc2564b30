-- ===== src/Tests/Rows.antt =====
-- Rows in the spelling of macros/src/parser/cpp.rs, on concrete tokens.
use sml_rs.Base.{
  ℕ, ◌≡◌, refl, Bool, true, false, Option, none, some, List, [], ◌∷◌, ◌++◌, ok, err, ◌↔◌, arith,
}
use sml_rs.Parser.Cpp.{TokenTrees, is_char, next_is, split_transitions, normalize_transition}
use sml_rs.Parser.Table.{exception}
use sml_rs.Parser.Names.{StateTransition}
use sml_rs.Parser.Cpp.ErrorType.{unrelated, fix_error_type, declared, Agree, fix_error_type_iff}
use sml_rs.Parser.Cpp.Split.{body}
use sml_rs.Parser.Cpp.Body.{
  inside_end, inside_token, Outside, outside_end, outside_token, outside_arrow, outside_angles,
  Rows, no_rows, row_then, split_transitions-body,
}
use sml_rs.Parser.Cpp.Normal.{Directed, Triggered, normalize_transition_lem}
use sml_rs.Tests.Validations.{numbers, row, numbers_equal}

-- A punctuation character, a word, or a group in brackets.
data Token : Type 0 where
  punct word : ℕ → Token
  brackets : Token

abbrev char_of : Token → Option ℕ
char_of (punct c) = some c
char_of (word w) = none
char_of brackets = none

abbrev in_brackets : Token → Bool
in_brackets (punct c) = false
in_brackets (word w) = false
in_brackets brackets = true

abbrev tokens_of : TokenTrees
tokens_of = record {
  TokenTree = Token;
  as_char = char_of;
  is_bracket_group = in_brackets;
  alone = punct;
  completion_trigger = punct b'+' ∷ word 0 ∷ punct b'<' ∷ word 1 ∷ punct b'>' ∷ [];
}

-- `target <= source [guard]`, and `source + event<A, B> = target`.
abbrev backward_row : List Token
backward_row = word 3 ∷ punct b'<' ∷ punct b'=' ∷ word 2 ∷ brackets ∷ []

abbrev event_row : List Token
event_row =
    word 2
    ∷ punct b'+'
    ∷ word 4
    ∷ punct b'<'
    ∷ word 5
    ∷ punct b','
    ∷ word 6
    ∷ punct b'>'
    ∷ punct b'='
    ∷ word 3
    ∷ []

-- The guard goes on to the source, in front of the `=` of the turned row.
turned_and_completed :
    normalize_transition tokens_of backward_row
    ≡ ok (
        word 2
        ∷ punct b'+'
        ∷ word 0
        ∷ punct b'<'
        ∷ word 1
        ∷ punct b'>'
        ∷ brackets
        ∷ punct b'='
        ∷ word 3
        ∷ [])
unfolding normalize_transition
turned_and_completed = refl

is_comma : is_char tokens_of b',' (punct b',') ≡ true
unfolding is_char
is_comma = refl

-- The commas of each row stand between angle brackets.
separated : Rows tokens_of (backward_row ∷ event_row ∷ [])
unfolding is_char next_is
separated =
    row_then (word 3) _ _
      (outside_token (word 3) _ refl refl (
        outside_arrow (punct b'<') (punct b'=') _ refl refl
          (outside_token (word 2) _ refl refl (outside_token brackets _ refl refl outside_end))))
      (omega arith)
      (row_then (word 2) _ _
        (outside_token (word 2) _ refl refl (
          outside_token (punct b'+') _ refl refl (
            outside_token (word 4) _ refl refl (
              outside_angles (punct b'<') (punct b'>') (word 5 ∷ punct b',' ∷ word 6 ∷ []) _ refl
                refl refl
                (inside_token (word 5) _ refl refl (
                  inside_token (punct b',') _ refl refl
                    (inside_token (word 6) _ refl refl inside_end)))
                (outside_token (punct b'=') _ refl refl
                  (outside_token (word 3) _ refl refl outside_end))))))
        (omega arith) no_rows)

is_last : Outside tokens_of (word 3 ∷ [])
unfolding is_char
is_last = outside_token (word 3) [] refl refl outside_end

split_transitions-body_example :
    split_transitions tokens_of
      (body tokens_of (punct b',') is_comma (backward_row ∷ event_row ∷ []) (word 3 ∷ []))
    ≡ (backward_row ∷ event_row ∷ []) ++ (word 3 ∷ []) ∷ []
split_transitions-body_example =
    split_transitions-body tokens_of (punct b',') is_comma (backward_row ∷ event_row ∷ [])
      (word 3 ∷ []) separated is_last (omega arith)

normalize_transition_lem_example :
    (mid out : List Token) × (normalize_transition tokens_of backward_row ≡ ok out)
    × Directed tokens_of backward_row mid
    × Triggered tokens_of mid out
normalize_transition_lem_example = normalize_transition_lem tokens_of backward_row (omega arith)

-- A row for an exception with the error type `t`.
abbrev failing : ℕ → StateTransition numbers
failing t =
    let r : StateTransition numbers = row (1, 101) (2, 102) in
    record r { event = record (r.event) { kind = exception; data_type = some t } }

two_types_refused :
    fix_error_type numbers false (failing 7 ∷ row (1, 101) (2, 102) ∷ failing 8 ∷ [])
    ≡ err (unrelated 11)
unfolding fix_error_type
two_types_refused = refl

fix_error_type_iff_example :
    (fix_error_type numbers false (failing 7 ∷ row (1, 101) (2, 102) ∷ failing 7 ∷ [])
      ≡ ok (true, some 7))
    ↔ (Agree numbers
          (declared numbers (failing 7 ∷ row (1, 101) (2, 102) ∷ failing 7 ∷ []))
          (some 7)
        × (true ≡ true))
fix_error_type_iff_example =
    fix_error_type_iff numbers numbers_equal false true
      (failing 7 ∷ row (1, 101) (2, 102) ∷ failing 7 ∷ []) (some 7)

-- The condition holds there.
one_type_agrees :
    Agree numbers (declared numbers (failing 7 ∷ row (1, 101) (2, 102) ∷ failing 7 ∷ [])) (some 7)
one_type_agrees = (refl, (refl, tt))
