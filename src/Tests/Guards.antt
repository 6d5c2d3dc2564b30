-- ===== src/Tests/Guards.antt =====
-- The guard expression `!ready && async open || (idle || ready)` as tokens and as a tree.
use sml_rs.Base.{ℕ, ◌≡◌, ◌≢◌, ◌≤◌, refl, true, false, Result, ok, err, List, [], ◌∷◌, arith}
use sml_rs.Parser.Stream.{or_or, and_and, bang, async_word}
use sml_rs.Parser.Guard.{
  AsyncIdent, GuardExpression, guard, not_, group, and_, or_, Failure, out_of_fuel, parse_primary,
  parse_not, and_loop, parse_and, or_loop, parse_or, to_token_stream, visit_guards,
}
use sml_rs.Parser.Guard.Grammar.{
  IsDisjunction, callback, parens, negated, plain, both, one_negation, either, one_conjunction,
}
use sml_rs.Parser.Guard.Total.{parse_or_ends, parse_or_grammar}
use sml_rs.Parser.Guard.RoundTrip.{spell_ident, parse_or-to_token_stream}
use sml_rs.Parser.Guard.Visit.{visit_each, guards_from_right, visit_guards_lem}
use sml_rs.Tests.Tokens.{
  Tokens, nil, cons, mark, name, parens as parens_token, cursor, printer, size, Unexpected,
  unexpected_token,
}

abbrev sync : ℕ → AsyncIdent ℕ
sync i = record { ident = i; is_async = false }

abbrev waits : ℕ → AsyncIdent ℕ
waits i = record { ident = i; is_async = true }

-- Names: 1 is `ready`, 2 is `open`, 3 is `idle`.
abbrev sample : GuardExpression ℕ
sample =
    or_ (and_ (not_ (guard (sync 1))) (guard (waits 2)))
      (group (or_ (guard (sync 3)) (guard (sync 1))))

abbrev sample_tokens : Tokens
sample_tokens = cons (mark bang) (
    cons (name 1) (
      cons (mark and_and) (
        cons (mark async_word) (
          cons (name 2) (
            cons (mark or_or)
              (cons (parens_token (cons (name 3) (cons (mark or_or) (cons (name 1) nil)))) nil))))))

sample_parses : parse_or cursor 20 sample_tokens ≡ ok (sample, nil)
unfolding parse_or parse_and parse_not parse_primary and_loop or_loop
sample_parses = refl

sample_prints :
    to_token_stream cursor printer (spell_ident cursor printer) sample nil ≡ sample_tokens
unfolding to_token_stream
sample_prints = refl

sample_grammar : IsDisjunction sample
sample_grammar =
    either
      (one_conjunction
        (both (one_negation (negated (callback (sync 1)))) (plain (callback (waits 2)))))
      (one_negation (
        plain (
          parens (
            either (one_conjunction (one_negation (plain (callback (sync 3)))))
              (one_negation (plain (callback (sync 1))))))))

parse_or_ends_example : parse_or cursor 20 sample_tokens ≢ err out_of_fuel
parse_or_ends_example = parse_or_ends cursor 20 sample_tokens (omega arith)

parse_or_grammar_example : IsDisjunction sample × (size nil ≤ size sample_tokens)
parse_or_grammar_example =
    parse_or_grammar cursor 20 sample_tokens nil sample (omega arith) sample_parses

parse_or-to_token_stream_example :
    parse_or cursor 30 (to_token_stream cursor printer (spell_ident cursor printer) sample nil)
    ≡ ok (sample, nil)
parse_or-to_token_stream_example =
    parse_or-to_token_stream cursor printer 30 sample nil sample_grammar (omega arith) (refl, refl)

-- A second negation is refused: `!` takes a primary expression.
double_negation_refused :
    parse_or cursor 20 (cons (mark bang) (cons (mark bang) (cons (name 1) nil)))
    ≡ err (Failure.syntax unexpected_token)
unfolding parse_or parse_and parse_not parse_primary
double_negation_refused = refl

-- A closure that records the names it sees and refuses none.
abbrev recorder : AsyncIdent ℕ → List ℕ → Result (Unit {0}) Unexpected × List ℕ
recorder g seen = (ok tt, g.ident ∷ seen)

visit_guards_lem_example :
    visit_guards recorder sample [] ≡ visit_each recorder (guards_from_right sample) []
visit_guards_lem_example = visit_guards_lem recorder sample []

sample_visited : visit_guards recorder sample [] ≡ (ok tt, 1 ∷ 2 ∷ 3 ∷ 1 ∷ [])
unfolding visit_guards
sample_visited = refl
