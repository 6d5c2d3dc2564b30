-- ===== src/Parser/Guard/RoundTrip.antt =====
-- Every expression of the guard grammar, printed as tokens, parses back to itself.
use sml_rs.Base.{
  ℕ, zero, suc, ◌+◌, ◌-◌, ◌≤◌, ◌<◌, ◌≡◌, refl, ◌∙◌, Bool, true, false, if◌then◌else◌, ok, ◌>>=◌,
  arith,
}
use sml_rs.Parser.Stream.{or_or, and_and, bang, async_word, ParseStream, Quote}
use sml_rs.Parser.Guard.{
  AsyncIdent, GuardExpression, guard, not_, group, and_, or_, nodes, lift, Parsed, parse_primary,
  parse_not, and_loop, parse_and, or_loop, parse_or, to_token_stream,
}
use sml_rs.Parser.Guard.Grammar.{
  IsPrimary, callback, parens, IsNegation, negated, plain, IsConjunction, both, one_negation,
  IsDisjunction, either, one_conjunction,
}

-- How many `&&`, or `||`, stand at the top of an expression.
abbrev ands : {I : Type 0} → GuardExpression I → ℕ
ands (and_ l r) = suc (ands l)
ands (guard g) = 0
ands (not_ e) = 0
ands (group e) = 0
ands (or_ l r) = 0

abbrev ors : {I : Type 0} → GuardExpression I → ℕ
ors (or_ l r) = suc (ors l)
ors (guard g) = 0
ors (not_ e) = 0
ors (group e) = 0
ors (and_ l r) = 0

ands-negation : {I : Type 0} {e : GuardExpression I} → IsNegation e → ands e ≡ 0
ands-negation (negated k) = refl
ands-negation (plain (callback g)) = refl
ands-negation (plain (parens d)) = refl

nodes-pos : {I : Type 0} (e : GuardExpression I) → 0 < nodes e
nodes-pos (guard g) = omega arith
nodes-pos (not_ e) = omega arith
nodes-pos (group e) = omega arith
nodes-pos (and_ l r) = omega arith
nodes-pos (or_ l r) = omega arith

ands-lt-nodes : {I : Type 0} {e : GuardExpression I} → IsConjunction e → ands e < nodes e
ands-lt-nodes (one_negation {e} b) = omega (arith, ands-negation b, nodes-pos e)
ands-lt-nodes (both a b) = omega (arith, ands-lt-nodes a)

ors-conjunction : {I : Type 0} {e : GuardExpression I} → IsConjunction e → ors e ≡ 0
ors-conjunction (one_negation (negated k)) = refl
ors-conjunction (one_negation (plain (callback g))) = refl
ors-conjunction (one_negation (plain (parens d))) = refl
ors-conjunction (both a b) = refl

ors-lt-nodes : {I : Type 0} {e : GuardExpression I} → IsDisjunction e → ors e < nodes e
ors-lt-nodes (one_conjunction {e} b) = omega (arith, ors-conjunction b, nodes-pos e)
ors-lt-nodes (either a b) = omega (arith, ors-lt-nodes a)

module _ (p : ParseStream) (q : Quote p) where
  open p use {Stream, Ident, peek, parse_mark, parse_ident, parenthesized}
  open q use {nothing, put, put_ident, put_paren}

  -- A guard as the table writes it: `async name` or `name`.
  abbrev pub spell_ident : AsyncIdent Ident → Stream → Stream
  spell_ident g rest =
      if g.is_async then put async_word (put_ident g.ident rest) else put_ident g.ident rest

  abbrev pub spell : GuardExpression Ident → Stream → Stream
  spell = to_token_stream p q spell_ident

  -- No operator continues the expression.
  abbrev pub Stops : Stream → Type 0
  Stops s = (peek or_or s ≡ false) × (peek and_and s ≡ false)

  -- The calls on the content of groups of fewer than `n` nodes.
  abbrev Inner : ℕ → (Stream → Parsed p) → Type 0
  Inner n parse_inner =
      (e : GuardExpression Ident)
      → IsDisjunction e
      → nodes e + nodes e < n
      → parse_inner (spell e nothing) ≡ ok (e, nothing)

  peek_bang-spell :
      {e : GuardExpression Ident} (s : Stream) → IsPrimary e → peek bang (spell e s) ≡ false
  unfolding to_token_stream
  peek_bang-spell s (callback g) = ident_case g.ident g.is_async
    where
      ident_case :
          (i : Ident) (a : Bool)
          → peek bang (spell_ident (record { ident = i; is_async = a }) s) ≡ false
      ident_case i true = q.peek-put bang async_word (put_ident i s)
      ident_case i false = q.peek-put_ident bang i s
  peek_bang-spell s (parens d) = q.peek-put_paren bang _ s

  module _ (n : ℕ) (parse_inner : Stream → Parsed p) (inner : Inner n parse_inner) where
    parse_primary-spell :
        {e : GuardExpression Ident} (s : Stream)
        → IsPrimary e
        → nodes e + nodes e ≤ n
        → parse_primary p parse_inner (spell e s) ≡ ok (e, s)
    unfolding parse_primary to_token_stream
    parse_primary-spell s (callback g) h = ident_case g.ident g.is_async
      where
        ident_case :
            (i : Ident) (a : Bool)
            → parse_primary p parse_inner (spell_ident (record { ident = i; is_async = a }) s)
              ≡ ok (guard (record { ident = i; is_async = a }), s)
        ident_case i true = rw (q.peek_paren-put, q.peek-put, q.parse_mark-put, q.parse_ident-put)
        ident_case i false = rw (q.peek_paren-put_ident, q.peek-put_ident, q.parse_ident-put)
    parse_primary-spell s (parens {e} d) h =
        rw (q.peek_paren-put_paren, q.parenthesized-put, inner e d (omega arith))

    parse_not-spell :
        {e : GuardExpression Ident} (s : Stream)
        → IsNegation e
        → nodes e + nodes e ≤ n
        → parse_not p parse_inner (spell e s) ≡ ok (e, s)
    unfolding parse_not to_token_stream
    parse_not-spell s (negated k) h =
        rw (q.peek-put, q.parse_mark-put, parse_primary-spell s k (omega arith))
    parse_not-spell s (plain k) h = rw (peek_bang-spell s k) (parse_primary-spell s k h)

    -- One round of the loop of `parse_and`.
    and_loop_round :
        (k : ℕ) (l : GuardExpression Ident) {r : GuardExpression Ident} (s : Stream)
        → IsNegation r
        → nodes r + nodes r ≤ n
        → and_loop p parse_inner (suc k) l (put and_and (spell r s))
          ≡ and_loop p parse_inner k (and_ l r) s
    and_loop_round k l {r} s b h = rw (step, q.peek-put, q.parse_mark-put, parse_not-spell s b h)
      where
        step :
            and_loop p parse_inner (suc k) l (put and_and (spell r s))
            ≡ elim (peek and_and (put and_and (spell r s))) [
              | false ↦ ok (l, put and_and (spell r s))
              | true ↦ (do
                after ← lift (parse_mark and_and (put and_and (spell r s)))
                (right, rest) ← parse_not p parse_inner after
                and_loop p parse_inner k (and_ l right) rest)
            ]
        step = unfold and_loop in refl

    and_loop_stop :
        (k : ℕ) (e : GuardExpression Ident) (s : Stream)
        → peek and_and s ≡ false
        → and_loop p parse_inner (suc k) e s ≡ ok (e, s)
    unfolding and_loop
    and_loop_stop k e s stop = rw (stop, and_loop)

    parse_and-chain :
        {e : GuardExpression Ident} (k f : ℕ) (s : Stream)
        → IsConjunction e
        → nodes e + nodes e ≤ n
        → f ≡ k + ands e
        → parse_and p parse_inner f (spell e s) ≡ and_loop p parse_inner k e s
    unfolding parse_and to_token_stream
    parse_and-chain k f s (one_negation {e} b) h t =
        let same : f ≡ k = omega (arith, t, ands-negation b) in rw (parse_not-spell s b h, same)
    parse_and-chain k f s (both {l} {r} a b) h t =
        parse_and-chain (suc k) f (put and_and (spell r s)) a (omega arith) (omega arith)
        ∙ and_loop_round k l s b (omega arith)

    parse_and-spell :
        {e : GuardExpression Ident} (f : ℕ) (s : Stream)
        → IsConjunction e
        → nodes e + nodes e ≤ n
        → nodes e ≤ f
        → peek and_and s ≡ false
        → parse_and p parse_inner f (spell e s) ≡ ok (e, s)
    parse_and-spell {e} f s a h t stop =
        parse_and-chain (suc (f - ands e - 1)) f s a h (omega (arith, ands-lt-nodes a))
        ∙ and_loop_stop (f - ands e - 1) e s stop

    -- One round of the loop of `parse_or`.
    or_loop_round :
        (k : ℕ) (l : GuardExpression Ident) {r : GuardExpression Ident} (s : Stream)
        → IsConjunction r
        → nodes r + nodes r ≤ n
        → nodes r ≤ k
        → peek and_and s ≡ false
        → or_loop p parse_inner (suc k) l (put or_or (spell r s))
          ≡ or_loop p parse_inner k (or_ l r) s
    or_loop_round k l {r} s b h t stop =
        rw (step, q.peek-put, q.parse_mark-put, parse_and-spell k s b h t stop)
      where
        step :
            or_loop p parse_inner (suc k) l (put or_or (spell r s))
            ≡ elim (peek or_or (put or_or (spell r s))) [
              | false ↦ ok (l, put or_or (spell r s))
              | true ↦ (do
                after ← lift (parse_mark or_or (put or_or (spell r s)))
                (right, rest) ← parse_and p parse_inner k after
                or_loop p parse_inner k (or_ l right) rest)
            ]
        step = unfold or_loop in refl

    or_loop_stop :
        (k : ℕ) (e : GuardExpression Ident) (s : Stream)
        → peek or_or s ≡ false
        → or_loop p parse_inner (suc k) e s ≡ ok (e, s)
    unfolding or_loop
    or_loop_stop k e s stop = rw (stop, or_loop)

    -- The body of `parse_or`, with fuel `f` for the loop.
    abbrev disjunction : ℕ → ℕ → Stream → Parsed p
    disjunction m f input = do
      (left, rest) ← parse_and p parse_inner m input
      or_loop p parse_inner f left rest

    disjunction-chain :
        {e : GuardExpression Ident} (m k f : ℕ) (s : Stream)
        → IsDisjunction e
        → nodes e + nodes e ≤ n
        → nodes e ≤ m
        → nodes e ≤ k
        → f ≡ k + ors e
        → peek and_and s ≡ false
        → disjunction m f (spell e s) ≡ or_loop p parse_inner k e s
    unfolding to_token_stream
    disjunction-chain m k f s (one_conjunction {e} b) h i j t stop =
        let same : f ≡ k = omega (arith, t, ors-conjunction b) in
        rw (parse_and-spell m s b h i stop, same)
    disjunction-chain m k f s (either {l} {r} a b) h i j t stop =
        disjunction-chain m (suc k) f (put or_or (spell r s)) a (omega arith) (omega arith)
          (omega arith) (omega arith) (q.peek-put and_and or_or (spell r s))
        ∙ or_loop_round k l s b (omega arith) (omega arith) stop

    disjunction-spell :
        {e : GuardExpression Ident} (f : ℕ) (s : Stream)
        → IsDisjunction e
        → nodes e + nodes e ≤ n
        → nodes e + nodes e ≤ f
        → Stops s
        → disjunction f f (spell e s) ≡ ok (e, s)
    disjunction-spell {e} f s d h t stop =
        let k : ℕ = f - ors e in
        let l = ors-lt-nodes d in
        let same : k ≡ suc (k - 1) = omega arith in
        disjunction-chain f k f s d h (omega arith) (omega arith) (omega arith) stop.1
        ∙ rw same (or_loop_stop (k - 1) e s stop.0)

  -- Printing an expression of the grammar and parsing the tokens, in front of any tokens that do not
  -- continue it, gives the expression back and leaves exactly those tokens.
  pub parse_or-to_token_stream :
      (fuel : ℕ) (e : GuardExpression Ident) (s : Stream)
      → IsDisjunction e
      → nodes e + nodes e < fuel
      → Stops s
      → parse_or p fuel (to_token_stream p q spell_ident e s) ≡ ok (e, s)
  unfolding parse_or
  parse_or-to_token_stream zero e s d h stop = elim h [ ]
  parse_or-to_token_stream (suc fuel) e s d h stop =
      let inner : Inner fuel (parse_or p fuel) = λ e' d' h'.
        parse_or-to_token_stream fuel e' nothing d' h'
          (q.peek-nothing or_or, q.peek-nothing and_and) in
      disjunction-spell fuel (parse_or p fuel) inner fuel s d (omega arith) (omega arith) stop
