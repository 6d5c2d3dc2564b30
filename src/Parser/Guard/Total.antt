-- ===== src/Parser/Guard/Total.antt =====
-- The guard parser ends on every input, and returns only expressions of the grammar.
use sml_rs.Base.{
  ℕ, zero, suc, ◌+◌, ◌≤◌, ◌<◌, ◌≡◌, ◌≢◌, Bool-cases, inl, inr, ok, err, Result-cases, Ensures,
  returns, fails, Ensures-bind, Ensures-weaken, Ensures-ok, Ensures-err, arith,
}
use sml_rs.Parser.Stream.{Mark, or_or, and_and, bang, async_word, ParseStream}
use sml_rs.Parser.Guard.{
  GuardExpression, and_, or_, Failure, syntax, out_of_fuel, lift, Parsed, parse_primary, parse_not,
  and_loop, parse_and, or_loop, parse_or,
}
use sml_rs.Parser.Guard.Grammar.{
  IsPrimary, callback, parens, IsNegation, negated, plain, IsConjunction, both, one_negation,
  IsDisjunction, either, one_conjunction,
}

-- The error is one of `syn`.
abbrev pub FromSyn : {E : Type 0} → Failure E → Type 0
FromSyn (syntax e) = Unit
FromSyn out_of_fuel = ⊥

module _ (p : ParseStream) where
  open p use {Stream, Ident, Error, peek, parse_mark, parse_ident, parenthesized, size}

  -- An expression of one kind is returned, and fewer than `n` tokens are left; or `syn` reports an error.
  abbrev pub Gives : (GuardExpression Ident → Type 0) → ℕ → Parsed p → Type 0
  Gives Kind n = Ensures (λ r. Kind r.0 × (size r.1 < n)) FromSyn

  mark_takes :
      (m : Mark) (s : Stream) → Ensures (λ s'. size s' < size s) FromSyn (lift (parse_mark m s))
  mark_takes m s = elim (Result-cases (parse_mark m s)) [
    | inl (s', e) ↦ rw e (returns (p.parse_mark-size m s s' e))
    | inr (x, e) ↦ rw e (fails tt)
  ]

  ident_takes :
      (s : Stream)
      → Ensures (λ (r : Ident × Stream). size r.1 < size s) FromSyn (lift (parse_ident s))
  ident_takes s = elim (Result-cases (parse_ident s)) [
    | inl ((i, s'), e) ↦ rw e (returns (p.parse_ident-size s s' i e))
    | inr (x, e) ↦ rw e (fails tt)
  ]

  group_takes :
      (s : Stream)
      → Ensures
          (λ (r : Stream × Stream). size r.0 + size r.1 < size s)
          FromSyn
          (lift (parenthesized s))
  group_takes s = elim (Result-cases (parenthesized s)) [
    | inl ((c, s'), e) ↦ rw e (returns (p.parenthesized-size s c s' e))
    | inr (x, e) ↦ rw e (fails tt)
  ]

  -- The calls on the content of a group, for contents of fewer than `n` tokens.
  abbrev Inner : ℕ → (Stream → Parsed p) → Type 0
  Inner n parse_inner =
      (s : Stream) → size s < n → Gives IsDisjunction (suc (size s)) (parse_inner s)

  module _ (n : ℕ) (parse_inner : Stream → Parsed p) (inner : Inner n parse_inner) where
    parse_primary-Gives :
        (s : Stream) → size s ≤ n → Gives IsPrimary (size s) (parse_primary p parse_inner s)
    unfolding parse_primary
    parse_primary-Gives s h = elim (Bool-cases (p.peek_paren s)) [
      | inl t ↦ rw t (
          Ensures-bind _ (group_takes s) (λ r lt.
            Ensures-bind _ (inner r.0 (omega arith)) (λ e k. returns (parens k.0, omega arith))))
      | inr t ↦ rw t (elim (Bool-cases (peek async_word s)) [
        | inl a ↦ rw a (
            Ensures-bind _ (mark_takes async_word s) (λ s₁ lt₁.
              Ensures-bind _ (ident_takes s₁) (λ r lt. returns (callback _, omega arith))))
        | inr a ↦ rw a (Ensures-bind _ (ident_takes s) (λ r lt. returns (callback _, omega arith)))
      ])
    ]

    parse_not-Gives :
        (s : Stream) → size s ≤ n → Gives IsNegation (size s) (parse_not p parse_inner s)
    unfolding parse_not
    parse_not-Gives s h = elim (Bool-cases (peek bang s)) [
      | inl t ↦ rw t (
          Ensures-bind _ (mark_takes bang s) (λ s₁ lt₁.
            Ensures-bind _ (parse_primary-Gives s₁ (omega arith))
              (λ r k. returns (negated k.0, omega arith))))
      | inr t ↦ rw t (Ensures-weaken (parse_primary-Gives s h) (λ r k. (plain k.0, k.1)))
    ]

    and_loop-Gives :
        (fuel : ℕ) (left : GuardExpression Ident) (s : Stream)
        → IsConjunction left
        → size s ≤ n
        → size s < fuel
        → Gives IsConjunction (suc (size s)) (and_loop p parse_inner fuel left s)
    unfolding and_loop
    and_loop-Gives zero left s c h f = elim f [ ]
    and_loop-Gives (suc fuel) left s c h f = elim (Bool-cases (peek and_and s)) [
      | inl t ↦
          rw (t, and_loop)
            (Ensures-bind _ (mark_takes and_and s) (λ s₁ lt₁.
              Ensures-bind _ (parse_not-Gives s₁ (omega arith)) (λ r k.
                Ensures-weaken
                  (and_loop-Gives fuel (and_ left r.0) r.1 (both c k.0) (omega arith) (omega arith))
                  (λ v j. (j.0, omega arith)))))
      | inr t ↦ rw (t, and_loop) (returns (c, omega arith))
    ]

    parse_and-Gives :
        (fuel : ℕ) (s : Stream)
        → size s ≤ n
        → size s ≤ fuel
        → Gives IsConjunction (size s) (parse_and p parse_inner fuel s)
    unfolding parse_and
    parse_and-Gives fuel s h f = Ensures-bind _ (parse_not-Gives s h) (λ r k.
        Ensures-weaken (and_loop-Gives fuel r.0 r.1 (one_negation k.0) (omega arith) (omega arith))
          (λ v j. (j.0, omega arith)))

    or_loop-Gives :
        (fuel : ℕ) (left : GuardExpression Ident) (s : Stream)
        → IsDisjunction left
        → size s ≤ n
        → size s < fuel
        → Gives IsDisjunction (suc (size s)) (or_loop p parse_inner fuel left s)
    unfolding or_loop
    or_loop-Gives zero left s c h f = elim f [ ]
    or_loop-Gives (suc fuel) left s c h f = elim (Bool-cases (peek or_or s)) [
      | inl t ↦
          rw (t, or_loop)
            (Ensures-bind _ (mark_takes or_or s) (λ s₁ lt₁.
              Ensures-bind _ (parse_and-Gives fuel s₁ (omega arith) (omega arith)) (λ r k.
                Ensures-weaken
                  (or_loop-Gives fuel (or_ left r.0) r.1 (either c k.0) (omega arith) (omega arith))
                  (λ v j. (j.0, omega arith)))))
      | inr t ↦ rw (t, or_loop) (returns (c, omega arith))
    ]

  parse_or-Gives :
      (fuel : ℕ) (s : Stream)
      → size s < fuel
      → Gives IsDisjunction (suc (size s)) (parse_or p fuel s)
  unfolding parse_or
  parse_or-Gives zero s h = elim h [ ]
  parse_or-Gives (suc fuel) s h =
      let inner : Inner fuel (parse_or p fuel) = λ s' h'. parse_or-Gives fuel s' h' in
      Ensures-bind _
        (parse_and-Gives fuel (parse_or p fuel) inner fuel s (omega arith) (omega arith))
        (λ r k.
          Ensures-weaken
            (or_loop-Gives fuel (parse_or p fuel) inner fuel r.0 r.1 (one_conjunction k.0)
              (omega arith) (omega arith))
            (λ v j. (j.0, omega arith)))

  -- With fuel above the number of tokens the guard parser never runs out of fuel.
  pub parse_or_ends : (fuel : ℕ) (s : Stream) → size s < fuel → parse_or p fuel s ≢ err out_of_fuel
  parse_or_ends fuel s h e = Ensures-err (parse_or-Gives fuel s h) e

  -- The guard parser returns only expressions of the grammar, and leaves no more tokens than it got.
  pub parse_or_grammar :
      (fuel : ℕ) (s rest : Stream) (e : GuardExpression Ident)
      → size s < fuel
      → parse_or p fuel s ≡ ok (e, rest)
      → IsDisjunction e × (size rest ≤ size s)
  parse_or_grammar fuel s rest e h r =
      let k = Ensures-ok (parse_or-Gives fuel s h) r in (k.0, omega arith)
