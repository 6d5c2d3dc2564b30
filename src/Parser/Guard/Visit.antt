-- ===== src/Parser/Guard/Visit.antt =====
-- The guards that `visit_guards` visits, and in which order.
use sml_rs.Base.{
  ℕ, zero, suc, ◌+◌, ◌<◌, ◌≡◌, refl, ◌∙◌, inl, inr, Result, Result-cases, ok, err, List, [], ◌∷◌,
  ◌++◌, append_assoc, append-nil, arith,
}
use sml_rs.Parser.Guard.{
  AsyncIdent, GuardExpression, guard, not_, group, and_, or_, nodes, Failure, syntax, visit_loop,
  visit_guards,
}

-- The guards of an expression from right to left.
abbrev pub guards_from_right : {I : Type 0} → GuardExpression I → List (AsyncIdent I)
guards_from_right (guard g) = g ∷ []
guards_from_right (not_ e) = guards_from_right e
guards_from_right (group e) = guards_from_right e
guards_from_right (and_ l r) = guards_from_right r ++ guards_from_right l
guards_from_right (or_ l r) = guards_from_right r ++ guards_from_right l

module _ {I S E : Type 0} (visit : AsyncIdent I → S → Result (Unit {0}) E × S) where
  -- The calls of the closure on a list of guards, up to the first that fails.
  abbrev pub visit_each : List (AsyncIdent I) → S → Result (Unit {0}) (Failure E) × S
  visit_each [] s = (ok tt, s)
  visit_each (g ∷ gs) s =
      let (r, s') = visit g s in elim r [ ok _ ↦ visit_each gs s' | err e ↦ (err (syntax e), s') ]

  abbrev guards_of_stack : List (GuardExpression I) → List (AsyncIdent I)
  guards_of_stack [] = []
  guards_of_stack (e ∷ es) = guards_from_right e ++ guards_of_stack es

  abbrev nodes_of_stack : List (GuardExpression I) → ℕ
  nodes_of_stack [] = 0
  nodes_of_stack (e ∷ es) = nodes e + nodes_of_stack es

  visit_loop_lem :
      (fuel : ℕ) (stack : List (GuardExpression I)) (s : S)
      → nodes_of_stack stack < fuel
      → visit_loop visit fuel stack s ≡ visit_each (guards_of_stack stack) s
  unfolding visit_loop
  visit_loop_lem zero stack s h = elim h [ ]
  visit_loop_lem (suc fuel) [] s h = refl
  visit_loop_lem (suc fuel) (guard g ∷ es) s h = elim (Result-cases (visit g s).0) [
    | inl (u, e) ↦ rw (e, visit_loop) (visit_loop_lem fuel es (visit g s).1 (omega arith))
    | inr (x, e) ↦ rw (e, visit_loop)
  ]
  visit_loop_lem (suc fuel) (not_ e ∷ es) s h = visit_loop_lem fuel (e ∷ es) s (omega arith)
  visit_loop_lem (suc fuel) (group e ∷ es) s h = visit_loop_lem fuel (e ∷ es) s (omega arith)
  visit_loop_lem (suc fuel) (and_ l r ∷ es) s h =
      visit_loop_lem fuel (r ∷ l ∷ es) s (omega arith) ∙ rw append_assoc
  visit_loop_lem (suc fuel) (or_ l r ∷ es) s h =
      visit_loop_lem fuel (r ∷ l ∷ es) s (omega arith) ∙ rw append_assoc

  -- Every guard of the expression is visited exactly once, from right to left, up to the first that
  -- the closure refuses, whose error is the result; the loop does not run out of fuel.
  pub visit_guards_lem :
      (e : GuardExpression I) (s : S) → visit_guards visit e s ≡ visit_each (guards_from_right e) s
  unfolding visit_guards
  visit_guards_lem e s = visit_loop_lem (suc (nodes e)) (e ∷ []) s (omega arith) ∙ rw append-nil
