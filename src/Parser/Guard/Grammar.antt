-- ===== src/Parser/Guard/Grammar.antt =====
-- The guard grammar as an inductive description.
use sml_rs.Parser.Guard.{AsyncIdent, GuardExpression, guard, not_, group, and_, or_}

-- `!` binds tightest and stands once, then `&&`, then `||`; both associate to the left.
mutual
  pub data IsPrimary {I : Type 0} : GuardExpression I → Type 0 where
    callback : (g : AsyncIdent I) → IsPrimary (guard g)
    parens : {e : GuardExpression I} → IsDisjunction e → IsPrimary (group e)

  pub data IsNegation {I : Type 0} : GuardExpression I → Type 0 where
    negated : {e : GuardExpression I} → IsPrimary e → IsNegation (not_ e)
    plain : {e : GuardExpression I} → IsPrimary e → IsNegation e

  pub data IsConjunction {I : Type 0} : GuardExpression I → Type 0 where
    both : {l r : GuardExpression I} → IsConjunction l → IsNegation r → IsConjunction (and_ l r)
    one_negation : {e : GuardExpression I} → IsNegation e → IsConjunction e

  pub data IsDisjunction {I : Type 0} : GuardExpression I → Type 0 where
    either : {l r : GuardExpression I} → IsDisjunction l → IsConjunction r → IsDisjunction (or_ l r)
    one_conjunction : {e : GuardExpression I} → IsConjunction e → IsDisjunction e
