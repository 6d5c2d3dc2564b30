-- ===== src/Orthogonal/Discovered.antt =====
-- The regions that discover_regions of macros/src/orthogonal_codegen.rs answers.
use sml_rs.Base.{
  ℕ, suc, ◌+◌, true, false, if_true, if_false, ◌≡◌, ◌≢◌, refl, sym, ap, ◌∙◌, subst, inl, inr,
  Bool-cases, Option-cases, get_elem?, get_elem?_in, Option, none, some, is_some, List, [], ◌∷◌, ok,
  err, ok_eq, err_not_ok, bind_ok, bind_err, arith, map,
}
use sml_rs.Parser.HashMap.{HashMap, IsEquality, get, contains_key}
use sml_rs.Parser.Table.{Syntax}
use sml_rs.Parser.Names.{StateTransition}
use sml_rs.Orthogonal.{
  Region, edges, has, out_of_fuel, unconnected, initials, connect_all, claim_regions, check_claimed,
  discover_regions,
}
use sml_rs.Orthogonal.Regions.{Claims, Good-empty, claim_regions-Claims, claim_regions_ends}
use sml_rs.Orthogonal.Adjacency.{moves, connect_all-Joins}

module _ (x : Syntax) (c : IsEquality x.same_ident) where
  open x use {Ident, same_ident}

  is_some_of : {o : Option ℕ} → is_some o ≡ true → (j : ℕ) × (o ≡ some j)
  is_some_of {o = none} h = absurd (ground (arith, h))
  is_some_of {o = some j} h = (j, refl)

  contains_key-some :
      (claimed : HashMap Ident ℕ) (s : Ident)
      → contains_key same_ident claimed s ≡ true
      → (j : ℕ) × (get same_ident claimed s ≡ some j)
  unfolding contains_key
  contains_key-some claimed s h = elim (Option-cases (get same_ident claimed s)) [
    | inl e ↦ absurd (ground (arith, e, h))
    | inr (j, e) ↦ (j, e)
  ]

  check_claimed_ok :
      (adjacency : HashMap Ident (List Ident)) (claimed : HashMap Ident ℕ) (s : Ident)
      → check_claimed x adjacency claimed ≡ ok tt
      → is_some (get same_ident adjacency s) ≡ true
      → (j : ℕ) × (get same_ident claimed s ≡ some j)
  unfolding check_claimed get
  check_claimed_ok [] claimed s h e = absurd (ground (arith, e))
  check_claimed_ok ((k, ss) ∷ entries) claimed s h e =
      elim (Bool-cases (contains_key same_ident claimed k)) [
        | inl q ↦ elim (Bool-cases (same_ident k s)) [
          | inl p ↦
              contains_key-some claimed s
                (subst (λ u. contains_key same_ident claimed u ≡ true) ((c.same_iff k s).0 p) q)
          | inr p ↦
              check_claimed_ok entries claimed s (sym (if_true q _ _) ∙ h)
                (sym (ap is_some (if_false p _ _)) ∙ e)
        ]
        | inr q ↦ absurd (err_not_ok (sym (if_false q _ _) ∙ h))
      ]

  check_claimed_ends :
      (adjacency : HashMap Ident (List Ident)) (claimed : HashMap Ident ℕ)
      → check_claimed x adjacency claimed ≢ err out_of_fuel
  unfolding check_claimed
  check_claimed_ends [] claimed h = cc
  check_claimed_ends ((k, ss) ∷ entries) claimed h =
      elim (Bool-cases (contains_key same_ident claimed k)) [
        | inl q ↦ check_claimed_ends entries claimed (sym (if_true q _ _) ∙ h)
        | inr q ↦ let e : err (unconnected k) ≡ err out_of_fuel = sym (if_false q _ _) ∙ h in cc
      ]

  -- What stands behind the regions of an accepted table.
  record Discovered (ts : List (StateTransition x)) (regions : List (Region x)) : Type 0 where
    final : HashMap Ident ℕ
    claims : Claims x c (connect_all x ts []) 0 [] final regions
    checked : check_claimed x (connect_all x ts []) final ≡ ok tt
    named : map (λ (r : Region x). r.initial) regions ≡ initials x ts

  fuel : List (StateTransition x) → ℕ
  fuel ts = suc (suc (edges x (connect_all x ts [])))

  discover_regions-Discovered :
      (ts : List (StateTransition x)) (regions : List (Region x))
      → discover_regions x ts ≡ ok regions
      → Discovered ts regions
  unfolding discover_regions fuel
  discover_regions-Discovered ts regions h =
      let ((final, found), searched, rest) =
        bind_ok (claim_regions x (fuel ts) (connect_all x ts []) (initials x ts) 0 []) _ h in
      let (u, checked, done) = bind_ok (check_claimed x (connect_all x ts []) final) _ rest in
      let (claims, named) =
        claim_regions-Claims x c (connect_all x ts []) (fuel ts) (initials x ts) 0 [] final found
          (Good-empty x c (connect_all x ts [])) searched in
      subst (λ rs. Discovered ts rs) (ok_eq done)
        (record { final = final; claims = claims; checked = checked; named = named })

  -- `discover_regions` ends: it always answers with the regions or with an error of the source.
  pub discover_regions_ends :
      (ts : List (StateTransition x)) → discover_regions x ts ≢ err out_of_fuel
  unfolding discover_regions fuel
  discover_regions_ends ts h =
      elim (bind_err (claim_regions x (fuel ts) (connect_all x ts []) (initials x ts) 0 []) _ h) [
        | inl q ↦
            claim_regions_ends x c (connect_all x ts []) (fuel ts) (initials x ts) 0 []
              (omega arith) q
        | inr ((final, found), q, h') ↦
            elim (bind_err (check_claimed x (connect_all x ts []) final) _ h') [
              | inl q' ↦ check_claimed_ends (connect_all x ts []) final q'
              | inr (u, q', h'') ↦ err_not_ok (sym h'')
            ]
      ]

  discovered_once :
      (ts : List (StateTransition x)) (regions : List (Region x))
      → discover_regions x ts ≡ ok regions
      → (i j : ℕ) (r q : Region x) (s : Ident) → get_elem? regions i ≡ some r
      → get_elem? regions j ≡ some q
      → has x r.states s ≡ true
      → has x q.states s ≡ true
      → i ≡ j
  discovered_once ts regions h i j r q s hi hj si sj =
      let d = discover_regions-Discovered ts regions h in
      let mine = (d.claims.members i r s hi).0 si in
      let yours = (d.claims.members j q s hj).0 sj in
      let same : 0 + i ≡ 0 + j = let e = sym mine ∙ yours in cc e in omega (arith, same)

  -- Where the regions of a table are discovered, no state is in two of them.
  pub discover_regions_disjoint :
      (ts : List (StateTransition x)) (regions : List (Region x))
      → discover_regions x ts ≡ ok regions
      → (i j : ℕ) (r q : Region x) (s : Ident) → get_elem? regions i ≡ some r
      → get_elem? regions j ≡ some q
      → i ≢ j
      → has x r.states s ≡ true
      → has x q.states s ≡ false
  discover_regions_disjoint ts regions h i j r q s hi hj ne si =
      elim (Bool-cases (has x q.states s)) [
        | inl sj ↦ absurd (ne (discovered_once ts regions h i j r q s hi hj si sj))
        | inr out ↦ out
      ]

  -- Where the regions of a table are discovered, there is one for each starting row, in order, and
  -- each holds its own initial state.
  pub discover_regions_start :
      (ts : List (StateTransition x)) (regions : List (Region x))
      → discover_regions x ts ≡ ok regions
      → (map (λ (r : Region x). r.initial) regions ≡ initials x ts)
        × ((i : ℕ) (r : Region x) → get_elem? regions i ≡ some r → has x r.states r.initial ≡ true)
  discover_regions_start ts regions h =
      let d = discover_regions-Discovered ts regions h in (d.named, d.claims.seeds)

  -- Where the regions of a table are discovered, the source of every row without a wildcard is in a
  -- region, and a row that moves to another state than the terminal one stays in that region.
  pub discover_regions_closed :
      (ts : List (StateTransition x)) (regions : List (Region x))
      → discover_regions x ts ≡ ok regions
      → (i : ℕ) (t : StateTransition x) → get_elem? ts i ≡ some t
      → t.in_state.wildcard ≡ false
      → (k : ℕ) × (r : Region x) × (get_elem? regions k ≡ some r)
        × (has x r.states t.in_state.ident ≡ true)
        × (moves x t ≡ true → has x r.states t.out_state.ident ≡ true)
  discover_regions_closed ts regions h i t ht w =
      let d = discover_regions-Discovered ts regions h in
      let j = connect_all-Joins x c ts [] i t ht w in
      let (k, owned) =
        check_claimed_ok (connect_all x ts []) d.final t.in_state.ident d.checked j.entered in
      let lt = d.claims.good.below t.in_state.ident k owned in
      let (r, hr) = get_elem?_in regions k (omega (arith, lt)) in
      let place : some k ≡ some (0 + k) = ap some (omega arith) in
      (
        k,
        r,
        hr,
        (d.claims.members k r t.in_state.ident hr).1 (owned ∙ place),
        λ m.
            (d.claims.members k r t.out_state.ident hr).1 (
              d.claims.good.closed t.in_state.ident t.out_state.ident k owned (j.joined m) ∙ place),
      )
