-- ===== src/Orthogonal/Regions.antt =====
-- What the searches of macros/src/orthogonal_codegen.rs claim together, one for each initial state.
use sml_rs.Base.{
  ℕ, zero, suc, ◌+◌, ◌<◌, ◌≤◌, true, if_true, if_false, ◌≡◌, ◌≢◌, refl, sym, ap, ◌∙◌, subst, ◌↔◌,
  ◌⊎◌, inl, inr, Bool-cases, length, get_elem?, Option, none, some, List, [], ◌∷◌, ok, err, ok_eq,
  bind_ok, bind_err, is_some, err_not_ok, arith, map,
}
use sml_rs.Parser.HashMap.{HashMap, IsEquality, get, same_refl}
use sml_rs.Parser.Table.{Syntax}
use sml_rs.Orthogonal.{Region, edges, out_of_fuel, neighbours, has, explore, claim_regions}
use sml_rs.Orthogonal.Exploring.{Explored, explore-Explored, pending, explore_ends}

module _ (x : Syntax) (c : IsEquality x.same_ident)
    (adjacency : HashMap x.Ident (List x.Ident)) where
  open x use {Ident, same_ident}

  -- What is claimed stands for regions before `index`, each with the neighbours of its states.
  pub record Good (index : ℕ) (claimed : HashMap Ident ℕ) : Type 0 where
    pub below : (s : Ident) (j : ℕ) → get same_ident claimed s ≡ some j → j < index
    pub closed :
        (s n : Ident) (j : ℕ)
        → get same_ident claimed s ≡ some j
        → has x (neighbours x adjacency s) n ≡ true
        → get same_ident claimed n ≡ some j

  some_eq : {i j : ℕ} → some i ≡ some j → i ≡ j
  some_eq h = cc

  some_not_none : {i : ℕ} {o : Option ℕ} → o ≡ some i → o ≡ none → ⊥
  some_not_none h e = cc

  pub Good-empty : Good 0 []
  unfolding get
  Good-empty = record {
    below = λ s j h. absurd (some_not_none h refl);
    closed = λ s n j h a. absurd (some_not_none h refl);
  }

  module _ (index : ℕ) (initial : Ident) (before : HashMap Ident ℕ) (g : Good index before) where
    new_index : (s : Ident) → get same_ident before s ≢ some index
    new_index s e = let lt = g.below s index e in omega (arith, lt)

    start : Explored x c adjacency index initial before (initial ∷ []) before []
    start = record {
      owned = λ s. refl;
      fresh = λ s e. ground (arith, e);
      frontier = λ s n e h. inr (ground (arith, e));
      seed = inr (ground (arith, same_refl c initial));
    }

    module _ (claimed : HashMap Ident ℕ) (states : List Ident)
        (v : Explored x c adjacency index initial before [] claimed states) where
      claimed_now : (s : Ident) → has x states s ≡ true → get same_ident claimed s ≡ some index
      claimed_now s e = v.owned s ∙ if_true e _ _

      claimed_earlier :
          (s : Ident) (j : ℕ) → get same_ident before s ≡ some j → get same_ident claimed s ≡ some j
      claimed_earlier s j h = elim (Bool-cases (has x states s)) [
        | inl e ↦ absurd (some_not_none h (v.fresh s e))
        | inr e ↦ v.owned s ∙ if_false e _ _ ∙ h
      ]

      -- A claimed state is one of this region, or was claimed before.
      claimed_by :
          (s : Ident) (j : ℕ)
          → get same_ident claimed s ≡ some j
          → ((has x states s ≡ true) × (index ≡ j)) ⊎ (get same_ident before s ≡ some j)
      claimed_by s j h = elim (Bool-cases (has x states s)) [
        | inl e ↦ inl (e, some_eq (sym (claimed_now s e) ∙ h))
        | inr e ↦ inr (sym (v.owned s ∙ if_false e _ _) ∙ h)
      ]

      in_states :
          (s : Ident) → (has x states s ≡ true) ⊎ (has x [] s ≡ true) → has x states s ≡ true
      in_states s (inl e) = e
      in_states s (inr e) = ground (arith, e)

      Explored-Good : Good (suc index) claimed
      Explored-Good = record {
        below = λ s j h. elim (claimed_by s j h) [
          | inl (e, i) ↦ omega (arith, i)
          | inr b ↦ let lt = g.below s j b in omega (arith, lt)
        ];
        closed = λ s n j h a. elim (claimed_by s j h) [
          | inl (e, i) ↦ claimed_now n (in_states n (v.frontier s n e a)) ∙ ap some i
          | inr b ↦ claimed_earlier n j (g.closed s n j b a)
        ];
      }

  -- What the searches for the initial states from `index` on add to `before`.
  pub record Claims (index : ℕ) (before final : HashMap Ident ℕ) (regions : List (Region x))
      : Type 0 where
    pub good : Good (index + length regions) final
    pub kept :
        (s : Ident) (j : ℕ) → get same_ident before s ≡ some j → get same_ident final s ≡ some j
    pub newer :
        (s : Ident) (j : ℕ)
        → get same_ident final s ≡ some j
        → (get same_ident before s ≡ some j) ⊎ (index ≤ j)
    pub members :
        (k : ℕ) (r : Region x) (s : Ident)
        → get_elem? regions k ≡ some r
        → (has x r.states s ≡ true) ↔ (get same_ident final s ≡ some (index + k))
    pub seeds :
        (k : ℕ) (r : Region x) → get_elem? regions k ≡ some r → has x r.states r.initial ≡ true

  Claims-none :
      (index : ℕ) (before : HashMap Ident ℕ) → Good index before → Claims index before before []
  Claims-none index before g = record {
    good = subst (λ i. Good i before) (omega arith) g;
    kept = λ s j h. h;
    newer = λ s j h. inl h;
    members = λ k r s h. cc;
    seeds = λ k r h. cc;
  }

  module _ (index : ℕ) (initial : Ident) (before : HashMap Ident ℕ) (g : Good index before)
      (claimed : HashMap Ident ℕ) (states : List Ident)
      (v : Explored x c adjacency index initial before [] claimed states) (final : HashMap Ident ℕ)
      (regions : List (Region x)) (w : Claims (suc index) claimed final regions) where
    abbrev region : Region x
    region = record { initial = initial; states = states }

    newer_too :
        (s : Ident) (j : ℕ)
        → get same_ident final s ≡ some j
        → (get same_ident before s ≡ some j) ⊎ (index ≤ j)
    newer_too s j h = elim (w.newer s j h) [
      | inl e ↦ elim (claimed_by index initial before g claimed states v s j e) [
        | inl (a, i) ↦ inr (omega (arith, i))
        | inr b ↦ inl b
      ]
      | inr le ↦ inr (omega (arith, le))
    ]

    own_members : (s : Ident) → get same_ident final s ≡ some index → has x states s ≡ true
    own_members s h = elim (w.newer s index h) [
      | inl e ↦ elim (claimed_by index initial before g claimed states v s index e) [
        | inl (a, i) ↦ a
        | inr b ↦ absurd (new_index index initial before g s b)
      ]
      | inr le ↦ absurd (omega (arith, le))
    ]

    members_too :
        (k : ℕ) (r : Region x) (s : Ident)
        → get_elem? (region ∷ regions) k ≡ some r
        → (has x r.states s ≡ true) ↔ (get same_ident final s ≡ some (index + k))
    members_too zero r s h =
        let same : region ≡ r = cc h in
        subst
          (λ (q : Region x).
            (has x q.states s ≡ true) ↔ (get same_ident final s ≡ some (index + 0)))
          same
          (
            λ e.
                w.kept s (index + 0)
                  (claimed_now index initial before g claimed states v s e ∙ ap some (omega arith)),
            λ e. own_members s (e ∙ ap some (omega arith)),
          )
    members_too (suc k) r s h =
        subst (λ i. (has x r.states s ≡ true) ↔ (get same_ident final s ≡ some i)) (omega arith)
          (w.members k r s h)

    Claims-more : Claims index before final (region ∷ regions)
    Claims-more = record {
      good = subst (λ i. Good i final) (omega arith) (w.good);
      kept = λ s j h. w.kept s j (claimed_earlier index initial before g claimed states v s j h);
      newer = newer_too;
      members = members_too;
      seeds = λ k r h.
          elim k
              as (λ k. get_elem? (region ∷ regions) k ≡ some r → has x r.states r.initial ≡ true) [
                | zero ↦ λ e.
                    let same : region ≡ r = cc e in
                    subst (λ (q : Region x). has x q.states q.initial ≡ true) same
                      (in_states index initial before g claimed states v initial (v.seed))
                | suc j ↦ λ e. w.seeds j r e
              ]
            h;
    }

  -- What an accepted list of initial states has claimed.
  pub claim_regions-Claims :
      (fuel : ℕ) (initials : List Ident) (index : ℕ) (before : HashMap Ident ℕ)
      (final : HashMap Ident ℕ) (regions : List (Region x))
      → Good index before
      → claim_regions x fuel adjacency initials index before ≡ ok (final, regions)
      → Claims index before final regions × (map (λ r. r.initial) regions ≡ initials)
  unfolding claim_regions
  claim_regions-Claims fuel [] index before final regions g h =
      let same : ◌≡◌ {A = HashMap Ident ℕ × List (Region x)} (before, []) (final, regions) =
        ok_eq h in
      subst
        (λ (p : HashMap Ident ℕ × List (Region x)).
          Claims index before p.0 p.1 × (map (λ r. r.initial) p.1 ≡ []))
        same (Claims-none index before g, refl)
  claim_regions-Claims fuel (initial ∷ more) index before final regions g h =
      let ((claimed, states), searched, rest) =
        bind_ok (explore x fuel adjacency index (initial ∷ []) before []) _ h in
      let ((last, later), claims, done) =
        bind_ok (claim_regions x fuel adjacency more (suc index) claimed) _ rest in
      let v : Explored x c adjacency index initial before [] claimed states =
        explore-Explored x c adjacency index initial before (new_index index initial before g) fuel
          (initial ∷ []) before [] claimed states (start index initial before g) searched in
      let (w, names) =
        claim_regions-Claims fuel more (suc index) claimed last later
          (Explored-Good index initial before g claimed states v) claims in
      let same : ◌≡◌ {A = HashMap Ident ℕ × List (Region x)}
          (last, record { initial = initial; states = states } ∷ later) (final, regions) =
        ok_eq done in
      subst
        (λ (p : HashMap Ident ℕ × List (Region x)).
          Claims index before p.0 p.1 × (map (λ r. r.initial) p.1 ≡ initial ∷ more))
        same
        (Claims-more index initial before g claimed states v last later w, ap (◌∷◌ initial) names)

  pending_le :
      (claimed : HashMap Ident ℕ) (entries : HashMap Ident (List Ident))
      → pending x c adjacency claimed entries ≤ edges x entries
  pending_le claimed [] = omega arith
  pending_le claimed ((s, ss) ∷ entries) = elim (Bool-cases (is_some (get same_ident claimed s))) [
    | inl q ↦ rw q (omega (arith, pending_le claimed entries))
    | inr q ↦ rw q (omega (arith, pending_le claimed entries))
  ]

  -- The searches end, where the fuel exceeds the number of neighbours.
  pub claim_regions_ends :
      (fuel : ℕ) (initials : List Ident) (index : ℕ) (before : HashMap Ident ℕ)
      → suc (edges x adjacency) < fuel
      → claim_regions x fuel adjacency initials index before ≢ err out_of_fuel
  unfolding claim_regions
  claim_regions_ends fuel [] index before h e = err_not_ok (sym e)
  claim_regions_ends fuel (initial ∷ more) index before h e =
      elim (bind_err (explore x fuel adjacency index (initial ∷ []) before []) _ e) [
        | inl q ↦
            explore_ends x c adjacency fuel index (initial ∷ []) before []
              (omega (arith, pending_le before adjacency)) q
        | inr ((claimed, states), q, e') ↦
            elim (bind_err (claim_regions x fuel adjacency more (suc index) claimed) _ e') [
              | inl q' ↦ claim_regions_ends fuel more (suc index) claimed h q'
              | inr (p, q', e'') ↦ err_not_ok (sym e'')
            ]
      ]
