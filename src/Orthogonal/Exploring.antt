-- ===== src/Orthogonal/Exploring.antt =====
-- The search of one region, in macros/src/orthogonal_codegen.rs: it ends, and claims what it should.
use sml_rs.Base.{
  is_some, ℕ, zero, suc, ◌+◌, ◌<◌, ◌≤◌, true, false, ◌||◌, ◌==◌, ==_iff, if◌then◌else◌, if_true,
  if_false, ◌≡◌, ◌≢◌, refl, sym, ap, ◌∙◌, subst, ◌⊎◌, inl, inr, Bool-cases, Option-cases, length,
  length-append, Option, none, some, List, [], ◌∷◌, ◌++◌, ok, err, ok_eq, err_not_ok, arith,
}
use sml_rs.Parser.HashMap.{HashMap, IsEquality, get, insert, get-cons, get-insert, same_sym}
use sml_rs.Parser.Table.{Syntax}
use sml_rs.Orthogonal.{overlap, out_of_fuel, neighbours, has, set_insert, explore}

module _ (x : Syntax) (c : IsEquality x.same_ident)
    (adjacency : HashMap x.Ident (List x.Ident)) where
  open x use {Ident, same_ident}

  pub has-append : (ss ts : List Ident) (s : Ident) → has x (ss ++ ts) s ≡ has x ss s || has x ts s
  has-append [] ts s = refl
  has-append (u ∷ ss) ts s = ground (arith, has-append ss ts s)

  pub has-set_insert :
      (ss : List Ident) (s t : Ident) → has x (set_insert x ss s) t ≡ same_ident s t || has x ss t
  has-set_insert ss s t = elim (Bool-cases (has x ss s)) [
    | inl h ↦ elim (Bool-cases (same_ident s t)) [
      | inl e ↦
          let same : s ≡ t = (c.same_iff s t).0 e in
          let there : has x ss t ≡ true = subst (λ u. has x ss u ≡ true) same h in rw (h, e, there)
      | inr e ↦ rw (h, e)
    ]
    | inr h ↦ rw h
  ]

  -- The search so far: what is claimed, and what has still to be looked at.
  pub record Explored (index : ℕ) (initial : Ident) (before : HashMap Ident ℕ) (queue : List Ident)
      (claimed : HashMap Ident ℕ) (states : List Ident) : Type 0 where
    pub owned :
        (s : Ident)
        → get same_ident claimed s
          ≡ (if has x states s then some index else get same_ident before s)
    pub fresh : (s : Ident) → has x states s ≡ true → get same_ident before s ≡ none
    pub frontier :
        (s n : Ident)
        → has x states s ≡ true
        → has x (neighbours x adjacency s) n ≡ true
        → (has x states n ≡ true) ⊎ (has x queue n ≡ true)
    pub seed : (has x states initial ≡ true) ⊎ (has x queue initial ≡ true)

  explore_zero :
      (index : ℕ) (queue : List Ident) (claimed : HashMap Ident ℕ) (states : List Ident)
      → explore x 0 adjacency index queue claimed states ≡ err out_of_fuel
  unfolding explore
  explore_zero index queue claimed states = refl

  explore_end :
      (fuel index : ℕ) (claimed : HashMap Ident ℕ) (states : List Ident)
      → explore x (suc fuel) adjacency index [] claimed states ≡ ok (claimed, states)
  unfolding explore
  explore_end fuel index claimed states = refl

  -- The three ways in which a state of the queue is passed.
  module _ (fuel index : ℕ) (s : Ident) (queue : List Ident) (claimed : HashMap Ident ℕ)
      (states : List Ident) where
    pub explore_claim :
        get same_ident claimed s ≡ none
        → explore x (suc fuel) adjacency index (s ∷ queue) claimed states
          ≡ explore x fuel adjacency index
              (queue ++ neighbours x adjacency s)
              (insert same_ident claimed s index)
              (set_insert x states s)
    unfolding explore
    explore_claim e = rw (e, explore)

    pub explore_again :
        (owner : ℕ)
        → get same_ident claimed s ≡ some owner
        → (owner == index) ≡ true
        → explore x (suc fuel) adjacency index (s ∷ queue) claimed states
          ≡ explore x fuel adjacency index queue claimed states
    unfolding explore
    explore_again owner e b = rw (e, explore, b)

    pub explore_overlap :
        (owner : ℕ)
        → get same_ident claimed s ≡ some owner
        → (owner == index) ≡ false
        → explore x (suc fuel) adjacency index (s ∷ queue) claimed states ≡ err (overlap s)
    unfolding explore
    explore_overlap owner e b = rw (e, explore, b)

  module _ (index : ℕ) (initial : Ident) (before : HashMap Ident ℕ)
      (new_index : (s : Ident) → get same_ident before s ≢ some index) where
    -- A state that this region has claimed already.
    owned_again :
        (s : Ident) (queue : List Ident) (claimed : HashMap Ident ℕ) (states : List Ident)
        → Explored index initial before (s ∷ queue) claimed states
        → get same_ident claimed s ≡ some index
        → has x states s ≡ true
    owned_again s queue claimed states v h = elim (Bool-cases (has x states s)) [
      | inl e ↦ e
      | inr e ↦ absurd (new_index s (sym (v.owned s ∙ if_false e _ _) ∙ h))
    ]

    -- A member of the queue is its head or stands behind it.
    drop_head :
        (s n : Ident) (queue states : List Ident)
        → has x states s ≡ true
        → (has x states n ≡ true) ⊎ (has x (s ∷ queue) n ≡ true)
        → (has x states n ≡ true) ⊎ (has x queue n ≡ true)
    drop_head s n queue states h (inl e) = inl e
    drop_head s n queue states h (inr e) = elim (Bool-cases (same_ident s n)) [
      | inl q ↦ inl (subst (λ u. has x states u ≡ true) ((c.same_iff s n).0 q) h)
      | inr q ↦ inr (ground (arith, q, e))
    ]

    again-Explored :
        (s : Ident) (queue : List Ident) (claimed : HashMap Ident ℕ) (states : List Ident)
        → Explored index initial before (s ∷ queue) claimed states
        → get same_ident claimed s ≡ some index
        → Explored index initial before queue claimed states
    again-Explored s queue claimed states v h =
        let here = owned_again s queue claimed states v h in
        record {
          owned = v.owned;
          fresh = v.fresh;
          frontier = λ t n a b. drop_head s n queue states here (v.frontier t n a b);
          seed = drop_head s initial queue states here v.seed;
        }

    module _ (s : Ident) (queue : List Ident) (claimed : HashMap Ident ℕ) (states : List Ident)
        (v : Explored index initial before (s ∷ queue) claimed states)
        (h : get same_ident claimed s ≡ none) where
      not_yet : has x states s ≡ false
      not_yet = elim (Bool-cases (has x states s)) [
        | inl e ↦ let owns = sym (v.owned s ∙ if_true e _ _) ∙ h in absurd (ground (arith, owns))
        | inr e ↦ e
      ]

      unowned : get same_ident before s ≡ none
      unowned = sym (v.owned s ∙ if_false not_yet _ _) ∙ h

      -- What was known to be in the states or in the queue still is.
      kept :
          (n : Ident)
          → (has x states n ≡ true) ⊎ (has x (s ∷ queue) n ≡ true)
          → (has x (set_insert x states s) n ≡ true)
            ⊎ (has x (queue ++ neighbours x adjacency s) n ≡ true)
      kept n (inl e) = inl (ground (arith, has-set_insert states s n, e))
      kept n (inr e) = elim (Bool-cases (same_ident s n)) [
        | inl q ↦ inl (ground (arith, has-set_insert states s n, q))
        | inr q ↦ inr (ground (arith, has-append queue (neighbours x adjacency s) n, q, e))
      ]

      claim-Explored :
          Explored index initial before
            (queue ++ neighbours x adjacency s)
            (insert same_ident claimed s index)
            (set_insert x states s)
      claim-Explored = record {
        owned = λ n. elim (Bool-cases (same_ident s n)) [
          | inl q ↦ rw (get-insert c, has-set_insert, q)
          | inr q ↦ rw (get-insert c, has-set_insert, q) (v.owned n)
        ];
        fresh = λ n e. elim (Bool-cases (same_ident s n)) [
          | inl q ↦ subst (λ u. get same_ident before u ≡ none) ((c.same_iff s n).0 q) unowned
          | inr q ↦ v.fresh n (ground (arith, has-set_insert states s n, q, e))
        ];
        frontier = λ m n a b. elim (Bool-cases (same_ident s m)) [
          | inl q ↦
              let same : s ≡ m = (c.same_iff s m).0 q in
              let near : has x (neighbours x adjacency s) n ≡ true =
                subst (λ u. has x (neighbours x adjacency u) n ≡ true) (sym same) b in
              inr (ground (arith, has-append queue (neighbours x adjacency s) n, near))
          | inr q ↦ kept n (v.frontier m n (ground (arith, has-set_insert states s m, q, a)) b)
        ];
        seed = kept initial v.seed;
      }

    -- What a search that returns has claimed: all that it reached, and with every state its
    -- neighbours.
    pub explore-Explored :
        (fuel : ℕ) (queue : List Ident) (claimed : HashMap Ident ℕ) (states : List Ident)
        (claimed' : HashMap Ident ℕ) (states' : List Ident)
        → Explored index initial before queue claimed states
        → explore x fuel adjacency index queue claimed states ≡ ok (claimed', states')
        → Explored index initial before [] claimed' states'
    explore-Explored zero queue claimed states claimed' states' v h =
        absurd (err_not_ok (sym (explore_zero index queue claimed states) ∙ h))
    explore-Explored (suc fuel) [] claimed states claimed' states' v h =
        let same : ◌≡◌ {A = HashMap Ident ℕ × List Ident} (claimed, states) (claimed', states') =
          ok_eq (sym (explore_end fuel index claimed states) ∙ h) in
        subst (λ (p : HashMap Ident ℕ × List Ident). Explored index initial before [] p.0 p.1) same
          v
    explore-Explored (suc fuel) (s ∷ queue) claimed states claimed' states' v h =
        elim (Option-cases (get same_ident claimed s)) [
          | inl e ↦
              explore-Explored fuel (queue ++ neighbours x adjacency s)
                (insert same_ident claimed s index) (set_insert x states s) claimed' states'
                (claim-Explored s queue claimed states v e)
                (sym (explore_claim fuel index s queue claimed states e) ∙ h)
          | inr (owner, e) ↦ elim (Bool-cases (owner == index)) [
            | inl b ↦
                let mine : get same_ident claimed s ≡ some index =
                  e ∙ ap some ((==_iff owner index).0 b) in
                explore-Explored fuel queue claimed states claimed' states'
                  (again-Explored s queue claimed states v mine)
                  (sym (explore_again fuel index s queue claimed states owner e b) ∙ h)
            | inr b ↦
                absurd (
                  err_not_ok
                    (sym (explore_overlap fuel index s queue claimed states owner e b) ∙ h))
          ]
        ]

  -- The neighbours that the states not claimed yet may still add to the queue.
  abbrev pub pending : HashMap Ident ℕ → HashMap Ident (List Ident) → ℕ
  pending claimed [] = 0
  pending claimed ((s, ss) ∷ entries) =
      (if is_some (get same_ident claimed s) then 0 else length ss) + pending claimed entries

  list_of : Option (List Ident) → List Ident
  list_of entry = elim entry [ none ↦ [] | some states ↦ states ]

  neighbours-cons :
      (k s : Ident) (ss : List Ident) (entries : HashMap Ident (List Ident))
      → neighbours x ((k, ss) ∷ entries) s ≡ (if same_ident k s then ss else neighbours x entries s)
  unfolding list_of
  neighbours-cons k s ss entries = elim (Bool-cases (same_ident k s)) [
    | inl q ↦ ap list_of (get-cons same_ident k ss entries s ∙ if_true q _ _) ∙ sym (if_true q _ _)
    | inr q ↦
        ap list_of (get-cons same_ident k ss entries s ∙ if_false q _ _) ∙ sym (if_false q _ _)
  ]

  nothing_near : (s : Ident) → length (neighbours x [] s) ≤ 0
  unfolding get
  nothing_near s = omega arith

  pending_claim :
      (s : Ident) (index : ℕ) (claimed : HashMap Ident ℕ) (entries : HashMap Ident (List Ident))
      → get same_ident claimed s ≡ none
      → pending (insert same_ident claimed s index) entries + length (neighbours x entries s)
        ≤ pending claimed entries
  pending_claim s index claimed [] h = omega (arith, nothing_near s)
  pending_claim s index claimed ((k, ss) ∷ entries) h =
      let rest = pending_claim s index claimed entries h in
      elim (Bool-cases (same_ident k s)) [
        | inl q ↦
            let same : s ≡ k = sym ((c.same_iff k s).0 q) in
            let free : get same_ident claimed k ≡ none =
              subst (λ u. get same_ident claimed u ≡ none) same h in
            let back : same_ident s k ≡ true = (c.same_iff s k).1 same in
            let now : get same_ident (insert same_ident claimed s index) k ≡ some index =
              get-insert c claimed s k index ∙ if_true back _ _ in
            let near : neighbours x ((k, ss) ∷ entries) s ≡ ss =
              neighbours-cons k s ss entries ∙ if_true q _ _ in
            rw (near, now, free) (omega (arith, rest))
        | inr q ↦
            let back : same_ident s k ≡ false = sym (same_sym c k s) ∙ q in
            let now : get same_ident (insert same_ident claimed s index) k
                ≡ get same_ident claimed k =
              get-insert c claimed s k index ∙ if_false back _ _ in
            let near : neighbours x ((k, ss) ∷ entries) s ≡ neighbours x entries s =
              neighbours-cons k s ss entries ∙ if_false q _ _ in
            rw (near, now) (omega (arith, rest))
      ]

  ok_not_err : {A E : Type 0} {a : A} {e : E} → ok a ≡ err e → ⊥
  ok_not_err h = cc

  -- The search ends within as many rounds as there are states in the queue and neighbours to come.
  pub explore_ends :
      (fuel index : ℕ) (queue : List Ident) (claimed : HashMap Ident ℕ) (states : List Ident)
      → length queue + pending claimed adjacency < fuel
      → explore x fuel adjacency index queue claimed states ≢ err out_of_fuel
  explore_ends zero index queue claimed states h e = elim h [ ]
  explore_ends (suc fuel) index [] claimed states h e =
      ok_not_err (sym (explore_end fuel index claimed states) ∙ e)
  explore_ends (suc fuel) index (s ∷ queue) claimed states h e =
      elim (Option-cases (get same_ident claimed s)) [
        | inl q ↦
            explore_ends fuel index (queue ++ neighbours x adjacency s)
              (insert same_ident claimed s index) (set_insert x states s)
              (omega (
                arith,
                length-append queue (neighbours x adjacency s),
                pending_claim s index claimed adjacency q,
              ))
              (sym (explore_claim fuel index s queue claimed states q) ∙ e)
        | inr (owner, q) ↦ elim (Bool-cases (owner == index)) [
          | inl b ↦
              explore_ends fuel index queue claimed states (omega arith)
                (sym (explore_again fuel index s queue claimed states owner q b) ∙ e)
          | inr b ↦
              ground (arith, sym (explore_overlap fuel index s queue claimed states owner q b) ∙ e)
        ]
      ]
