-- ===== src/Orthogonal/Adjacency.antt =====
-- The adjacency of states that macros/src/orthogonal_codegen.rs reads from the rows of a table.
use sml_rs.Base.{
  ℕ, zero, suc, Bool, true, false, not, ◌&&◌, if◌then◌else◌, if_true, if_false, ◌≡◌, sym, ap, ◌∙◌,
  subst, inl, inr, Bool-cases, Option-cases, get_elem?, Option, none, some, is_some, List, [], ◌∷◌,
  ◌++◌, arith,
}
use sml_rs.Parser.HashMap.{HashMap, IsEquality, get, insert, get-insert, same_refl}
use sml_rs.Parser.Table.{Syntax}
use sml_rs.Parser.Names.{StateTransition}
use sml_rs.Orthogonal.{or_default, neighbours, push, connect, connect_all, has}
use sml_rs.Orthogonal.Exploring.{has-append}

module _ (x : Syntax) where
  open x use {same_ident, terminal}

  -- A row that goes to another state than the terminal one.
  abbrev pub moves : StateTransition x → Bool
  moves t = not t.internal_transition && not (same_ident t.out_state.ident terminal)

module _ (x : Syntax) (c : IsEquality x.same_ident) where
  open x use {Ident, same_ident}

  -- A later adjacency has the entries and the neighbours of an earlier one.
  pub record Grows (before after : HashMap Ident (List Ident)) : Type 0 where
    pub entries :
        (s : Ident)
        → is_some (get same_ident before s) ≡ true
        → is_some (get same_ident after s) ≡ true
    pub next :
        (s n : Ident)
        → has x (neighbours x before s) n ≡ true
        → has x (neighbours x after s) n ≡ true

  Grows-refl : (a : HashMap Ident (List Ident)) → Grows a a
  Grows-refl a = record { entries = λ s h. h; next = λ s n h. h }

  Grows-trans : {a b d : HashMap Ident (List Ident)} → Grows a b → Grows b d → Grows a d
  Grows-trans f g = record {
    entries = λ s h. g.entries s (f.entries s h);
    next = λ s n h. g.next s n (f.next s n h);
  }

  list_of : Option (List Ident) → List Ident
  list_of entry = elim entry [ none ↦ [] | some states ↦ states ]

  get-push :
      (a : HashMap Ident (List Ident)) (s to k : Ident)
      → get same_ident (push x a s to) k
        ≡ (if same_ident s k then some (neighbours x a s ++ to ∷ []) else get same_ident a k)
  unfolding push
  get-push a s to k = get-insert c a s k (neighbours x a s ++ to ∷ [])

  module _ (a : HashMap Ident (List Ident)) (s to k : Ident) where
    get-push_self :
        same_ident s k ≡ true
        → get same_ident (push x a s to) k ≡ some (neighbours x a s ++ to ∷ [])
    get-push_self q = get-push a s to k ∙ if_true q _ _

    get-push_other : same_ident s k ≡ false → get same_ident (push x a s to) k ≡ get same_ident a k
    get-push_other q = get-push a s to k ∙ if_false q _ _

    neighbours-push_self :
        same_ident s k ≡ true → neighbours x (push x a s to) k ≡ neighbours x a s ++ to ∷ []
    unfolding list_of
    neighbours-push_self q = ap list_of (get-push_self q)

    neighbours-push_other :
        same_ident s k ≡ false → neighbours x (push x a s to) k ≡ neighbours x a k
    unfolding list_of
    neighbours-push_other q = ap list_of (get-push_other q)

  push-Grows : (a : HashMap Ident (List Ident)) (s to : Ident) → Grows a (push x a s to)
  push-Grows a s to = record {
    entries = λ k h. elim (Bool-cases (same_ident s k)) [
      | inl q ↦ ap is_some (get-push_self a s to k q)
      | inr q ↦ ap is_some (get-push_other a s to k q) ∙ h
    ];
    next = λ k n h. elim (Bool-cases (same_ident s k)) [
      | inl q ↦
          let here : has x (neighbours x a s) n ≡ true =
            subst (λ u. has x (neighbours x a u) n ≡ true) (sym ((c.same_iff s k).0 q)) h in
          rw (neighbours-push_self a s to k q, has-append) (ground (arith, here))
      | inr q ↦ rw (neighbours-push_other a s to k q) h
    ];
  }

  push_entry :
      (a : HashMap Ident (List Ident)) (s to : Ident)
      → is_some (get same_ident (push x a s to) s) ≡ true
  push_entry a s to = ap is_some (get-push_self a s to s (same_refl c s))

  push_next :
      (a : HashMap Ident (List Ident)) (s to : Ident)
      → has x (neighbours x (push x a s to) s) to ≡ true
  push_next a s to =
      let back = same_refl c to in
      rw (neighbours-push_self a s to s (same_refl c s), has-append) (ground (arith, back))

  or_default-none :
      (a : HashMap Ident (List Ident)) (s : Ident)
      → get same_ident a s ≡ none
      → or_default x a s ≡ insert same_ident a s []
  unfolding or_default
  or_default-none a s e = rw (e, or_default)

  or_default-some :
      (a : HashMap Ident (List Ident)) (s : Ident) (ss : List Ident)
      → get same_ident a s ≡ some ss
      → or_default x a s ≡ a
  unfolding or_default
  or_default-some a s ss e = rw (e, or_default)

  insert_empty-Grows :
      (a : HashMap Ident (List Ident)) (s : Ident)
      → get same_ident a s ≡ none
      → Grows a (insert same_ident a s [])
  unfolding list_of
  insert_empty-Grows a s e = record {
    entries = λ k h. elim (Bool-cases (same_ident s k)) [
      | inl q ↦ ap is_some (get-insert c a s k [] ∙ if_true q _ _)
      | inr q ↦ ap is_some (get-insert c a s k [] ∙ if_false q _ _) ∙ h
    ];
    next = λ k n h. elim (Bool-cases (same_ident s k)) [
      | inl q ↦
          let gone : get same_ident a k ≡ none =
            subst (λ u. get same_ident a u ≡ none) ((c.same_iff s k).0 q) e in
          let empty : neighbours x a k ≡ [] = ap list_of gone in
          absurd (ground (arith, sym (ap (λ ss. has x ss n) empty) ∙ h))
      | inr q ↦
          let same : neighbours x (insert same_ident a s []) k ≡ neighbours x a k =
            ap list_of (get-insert c a s k [] ∙ if_false q _ _) in
          ap (λ ss. has x ss n) same ∙ h
    ];
  }

  or_default-Grows : (a : HashMap Ident (List Ident)) (s : Ident) → Grows a (or_default x a s)
  or_default-Grows a s = elim (Option-cases (get same_ident a s)) [
    | inl e ↦ subst (λ b. Grows a b) (sym (or_default-none a s e)) (insert_empty-Grows a s e)
    | inr (ss, e) ↦ subst (λ b. Grows a b) (sym (or_default-some a s ss e)) (Grows-refl a)
  ]

  or_default_entry :
      (a : HashMap Ident (List Ident)) (s : Ident)
      → is_some (get same_ident (or_default x a s) s) ≡ true
  or_default_entry a s = elim (Option-cases (get same_ident a s)) [
    | inl e ↦
        ap (λ b. is_some (get same_ident b s)) (or_default-none a s e)
        ∙ ap is_some (get-insert c a s s [] ∙ if_true (same_refl c s) _ _)
    | inr (ss, e) ↦ ap (λ b. is_some (get same_ident b s)) (or_default-some a s ss e) ∙ ap is_some e
  ]

  -- The row's own entry, and its target as a neighbour of its source.
  pub record Joins (t : StateTransition x) (a : HashMap Ident (List Ident)) : Type 0 where
    pub entered : is_some (get same_ident a t.in_state.ident) ≡ true
    pub joined : moves x t ≡ true → has x (neighbours x a t.in_state.ident) t.out_state.ident ≡ true

  Joins-Grows :
      (t : StateTransition x) {a b : HashMap Ident (List Ident)} → Grows a b → Joins t a → Joins t b
  Joins-Grows t g j = record {
    entered = g.entries t.in_state.ident (j.entered);
    joined = λ m. g.next t.in_state.ident t.out_state.ident (j.joined m);
  }

  module _ (t : StateTransition x) (a : HashMap Ident (List Ident)) where
    connect_wildcard : t.in_state.wildcard ≡ true → connect x t a ≡ a
    unfolding connect
    connect_wildcard w = if_true w _ _

    connect_moving :
        t.in_state.wildcard ≡ false
        → moves x t ≡ true
        → connect x t a
          ≡ push x
              (push x (or_default x a t.in_state.ident) t.in_state.ident t.out_state.ident)
              t.out_state.ident
              t.in_state.ident
    unfolding connect
    connect_moving w m = if_false w _ _ ∙ if_true m _ _

    connect_staying :
        t.in_state.wildcard ≡ false
        → moves x t ≡ false
        → connect x t a ≡ or_default x a t.in_state.ident
    unfolding connect
    connect_staying w m = if_false w _ _ ∙ if_false m _ _

    moving-Grows :
        Grows (push x (or_default x a t.in_state.ident) t.in_state.ident t.out_state.ident) (
          push x
            (push x (or_default x a t.in_state.ident) t.in_state.ident t.out_state.ident)
            t.out_state.ident
            t.in_state.ident)
    moving-Grows = push-Grows _ t.out_state.ident t.in_state.ident

    connect-Grows : Grows a (connect x t a)
    connect-Grows = elim (Bool-cases t.in_state.wildcard) [
      | inl w ↦ subst (λ b. Grows a b) (sym (connect_wildcard w)) (Grows-refl a)
      | inr w ↦ elim (Bool-cases (moves x t)) [
        | inl m ↦
            subst (λ b. Grows a b) (sym (connect_moving w m))
              (Grows-trans
                (Grows-trans (or_default-Grows a t.in_state.ident)
                  (push-Grows _ t.in_state.ident t.out_state.ident))
                moving-Grows)
        | inr m ↦
            subst (λ b. Grows a b) (sym (connect_staying w m)) (or_default-Grows a t.in_state.ident)
      ]
    ]

    connect-Joins : t.in_state.wildcard ≡ false → Joins t (connect x t a)
    connect-Joins w = elim (Bool-cases (moves x t)) [
      | inl m ↦
          subst (λ b. Joins t b) (sym (connect_moving w m))
            (Joins-Grows t moving-Grows (record {
              entered = push_entry _ t.in_state.ident t.out_state.ident;
              joined = λ m'. push_next _ t.in_state.ident t.out_state.ident;
            }))
      | inr m ↦
          subst (λ b. Joins t b) (sym (connect_staying w m))
            (record {
              entered = or_default_entry a t.in_state.ident;
              joined = λ m'. absurd (ground (arith, m, m'));
            })
    ]

  connect_all-Grows :
      (ts : List (StateTransition x)) (a : HashMap Ident (List Ident))
      → Grows a (connect_all x ts a)
  unfolding connect_all
  connect_all-Grows [] a = Grows-refl a
  connect_all-Grows (t ∷ ts) a =
      Grows-trans (connect-Grows t a) (connect_all-Grows ts (connect x t a))

  -- Every row with a source of its own has its entry in the adjacency of the table.
  pub connect_all-Joins :
      (ts : List (StateTransition x)) (a : HashMap Ident (List Ident)) (i : ℕ)
      (t : StateTransition x)
      → get_elem? ts i ≡ some t
      → t.in_state.wildcard ≡ false
      → Joins t (connect_all x ts a)
  unfolding connect_all
  connect_all-Joins [] a i t h w = cc
  connect_all-Joins (u ∷ ts) a zero t h w =
      let same : t ≡ u = cc h in
      Joins-Grows t (connect_all-Grows ts (connect x u a))
        (subst (λ v. Joins t (connect x v a)) same (connect-Joins t a w))
  connect_all-Joins (u ∷ ts) a (suc i) t h w = connect_all-Joins ts (connect x u a) i t h w
