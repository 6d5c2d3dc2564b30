-- ===== src/Parser/Build/Wildcard.antt =====
-- The loop of `ParsedStateMachine::new` that adds a wildcard row to every state.
use sml_rs.Base.{
  ok_eq, err_not_ok, bind_ok, Bool, true, false, ◌&&◌, ◌||◌, if◌then◌else◌, ◌≡◌, refl, sym, ap, ◌∙◌,
  subst, inl, inr, Bool-cases, Option-cases, Option, none, some, List, [], ◌∷◌, ok, err, ◌>>=◌,
  arith,
}
use sml_rs.Parser.HashMap.{HashMap, IsEquality, get, contains_key}
use sml_rs.Parser.Table.{
  Syntax, Transition, EventMapping, EventKey, same_key, DataDefinitions, TransitionMap,
}
use sml_rs.Parser.Names.{StateTransition}
use sml_rs.Parser.Build.{
  event_key, to_transition, add_transition, expand_row, expand_wildcard, missing_wildcard_source,
}
use sml_rs.Parser.Build.Expected.{at, found, append_row, or_row, has_state, for_state}
use sml_rs.Parser.Build.Rows.{same_key-IsEquality, add_transition-found}

module _ (x : Syntax) (c : IsEquality x.same_ident) where
  open x use {Ident, same_ident}

  to_transition-expand_row :
      (t : StateTransition x) (d : DataDefinitions x) (name s : Ident)
      → to_transition x (expand_row x t d name s) ≡ for_state x t s
  unfolding to_transition expand_row
  to_transition-expand_row t d name s = elim (Bool-cases t.out_state.internal_transition) [
    | inl b ↦ rw b
    | inr b ↦ rw b
  ]

  -- The two ways in which one state of the list is passed.
  skip_state :
      (a h k : Bool) (f : Option (List (Transition x))) (row : Transition x)
      → (a ≡ true → k ≡ true → (rows : List (Transition x)) × (f ≡ some rows))
      → (if h && k then some (or_row x f row) else f)
        ≡ (if (a || h) && k then some (or_row x f row) else f)
  skip_state true true k f row filled = refl
  skip_state true false true f row filled = let (rows, e) = filled refl refl in rw e
  skip_state true false false f row filled = refl
  skip_state false h k f row filled = refl

  new_state :
      (a h k : Bool) (f g : Option (List (Transition x))) (row : Transition x)
      → g ≡ (if a && k then some (append_row x f row) else f)
      → (a ≡ true → k ≡ true → f ≡ none)
      → (if h && k then some (or_row x g row) else g)
        ≡ (if (a || h) && k then some (or_row x f row) else f)
  new_state true true true f g row e new = rw (e, new refl refl)
  new_state true false true f g row e new = rw (e, new refl refl)
  new_state true true false f g row e new = e
  new_state true false false f g row e new = e
  new_state false h k f g row e new = rw e

  module _ (t : StateTransition x) (d : DataDefinitions x) where
    expand_end :
        (added : Bool) (m : TransitionMap x) → expand_wildcard x t d [] added m ≡ ok (added, m)
    unfolding expand_wildcard
    expand_end added m = refl

    expand_missing :
        (name i : Ident) (states : HashMap Ident Ident) (added : Bool) (m : TransitionMap x)
        → get same_ident m i ≡ none
        → expand_wildcard x t d ((name, i) ∷ states) added m ≡ err (missing_wildcard_source i)
    unfolding expand_wildcard
    expand_missing name i states added m e = rw (e, expand_wildcard)

    expand_skip :
        (name i : Ident) (states : HashMap Ident Ident) (added : Bool) (m : TransitionMap x)
        (p : HashMap (EventKey x) (EventMapping x))
        → get same_ident m i ≡ some p
        → contains_key (same_key x) p (event_key x t.event) ≡ true
        → expand_wildcard x t d ((name, i) ∷ states) added m ≡ expand_wildcard x t d states added m
    unfolding expand_wildcard
    expand_skip name i states added m p e b = rw (e, expand_wildcard, b)

    expand_new :
        (name i : Ident) (states : HashMap Ident Ident) (added : Bool) (m : TransitionMap x)
        (p : HashMap (EventKey x) (EventMapping x))
        → get same_ident m i ≡ some p
        → contains_key (same_key x) p (event_key x t.event) ≡ false
        → expand_wildcard x t d ((name, i) ∷ states) added m
          ≡ (add_transition x (expand_row x t d name i) d m >>= expand_wildcard x t d states true)
    unfolding expand_wildcard
    expand_new name i states added m p e b = rw (e, expand_wildcard, b)

    held :
        (p : HashMap (EventKey x) (EventMapping x)) (k : EventKey x)
        → contains_key (same_key x) p k ≡ true
        → (rows : List (Transition x)) × (at x p k ≡ some rows)
    unfolding contains_key
    held p k h = elim (Option-cases (get (same_key x) p k)) [
      | inl e ↦ absurd (ground (arith, e, h))
      | inr (mapping, e) ↦ (mapping.transitions, rw e)
    ]

    not_held :
        (p : HashMap (EventKey x) (EventMapping x)) (k : EventKey x)
        → contains_key (same_key x) p k ≡ false
        → at x p k ≡ none
    unfolding contains_key
    not_held p k h = elim (Option-cases (get (same_key x) p k)) [
      | inl e ↦ rw e
      | inr (mapping, e) ↦ absurd (ground (arith, e, h))
    ]

    present :
        (m : TransitionMap x) (p : HashMap (EventKey x) (EventMapping x)) (i s : Ident)
        (k : EventKey x)
        → get same_ident m i ≡ some p
        → contains_key (same_key x) p (event_key x t.event) ≡ true
        → same_ident i s ≡ true
        → same_key x (event_key x t.event) k ≡ true
        → (rows : List (Transition x)) × (found x m s k ≡ some rows)
    present m p i s k e b a q =
        let same_state : i ≡ s = (c.same_iff i s).0 a in
        let same_event : event_key x t.event ≡ k = ((same_key-IsEquality x c).same_iff _ k).0 q in
        let (rows, filled) = held p (event_key x t.event) b in
        let there : get same_ident m s ≡ some p =
          subst (λ j. get same_ident m j ≡ some p) same_state e in
        let full : at x p k ≡ some rows = subst (λ j. at x p j ≡ some rows) same_event filled in
        (rows, rw (there, full))

    absent :
        (m : TransitionMap x) (p : HashMap (EventKey x) (EventMapping x)) (i s : Ident)
        (k : EventKey x)
        → get same_ident m i ≡ some p
        → contains_key (same_key x) p (event_key x t.event) ≡ false
        → same_ident i s ≡ true
        → same_key x (event_key x t.event) k ≡ true
        → found x m s k ≡ none
    absent m p i s k e b a q =
        let same_state : i ≡ s = (c.same_iff i s).0 a in
        let same_event : event_key x t.event ≡ k = ((same_key-IsEquality x c).same_iff _ k).0 q in
        let there : get same_ident m s ≡ some p =
          subst (λ j. get same_ident m j ≡ some p) same_state e in
        let none_there : at x p k ≡ none =
          subst (λ j. at x p j ≡ none) same_event (not_held p (event_key x t.event) b) in
        rw (there, none_there)

    added_row :
        (name i : Ident) (m m1 : TransitionMap x) (s : Ident) (k : EventKey x)
        → add_transition x (expand_row x t d name i) d m ≡ ok m1
        → found x m1 s k ≡ (
            if same_ident i s && same_key x (event_key x t.event) k
            then some (append_row x (found x m s k) (for_state x t s))
            else found x m s k)
    added_row name i m m1 s k h =
        let first : found x m1 s k ≡ (
            if same_ident i s && same_key x (event_key x t.event) k
            then some (append_row x (found x m s k) (to_transition x (expand_row x t d name i)))
            else found x m s k) =
          unfold expand_row in add_transition-found x c (expand_row x t d name i) d m m1 s k h in
        elim (Bool-cases (same_ident i s)) [
          | inl a ↦
              let same_state : i ≡ s = (c.same_iff i s).0 a in
              first ∙ rw (to_transition-expand_row, same_state)
          | inr a ↦ first ∙ rw a
        ]

    -- The rows that a wildcard row leaves, state by state.
    pub expand_wildcard-found :
        (states : HashMap Ident Ident) (added added' : Bool) (m m' : TransitionMap x) (s : Ident)
        (k : EventKey x)
        → expand_wildcard x t d states added m ≡ ok (added', m')
        → found x m' s k ≡ (
            if has_state x states s && same_key x (event_key x t.event) k
            then some (or_row x (found x m s k) (for_state x t s))
            else found x m s k)
    expand_wildcard-found [] added added' m m' s k h =
        let same : m ≡ m' = ap (λ p. p.1) (ok_eq (sym (expand_end added m) ∙ h)) in
        subst (λ u. found x u s k ≡ found x m s k) same refl
    expand_wildcard-found ((name, i) ∷ states) added added' m m' s k h =
        elim (Option-cases (get same_ident m i)) [
          | inl e ↦ absurd (err_not_ok (sym (expand_missing name i states added m e) ∙ h))
          | inr (p, e) ↦ elim (Bool-cases (contains_key (same_key x) p (event_key x t.event))) [
            | inl b ↦
                let rest = sym (expand_skip name i states added m p e b) ∙ h in
                expand_wildcard-found states added added' m m' s k rest
                ∙ skip_state (same_ident i s) (has_state x states s)
                    (same_key x (event_key x t.event) k) (found x m s k) (for_state x t s)
                    (λ a q. present m p i s k e b a q)
            | inr b ↦
                let (m1, h1, h2) =
                  bind_ok (add_transition x (expand_row x t d name i) d m)
                    (expand_wildcard x t d states true)
                    (sym (expand_new name i states added m p e b) ∙ h) in
                expand_wildcard-found states true added' m1 m' s k h2
                ∙ new_state (same_ident i s) (has_state x states s)
                    (same_key x (event_key x t.event) k) (found x m s k) (found x m1 s k)
                    (for_state x t s) (added_row name i m m1 s k h1)
                    (λ a q. absent m p i s k e b a q)
          ]
        ]
