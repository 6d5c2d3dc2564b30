-- ===== src/Parser/Names/Distinct.antt =====
-- What the accepted names of macros/src/parser/mod.rs have in common.
use sml_rs.Base.{
  ok_eq, err_not_ok, bind_ok, Bool, true, false, not, ◌&&◌, if_true, if_false, ◌≡◌, refl, sym, ap,
  ◌∙◌, subst, ◌⊎◌, inl, inr, Bool-cases, Option-cases, none, some, List, [], ◌∷◌, Result, ok, err,
  ◌>>=◌, arith,
}
use sml_rs.Parser.Table.{Syntax}
use sml_rs.Parser.HashMap.{HashMap, get}
use sml_rs.Parser.Names.{
  StateTransition, Collision, collides, is_normal, record_name, record_if, record_transition,
  record_transitions, validate_machine_names,
}

-- The comparisons of identifiers and of texts answer whether they are equal.
pub record Compares (x : Syntax) : Type 0 where
  pub ident_eq : (a b : x.Ident) → x.same_ident a b ≡ true → a ≡ b
  pub ident_refl : (a : x.Ident) → x.same_ident a a ≡ true
  pub text_eq : (s t : x.Text) → x.same_text s t ≡ true → s ≡ t

module _ (x : Syntax) (c : Compares x) where
  open x use {Ident, Text, same_ident, same_text}

  -- Every entry that `m` has, `m'` has too.
  abbrev Extends : HashMap Ident Text → HashMap Ident Text → Type 0
  Extends m m' = (k : Ident) (s : Text) → get same_ident m k ≡ some s → get same_ident m' k ≡ some s

  insert-Extends :
      (m : HashMap Ident Text) (ident : Ident) (source : Text)
      → get same_ident m ident ≡ none
      → Extends m ((ident, source) ∷ m)
  unfolding get
  insert-Extends m ident source fresh k s h = elim (Bool-cases (same_ident ident k)) [
    | inl e ↦
        let same : ident ≡ k = c.ident_eq ident k e in
        let absent : get same_ident m k ≡ none =
          subst (λ j. get same_ident m j ≡ none) same fresh in
        absurd (ground (arith, absent, h))
    | inr e ↦ if_false e _ _ ∙ h
  ]

  get-insert :
      (m : HashMap Ident Text) (ident : Ident) (source : Text)
      → get same_ident ((ident, source) ∷ m) ident ≡ some source
  unfolding get
  get-insert m ident source = if_true (c.ident_refl ident) _ _

  -- A name that is recorded is in the map as it was written, and none is forgotten.
  record_name-keeps :
      (m m' : HashMap Ident Text) (ident : Ident) (source : Text)
      → record_name x m ident source ≡ ok m'
      → (get same_ident m' ident ≡ some source) × Extends m m'
  unfolding record_name
  record_name-keeps m m' ident source h = elim (Option-cases (get same_ident m ident)) [
    | inl fresh ↦
        let made : record_name x m ident source ≡ ok ((ident, source) ∷ m) =
          rw (fresh, record_name) in
        let same : (ident, source) ∷ m ≡ m' = ok_eq (sym made ∙ h) in
        subst (λ u. (get same_ident u ident ≡ some source) × Extends m u) same
          (get-insert m ident source, insert-Extends m ident source fresh)
    | inr (previous, known) ↦ elim (Bool-cases (same_text previous source)) [
      | inl e ↦
          let made : record_name x m ident source ≡ ok m = rw (known, record_name, e) in
          let same : m ≡ m' = ok_eq (sym made ∙ h) in
          subst (λ u. (get same_ident u ident ≡ some source) × Extends m u) same
            (known ∙ ap some (c.text_eq previous source e), λ k s g. g)
      | inr e ↦
          let made : record_name x m ident source ≡ err (collides ident source previous) =
            rw (known, record_name, e) in
          absurd (err_not_ok (sym made ∙ h))
    ]
  ]

  if_recorded :
      (b : Bool) (m m' : HashMap Ident Text) (ident : Ident) (source : Text)
      → record_if x (not b) m ident source ≡ ok m'
      → Extends m m' × ((b ≡ true) ⊎ (get same_ident m' ident ≡ some source))
  unfolding record_if
  if_recorded false m m' ident source h =
      let (g, e) = record_name-keeps m m' ident source h in (e, inr g)
  if_recorded true m m' ident source h = (subst (λ u. Extends m u) (ok_eq h) (λ k s g. g), inl refl)

  -- What one transition leaves in the map of the states.
  record Recorded (t : StateTransition x) (m m' : HashMap Ident Text) : Type 0 where
    extends : Extends m m'
    in_state :
        (t.in_state.wildcard ≡ true) ⊎ (get same_ident m' t.in_state.ident ≡ some t.in_state.source)
    out_state :
        (t.out_state.internal_transition ≡ true)
        ⊎ (get same_ident m' t.out_state.ident ≡ some t.out_state.source)

  record_transition-Recorded :
      (t : StateTransition x) (m e m' e' : HashMap Ident Text)
      → record_transition x t (m, e) ≡ ok (m', e')
      → Recorded t m m'
  unfolding record_transition
  record_transition-Recorded t m e m' e' h =
      let last_names : HashMap Ident Text → Result (HashMap Ident Text) (Collision x) = λ b.
        record_if x (not t.event.wildcard && is_normal x t.event.kind) e t.event.ident
          t.event.source in
      let out_names : HashMap Ident Text → Result (HashMap Ident Text) (Collision x) = λ a.
        record_if x (not t.out_state.internal_transition) a t.out_state.ident t.out_state.source in
      let (m1, h1, k1) =
        bind_ok (record_if x (not t.in_state.wildcard) m t.in_state.ident t.in_state.source)
          (λ a. out_names a >>= λ b. last_names b >>= λ f. ok (b, f)) h in
      let (m2, h2, k2) = bind_ok (out_names m1) (λ b. last_names b >>= λ f. ok (b, f)) k1 in
      let (e2, h3, k3) = bind_ok (last_names m2) (λ f. ok (m2, f)) k2 in
      let same : m2 ≡ m' = ap (λ p. p.0) (ok_eq k3) in
      let (grow1, in1) =
        if_recorded t.in_state.wildcard m m1 t.in_state.ident t.in_state.source h1 in
      let (grow2, out2) =
        if_recorded t.out_state.internal_transition m1 m2 t.out_state.ident t.out_state.source h2 in
      subst (λ u. Recorded t m u) same
        (record {
          extends = λ k s g. grow2 k s (grow1 k s g);
          in_state = elim in1 [ inl w ↦ inl w | inr g ↦ inr (grow2 _ _ g) ];
          out_state = out2;
        })

  run-Extends :
      (ts : List (StateTransition x)) (m e m' e' : HashMap Ident Text)
      → record_transitions x ts (m, e) ≡ ok (m', e')
      → Extends m m'
  unfolding record_transitions
  run-Extends [] m e m' e' h = subst (λ u. Extends m u) (ap (λ p. p.0) (ok_eq h)) (λ k s g. g)
  run-Extends (t ∷ ts) m e m' e' h =
      let ((m1, e1), h1, k1) =
        bind_ok (record_transition x t (m, e)) (λ names. record_transitions x ts names) h in
      let rest : Extends m1 m' = run-Extends ts m1 e1 m' e' k1 in
      let first = record_transition-Recorded t m e m1 e1 h1 in
      λ k s g. rest k s (first.extends k s g)

-- Some transition of the list names a state: its source, or its target.
pub data NamesState (x : Syntax) : List (StateTransition x) → x.Ident → x.Text → Type 0 where
  as_source :
      (t : StateTransition x) (ts : List (StateTransition x))
      → t.in_state.wildcard ≡ false
      → NamesState x (t ∷ ts) t.in_state.ident t.in_state.source
  as_target :
      (t : StateTransition x) (ts : List (StateTransition x))
      → t.out_state.internal_transition ≡ false
      → NamesState x (t ∷ ts) t.out_state.ident t.out_state.source
  further :
      (t : StateTransition x) {ts : List (StateTransition x)} {i : x.Ident} {s : x.Text}
      → NamesState x ts i s
      → NamesState x (t ∷ ts) i s

module _ (x : Syntax) (c : Compares x) where
  open x use {Ident, Text, same_ident}

  first_named :
      {t : StateTransition x} {ts : List (StateTransition x)} {m m1 : HashMap Ident Text}
      {i : Ident} {s : Text}
      → Recorded x c t m m1
      → NamesState x (t ∷ ts) i s
      → (get same_ident m1 i ≡ some s) ⊎ NamesState x ts i s
  first_named r (as_source t ts w) = elim r.in_state [
    | inl b ↦ absurd (ground (arith, w, b))
    | inr g ↦ inl g
  ]
  first_named r (as_target t ts w) = elim r.out_state [
    | inl b ↦ absurd (ground (arith, w, b))
    | inr g ↦ inl g
  ]
  first_named r (further t n) = inr n

  named_recorded :
      (ts : List (StateTransition x)) (m e m' e' : HashMap Ident Text) {i : Ident} {s : Text}
      → record_transitions x ts (m, e) ≡ ok (m', e')
      → NamesState x ts i s
      → get same_ident m' i ≡ some s
  unfolding record_transitions
  named_recorded [] m e m' e' h n = elim n [ ]
  named_recorded (t ∷ ts) m e m' e' h n =
      let ((m1, e1), h1, k1) =
        bind_ok (record_transition x t (m, e)) (λ names. record_transitions x ts names) h in
      elim (first_named (record_transition-Recorded x c t m e m1 e1 h1) n) [
        | inl g ↦ run-Extends x c ts m1 e1 m' e' k1 _ _ g
        | inr n' ↦ named_recorded ts m1 e1 m' e' k1 n'
      ]

  -- Where the names of a machine are accepted, two mentions of one state were written in the same
  -- way: no two state names of the source fall together into one generated identifier.
  pub state_names_distinct :
      (ts : List (StateTransition x)) (i : Ident) (s u : Text)
      → validate_machine_names x ts ≡ ok tt
      → NamesState x ts i s
      → NamesState x ts i u
      → s ≡ u
  unfolding validate_machine_names
  state_names_distinct ts i s u h n k =
      let ((m, e), run, done) = bind_ok (record_transitions x ts ([], [])) (λ names. ok tt) h in
      let first : get same_ident m i ≡ some s = named_recorded ts [] [] m e run n in
      let second : get same_ident m i ≡ some u = named_recorded ts [] [] m e run k in cc
