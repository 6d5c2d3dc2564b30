-- ===== src/Parser/Build/Rows.antt =====
-- The loops of `ParsedStateMachine::new` that add the rows to the table.
use sml_rs.Base.{
  ok_eq, err_not_ok, Bool, true, not, ◌&&◌, if◌then◌else◌, if_true, if_false, ◌≡◌, refl, sym, ◌∙◌,
  subst, inl, inr, ◌↔◌, Bool-cases, Option-cases, Option, none, some, [], ◌∷◌, ◌++◌, ok, err, arith,
}
use sml_rs.Parser.HashMap.{HashMap, IsEquality, get, insert, get-insert, contains_key, map_option}
use sml_rs.Parser.Table.{
  Syntax, EventKind, normal, same_kind, same_name, EventMapping, EventKey, same_key,
  DataDefinitions, TransitionMap,
}
use sml_rs.Parser.Names.{StateTransition}
use sml_rs.Parser.Build.{
  event_key, to_transition, is_some, add_to_events, add_transition, no_action, missing_source,
}
use sml_rs.Parser.Build.Expected.{at, found, append_row}

pub same_kind_iff : (a b : EventKind) → (same_kind a b ≡ true) ↔ (a ≡ b)
same_kind_iff normal normal = ground arith
same_kind_iff _ _ = ground arith

module _ (x : Syntax) (c : IsEquality x.same_ident) where
  open x use {Ident, same_ident}

  same_name_iff : (a b : Option Ident) → (same_name x a b ≡ true) ↔ (a ≡ b)
  same_name_iff none none = ground arith
  same_name_iff none (some b) = ground arith
  same_name_iff (some a) none = ground arith
  same_name_iff (some a) (some b) = ground (arith, c.same_iff a b)

  pub same_key-IsEquality : IsEquality (same_key x)
  unfolding same_key
  same_key-IsEquality = record {
    same_iff = λ a b. ground (arith, same_kind_iff a.kind b.kind, same_name_iff a.name b.name);
  }

  -- The mapping of an event after a row was added to it.
  abbrev with_row : StateTransition x → Option (EventMapping x) → EventMapping x
  with_row t none = record {
    in_state = t.in_state.ident;
    event = t.event.ident;
    event_kind = t.event.kind;
    event_wildcard = t.event.wildcard;
    event_external = t.event.external;
    transitions = to_transition x t ∷ [];
  }
  with_row t (some mapping) = record mapping {
    transitions = mapping.transitions ++ to_transition x t ∷ [];
  }

  add_to_events_lem :
      (t : StateTransition x) (p : HashMap (EventKey x) (EventMapping x))
      → add_to_events x t p
        ≡ insert
            (same_key x)
            p
            (event_key x t.event)
            (with_row t (get (same_key x) p (event_key x t.event)))
  unfolding add_to_events
  add_to_events_lem t p = elim (Option-cases (get (same_key x) p (event_key x t.event))) [
    | inl e ↦ rw e
    | inr (mapping, e) ↦ rw e
  ]

  with_row-transitions :
      (t : StateTransition x) (o : Option (EventMapping x))
      → (with_row t o).transitions
        ≡ append_row x (map_option (λ mapping. mapping.transitions) o) (to_transition x t)
  with_row-transitions t none = refl
  with_row-transitions t (some mapping) = refl

  at-insert :
      (p : HashMap (EventKey x) (EventMapping x)) (j k : EventKey x) (v : EventMapping x)
      → at x (insert (same_key x) p j v) k
        ≡ (if same_key x j k then some v.transitions else at x p k)
  at-insert p j k v = elim (Bool-cases (same_key x j k)) [
    | inl e ↦ rw (get-insert same_key-IsEquality, e)
    | inr e ↦ rw (get-insert same_key-IsEquality, e)
  ]

  add_to_events-at :
      (t : StateTransition x) (p : HashMap (EventKey x) (EventMapping x)) (k : EventKey x)
      → at x (add_to_events x t p) k ≡ (
          if same_key x (event_key x t.event) k
          then some (append_row x (at x p k) (to_transition x t))
          else at x p k)
  add_to_events-at t p k =
      rw (add_to_events_lem, at-insert, with_row-transitions)
        (elim (Bool-cases (same_key x (event_key x t.event) k)) [
          | inl e ↦
              let same : event_key x t.event ≡ k =
                (same_key-IsEquality.same_iff (event_key x t.event) k).0 e in
              rw (e, same)
          | inr e ↦ rw e
        ])

  -- What a successful `add_transition` did.
  pub add_transition-ok :
      (t : StateTransition x) (d : DataDefinitions x) (m m' : TransitionMap x)
      → add_transition x t d m ≡ ok m'
      → (p : HashMap (EventKey x) (EventMapping x)) × (get same_ident m t.in_state.ident ≡ some p)
        × (m' ≡ insert same_ident m t.in_state.ident (add_to_events x t p))
  unfolding add_transition
  add_transition-ok t d m m' h = elim (Option-cases (get same_ident m t.in_state.ident)) [
    | inl e ↦
        let made : add_transition x t d m ≡ err (missing_source t.in_state.ident) =
          rw (e, add_transition) in
        absurd (err_not_ok (sym made ∙ h))
    | inr (p, e) ↦
        let opened : add_transition x t d m ≡ (
            if lacks_action
            then err (no_action t.out_state.ident)
            else ok (insert same_ident m t.in_state.ident (add_to_events x t p))) =
          rw (e, add_transition) in
        elim (Bool-cases lacks_action) [
          | inl b ↦ absurd (err_not_ok (sym (opened ∙ if_true b _ _) ∙ h))
          | inr b ↦ (p, e, ok_eq (sym h ∙ opened ∙ if_false b _ _))
        ]
  ]
    where
      lacks_action : Bool
      lacks_action =
          contains_key same_ident d.data_types t.out_state.ident
          && not (is_some x t.action)
          && not (is_some x t.out_state.composite)

  -- What the table holds after a successful `add_transition`.
  pub add_transition-found :
      (t : StateTransition x) (d : DataDefinitions x) (m m' : TransitionMap x) (s : Ident)
      (k : EventKey x)
      → add_transition x t d m ≡ ok m'
      → found x m' s k ≡ (
          if same_ident t.in_state.ident s && same_key x (event_key x t.event) k
          then some (append_row x (found x m s k) (to_transition x t))
          else found x m s k)
  add_transition-found t d m m' s k h =
      let (p, e, made) = add_transition-ok t d m m' h in
      rw (made, get-insert c)
        (elim (Bool-cases (same_ident t.in_state.ident s)) [
          | inl b ↦
              let same : t.in_state.ident ≡ s = (c.same_iff t.in_state.ident s).0 b in
              let here : get same_ident m s ≡ some p =
                subst (λ i. get same_ident m i ≡ some p) same e in
              rw (b, here) (add_to_events-at t p k)
          | inr b ↦ rw b
        ])
