-- ===== src/Validation/Reachable.antt =====
-- `validate_unreachable_transitions` of macros/src/validation.rs: which tables it accepts.
use sml_rs.Base.{
  false, ltb, if◌then◌else◌, if_true, if_false, ◌≡◌, ◌↔◌, refl, sym, ◌∙◌, subst, inl, inr, none,
  some, Option-cases, Bool-cases, List, [], ◌∷◌, length, Result, ok, err, ◌>>=◌, arith,
}
use sml_rs.Parser.Guard.{GuardExpression}
use sml_rs.Parser.Table.{
  TransitionMap, EventKey, Syntax, Transition, EventMapping, ParsedStateMachine,
}
use sml_rs.Parser.HashMap.{HashMap}
use sml_rs.Validation.{
  ValidationError, unreachable_from, unreachable_in_state, unreachable_in,
  validate_unreachable_transitions,
}

-- A property of every element of a list.
pub data Each {A : Type 0} (P : A → Type 0) : List A → Type 0 where
  empty : Each P []
  both : {a : A} {rest : List A} → P a → Each P rest → Each P (a ∷ rest)

bind_ok :
    {E : Type 0} (r k : Result (Unit {0}) E) → (r >>= λ _. k) ≡ ok tt → (r ≡ ok tt) × (k ≡ ok tt)
bind_ok (ok u) k h = (refl, h)
bind_ok (err e) k h = absurd (ground arith)

module _ (x : Syntax) where
  open x use {Ident}

  -- Every transition but the last has a guard.
  pub data OnlyLastOpen : List (Transition x) → Type 0 where
    nothing : OnlyLastOpen []
    last : (t : Transition x) → OnlyLastOpen (t ∷ [])
    guarded :
        {t : Transition x} {ts : List (Transition x)} {g : GuardExpression Ident}
        → t.guard ≡ some g
        → OnlyLastOpen ts
        → OnlyLastOpen (t ∷ ts)

  abbrev pub MappingReachable : EventKey x × EventMapping x → Type 0
  MappingReachable (event, mapping) = OnlyLastOpen mapping.transitions

  abbrev pub StateReachable : Ident × HashMap (EventKey x) (EventMapping x) → Type 0
  StateReachable (state, mappings) = Each MappingReachable mappings

  -- After an unguarded transition nothing may follow.
  after_open :
      (s : Ident) (e : EventKey x) (ts : List (Transition x))
      → unreachable_from x s e 1 ts ≡ ok tt
      → ts ≡ []
  unfolding unreachable_from
  after_open s e [] h = refl
  after_open s e (t ∷ ts) h = elim (Option-cases t.guard) [
    | inl o ↦ absurd (ground (arith, o, h))
    | inr (g, o) ↦ absurd (ground (arith, o, h))
  ]

  from_open :
      (s : Ident) (e : EventKey x) (t : Transition x) (ts : List (Transition x))
      → t.guard ≡ none
      → unreachable_from x s e 0 (t ∷ ts) ≡ unreachable_from x s e 1 ts
  unfolding unreachable_from
  from_open s e t ts o = rw o

  from_guarded :
      (s : Ident) (e : EventKey x) (t : Transition x) (ts : List (Transition x))
      {g : GuardExpression Ident}
      → t.guard ≡ some g
      → unreachable_from x s e 0 (t ∷ ts) ≡ unreachable_from x s e 0 ts
  unfolding unreachable_from
  from_guarded s e t ts o = rw o

  accepted-OnlyLastOpen :
      (s : Ident) (e : EventKey x) (ts : List (Transition x))
      → unreachable_from x s e 0 ts ≡ ok tt
      → OnlyLastOpen ts
  accepted-OnlyLastOpen s e [] h = nothing
  accepted-OnlyLastOpen s e (t ∷ ts) h = elim (Option-cases t.guard) [
    | inl o ↦
        subst (λ us. OnlyLastOpen (t ∷ us))
          (sym (after_open s e ts (sym (from_open s e t ts o) ∙ h))) (last t)
    | inr (g, o) ↦ guarded o (accepted-OnlyLastOpen s e ts (sym (from_guarded s e t ts o) ∙ h))
  ]

  OnlyLastOpen-accepted :
      (s : Ident) (e : EventKey x) {ts : List (Transition x)}
      → OnlyLastOpen ts
      → unreachable_from x s e 0 ts ≡ ok tt
  unfolding unreachable_from
  OnlyLastOpen-accepted s e nothing = refl
  OnlyLastOpen-accepted s e (last t) = elim (Option-cases t.guard) [
    | inl o ↦ rw o
    | inr (g, o) ↦ rw o
  ]
  OnlyLastOpen-accepted s e (guarded {t = t} {ts = ts} o r) =
      from_guarded s e t ts o ∙ OnlyLastOpen-accepted s e r

  -- The check of one mapping; a single transition is not looked at.
  abbrev check : Ident → EventKey x × EventMapping x → Result (Unit {0}) (ValidationError x)
  check s (e, m) =
      if ltb 1 (length m.transitions) then unreachable_from x s e 0 m.transitions else ok tt

  short-OnlyLastOpen : (ts : List (Transition x)) → ltb 1 (length ts) ≡ false → OnlyLastOpen ts
  short-OnlyLastOpen [] h = nothing
  short-OnlyLastOpen (t ∷ []) h = last t
  short-OnlyLastOpen (t ∷ u ∷ ts) h = absurd (ground (arith, h))

  check-MappingReachable :
      (s : Ident) (m : EventKey x × EventMapping x) → check s m ≡ ok tt → MappingReachable m
  check-MappingReachable s (e, m) h = elim (Bool-cases (ltb 1 (length m.transitions))) [
    | inl b ↦ accepted-OnlyLastOpen s e m.transitions (sym (if_true b _ _) ∙ h)
    | inr b ↦ short-OnlyLastOpen m.transitions b
  ]

  MappingReachable-check :
      (s : Ident) (m : EventKey x × EventMapping x) → MappingReachable m → check s m ≡ ok tt
  MappingReachable-check s (e, m) r = elim (Bool-cases (ltb 1 (length m.transitions))) [
    | inl b ↦ if_true b _ _ ∙ OnlyLastOpen-accepted s e r
    | inr b ↦ if_false b _ _
  ]

  in_state_sound :
      (s : Ident) (ms : HashMap (EventKey x) (EventMapping x))
      → unreachable_in_state x s ms ≡ ok tt
      → Each MappingReachable ms
  unfolding unreachable_in_state
  in_state_sound s [] h = empty
  in_state_sound s (m ∷ ms) h =
      let (here_ok, rest_ok) = bind_ok (check s m) (unreachable_in_state x s ms) h in
      both (check-MappingReachable s m here_ok) (in_state_sound s ms rest_ok)

  in_state_complete :
      (s : Ident) {ms : HashMap (EventKey x) (EventMapping x)}
      → Each MappingReachable ms
      → unreachable_in_state x s ms ≡ ok tt
  unfolding unreachable_in_state
  in_state_complete s empty = refl
  in_state_complete s (both {a = m} {rest = ms} r rs) =
      rw (MappingReachable-check s m r) (in_state_complete s rs)

  sound : (states : TransitionMap x) → unreachable_in x states ≡ ok tt → Each StateReachable states
  unfolding unreachable_in
  sound [] h = empty
  sound ((s, ms) ∷ states) h =
      let (here_ok, rest_ok) = bind_ok (unreachable_in_state x s ms) (unreachable_in x states) h in
      both (in_state_sound s ms here_ok) (sound states rest_ok)

  complete :
      {states : TransitionMap x} → Each StateReachable states → unreachable_in x states ≡ ok tt
  unfolding unreachable_in
  complete empty = refl
  complete (both {a = state} {rest = states} r rs) = rw (in_state_complete state.0 r) (complete rs)

  -- The check accepts a table exactly when, for every state and event, each transition but the last
  -- one has a guard, so that every transition can be reached; the order in which the maps are
  -- iterated makes no difference to that.
  pub validate_unreachable_transitions_iff :
      (sm : ParsedStateMachine x)
      → (validate_unreachable_transitions x sm ≡ ok tt)
        ↔ Each StateReachable sm.states_events_mapping
  unfolding validate_unreachable_transitions
  validate_unreachable_transitions_iff sm = (sound sm.states_events_mapping, complete)
