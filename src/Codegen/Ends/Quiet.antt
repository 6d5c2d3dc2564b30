-- ===== src/Codegen/Ends/Quiet.antt =====
-- What a table without queue actions allows its rows, and what the arm for a completion is.
use sml_rs.Base.{
  ◌≡◌, refl, Bool, true, false, not, ◌&&◌, ◌||◌, if◌then◌else◌, Bool-cases, ◌⊎◌, subst, inl, inr,
  Option, none, some, List, [], ◌∷◌, arith,
}
use mathlib.Core.List.{Memᴰ}
use sml_rs.Parser.HashMap.{HashMap, get}
use sml_rs.Parser.Table.{
  Syntax, completion, same_kind, EventKey, EventMapping, Transition, ParsedStateMachine,
}
use sml_rs.Codegen.Arms.{
  any, is_nil, Mappings, any_mapping, mappings_of, has_deferred_events, has_queue_actions,
  find_mapping, last_mapping, completion_arm,
}
use sml_rs.Codegen.Invariant.Row.{IsMapping, IsRow}

any-false :
    {A : Type 0} (test : A → Bool) (l : List A) (a : A)
    → any test l ≡ false
    → Memᴰ a l
    → test a ≡ false
any-false test [] a h m = elim m [ ]
any-false test (b ∷ l) a h (Memᴰ.head e) = elim (Bool-cases (test b)) [
  | inl yes_ ↦ cc (rw yes_ at h)
  | inr no_ ↦ rw e no_
]
any-false test (b ∷ l) a h (Memᴰ.tail m) = elim (Bool-cases (test b)) [
  | inl yes_ ↦ cc (rw yes_ at h)
  | inr no_ ↦ any-false test l a (rw no_ at h) m
]

not_member : {A : Type 0} {a : A} → Memᴰ a [] → ⊥
not_member h = elim h [ ]

or-false : (a b : Bool) → (a || b) ≡ false → (a ≡ false) × (b ≡ false)
or-false a b h = ground arith

module _ (x : Syntax) where
  open x use {Ident, same_ident}

  -- The rows of a state are those of an entry of the table.
  entry_of :
      (m : HashMap Ident (Mappings x)) (s : Ident)
      → (elim (get same_ident m s) [ none ↦ [] | some mappings ↦ mappings ] ≡ [])
        ⊎ ((j : Ident) × Memᴰ
              (j, elim (get same_ident m s) [ none ↦ [] | some mappings ↦ mappings ])
              m)
  unfolding get
  entry_of [] s = inl refl
  entry_of ((j, mappings) ∷ m) s = chosen (same_ident j s) (entry_of m s)
    where
      chosen :
          (b : Bool)
          → ((elim (get same_ident m s) [ none ↦ [] | some l ↦ l ] ≡ [])
              ⊎ ((i : Ident) × Memᴰ (i, elim (get same_ident m s) [ none ↦ [] | some l ↦ l ]) m))
          → (elim (if b then some mappings else get same_ident m s) [ none ↦ [] | some l ↦ l ] ≡ [])
            ⊎ ((i : Ident) × Memᴰ
                  (
                    i,
                    elim (if b then some mappings else get same_ident m s) [
                      | none ↦ []
                      | some l ↦ l
                    ],
                  )
                  ((j, mappings) ∷ m))
      chosen true h = inr (j, Memᴰ.head refl)
      chosen false (inl e) = inl e
      chosen false (inr (i, h)) = inr (i, Memᴰ.tail h)

  any_mapping-false :
      (test : EventMapping x → Bool) (sm : ParsedStateMachine x) (s : Ident) (m : EventMapping x)
      → any_mapping x test sm ≡ false
      → IsMapping sm s m
      → test m ≡ false
  any_mapping-false test sm s m h (k, member) = elim (entry_of sm.states_events_mapping s) [
    | inl nothing ↦ absurd (not_member (subst (λ l. Memᴰ (k, m) l) nothing member))
    | inr (j, here) ↦
        any-false (λ (e : EventKey x × EventMapping x). test e.1) (mappings_of x sm s) (k, m)
          (any-false
            (λ (row : Ident × Mappings x).
              any (λ (e : EventKey x × EventMapping x). test e.1) row.1)
            sm.states_events_mapping (j, mappings_of x sm s) h here)
          member
  ]

  module _ (sm : ParsedStateMachine x) (quiet : has_queue_actions x sm ≡ false) where
    pub no_deferred : has_deferred_events x sm ≡ false
    unfolding has_queue_actions
    no_deferred = (or-false (has_deferred_events x sm) _ quiet).0

    pub row_defer : (s : Ident) (t : Transition x) → IsRow sm s t → t.defer ≡ false
    unfolding has_deferred_events
    row_defer s t (m, found, member) =
        any-false (λ (r : Transition x). r.defer) m.transitions t
          (any_mapping-false (λ n. any (λ (r : Transition x). r.defer) n.transitions) sm s m
            no_deferred found)
          member

    pub row_process : (s : Ident) (t : Transition x) → IsRow sm s t → t.process_events ≡ []
    unfolding has_queue_actions
    row_process s t (m, found, member) = empty t.process_events (
        any-false (λ (r : Transition x). not (is_nil r.process_events)) m.transitions t
          (any_mapping-false
            (λ n. any (λ (r : Transition x). not (is_nil r.process_events)) n.transitions) sm s m
            (or-false (has_deferred_events x sm) _ quiet).1 found)
          member)
      where
        empty : {A : Type 0} (l : List A) → not (is_nil l) ≡ false → l ≡ []
        empty [] h = refl
        empty (a ∷ l) h = cc

  -- What a test accepts.
  abbrev pub IsCompletion : Option (EventMapping x) → Type 0
  IsCompletion none = Unit
  IsCompletion (some m) = same_kind m.event_kind completion ≡ true

  module _ (test : EventMapping x → Bool)
      (accepts : (m : EventMapping x)
        → test m ≡ true
        → same_kind m.event_kind completion ≡ true) where
    accepted :
        (m : EventMapping x) (o : Option (EventMapping x))
        → IsCompletion o
        → IsCompletion (if test m then some m else o)
    accepted m o h = elim (Bool-cases (test m)) [ inl e ↦ rw e (accepts m e) | inr e ↦ rw e h ]

    find_completion : (mappings : Mappings x) → IsCompletion (find_mapping x test mappings)
    unfolding find_mapping
    find_completion [] = tt
    find_completion ((k, m) ∷ mappings) = accepted m _ (find_completion mappings)

    last_completion :
        (mappings : Mappings x) (before : Option (EventMapping x))
        → IsCompletion before
        → IsCompletion (last_mapping x test mappings before)
    unfolding last_mapping
    last_completion [] before h = h
    last_completion ((k, m) ∷ mappings) before h = last_completion mappings _ (accepted m before h)

  abbrev is_anonymous : EventMapping x → Bool
  is_anonymous m = same_kind m.event_kind completion && m.event_wildcard

  abbrev is_named : Ident → EventMapping x → Bool
  is_named event m =
      same_kind m.event_kind completion && not m.event_wildcard && same_ident m.event event

  anonymous_completion :
      (mappings : Mappings x) → IsCompletion (last_mapping x is_anonymous mappings none)
  anonymous_completion mappings =
      last_completion is_anonymous (λ m h. ground arith) mappings none tt

  pub completion_arm-IsCompletion :
      (mappings : Mappings x) (origin : Option Ident)
      → IsCompletion (completion_arm x mappings origin)
  unfolding completion_arm
  completion_arm-IsCompletion mappings none = anonymous_completion mappings
  completion_arm-IsCompletion mappings (some event) =
      either (find_mapping x (is_named event) mappings)
        (find_completion (is_named event) (λ m h. ground arith) mappings)
    where
      either :
          (o : Option (EventMapping x))
          → IsCompletion o
          → IsCompletion
              (elim o [ some m ↦ some m | none ↦ last_mapping x is_anonymous mappings none ])
      either none h = anonymous_completion mappings
      either (some m) h = h
