-- ===== src/Tests/Completions.antt =====
-- A machine that goes on from the state 2 to the state 1 by itself.
use sml_rs.Base.{
  ℕ, ◌<◌, ◌≡◌, ◌⊎◌, refl, ap, subst, ◌==◌, ==_iff, if◌then◌else◌, Bool, true, false, Bool-cases,
  inl, inr, none, some, [], ◌∷◌, Result, ok, arith,
}
use mathlib.Core.List.{Memᴰ}
use sml_rs.Parser.HashMap.{get}
use sml_rs.Parser.Table.{
  completion, same_kind, EventKey, EventMapping, Transition, ParsedStateMachine,
}
use sml_rs.Codegen.Runtime.{Core, MachineError}
use sml_rs.Codegen.Arms.{Mappings, has_queue_actions}
use sml_rs.Codegen.Machine.{process_event_unlocked}
use sml_rs.Codegen.Ends.Process.{Descends, process_event_unlocked-returns}
use sml_rs.Tests.Validations.{numbers, step_to, on, types}
use sml_rs.Tests.Machines.{user, plain, core_in, event}

abbrev goes_on : EventKey numbers × EventMapping numbers
goes_on = (
  record { kind = completion; name = none },
  record {
    in_state = 2;
    event = 97;
    event_kind = completion;
    event_wildcard = true;
    event_external = false;
    transitions = step_to none none 1 ∷ [];
  },
)

abbrev at_1 : Mappings numbers
at_1 = on 1 11 (step_to none none 2 ∷ []) ∷ []

abbrev at_2 : Mappings numbers
at_2 = goes_on ∷ []

abbrev completing : ParsedStateMachine numbers
completing = record {
  states = (1, 1) ∷ (2, 2) ∷ [];
  starting_state = 1;
  events = (11, 11) ∷ [];
  state_data = types [];
  event_data = types [];
  states_events_mapping = (1, at_1) ∷ (2, at_2) ∷ [];
}

abbrev rank : ℕ → ℕ
rank s = if s == 2 then 1 else 0

rank_bound : (s : ℕ) → rank s < 2
rank_bound s = ground arith

completing_quiet : has_queue_actions numbers completing ≡ false
unfolding has_queue_actions
completing_quiet = refl

one_row : {t : Transition numbers} → Memᴰ t (step_to none none 1 ∷ []) → t ≡ step_to none none 1
one_row (Memᴰ.head e) = e
one_row (Memᴰ.tail m) = elim m [ ]

completing-Descends : Descends completing rank
unfolding get
completing-Descends s m t (k, found) is member = chosen (1 == s) (Bool-cases (2 == s)) found
  where
    goes : m ≡ goes_on.1 → 2 ≡ s → rank (if t.internal_transition then s else t.out_state) < rank s
    goes e s_2 =
        let row : t ≡ step_to none none 1 =
          one_row (subst (λ (n : EventMapping numbers). Memᴰ t n.transitions) e member) in
        rw (row, ← s_2) (omega arith)

    chosen :
        (b : Bool)
        → ((2 == s) ≡ true) ⊎ ((2 == s) ≡ false)
        → Memᴰ
            (k, m)
            (elim (if b then some at_1 else if 2 == s then some at_2 else none) [
              | none ↦ []
              | some mappings ↦ mappings
            ])
        → rank (if t.internal_transition then s else t.out_state) < rank s
    chosen true c (Memᴰ.head e) =
        let other : same_kind m.event_kind completion ≡ false =
          ap (λ (p : EventKey numbers × EventMapping numbers). same_kind p.1.event_kind completion)
            e in
        absurd (cc (other, is))
    chosen true c (Memᴰ.tail h) = elim h [ ]
    chosen false (inl c) h = here (rw c at h)
      where
        here :
            Memᴰ {A = EventKey numbers × EventMapping numbers} (k, m) at_2
            → rank (if t.internal_transition then s else t.out_state) < rank s
        here (Memᴰ.head e) =
            goes (ap (λ (p : EventKey numbers × EventMapping numbers). p.1) e) ((==_iff 2 s).0 c)
        here (Memᴰ.tail h') = elim h' [ ]
    chosen false (inr c) h = absurd (elsewhere (rw c at h))
      where
        elsewhere : Memᴰ {A = EventKey numbers × EventMapping numbers} (k, m) [] → ⊥
        elsewhere h' = elim h' [ ]

completes :
    process_event_unlocked user plain completing 3 (event 11) (core_in 1) ≡ some (ok tt, core_in 1)
unfolding process_event_unlocked
completes = refl

process_event_unlocked-returns_example :
    (r : Result (Unit {0}) (MachineError user)) × (core' : Core user) × (process_event_unlocked user
        plain completing 3
        (event 11)
        (core_in 1)
      ≡ some (r, core'))
process_event_unlocked-returns_example =
    process_event_unlocked-returns user plain completing completing_quiet rank completing-Descends 2
      (event 11) (core_in 1) rank_bound
