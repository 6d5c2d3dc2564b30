-- ===== src/Codegen/Ends/Answer.antt =====
-- Processing an event returns, where no row requests or defers events and completions descend.
use sml_rs.Base.{
  ℕ, suc, ◌≡◌, refl, Bool, true, false, if◌then◌else◌, Bool-cases, inl, inr, Option, none, some,
  List, [], ◌∷◌,
}
use mathlib.Core.List.{Memᴰ}
use sml_rs.Base.Stateful.{pure, ◌>>=◌, ◌>>◌}
use sml_rs.Parser.Guard.{GuardExpression}
use sml_rs.Parser.Table.{Syntax, EventKind, Transition, EventMapping, ParsedStateMachine}
use sml_rs.Codegen.Runtime.{Callbacks, Event, Arguments, Core, Run, Scope}
use sml_rs.Codegen.Arms.{Options, mappings_of, has_queue_actions}
use sml_rs.Codegen.Rows.{
  row_steps, exit_actions, entry_actions, leave, run_transition, candidate_allowed, ask,
  run_candidates, scope_of, run_arm,
}
use sml_rs.Codegen.Dispatch.{arm, was_taken}
use sml_rs.Codegen.Invariant.Row.{IsRow}
use sml_rs.Codegen.Invariant.Arm.{Among}
use sml_rs.Codegen.Ends.{
  Answers, succeeded, Answers-bind, In, eval_guard-Stays, run_steps-Stays, run_lifecycle-Stays,
}
use sml_rs.Codegen.Ends.Quiet.{no_deferred, row_defer, row_process}

module _ {x : Syntax} (u : Callbacks x) (options : Options) (sm : ParsedStateMachine x)
    (quiet : has_queue_actions x sm ≡ false) (request retry : Event u → Run u (Unit {0})) where
  open x use {Ident}

  -- Where a row leads.
  abbrev pub leads : Ident → Transition x → Ident
  leads s t = if t.internal_transition then s else t.out_state

  leave-Answers :
      (s : Ident) (core : Core u) → core.state.ident ≡ s → Answers (In u s) (leave u sm s core)
  unfolding leave
  leave-Answers s core h = elim (Bool-cases core.exit_skip) [
    | inl skip ↦ rw skip (succeeded tt h)
    | inr exits ↦ rw exits (
        Answers-bind _ (run_lifecycle-Stays u (exit_actions u sm s) s _ h)
          (λ done c k. succeeded tt k))
  ]

  run_transition-Answers :
      (fuel : ℕ) (scope : Scope u) (t : Transition x) (core : Core u)
      → IsRow sm scope.in_state t
      → core.state.ident ≡ scope.in_state
      → Answers
          (In u (leads scope.in_state t))
          (run_transition u sm request retry fuel scope t core)
  unfolding run_transition
  run_transition-Answers fuel scope t core row h =
      let defers = row_defer x sm quiet scope.in_state t row in
      let processes = row_process x sm quiet scope.in_state t row in
      elim (Bool-cases t.internal_transition) [
        | inl stays ↦
            rw (stays, defers, processes)
              (Answers-bind _
                (run_steps-Stays u scope (row_steps u sm t) none scope.in_state core h)
                (λ kept c k. succeeded tt k))
        | inr moves ↦
            rw (moves, defers, processes, no_deferred x sm quiet)
              (Answers-bind _ (leave-Answers scope.in_state core h) (λ left c₁ k₁.
                Answers-bind _
                  (run_steps-Stays u scope (row_steps u sm t) none scope.in_state c₁ k₁)
                  (λ kept c₂ k₂.
                    Answers-bind _
                      (run_lifecycle-Stays u (entry_actions u sm t.out_state) t.out_state _ refl)
                      (λ done c₃ k₃. succeeded tt k₃))))
      ]

  -- After a row that was taken `Goal` holds; otherwise the machine is where it was.
  abbrev pub Settled : (Core u → Type 0) → Ident → Bool → Core u → Type 0
  Settled Goal s true core = Goal core
  Settled Goal s false core = core.state.ident ≡ s

  ask-Answers :
      (scope : Scope u) (test : Option (GuardExpression Ident)) (core : Core u)
      → core.state.ident ≡ scope.in_state
      → Answers (In u scope.in_state) (ask u sm request retry scope test core)
  ask-Answers scope none core h = succeeded true h
  ask-Answers scope (some test) core h = eval_guard-Stays u scope test scope.in_state core h

  module _ (Goal : Core u → Type 0) (finish : Run u (Unit {0})) where
    -- What follows each row of a list, when it was taken in the state `s`.
    abbrev pub Finishes : Ident → List (Transition x) → Type 0
    Finishes s ts =
        (t : Transition x)
        → Memᴰ t ts
        → (c : Core u) → c.state.ident ≡ leads s t
        → Answers {A = Unit {0}} (λ _. Goal) (finish c)

    -- The later candidates.
    abbrev Next : ℕ → EventKind → Scope u → List (Transition x) → ℕ → Type 0
    Next fuel kind scope ts index =
        (c : Core u)
        → c.state.ident ≡ scope.in_state
        → Answers (Settled Goal scope.in_state)
            (run_candidates u sm request retry fuel kind scope finish ts (suc index) c)

    run_candidates-Answers :
        (fuel : ℕ) (kind : EventKind) (scope : Scope u) (ts : List (Transition x)) (index : ℕ)
        (core : Core u)
        → ((t : Transition x) → Memᴰ t ts → IsRow sm scope.in_state t)
        → Finishes scope.in_state ts
        → core.state.ident ≡ scope.in_state
        → Answers
            (Settled Goal scope.in_state)
            (run_candidates u sm request retry fuel kind scope finish ts index core)
    unfolding run_candidates
    run_candidates-Answers fuel kind scope [] index core rows finishes h = succeeded false h
    run_candidates-Answers fuel kind scope (t ∷ ts) index core rows finishes h =
        allowed
          (λ c k.
            run_candidates-Answers fuel kind scope ts (suc index) c (λ r m. rows r (Memᴰ.tail m))
              (λ r m. finishes r (Memᴰ.tail m)) k)
          (candidate_allowed u sm request retry kind scope index core)
      where
        taken :
            Next fuel kind scope ts index
            → (passed : Bool) (c : Core u) → c.state.ident ≡ scope.in_state
            → Answers (Settled Goal scope.in_state) (
                let m : Run u Bool = elim passed [
                  | true ↦ (do run_transition u sm request retry fuel scope t; finish; pure true)
                  | false ↦ run_candidates u sm request retry fuel kind scope finish ts (suc index)
                ] in
                m c)
        taken next true c k =
            Answers-bind _ (run_transition-Answers fuel scope t c (rows t (Memᴰ.head refl)) k)
              (λ done c' k'.
                Answers-bind _ (finishes t (Memᴰ.head refl) c' k')
                  (λ done' c'' k''. succeeded true k''))
        taken next false c k = next c k

        allowed :
            Next fuel kind scope ts index
            → (b : Bool)
            → Answers (Settled Goal scope.in_state) (elim b [
              | false ↦ run_candidates u sm request retry fuel kind scope finish ts (suc index) core
              | true ↦
                  (do
                    passed ← ask u sm request retry scope t.guard
                    elim passed [
                      | true ↦ (do
                        run_transition u sm request retry fuel scope t
                        finish
                        pure true)
                      | false ↦
                          run_candidates u sm request retry fuel kind scope finish ts (suc index)
                    ])
                    core
            ])
        allowed next false = next core h
        allowed next true =
            Answers-bind _ (ask-Answers scope t.guard core h) (λ passed c k. taken next passed c k)

    -- The rows of an arm.
    abbrev pub arm_rows : Option (EventMapping x) → List (Transition x)
    arm_rows none = []
    arm_rows (some m) = m.transitions

    pub arm-Answers :
        (fuel : ℕ) (o : Option (EventMapping x)) (d : Option u.Data) (error : Arguments u)
        (core : Core u)
        → Among x (mappings_of x sm core.state.ident) o
        → Finishes core.state.ident (arm_rows o)
        → Answers
            (λ answer. Settled Goal core.state.ident (was_taken u options sm request retry answer))
            (arm u options sm request retry fuel finish o d error core)
    unfolding run_arm
    arm-Answers fuel none d error core found finishes = succeeded none refl
    arm-Answers fuel (some m) d error core found finishes =
        Answers-bind _
          (run_candidates-Answers fuel m.event_kind (scope_of u sm request retry core m d error)
            m.transitions 0 core (λ t k. (m, found, k)) finishes refl)
          (λ taken c k. succeeded (some taken) k)
