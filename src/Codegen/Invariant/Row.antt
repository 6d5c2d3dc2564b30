-- ===== src/Codegen/Invariant/Row.antt =====
-- The code of a row, and the candidates of an arm, keep an invariant.
use sml_rs.Base.{
  ℕ, zero, suc, Bool, true, false, ◌≡◌, refl, if◌then◌else◌, Bool-cases, inl, inr, Option, none,
  some, List, [], ◌∷◌, ok,
}
use mathlib.Core.List.{Memᴰ}
use sml_rs.Base.Stateful.{pure, ◌>>=◌, ◌>>◌, Leaves, runs_out, succeeds, Leaves-bind, Leaves-weaken}
use sml_rs.Parser.Guard.{GuardExpression}
use sml_rs.Parser.Table.{Syntax, EventKind, Transition, EventMapping, EventKey, ParsedStateMachine}
use sml_rs.Codegen.Runtime.{
  Value, Callbacks, Event, Arguments, Core, Run, Scope, run_steps, run_lifecycle,
}
use sml_rs.Codegen.Arms.{mappings_of, has_deferred_events}
use sml_rs.Codegen.Rows.{
  has_data, with_default, row_steps, entry_actions, leave, enter, defer_row, process_row,
  drain_deferred, run_transition, candidate_allowed, ask, run_candidates, scope_of, run_arm,
}
use sml_rs.Codegen.Invariant.Callback.{
  Stable, Keeps, eval_guard-Keeps, run_steps-Keeps, run_lifecycle-Keeps, push_deferred-Keeps,
}

module _ {x : Syntax} (sm : ParsedStateMachine x) where
  open x use {Ident}

  -- A mapping of a state, and a row of one.
  abbrev pub IsMapping : Ident → EventMapping x → Type 0
  IsMapping s m = (k : EventKey x) × Memᴰ (k, m) (mappings_of x sm s)

  abbrev pub IsRow : Ident → Transition x → Type 0
  IsRow s t = (m : EventMapping x) × IsMapping s m × Memᴰ t m.transitions

-- `I` holds while the machine is in a state, `J s` after it has left `s`.
pub record IsInvariant {x : Syntax} (u : Callbacks x) (sm : ParsedStateMachine x)
    (I : Core u → Type 0) (J : x.Ident → Core u → Type 0) : Type 0 where
  pub inside : Stable u I
  pub outside : (s : x.Ident) → Stable u (J s)
  pub failed : (s : x.Ident) (core : Core u) → J s core → I core
  pub leaves :
      (s : x.Ident) (core : Core u)
      → core.state.ident ≡ s
      → I core
      → Leaves (J s) I (leave u sm s core)
  pub enters :
      (s : x.Ident) (t : Transition x) (d : Option u.Data) (core : Core u)
      → IsRow sm s t
      → t.internal_transition ≡ false
      → J s core
      → I (enter u sm s (record { ident = t.out_state; data_of = d }) core)

module _ {x : Syntax} (u : Callbacks x) (sm : ParsedStateMachine x) {I : Core u → Type 0}
    {J : x.Ident → Core u → Type 0} (inv : IsInvariant u sm I J)
    (request retry : Event u → Run u (Unit {0}))
    (request-Keeps : (event : Event u) → Keeps u I inv.inside (request event))
    (retry_event-Keeps : (event : Event u) → Keeps u I inv.inside (retry event)) where
  open x use {Ident, Expr}

  -- Where the machine still is in the state `s`.
  abbrev pub At : Ident → Core u → Type 0
  At s core = (core.state.ident ≡ s) × I core

  At-Stable : (s : Ident) → Stable u (At s)
  At-Stable s = record {
    on_action = λ core a d p h. (h.0, inv.inside.on_action core a d p h.1);
    on_policy = λ core policy h. (h.0, inv.inside.on_policy core policy h.1);
    on_deferred = λ core queue h. (h.0, inv.inside.on_deferred core queue h.1);
    on_pending = λ core queue h. (h.0, inv.inside.on_pending core queue h.1);
  }

  if-Keeps :
      {A : Type 0} (b : Bool) (m n : Run u A)
      → Keeps u I inv.inside m
      → Keeps u I inv.inside n
      → Keeps u I inv.inside (if b then m else n)
  if-Keeps true m n h k = h
  if-Keeps false m n h k = k

  defer_row-Keeps :
      (scope : Scope u) (t : Transition x) → Keeps u I inv.inside (defer_row u sm scope t)
  unfolding defer_row
  defer_row-Keeps scope t =
      if-Keeps t.defer _ _ (push_deferred-Keeps u I inv.inside _) (λ core h. succeeds tt h)

  process_row-Keeps :
      (scope : Scope u) (events : List Expr)
      → Keeps u I inv.inside (process_row u sm request retry scope events)
  unfolding process_row
  process_row-Keeps scope [] core h = succeeds tt h
  process_row-Keeps scope (e ∷ events) core h =
      Leaves-bind _ (request-Keeps _ core h) (λ done c k. process_row-Keeps scope events c k)

  drain_deferred-Keeps : (fuel : ℕ) → Keeps u I inv.inside (drain_deferred u sm request retry fuel)
  unfolding drain_deferred
  drain_deferred-Keeps zero core h = runs_out
  drain_deferred-Keeps (suc fuel) core h =
      popped (drain_deferred-Keeps fuel) (u.pop core.deferred).0
    where
      after : I (record core { deferred = (u.pop core.deferred).1 })
      after = inv.inside.on_deferred core _ h

      popped :
          Keeps u I inv.inside (drain_deferred u sm request retry fuel)
          → (event : Option (Event u))
          → Leaves I I (elim event [
            | none ↦ some (ok tt, record core { deferred = (u.pop core.deferred).1 })
            | some e ↦
                (do retry e; drain_deferred u sm request retry fuel)
                  (record core { deferred = (u.pop core.deferred).1 })
          ])
      popped rest none = succeeds tt after
      popped rest (some e) = Leaves-bind _ (retry_event-Keeps e _ after) (λ done c k. rest c k)

  -- The target of a row that moves.
  abbrev target : Transition x → Option u.Data → Value Ident u.Data
  target t kept = record {
    ident = t.out_state;
    data_of = if has_data u sm t.out_state then with_default u sm t kept else none;
  }

  moving-Keeps :
      (fuel : ℕ) (scope : Scope u) (t : Transition x) (core : Core u)
      → IsRow sm scope.in_state t
      → t.internal_transition ≡ false
      → At scope.in_state core
      → Leaves I I (
          (do
            leave u sm scope.in_state
            kept ← run_steps u scope (row_steps u sm t) none
            (λ c. some (ok tt, enter u sm scope.in_state (target t kept) c))
            run_lifecycle u (entry_actions u sm t.out_state)
            defer_row u sm scope t
            process_row u sm request retry scope t.process_events
            (if has_deferred_events x sm then drain_deferred u sm request retry fuel else pure tt))
            core)
  moving-Keeps fuel scope t core row moves h =
      Leaves-bind _ (inv.leaves scope.in_state core h.0 h.1) (λ left c₁ k₁.
        Leaves-bind _
          (Leaves-weaken
            (run_steps-Keeps u (J scope.in_state) (inv.outside scope.in_state) scope
              (row_steps u sm t) none c₁ k₁)
            (λ c k. k) (inv.failed scope.in_state))
          (λ kept c₂ k₂.
            Leaves-bind _ (succeeds tt (inv.enters scope.in_state t _ c₂ row moves k₂))
              (λ entered c₃ k₃.
                Leaves-bind _
                  (run_lifecycle-Keeps u I inv.inside (entry_actions u sm t.out_state) c₃ k₃)
                  (λ done c₄ k₄. Leaves-bind _ (defer_row-Keeps scope t c₄ k₄) (λ deferred c₅ k₅.
                    Leaves-bind _ (process_row-Keeps scope t.process_events c₅ k₅)
                      (λ processed c₆ k₆.
                        if-Keeps (has_deferred_events x sm) _ _ (drain_deferred-Keeps fuel)
                          (λ c k. succeeds tt k) c₆ k₆))))))

  run_transition-Keeps :
      (fuel : ℕ) (scope : Scope u) (t : Transition x) (core : Core u)
      → IsRow sm scope.in_state t
      → At scope.in_state core
      → Leaves I I (run_transition u sm request retry fuel scope t core)
  unfolding run_transition
  run_transition-Keeps fuel scope t core row h = elim (Bool-cases t.internal_transition) [
    | inl stays ↦ rw stays (
        Leaves-bind _ (run_steps-Keeps u I inv.inside scope (row_steps u sm t) none core h.1)
          (λ kept c k.
            Leaves-bind _ (defer_row-Keeps scope t c k)
              (λ deferred c' k'. process_row-Keeps scope t.process_events c' k')))
    | inr moves ↦ rw moves (moving-Keeps fuel scope t core row moves h)
  ]

  ask-Keeps :
      (scope : Scope u) (test : Option (GuardExpression Ident)) (core : Core u)
      → At scope.in_state core
      → Leaves (At scope.in_state) I (ask u sm request retry scope test core)
  ask-Keeps scope none core h = succeeds true h
  ask-Keeps scope (some test) core h =
      Leaves-weaken
        (eval_guard-Keeps u (At scope.in_state) (At-Stable scope.in_state) scope test core h)
        (λ c k. k) (λ c k. k.1)

  run_candidates-Keeps :
      (fuel : ℕ) (kind : EventKind) (scope : Scope u) (finish : Run u (Unit {0}))
      (ts : List (Transition x)) (index : ℕ) (core : Core u)
      → Keeps u I inv.inside finish
      → ((t : Transition x) → Memᴰ t ts → IsRow sm scope.in_state t)
      → At scope.in_state core
      → Leaves I I (run_candidates u sm request retry fuel kind scope finish ts index core)
  unfolding run_candidates
  run_candidates-Keeps fuel kind scope finish [] index core finishes rows h = succeeds false h.1
  run_candidates-Keeps fuel kind scope finish (t ∷ ts) index core finishes rows h =
      allowed
        (λ c k.
          run_candidates-Keeps fuel kind scope finish ts (suc index) c finishes
            (λ s m. rows s (Memᴰ.tail m)) k)
        (candidate_allowed u sm request retry kind scope index core)
    where
      taken :
          ((c : Core u)
            → At scope.in_state c
            → Leaves I I
                (run_candidates u sm request retry fuel kind scope finish ts (suc index) c))
          → (passed : Bool) (c : Core u) → At scope.in_state c
          → Leaves I I (
              let m : Run u Bool = elim passed [
                | true ↦ (do run_transition u sm request retry fuel scope t; finish; pure true)
                | false ↦ run_candidates u sm request retry fuel kind scope finish ts (suc index)
              ] in
              m c)
      taken next true c k =
          Leaves-bind _ (run_transition-Keeps fuel scope t c (rows t (Memᴰ.head refl)) k)
            (λ done c' k'. Leaves-bind _ (finishes c' k') (λ done' c'' k''. succeeds true k''))
      taken next false c k = next c k

      allowed :
          ((c : Core u)
            → At scope.in_state c
            → Leaves I I
                (run_candidates u sm request retry fuel kind scope finish ts (suc index) c))
          → (b : Bool)
          → Leaves I I (elim b [
            | false ↦ run_candidates u sm request retry fuel kind scope finish ts (suc index) core
            | true ↦
                (do
                  passed ← ask u sm request retry scope t.guard
                  elim passed [
                    | true ↦ (do run_transition u sm request retry fuel scope t; finish; pure true)
                    | false ↦
                        run_candidates u sm request retry fuel kind scope finish ts (suc index)
                  ])
                  core
          ])
      allowed next false = next core h
      allowed next true =
          Leaves-bind _ (ask-Keeps scope t.guard core h) (λ passed c k. taken next passed c k)

  -- An arm of a state, if it has one.
  abbrev pub IsArm : Ident → Option (EventMapping x) → Type 0
  IsArm s none = Unit
  IsArm s (some m) = IsMapping sm s m

  pub run_arm-Keeps :
      (fuel : ℕ) (finish : Run u (Unit {0})) (arm : Option (EventMapping x)) (d : Option u.Data)
      (error : Arguments u) (core : Core u)
      → Keeps u I inv.inside finish
      → IsArm core.state.ident arm
      → I core
      → Leaves I I (run_arm u sm request retry fuel finish arm d error core)
  unfolding run_arm
  run_arm-Keeps fuel finish none d error core finishes is_arm h = succeeds none h
  run_arm-Keeps fuel finish (some m) d error core finishes is_arm h =
      Leaves-bind _
        (run_candidates-Keeps fuel m.event_kind (scope_of u sm request retry core m d error) finish
          m.transitions 0 core finishes (λ t k. (m, is_arm, k)) (refl, h))
        (λ taken c k. succeeds (some taken) k)
