-- ===== src/Codegen/Lifecycle.antt =====
-- The entry and exit hooks of a generated machine alternate: a state is left once for each time that it
-- is entered, also when a row fails between the two and another row recovers.
use sml_rs.Base.{◌≡◌, refl, subst, Bool, true, false, Bool-cases, inl, inr, none, List, [], ◌∷◌, ok}
use sml_rs.Base.Stateful.{Leaves, succeeds, Leaves-bind, Leaves-weaken}
use sml_rs.Parser.Guard.{AsyncIdent}
use sml_rs.Parser.Table.{Syntax, ParsedStateMachine}
use sml_rs.Codegen.Runtime.{no_payload, Callbacks, Arguments, Core, call_action, run_lifecycle}
use sml_rs.Codegen.Arms.{Options}
use sml_rs.Codegen.Rows.{leave, enter, exit_actions}
use sml_rs.Codegen.Machine.{new}
use sml_rs.Codegen.Invariant.Callback.{Stable}
use sml_rs.Codegen.Invariant.Row.{IsInvariant}
use sml_rs.Codegen.Invariant.Process.{process_event_unlocked-Keeps, initialize_unlocked-Keeps}
use sml_rs.Codegen.Reached.{Reached, started, processed, Leaves-some}

-- What a context says of itself: it is inside a state, or has left it. `on_exit` may rely on being
-- called inside, `on_entry` on being called outside; no action changes either.
pub record Hooks {x : Syntax} (u : Callbacks x) (Inside Outside : x.Ident → u.Context → Type 0)
    : Type 0 where
  pub exits : (s : x.Ident) (c : u.Context) → Inside s c → Outside s (u.on_exit s c)
  pub enters : (s t : x.Ident) (c : u.Context) → Outside s c → Inside t (u.on_entry t c)
  pub acts_inside :
      (s a : x.Ident) (c : u.Context) (d : _) (p : Arguments u)
      → Inside s c
      → Inside s (u.action a c d p).1
  pub acts_outside :
      (s a : x.Ident) (c : u.Context) (d : _) (p : Arguments u)
      → Outside s c
      → Outside s (u.action a c d p).1

-- The actions of exit rows succeed.
abbrev pub Succeed : {x : Syntax} (u : Callbacks x) → List (AsyncIdent (x.Ident)) → Type 0
Succeed u [] = Unit
Succeed u (a ∷ actions) =
    ((c : u.Context) → (d : u.Data) × ((u.action a.ident c none no_payload).0 ≡ ok d))
    × Succeed u actions

module _ {x : Syntax} (u : Callbacks x) (options : Options) (sm : ParsedStateMachine x)
    {Inside Outside : x.Ident → u.Context → Type 0} (hooks : Hooks u Inside Outside)
    (exits_succeed : (s : x.Ident) → Succeed u (exit_actions u sm s)) where
  open x use {Ident}

  -- `exit_skip` tells that the current state has been left.
  abbrev pub Phase : Bool → Ident → u.Context → Type 0
  Phase true s c = Outside s c
  Phase false s c = Inside s c

  abbrev pub InPhase : Core u → Type 0
  InPhase core = Phase core.exit_skip core.state.ident core.context

  abbrev Left : Ident → Core u → Type 0
  Left s core = (core.state.ident ≡ s) × (core.exit_skip ≡ true) × Outside s core.context

  -- Where the state `s` is being left.
  abbrev Leaving : Ident → Core u → Type 0
  Leaving s core = (core.state.ident ≡ s) × Outside s core.context

  act-Phase :
      (b : Bool) (s a : Ident) (c : u.Context) (d : _) (p : Arguments u)
      → Phase b s c
      → Phase b s (u.action a c d p).1
  act-Phase true s a c d p h = hooks.acts_outside s a c d p h
  act-Phase false s a c d p h = hooks.acts_inside s a c d p h

  call_action_succeeds :
      (s a : Ident) (core : Core u)
      → ((c : u.Context) → (d : u.Data) × ((u.action a c none no_payload).0 ≡ ok d))
      → Leaving s core
      → Leaves (Leaving s) (λ _. ⊥) (call_action u a none no_payload none core)
  unfolding call_action
  call_action_succeeds s a core ok_ h =
      rw ((ok_ core.context).1, call_action)
        (succeeds (ok_ core.context).0
          (h.0, hooks.acts_outside s a core.context none no_payload h.1))

  run_lifecycle_succeeds :
      (s : Ident) (actions : List (AsyncIdent Ident)) (core : Core u)
      → Succeed u actions
      → Leaving s core
      → Leaves (Leaving s) (λ _. ⊥) (run_lifecycle u actions core)
  unfolding run_lifecycle
  run_lifecycle_succeeds s [] core oks h = succeeds tt h
  run_lifecycle_succeeds s (a ∷ actions) core oks h =
      Leaves-bind _ (call_action_succeeds s a.ident core oks.0 h)
        (λ d c k. run_lifecycle_succeeds s actions c oks.1 k)

  phase_invariant : IsInvariant u sm InPhase Left
  unfolding leave enter
  phase_invariant = record {
    inside = record {
      on_action = λ core a d p h. act-Phase core.exit_skip core.state.ident a core.context d p h;
      on_policy = λ core policy h. h;
      on_deferred = λ core queue h. h;
      on_pending = λ core queue h. h;
    };
    outside = outside;
    failed = failed;
    leaves = leaves;
    enters = λ a t d core is_row moves h. hooks.enters a t.out_state core.context h.2;
  }
    where
      outside : (s : Ident) → Stable u (Left s)
      outside s = record {
        on_action = λ core b d p h. (h.0, h.1, hooks.acts_outside s b core.context d p h.2);
        on_policy = λ core policy h. h;
        on_deferred = λ core queue h. h;
        on_pending = λ core queue h. h;
      }

      failed : (s : Ident) (core : Core u) → Left s core → InPhase core
      failed s core h = rw (h.1, h.0) h.2

      leaves :
          (s : Ident) (core : Core u)
          → core.state.ident ≡ s
          → InPhase core
          → Leaves (Left s) InPhase (leave u sm s core)
      leaves s core e h = elim (Bool-cases core.exit_skip) [
        | inl skip ↦
            let gone : Outside core.state.ident core.context = rw skip at h in
            rw skip (succeeds tt (e, refl, subst (λ i. Outside i core.context) e gone))
        | inr exits ↦
            let here : Inside core.state.ident core.context = rw exits at h in
            let gone : Outside s (u.on_exit s core.context) =
              hooks.exits s core.context (subst (λ i. Inside i core.context) e here) in
            rw exits (
              Leaves-bind _
                (Leaves-weaken
                  (run_lifecycle_succeeds s (exit_actions u sm s) _ (exits_succeed s) (e, gone))
                  (λ c k. k) (λ c k. absurd k))
                (λ done c k. succeeds tt (k.0, refl, k.1)))
      ]

  -- Where `on_exit` takes a context from inside a state to outside it and `on_entry` from outside to
  -- inside the new one, where actions change neither, and where those of exit rows succeed: once the
  -- first `on_entry` has led inside the state that it enters, the context of every machine that is
  -- reached, other callbacks that fail included, is inside the current state, or outside it if
  -- `exit_skip` is set.
  pub Reached-InPhase :
      (context : u.Context) (queue : u.Queue) (core : Core u)
      → ((s : Ident) → Inside s (u.on_entry s context))
      → Reached u options sm context queue core
      → InPhase core
  unfolding new
  Reached-InPhase context queue core begins (started fuel d policy e) =
      Leaves-some
        (initialize_unlocked-Keeps u options sm phase_invariant fuel
          (new u options sm context d policy queue queue) (begins sm.starting_state))
        e
  Reached-InPhase context queue core begins (processed fuel event {core = before} r e) =
      Leaves-some
        (process_event_unlocked-Keeps u options sm phase_invariant fuel event before
          (Reached-InPhase context queue before begins r))
        e
