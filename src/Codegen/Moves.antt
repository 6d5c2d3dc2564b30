-- ===== src/Codegen/Moves.antt =====
-- A generated machine moves only along the rows of its table.
use sml_rs.Base.{◌≡◌, refl, sym, subst, false, Bool-cases, inl, inr}
use sml_rs.Base.Stateful.{Leaves, succeeds, Leaves-bind, Leaves-weaken}
use sml_rs.Parser.Table.{Syntax, Transition, ParsedStateMachine}
use sml_rs.Codegen.Runtime.{Callbacks, Core}
use sml_rs.Codegen.Arms.{Options}
use sml_rs.Codegen.Rows.{leave, enter, exit_actions}
use sml_rs.Codegen.Machine.{new}
use sml_rs.Codegen.Invariant.Callback.{Stable, run_lifecycle-Keeps}
use sml_rs.Codegen.Invariant.Row.{IsRow, IsInvariant}
use sml_rs.Codegen.Invariant.Process.{process_event_unlocked-Keeps, initialize_unlocked-Keeps}
use sml_rs.Codegen.Reached.{Reached, started, processed, Leaves-some}

module _ {x : Syntax} (sm : ParsedStateMachine x) where
  open x use {Ident}

  -- From one state to another along rows that are no internal transitions.
  pub data Moves (s : Ident) : Ident → Type 0 where
    stays : Moves s s
    row :
        {a b : Ident} (t : Transition x)
        → Moves s a
        → IsRow sm a t
        → t.internal_transition ≡ false
        → t.out_state ≡ b
        → Moves s b

module _ {x : Syntax} (u : Callbacks x) (options : Options) (sm : ParsedStateMachine x) where
  open x use {Ident}

  abbrev Moved : Ident → Core u → Type 0
  Moved s core = Moves sm s core.state.ident

  abbrev MovedTo : Ident → Ident → Core u → Type 0
  MovedTo s a core = (core.state.ident ≡ a) × Moves sm s a

  moves_invariant : (s : Ident) → IsInvariant u sm (Moved s) (MovedTo s)
  unfolding leave enter
  moves_invariant s = record {
    inside = record {
      on_action = λ core a d p h. h;
      on_policy = λ core policy h. h;
      on_deferred = λ core queue h. h;
      on_pending = λ core queue h. h;
    };
    outside = outside;
    failed = failed;
    leaves = leaves;
    enters = λ a t d core is_row moves h. row t h.1 is_row moves refl;
  }
    where
      outside : (a : Ident) → Stable u (MovedTo s a)
      outside a = record {
        on_action = λ core b d p h. h;
        on_policy = λ core policy h. h;
        on_deferred = λ core queue h. h;
        on_pending = λ core queue h. h;
      }

      failed : (a : Ident) (core : Core u) → MovedTo s a core → Moved s core
      failed a core h = subst (Moves sm s) (sym h.0) h.1

      leaves :
          (a : Ident) (core : Core u)
          → core.state.ident ≡ a
          → Moved s core
          → Leaves (MovedTo s a) (Moved s) (leave u sm a core)
      leaves a core e h = elim (Bool-cases core.exit_skip) [
        | inl skip ↦ rw skip (succeeds tt (e, subst (Moves sm s) e h))
        | inr exits ↦ rw exits (
            Leaves-bind _
              (Leaves-weaken
                (run_lifecycle-Keeps u (MovedTo s a) (outside a) (exit_actions u sm a) _
                  (e, subst (Moves sm s) e h))
                (λ c k. k) (failed a))
              (λ done c k. succeeds tt k))
      ]

  -- However a machine was made, started and run, callbacks that fail included, its state can be
  -- reached from the starting state along rows of the table that are no internal transitions.
  pub Reached-Moves :
      (context : u.Context) (queue : u.Queue) (core : Core u)
      → Reached u options sm context queue core
      → Moves sm sm.starting_state core.state.ident
  unfolding new
  Reached-Moves context queue core (started fuel d policy e) =
      Leaves-some
        (initialize_unlocked-Keeps u options sm (moves_invariant sm.starting_state) fuel
          (new u options sm context d policy queue queue) stays)
        e
  Reached-Moves context queue core (processed fuel event {core = before} r e) =
      Leaves-some
        (process_event_unlocked-Keeps u options sm (moves_invariant sm.starting_state) fuel event
          before (Reached-Moves context queue before r))
        e
