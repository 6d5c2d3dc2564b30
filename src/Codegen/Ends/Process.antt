-- ===== src/Codegen/Ends/Process.antt =====
-- Processing an event returns, where no row requests or defers events and completions descend.
use sml_rs.Base.{
  ℕ, zero, suc, ◌<◌, ◌≡◌, refl, sym, subst, Bool, true, false, ◌&&◌, if◌then◌else◌, Option, none,
  some, Result, ok, err, arith,
}
use mathlib.Core.List.{Memᴰ}
use sml_rs.Base.Stateful.{pure, raise, ◌>>=◌}
use sml_rs.Parser.Table.{
  Syntax, completion, same_kind, Transition, EventMapping, ParsedStateMachine,
}
use sml_rs.Codegen.Runtime.{
  no_payload, error_data, Callbacks, Event, Arguments, Core, MachineError, invalid_event,
  transitions_failed, queue_full, guard_failed, action_failed, Run,
}
use sml_rs.Codegen.Arms.{
  Options, mappings_of, has_queue_actions, has_exception_handlers, is_async_state_machine,
  async_queue, completion_arm, exception_arm,
}
use sml_rs.Codegen.Dispatch.{
  arm, was_taken, origin_name, origin_data, process_completion, run_completions, finish_event,
  completion_origin, state_dispatch, callback_error, process_exception, recover, event_dispatch,
  dispatch_event,
}
use sml_rs.Codegen.Machine.{ignore_refusal, process_now, process_event_unlocked}
use sml_rs.Codegen.Invariant.Row.{IsMapping}
use sml_rs.Codegen.Invariant.Arm.{Among, event_arm-Among, completion_arm-Among, exception_arm-Among}
use sml_rs.Codegen.Ends.{Answers, succeeded, failed_with, Answers-bind}
use sml_rs.Codegen.Ends.Quiet.{IsCompletion, completion_arm-IsCompletion}
use sml_rs.Codegen.Ends.Answer.{Finishes, Settled, arm_rows, arm-Answers}

-- Every row for a completion leads to a state of a lower rank; none stays where it is.
abbrev pub Descends : {x : Syntax} (sm : ParsedStateMachine x) (rank : x.Ident → ℕ) → Type 0
Descends {x} sm rank =
    (s : x.Ident) (m : EventMapping x) (t : Transition x)
    → IsMapping sm s m
    → same_kind m.event_kind completion ≡ true
    → Memᴰ t m.transitions
    → rank (if t.internal_transition then s else t.out_state) < rank s

module _ {x : Syntax} (u : Callbacks x) (options : Options) (sm : ParsedStateMachine x)
    (quiet : has_queue_actions x sm ≡ false) (rank : x.Ident → ℕ)
    (descends : Descends sm rank) where
  open x use {Ident}

  -- The call returns.
  abbrev Returns : {A : Type 0} → Option (Result A (MachineError u) × Core u) → Type 0
  Returns {A = A} o = Answers {A = A} (λ _ _. Unit {0}) o

  module _ (request retry : Event u → Run u (Unit {0})) where
    -- The machine is in a state of a lower rank than `s`.
    abbrev Lower : Ident → Core u → Type 0
    Lower s core = rank core.state.ident < rank s

    completion_rows :
        (s : Ident) (o : Option (EventMapping x))
        → Among x (mappings_of x sm s) o
        → IsCompletion x o
        → Finishes u options sm quiet request retry
            (Lower s)
            (pure tt)
            s
            (arm_rows u options sm quiet request retry (Lower s) (pure tt) o)
    completion_rows s none found is t m c h = elim m [ ]
    completion_rows s (some n) found is t m c h =
        succeeded tt (subst (λ i. rank i < rank s) (sym h) (descends s n t found is m))

    -- What `process_completion` answers.
    abbrev Descended : Ident → Bool → Core u → Type 0
    Descended s again core = Settled u options sm quiet request retry (Lower s) s again core

    process_completion-Answers :
        (fuel : ℕ) (origin : Option (Event u)) (core : Core u)
        → Answers
            (Descended core.state.ident)
            (process_completion u options sm request retry fuel origin core)
    unfolding process_completion
    process_completion-Answers fuel origin core =
        let o =
          completion_arm x (mappings_of x sm core.state.ident)
            (origin_name u options sm request retry origin) in
        let found =
          completion_arm-Among x (mappings_of x sm core.state.ident)
            (origin_name u options sm request retry origin) in
        let is =
          completion_arm-IsCompletion x (mappings_of x sm core.state.ident)
            (origin_name u options sm request retry origin) in
        Answers-bind (λ answer. pure (was_taken u options sm request retry answer))
          (arm-Answers u options sm quiet request retry (Lower core.state.ident) (pure tt) fuel o
            (origin_data u options sm request retry origin) no_payload core found
            (completion_rows core.state.ident o found is))
          (λ answer c k. succeeded (was_taken u options sm request retry answer) k)

    run_completions-Answers :
        (fuel : ℕ) (origin : Option (Event u)) (core : Core u)
        → rank core.state.ident < fuel
        → Returns (run_completions u options sm request retry fuel origin core)
    unfolding run_completions
    run_completions-Answers zero origin core h = absurd (omega arith)
    run_completions-Answers (suc fuel) origin core h =
        Answers-bind _ (process_completion-Answers fuel origin core)
          (λ again c k. round (run_completions-Answers fuel origin) again c k)
      where
        round :
            ((c : Core u)
              → rank c.state.ident < fuel
              → Returns (run_completions u options sm request retry fuel origin c))
            → (again : Bool) (c : Core u) → Descended core.state.ident again c
            → Returns (
                let m : Run u (Unit {0}) = elim again [
                  | true ↦ run_completions u options sm request retry fuel origin
                  | false ↦ pure tt
                ] in
                m c)
        round rest true c k = rest c (omega arith)
        round rest false c k = succeeded tt tt

    -- What an arm answers, where its rows end.
    arm-Returns :
        (fuel : ℕ) (finish : Run u (Unit {0})) (o : Option (EventMapping x)) (d : Option u.Data)
        (error : Arguments u) (core : Core u)
        → ((c : Core u) → Returns (finish c))
        → Among x (mappings_of x sm core.state.ident) o
        → Answers {A = Option Bool}
            (λ answer.
              Settled u options sm quiet request retry
                (λ _. Unit {0})
                core.state.ident
                (was_taken u options sm request retry answer))
            (arm u options sm request retry fuel finish o d error core)
    arm-Returns fuel finish o d error core ends found =
        arm-Answers u options sm quiet request retry (λ _. Unit {0}) finish fuel o d error core
          found (λ t m c h. ends c)

    module _ (fuel : ℕ) (enough : (s : Ident) → rank s < fuel) where
      finish_event-Returns :
          (origin : Option (Option (Event u))) (core : Core u)
          → Returns (finish_event u options sm request retry fuel origin core)
      unfolding finish_event
      finish_event-Returns none core = succeeded tt tt
      finish_event-Returns (some origin) core =
          run_completions-Answers fuel origin core (enough core.state.ident)

      state_dispatch-Returns :
          (event : Event u) (core : Core u)
          → Returns (state_dispatch u options sm request retry fuel event core)
      unfolding state_dispatch
      state_dispatch-Returns event core =
          Answers-bind _
            (arm-Returns fuel _ _ event.data_of no_payload core
              (finish_event-Returns (completion_origin u options sm request retry event))
              (event_arm-Among x (mappings_of x sm core.state.ident) event.ident))
            (λ answer c k. verdict answer c)
        where
          verdict :
              (answer : Option Bool) (c : Core u)
              → Returns (
                  let m : Run u (Unit {0}) = elim answer [
                    | none ↦ raise invalid_event
                    | some taken ↦ if taken then pure tt else raise transitions_failed
                  ] in
                  m c)
          verdict none c = failed_with invalid_event c
          verdict (some true) c = succeeded tt tt
          verdict (some false) c = failed_with transitions_failed c

      if-Returns :
          (b : Bool) {m n : Option (Result (Unit {0}) (MachineError u) × Core u)}
          → Returns m
          → Returns n
          → Returns (if b then m else n)
      if-Returns true h k = h
      if-Returns false h k = k

      unless-Returns :
          (b : Bool) (error : MachineError u) (core : Core u)
          → Returns ((if b then pure tt else raise error) core)
      unless-Returns true error core = succeeded tt tt
      unless-Returns false error core = failed_with error core

      process_exception-Returns :
          (error : MachineError u) (core : Core u)
          → Returns (process_exception u options sm request retry fuel error core)
      unfolding process_exception
      process_exception-Returns error core =
          cases (callback_error u options sm request retry error) (
            rows (elim (callback_error u options sm request retry error) [
              | none ↦ no_payload
              | some e ↦ error_data e
            ]))
        where
          rows_of : Arguments u → Run u (Unit {0})
          rows_of d c =
              (do
                answer ←
                    arm u options sm request retry fuel (pure tt)
                      (exception_arm x (mappings_of x sm c.state.ident)) none d
                if was_taken u options sm request retry answer then pure tt else raise error)
                c

          rows : (d : Arguments u) → Returns (rows_of d core)
          rows d =
              Answers-bind _
                (arm-Returns fuel (pure tt) _ none d core (λ c. succeeded tt tt)
                  (exception_arm-Among x (mappings_of x sm core.state.ident)))
                (λ answer c k. unless-Returns (was_taken u options sm request retry answer) error c)

          cases :
              {run : Option (Result (Unit {0}) (MachineError u) × Core u)} (known : Option u.Error)
              → Returns run
              → Returns (elim known [
                | some e ↦ run
                | none ↦ if options.fixed_error then some (err error, core) else run
              ])
          cases (some e) k = k
          cases none k = if-Returns options.fixed_error (failed_with error core) k

      recover-Returns :
          {o : Option (Result (Unit {0}) (MachineError u) × Core u)}
          → Returns o
          → Returns (recover u options sm request retry fuel o)
      recover-Returns (succeeded a h) = succeeded a h
      recover-Returns (failed_with invalid_event s) = failed_with invalid_event s
      recover-Returns (failed_with transitions_failed s) = failed_with transitions_failed s
      recover-Returns (failed_with queue_full s) = failed_with queue_full s
      recover-Returns (failed_with (guard_failed e) s) =
          process_exception-Returns (guard_failed e) s
      recover-Returns (failed_with (action_failed e) s) =
          process_exception-Returns (action_failed e) s

      event_dispatch-Returns :
          (event : Event u) (core : Core u)
          → Returns (event_dispatch u options sm request retry fuel event core)
      unfolding event_dispatch
      event_dispatch-Returns event core =
          if-Returns (has_exception_handlers x sm)
            (recover-Returns (state_dispatch-Returns event core))
            (state_dispatch-Returns event core)

      dispatch_event-Returns :
          (event : Event u) (core : Core u)
          → Returns (dispatch_event u options sm request retry fuel event core)
      unfolding dispatch_event
      dispatch_event-Returns event core =
          if-Returns (u.dispatch (u.log_process_event event.ident core.policy) event.ident)
            (event_dispatch-Returns event _) (failed_with invalid_event _)

  no_queue : async_queue x options sm ≡ false
  unfolding async_queue
  no_queue = both (is_async_state_machine x options sm) (has_queue_actions x sm) quiet
    where
      both : (a b : Bool) → b ≡ false → (a && b) ≡ false
      both a b h = ground arith

  returned :
      {o : Option (Result (Unit {0}) (MachineError u) × Core u)}
      → Returns o
      → (r : Result (Unit {0}) (MachineError u)) × (core : Core u) × (o ≡ some (r, core))
  returned (succeeded a {s} h) = (ok a, s, refl)
  returned (failed_with e s) = (err e, s, refl)

  -- Where no row requests or defers an event, and every row for a completion leads to a state of a
  -- lower rank, `__sml_process_event_unlocked` returns, whatever the callbacks answer: fuel one above
  -- a bound of the ranks is enough.
  pub process_event_unlocked-returns :
      (fuel : ℕ) (event : Event u) (core : Core u)
      → ((s : Ident) → rank s < fuel)
      → (r : Result (Unit {0}) (MachineError u)) × (core' : Core u) × (process_event_unlocked u
            options sm
            (suc fuel)
            event
            core
          ≡ some (r, core'))
  unfolding process_event_unlocked
  process_event_unlocked-returns fuel event core enough = returned (
      rw no_queue (
        dispatch_event-Returns (process_now u options sm fuel)
          (λ e c. ignore_refusal u options sm (process_now u options sm fuel e c)) fuel enough event
          core))
