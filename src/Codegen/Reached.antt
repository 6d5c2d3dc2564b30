-- ===== src/Codegen/Reached.antt =====
-- The runs of a generated machine: it is made, started, and handed events one after another. Each call
-- takes the fuel that it needs, and the run goes on after an error as after a success.
use sml_rs.Base.{ℕ, ◌≡◌, subst, Option, some, Result}
use sml_rs.Base.Stateful.{Leaves, runs_out, succeeds, errs}
use sml_rs.Parser.Table.{Syntax, ParsedStateMachine}
use sml_rs.Codegen.Runtime.{Callbacks, Event, Core, MachineError}
use sml_rs.Codegen.Arms.{Options}
use sml_rs.Codegen.Machine.{new, initialize_unlocked, process_event_unlocked}

module _ {x : Syntax} (u : Callbacks x) (options : Options) (sm : ParsedStateMachine x) where
  pub data Reached (context : u.Context) (queue : u.Queue) : Core u → Type 0 where
    started :
        (fuel : ℕ) (d : Option u.Data) (policy : u.Policy) {core : Core u}
        {r : Result (Unit {0}) (MachineError u)}
        → initialize_unlocked u options sm fuel (new u options sm context d policy queue queue)
          ≡ some (r, core)
        → Reached context queue core
    processed :
        (fuel : ℕ) (event : Event u) {core core' : Core u} {r : Result (Unit {0}) (MachineError u)}
        → Reached context queue core
        → process_event_unlocked u options sm fuel event core ≡ some (r, core')
        → Reached context queue core'

pub Leaves-some :
    {S E A : Type 0} {Q : S → Type 0} {o : Option (Result A E × S)} {r : Result A E} {s : S}
    → Leaves Q Q o
    → o ≡ some (r, s)
    → Q s
Leaves-some runs_out e = cc
Leaves-some {Q = Q} (succeeds a h) e = let same : _ ≡ _ = cc e in subst Q same h
Leaves-some {Q = Q} (errs x h) e = let same : _ ≡ _ = cc e in subst Q same h
