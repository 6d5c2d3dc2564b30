-- ===== src/Base/Stateful.antt =====
-- Code that changes a state `S` through `&mut self` and returns a `Result`: `none` is the model's own
-- out-of-fuel.
use mathlib.Core.Option.{Option, none, some}
use sml_rs.Base.Outcome.{Result, ok, err}

abbrev pub M : Type 0 → Type 0 → Type 0 → Type 0
M S E A = S → Option (Result A E × S)

abbrev pub resume :
    {S E A B : Type 0} → Option (Result A E × S) → (A → M S E B) → Option (Result B E × S)
resume none f = none
resume (some (ok a, s)) f = f a s
resume (some (err e, s)) f = some (err e, s)

abbrev pub pure : {S E A : Type 0} → A → M S E A
pure a s = some (ok a, s)

abbrev pub raise : {S E A : Type 0} → E → M S E A
raise e s = some (err e, s)

abbrev pub exhausted : {S E A : Type 0} → M S E A
exhausted s = none

abbrev pub modify : {S E : Type 0} → (S → S) → M S E (Unit {0})
modify f s = some (ok tt, f s)

infixl 5 ◌>>=◌ ◌>>◌
abbrev pub ◌>>=◌ : {S E A B : Type 0} → M S E A → (A → M S E B) → M S E B
◌>>=◌ m f s = resume (m s) f

abbrev pub ◌>>◌ : {S E B : Type 0} → M S E (Unit {0}) → M S E B → M S E B
◌>>◌ m k s = resume (m s) (λ _. k)

-- What holds of the state that a call leaves, whatever it answers, if it returns.
pub data Leaves {S E A : Type 0} (Q : S → Type 0) (F : S → Type 0)
    : Option (Result A E × S) → Type 0 where
  runs_out : Leaves Q F none
  succeeds : (a : A) {s : S} → Q s → Leaves Q F (some (ok a, s))
  errs : (e : E) {s : S} → F s → Leaves Q F (some (err e, s))

-- A chain: the first part establishes `P`, or ends with an error in `F`.
pub Leaves-bind :
    {S E A B : Type 0} {P Q F : S → Type 0} {o : Option (Result A E × S)} (f : A → M S E B)
    → Leaves P F o
    → ((a : A) (s : S) → P s → Leaves Q F (f a s))
    → Leaves Q F (resume o f)
Leaves-bind f runs_out k = runs_out
Leaves-bind f (succeeds a h) k = k a _ h
Leaves-bind f (errs e h) k = errs e h

pub Leaves-weaken :
    {S E A : Type 0} {P Q F G : S → Type 0} {o : Option (Result A E × S)}
    → Leaves P F o
    → ((s : S) → P s → Q s)
    → ((s : S) → F s → G s)
    → Leaves Q G o
Leaves-weaken runs_out p q = runs_out
Leaves-weaken (succeeds a h) p q = succeeds a (p _ h)
Leaves-weaken (errs e h) p q = errs e (q _ h)
