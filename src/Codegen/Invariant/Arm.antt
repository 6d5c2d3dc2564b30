-- ===== src/Codegen/Invariant/Arm.antt =====
-- The arm that a state has for an event, a completion or an error is a mapping of that state.
use sml_rs.Base.{Bool, true, false, if◌then◌else◌, refl, Option, none, some, [], ◌∷◌}
use mathlib.Core.List.{Memᴰ}
use sml_rs.Parser.Table.{Syntax, EventMapping}
use sml_rs.Codegen.Arms.{
  Mappings, find_mapping, last_mapping, event_arm, completion_arm, exception_arm,
}

module _ (x : Syntax) where
  open x use {Ident, same_ident}

  abbrev pub Among : Mappings x → Option (EventMapping x) → Type 0
  Among mappings none = Unit
  Among mappings (some m) = (k : _) × Memᴰ (k, m) mappings

  further :
      (entry : _) (mappings : Mappings x) (o : Option (EventMapping x))
      → Among mappings o
      → Among (entry ∷ mappings) o
  further entry mappings none h = tt
  further entry mappings (some m) (k, h) = (k, Memᴰ.tail h)

  either :
      (mappings : Mappings x) (a b : Option (EventMapping x))
      → Among mappings a
      → Among mappings b
      → Among mappings (elim a [ some m ↦ some m | none ↦ b ])
  either mappings none b h k = k
  either mappings (some m) b h k = h

  pub find_mapping-Among :
      (test : EventMapping x → Bool) (mappings : Mappings x)
      → Among mappings (find_mapping x test mappings)
  unfolding find_mapping
  find_mapping-Among test [] = tt
  find_mapping-Among test ((k, m) ∷ mappings) =
      chosen (test m) (further (k, m) mappings _ (find_mapping-Among test mappings))
    where
      chosen :
          (b : Bool)
          → Among ((k, m) ∷ mappings) (find_mapping x test mappings)
          → Among ((k, m) ∷ mappings) (if b then some m else find_mapping x test mappings)
      chosen true h = (k, Memᴰ.head refl)
      chosen false h = h

  last_mapping-Among :
      (test : EventMapping x → Bool) (all mappings : Mappings x) (before : Option (EventMapping x))
      → Among all before
      → ((entry : _) → Memᴰ entry mappings → Memᴰ entry all)
      → Among all (last_mapping x test mappings before)
  unfolding last_mapping
  last_mapping-Among test all [] before h sub = h
  last_mapping-Among test all ((k, m) ∷ mappings) before h sub =
      last_mapping-Among test all mappings (if test m then some m else before) (chosen (test m))
        (λ e i. sub e (Memᴰ.tail i))
    where
      chosen : (b : Bool) → Among all (if b then some m else before)
      chosen true = (k, sub (k, m) (Memᴰ.head refl))
      chosen false = h

  pub event_arm-Among :
      (mappings : Mappings x) (event : Ident) → Among mappings (event_arm x mappings event)
  unfolding event_arm
  event_arm-Among mappings event =
      either mappings (find_mapping x _ mappings) _ (find_mapping-Among _ mappings) (
        either mappings (find_mapping x _ mappings) _ (find_mapping-Among _ mappings)
          (last_mapping-Among _ mappings mappings none tt (λ e i. i)))

  pub completion_arm-Among :
      (mappings : Mappings x) (origin : Option Ident)
      → Among mappings (completion_arm x mappings origin)
  unfolding completion_arm
  completion_arm-Among mappings none = last_mapping-Among _ mappings mappings none tt (λ e i. i)
  completion_arm-Among mappings (some event) =
      either mappings (find_mapping x _ mappings) _ (find_mapping-Among _ mappings)
        (last_mapping-Among _ mappings mappings none tt (λ e i. i))

  pub exception_arm-Among : (mappings : Mappings x) → Among mappings (exception_arm x mappings)
  unfolding exception_arm
  exception_arm-Among mappings =
      either mappings (find_mapping x _ mappings) _ (find_mapping-Among _ mappings)
        (find_mapping-Among _ mappings)
