-- ===== src/Parser/Cpp/ErrorType.antt =====
-- The error type of a machine: the last part of `SmlDefinition::parse` of macros/src/parser/cpp.rs.
use sml_rs.Base.{
  ◌≡◌, ◌↔◌, refl, sym, ap, subst, inl, inr, Bool, true, false, not, ◌&&◌, ◌||◌, if◌then◌else◌,
  Bool-cases, Option, none, some, is_some, List, [], ◌∷◌, Result, ok, err, ◌>>=◌,
}
use sml_rs.Parser.Table.{Syntax, exception, same_kind}
use sml_rs.Parser.HashMap.{IsEquality}
use sml_rs.Parser.Names.{StateTransition}

module _ (x : Syntax) where
  open x use {Ident, DataType, same_type}

  pub data ErrorTypeError : Type 0 where
    no_payload unrelated : Ident → ErrorTypeError

  abbrev pub is_typed_exception : StateTransition x → Bool
  is_typed_exception t = same_kind t.event.kind exception && not t.event.wildcard

  -- `known != &error_type`, where a type is known.
  unfoldable pub is_unrelated : Option DataType → DataType → Bool
  is_unrelated none error_type = false
  is_unrelated (some known) error_type = not (same_type known error_type)

  unfoldable pub error_type_loop :
      List (StateTransition x) → Option DataType → Result (Option DataType) ErrorTypeError
  unfolding is_unrelated
  error_type_loop [] fixed_error_type = ok fixed_error_type
  error_type_loop (t ∷ ts) fixed_error_type = elim (is_typed_exception t) [
    | false ↦ error_type_loop ts fixed_error_type
    | true ↦ elim t.event.data_type [
      | none ↦ err (no_payload t.event.ident)
      | some error_type ↦ elim (is_unrelated fixed_error_type error_type) [
        | true ↦ err (unrelated t.event.ident)
        | false ↦ error_type_loop ts (some error_type)
      ]
    ]
  ]

  -- `if fixed_error_type.is_some() { … }`.
  abbrev pub record_error_type :
      Bool → Option DataType → Result (Bool × Option DataType) ErrorTypeError
  record_error_type custom_error fixed_error_type =
      if is_some fixed_error_type then ok (true, fixed_error_type) else ok (custom_error, none)

  -- `custom_error` and `fixed_error_type` of the machine, from the `custom_error` of its options.
  unfoldable pub fix_error_type :
      Bool → List (StateTransition x) → Result (Bool × Option DataType) ErrorTypeError
  unfolding error_type_loop
  fix_error_type custom_error transitions = do
    fixed_error_type ← error_type_loop transitions none
    record_error_type custom_error fixed_error_type

  -- The error types that the rows for typed exceptions declare, in order.
  abbrev pub declared : List (StateTransition x) → List (Option DataType)
  declared [] = []
  declared (t ∷ ts) = elim (is_typed_exception t) [
    | false ↦ declared ts
    | true ↦ t.event.data_type ∷ declared ts
  ]

  abbrev pub All : DataType → List (Option DataType) → Type 0
  All d [] = Unit
  All d (o ∷ os) = (o ≡ some d) × All d os

  -- No types at all, or the same one throughout.
  abbrev pub Agree : List (Option DataType) → Option DataType → Type 0
  Agree [] none = Unit
  Agree [] (some d) = ⊥
  Agree (o ∷ os) none = ⊥
  Agree (o ∷ os) (some d) = (o ≡ some d) × All d os

  module _ (c : IsEquality same_type) where
    related_same :
        {R : Type 0} {k : R} (d e : DataType) (i : ErrorTypeError) (r : Result R ErrorTypeError)
        → elim (not (same_type d e)) [ true ↦ err i | false ↦ r ] ≡ ok k
        → (e ≡ d) × (r ≡ ok k)
    related_same d e i r h = elim (Bool-cases (same_type d e)) [
      | inl same ↦ (sym ((c.same_iff d e).0 same), cc (same, h))
      | inr differs ↦ cc (differs, h)
    ]

    -- The loop, once a type is known.
    loop_known :
        (ts : List (StateTransition x)) (d : DataType) (o : Option DataType)
        → error_type_loop ts (some d) ≡ ok o
        → (o ≡ some d) × All d (declared ts)
    unfolding error_type_loop
    loop_known [] d o h = (cc h, tt)
    loop_known (t ∷ ts) d o h = stepped (is_typed_exception t) t.event.data_type h (loop_known ts)
      where
        stepped :
            (b : Bool) (p : Option DataType)
            → elim b [
              | false ↦ error_type_loop ts (some d)
              | true ↦ elim p [
                | none ↦ err (no_payload t.event.ident)
                | some e ↦ elim (not (same_type d e)) [
                  | true ↦ err (unrelated t.event.ident)
                  | false ↦ error_type_loop ts (some e)
                ]
              ]
            ]
              ≡ ok o
            → ((e : DataType) (o : Option DataType)
                → error_type_loop ts (some e) ≡ ok o
                → (o ≡ some e) × All e (declared ts))
            → (o ≡ some d) × All d (elim b [ false ↦ declared ts | true ↦ p ∷ declared ts ])
        stepped false p h later = later d o h
        stepped true none h later = cc
        stepped true (some e) h later =
            let (same, rest) = related_same d e _ _ h in
            let (known, all) =
              subst (λ e. (o ≡ some e) × All e (declared ts)) same (later e o rest) in
            (known, (ap some same, all))

    known_loop :
        (ts : List (StateTransition x)) (d : DataType)
        → All d (declared ts)
        → error_type_loop ts (some d) ≡ ok (some d)
    unfolding error_type_loop
    known_loop [] d h = refl
    known_loop (t ∷ ts) d h = stepped (is_typed_exception t) t.event.data_type h (known_loop ts d)
      where
        stepped :
            (b : Bool) (p : Option DataType)
            → All d (elim b [ false ↦ declared ts | true ↦ p ∷ declared ts ])
            → (All d (declared ts) → error_type_loop ts (some d) ≡ ok (some d))
            → elim b [
              | false ↦ error_type_loop ts (some d)
              | true ↦ elim p [
                | none ↦ err (no_payload t.event.ident)
                | some e ↦ elim (not (same_type d e)) [
                  | true ↦ err (unrelated t.event.ident)
                  | false ↦ error_type_loop ts (some e)
                ]
              ]
            ]
              ≡ ok (some d)
        stepped false p h later = later h
        stepped true p (same, all) later = rw (same, (c.same_iff d d).1 refl) (later all)

    -- The whole loop.
    agreed :
        (ts : List (StateTransition x)) (o : Option DataType)
        → error_type_loop ts none ≡ ok o
        → Agree (declared ts) o
    unfolding error_type_loop
    agreed [] none h = tt
    agreed [] (some d) h = cc
    agreed (t ∷ ts) o h = stepped (is_typed_exception t) t.event.data_type h (agreed ts o)
      where
        stepped :
            (b : Bool) (p : Option DataType)
            → elim b [
              | false ↦ error_type_loop ts none
              | true ↦ elim p [
                | none ↦ err (no_payload t.event.ident)
                | some e ↦ error_type_loop ts (some e)
              ]
            ]
              ≡ ok o
            → (error_type_loop ts none ≡ ok o → Agree (declared ts) o)
            → Agree (elim b [ false ↦ declared ts | true ↦ p ∷ declared ts ]) o
        stepped false p h later = later h
        stepped true none h later = cc
        stepped true (some e) h later =
            let (known, all) = loop_known ts e o h in
            subst (Agree (some e ∷ declared ts)) (sym known) (refl, all)

    agreement :
        (ts : List (StateTransition x)) (o : Option DataType)
        → Agree (declared ts) o
        → error_type_loop ts none ≡ ok o
    unfolding error_type_loop
    agreement [] none h = refl
    agreement [] (some d) h = absurd h
    agreement (t ∷ ts) o h = stepped (is_typed_exception t) t.event.data_type o h (agreement ts o)
      where
        stepped :
            (b : Bool) (p o : Option DataType)
            → Agree (elim b [ false ↦ declared ts | true ↦ p ∷ declared ts ]) o
            → (Agree (declared ts) o → error_type_loop ts none ≡ ok o)
            → elim b [
              | false ↦ error_type_loop ts none
              | true ↦ elim p [
                | none ↦ err (no_payload t.event.ident)
                | some e ↦ error_type_loop ts (some e)
              ]
            ]
              ≡ ok o
        stepped false p o h later = later h
        stepped true p none h later = absurd h
        stepped true p (some d) (same, all) later = rw same (known_loop ts d all)

    -- Where the `==` of types is equality: the error type of a table is accepted exactly when all rows
    -- for typed exceptions declare the same one, which is then the machine's, or
    -- when there are no such rows; the machine has a custom error if its options ask for it, or if
    -- such a row exists.
    pub fix_error_type_iff :
        (custom_error custom : Bool) (ts : List (StateTransition x)) (o : Option DataType)
        → (fix_error_type custom_error ts ≡ ok (custom, o))
          ↔ (Agree (declared ts) o × (custom ≡ (is_some o || custom_error)))
    unfolding fix_error_type
    fix_error_type_iff custom_error custom ts o =
        (λ h. accepted (error_type_loop ts none) refl h, fixed o)
      where
        accepted :
            (r : Result (Option DataType) ErrorTypeError)
            → error_type_loop ts none ≡ r
            → (r >>= record_error_type custom_error) ≡ ok (custom, o)
            → Agree (declared ts) o × (custom ≡ (is_some o || custom_error))
        accepted (err e) l h = cc
        accepted (ok none) l h =
            let same : o ≡ none = cc h in
            subst (λ o. Agree (declared ts) o × (custom ≡ (is_some o || custom_error))) (sym same)
              (agreed ts none l, cc h)
        accepted (ok (some d)) l h =
            let same : o ≡ some d = cc h in
            subst (λ o. Agree (declared ts) o × (custom ≡ (is_some o || custom_error))) (sym same)
              (agreed ts (some d) l, cc h)

        fixed :
            (o : Option DataType)
            → Agree (declared ts) o × (custom ≡ (is_some o || custom_error))
            → fix_error_type custom_error ts ≡ ok (custom, o)
        fixed none (h, e) = rw (agreement ts none h, e)
        fixed (some d) (h, e) = rw (agreement ts (some d) h, e)
