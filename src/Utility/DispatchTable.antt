-- ===== src/Utility/DispatchTable.antt =====
-- `DispatchTable` of src/utility.rs: a runtime event id selects one of a contiguous set of handlers.
use sml_rs.Base.{
  ℕ, ◌+◌, ◌-◌, ◌≤◌, ◌<◌, ◌≡◌, ap, ◌∙◌, ◌⊎◌, ltb, if◌then◌else◌, length, get_elem?, get_elem?_out,
  get_elem?_ge, inl, inr, Bool-cases, Option-cases, Option, none, some, List, arith,
}

-- A handler takes the machine by `&mut` and the raw event.
abbrev pub Handler : Type 0 → Type 0 → Type 0 → Type 0
Handler M Raw R = M → Raw → M × R

pub record DispatchTable (M Raw R : Type 0) : Type 0 where
  pub machine : M
  pub first_id : ℕ
  pub handlers : List (Handler M Raw R)

-- `usize::checked_sub`.
abbrev pub checked_sub : ℕ → ℕ → Option ℕ
checked_sub a b = if ltb a b then none else some (a - b)

module _ {M Raw R : Type 0} where
  unfoldable pub new : M → ℕ → List (Handler M Raw R) → DispatchTable M Raw R
  new machine first_id handlers = record {
    machine = machine;
    first_id = first_id;
    handlers = handlers;
  }

  -- The handler that an id selects: the two `?` of `dispatch`.
  abbrev pub select : ℕ → DispatchTable M Raw R → Option (Handler M Raw R)
  select id t = elim (checked_sub id t.first_id) [
    | none ↦ none
    | some index ↦ get_elem? t.handlers index
  ]

  unfoldable pub dispatch : Raw → ℕ → DispatchTable M Raw R → Option R × DispatchTable M Raw R
  dispatch raw id t = elim (select id t) [
    | none ↦ (none, t)
    | some handler ↦ let (m, r) = handler t.machine raw in (some r, record t { machine = m })
  ]

  select_at :
      (t : DispatchTable M Raw R) (k : ℕ) → select (t.first_id + k) t ≡ get_elem? t.handlers k
  select_at t k = ground arith

  dispatch_hit :
      (t : DispatchTable M Raw R) (raw : Raw) (k : ℕ) {h : Handler M Raw R}
      → get_elem? t.handlers k ≡ some h
      → dispatch raw (t.first_id + k) t
        ≡ (some (h t.machine raw).1, record t { machine = (h t.machine raw).0 })
  unfolding dispatch
  dispatch_hit t raw k h = rw (select_at t k, h, dispatch)

  dispatch_outside :
      (t : DispatchTable M Raw R) (raw : Raw) (id : ℕ)
      → (id < t.first_id) ⊎ (t.first_id + length t.handlers ≤ id)
      → dispatch raw id t ≡ (none, t)
  unfolding dispatch
  dispatch_outside t raw id h = ground (arith, get_elem?_out t.handlers (id - t.first_id))

  -- The handler at place `k` of the table serves exactly the id `first_id + k`: an id either is that
  -- of a handler, which is called once, on the table's machine, and whose answer is returned, or it
  -- is below the first or past the last, and is refused, and the machine is left alone.
  pub dispatch_at :
      (t : DispatchTable M Raw R) (raw : Raw) (id : ℕ)
      → ((k : ℕ) × (h : Handler M Raw R) × (id ≡ t.first_id + k)
          × (get_elem? t.handlers k ≡ some h)
          × (dispatch raw id t
              ≡ (some (h t.machine raw).1, record t { machine = (h t.machine raw).0 })))
        ⊎ (((id < t.first_id) ⊎ (t.first_id + length t.handlers ≤ id))
            × (dispatch raw id t ≡ (none, t)))
  dispatch_at t raw id = elim (Bool-cases (ltb id t.first_id)) [
    | inl below ↦
        let out : id < t.first_id = ground (arith, below) in
        inr (inl out, dispatch_outside t raw id (inl out))
    | inr above ↦ elim (Option-cases (get_elem? t.handlers (id - t.first_id))) [
      | inl missing ↦
          let past : t.first_id + length t.handlers ≤ id =
            ground (arith, above, get_elem?_ge t.handlers (id - t.first_id) missing) in
          inr (inr past, dispatch_outside t raw id (inr past))
      | inr (h, found) ↦
          let at : id ≡ t.first_id + (id - t.first_id) = ground (arith, above) in
          inl (
            id - t.first_id,
            h,
            at,
            found,
            ap (λ i. dispatch raw i t) at ∙ dispatch_hit t raw (id - t.first_id) found,
          )
    ]
  ]
