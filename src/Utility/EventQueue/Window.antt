-- ===== src/Utility/EventQueue/Window.antt =====
-- The occupied slots of a ring, from its head on.
use sml_rs.Base.{
  ℕ, zero, suc, ◌+◌, ◌-◌, ◌≤◌, ◌<◌, ◌≡◌, refl, ap, ◌≢◌, leb, if◌then◌else◌, usize_max, get_elem?,
  set, get_elem?-set_ne, Option, List, [], ◌∷◌, ◌++◌, arith,
}
use sml_rs.Utility.EventQueue.{next}

-- How many steps lead from index `h` to index `i`, going round at `n`.
abbrev pub ahead : ℕ → ℕ → ℕ → ℕ
ahead n h i = if leb h i then i - h else i + n - h

-- What the `k` slots from index `h` on hold, going round at `n`.
abbrev pub window {ℓ} : {A : Type ℓ} → List A → ℕ → ℕ → ℕ → List (Option A)
window buf n h zero = []
window buf n h (suc k) = get_elem? buf h ∷ window buf n (next n h) k

pub next_in : (n h : ℕ) → n ≤ usize_max → h < n → next n h < n
next_in n h small hh = ground arith

pub ahead-next :
    (n h i : ℕ)
    → n ≤ usize_max
    → h < n
    → i < n
    → 0 < ahead n h i
    → ahead n (next n h) i + 1 ≡ ahead n h i
ahead-next n h i small hh hi pos = ground arith

here_ne : (n h k i : ℕ) → suc k ≤ ahead n h i → i ≢ h
here_ne n h k i far = ground arith

here_eq : (n h i : ℕ) → h < n → i < n → 0 ≡ ahead n h i → h ≡ i
here_eq n h i hh hi e = ground arith

module _ {ℓ} {A : Type ℓ} where
  -- A write that is not among the `k` slots leaves them alone.
  pub window-set_outside :
      (buf : List A) (n h k i : ℕ) (v : A)
      → n ≤ usize_max
      → h < n
      → i < n
      → k ≤ ahead n h i
      → window (set buf i v) n h k ≡ window buf n h k
  window-set_outside buf n h zero i v small hh hi far = refl
  window-set_outside buf n h (suc k) i v small hh hi far = rw (
    get_elem?-set_ne buf v (here_ne n h k i far),
    window-set_outside buf n (next n h) k i v small (next_in n h small hh) hi
        (omega (arith, ahead-next n h i small hh hi (omega arith))),
  )

  -- The window of one slot more ends with the slot that lies `k` ahead.
  pub window-suc :
      (buf : List A) (n h k i : ℕ)
      → n ≤ usize_max
      → h < n
      → i < n
      → k ≡ ahead n h i
      → window buf n h (suc k) ≡ window buf n h k ++ get_elem? buf i ∷ []
  window-suc buf n h zero i small hh hi e = rw (here_eq n h i hh hi e)
  window-suc buf n h (suc k) i small hh hi e =
      ap (λ w. get_elem? buf h ∷ w)
        (window-suc buf n (next n h) k i small (next_in n h small hh) hi
          (omega (arith, ahead-next n h i small hh hi (omega arith))))
