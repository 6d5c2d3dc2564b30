-- ===== src/Scheduler/Fifo/Room.antt =====
-- The registrations in `room` of `FifoQueue` in src/scheduler.rs.
use sml_rs.Base.{
  ℕ, ◌≡◌, refl, sym, ap, ◌∙◌, subst, true, false, ◌==◌, ==_iff, Bool-cases, if_false, inl, inr,
  Option, none, some, List, [], ◌∷◌, ◌++◌, arith,
}
use sml_rs.Scheduler.Fifo.{contains, register, others, wake_waiter, wake_waiters}

pub contains-before : (v : ℕ) (a b : List ℕ) → contains v a ≡ true → contains v (a ++ b) ≡ true
contains-before v (x ∷ a) b h = elim (Bool-cases (x == v)) [
  | inl e ↦ rw e
  | inr e ↦ rw e (contains-before v a b (cc (e, h)))
]
contains-before v [] b h = cc

pub contains-behind : (v : ℕ) (a b : List ℕ) → contains v b ≡ true → contains v (a ++ b) ≡ true
contains-behind v [] b h = h
contains-behind v (x ∷ a) b h = ground (arith, contains-behind v a b h)

pub contains-register :
    (v : ℕ) (waiter : Option ℕ) (room : List ℕ)
    → contains v room ≡ true
    → contains v (register waiter room) ≡ true
contains-register v none room h = h
contains-register v (some x) room h = elim (Bool-cases (contains x room)) [
  | inl e ↦ rw e h
  | inr e ↦ rw e (contains-before v room (x ∷ []) h)
]

pub registers : (v : ℕ) (room : List ℕ) → contains v (register (some v) room) ≡ true
registers v room = elim (Bool-cases (contains v room)) [
  | inl e ↦ rw e e
  | inr e ↦ rw e (contains-behind v room (v ∷ []) (rw ((==_iff v v).1 refl)))
]

pub others-kept :
    (v x : ℕ) (room : List ℕ)
    → contains v room ≡ true
    → (x == v) ≡ false
    → contains v (others x room) ≡ true
others-kept v x (y ∷ room) h ne = elim (Bool-cases (y == x)) [
  | inl e ↦
      let same : y ≡ x = (==_iff y x).0 e in
      rw e (others-kept v x room (cc (subst (λ z. (z == v) ≡ false) (sym same) ne, h)) ne)
  | inr e ↦ elim (Bool-cases (y == v)) [
    | inl f ↦ rw (e, f)
    | inr f ↦ rw (e, f) (others-kept v x room (cc (f, h)) ne)
  ]
]
others-kept v x [] h ne = cc

pub others-before :
    (v x : ℕ) (room : List ℕ) → contains v (others x room) ≡ true → contains v room ≡ true
others-before v x [] h = h
others-before v x (y ∷ room) h = elim (Bool-cases (y == x)) [
  | inl e ↦ let rest = others-before v x room (rw e at h) in ground (arith, rest)
  | inr e ↦ elim (Bool-cases (y == v)) [
    | inl f ↦ rw f
    | inr f ↦ rw f (others-before v x room (rw f at (rw e at h)))
  ]
]

-- A waker that was woken stays in the log.
pub wake_waiters-kept :
    (k : ℕ) (room : List ℕ) (wakers : ℕ → Option ℕ) (woken : List ℕ)
    → contains k woken ≡ true
    → contains k (wake_waiters room (wakers, woken)).1 ≡ true
unfolding wake_waiters wake_waiter
wake_waiters-kept k [] wakers woken h = h
wake_waiters-kept k (x ∷ room) wakers woken h =
    wake_waiters-kept k room (wake_waiter x wakers).1 _ (logged (wakers x))
  where
    logged : (o : Option ℕ) → contains k (elim o [ none ↦ woken | some j ↦ j ∷ woken ]) ≡ true
    logged none = h
    logged (some j) = contains-behind k (j ∷ []) woken h

-- A waiter that is registered is woken with the waker that it holds.
pub wake_waiters-woken :
    (v k : ℕ) (room : List ℕ) (wakers : ℕ → Option ℕ) (woken : List ℕ)
    → contains v room ≡ true
    → wakers v ≡ some k
    → contains k (wake_waiters room (wakers, woken)).1 ≡ true
unfolding wake_waiters wake_waiter
wake_waiters-woken v k (x ∷ room) wakers woken h e = elim (Bool-cases (x == v)) [
  | inl same ↦
      let holds : wakers x ≡ some k = ap wakers ((==_iff x v).0 same) ∙ e in
      wake_waiters-kept k room (wake_waiter x wakers).1 _ (logged (wakers x) holds)
  | inr other ↦
      wake_waiters-woken v k room (wake_waiter x wakers).1 _ (cc (other, h))
        (if_false other _ _ ∙ e)
]
  where
    logged :
        (o : Option ℕ)
        → o ≡ some k
        → contains k (elim o [ none ↦ woken | some j ↦ j ∷ woken ]) ≡ true
    logged none f = cc
    logged (some j) f = let same : j ≡ k = cc f in rw ((==_iff j k).1 same)
wake_waiters-woken v k [] wakers woken h e = cc

-- The others keep theirs.
pub wake_waiters-other :
    (v : ℕ) (room : List ℕ) (wakers : ℕ → Option ℕ) (woken : List ℕ)
    → contains v room ≡ false
    → (wake_waiters room (wakers, woken)).0 v ≡ wakers v
unfolding wake_waiters wake_waiter
wake_waiters-other v [] wakers woken h = refl
wake_waiters-other v (x ∷ room) wakers woken h = elim (Bool-cases (x == v)) [
  | inl same ↦ cc (same, h)
  | inr other ↦
      wake_waiters-other v room (wake_waiter x wakers).1 _ (cc (other, h)) ∙ if_false other _ _
]
