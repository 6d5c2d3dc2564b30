-- ===== src/Parser/Build/States.antt =====
-- The loop of `ParsedStateMachine::new` that collects states: which states a machine has.
use sml_rs.Base.{
  Ensures, returns, Ensures-bind, Ensures-any, Ensures-weaken, Ensures-ok, Bool, true, false, not,
  ◌&&◌, ◌||◌, if◌then◌else◌, ◌≡◌, refl, sym, ap, ◌∙◌, inl, inr, Bool-cases, Option, List, [], ◌∷◌,
  Result, ok,
}
use sml_rs.Parser.HashMap.{HashMap, IsEquality, insert}
use sml_rs.Parser.Table.{Syntax}
use sml_rs.Parser.Names.{StateTransition, Event}
use sml_rs.Parser.Build.{
  BuildError, Collected, is_some, collect_state, collect_event, collect_row, collect_rows,
  lift_data, nothing_collected, is_lifecycle_or_exception, is_completion,
}
use sml_rs.Parser.Build.Expected.{has_state}
use sml_rs.Parser.Lifetimes.{collect}

module _ (x : Syntax) where
  open x use {Ident, same_ident}

  -- A row names its source, unless that is a wildcard, and its target, unless it is internal.
  abbrev pub names : StateTransition x → Ident → Bool
  names t s =
      (not t.in_state.wildcard && same_ident t.in_state.ident s)
      || (not t.out_state.internal_transition && same_ident t.out_state.ident s)

  abbrev pub mentioned : List (StateTransition x) → Ident → Bool
  mentioned [] s = false
  mentioned (t ∷ ts) s = names t s || mentioned ts s

module _ (x : Syntax) (c : IsEquality x.same_ident) where
  open x use {Ident, DataType, same_ident}

  -- Every state of the map stands under its own name.
  abbrev OwnNames : HashMap Ident Ident → Type 0
  OwnNames [] = Unit
  OwnNames ((name, state) ∷ states) = (name ≡ state) × OwnNames states

  insert-OwnNames :
      (states : HashMap Ident Ident) (i : Ident)
      → OwnNames states
      → OwnNames (insert same_ident states i i)
  unfolding insert
  insert-OwnNames [] i h = (refl, tt)
  insert-OwnNames ((name, state) ∷ states) i (e, h) = elim (Bool-cases (same_ident name i)) [
    | inl b ↦ rw b ((c.same_iff name i).0 b, h)
    | inr b ↦ rw b (e, insert-OwnNames states i h)
  ]

  or_again : (a b : Bool) → (a || b) ≡ (a || (a || b))
  or_again true b = refl
  or_again false b = refl

  or_past : (a b r : Bool) → (a || (b || r)) ≡ (b || (a || r))
  or_past true true r = refl
  or_past true false r = refl
  or_past false b r = refl

  has_state-insert :
      (states : HashMap Ident Ident) (i s : Ident)
      → OwnNames states
      → has_state x (insert same_ident states i i) s ≡ (same_ident i s || has_state x states s)
  unfolding insert
  has_state-insert [] i s h = refl
  has_state-insert ((name, state) ∷ states) i s (e, h) = elim (Bool-cases (same_ident name i)) [
    | inl b ↦
        let same : state ≡ i = sym e ∙ (c.same_iff name i).0 b in
        rw (b, same) (or_again (same_ident i s) (has_state x states s))
    | inr b ↦
        rw (b, has_state-insert states i s h)
          (or_past (same_ident state s) (same_ident i s) (has_state x states s))
  ]

  -- What the collecting loop has recorded.
  record Records (f : Ident → Bool) (a : Collected x) : Type 0 where
    own : OwnNames a.states
    lists : (s : Ident) → has_state x a.states s ≡ f s

  abbrev Keeps : (Ident → Bool) → Result (Collected x) (BuildError x) → Type 0
  Keeps f r = Ensures (Records f) (λ _. Unit {0}) r

  collect_state-Keeps :
      (i : Ident) (data_type : Option DataType) (a : Collected x) (f : Ident → Bool)
      → Records f a
      → Keeps (λ s. same_ident i s || f s) (collect_state x i data_type a)
  unfolding collect_state
  collect_state-Keeps i data_type a f r =
      Ensures-bind _ (Ensures-any (lift_data x (collect x a.state_data i data_type))) (λ d u.
        returns (record {
          own = insert-OwnNames a.states i r.own;
          lists =
              λ s. has_state-insert a.states i s r.own ∙ ap (λ b. same_ident i s || b) (r.lists s);
        }))

  collect_event-Keeps :
      (event : Event x) (a : Collected x) (f : Ident → Bool)
      → Records f a
      → Keeps f (collect_event x event a)
  unfolding collect_event
  collect_event-Keeps event a f r =
      Ensures-bind _
        (Ensures-any (
          if not (is_completion x event.kind) || is_some x event.data_type
          then lift_data x (collect x a.event_data event.ident event.data_type)
          else ok a.event_data))
        (λ d u. returns (record { own = r.own; lists = r.lists }))

  -- A part of a row's work that is done where the test holds.
  state_if :
      (b : Bool) (i : Ident) (data_type : Option DataType) (a : Collected x) (f : Ident → Bool)
      → Records f a
      → Keeps
          (λ s. (b && same_ident i s) || f s)
          (if b then collect_state x i data_type a else ok a)
  state_if true i data_type a f r = collect_state-Keeps i data_type a f r
  state_if false i data_type a f r = returns r

  event_if :
      (b : Bool) (event : Event x) (a : Collected x) (f : Ident → Bool)
      → Records f a
      → Keeps f (if b then collect_event x event a else ok a)
  event_if true event a f r = collect_event-Keeps event a f r
  event_if false event a f r = returns r

  Records-as :
      (f g : Ident → Bool) (a : Collected x) → ((s : Ident) → f s ≡ g s) → Records f a → Records g a
  Records-as f g a e r = record { own = r.own; lists = λ s. r.lists s ∙ e s }

  or_swap : (a b r : Bool) → (b || (a || r)) ≡ ((a || b) || r)
  or_swap true true r = refl
  or_swap true false r = refl
  or_swap false b r = refl

  collect_row-Keeps :
      (t : StateTransition x) (a : Collected x) (f : Ident → Bool)
      → Records f a
      → Keeps (λ s. names x t s || f s) (collect_row x t a)
  unfolding collect_row
  collect_row-Keeps t a f r =
      Ensures-bind _
        (state_if (not t.in_state.wildcard) t.in_state.ident t.in_state.data_type a f r)
        (λ a1 r1.
          Ensures-bind _
            (state_if (not t.out_state.internal_transition) t.out_state.ident t.out_state.data_type
              a1 _ r1)
            (λ a2 r2.
              event_if (not t.event.wildcard && not (is_lifecycle_or_exception x t.event.kind))
                t.event a2 _ (Records-as _ _ a2 (λ s. or_swap _ _ (f s)) r2)))

  or_no : (b : Bool) → (b || false) ≡ b
  or_no true = refl
  or_no false = refl

  or_shuffle : (a m r : Bool) → (m || (a || r)) ≡ ((a || m) || r)
  or_shuffle true true r = refl
  or_shuffle true false r = refl
  or_shuffle false m r = refl

  collect_rows-Keeps :
      (ts : List (StateTransition x)) (a : Collected x) (f : Ident → Bool)
      → Records f a
      → Keeps (λ s. mentioned x ts s || f s) (collect_rows x ts a)
  unfolding collect_rows
  collect_rows-Keeps [] a f r = returns r
  collect_rows-Keeps (t ∷ ts) a f r = Ensures-bind _ (collect_row-Keeps t a f r) (λ a1 r1.
      Ensures-weaken (collect_rows-Keeps ts a1 _ r1)
        (λ b. Records-as _ _ b (λ s. or_shuffle (names x t s) (mentioned x ts s) (f s))))

  pub collect_rows-mentioned :
      (ts : List (StateTransition x)) (b : Collected x)
      → collect_rows x ts (nothing_collected x) ≡ ok b
      → (s : Ident) → has_state x b.states s ≡ mentioned x ts s
  collect_rows-mentioned ts b h s =
      let nothing : Records (λ s. false) (nothing_collected x) = record {
        own = tt;
        lists = λ s. refl;
      } in
      (Ensures-ok (collect_rows-Keeps ts (nothing_collected x) (λ s. false) nothing) h).lists s
      ∙ or_no (mentioned x ts s)
