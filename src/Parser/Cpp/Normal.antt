-- ===== src/Parser/Cpp/Normal.antt =====
-- Bringing a row into the form of the parser of rows: one that is written backwards is turned, and one without
-- a trigger gets that of completions.
use sml_rs.Base.{
  ℕ, suc, ◌≤◌, ◌≡◌, refl, sym, ap, ◌∙◌, inl, inr, Bool, true, false, ◌&&◌, Option, none, some, List,
  [], ◌∷◌, ◌++◌, append_assoc, length, length-append, saturating_add, usize_max, ok, ◌>>=◌, arith,
  if◌then◌else◌, Bool-cases,
}
use sml_rs.Parser.Cpp.{
  TokenTrees, is_char, next_is, RangeError, invalid_target, invalid_source, invalid_range,
  invalid_suffix, get_from, get_to, reverse_at, normalize_direction, has_char, ends_trigger,
  insertion_at, insert_at, insert_trigger, normalize_transition,
}

-- The two parts of a list, on both sides of a place in it.
get_to-append : {A : Type 0} (e : RangeError) (a b : List A) → get_to e (length a) (a ++ b) ≡ ok a
unfolding get_to
get_to-append e [] b = refl
get_to-append e (x ∷ a) b = rw (get_to-append e a b)

get_from-append :
    {A : Type 0} (e : RangeError) (a b : List A) → get_from e (length a) (a ++ b) ≡ ok b
unfolding get_from
get_from-append e [] b = refl
get_from-append e (x ∷ a) b = get_from-append e a b

get_from-behind :
    {A : Type 0} (e : RangeError) (a b : List A) (x y : A)
    → length (a ++ x ∷ y ∷ b) ≤ usize_max
    → get_from e (saturating_add (length a) 2) (a ++ x ∷ y ∷ b) ≡ ok b
get_from-behind e a b x y h =
    ap (λ n. get_from e n (a ++ x ∷ y ∷ b)) places
    ∙ ap (λ l. get_from e (length (a ++ x ∷ y ∷ [])) l) (sym (append_assoc a (x ∷ y ∷ []) b))
    ∙ get_from-append e (a ++ x ∷ y ∷ []) b
  where
    places : saturating_add (length a) 2 ≡ length (a ++ x ∷ y ∷ [])
    places = omega (arith, h, length-append a (x ∷ y ∷ b), length-append a (x ∷ y ∷ []))

and_true : (a b : Bool) → (a && b) ≡ true → (a ≡ true) × (b ≡ true)
and_true true b h = (refl, h)
and_true false b h = cc

and_false : (a : Bool) → (a && false) ≡ false
and_false true = refl
and_false false = refl

module _ (k : TokenTrees) where
  open k use {TokenTree, as_char, is_bracket_group, alone, completion_trigger}

  -- No `<` stands in front of a `=`.
  abbrev pub NoArrow : List TokenTree → Type 0
  NoArrow [] = Unit
  NoArrow (t ∷ ts) = ((is_char k b'<' t && next_is k b'=' ts) ≡ false) × NoArrow ts

  -- No token ends the trigger.
  abbrev pub NoEnd : List TokenTree → Type 0
  NoEnd [] = Unit
  NoEnd (t ∷ ts) = (ends_trigger k t ≡ false) × NoEnd ts

  -- A row and the same row from its source to its target.
  pub data Directed : List TokenTree → List TokenTree → Type 0 where
    forward : (row : List TokenTree) → NoArrow row → Directed row row
    backward :
        (target source : List TokenTree) (l e : TokenTree)
        → NoArrow (target ++ l ∷ [])
        → is_char k b'<' l ≡ true
        → is_char k b'=' e ≡ true
        → Directed (target ++ l ∷ e ∷ source) (source ++ alone b'=' ∷ target)

  -- A row and the same row with a trigger, if there is a place for one.
  pub data Triggered : List TokenTree → List TokenTree → Type 0 where
    written : (row : List TokenTree) → has_char k b'+' row ≡ true → Triggered row row
    nowhere : (row : List TokenTree) → has_char k b'+' row ≡ false → NoEnd row → Triggered row row
    inserted :
        (source rest : List TokenTree) (t : TokenTree)
        → has_char k b'+' (source ++ t ∷ rest) ≡ false
        → NoEnd source
        → ends_trigger k t ≡ true
        → Triggered (source ++ t ∷ rest) (source ++ completion_trigger ++ t ∷ rest)

  -- What the two searches find.
  data ArrowAt : List TokenTree → Option ℕ → Type 0 where
    no_arrow : {row : List TokenTree} → NoArrow row → ArrowAt row none
    arrow :
        (a b : List TokenTree) (l e : TokenTree)
        → NoArrow (a ++ l ∷ [])
        → is_char k b'<' l ≡ true
        → is_char k b'=' e ≡ true
        → ArrowAt (a ++ l ∷ e ∷ b) (some (length a))

  data EndAt : List TokenTree → Option ℕ → Type 0 where
    no_end : {row : List TokenTree} → NoEnd row → EndAt row none
    end_at :
        (a b : List TokenTree) (t : TokenTree)
        → NoEnd a
        → ends_trigger k t ≡ true
        → EndAt (a ++ t ∷ b) (some (length a))

  first_arrow :
      (l : TokenTree) (ts : List TokenTree)
      → (is_char k b'<' l && next_is k b'=' ts) ≡ true
      → ArrowAt (l ∷ ts) (some 0)
  unfolding next_is
  first_arrow l [] h = cc (and_false (is_char k b'<' l), h)
  first_arrow l (e ∷ b) h =
      let (is, eq) = and_true (is_char k b'<' l) _ h in
      arrow [] b l e (and_false (is_char k b'<' l), tt) is eq

  later_arrow :
      (t : TokenTree) (ts : List TokenTree) (o : Option ℕ)
      → (is_char k b'<' t && next_is k b'=' ts) ≡ false
      → ArrowAt ts o
      → ArrowAt (t ∷ ts) (elim o [ none ↦ none | some i ↦ some (suc i) ])
  unfolding next_is
  later_arrow t ts none h (no_arrow n) = no_arrow (h, n)
  later_arrow t _ (some _) h (arrow [] b l e n is eq) = arrow (t ∷ []) b l e (h, n) is eq
  later_arrow t _ (some _) h (arrow (s ∷ a) b l e n is eq) = arrow (t ∷ s ∷ a) b l e (h, n) is eq

  reverse_at_lem : (row : List TokenTree) → ArrowAt row (reverse_at k row)
  unfolding reverse_at
  reverse_at_lem [] = no_arrow tt
  reverse_at_lem (t ∷ ts) = at (is_char k b'<' t && next_is k b'=' ts) refl (reverse_at_lem ts)
    where
      at :
          (b : Bool)
          → (is_char k b'<' t && next_is k b'=' ts) ≡ b
          → ArrowAt ts (reverse_at k ts)
          → ArrowAt
              (t ∷ ts)
              (if b then some 0 else elim (reverse_at k ts) [ none ↦ none | some i ↦ some (suc i) ])
      at true h later = first_arrow t ts h
      at false h later = later_arrow t ts (reverse_at k ts) h later

  later_end :
      (t : TokenTree) (ts : List TokenTree) (o : Option ℕ)
      → ends_trigger k t ≡ false
      → EndAt ts o
      → EndAt (t ∷ ts) (elim o [ none ↦ none | some i ↦ some (suc i) ])
  later_end t ts none h (no_end n) = no_end (h, n)
  later_end t _ (some _) h (end_at a b s n is) = end_at (t ∷ a) b s (h, n) is

  insertion_at_lem : (row : List TokenTree) → EndAt row (insertion_at k row)
  unfolding insertion_at
  insertion_at_lem [] = no_end tt
  insertion_at_lem (t ∷ ts) = at (ends_trigger k t) refl (insertion_at_lem ts)
    where
      at :
          (b : Bool)
          → ends_trigger k t ≡ b
          → EndAt ts (insertion_at k ts)
          → EndAt (t ∷ ts) (
              if b
              then some 0
              else elim (insertion_at k ts) [ none ↦ none | some i ↦ some (suc i) ])
      at true h later = end_at [] ts t tt h
      at false h later = later_end t ts (insertion_at k ts) h later

  directed :
      (row : List TokenTree)
      → length row ≤ usize_max
      → (out : List TokenTree) × (normalize_direction k row ≡ ok out) × Directed row out
  unfolding normalize_direction
  directed row bound = found (reverse_at k row) row bound (reverse_at_lem row)
    where
      found :
          (o : Option ℕ) (r : List TokenTree)
          → length r ≤ usize_max
          → ArrowAt r o
          → (out : List TokenTree) × (elim o [
            | none ↦ ok r
            | some index ↦ (do
              suffix ← get_from invalid_target (saturating_add index 2) r
              prefix ← get_to invalid_source index r
              ok (suffix ++ alone b'=' ∷ prefix))
          ]
              ≡ ok out)
            × Directed r out
      found none r bound (no_arrow n) = (r, refl, forward r n)
      found (some _) _ bound (arrow a b l e n is eq) = (
        b ++ alone b'=' ∷ a,
        rw (
          get_from-behind invalid_target a b l e bound,
          get_to-append invalid_source a (l ∷ e ∷ b),
        ),
        backward a b l e n is eq,
      )

  triggered :
      (row : List TokenTree)
      → (out : List TokenTree) × (insert_trigger k row ≡ ok out) × Triggered row out
  unfolding insert_trigger insert_at
  triggered row = elim (Bool-cases (has_char k b'+' row)) [
    | inl h ↦ (row, rw h, written row h)
    | inr h ↦ found (insertion_at k row) row h (insertion_at_lem row)
  ]
    where
      found :
          (o : Option ℕ) (r : List TokenTree)
          → has_char k b'+' r ≡ false
          → EndAt r o
          → (out : List TokenTree) × ((if has_char k b'+' r then ok r else insert_at k o r)
              ≡ ok out)
            × Triggered r out
      found none r h (no_end n) = (r, rw h, nowhere r h n)
      found (some _) _ h (end_at a b t n is) = (
        a ++ completion_trigger ++ t ∷ b,
        rw (h, get_to-append invalid_range a (t ∷ b), get_from-append invalid_suffix a (t ∷ b)),
        inserted a b t h n is,
      )

  -- A row of at most `usize::MAX` tokens is never refused: the row that results is the same one, turned
  -- from its source to its target if it has an arrow `<=`, at its first one, and with
  -- the trigger of completions, if it has no `+`, in front of the first action, target or guard, if it
  -- has one.
  pub normalize_transition_lem :
      (row : List TokenTree)
      → length row ≤ usize_max
      → (mid out : List TokenTree) × (normalize_transition k row ≡ ok out)
        × Directed row mid
        × Triggered mid out
  unfolding normalize_transition
  normalize_transition_lem row h =
      let (mid, turned, d) = directed row h in
      let (out, completed, t) = triggered mid in (mid, out, rw (turned, completed), d, t)
