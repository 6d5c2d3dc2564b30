-- ===== src/Parser/Cpp/Body.antt =====
-- Splitting a body of macros/src/parser/cpp.rs gives back the rows that it was put together from.
use sml_rs.Base.{
  Bool, ◌&&◌, ℕ, suc, ◌+◌, ◌≤◌, ◌<◌, ◌≡◌, refl, sym, ap, ◌∙◌, true, false, ltb, ◌==◌, some, List,
  [], ◌∷◌, ◌++◌, append-nil, append_assoc, length, length-append, saturating_add, saturating_sub,
  usize_max, arith,
}
use sml_rs.Parser.Cpp.{
  TokenTrees, is_char, next_is, arm_of, opens, closes, plain, push_row, split_transitions,
}
use sml_rs.Parser.Cpp.Split.{
  is_char_other, depth_by, depth_after, AreRows, body, split_transitions-rows,
}

and_no : (b : Bool) → (b && false) ≡ false
and_no true = refl
and_no false = refl

module _ (k : TokenTrees) where
  open k use {TokenTree}

  -- Tokens between angle brackets, commas included: a `<` opens a pair unless it is that of `<=`.
  pub data Inside : List TokenTree → Type 0 where
    inside_end : Inside []
    inside_token :
        (t : TokenTree) (ts : List TokenTree)
        → is_char k b'<' t ≡ false
        → is_char k b'>' t ≡ false
        → Inside ts
        → Inside (t ∷ ts)
    inside_arrow :
        (l e : TokenTree) (ts : List TokenTree)
        → is_char k b'<' l ≡ true
        → is_char k b'=' e ≡ true
        → Inside ts
        → Inside (l ∷ e ∷ ts)
    inside_angles :
        (l r : TokenTree) (inner ts : List TokenTree)
        → is_char k b'<' l ≡ true
        → is_char k b'>' r ≡ true
        → next_is k b'=' inner ≡ false
        → Inside inner
        → Inside ts
        → Inside (l ∷ inner ++ r ∷ ts)

  -- The tokens of a row: its commas all stand between angle brackets.
  pub data Outside : List TokenTree → Type 0 where
    outside_end : Outside []
    outside_token :
        (t : TokenTree) (ts : List TokenTree)
        → is_char k b'<' t ≡ false
        → is_char k b',' t ≡ false
        → Outside ts
        → Outside (t ∷ ts)
    outside_arrow :
        (l e : TokenTree) (ts : List TokenTree)
        → is_char k b'<' l ≡ true
        → is_char k b'=' e ≡ true
        → Outside ts
        → Outside (l ∷ e ∷ ts)
    outside_angles :
        (l r : TokenTree) (inner ts : List TokenTree)
        → is_char k b'<' l ≡ true
        → is_char k b'>' r ≡ true
        → next_is k b'=' inner ≡ false
        → Inside inner
        → Outside ts
        → Outside (l ∷ inner ++ r ∷ ts)

  -- Rows that have tokens, no more than a `usize` counts.
  pub data Rows : List (List TokenTree) → Type 0 where
    no_rows : Rows []
    row_then :
        (t : TokenTree) (ts : List TokenTree) (rows : List (List TokenTree))
        → Outside (t ∷ ts)
        → length (t ∷ ts) ≤ usize_max
        → Rows rows
        → Rows ((t ∷ ts) ∷ rows)

  -- The arms of the tokens.
  arm_plain :
      (t : TokenTree) (ts : List TokenTree) (depth : ℕ)
      → is_char k b'<' t ≡ false
      → is_char k b'>' t ≡ false
      → 0 < depth
      → arm_of k t ts depth ≡ plain
  unfolding arm_of
  arm_plain t ts depth l g h =
      let positive : (depth == 0) ≡ false = ground (arith, h) in
      rw (l, g, positive, and_no (is_char k b',' t))

  arm_outside :
      (t : TokenTree) (ts : List TokenTree)
      → is_char k b'<' t ≡ false
      → is_char k b',' t ≡ false
      → arm_of k t ts 0 ≡ plain
  unfolding arm_of
  arm_outside t ts l c = rw (l, c, and_no (is_char k b'>' t))

  arm_arrow :
      (l : TokenTree) (ts : List TokenTree) (depth : ℕ)
      → is_char k b'<' l ≡ true
      → next_is k b'=' ts ≡ true
      → arm_of k l ts depth ≡ plain
  unfolding arm_of
  arm_arrow l ts depth h e = rw (
    h,
    e,
    is_char_other k b'<' b'>' l (λ e. omega arith) h,
    is_char_other k b'<' b',' l (λ e. omega arith) h,
  )

  arm_equals :
      (e : TokenTree) (ts : List TokenTree) (depth : ℕ)
      → is_char k b'=' e ≡ true
      → arm_of k e ts depth ≡ plain
  unfolding arm_of
  arm_equals e ts depth h = rw (
    is_char_other k b'=' b'<' e (λ e. omega arith) h,
    is_char_other k b'=' b'>' e (λ e. omega arith) h,
    is_char_other k b'=' b',' e (λ e. omega arith) h,
  )

  arm_opens :
      (l : TokenTree) (ts : List TokenTree) (depth : ℕ)
      → is_char k b'<' l ≡ true
      → next_is k b'=' ts ≡ false
      → arm_of k l ts depth ≡ opens
  unfolding arm_of
  arm_opens l ts depth h e = rw (h, e)

  arm_closes :
      (r : TokenTree) (ts : List TokenTree) (depth : ℕ)
      → is_char k b'>' r ≡ true
      → arm_of k r ts (suc depth) ≡ closes
  unfolding arm_of
  arm_closes r ts depth h =
      let positive : ltb 0 (suc depth) ≡ true = ground arith in
      rw (is_char_other k b'>' b'<' r (λ e. omega arith) h, h, positive)

  depth-step :
      (t : TokenTree) (ts : List TokenTree) (depth inner : ℕ)
      → depth_by k (arm_of k t ts depth) depth ≡ some inner
      → depth_after k (t ∷ ts) depth ≡ depth_after k ts inner
  unfolding depth_after
  depth-step t ts depth inner e = rw (depth_after, e)

  plain-step :
      (t : TokenTree) (ts : List TokenTree) (depth : ℕ)
      → arm_of k t ts depth ≡ plain
      → depth_after k (t ∷ ts) depth ≡ depth_after k ts depth
  plain-step t ts depth e = depth-step t ts depth depth (ap (λ a. depth_by k a depth) e)

  next_is-inner :
      (inner ts : List TokenTree) (r : TokenTree)
      → is_char k b'>' r ≡ true
      → next_is k b'=' inner ≡ false
      → next_is k b'=' (inner ++ r ∷ ts) ≡ false
  unfolding next_is
  next_is-inner [] ts r h e = is_char_other k b'>' b'=' r (λ e. omega arith) h
  next_is-inner (i ∷ inner) ts r h e = e

  arrow-steps :
      (l e : TokenTree) (ts : List TokenTree) (depth : ℕ)
      → is_char k b'<' l ≡ true
      → is_char k b'=' e ≡ true
      → depth_after k (l ∷ e ∷ ts) depth ≡ depth_after k ts depth
  unfolding next_is
  arrow-steps l e ts depth h g =
      plain-step l (e ∷ ts) depth (arm_arrow l (e ∷ ts) depth h g)
      ∙ plain-step e ts depth (arm_equals e ts depth g)

  -- A pair of angle brackets, whose tokens keep the depth.
  angles-steps :
      (l r : TokenTree) (inner ts rest : List TokenTree) (depth : ℕ)
      → is_char k b'<' l ≡ true
      → is_char k b'>' r ≡ true
      → next_is k b'=' inner ≡ false
      → suc depth ≤ usize_max
      → ((later : List TokenTree)
          → depth_after k (inner ++ later) (suc depth) ≡ depth_after k later (suc depth))
      → depth_after k ((l ∷ inner ++ r ∷ ts) ++ rest) depth ≡ depth_after k (ts ++ rest) depth
  angles-steps l r inner ts rest depth h g n bound keeps =
      ap (λ m. depth_after k (l ∷ m) depth) (append_assoc inner (r ∷ ts) rest)
      ∙ depth-step l (inner ++ r ∷ (ts ++ rest)) depth (suc depth) (
          ap (λ a. depth_by k a depth)
            (arm_opens l (inner ++ r ∷ (ts ++ rest)) depth h
              (next_is-inner inner (ts ++ rest) r g n))
          ∙ ap some up)
      ∙ keeps (r ∷ (ts ++ rest))
      ∙ depth-step r (ts ++ rest) (suc depth) depth
          (ap (λ a. depth_by k a (suc depth)) (arm_closes r (ts ++ rest) depth g) ∙ ap some down)
    where
      up : saturating_add depth 1 ≡ suc depth
      up = omega (arith, bound)

      down : saturating_sub (suc depth) 1 ≡ depth
      down = omega arith

  Inside-depth :
      {ts : List TokenTree}
      → Inside ts
      → (rest : List TokenTree) (depth : ℕ) → 0 < depth
      → depth + length ts ≤ usize_max
      → depth_after k (ts ++ rest) depth ≡ depth_after k rest depth
  Inside-depth inside_end rest depth h b = refl
  Inside-depth (inside_token t ts l g i) rest depth h b =
      plain-step t (ts ++ rest) depth (arm_plain t (ts ++ rest) depth l g h)
      ∙ Inside-depth i rest depth h (omega arith)
  Inside-depth (inside_arrow l e ts x y i) rest depth h b =
      arrow-steps l e (ts ++ rest) depth x y ∙ Inside-depth i rest depth h (omega arith)
  Inside-depth (inside_angles l r inner ts x y n i j) rest depth h b =
      let total = length-append inner (r ∷ ts) in
      angles-steps l r inner ts rest depth x y n (omega (arith, total))
        (λ later. Inside-depth i later (suc depth) (omega arith) (omega (arith, total)))
      ∙ Inside-depth j rest depth h (omega (arith, total))

  Outside-depth :
      {ts : List TokenTree}
      → Outside ts
      → (rest : List TokenTree) → length ts ≤ usize_max
      → depth_after k (ts ++ rest) 0 ≡ depth_after k rest 0
  Outside-depth outside_end rest b = refl
  Outside-depth (outside_token t ts l c o) rest b =
      plain-step t (ts ++ rest) 0 (arm_outside t (ts ++ rest) l c)
      ∙ Outside-depth o rest (omega arith)
  Outside-depth (outside_arrow l e ts x y o) rest b =
      arrow-steps l e (ts ++ rest) 0 x y ∙ Outside-depth o rest (omega arith)
  Outside-depth (outside_angles l r inner ts x y n i o) rest b =
      let total = length-append inner (r ∷ ts) in
      angles-steps l r inner ts rest 0 x y n (omega (arith, total))
        (λ later. Inside-depth i later 1 (omega arith) (omega (arith, total)))
      ∙ Outside-depth o rest (omega (arith, total))

  closed_row :
      {ts : List TokenTree} → Outside ts → length ts ≤ usize_max → depth_after k ts 0 ≡ some 0
  unfolding depth_after
  closed_row {ts} o b = ap (λ l. depth_after k l 0) (sym (append-nil ts)) ∙ Outside-depth o [] b

  Rows-AreRows : {rows : List (List TokenTree)} → Rows rows → AreRows k rows
  Rows-AreRows no_rows = tt
  Rows-AreRows (row_then t ts rows o b r) = (closed_row o b, Rows-AreRows r)

  -- Splitting a body gives exactly the rows that commas separate in it, in order, with or without a
  -- comma behind the last one: where each row has tokens, and every comma of a row stands
  -- between angle brackets, in which `<=` is no bracket, and which are closed in the row; a row has
  -- at most `usize::MAX` tokens.
  pub split_transitions-body :
      (comma : TokenTree) (is_comma : is_char k b',' comma ≡ true) (rows : List (List TokenTree))
      (last : List TokenTree)
      → Rows rows
      → Outside last
      → length last ≤ usize_max
      → split_transitions k (body k comma is_comma rows last) ≡ rows ++ push_row k last []
  split_transitions-body comma is_comma rows last r o b =
      split_transitions-rows k comma is_comma rows last (Rows-AreRows r) (closed_row o b)
