-- ===== src/Parser/Cpp/Split.antt =====
-- Splitting a body, over the depth of angle brackets that the loop counts.
use sml_rs.Base.{
  ℕ, ◌≡◌, ◌≢◌, refl, sym, ap, ◌∙◌, true, false, ◌==◌, ==_iff, ==_ne, Option, none, some, List, [],
  ◌∷◌, ◌++◌, append-nil, append_assoc, saturating_add, saturating_sub, arith,
}
use sml_rs.Parser.Cpp.{
  TokenTrees, is_char, next_is, Arm, opens, closes, separates, plain, arm_of, push_row, split_loop,
  split_transitions,
}

module _ (k : TokenTrees) where
  open k use {TokenTree, as_char}

  -- A token is one character at most.
  pub is_char_other :
      (c d : ℕ) (t : TokenTree) → c ≢ d → is_char k c t ≡ true → is_char k d t ≡ false
  unfolding is_char
  is_char_other c d t ne h = known (as_char t) h
    where
      known :
          (o : Option ℕ)
          → elim o [ none ↦ false | some e ↦ e == c ] ≡ true
          → elim o [ none ↦ false | some e ↦ e == d ] ≡ false
      known none h = refl
      known (some e) h = ==_ne e d (λ same. ne (sym ((==_iff e c).0 h) ∙ same))

  -- The depth of angle brackets after a row, if no comma of it stands outside of them.
  abbrev pub depth_by : Arm → ℕ → Option ℕ
  depth_by opens depth = some (saturating_add depth 1)
  depth_by closes depth = some (saturating_sub depth 1)
  depth_by separates depth = none
  depth_by plain depth = some depth

  unfoldable pub depth_after : List TokenTree → ℕ → Option ℕ
  depth_after [] depth = some depth
  depth_after (t ∷ ts) depth = elim (depth_by (arm_of k t ts depth) depth) [
    | none ↦ none
    | some inner ↦ depth_after ts inner
  ]

  -- A row: tokens, whose commas all stand in angle brackets, which are closed at the end.
  abbrev pub IsRow : List TokenTree → Type 0
  IsRow [] = ⊥
  IsRow (t ∷ ts) = depth_after (t ∷ ts) 0 ≡ some 0

  abbrev pub AreRows : List (List TokenTree) → Type 0
  AreRows [] = Unit
  AreRows (row ∷ rows) = IsRow row × AreRows rows

  next_is-append :
      (ts rest : List TokenTree)
      → next_is k b'=' rest ≡ false
      → next_is k b'=' (ts ++ rest) ≡ next_is k b'=' ts
  unfolding next_is
  next_is-append [] rest h = h
  next_is-append (t ∷ ts) rest h = refl

  -- One round of the loop, at a token that ends no row.
  split_loop_step :
      (a : Arm) (t : TokenTree) (ts current : List TokenTree) (depth inner : ℕ)
      → arm_of k t ts depth ≡ a
      → depth_by a depth ≡ some inner
      → split_loop k (t ∷ ts) current depth ≡ split_loop k ts (current ++ t ∷ []) inner
  unfolding split_loop
  split_loop_step opens t ts current depth inner is d =
      let same : saturating_add depth 1 ≡ inner = cc d in rw (is, split_loop, same)
  split_loop_step closes t ts current depth inner is d =
      let same : saturating_sub depth 1 ≡ inner = cc d in rw (is, split_loop, same)
  split_loop_step separates t ts current depth inner is d = cc
  split_loop_step plain t ts current depth inner is d =
      let same : depth ≡ inner = cc d in rw (is, split_loop, same)

  arm_of-append :
      (t : TokenTree) (ts rest : List TokenTree) (depth : ℕ)
      → next_is k b'=' rest ≡ false
      → arm_of k t (ts ++ rest) depth ≡ arm_of k t ts depth
  unfolding arm_of
  arm_of-append t ts rest depth h = rw (next_is-append ts rest h)

  split_loop-append :
      (row rest current : List TokenTree) (depth depth' : ℕ)
      → next_is k b'=' rest ≡ false
      → depth_after row depth ≡ some depth'
      → split_loop k (row ++ rest) current depth ≡ split_loop k rest (current ++ row) depth'
  unfolding depth_after
  split_loop-append [] rest current depth depth' h e =
      let same : depth ≡ depth' = cc e in rw (append-nil, same)
  split_loop-append (t ∷ ts) rest current depth depth' h e =
      stepped (depth_by (arm_of k t ts depth) depth) refl e
        (λ inner f. split_loop-append ts rest (current ++ t ∷ []) inner depth' h f)
    where
      stepped :
          (o : Option ℕ)
          → depth_by (arm_of k t ts depth) depth ≡ o
          → elim o [ none ↦ none | some inner ↦ depth_after ts inner ] ≡ some depth'
          → ((inner : ℕ)
              → depth_after ts inner ≡ some depth'
              → split_loop k (ts ++ rest) (current ++ t ∷ []) inner
                ≡ split_loop k rest ((current ++ t ∷ []) ++ ts) depth')
          → split_loop k (t ∷ ts ++ rest) current depth
            ≡ split_loop k rest (current ++ t ∷ ts) depth'
      stepped none d f later = cc
      stepped (some inner) d f later =
          split_loop_step (arm_of k t ts depth) t (ts ++ rest) current depth inner
            (arm_of-append t ts rest depth h) d
          ∙ later inner f
          ∙ ap (λ row. split_loop k rest row depth') (append_assoc current (t ∷ []) ts)

  module _ (comma : TokenTree) (is_comma : is_char k b',' comma ≡ true) where
    -- Rows that a comma ends, in front of a last row without one, if that is not empty.
    abbrev pub body : List (List TokenTree) → List TokenTree → List TokenTree
    body [] last = last
    body (row ∷ rows) last = row ++ comma ∷ body rows last

    comma_arm : (ts : List TokenTree) → arm_of k comma ts 0 ≡ separates
    unfolding arm_of
    comma_arm ts = rw (
      is_char_other b',' b'<' comma (λ e. omega arith) is_comma,
      is_char_other b',' b'>' comma (λ e. omega arith) is_comma,
      is_comma,
    )

    split_comma :
        (ts current : List TokenTree)
        → split_loop k (comma ∷ ts) current 0 ≡ push_row k current (split_loop k ts [] 0)
    unfolding split_loop
    split_comma ts current = rw (comma_arm ts, split_loop)

    push_nonempty :
        (row : List TokenTree) (later : List (List TokenTree))
        → IsRow row
        → push_row k row later ≡ row ∷ later
    push_nonempty [] later h = absurd h
    push_nonempty (t ∷ ts) later h = refl

    row_depth : (row : List TokenTree) → IsRow row → depth_after row 0 ≡ some 0
    row_depth [] h = absurd h
    row_depth (t ∷ ts) h = h

    next_is_comma : (ts : List TokenTree) → next_is k b'=' (comma ∷ ts) ≡ false
    unfolding next_is
    next_is_comma ts = is_char_other b',' b'=' comma (λ e. omega arith) is_comma

    split_last :
        (last : List TokenTree)
        → depth_after last 0 ≡ some 0
        → split_loop k last [] 0 ≡ push_row k last []
    unfolding split_loop next_is
    split_last last h =
        ap (λ l. split_loop k l [] 0) (sym (append-nil last))
        ∙ split_loop-append last [] [] 0 0 refl h

    -- Splitting a body gives its rows, where the depth is none behind each of them.
    pub split_transitions-rows :
        (rows : List (List TokenTree)) (last : List TokenTree)
        → AreRows rows
        → depth_after last 0 ≡ some 0
        → split_transitions k (body rows last) ≡ rows ++ push_row k last []
    unfolding split_transitions
    split_transitions-rows [] last h l = split_last last l
    split_transitions-rows (row ∷ rows) last h l =
        split_loop-append row (comma ∷ body rows last) [] 0 0 (next_is_comma (body rows last))
          (row_depth row h.0)
        ∙ split_comma (body rows last) row
        ∙ push_nonempty row _ h.0
        ∙ ap (λ later. row ∷ later) (split_transitions-rows rows last h.1 l)
