-- ===== src/Codegen/Sequence/Order.antt =====
-- In which order the generated code runs the items of an action sequence.
use sml_rs.Base.{
  ℕ, suc, ◌+◌, ◌≤◌, ◌≡◌, refl, ap, sym, ◌∙◌, Bool, true, false, ◌&&◌, ◌||◌, ◌==◌, ==_ne, ==_eq,
  if_true, if_false, none, some, List, [], ◌∷◌, ◌++◌, append-nil, append_assoc, length,
  length-append, get_elem?, saturating_add, usize_max, ok, ◌>>=◌, arith,
}
use sml_rs.Parser.Guard.{AsyncIdent}
use sml_rs.Parser.Table.{Syntax, EvalAction}
use sml_rs.Codegen.Sequence.{
  Item, callback, eval, defer_item, process_item, ActionItems, no_items, collect_item,
  collect_items, Step, call, eval_call, guard_is_async, find_eval, keeps_data, generate_steps,
  generate_actions,
}

module _ (x : Syntax) where
  open x use {Ident, Expr}

  -- The callbacks of a sequence, and its evals with the positions that count every item from `p`.
  abbrev pub callbacks : List (Item x) → List (AsyncIdent Ident)
  callbacks [] = []
  callbacks (callback a ∷ items) = a ∷ callbacks items
  callbacks (eval g a ∷ items) = callbacks items
  callbacks (defer_item ∷ items) = callbacks items
  callbacks (process_item e ∷ items) = callbacks items

  abbrev evals_at : ℕ → List (Item x) → List (EvalAction x)
  evals_at p [] = []
  evals_at p (callback a ∷ items) = evals_at (suc p) items
  evals_at p (eval g a ∷ items) =
      record { position = p; guard = g; action = a } ∷ evals_at (suc p) items
  evals_at p (defer_item ∷ items) = evals_at (suc p) items
  evals_at p (process_item e ∷ items) = evals_at (suc p) items

  abbrev pub no_callback : List (Item x) → Bool
  no_callback [] = true
  no_callback (callback a ∷ items) = false
  no_callback (eval g a ∷ items) = no_callback items
  no_callback (defer_item ∷ items) = no_callback items
  no_callback (process_item e ∷ items) = no_callback items

  -- What a sequence asks for: its callbacks and evals as they were written, the last callback's
  -- answer kept where the target has data.
  abbrev pub in_order : Bool → List (Item x) → List (Step x)
  in_order keeps [] = []
  in_order keeps (callback a ∷ items) = call a (keeps && no_callback items) ∷ in_order keeps items
  in_order keeps (eval g a ∷ items) = eval_call g a ∷ in_order keeps items
  in_order keeps (defer_item ∷ items) = in_order keeps items
  in_order keeps (process_item e ∷ items) = in_order keeps items

  abbrev pub awaits : List (Item x) → Bool
  awaits [] = false
  awaits (callback a ∷ items) = a.is_async || awaits items
  awaits (eval g a ∷ items) = a.is_async || guard_is_async x g || awaits items
  awaits (defer_item ∷ items) = awaits items
  awaits (process_item e ∷ items) = awaits items

  abbrev pub NoEval : List (Item x) → Type 0
  NoEval [] = Unit
  NoEval (callback a ∷ items) = NoEval items
  NoEval (eval g a ∷ items) = ⊥
  NoEval (defer_item ∷ items) = NoEval items
  NoEval (process_item e ∷ items) = NoEval items

  -- No `eval` stands behind a `defer` or a `process`.
  abbrev pub QueueLast : List (Item x) → Type 0
  QueueLast [] = Unit
  QueueLast (callback a ∷ items) = QueueLast items
  QueueLast (eval g a ∷ items) = QueueLast items
  QueueLast (defer_item ∷ items) = NoEval items
  QueueLast (process_item e ∷ items) = NoEval items

  NoEval-QueueLast : (items : List (Item x)) → NoEval items → QueueLast items
  NoEval-QueueLast [] h = h
  NoEval-QueueLast (callback a ∷ items) h = NoEval-QueueLast items h
  NoEval-QueueLast (eval g a ∷ items) h = absurd h
  NoEval-QueueLast (defer_item ∷ items) h = h
  NoEval-QueueLast (process_item e ∷ items) h = h

  NoEval-evals_at : (p : ℕ) (items : List (Item x)) → NoEval items → evals_at p items ≡ []
  NoEval-evals_at p [] h = refl
  NoEval-evals_at p (callback a ∷ items) h = NoEval-evals_at (suc p) items h
  NoEval-evals_at p (eval g a ∷ items) h = absurd h
  NoEval-evals_at p (defer_item ∷ items) h = NoEval-evals_at (suc p) items h
  NoEval-evals_at p (process_item e ∷ items) h = NoEval-evals_at (suc p) items h

  -- What the parser collects.
  collected_actions :
      (items : List (Item x)) (c : ActionItems x)
      → (collect_items x items c).actions ≡ c.actions ++ callbacks items
  unfolding collect_items
  collected_actions [] c = sym (append-nil c.actions)
  collected_actions (callback a ∷ items) c =
      collected_actions items (collect_item x (callback a) c)
      ∙ append_assoc c.actions (a ∷ []) (callbacks items)
  collected_actions (eval g a ∷ items) c = collected_actions items (collect_item x (eval g a) c)
  collected_actions (defer_item ∷ items) c = collected_actions items (collect_item x defer_item c)
  collected_actions (process_item e ∷ items) c =
      collected_actions items (collect_item x (process_item e) c)

  collected_evals :
      (items : List (Item x)) (c : ActionItems x) (p : ℕ)
      → c.position ≡ p
      → p + length items ≤ usize_max
      → (collect_items x items c).eval_actions ≡ c.eval_actions ++ evals_at p items
  unfolding collect_items
  collected_evals [] c p e h = sym (append-nil c.eval_actions)
  collected_evals (callback a ∷ items) c p e h =
      collected_evals items (collect_item x (callback a) c) (suc p) (omega arith) (omega arith)
  collected_evals (eval g a ∷ items) c p e h =
      collected_evals items (collect_item x (eval g a) c) (suc p) (omega arith) (omega arith)
      ∙ append_assoc c.eval_actions _ (evals_at (suc p) items)
      ∙ ap
          (λ n.
            c.eval_actions
            ++ record { position = n; guard = g; action = a } ∷ evals_at (suc p) items)
          e
  collected_evals (defer_item ∷ items) c p e h =
      collected_evals items (collect_item x defer_item c) (suc p) (omega arith) (omega arith)
  collected_evals (process_item ev ∷ items) c p e h =
      collected_evals items (collect_item x (process_item ev) c) (suc p) (omega arith) (omega arith)

  -- No eval stands at an earlier position.
  find_eval-evals_at :
      (k p : ℕ) (items : List (Item x)) → suc k ≤ p → find_eval x k (evals_at p items) ≡ none
  unfolding find_eval
  find_eval-evals_at k p [] h = refl
  find_eval-evals_at k p (callback a ∷ items) h = find_eval-evals_at k (suc p) items (omega arith)
  find_eval-evals_at k p (eval g a ∷ items) h =
      if_false (==_ne p k (λ e. omega arith)) _ _ ∙ find_eval-evals_at k (suc p) items (omega arith)
  find_eval-evals_at k p (defer_item ∷ items) h = find_eval-evals_at k (suc p) items (omega arith)
  find_eval-evals_at k p (process_item e ∷ items) h =
      find_eval-evals_at k (suc p) items (omega arith)

  get_elem?-append :
      (pre : List (AsyncIdent Ident)) (a : AsyncIdent Ident) (post : List (AsyncIdent Ident))
      → get_elem? (pre ++ a ∷ post) (length pre) ≡ some a
  get_elem?-append [] a post = refl
  get_elem?-append (b ∷ pre) a post = get_elem?-append pre a post

  last_callback :
      (n : ℕ) (items : List (Item x))
      → (suc n == n + suc (length (callbacks items))) ≡ no_callback items
  last_callback n [] = ==_eq _ _ (omega arith)
  last_callback n (callback a ∷ items) = ==_ne _ _ (λ e. omega arith)
  last_callback n (eval g a ∷ items) = last_callback n items
  last_callback n (defer_item ∷ items) = last_callback n items
  last_callback n (process_item e ∷ items) = last_callback n items

  -- The steps that are left to generate.
  abbrev count : List (Item x) → ℕ
  count [] = 0
  count (callback a ∷ items) = suc (count items)
  count (eval g a ∷ items) = suc (count items)
  count (defer_item ∷ items) = count items
  count (process_item e ∷ items) = count items

  module _ (produces : Bool) (actions : List (AsyncIdent Ident)) (evals : List (EvalAction x)) where
    -- From position `p` on the generator finds the evals of `items`.
    abbrev FindsFrom : ℕ → List (Item x) → Type 0
    FindsFrom p items = (k : ℕ) → p ≤ k → find_eval x k evals ≡ find_eval x k (evals_at p items)

    generate_steps-call :
        (left p n : ℕ) {a : AsyncIdent Ident}
        → find_eval x p evals ≡ none
        → get_elem? actions n ≡ some a
        → generate_steps x actions produces evals (suc left) p n ≡ (do
          (is_async, steps) ←
              generate_steps x actions produces evals left (suc p) (saturating_add n 1)
          ok (a.is_async || is_async, call a (keeps_data x actions produces n) ∷ steps))
    unfolding generate_steps
    generate_steps-call left p n none_here here = rw (none_here, here, generate_steps)

    generate_steps-eval :
        (left p n : ℕ) {e : EvalAction x}
        → find_eval x p evals ≡ some e
        → generate_steps x actions produces evals (suc left) p n ≡ (do
          (is_async, steps) ← generate_steps x actions produces evals left (suc p) n
          ok (
            e.action.is_async || guard_is_async x e.guard || is_async,
            eval_call e.guard e.action ∷ steps,
          ))
    unfolding generate_steps
    generate_steps-eval left p n found = rw (found, generate_steps)

    generate_steps_lem :
        (items : List (Item x)) (pre : List (AsyncIdent Ident)) (p : ℕ)
        → QueueLast items
        → actions ≡ pre ++ callbacks items
        → length pre + length items ≤ usize_max
        → FindsFrom p items
        → generate_steps x actions produces evals (count items) p (length pre)
          ≡ ok (awaits items, in_order produces items)
    unfolding generate_steps
    generate_steps_lem [] pre p q e h finds = refl
    generate_steps_lem (callback a ∷ items) pre p q e h finds =
        let none_here : find_eval x p evals ≡ none =
          finds p (omega arith) ∙ find_eval-evals_at p (suc p) items (omega arith) in
        let here : get_elem? actions (length pre) ≡ some a =
          ap (λ l. get_elem? l (length pre)) e ∙ get_elem?-append pre a (callbacks items) in
        let index : saturating_add (length pre) 1 ≡ length (pre ++ a ∷ []) =
          omega (arith, length-append pre (a ∷ [])) in
        let size : length actions ≡ length pre + suc (length (callbacks items)) =
          ap length e ∙ length-append pre (a ∷ callbacks items) in
        let plus : saturating_add (length pre) 1 ≡ suc (length pre) = omega arith in
        let keep : keeps_data x actions produces (length pre) ≡ produces && no_callback items =
          rw (size, plus, last_callback (length pre) items) in
        let rest : generate_steps x actions produces evals (count items) (suc p)
              (saturating_add (length pre) 1)
            ≡ ok (awaits items, in_order produces items) =
          rw index (
            generate_steps_lem items (pre ++ a ∷ []) (suc p) q
              (e ∙ sym (append_assoc pre (a ∷ []) (callbacks items)))
              (omega (arith, length-append pre (a ∷ []))) (λ k l. finds k (omega arith))) in
        generate_steps-call (count items) p (length pre) none_here here ∙ rw (rest, keep)
    generate_steps_lem (eval g a ∷ items) pre p q e h finds =
        let found = finds p (omega arith) ∙ if_true (==_eq p p refl) _ _ in
        let later : FindsFrom (suc p) items =
          λ k l. finds k (omega arith) ∙ if_false (==_ne p k (λ s. omega arith)) _ _ in
        generate_steps-eval (count items) p (length pre) found
        ∙ rw (generate_steps_lem items pre (suc p) q e (omega arith) later)
    generate_steps_lem (defer_item ∷ items) pre p q e h finds =
        generate_steps_lem items pre p (NoEval-QueueLast items q) e (omega arith) (λ k l.
          finds k l
          ∙ ap (find_eval x k) (NoEval-evals_at (suc p) items q ∙ sym (NoEval-evals_at p items q)))
    generate_steps_lem (process_item ev ∷ items) pre p q e h finds =
        generate_steps_lem items pre p (NoEval-QueueLast items q) e (omega arith) (λ k l.
          finds k l
          ∙ ap (find_eval x k) (NoEval-evals_at (suc p) items q ∙ sym (NoEval-evals_at p items q)))

  length-count :
      (p : ℕ) (items : List (Item x))
      → length (callbacks items) + length (evals_at p items) ≡ count items
  length-count p [] = refl
  length-count p (callback a ∷ items) = omega (arith, length-count (suc p) items)
  length-count p (eval g a ∷ items) = omega (arith, length-count (suc p) items)
  length-count p (defer_item ∷ items) = length-count (suc p) items
  length-count p (process_item e ∷ items) = length-count (suc p) items

  count-le : (items : List (Item x)) → count items ≤ length items
  count-le [] = omega arith
  count-le (callback a ∷ items) = omega (arith, count-le items)
  count-le (eval g a ∷ items) = omega (arith, count-le items)
  count-le (defer_item ∷ items) = omega (arith, count-le items)
  count-le (process_item e ∷ items) = omega (arith, count-le items)

  -- What is generated for a parsed sequence of at most `usize::MAX` items in which no `eval` stands
  -- behind a `defer` or a `process` runs its callbacks and evals exactly in the order in which they
  -- were written, keeps the answer of the last callback if the target has data, and awaits if one
  -- of them is `async`.
  pub generate_actions-collect_items :
      (items : List (Item x)) (produces : Bool)
      → QueueLast items
      → length items ≤ usize_max
      → generate_actions x
          (collect_items x items (no_items x)).actions
          produces
          (collect_items x items (no_items x)).eval_actions
        ≡ ok (awaits items, in_order produces items)
  unfolding generate_actions
  generate_actions-collect_items items produces q h =
      let total : saturating_add (length (callbacks items)) (length (evals_at 0 items))
          ≡ count items =
        omega (arith, length-count 0 items, count-le items) in
      rw
        (
          collected_actions items (no_items x),
          collected_evals items (no_items x) 0 refl (omega arith),
          total,
        )
        (generate_steps_lem produces (callbacks items) (evals_at 0 items) items [] 0 q refl
          (omega arith) (λ k l. refl))
