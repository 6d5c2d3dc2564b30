-- ===== src/Utility/Hierarchical/Routing.antt =====
-- Who receives an event in a hierarchy, and what each answer of the routing means.
use sml_rs.Base.{
  Bool, true, false, ◌≡◌, ◌↔◌, ◌&&◌, if◌then◌else◌, refl, ◌∙◌, ap, List, [], ◌∷◌, arith,
}
use sml_rs.Utility.Hierarchical.{
  HierarchicalDispatch, child, child_terminated, parent, unhandled, Hierarchical, Closure,
  activate_child, deactivate_child, process_event, process_event_with_completion,
}

module _ {P C E : Type 0} (is_terminated : C → Bool) (child_dispatch : Closure C E)
    (parent_dispatch : Closure P E) where
  -- The event reaches the child and the child handles it.
  abbrev pub child_handles : Hierarchical P C → E → Bool
  child_handles h event = h.child_active && (child_dispatch h.child event).1

  -- What an answer of `process_event` says of the event.
  abbrev pub Means : HierarchicalDispatch → Hierarchical P C → E → Type 0
  Means child h event =
      (child_handles h event ≡ true) × (is_terminated (child_dispatch h.child event).0 ≡ false)
  Means child_terminated h event =
      (child_handles h event ≡ true) × (is_terminated (child_dispatch h.child event).0 ≡ true)
  Means parent h event =
      (child_handles h event ≡ false) × ((parent_dispatch h.parent event).1 ≡ true)
  Means unhandled h event =
      (child_handles h event ≡ false) × ((parent_dispatch h.parent event).1 ≡ false)

  abbrev routed : E → Hierarchical P C → HierarchicalDispatch × Hierarchical P C
  routed = process_event is_terminated child_dispatch parent_dispatch

  -- Each answer of `process_event` is given in exactly the cases that it stands for.
  pub process_event-Means :
      (event : E) (h : Hierarchical P C) (answer : HierarchicalDispatch)
      → ((routed event h).0 ≡ answer) ↔ Means answer h event
  unfolding process_event
  process_event-Means event h child = ground arith
  process_event-Means event h child_terminated = ground arith
  process_event-Means event h parent = ground arith
  process_event-Means event h unhandled = ground arith

  -- The child sees an event exactly if it is active, and the parent exactly if the child did not
  -- handle it; routing never activates or deactivates the child.
  pub process_event_touches :
      (event : E) (h : Hierarchical P C)
      → (routed event h).1 ≡ record {
        parent = if child_handles h event then h.parent else (parent_dispatch h.parent event).0;
        child = if h.child_active then (child_dispatch h.child event).0 else h.child;
        child_active = h.child_active;
      }
  unfolding process_event
  process_event_touches event h = ground arith

  -- The hierarchy after a list of events.
  pub route_all : List E → Hierarchical P C → Hierarchical P C
  route_all [] h = h
  route_all (event ∷ events) h = route_all events (routed event h).1

  inactive_keeps_child :
      (events : List E) (h : Hierarchical P C)
      → h.child_active ≡ false
      → ((route_all events h).child ≡ h.child) × ((route_all events h).child_active ≡ false)
  unfolding route_all
  inactive_keeps_child [] h off = (refl, off)
  inactive_keeps_child (event ∷ events) h off =
      let t = process_event_touches event h in
      let (kept, still_off) =
        inactive_keeps_child events (routed event h).1 (ap (λ g. g.child_active) t ∙ off) in
      (kept ∙ ap (λ g. g.child) t ∙ rw off, still_off)

  -- Shallow history: whatever events a deactivated hierarchy receives, reactivating it resumes the
  -- child in the state in which it was left.
  pub history_kept :
      (events : List E) (h : Hierarchical P C)
      → let resumed = activate_child (route_all events (deactivate_child h)) in
        (resumed.child ≡ h.child) × (resumed.child_active ≡ true)
  unfolding activate_child deactivate_child
  history_kept events h = ((inactive_keeps_child events (deactivate_child h) refl).0, refl)

  abbrev completing :
      (P → P × Bool) → E → Hierarchical P C → HierarchicalDispatch × Hierarchical P C
  completing = process_event_with_completion is_terminated child_dispatch parent_dispatch

  -- A completion callback that leaves the parent alone and declines makes no difference.
  pub completion_declined :
      (child_completion : P → P × Bool) (event : E) (h : Hierarchical P C)
      → ((p : P) → child_completion p ≡ (p, false))
      → completing child_completion event h ≡ routed event h
  unfolding process_event process_event_with_completion
  completion_declined child_completion event h declines = ground (arith, declines h.parent)

  -- What a routed event means where the parent's completion callback is asked.
  abbrev pub after_routing :
      (P → P × Bool)
      → HierarchicalDispatch × Hierarchical P C
      → HierarchicalDispatch × Hierarchical P C
  after_routing child_completion (child_terminated, h) = elim (child_completion h.parent).1 [
    | true ↦ (parent, record h { parent = (child_completion h.parent).0; child_active = false })
    | false ↦ (child_terminated, record h { parent = (child_completion h.parent).0 })
  ]
  after_routing child_completion (child, h) = (child, h)
  after_routing child_completion (parent, h) = (parent, h)
  after_routing child_completion (unhandled, h) = (unhandled, h)

  -- `process_event_with_completion` is `process_event`, but where the child ended: there the callback
  -- is asked once, with the parent; if it handles the completion, the answer is `parent`, and the child
  -- is deactivated and keeps its state as history; if it does not, the answer is still that the child
  -- ended. Whenever the child did not end, the callback is not asked.
  pub completion_routed :
      (child_completion : P → P × Bool) (event : E) (h : Hierarchical P C)
      → completing child_completion event h ≡ after_routing child_completion (routed event h)
  unfolding process_event process_event_with_completion
  completion_routed child_completion event h = ground arith
