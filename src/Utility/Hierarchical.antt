-- ===== src/Utility/Hierarchical.antt =====
-- `Hierarchical` of src/utility.rs: a parent and a child machine, with child-first routing. A closure
-- that takes a machine by `&mut` returns the new machine beside its answer.
pub mod Routing
use sml_rs.Base.{Bool, true, false, ◌&&◌, if◌then◌else◌}

pub data HierarchicalDispatch : Type 0 where
  child child_terminated parent unhandled : HierarchicalDispatch

pub record Hierarchical (P C : Type 0) : Type 0 where
  pub parent : P
  pub child : C
  pub child_active : Bool

-- A dispatch closure: the new machine, and whether it handled the event.
abbrev pub Closure : Type 0 → Type 0 → Type 0
Closure M E = M → E → M × Bool

module _ {P C : Type 0} where
  unfoldable pub new : P → C → Hierarchical P C
  new p c = record { parent = p; child = c; child_active = false }

  unfoldable pub new_active : P → C → Hierarchical P C
  new_active p c = record { parent = p; child = c; child_active = true }

  unfoldable pub activate_child : Hierarchical P C → Hierarchical P C
  activate_child h = record h { child_active = true }

  unfoldable pub deactivate_child : Hierarchical P C → Hierarchical P C
  deactivate_child h = record h { child_active = false }

  unfoldable pub reset_child : C → Hierarchical P C → Hierarchical P C
  reset_child c h = record h { child = c; child_active = true }

module _ {P C : Type 0} where
  -- `FnMut(&mut P) -> bool`: the completion callback.
  unfoldable pub complete :
      (P → P × Bool) → Hierarchical P C → HierarchicalDispatch × Hierarchical P C
  complete child_completion h =
      let (p, done) = child_completion h.parent in
      if done
      then (parent, record h { parent = p; child_active = false })
      else (child_terminated, record h { parent = p })

-- The trait `Terminated` of the child is the argument `is_terminated`.
module _ {P C E : Type 0} (is_terminated : C → Bool) where
  -- The parent's turn, after the child did not handle the event.
  unfoldable pub bubble :
      Closure P E → E → Hierarchical P C → HierarchicalDispatch × Hierarchical P C
  bubble parent_dispatch event h =
      let (p, handled) = parent_dispatch h.parent event in
      (if handled then parent else unhandled, record h { parent = p })

  -- `self.child_active && child_dispatch(…)`: the child, and whether it handled the event. An
  -- inactive child's closure is not called.
  unfoldable pub offer_child : Closure C E → E → Hierarchical P C → Hierarchical P C × Bool
  offer_child child_dispatch event h =
      let (c, handled) = child_dispatch h.child event in
      if h.child_active then (record h { child = c }, handled) else (h, false)

  unfoldable pub process_event :
      Closure C E → Closure P E → E → Hierarchical P C → HierarchicalDispatch × Hierarchical P C
  unfolding bubble offer_child
  process_event child_dispatch parent_dispatch event h =
      let (h', handled) = offer_child child_dispatch event h in
      if handled
      then (if is_terminated h'.child then child_terminated else child, h')
      else bubble parent_dispatch event h'

  unfoldable pub process_event_with_completion :
      Closure C E
      → Closure P E
      → (P → P × Bool)
      → E
      → Hierarchical P C
      → HierarchicalDispatch × Hierarchical P C
  unfolding bubble offer_child complete
  process_event_with_completion child_dispatch parent_dispatch child_completion event h =
      let (h', handled) = offer_child child_dispatch event h in
      if handled
      then (if is_terminated h'.child then complete child_completion h' else (child, h'))
      else bubble parent_dispatch event h'
