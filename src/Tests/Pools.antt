-- ===== src/Tests/Pools.antt =====
-- Hierarchies, dispatch tables and pools on concrete machines.
use sml_rs.Base.{
  ℕ, zero, suc, ◌+◌, ◌≡◌, ◌<◌, ◌≤◌, ◌⊎◌, ◌↔◌, refl, Bool, true, false, ltb, none, some, List, [],
  ◌∷◌, length, get_elem?,
}
use sml_rs.Utility.Hierarchical.{
  parent, Hierarchical, Closure, activate_child, deactivate_child, process_event,
  process_event_with_completion,
}
use sml_rs.Utility.Hierarchical.Routing.{
  Means, process_event-Means, process_event_touches, route_all, history_kept, after_routing,
  completion_routed,
}
use sml_rs.Utility.DispatchTable
use sml_rs.Utility.DispatchTable.{DispatchTable, Handler, dispatch_at}
use sml_rs.Utility.SmPool.{IndexedEvent, process_event_batch, broadcast}
use sml_rs.Utility.SmPool.Batch.{process_event_batch_at, process_event_batch_counts, broadcast_lem}

-- The child handles events below 10 and ends at the event 0; the parent handles events below 20.
abbrev small_event : Closure (List ℕ) ℕ
small_event seen e = (e ∷ seen, ltb e 10)

abbrev large_event : Closure ℕ ℕ
large_event n e = (n + 1, ltb e 20)

abbrev ended : List ℕ → Bool
ended (zero ∷ seen) = true
ended _ = false

abbrev tree : Hierarchical ℕ (List ℕ)
tree = record { parent = 0; child = 3 ∷ []; child_active = true }

process_event-Means_example :
    ((process_event ended small_event large_event 12 tree).0 ≡ parent)
    ↔ Means ended small_event large_event parent tree 12
process_event-Means_example = process_event-Means ended small_event large_event 12 tree parent

process_event_touches_example :
    (process_event ended small_event large_event 12 tree).1
    ≡ record { parent = 1; child = 12 ∷ 3 ∷ []; child_active = true }
process_event_touches_example = process_event_touches ended small_event large_event 12 tree

history_kept_example :
    let off = deactivate_child tree in
    let resumed = activate_child (route_all ended small_event large_event (1 ∷ 0 ∷ 2 ∷ []) off) in
    (resumed.child ≡ 3 ∷ []) × (resumed.child_active ≡ true)
history_kept_example = history_kept ended small_event large_event (1 ∷ 0 ∷ 2 ∷ []) tree

completion_routed_example :
    process_event_with_completion ended small_event large_event (λ n. (n + 7, true)) 0 tree
    ≡ after_routing ended small_event large_event
        (λ n. (n + 7, true))
        (process_event ended small_event large_event 0 tree)
completion_routed_example =
    completion_routed ended small_event large_event (λ n. (n + 7, true)) 0 tree

abbrev table : DispatchTable ℕ ℕ ℕ
table = record {
  machine = 5;
  first_id = 100;
  handlers = (λ m raw. (m + raw, 1)) ∷ (λ m raw. (m + raw + raw, 2)) ∷ [];
}

dispatch_at_example :
    ((k : ℕ) × (h : Handler ℕ ℕ ℕ) × (101 ≡ table.first_id + k)
      × (get_elem? table.handlers k ≡ some h)
      × (DispatchTable.dispatch 3 101 table
          ≡ (some (h 5 3).1, record table { machine = (h 5 3).0 })))
    ⊎ (((101 < table.first_id) ⊎ (table.first_id + length table.handlers ≤ 101))
        × (DispatchTable.dispatch 3 101 table ≡ (none, table)))
dispatch_at_example = dispatch_at table 3 101

-- It counts its calls.
abbrev add_event : ℕ → ℕ → ℕ → ℕ × ℕ
add_event m e calls = (m + e, suc calls)

abbrev batch : List (IndexedEvent ℕ)
batch =
    record { index = 1; event = 5 }
    ∷ record { index = 7; event = 9 }
    ∷ record { index = 1; event = 6 }
    ∷ []

process_event_batch_at_example :
    get_elem? (process_event_batch add_event batch (10 ∷ 20 ∷ []) 0).0 1 ≡ some (20 + 5 + 6)
process_event_batch_at_example =
    process_event_batch_at add_event (λ m e. m + e) (λ m e calls. refl) batch (10 ∷ 20 ∷ []) 0 1
      refl

process_event_batch_counts_example :
    (length (process_event_batch add_event batch (10 ∷ 20 ∷ []) 0).0 ≡ 2)
    × ((process_event_batch add_event batch (10 ∷ 20 ∷ []) 0).1 ≡ 2)
process_event_batch_counts_example = process_event_batch_counts add_event batch (10 ∷ 20 ∷ []) 0

broadcast_lem_example :
    broadcast (λ m e. (m + e, ltb m e)) 15 (10 ∷ 20 ∷ []) ≡ ((10 + 15) ∷ (20 + 15) ∷ [], 1)
broadcast_lem_example = broadcast_lem (λ m e. (m + e, ltb m e)) 15 (10 ∷ 20 ∷ [])
