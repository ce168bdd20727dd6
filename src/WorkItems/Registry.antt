-- ===== src/WorkItems/Registry.antt =====
-- src/session-events/openma.ts: the registry, its reduction over events, and its finalization.
pub mod Terminal
pub mod Order
pub mod Reduction
use openma_common.Common.{
  ℕ, suc, String, Bool, true, false, Option, none, some, List, [], ◌∷◌, map, if◌then◌else◌, leb,
}
use openma_common.Common.Maps.{has, add}
use openma_common.Common.Sorting.{sort}
use openma_common.WorkItems.{
  OpenmaEvent, WorkItemSnapshot, Items, is_terminal, unknown, assigned, apply_work_item_event,
}

pub record WorkItemRegistry : Type 0 where
  pub items : Items
  pub seen_event_ids : List String

unfoldable pub create_work_item_registry : WorkItemRegistry
create_work_item_registry = record { items = []; seen_event_ids = [] }

-- A registry is a value here, so that `cloneRegistry` is the identity.
unfoldable pub reduce_work_item_event : WorkItemRegistry → OpenmaEvent → WorkItemRegistry
reduce_work_item_event registry event =
    if has event.event_id registry.seen_event_ids then registry else record {
      items = apply_work_item_event registry.items event;
      seen_event_ids = add event.event_id registry.seen_event_ids;
    }

-- events.map((event, index) => ({ event, index }))
unfoldable pub indexed : ℕ → List OpenmaEvent → List (OpenmaEvent × ℕ)
indexed index [] = []
indexed index (event ∷ events) = (event, index) ∷ indexed (suc index) events

-- The comparator, as the test that the left pair may stay in front: `-` by `seq`, `||` by `index`.
unfoldable pub seq_le : Option ℕ → Option ℕ → ℕ → ℕ → Bool
seq_le none none i j = leb i j
seq_le none (some b) i j = false
seq_le (some a) none i j = true
seq_le (some a) (some b) i j = if leb b a then (if leb a b then leb i j else false) else true

unfoldable pub pair_le : OpenmaEvent × ℕ → OpenmaEvent × ℕ → Bool
unfolding seq_le
pair_le l r = seq_le l.0.seq r.0.seq l.1 r.1

unfoldable pub order_work_item_events : List OpenmaEvent → List OpenmaEvent
unfolding indexed pair_le sort
order_work_item_events events = map (λ p. p.0) (sort pair_le (indexed 0 events))

-- The body of the loop of `reduceWorkItems`, and the loop.
unfoldable pub reduce_one : WorkItemRegistry → OpenmaEvent → WorkItemRegistry
reduce_one registry event =
    if has event.event_id registry.seen_event_ids then registry else record {
      items = apply_work_item_event registry.items event;
      seen_event_ids = add event.event_id registry.seen_event_ids;
    }

unfoldable pub reduce_loop : WorkItemRegistry → List OpenmaEvent → WorkItemRegistry
unfolding reduce_one
reduce_loop registry [] = registry
reduce_loop registry (event ∷ events) = reduce_loop (reduce_one registry event) events

unfoldable pub reduce_work_items : List OpenmaEvent → WorkItemRegistry
unfolding create_work_item_registry order_work_item_events reduce_loop
reduce_work_items events = reduce_loop create_work_item_registry (order_work_item_events events)

finalize_item : WorkItemSnapshot → WorkItemSnapshot
unfolding is_terminal
finalize_item item =
    if is_terminal item.status
    then item
    else record item { status = unknown; missing_end = assigned (some true) }

finalize_items : Items → Items
unfolding finalize_item
finalize_items [] = []
finalize_items ((id, item) ∷ items) = (id, finalize_item item) ∷ finalize_items items

pub finalize_work_items : WorkItemRegistry → WorkItemRegistry
unfolding finalize_items
finalize_work_items registry = record registry { items = finalize_items registry.items }
