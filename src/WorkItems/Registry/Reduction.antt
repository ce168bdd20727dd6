-- ===== src/WorkItems/Registry/Reduction.antt =====
-- src/session-events/openma.ts: how the reduction takes one more event.
use openma_common.Common.{String, false, ◌||◌, List, [], ◌∷◌, ◌++◌, ◌≡◌, refl, arith, All, ◌∙◌}
use openma_common.Common.Maps.{has, add, has-add}
use openma_common.WorkItems.{OpenmaEvent, apply_work_item_event}
use openma_common.WorkItems.Registry.{
  WorkItemRegistry, create_work_item_registry, order_work_item_events, reduce_one, reduce_loop,
  reduce_work_items,
}
use openma_common.WorkItems.Registry.Order.{Earlier, has_event, has_event-order, order-last}

reduce_loop-append :
    (r : WorkItemRegistry) (es fs : List OpenmaEvent)
    → reduce_loop r (es ++ fs) ≡ reduce_loop (reduce_loop r es) fs
unfolding reduce_loop
reduce_loop-append r [] fs = refl
reduce_loop-append r (e ∷ es) fs = reduce_loop-append (reduce_one r e) es fs

has-reduce_loop :
    (k : String) (r : WorkItemRegistry) (es : List OpenmaEvent)
    → has k (reduce_loop r es).seen_event_ids ≡ (has k r.seen_event_ids || has_event k es)
unfolding reduce_loop
has-reduce_loop k r [] = ground arith
has-reduce_loop k r (e ∷ es) = ground (
  arith,
  has-reduce_loop k r es,
  has-reduce_loop k
      (record {
        items = apply_work_item_event r.items e;
        seen_event_ids = add e.event_id r.seen_event_ids;
      })
      es,
  has-add e.event_id k r.seen_event_ids,
)

has-reduce_work_items :
    (k : String) (es : List OpenmaEvent)
    → has k (reduce_work_items es).seen_event_ids ≡ has_event k es
unfolding reduce_work_items has
has-reduce_work_items k es =
    has-reduce_loop k create_work_item_registry (order_work_item_events es) ∙ has_event-order k es

reduce_one-fresh :
    (r : WorkItemRegistry) (e : OpenmaEvent)
    → has e.event_id r.seen_event_ids ≡ false
    → reduce_one r e ≡ record {
      items = apply_work_item_event r.items e;
      seen_event_ids = add e.event_id r.seen_event_ids;
    }
unfolding reduce_one
reduce_one-fresh r e h = rw h

reduce-append-last :
    (es : List OpenmaEvent) (e : OpenmaEvent)
    → All (λ x. Earlier x.seq e.seq) es
    → reduce_work_items (es ++ e ∷ []) ≡ reduce_one (reduce_work_items es) e
unfolding reduce_work_items
reduce-append-last es e a =
    rw (order-last es e a)
      (reduce_loop-append create_work_item_registry (order_work_item_events es) (e ∷ []))

-- A new event that none before it must follow is applied to the registry of the others.
pub reduce-last :
    (es : List OpenmaEvent) (e : OpenmaEvent)
    → All (λ x. Earlier x.seq e.seq) es
    → has_event e.event_id es ≡ false
    → reduce_work_items (es ++ e ∷ []) ≡ record {
      items = apply_work_item_event (reduce_work_items es).items e;
      seen_event_ids = add e.event_id (reduce_work_items es).seen_event_ids;
    }
reduce-last es e a fresh =
    reduce-append-last es e a
    ∙ reduce_one-fresh (reduce_work_items es) e (has-reduce_work_items e.event_id es ∙ fresh)
