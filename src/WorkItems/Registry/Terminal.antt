-- ===== src/WorkItems/Registry/Terminal.antt =====
-- src/session-events/openma.ts: ended items, replayed events and finalization, for registries.

use openma_common.Common.{
  String, true, Option, none, some, List, [], ◌∷◌, ◌≡◌, refl, arith, All, inl, inr, Bool-cases, ite,
  String_discrete,
}
use openma_common.Common.Maps.{has, has-add, get}
use openma_common.WorkItems.{
  OpenmaEvent, Items, WorkItemSnapshot, WorkItemStatus, WorkItemTerminalStatus, running, unknown,
  ended,
}
use openma_common.WorkItems.Laws.{status_at, Stays, apply-terminal}
use openma_common.WorkItems.Registry.{
  WorkItemRegistry, reduce_work_item_event, finalize_item, finalize_items, finalize_work_items,
}

-- Events taken one after another.
unfoldable pub reduce_all : WorkItemRegistry → List OpenmaEvent → WorkItemRegistry
reduce_all r [] = r
reduce_all r (e ∷ es) = reduce_all (reduce_work_item_event r e) es

reduce-ended :
    (r : WorkItemRegistry) (e : OpenmaEvent) (k : String) (st : WorkItemTerminalStatus)
    → status_at k r.items ≡ some (ended st)
    → Stays k e.payload
    → status_at k (reduce_work_item_event r e).items ≡ some (ended st)
unfolding reduce_work_item_event
reduce-ended r e k st h a = elim (Bool-cases (has e.event_id r.seen_event_ids)) [
  | inl seen ↦ rw seen h
  | inr new ↦ rw new (apply-terminal r.items e k st a h)
]

-- An item that has reached a terminal status keeps that status through the reduction of any further
-- events none of which is a reidentification with its id as the previous one.
pub ended-Stays :
    (r : WorkItemRegistry) (es : List OpenmaEvent) (k : String) (st : WorkItemTerminalStatus)
    → status_at k r.items ≡ some (ended st)
    → All (λ e. Stays k e.payload) es
    → status_at k (reduce_all r es).items ≡ some (ended st)
unfolding reduce_all
ended-Stays r [] k st h a = h
ended-Stays r (e ∷ es) k st h a =
    ended-Stays (reduce_work_item_event r e) es k st (reduce-ended r e k st h a.0) a.1

has-reduce :
    (k : String) (r : WorkItemRegistry) (e : OpenmaEvent)
    → has k (reduce_work_item_event r e).seen_event_ids
      ≡ ite (String_discrete e.event_id k) true (has k r.seen_event_ids)
unfolding reduce_work_item_event
has-reduce k r e = ground (arith, has-add e.event_id k r.seen_event_ids)

seen_stays :
    (k : String) (r : WorkItemRegistry) (es : List OpenmaEvent)
    → has k r.seen_event_ids ≡ true
    → has k (reduce_all r es).seen_event_ids ≡ true
unfolding reduce_all
seen_stays k r [] h = h
seen_stays k r (e ∷ es) h =
    seen_stays k (reduce_work_item_event r e) es (ground (arith, has-reduce k r e))

reduce-seen :
    (r : WorkItemRegistry) (e : OpenmaEvent)
    → has e.event_id r.seen_event_ids ≡ true
    → reduce_work_item_event r e ≡ r
unfolding reduce_work_item_event
reduce-seen r e h = rw h

-- An event with the id of one that was reduced earlier leaves the registry as it is, whatever else
-- was reduced between them.
replay_ignored :
    (r : WorkItemRegistry) (e again : OpenmaEvent) (es : List OpenmaEvent)
    → again.event_id ≡ e.event_id
    → reduce_work_item_event (reduce_all r (e ∷ es)) again ≡ reduce_all r (e ∷ es)
unfolding reduce_all
replay_ignored r e again es h = reduce-seen (reduce_all (reduce_work_item_event r e) es) again (
    seen_stays again.event_id (reduce_work_item_event r e) es
      (ground (arith, has-reduce again.event_id r e)))

-- What finalization makes of a status.
abbrev pub settled : Option WorkItemStatus → Option WorkItemStatus
settled none = none
settled (some running) = some unknown
settled (some unknown) = some unknown
settled (some (ended st)) = some (ended st)

finalize_item-status :
    (item : WorkItemSnapshot) → some (finalize_item item).status ≡ settled (some item.status)
unfolding finalize_item
finalize_item-status item = ground arith

finalize_items-status :
    (k : String) (items : Items) → status_at k (finalize_items items) ≡ settled (status_at k items)
unfolding finalize_items get
finalize_items-status k [] = refl
finalize_items-status k ((j, item) ∷ items) =
    ground (arith, finalize_item-status item, finalize_items-status k items)

finalize_item_idem :
    (item : WorkItemSnapshot) → finalize_item (finalize_item item) ≡ finalize_item item
unfolding finalize_item
finalize_item_idem item = ground arith

finalize_items_idem : (items : Items) → finalize_items (finalize_items items) ≡ finalize_items items
unfolding finalize_items
finalize_items_idem [] = refl
finalize_items_idem ((j, item) ∷ items) =
    ground (arith, finalize_item_idem item, finalize_items_idem items)

-- Finalizing a registry leaves the status at each id as it is where that is terminal and turns it
-- to unknown where it is not, and no id gains or loses an item; finalizing twice is finalizing
-- once.
finalize_exact :
    (r : WorkItemRegistry) (k : String)
    → (status_at k (finalize_work_items r).items ≡ settled (status_at k r.items))
      × (finalize_work_items (finalize_work_items r) ≡ finalize_work_items r)
unfolding finalize_work_items
finalize_exact r k =
    (finalize_items-status k r.items, λ i. record r { items = finalize_items_idem r.items i })
