-- ===== src/WorkItems/Projector.antt =====
-- src/session-events/openma.ts: `createWorkItemProjector`, the incremental form of the reduction. Its
-- captured variables are a record. The registry that `snapshot` hands out shares the set of seen ids
-- with the projector, so only the copied items are kept of `current`.
mod Order
mod Invariant
pub mod Equivalence
use openma_common.Common.{
  ℕ, suc, max, String, Bool, true, false, not, ◌&&◌, ◌||◌, Option, none, some, List, [], ◌∷◌, ◌++◌,
  if◌then◌else◌, leb, non_empty, ite, ℕ_discrete,
}
use openma_common.Common.Maps.{has, add, get, set}
use openma_common.WorkItems.{
  OpenmaEvent, WorkItemSnapshot, Items, Payload, reidentified, is_work_item_event,
  apply_work_item_event,
}
use openma_common.WorkItems.Registry.{
  WorkItemRegistry, create_work_item_registry, reduce_work_items,
}

pub record WorkItemProjector : Type 0 where
  pub received : List OpenmaEvent
  pub received_ids : List String
  pub items : Items
  pub seen : List String
  pub max_seq : Option ℕ
  pub saw_unsequenced : Bool
  pub dirty : Bool
  pub version : ℕ
  pub snapshot_version : Option ℕ  -- none for -1
  pub current : Items

pub create_work_item_projector : WorkItemProjector
unfolding create_work_item_registry
create_work_item_projector = record {
  received = [];
  received_ids = [];
  items = [];
  seen = [];
  max_seq = none;
  saw_unsequenced = false;
  dirty = false;
  version = 0;
  snapshot_version = none;
  current = create_work_item_registry.items;
}

-- Ids whose snapshots an event may change.
previous_ids : Payload → List String
previous_ids (reidentified previous_id) = previous_id ∷ []
previous_ids _ = []

touched_work_item_ids : OpenmaEvent → List String
unfolding previous_ids
touched_work_item_ids event = elim event.work_item_id [
  | none ↦ previous_ids event.payload
  | some id ↦
      if non_empty id then previous_ids event.payload ++ id ∷ [] else previous_ids event.payload
]

-- items.set(id, { ...item, output: [...item.output] }): a copy, which as a value is the item.
copy_item : Items → String → Option WorkItemSnapshot → Items
copy_item items id none = items
copy_item items id (some item) = set id item items

copy_items : Items → List String → Items
unfolding copy_item
copy_items items [] = items
copy_items items (id ∷ ids) = copy_items (copy_item items id (get id items)) ids

pub apply_in_order : WorkItemProjector → OpenmaEvent → WorkItemProjector × Bool
unfolding touched_work_item_ids copy_items
apply_in_order p event =
    let p' = record p { seen = add event.event_id p.seen } in
    if is_work_item_event event
    then (
      record p' {
        items = apply_work_item_event (copy_items p'.items (touched_work_item_ids event)) event;
      },
      true,
    )
    else (p', false)

pub in_order_after : Option ℕ → Bool → Option ℕ → Bool
in_order_after none saw_unsequenced max_seq = true
in_order_after (some seq) saw_unsequenced none = not saw_unsequenced
in_order_after (some seq) saw_unsequenced (some m) = not saw_unsequenced && leb m seq

pub max_after : Option ℕ → Option ℕ → Option ℕ
max_after none max_seq = max_seq
max_after (some seq) none = some seq
max_after (some seq) (some m) = some (max m seq)

pub is_unsequenced : Option ℕ → Bool
is_unsequenced none = true
is_unsequenced (some seq) = false

pub note_event : WorkItemProjector → OpenmaEvent → WorkItemProjector
unfolding max_after is_unsequenced
note_event p event = record p {
  received = p.received ++ event ∷ [];
  received_ids = add event.event_id p.received_ids;
  max_seq = max_after event.seq p.max_seq;
  saw_unsequenced = p.saw_unsequenced || is_unsequenced event.seq;
}

bump : WorkItemProjector × Bool → WorkItemProjector × Bool
bump (p, false) = (p, false)
bump (p, true) = (record p { version = suc p.version }, true)

pub apply : WorkItemProjector → OpenmaEvent → WorkItemProjector × Bool
unfolding note_event in_order_after bump
apply p event =
    let in_order = in_order_after event.seq p.saw_unsequenced p.max_seq in
    let p' = note_event p event in
    if has event.event_id p.received_ids
    then (p, false)
    else if p.dirty
    then (p', is_work_item_event event)
    else if not in_order
    then (record p' { dirty = true }, true)
    else bump (apply_in_order p' event)

pub refresh : WorkItemProjector → WorkItemProjector
refresh p =
    let registry = reduce_work_items p.received in
    if p.dirty
    then record p {
      items = registry.items;
      seen = registry.seen_event_ids;
      dirty = false;
      version = suc p.version;
    }
    else p

is_version : Option ℕ → ℕ → Bool
is_version none version = false
is_version (some v) version = ite (ℕ_discrete v version) true false

pub renew : WorkItemProjector → WorkItemProjector
unfolding is_version
renew p =
    if is_version p.snapshot_version p.version
    then p
    else record p { current = p.items; snapshot_version = some p.version }

pub snapshot : WorkItemProjector → WorkItemProjector × WorkItemRegistry
unfolding refresh renew
snapshot p = let q = renew (refresh p) in (q, record { items = q.current; seen_event_ids = q.seen })
