-- ===== src/AgentUi/Records.antt =====
-- src/agent-ui/index.ts: what an event does to the work items.
pub mod Orders
pub mod Keys
use openma_common.Common.{
  String, Bool, true, false, not, Option, none, some, List, [], ◌∷◌, ◌++◌, ite, if◌then◌else◌,
  non_empty, String_discrete,
}
use openma_common.Common.Maps.{get, set, delete, has, add}
use openma_common.WorkItems.{
  Slot, assigned, WorkItemSnapshot, OpenmaEvent, Payload, unrelated, Items,
}
use openma_common.WorkItems.{unset as unset_slot}
use openma_common.Common.Json.{Json}
use openma_common.WorkItems.Registry.{WorkItemRegistry, reduce_work_item_event}
use openma_common.AgentUi.{
  AgentUiState, AgentUiWorkItemState, AgentUiPlanState, CanonicalPlanEntry, PlanUpdatedData,
  AgentUiCallbackState, CallbackStatus, notification, CallbackId, text_id, number_id, null_id,
  no_id, CallbackLifecycleData, AgentUiOutcomeState, OutcomeData, OutcomeEventType, outcome_defined,
  evaluation_completed, Event, Body, plan_updated, plan_completed, plan_removed, callback, outcome,
  work_item,
}

-- order.includes(id) ? order : [...order, id], where `has` is `includes`
abbrev pub ordered : String → List String → List String
ordered id order = add id order

-- ...(value !== undefined ? { key: value } : {}): a property that is undefined is left out.
slot_of : {A : Type 0} → Option A → Slot A
slot_of none = unset_slot
slot_of (some a) = assigned (some a)

value_of : {A : Type 0} → Slot A → Option A
value_of unset_slot = none
value_of (assigned v) = v

to_work_item_snapshot : AgentUiWorkItemState → WorkItemSnapshot
unfolding slot_of
to_work_item_snapshot item = record {
  id = item.id;
  kind = item.kind;
  status = item.status;
  title = slot_of item.title;
  progress = slot_of item.progress;
  outputs = item.outputs;
  result = slot_of item.result;
  error = slot_of item.error;
  reason = slot_of item.reason;
  started_at = slot_of item.started_at;
  ended_at = slot_of item.ended_at;
  missing_start = slot_of item.missing_start;
  missing_end = slot_of item.missing_terminal;
}

to_agent_ui_work_item : WorkItemSnapshot → AgentUiWorkItemState
unfolding value_of
to_agent_ui_work_item item = record {
  id = item.id;
  kind = item.kind;
  status = item.status;
  title = value_of item.title;
  progress = value_of item.progress;
  outputs = item.outputs;
  result = value_of item.result;
  error = value_of item.error;
  reason = value_of item.reason;
  started_at = value_of item.started_at;
  ended_at = value_of item.ended_at;
  missing_start = value_of item.missing_start;
  missing_terminal = value_of item.missing_end;
}

snapshots_of : List (String × AgentUiWorkItemState) → Items
unfolding to_work_item_snapshot
snapshots_of [] = []
snapshots_of ((id, item) ∷ items) = (id, to_work_item_snapshot item) ∷ snapshots_of items

pub work_items_of : Items → List (String × AgentUiWorkItemState)
unfolding to_agent_ui_work_item
work_items_of [] = []
work_items_of ((id, item) ∷ items) = (id, to_agent_ui_work_item item) ∷ work_items_of items

-- The event as the reduction of work items reads it.
payload_of : Body → Payload
payload_of (work_item payload) = payload
payload_of _ = unrelated ""

openma_event : Event → OpenmaEvent
unfolding payload_of
openma_event event = record {
  event_id = event.event_id;
  work_item_id = event.work_item_id;
  occurred_at = event.occurred_at;
  seq = event.seq;
  payload = payload_of event.body;
}

-- The order, less the ids that are gone, and then the ids that are new.
pub keep_present : List String → Items → List String
keep_present [] items = []
keep_present (id ∷ order) items =
    let rest = keep_present order items in
    elim (get id items) [ none ↦ rest | some item ↦ id ∷ rest ]

pub add_ids : Items → List String → List String
add_ids [] order = order
add_ids ((id, item) ∷ items) order = add_ids items (ordered id order)

pub reduced_items : AgentUiState → Event → Items
unfolding snapshots_of openma_event reduce_work_item_event
reduced_items state event =
    (reduce_work_item_event
      (record { items = snapshots_of state.work_items; seen_event_ids = state.seen_event_ids })
      (openma_event event)).items

unfoldable pub apply_work_item_projection : AgentUiState → Event → AgentUiState
unfolding reduced_items work_items_of keep_present add_ids
apply_work_item_projection state event =
    let reduced = reduced_items state event in
    record state {
      work_item_order = add_ids reduced (keep_present state.work_item_order reduced);
      work_items = work_items_of reduced;
    }
