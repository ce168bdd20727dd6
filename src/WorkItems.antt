-- ===== src/WorkItems.antt =====
-- src/session-events/openma.ts: work-item events and the snapshots that they build up.
-- A property that the code may never assign, assign undefined, or give a value is a Slot: a spread
-- `{...previous, ...current}` takes an assigned property of `current`, undefined or not.
pub mod Registry
pub mod Laws
pub mod Projector
mod Tests
use openma_common.Common.{
  ℕ, String, Bool, true, false, not, ◌&&◌, ◌||◌, Option, none, some, List, [], ◌∷◌, ◌++◌, ite,
  if◌then◌else◌, non_empty, String_discrete,
}
use openma_common.Common.Json.{Json, Number}
use openma_common.Common.Maps.{get, set, delete}

pub data WorkItemKind : Type 0 where
  agent bash monitor other : WorkItemKind

pub data WorkItemTerminalStatus : Type 0 where
  completed failed cancelled killed terminated : WorkItemTerminalStatus

pub data WorkItemStatus : Type 0 where
  running unknown : WorkItemStatus
  ended : WorkItemTerminalStatus → WorkItemStatus

pub WorkItemTerminalStatus-discrete : Discrete WorkItemTerminalStatus
WorkItemTerminalStatus-discrete = hlevel

-- A property: never assigned, or assigned a value or undefined.
pub data Slot (A : Type 0) : Type 0 where
  unset : Slot A
  assigned : Option A → Slot A

pub record WorkItemFailureData : Type 0 where
  pub kind : Option WorkItemKind
  pub title : Option String
  pub error : Option String
  pub reason : Option String
  pub result : Option Json

-- The event types of work items with their data, and any other type.
pub data Payload : Type 0 where
  started : WorkItemKind → Option String → Payload
  progressed : Option Number → Option Json → Payload
  output : Json → Payload
  completes : Option WorkItemKind → Option String → Option Json → Payload
  fails : WorkItemFailureData → Payload
  cancels : WorkItemFailureData → Payload
  kills : WorkItemFailureData → Payload
  terminates : WorkItemFailureData → Payload
  missing_terminal : String → Payload
  reidentified : String → Payload
  classified : WorkItemKind → Payload
  unrelated : String → Payload

pub record OpenmaEvent : Type 0 where
  pub event_id : String
  pub work_item_id : Option String
  pub occurred_at : String
  pub seq : Option ℕ
  pub payload : Payload

pub record WorkItemSnapshot : Type 0 where
  pub id : String
  pub kind : WorkItemKind
  pub status : WorkItemStatus
  pub title : Slot String
  pub progress : Slot Number
  pub outputs : List Json
  pub result : Slot Json
  pub error : Slot String
  pub reason : Slot String
  pub started_at : Slot String
  pub ended_at : Slot String
  pub missing_start : Slot Bool
  pub missing_end : Slot Bool

abbrev pub Items : Type 0
Items = List (String × WorkItemSnapshot)

is_unrelated : Payload → Bool
is_unrelated (unrelated t) = true
is_unrelated _ = false

-- The text of `work_item_id`, where the event is a work-item event.
work_item_of : OpenmaEvent → Option String
unfolding is_unrelated
work_item_of event = if is_unrelated event.payload then none else event.work_item_id

pub is_work_item_event : OpenmaEvent → Bool
unfolding work_item_of
is_work_item_event event = elim (work_item_of event) [ none ↦ false | some id ↦ true ]

pub is_terminal : WorkItemStatus → Bool
is_terminal running = false
is_terminal unknown = false
is_terminal (ended s) = true

pub created : String → WorkItemKind → WorkItemSnapshot
created id kind = record {
  id = id;
  kind = kind;
  status = unknown;
  title = unset;
  progress = unset;
  outputs = [];
  result = unset;
  error = unset;
  reason = unset;
  started_at = unset;
  ended_at = unset;
  missing_start = assigned (some true);
  missing_end = unset;
}

abbrev or_created : Option WorkItemSnapshot → String → WorkItemKind → WorkItemSnapshot
or_created none id kind = created id kind
or_created (some item) id kind = item

-- The item, which is put into the map if it was not there.
get_or_create_item : Items → String → WorkItemKind → WorkItemSnapshot
get_or_create_item items id kind = or_created (get id items) id kind

pub over : {A : Type 0} → Slot A → Slot A → Slot A
over previous unset = previous
over previous (assigned v) = assigned v

-- The terminal status that an event type names.
pub terminal_of : Payload → Option WorkItemTerminalStatus
terminal_of (completes k t r) = some completed
terminal_of (fails d) = some failed
terminal_of (cancels d) = some cancelled
terminal_of (kills d) = some killed
terminal_of (terminates d) = some terminated
terminal_of _ = none

-- isTerminal(item.status) && event.type !== `work_item.${item.status}`
is_blocked : WorkItemStatus → Option WorkItemTerminalStatus → Bool
is_blocked running t = false
is_blocked unknown t = false
is_blocked (ended s) none = true
is_blocked (ended s) (some t) = ite (WorkItemTerminalStatus-discrete t s) false true

-- A generic kind does not replace a richer one.
refined : WorkItemKind → WorkItemKind → WorkItemKind
refined other new = new
refined old other = old
refined old new = new

refined_by : WorkItemKind → Option WorkItemKind → WorkItemKind
unfolding refined
refined_by old none = old
refined_by old (some new) = refined old new

titled : Slot String → Option String → Slot String
titled old none = old
titled old (some t) = if non_empty t then assigned (some t) else old

pushed : List Json → Option Json → List Json
pushed outputs none = outputs
pushed outputs (some o) = outputs ++ o ∷ []

progress_of : Slot Number → Option Number → Slot Number
progress_of old none = old
progress_of old (some n) = assigned (some n)

end_item :
    WorkItemSnapshot → String → WorkItemTerminalStatus → WorkItemFailureData → WorkItemSnapshot
unfolding refined_by titled
end_item item occurred_at status d = record item {
  kind = refined_by item.kind d.kind;
  title = titled item.title d.title;
  status = ended status;
  error = assigned d.error;
  reason = assigned d.reason;
  result = assigned d.result;
  ended_at = assigned (some occurred_at);
  missing_end = assigned none;
}

-- The switch of `applyWorkItemEvent`.
pub update_item : WorkItemSnapshot → String → Payload → WorkItemSnapshot
unfolding refined refined_by titled pushed progress_of end_item
update_item item occurred_at (started kind title) = record item {
  kind = refined item.kind kind;
  title = assigned title;
  status = running;
  started_at = assigned (some occurred_at);
  missing_start = assigned none;
  missing_end = assigned none;
  reason = assigned none;
}
update_item item occurred_at (progressed n o) = record item {
  progress = progress_of item.progress n;
  outputs = pushed item.outputs o;
}
update_item item occurred_at (output o) = record item { outputs = item.outputs ++ o ∷ [] }
update_item item occurred_at (completes kind title result) = record item {
  kind = refined_by item.kind kind;
  title = titled item.title title;
  status = ended completed;
  result = assigned result;
  ended_at = assigned (some occurred_at);
  missing_end = assigned none;
}
update_item item occurred_at (fails d) = end_item item occurred_at failed d
update_item item occurred_at (cancels d) = end_item item occurred_at cancelled d
update_item item occurred_at (kills d) = end_item item occurred_at killed d
update_item item occurred_at (terminates d) = end_item item occurred_at terminated d
update_item item occurred_at (missing_terminal reason) = record item {
  status = unknown;
  reason = assigned (some reason);
  missing_end = assigned (some true);
}
update_item item occurred_at _ = item

-- `{...previous, ...current, id, kind, output}`
pub merged : WorkItemSnapshot → WorkItemSnapshot → String → WorkItemSnapshot
unfolding over refined
merged previous current id = record {
  id = id;
  kind = refined previous.kind current.kind;
  status = current.status;
  title = over previous.title current.title;
  progress = over previous.progress current.progress;
  outputs = previous.outputs ++ current.outputs;
  result = over previous.result current.result;
  error = over previous.error current.error;
  reason = over previous.reason current.reason;
  started_at = over previous.started_at current.started_at;
  ended_at = over previous.ended_at current.ended_at;
  missing_start = over previous.missing_start current.missing_start;
  missing_end = over previous.missing_end current.missing_end;
}

-- A reidentification, by what stands at the previous id and at the new one.
pub reidentify : Items → String → String → Option WorkItemSnapshot → Option WorkItemSnapshot → Items
unfolding get_or_create_item created
reidentify items id previous_id none current = set id (get_or_create_item items id other) items
reidentify items id previous_id (some previous) none =
    set id (record previous { id = id }) (delete previous_id items)
reidentify items id previous_id (some previous) (some current) =
    set id (merged previous current id) (delete previous_id items)

pub classify : Items → String → WorkItemKind → Option WorkItemSnapshot → Items
classify items id kind none = items
classify items id kind (some item) = set id (record item { kind = kind }) items

abbrev start_kind : Payload → WorkItemKind
start_kind (started kind title) = kind
start_kind _ = other

pub advance : Items → String → String → Payload → Items
unfolding get_or_create_item created is_blocked update_item
advance items id occurred_at payload =
    let item = get_or_create_item items id (start_kind payload) in
    set id
      (if is_blocked item.status (terminal_of payload)
        then item
        else update_item item occurred_at payload)
      items

dispatch : Items → String → String → Payload → Items
unfolding reidentify classify advance
dispatch items id occurred_at (reidentified previous_id) =
    reidentify items id previous_id (get previous_id items) (get id items)
dispatch items id occurred_at (classified kind) = classify items id kind (get id items)
dispatch items id occurred_at payload = advance items id occurred_at payload

pub apply_work_item_event : Items → OpenmaEvent → Items
unfolding dispatch work_item_of
apply_work_item_event items event = elim (work_item_of event) [
  | none ↦ items
  | some id ↦ if non_empty id then dispatch items id event.occurred_at event.payload else items
]
