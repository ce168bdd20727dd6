-- ===== src/PendingActions.antt =====
-- src/session-events/pending-actions.ts: the tool calls that a managed session is parked on, read off
-- its wire events; with `eventThreadId` of src/session-events/managed.ts. An event is a JSON object.
pub mod Laws
pub mod Spec
pub mod Requests
pub mod Exact
mod Tests
use openma_common.Common.{
  String, Bool, true, false, ◌||◌, not, Option, none, some, List, [], ◌∷◌, ◌++◌, ite, if◌then◌else◌,
  String_discrete,
}
use openma_common.Common.Json.{
  Json, Items, Fields, arr, obj, str, nil, cons, end, property, text_at, truthy_text_at,
}
use openma_common.Common.Maps.{get, set, delete, has, add, add_all}

pub data PendingKind : Type 0 where
  confirmation custom_result : PendingKind

pub record PendingManagedAction : Type 0 where
  pub id : String
  pub kind : PendingKind
  pub event : Fields

-- An array that a frame carries is handed out as it is.
pub data PendingActions : Type 0 where
  direct : Items → PendingActions
  derived : List PendingManagedAction → PendingActions

array_of : Option Json → Option Items
array_of (some (arr items)) = some items
array_of _ = none

-- The last event's array, of those events that have one.
pub direct_actions : List Fields → Option Items
unfolding array_of
direct_actions [] = none
direct_actions (event ∷ events) = elim (direct_actions events) [
  | none ↦ array_of (property "pendingActions" event)
  | some items ↦ some items
]

as_record : Option Json → Fields
as_record (some (obj fields)) = fields
as_record _ = end

is : Option String → String → Bool
is none t = false
is (some s) t = ite (String_discrete s t) true false

pub is_type : Fields → String → Bool
unfolding is
is_type event t = is (text_at "type" event) t

-- The id of a tool use.
pub tool_id : Fields → Option String
unfolding is_type
tool_id event =
    if is_type event "agent.tool_use"
      || (is_type event "agent.mcp_tool_use" || is_type event "agent.custom_tool_use")
    then truthy_text_at "id" event
    else none

or_primary : Option String → String
or_primary none = "sthr_primary"
or_primary (some t) = t

pub event_thread_id : Fields → String
unfolding or_primary
event_thread_id event = or_primary (truthy_text_at "session_thread_id" event)

-- The non-empty texts of an array.
texts : Items → List String
texts nil = []
texts (cons (str String.[]) items) = texts items
texts (cons (str (String.◌∷◌ c s)) items) = String.◌∷◌ c s ∷ texts items
texts (cons _ items) = texts items

texts_of : Option Items → List String
unfolding texts
texts_of none = []
texts_of (some items) = texts items

-- The ids that an idle event asks for.
asked_ids : Fields → List String
unfolding is_type array_of texts_of as_record
asked_ids event =
    let reason = as_record (property "stop_reason" event) in
    if is_type reason "requires_action"
    then texts_of (array_of (property "event_ids" reason))
    else []

-- What an event does to its thread's request.
pub data Request : Type 0 where
  keeps forgets : Request
  asks : List String → Request

pub request_of : Fields → Request
unfolding is_type
request_of event =
    if is_type event "session.status_running" || is_type event "session.status_terminated"
    then forgets
    else if is_type event "session.status_idle"
    then asks (asked_ids event)
    else keeps

pub tool_result_id : Fields → Option String
unfolding is_type
tool_result_id event =
    if is_type event "user.tool_confirmation"
      || (is_type event "agent.tool_result" || is_type event "agent.mcp_tool_result")
    then text_at "tool_use_id" event
    else none

pub custom_result_id : Fields → Option String
unfolding is_type
custom_result_id event =
    if is_type event "user.custom_tool_result" then text_at "custom_tool_use_id" event else none

pub record Walk : Type 0 where
  pub tools : List (String × Fields)
  pub requested : List (String × List String)
  pub resolved : List String

pub note_tool : Option String → Fields → List (String × Fields) → List (String × Fields)
note_tool none event tools = tools
note_tool (some id) event tools = set id event tools

pub note_request : Request → String → List (String × List String) → List (String × List String)
note_request keeps thread requested = requested
note_request forgets thread requested = delete thread requested
note_request (asks ids) thread requested = set thread ids requested

pub note_resolved : Option String → List String → List String
note_resolved none resolved = resolved
note_resolved (some id) resolved = add id resolved

-- The body of the loop over the events, and the loop.
pub walk_event : Walk → Fields → Walk
unfolding note_tool note_request note_resolved
walk_event w event = record {
  tools = note_tool (tool_id event) event w.tools;
  requested = note_request (request_of event) (event_thread_id event) w.requested;
  resolved =
      note_resolved (custom_result_id event) (note_resolved (tool_result_id event) w.resolved);
}

pub walk_events : Walk → List Fields → Walk
unfolding walk_event
walk_events w [] = w
walk_events w (event ∷ events) = walk_events (walk_event w event) events

-- [...requested.values()].flat()
pub flat_values : List (String × List String) → List String
flat_values [] = []
flat_values ((thread, ids) ∷ requested) = ids ++ flat_values requested

pub action_kind : Fields → PendingKind
unfolding is_type
action_kind event = if is_type event "agent.custom_tool_use" then custom_result else confirmation

-- The action of an id, if its tool use is known and it is not resolved.
pub action_of : String → Bool → Option Fields → Option PendingManagedAction
action_of id resolved none = none
action_of id true (some event) = none
action_of id false (some event) = some (record { id = id; kind = action_kind event; event = event })

pub prepend : Option PendingManagedAction → List PendingManagedAction → List PendingManagedAction
prepend none actions = actions
prepend (some action) actions = action ∷ actions

pub actions_of : Walk → List String → List PendingManagedAction
unfolding prepend
actions_of w [] = []
actions_of w (id ∷ ids) =
    prepend (action_of id (has id w.resolved) (get id w.tools)) (actions_of w ids)

pub derived_actions : List Fields → List PendingManagedAction
unfolding walk_events actions_of add_all flat_values
derived_actions events =
    let w = walk_events (record { tools = []; requested = []; resolved = [] }) events in
    actions_of w (add_all (flat_values w.requested) [])

pub pending_managed_actions : List Fields → PendingActions
unfolding direct_actions derived_actions
pending_managed_actions events = elim (direct_actions events) [
  | none ↦ derived (derived_actions events)
  | some items ↦ direct items
]
