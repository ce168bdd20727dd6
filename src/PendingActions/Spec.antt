-- ===== src/PendingActions/Spec.antt =====
-- src/session-events/pending-actions.ts: which tool calls are pending after a list of events, said by the
-- fields of each event alone, without the walk and its maps.
use openma_common.Common.{
  String, Bool, true, false, ◌&&◌, ◌||◌, not, Option, none, some, List, [], ◌∷◌, ite, if◌then◌else◌,
  String_discrete, non_empty,
}
use openma_common.Common.Json.{
  Json, Items, Fields, str, arr, nil, cons, end, fields_of, text_at, truthy_text_at, property,
}
use openma_common.PendingActions.{
  custom_result, confirmation, PendingManagedAction, event_thread_id,
}
use openma_common.PendingActions.Laws.{or_else, is_id}

-- Whether an event has a type.
abbrev pub has_type : String → Fields → Bool
has_type type event = is_id (text_at "type" event) type

-- Whether an array has a text.
abbrev pub names : String → Items → Bool
names id nil = false
names id (cons (str t) items) = let later = names id items in ite (String_discrete t id) true later
names id (cons _ items) = names id items

abbrev pub lists : String → Option Json → Bool
lists id (some (arr items)) = non_empty id && names id items
lists id _ = false

abbrev pub stop_reason : Fields → Fields
stop_reason event = elim (property "stop_reason" event) [ none ↦ end | some v ↦ fields_of v ]

-- Whether an idle event asks for an id: its stop reason requires an action and lists the id.
abbrev pub asks_for : String → Fields → Bool
asks_for id event =
    has_type "session.status_idle" event
    && (has_type "requires_action" (stop_reason event)
        && lists id (property "event_ids" (stop_reason event)))

-- Whether an event ends or replaces the request of its thread.
abbrev pub ends_request : Fields → Bool
ends_request event =
    has_type "session.status_running" event
    || (has_type "session.status_terminated" event || has_type "session.status_idle" event)

abbrev pub is_ended : String → List Fields → Bool
is_ended thread [] = false
is_ended thread (event ∷ events) =
    let later = is_ended thread events in
    (ends_request event && ite (String_discrete (event_thread_id event) thread) true false) || later

-- Whether some event asks for an id, and no later event of its thread ends or replaces its request.
abbrev pub is_requested : String → List Fields → Bool
is_requested id [] = false
is_requested id (event ∷ events) =
    let later = is_requested id events in
    (asks_for id event && not (is_ended (event_thread_id event) events)) || later

-- Whether an event is a use of the tool with an id.
abbrev pub uses_tool : String → Fields → Bool
uses_tool id event =
    (has_type "agent.tool_use" event
      || (has_type "agent.mcp_tool_use" event || has_type "agent.custom_tool_use" event))
    && is_id (truthy_text_at "id" event) id

-- The last use of the tool with an id.
abbrev pub last_use : String → List Fields → Option Fields
last_use id [] = none
last_use id (event ∷ events) =
    or_else (last_use id events) (if uses_tool id event then some event else none)

-- Whether an event confirms, or is the result of, the tool use with an id.
abbrev pub answers : String → Fields → Bool
answers id event =
    ((has_type "user.tool_confirmation" event
        || (has_type "agent.tool_result" event || has_type "agent.mcp_tool_result" event))
      && is_id (text_at "tool_use_id" event) id)
    || (has_type "user.custom_tool_result" event && is_id (text_at "custom_tool_use_id" event) id)

abbrev pub is_answered : String → List Fields → Bool
is_answered id [] = false
is_answered id (event ∷ events) = let later = is_answered id events in answers id event || later

-- What is pending for an id, by its last tool use.
abbrev pub waiting : String → Option Fields → List PendingManagedAction
waiting id none = []
waiting id (some event) =
    record {
      id = id;
      kind = if has_type "agent.custom_tool_use" event then custom_result else confirmation;
      event = event;
    }
    ∷ []
