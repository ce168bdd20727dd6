-- ===== src/AgentUi/Reducer.antt =====
-- src/agent-ui/index.ts: the reduction of one event, and of a list of them. A state is a value, so that
-- `cloneState` is the identity; a turn is changed at its key.
pub mod Invariant
use openma_common.Common.{
  ℕ, suc, String, Bool, true, false, Option, none, some, List, [], ◌∷◌, ◌++◌, if◌then◌else◌, leb,
  non_empty, map, ite, String_discrete, Turn_discrete,
}
use openma_common.Common.Maps.{get, set, has, add}
use openma_common.Common.Sorting.{sort}
use openma_common.Common.Json.{Json}
use openma_common.Common.Units.{Units, codes, is_nil}
use openma_common.AgentUi.{
  over, AgentUiState, AgentUiSessionStatus, AgentUiTurnStatus, AgentUiTurnState,
  AgentUiTimelineItem, raw_item, Body, Event, ErrorData, MessageEventData, MessageKind, MessageRole,
  ToolStatus, create_agent_ui_state,
}
use openma_common.AgentUi.Records.{apply_work_item_projection}
use openma_common.AgentUi.Plans.{apply_plan_projection}
use openma_common.AgentUi.Requests.{apply_callback_projection, apply_outcome_projection}
use openma_common.AgentUi.Messages.{upsert_message}
use openma_common.AgentUi.Thoughts.{is_end_turn, settle_thought_timing}
use openma_common.AgentUi.Tools.{upsert_tool}

-- An id of a turn that is a non-empty text.
unfoldable pub turn_id_of : Option String → Option String
turn_id_of none = none
turn_id_of (some id) = if non_empty id then some id else none

new_turn : String → AgentUiTurnState
new_turn id = record {
  id = id;
  status = AgentUiTurnStatus.turn_unknown;
  items = [];
  error = none;
  reason = none;
  started_at = none;
  ended_at = none;
}

unfoldable pub require_turn : Option String → AgentUiState → AgentUiState
unfolding new_turn
require_turn none state = state
require_turn (some id) state = elim (get id state.turns) [
  | some turn ↦ state
  | none ↦ record state {
    turns = set id (new_turn id) state.turns;
    turn_order = state.turn_order ++ id ∷ [];
  }
]

-- A change of the turn with the id, if there is one.
unfoldable pub with_turn :
    Option String → (AgentUiTurnState → AgentUiTurnState) → AgentUiState → AgentUiState
with_turn none change state = state
with_turn (some id) change state = elim (get id state.turns) [
  | none ↦ state
  | some turn ↦ record state { turns = set id (change turn) state.turns }
]

-- The first of the three that is a non-empty text.
first_text : Option String → Option String → Option String
first_text none other = other
first_text (some t) other = if non_empty t then some t else other

pub error_message : ErrorData → Option String
unfolding first_text
error_message data_ =
    first_text data_.error (first_text data_.message (first_text data_.reason none))

is_session_event : Body → Bool
is_session_event (Body.session_updated title updated_at) = true
is_session_event Body.session_running = true
is_session_event Body.session_rescheduled = true
is_session_event Body.session_terminated = true
is_session_event (Body.session_idle stop) = true
is_session_event (Body.session_error data_) = true
is_session_event (Body.other_event is_session) = is_session
is_session_event _ = false

-- turn ?? (activeTurnId ? turns[activeTurnId] : undefined)
unfoldable pub or_active : Option String → AgentUiState → Option String
or_active none state = state.active_turn_id
or_active (some id) state = some id

unfoldable pub settled_turn : Option String → Body → AgentUiState → Option String
unfolding is_session_event or_active
settled_turn none body state = if is_session_event body then or_active none state else none
settled_turn (some id) body state = some id

or_start : Option String → String → Option String
or_start none now = some now
or_start (some t) now = some t

unfoldable pub run_turn : String → AgentUiTurnState → AgentUiTurnState
unfolding or_start
run_turn now turn = record turn {
  status = AgentUiTurnStatus.turn_running;
  started_at = or_start turn.started_at now;
}

unfoldable pub complete_turn : String → AgentUiTurnState → AgentUiTurnState
complete_turn now turn = record turn { status = AgentUiTurnStatus.completed; ended_at = some now }

unfoldable pub fail_turn : Option String → String → AgentUiTurnState → AgentUiTurnState
fail_turn error now turn = record turn {
  status = AgentUiTurnStatus.failed;
  error = error;
  ended_at = some now;
}

unfoldable pub cancel_turn : Option String → String → AgentUiTurnState → AgentUiTurnState
cancel_turn reason now turn = record turn {
  status = AgentUiTurnStatus.cancelled;
  reason = reason;
  ended_at = some now;
}

unfoldable pub queue_turn : AgentUiTurnState → AgentUiTurnState
queue_turn turn = record turn { status = AgentUiTurnStatus.queued }

unfoldable pub queued_if_unknown : AgentUiTurnStatus → AgentUiTurnStatus
queued_if_unknown AgentUiTurnStatus.turn_unknown = AgentUiTurnStatus.queued
queued_if_unknown status = status

unfoldable pub running_if_waiting : AgentUiTurnStatus → AgentUiTurnStatus
running_if_waiting AgentUiTurnStatus.turn_unknown = AgentUiTurnStatus.turn_running
running_if_waiting AgentUiTurnStatus.queued = AgentUiTurnStatus.turn_running
running_if_waiting status = status

unfoldable pub push_raw : Units → AgentUiTurnState → AgentUiTurnState
push_raw id turn = record turn { items = turn.items ++ raw_item id ∷ [] }

or_kept : {A : Type 0} → Option A → A → A
or_kept none old = old
or_kept (some new) old = new

-- The state without its active turn, where that is the event's.
clear_active : Option String → AgentUiState → AgentUiState
clear_active turn_id state =
    ite (Turn_discrete state.active_turn_id turn_id) (record state { active_turn_id = none }) state

unfoldable pub has_text : Option Units → Bool
has_text none = false
has_text (some t) = if is_nil t then false else true

-- A user's message, and a message of another.
unfoldable pub say_user : Bool → Event → MessageEventData → AgentUiTurnState → AgentUiTurnState
unfolding queued_if_unknown
say_user streaming event data_ turn =
    upsert_message MessageKind.message MessageRole.user streaming event.event_id event.occurred_at
      data_ (record turn { status = queued_if_unknown turn.status })

unfoldable pub say :
    MessageKind
    → MessageRole
    → Bool
    → Event
    → MessageEventData
    → AgentUiTurnState
    → AgentUiTurnState
say kind role streaming event data_ turn =
    upsert_message kind role streaming event.event_id event.occurred_at data_ turn

unfoldable pub say_chunk : Event → MessageEventData → AgentUiTurnState → AgentUiTurnState
unfolding running_if_waiting
say_chunk event data_ turn =
    upsert_message MessageKind.message MessageRole.assistant true event.event_id event.occurred_at
      data_ (record turn { status = running_if_waiting turn.status })

-- The change that an event makes to the turn that it names, or for the end of a session's run to the
-- active one.
unfoldable pub turn_change : Body → Event → AgentUiTurnState → AgentUiTurnState
unfolding run_turn complete_turn fail_turn cancel_turn queue_turn push_raw has_text say_user say
    say_chunk error_message
turn_change Body.session_running event turn = run_turn event.occurred_at turn
turn_change (Body.session_idle stop) event turn =
    if is_end_turn stop then complete_turn event.occurred_at turn else turn
turn_change (Body.session_error data_) event turn =
    fail_turn (error_message data_) event.occurred_at turn
turn_change Body.turn_queued event turn = queue_turn turn
turn_change Body.turn_completed event turn = complete_turn event.occurred_at turn
turn_change (Body.turn_failed data_) event turn =
    fail_turn (error_message data_) event.occurred_at turn
turn_change (Body.turn_cancelled data_) event turn =
    cancel_turn (error_message data_) event.occurred_at turn
turn_change (Body.user_message_chunk data_) event turn = say_user true event data_ turn
turn_change (Body.user_message data_) event turn = say_user false event data_ turn
turn_change (Body.agent_message_chunk data_) event turn = say_chunk event data_ turn
turn_change (Body.agent_message data_) event turn =
    say MessageKind.message MessageRole.assistant false event data_ turn
turn_change (Body.agent_thinking data_) event turn =
    say MessageKind.thinking MessageRole.assistant (has_text data_.text) event data_ turn
turn_change (Body.system_message data_) event turn =
    say MessageKind.message MessageRole.system false event data_ turn
turn_change (Body.system_notice data_) event turn =
    say MessageKind.notice MessageRole.system false event data_ turn
turn_change (Body.tool status data_) event turn = upsert_tool status data_ turn
turn_change Body.raw_event event turn = push_raw (codes event.event_id) turn
turn_change Body.vendor_event event turn = push_raw (codes event.event_id) turn
turn_change _ event turn = turn

unfoldable pub changed_turn : Option String → Body → AgentUiState → Option String
unfolding or_active
changed_turn turn (Body.session_idle stop) state = or_active turn state
changed_turn turn (Body.session_error data_) state = or_active turn state
changed_turn turn _ state = turn

with_capability : Option String → Option Json → AgentUiState → AgentUiState
with_capability none value state = state
with_capability (some capability) value state =
    if non_empty capability
    then record state { capabilities = set capability value state.capabilities }
    else state

with_usage : Option Json → Option Json → String → AgentUiState → AgentUiState
with_usage none budget now state = state
with_usage (some usage) budget now state = record state {
  usage = some (record { usage = usage; budget = budget; updated_at = now });
}

with_status : AgentUiSessionStatus → AgentUiState → AgentUiState
with_status status state = record state { status = status }

with_active : Option String → AgentUiState → AgentUiState
with_active none state = state
with_active (some id) state = record state { active_turn_id = some id }

-- The change that an event makes to the state outside its turn.
unfoldable pub session_change : Body → Option String → Event → AgentUiState → AgentUiState
unfolding over or_kept with_capability with_usage with_status with_active clear_active error_message
session_change (Body.session_updated title updated_at) turn event state = record state {
  session_info = record {
    title = over title state.session_info.title;
    updated_at = over updated_at state.session_info.updated_at;
  };
}
session_change (Body.command_catalog_updated commands) turn event state = record state {
  commands = or_kept commands state.commands;
}
session_change (Body.capability_updated capability value) turn event state =
    with_capability capability value state
session_change Body.session_running turn event state =
    with_active turn (with_status AgentUiSessionStatus.running state)
session_change Body.session_rescheduled turn event state =
    with_status AgentUiSessionStatus.rescheduled state
session_change (Body.session_idle stop) turn event state = record state {
  status = AgentUiSessionStatus.idle;
  active_turn_id = none;
}
session_change Body.session_terminated turn event state = record state {
  status = AgentUiSessionStatus.terminated;
  active_turn_id = none;
}
session_change (Body.session_error data_) turn event state = record state {
  status = AgentUiSessionStatus.error;
  last_error = error_message data_;
  active_turn_id = none;
}
session_change (Body.usage_updated usage budget) turn event state =
    with_usage usage budget event.occurred_at state
session_change Body.turn_completed turn event state = clear_active event.turn_id state
session_change (Body.turn_failed data_) turn event state = clear_active event.turn_id state
session_change (Body.turn_cancelled data_) turn event state = clear_active event.turn_id state
session_change _ turn event state = state

unfoldable pub mark_seen : Event → AgentUiState → AgentUiState
mark_seen event state = record state { seen_event_ids = add event.event_id state.seen_event_ids }

-- The part before the turn is looked up.
unfoldable pub projections : AgentUiState → Event → AgentUiState
unfolding mark_seen
projections state event = mark_seen event (
    apply_outcome_projection
      (apply_callback_projection
        (apply_plan_projection (apply_work_item_projection state event) event) event)
      event)

module _ (parse_date : String → Option ℕ) where
  -- `settleThoughtTiming` on the turn, or for a session's event on the active one.
  unfoldable pub settle_timing : Option String → Event → AgentUiState → AgentUiState
  unfolding settled_turn with_turn
  settle_timing turn event state =
      with_turn (settled_turn turn event.body state)
        (settle_thought_timing parse_date event.body event.occurred_at) state

  -- The switch: what it does to the turn, and what to the rest of the state.
  unfoldable pub apply_event : Option String → Event → AgentUiState → AgentUiState
  unfolding changed_turn with_turn
  apply_event turn event state =
      session_change event.body turn event
        (with_turn (changed_turn turn event.body state) (turn_change event.body event) state)

  unfoldable pub reduced : AgentUiState → Event → AgentUiState
  unfolding projections turn_id_of require_turn settle_timing apply_event
  reduced state event =
      let turn = turn_id_of event.turn_id in
      apply_event turn event
        (settle_timing turn event (require_turn turn (projections state event)))

  unfoldable pub is_ignored : AgentUiState → Event → Bool
  is_ignored state event =
      ite (String_discrete event.session_id state.session_id)
        (has event.event_id state.seen_event_ids) true

  unfoldable pub reduce_agent_ui_event : AgentUiState → Event → AgentUiState
  unfolding is_ignored reduced
  reduce_agent_ui_event state event = if is_ignored state event then state else reduced state event

  unfoldable pub reduce_all : AgentUiState → List Event → AgentUiState
  unfolding reduce_agent_ui_event
  reduce_all state [] = state
  reduce_all state (event ∷ events) = reduce_all (reduce_agent_ui_event state event) events
