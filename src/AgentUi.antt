-- ===== src/AgentUi.antt =====
-- src/agent-ui/index.ts: the state that a view of an agent session is drawn from, and the events that it
-- is reduced from. The texts that stream are UTF-16 code units, and so are the ids of timeline items; a
-- `Record` of the state is an association list. An event's data is read as its declared type, and a value
-- that the code only carries is JSON.
pub mod Records
pub mod Plans
pub mod Requests
pub mod Messages
pub mod Thoughts
pub mod Tools
pub mod Reducer
pub mod Replay
pub mod Store
pub mod Sessions
use openma_common.Common.{ℕ, String, Bool, Option, none, some, List, []}
use openma_common.Common.Json.{Json, Items, Fields, Number}
use openma_common.Common.Units.{Units}
use openma_common.WorkItems.{WorkItemKind, WorkItemStatus, Payload}

pub data AgentUiSessionStatus : Type 0 where
  unknown running rescheduled idle terminated error : AgentUiSessionStatus

pub data AgentUiTurnStatus : Type 0 where
  turn_unknown awaiting queued turn_running completed failed cancelled : AgentUiTurnStatus

pub data MessageKind : Type 0 where
  message thinking notice : MessageKind

pub data MessageRole : Type 0 where
  user assistant system : MessageRole

pub data Phase : Type 0 where
  commentary final_answer : Phase

pub record AgentUiMessageItem : Type 0 where
  pub id : Units
  pub message_id : Option Units
  pub kind : MessageKind
  pub role : MessageRole
  pub text : Units
  pub streaming : Bool
  pub content : Option Json
  pub started_at : Option String
  pub ended_at : Option String
  pub phase : Option Phase

pub data ToolStatus : Type 0 where
  in_progress tool_completed tool_failed tool_cancelled : ToolStatus

pub record ToolOutputData : Type 0 where
  pub append : Bool
  pub output : Json

pub record AgentUiToolItem : Type 0 where
  pub id : Units
  pub name : Option String
  pub title : Option String
  pub tool_kind : Option String
  pub status : ToolStatus
  pub raw_input : Option Json
  pub raw_output : Option Json
  pub content : Option Items
  pub locations : Option Items
  pub adapter_meta : Option Fields
  pub outputs : List ToolOutputData
  pub error : Option String
  pub reason : Option String

pub data AgentUiTimelineItem : Type 0 where
  message_item : AgentUiMessageItem → AgentUiTimelineItem
  tool_item : AgentUiToolItem → AgentUiTimelineItem
  raw_item : Units → AgentUiTimelineItem

pub record AgentUiWorkItemState : Type 0 where
  pub id : String
  pub kind : WorkItemKind
  pub status : WorkItemStatus
  pub title : Option String
  pub progress : Option Number
  pub outputs : List Json
  pub result : Option Json
  pub error : Option String
  pub reason : Option String
  pub started_at : Option String
  pub ended_at : Option String
  pub missing_start : Option Bool
  pub missing_terminal : Option Bool

pub data PlanRepresentation : Type 0 where
  items markdown file : PlanRepresentation

pub record CanonicalPlanEntry : Type 0 where
  pub id : Option String
  pub content : String
  pub priority : Option String
  pub status : Option String
  pub adapter_meta : Option Json

pub record AgentUiPlanState : Type 0 where
  pub id : String
  pub representation : PlanRepresentation
  pub is_completed : Bool
  pub entries : List CanonicalPlanEntry

pub data CallbackStatus : Type 0 where
  pending callback_completed callback_failed notification : CallbackStatus

pub record AgentUiCallbackState : Type 0 where
  pub id : String
  pub category : Option String
  pub method : String
  pub status : CallbackStatus
  pub params : Option Json
  pub result : Option Json
  pub error : Option Json

pub record AgentUiUsageState : Type 0 where
  pub usage : Json
  pub budget : Option Json
  pub updated_at : String

pub record AgentUiOutcomeState : Type 0 where
  pub id : String
  pub status : String
  pub description : Option String
  pub rubric : Option Json
  pub max_iterations : Option (Option Number)
  pub iteration : Option Number
  pub explanation : Option String
  pub usage : Option Json
  pub updated_at : String

-- A title or a time that was set is some, which may be null.
pub record AgentUiSessionInfoState : Type 0 where
  pub title : Option (Option String)
  pub updated_at : Option (Option String)

pub record AgentUiTurnState : Type 0 where
  pub id : String
  pub status : AgentUiTurnStatus
  pub items : List AgentUiTimelineItem
  pub error : Option String
  pub reason : Option String
  pub started_at : Option String
  pub ended_at : Option String

pub record AgentUiState : Type 0 where
  pub session_id : String
  pub status : AgentUiSessionStatus
  pub session_info : AgentUiSessionInfoState
  pub commands : Items
  pub capabilities : List (String × Option Json)
  pub active_turn_id : Option String
  pub turn_order : List String
  pub turns : List (String × AgentUiTurnState)
  pub work_item_order : List String
  pub work_items : List (String × AgentUiWorkItemState)
  pub plan_order : List String
  pub plans : List (String × AgentUiPlanState)
  pub callback_order : List String
  pub callbacks : List (String × AgentUiCallbackState)
  pub usage : Option AgentUiUsageState
  pub outcome_order : List String
  pub outcomes : List (String × AgentUiOutcomeState)
  pub seen_event_ids : List String
  pub last_error : Option String

unfoldable pub create_agent_ui_state : String → AgentUiState
create_agent_ui_state session_id = record {
  session_id = session_id;
  status = unknown;
  session_info = record { title = none; updated_at = none };
  commands = Items.nil;
  capabilities = [];
  active_turn_id = none;
  turn_order = [];
  turns = [];
  work_item_order = [];
  work_items = [];
  plan_order = [];
  plans = [];
  callback_order = [];
  callbacks = [];
  usage = none;
  outcome_order = [];
  outcomes = [];
  seen_event_ids = [];
  last_error = none;
}

-- { ...old, ...(new !== undefined ? { key: new } : {}) }, at the key.
unfoldable pub over : {A : Type 0} → Option A → Option A → Option A
over (some new) old = some new
over none old = old

pub record MessageEventData : Type 0 where
  pub message_id : Option Units
  pub text : Option Units
  pub content : Option Json
  pub phase : Option Phase

pub record ToolLifecycleData : Type 0 where
  pub tool_call_id : Option Units
  pub tool_name : Option String
  pub title : Option String
  pub kind : Option String
  pub raw_input : Option Json
  pub raw_output : Option Json
  pub content : Option Items
  pub locations : Option Items
  pub adapter_meta : Option Fields
  pub error : Option String
  pub reason : Option String
  pub output : Option ToolOutputData

-- A representation that is none of the three is none.
pub record PlanUpdatedData : Type 0 where
  pub representation : Option PlanRepresentation
  pub plan_id : Option String
  pub is_merge : Bool
  pub entries : Option (List CanonicalPlanEntry)

-- A text, a number by the text that prints it, null, or anything else.
pub data CallbackId : Type 0 where
  text_id : String → CallbackId
  number_id : String → CallbackId
  null_id : CallbackId
  no_id : CallbackId

pub record CallbackLifecycleData : Type 0 where
  pub callback_id : CallbackId
  pub category : Option String
  pub method : Option String
  pub params : Option Json
  pub result : Option Json
  pub error : Option Json

pub record OutcomeData : Type 0 where
  pub outcome_id : Option String
  pub description : Option String
  pub rubric : Option Json
  pub max_iterations : Option (Option Number)
  pub iteration : Option Number
  pub result : Option String
  pub explanation : Option String
  pub usage : Option Json

pub data OutcomeEventType : Type 0 where
  outcome_defined evaluation_started evaluation_progress evaluation_completed : OutcomeEventType

pub record ErrorData : Type 0 where
  pub error : Option String
  pub message : Option String
  pub reason : Option String

pub data StopReason : Type 0 where
  no_reason : StopReason
  reason_text : String → StopReason
  reason_record : Option String → StopReason

-- An event's type with its data. A title or a time is some where the data has the property.
pub data Body : Type 0 where
  session_updated : Option (Option String) → Option (Option String) → Body
  command_catalog_updated : Option Items → Body
  capability_updated : Option String → Option Json → Body
  session_running session_rescheduled session_terminated : Body
  session_idle : StopReason → Body
  session_error : ErrorData → Body
  usage_updated : Option Json → Option Json → Body
  turn_queued turn_completed : Body
  turn_failed : ErrorData → Body
  turn_cancelled : ErrorData → Body
  user_message_chunk : MessageEventData → Body
  user_message : MessageEventData → Body
  agent_message_chunk : MessageEventData → Body
  agent_message : MessageEventData → Body
  agent_thinking : MessageEventData → Body
  system_message : MessageEventData → Body
  system_notice : MessageEventData → Body
  tool : ToolStatus → ToolLifecycleData → Body
  raw_event : Body
  vendor_event : Body
  plan_updated : PlanUpdatedData → Body
  plan_completed : Option String → Body
  plan_removed : Option String → Body
  callback : CallbackStatus → CallbackLifecycleData → Body
  outcome : OutcomeEventType → OutcomeData → Body
  work_item : Payload → Body
  other_event : Bool → Body  -- whether its type begins with "session."

pub record Event : Type 0 where
  pub event_id : String
  pub session_id : String
  pub turn_id : Option String
  pub work_item_id : Option String
  pub occurred_at : String
  pub seq : Option ℕ
  pub body : Body
