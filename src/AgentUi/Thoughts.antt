-- ===== src/AgentUi/Thoughts.antt =====
-- src/agent-ui/index.ts: how long a thought took. `Date.parse` is a parameter: the milliseconds of a date
-- from 1970 on, or none for a text that is no date.
use openma_common.Common.{
  ℕ, ◌+◌, ◌-◌, ◌/◌, max, String, Bool, true, false, not, Option, none, some, List, [], ◌∷◌,
  if◌then◌else◌, non_empty, str_eq,
}
use openma_common.Common.Json.{Json, obj, num, Fields, end, field, natural}
use openma_common.Common.Units.{same}
use openma_common.AgentUi.{
  AgentUiMessageItem, AgentUiTimelineItem, message_item, AgentUiTurnState, thinking, message,
  notice, Body, agent_thinking, agent_message_chunk, agent_message, tool, turn_completed,
  turn_failed, turn_cancelled, session_error, session_terminated, session_idle, StopReason,
  no_reason, reason_text, reason_record,
}

pub stop_reason_type : StopReason → Option String
stop_reason_type no_reason = none
stop_reason_type (reason_text t) = some t
stop_reason_type (reason_record t) = t

pub is_end_turn : StopReason → Bool
unfolding stop_reason_type
is_end_turn reason = elim (stop_reason_type reason) [ none ↦ false | some t ↦ str_eq t "end_turn" ]

-- A text that is there and not empty.
is_set : Option String → Bool
is_set none = false
is_set (some t) = non_empty t

-- item.kind === "thinking" && !item.endedAt
is_open_thought : AgentUiTimelineItem → Bool
unfolding is_set
is_open_thought (message_item item) = elim item.kind [
  | thinking ↦ not (is_set item.ended_at)
  | message ↦ false
  | notice ↦ false
]
is_open_thought _ = false

no_open_thought : List AgentUiTimelineItem → Bool
unfolding is_open_thought
no_open_thought [] = true
no_open_thought (item ∷ items) =
    let rest = no_open_thought items in if is_open_thought item then false else rest

-- Whether an event of thinking goes on with the thought that is the last item.
continues_thought : Body → AgentUiMessageItem → List AgentUiTimelineItem → Bool
continues_thought (agent_thinking data_) thought [] = elim data_.message_id [
  | none ↦ true
  | some id ↦ elim thought.message_id [ none ↦ same id thought.id | some other ↦ same id other ]
]
continues_thought _ thought later = false

boundary : Body → Bool
unfolding is_end_turn
boundary (agent_thinking data_) = true
boundary (agent_message_chunk data_) = true
boundary (agent_message data_) = true
boundary (tool status data_) = true
boundary turn_completed = true
boundary (turn_failed data_) = true
boundary (turn_cancelled data_) = true
boundary (session_error data_) = true
boundary session_terminated = true
boundary (session_idle reason) = is_end_turn reason
boundary _ = false

-- { ...fields, key: value }
set_field : String → Json → Fields → Fields
set_field key value end = field key value end
set_field key value (field k v fs) =
    let rest = set_field key value fs in if str_eq k key then field k value fs else field k v rest

record_of : Option Json → Fields
record_of (some (obj fs)) = fs
record_of _ = end

-- Math.max(1, Math.ceil(elapsed / 1_000)), where an elapsed time below 0 gives 1 too.
pub seconds_between : ℕ → ℕ → ℕ
seconds_between earlier later = max 1 ((later - earlier + 999) / 1000)

module _ (parse_date : String → Option ℕ) where
  unfoldable pub settled : String → String → AgentUiMessageItem → AgentUiMessageItem
  unfolding set_field record_of seconds_between
  settled start now thought = elim (parse_date now) [
    | none ↦ thought
    | some later ↦ elim (parse_date start) [
      | none ↦ thought
      | some earlier ↦ record thought {
        ended_at = some now;
        content = some (
            obj (
              set_field "durationSeconds" (num (natural (seconds_between earlier later)))
                (record_of thought.content)));
      }
    ]
  ]

  unfoldable pub settle_thought :
      Body → String → AgentUiMessageItem → List AgentUiTimelineItem → AgentUiMessageItem
  unfolding settled continues_thought boundary
  settle_thought body now thought later = elim thought.started_at [
    | none ↦ thought
    | some start ↦
        if non_empty start
        then (if continues_thought body thought later
            then thought
            else if boundary body
            then settled start now thought
            else thought)
        else thought
  ]

  unfoldable pub settle_item :
      Body → String → AgentUiTimelineItem → List AgentUiTimelineItem → AgentUiTimelineItem
  unfolding settle_thought
  settle_item body now (message_item thought) later =
      message_item (settle_thought body now thought later)
  settle_item body now item later = item

  -- The change of the last open thought.
  unfoldable pub settle_items : Body → String → List AgentUiTimelineItem → List AgentUiTimelineItem
  unfolding is_open_thought no_open_thought settle_item
  settle_items body now [] = []
  settle_items body now (item ∷ items) =
      let rest = settle_items body now items in
      if is_open_thought item
      then (if no_open_thought items then settle_item body now item items ∷ items else item ∷ rest)
      else item ∷ rest

  unfoldable pub settle_thought_timing : Body → String → AgentUiTurnState → AgentUiTurnState
  unfolding settle_items
  settle_thought_timing body now turn = record turn { items = settle_items body now turn.items }
