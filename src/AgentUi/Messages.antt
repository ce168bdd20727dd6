-- ===== src/AgentUi/Messages.antt =====
-- src/agent-ui/index.ts: the messages of a turn: how streamed texts merge, which item an event's text
-- goes to, and how long a thought took.
pub mod Merging
pub mod Fresh
mod Tests
use openma_common.Common.{
  ℕ, zero, suc, ◌+◌, ◌-◌, ◌/◌, min, max, String, Bool, true, false, ◌&&◌, Option, none, some, List,
  [], ◌∷◌, ◌++◌, length, if◌then◌else◌, ltb, leb, non_empty,
}
use openma_common.Common.Json.{Json, Fields, Number}
use openma_common.Common.Units.{Units, codes, is_nil, take, drop, starts_with, ends_with, same}
use openma_common.Common.Decimal.{decimal}
use openma_common.AgentUi.{
  over, AgentUiMessageItem, AgentUiTimelineItem, message_item, tool_item, raw_item,
  AgentUiTurnState, MessageKind, message, thinking, notice, MessageRole, user, assistant, system,
  MessageEventData, Phase, Body, agent_thinking, agent_message_chunk, agent_message, tool,
  turn_completed, turn_failed, turn_cancelled, session_error, session_terminated, session_idle,
  StopReason, no_reason, reason_text, reason_record,
}

-- MIN_STREAM_OVERLAP
abbrev min_stream_overlap : ℕ
min_stream_overlap = 8

-- The loop over the sizes of an overlap, from the largest down; no overlap is one of size 0.
overlap : ℕ → Units → Units → ℕ
overlap zero accumulated incoming = 0
overlap (suc n) accumulated incoming =
    let smaller = overlap n accumulated incoming in
    if ltb (suc n) min_stream_overlap
    then 0
    else if ends_with accumulated (take (suc n) incoming)
    then suc n
    else smaller

unfoldable pub merge_agent_ui_streaming_text : Units → Units → Units
unfolding overlap
merge_agent_ui_streaming_text accumulated incoming =
    if is_nil accumulated
    then incoming
    else if is_nil incoming
    then accumulated
    else if same incoming accumulated
    then accumulated
    else if starts_with incoming accumulated
    then incoming
    else if leb min_stream_overlap (length incoming) && ends_with accumulated incoming
    then accumulated
    else accumulated
      ++ drop (overlap (min (length accumulated) (length incoming)) accumulated incoming) incoming

item_id : AgentUiTimelineItem → Units
item_id (message_item item) = item.id
item_id (tool_item item) = item.id
item_id (raw_item id) = id

-- turn.items.some((item) => item.id === id)
pub has_item : Units → List AgentUiTimelineItem → Bool
unfolding item_id
has_item id [] = false
has_item id (item ∷ items) =
    let rest = has_item id items in if same (item_id item) id then true else rest

segment_id : Units → ℕ → Units
segment_id source_id segment = source_id ++ codes ":segment:" ++ decimal segment

-- The loop over the segments, on fuel.
free_segment : ℕ → Units → List AgentUiTimelineItem → ℕ → ℕ
unfolding has_item segment_id
free_segment zero source_id items segment = segment
free_segment (suc fuel) source_id items segment =
    let rest = free_segment fuel source_id items (segment + 1) in
    if has_item (segment_id source_id segment) items then rest else segment

-- A turn of n items has a free segment among the n + 1 first ones.
pub unique_message_item_id : List AgentUiTimelineItem → Units → Units
unfolding has_item segment_id free_segment
unique_message_item_id items source_id =
    if has_item source_id items
    then segment_id source_id (free_segment (length items) source_id items 2)
    else source_id

unfoldable pub kind_eq : MessageKind → MessageKind → Bool
kind_eq message message = true
kind_eq thinking thinking = true
kind_eq notice notice = true
kind_eq _ _ = false

unfoldable pub role_eq : MessageRole → MessageRole → Bool
role_eq user user = true
role_eq assistant assistant = true
role_eq system system = true
role_eq _ _ = false

unfoldable pub or_id : Option Units → Units → Units
or_id none id = id
or_id (some t) id = t

-- An id of a message that is undefined fits every item.
unfoldable pub id_fits : Option Units → AgentUiMessageItem → Bool
unfolding or_id
id_fits none item = true
id_fits (some id) item = same (or_id item.message_id item.id) id

unfoldable pub fits : MessageKind → MessageRole → Option Units → AgentUiMessageItem → Bool
unfolding kind_eq role_eq id_fits
fits kind role message_id item =
    kind_eq item.kind kind && role_eq item.role role && id_fits message_id item

unfoldable pub no_text : Option Units → Units
no_text none = []
no_text (some t) = t

unfoldable pub continued : MessageEventData → Bool → AgentUiMessageItem → AgentUiMessageItem
unfolding over no_text
continued data_ streaming item = record item {
  text =
      if streaming
      then merge_agent_ui_streaming_text item.text (no_text data_.text)
      else no_text data_.text;
  streaming = streaming;
  content = over data_.content item.content;
  phase = over data_.phase item.phase;
}

-- typeof data.message_id === "string" && data.message_id.length > 0 ? data.message_id : event.event_id
source_id_of : Option Units → String → Units
source_id_of none event_id = codes event_id
source_id_of (some t) event_id = if is_nil t then codes event_id else t

unfoldable pub start_of : MessageKind → String → Option String
start_of thinking occurred_at = some occurred_at
start_of _ occurred_at = none

unfoldable pub new_message :
    List AgentUiTimelineItem
    → MessageKind
    → MessageRole
    → MessageEventData
    → Bool
    → Units
    → String
    → AgentUiMessageItem
unfolding start_of no_text
new_message items kind role data_ streaming id occurred_at =
    let segment = unique_message_item_id items id in
    record {
      id = segment;
      message_id = if same segment id then none else some id;
      kind = kind;
      role = role;
      text = no_text data_.text;
      streaming = streaming;
      content = data_.content;
      started_at = start_of kind occurred_at;
      ended_at = none;
      phase = data_.phase;
    }

-- The last item with the text of the event, if the event continues it.
unfoldable pub continue_tail :
    List AgentUiTimelineItem
    → MessageKind
    → MessageRole
    → MessageEventData
    → Bool
    → Option (List AgentUiTimelineItem)
unfolding fits continued
continue_tail [] kind role data_ streaming = none
continue_tail (message_item item ∷ []) kind role data_ streaming =
    if fits kind role data_.message_id item
    then some (message_item (continued data_ streaming item) ∷ [])
    else none
continue_tail (tool_item item ∷ []) kind role data_ streaming = none
continue_tail (raw_item id ∷ []) kind role data_ streaming = none
continue_tail (item ∷ next ∷ items) kind role data_ streaming =
    elim (continue_tail (next ∷ items) kind role data_ streaming) [
      | none ↦ none
      | some rest ↦ some (item ∷ rest)
    ]

unfoldable pub or_push :
    List AgentUiTimelineItem
    → AgentUiMessageItem
    → Option (List AgentUiTimelineItem)
    → List AgentUiTimelineItem
or_push items item none = items ++ message_item item ∷ []
or_push items item (some changed) = changed

unfoldable pub upsert_message :
    MessageKind
    → MessageRole
    → Bool
    → String
    → String
    → MessageEventData
    → AgentUiTurnState
    → AgentUiTurnState
unfolding source_id_of continue_tail or_push new_message
upsert_message kind role streaming event_id occurred_at data_ turn = record turn {
  items =
      or_push turn.items
        (new_message turn.items kind role data_ streaming (source_id_of data_.message_id event_id)
          occurred_at)
        (continue_tail turn.items kind role data_ streaming);
}
