-- ===== src/AgentUi/Store.antt =====
-- src/agent-ui/index.ts: the store of a session's state, its listeners, and the subscribers to the text
-- that streams in a turn. A listener is a number, so that a set of them holds each once; what the store
-- calls is listed in the order of the calls.
pub mod Streams
pub mod Delivery
use openma_common.Common.{
  ℕ, String, Bool, true, false, Option, none, some, List, [], ◌∷◌, ◌++◌, map, length, if◌then◌else◌,
  non_empty, ◌==◌, ite, not, ◌&&◌, ◌||◌,
}
use openma_common.Common.Maps.{get, set, delete}
use openma_common.Common.Units.{Units, is_nil, drop, starts_with, same}
use openma_common.AgentUi.{
  AgentUiState, AgentUiTurnState, AgentUiMessageItem, AgentUiTimelineItem, message_item, tool_item,
  raw_item, MessageKind, MessageRole, Body, Event, create_agent_ui_state,
}
use openma_common.AgentUi.Reducer.{turn_id_of, is_ignored, reduce_agent_ui_event}

pub data StreamKind : Type 0 where
  assistant thought : StreamKind

pub streams_role : StreamKind → MessageKind → MessageRole → Bool
streams_role thought MessageKind.thinking role = true
streams_role assistant MessageKind.message MessageRole.assistant = true
streams_role _ kind role = false

pub streams : StreamKind → AgentUiMessageItem → Bool
unfolding streams_role
streams kind item = streams_role kind item.kind item.role

-- What an item adds to the text of a stream.
pub streamed_text : StreamKind → AgentUiTimelineItem → Units
unfolding streams
streamed_text kind (message_item item) = if streams kind item then item.text else []
streamed_text kind (tool_item item) = []
streamed_text kind (raw_item id) = []

pub streamed_texts : StreamKind → List AgentUiTimelineItem → Units
unfolding streamed_text
streamed_texts kind [] = []
streamed_texts kind (item ∷ items) = streamed_text kind item ++ streamed_texts kind items

pub text_of_turn : StreamKind → Option AgentUiTurnState → Units
unfolding streamed_texts
text_of_turn kind none = []
text_of_turn kind (some turn) = streamed_texts kind turn.items

unfoldable pub accumulated_turn_stream : AgentUiState → Option String → StreamKind → Units
unfolding turn_id_of text_of_turn
accumulated_turn_stream state turn_id kind = elim (turn_id_of turn_id) [
  | none ↦ []
  | some id ↦ text_of_turn kind (get id state.turns)
]

thought_if : Option Units → Option StreamKind
thought_if none = none
thought_if (some t) = if is_nil t then none else some thought

pub stream_projection : Body → Option StreamKind
unfolding thought_if
stream_projection (Body.agent_message_chunk data_) = some assistant
stream_projection (Body.agent_thinking data_) = thought_if data_.text
stream_projection _ = none

-- The id of the message that an event's data gives, if it gives one.
message_id_of : Body → Option Units
message_id_of (Body.agent_message_chunk data_) = data_.message_id
message_id_of (Body.agent_thinking data_) = data_.message_id
message_id_of _ = none

other_message : Option Units → AgentUiMessageItem → Bool
other_message none item = false
other_message (some id) item =
    if is_nil id
    then false
    else not (elim item.message_id [ none ↦ same item.id id | some t ↦ same t id ])

tail_opens : List AgentUiTimelineItem → StreamKind → Option Units → Bool
unfolding streams other_message
tail_opens [] kind id = true
tail_opens (message_item item ∷ []) kind id =
    if streams kind item then other_message id item else true
tail_opens (tool_item item ∷ []) kind id = true
tail_opens (raw_item other ∷ []) kind id = true
tail_opens (item ∷ next ∷ items) kind id = tail_opens (next ∷ items) kind id

opens_stream_segment : AgentUiState → Event → StreamKind → Bool
unfolding turn_id_of tail_opens message_id_of
opens_stream_segment state event kind = elim (turn_id_of event.turn_id) [
  | none ↦ false
  | some id ↦ elim (get id state.turns) [
    | none ↦ true
    | some turn ↦ tail_opens turn.items kind (message_id_of event.body)
  ]
]

pub record AgentUiStore : Type 0 where
  pub state : AgentUiState
  pub listeners : List ℕ
  pub stream_subscribers : List (String × List ℕ)

pub data StoreCall : Type 0 where
  listener_called : ℕ → AgentUiState → StoreCall
  subscriber_called : ℕ → StreamKind → Units → StoreCall

pub create_agent_ui_store : String → AgentUiStore
create_agent_ui_store session_id = record {
  state = create_agent_ui_state session_id;
  listeners = [];
  stream_subscribers = [];
}

-- The text that a change adds, or none where it is no extension.
pub added_text : Units → Units → Units
added_text before after = if starts_with after before then drop (length before) after else []

pub subscribers_of : Option (List ℕ) → List ℕ
subscribers_of none = []
subscribers_of (some subscribers) = subscribers

stream_calls : List (String × List ℕ) → Option String → StreamKind → Units → List StoreCall
unfolding subscribers_of
stream_calls subscribers turn_id kind delta = elim (turn_id_of turn_id) [
  | none ↦ []
  | some id ↦
      if is_nil delta
      then []
      else map (λ subscriber. subscriber_called subscriber kind delta)
          (subscribers_of (get id subscribers))
]

state_calls : List ℕ → AgentUiState → List StoreCall
state_calls listeners state = map (λ listener. listener_called listener state) listeners

module _ (parse_date : String → Option ℕ) where
  -- The text that an event adds to the stream of its kind in its turn.
  unfoldable pub stream_delta : AgentUiState → Event → StreamKind → Units
  unfolding added_text accumulated_turn_stream
  stream_delta state event kind =
      added_text (accumulated_turn_stream state event.turn_id kind)
        (accumulated_turn_stream (reduce_agent_ui_event parse_date state event) event.turn_id kind)

  calls_of : AgentUiStore → Event → AgentUiState → Option StreamKind → List StoreCall
  unfolding stream_calls state_calls opens_stream_segment stream_delta
  calls_of store event next none = state_calls store.listeners next
  calls_of store event next (some kind) =
      stream_calls store.stream_subscribers event.turn_id kind (stream_delta store.state event kind)
      ++ (if opens_stream_segment store.state event kind
          then state_calls store.listeners next
          else [])

  -- `next !== state` holds exactly where the reduction does not ignore the event.
  unfoldable pub dispatch : AgentUiStore → Event → AgentUiStore × List StoreCall
  unfolding calls_of stream_projection
  dispatch store event =
      if is_ignored parse_date store.state event
      then (store, [])
      else (let next = reduce_agent_ui_event parse_date store.state event in
          (record store { state = next }, calls_of store event next (stream_projection event.body)))

  -- The calls that the events of a list give, one event after the other.
  unfoldable pub dispatch_all : List Event → AgentUiStore → AgentUiStore × List StoreCall
  unfolding dispatch
  dispatch_all [] store = (store, [])
  dispatch_all (event ∷ events) store =
      let step = dispatch store event in
      let (last, later) = dispatch_all events step.0 in (last, step.1 ++ later)

add_listener : ℕ → List ℕ → List ℕ
add_listener l [] = l ∷ []
add_listener l (other ∷ listeners) =
    let rest = add_listener l listeners in if other == l then other ∷ listeners else other ∷ rest

delete_listener : ℕ → List ℕ → List ℕ
delete_listener l [] = []
delete_listener l (other ∷ listeners) =
    let rest = delete_listener l listeners in if other == l then listeners else other ∷ rest

subscribe : ℕ → AgentUiStore → AgentUiStore
unfolding add_listener
subscribe listener store = record store { listeners = add_listener listener store.listeners }

unsubscribe : ℕ → AgentUiStore → AgentUiStore
unfolding delete_listener
unsubscribe listener store = record store { listeners = delete_listener listener store.listeners }

text_call : ℕ → StreamKind → Units → List StoreCall
text_call listener kind [] = []
text_call listener kind (c ∷ text) = subscriber_called listener kind (c ∷ text) ∷ []

-- The listener is called at once with the text that is there, of thoughts and then of the assistant.
pub subscribe_turn_stream : String → ℕ → AgentUiStore → AgentUiStore × List StoreCall
unfolding add_listener subscribers_of text_call
subscribe_turn_stream turn_id listener store = (
  record store {
    stream_subscribers =
        set turn_id (add_listener listener (subscribers_of (get turn_id store.stream_subscribers)))
          store.stream_subscribers;
  },
  text_call listener thought (accumulated_turn_stream store.state (some turn_id) thought)
      ++ text_call listener assistant
          (accumulated_turn_stream store.state (some turn_id) assistant),
)

unsubscribe_turn_stream : String → ℕ → AgentUiStore → AgentUiStore
unfolding delete_listener
unsubscribe_turn_stream turn_id listener store = elim (get turn_id store.stream_subscribers) [
  | none ↦ store
  | some current ↦
      let left = delete_listener listener current in
      record store {
        stream_subscribers =
            if is_nil left
            then delete turn_id store.stream_subscribers
            else set turn_id left store.stream_subscribers;
      }
]
