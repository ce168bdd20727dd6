-- ===== src/AgentUi/Store/Streams/Turns.antt =====
-- src/agent-ui/index.ts: how an event changes the text that streams in its turn.
use mathlib.Core.List.{append-nil}
use openma_common.Common.{
  String, Bool, true, false, not, Option, none, some, List, [], ◌∷◌, ◌++◌, ◌≡◌, refl, ◌∙◌, arith,
  inl, inr, if◌then◌else◌, Bool-cases, Option-cases,
}
use openma_common.Common.Units.{Units, codes}
use openma_common.AgentUi.{
  AgentUiMessageItem, AgentUiTimelineItem, message_item, raw_item, AgentUiTurnState, MessageKind,
  MessageRole, MessageEventData, Body, Event, ToolStatus, ToolLifecycleData,
}
use openma_common.AgentUi.Messages.{upsert_message, continue_tail, or_push}
use openma_common.AgentUi.Messages.Merging.{Begins}
use openma_common.AgentUi.Tools.{upsert_tool}
use openma_common.AgentUi.Reducer.{turn_change, say, say_user, say_chunk, has_text, push_raw}
use openma_common.AgentUi.Store.{
  StreamKind, assistant, thought, streams, streams_role, streamed_text, streamed_texts,
  stream_projection,
}
use openma_common.AgentUi.Store.Streams.{
  streamed_texts-append, continue_tail-kept, continue_tail-grown, upsert_tool_item_texts,
}

-- The text of a new item of another kind is none of the stream's.
new_kept :
    (s : StreamKind) (items : List AgentUiTimelineItem) (item : AgentUiMessageItem)
    → streams s item ≡ false
    → streamed_texts s (items ++ message_item item ∷ []) ≡ streamed_texts s items
unfolding streamed_texts streamed_text
new_kept s items item h =
    streamed_texts-append s items (message_item item ∷ [])
    ∙ rw (h, if◌then◌else◌) (append-nil (streamed_texts s items))

module _ (s : StreamKind) (kind : MessageKind) (role : MessageRole) (event_id now : String)
    (data_ : MessageEventData) (turn : AgentUiTurnState) where
  upsert_message_kept :
      (streaming : Bool)
      → streams_role s kind role ≡ false
      → streamed_texts s (upsert_message kind role streaming event_id now data_ turn).items
        ≡ streamed_texts s turn.items
  unfolding upsert_message or_push streams streams_role
  upsert_message_kept streaming n =
      elim (Option-cases (continue_tail turn.items kind role data_ streaming)) [
        | inl e ↦ rw (e, or_push) (new_kept s turn.items _ n)
        | inr (changed, e) ↦
            rw (e, or_push) (continue_tail-kept s kind role data_ streaming turn.items changed n e)
      ]

  upsert_message_grown :
      streams_role s kind role ≡ true
      → Begins
          (streamed_texts s (upsert_message kind role true event_id now data_ turn).items)
          (streamed_texts s turn.items)
  unfolding upsert_message or_push
  upsert_message_grown n = elim (Option-cases (continue_tail turn.items kind role data_ true)) [
    | inl e ↦ rw (e, or_push) (_, streamed_texts-append s turn.items _)
    | inr (changed, e) ↦
        rw (e, or_push) (continue_tail-grown s kind role data_ turn.items changed n e)
  ]

-- Whether an event may put a text in the place of the stream's without calling a subscriber: a whole
-- message, and a thinking event without a text.
unfoldable pub rewrites : StreamKind → Body → Bool
unfolding has_text
rewrites assistant (Body.agent_message data_) = true
rewrites thought (Body.agent_thinking data_) = not (has_text data_.text)
rewrites _ _ = false

-- Whether an event is one of the stream.
unfoldable pub is_of : StreamKind → Option StreamKind → Bool
is_of s none = false
is_of assistant (some assistant) = true
is_of thought (some thought) = true
is_of _ (some _) = false

raw_kept :
    (s : StreamKind) (id : Units) (turn : AgentUiTurnState)
    → streamed_texts s (push_raw id turn).items ≡ streamed_texts s turn.items
unfolding push_raw streamed_texts streamed_text
raw_kept s id turn =
    streamed_texts-append s turn.items (raw_item id ∷ []) ∙ append-nil (streamed_texts s turn.items)

tool_kept :
    (s : StreamKind) (status : ToolStatus) (data_ : ToolLifecycleData) (turn : AgentUiTurnState)
    → streamed_texts s (upsert_tool status data_ turn).items ≡ streamed_texts s turn.items
unfolding upsert_tool
tool_kept s status data_ turn = elim (Option-cases data_.tool_call_id) [
  | inl e ↦ rw e refl
  | inr (id, e) ↦ rw e (ground (arith, upsert_tool_item_texts s id status data_ turn.items))
]

-- An event that is none of the stream's, and replaces nothing, leaves the text as it is.
pub turn_change_kept :
    (s : StreamKind) (body : Body) (event : Event) (turn : AgentUiTurnState)
    → rewrites s body ≡ false
    → is_of s (stream_projection body) ≡ false
    → streamed_texts s (turn_change body event turn).items ≡ streamed_texts s turn.items
unfolding turn_change rewrites is_of stream_projection streams_role say_user say say_chunk has_text
turn_change_kept s (Body.session_idle stop) event turn r n = ground arith
turn_change_kept s (Body.user_message_chunk data_) event turn r n =
    upsert_message_kept s MessageKind.message MessageRole.user event.event_id event.occurred_at
      data_ _ true (ground arith)
turn_change_kept s (Body.user_message data_) event turn r n =
    upsert_message_kept s MessageKind.message MessageRole.user event.event_id event.occurred_at
      data_ _ false (ground arith)
turn_change_kept s (Body.agent_message_chunk data_) event turn r n =
    upsert_message_kept s MessageKind.message MessageRole.assistant event.event_id event.occurred_at
      data_ _ true (ground arith)
turn_change_kept s (Body.agent_message data_) event turn r n =
    upsert_message_kept s MessageKind.message MessageRole.assistant event.event_id event.occurred_at
      data_ _ false (ground arith)
turn_change_kept s (Body.agent_thinking data_) event turn r n =
    upsert_message_kept s MessageKind.thinking MessageRole.assistant event.event_id
      event.occurred_at data_ _ _ (ground arith)
turn_change_kept s (Body.system_message data_) event turn r n =
    upsert_message_kept s MessageKind.message MessageRole.system event.event_id event.occurred_at
      data_ _ false (ground arith)
turn_change_kept s (Body.system_notice data_) event turn r n =
    upsert_message_kept s MessageKind.notice MessageRole.system event.event_id event.occurred_at
      data_ _ false (ground arith)
turn_change_kept s (Body.tool status data_) event turn r n = tool_kept s status data_ turn
turn_change_kept s Body.raw_event event turn r n = raw_kept s (codes event.event_id) turn
turn_change_kept s Body.vendor_event event turn r n = raw_kept s (codes event.event_id) turn
turn_change_kept s _ event turn r n = refl

-- An event of the stream extends the text.
pub turn_change_grown :
    (s : StreamKind) (body : Body) (event : Event) (turn : AgentUiTurnState)
    → is_of s (stream_projection body) ≡ true
    → Begins (streamed_texts s (turn_change body event turn).items) (streamed_texts s turn.items)
unfolding turn_change is_of stream_projection streams_role say_chunk say has_text
turn_change_grown assistant (Body.agent_message_chunk data_) event turn h =
    upsert_message_grown assistant MessageKind.message MessageRole.assistant event.event_id
      event.occurred_at data_ _ refl
turn_change_grown thought (Body.agent_thinking data_) event turn h =
    elim (Bool-cases (has_text data_.text)) [
      | inl e ↦ rw e (
          upsert_message_grown thought MessageKind.thinking MessageRole.assistant event.event_id
            event.occurred_at data_ _ refl)
      | inr e ↦ absurd (ground arith)
    ]
turn_change_grown thought (Body.agent_message_chunk data_) event turn h = ground arith
turn_change_grown assistant (Body.agent_thinking data_) event turn h = ground arith
turn_change_grown s _ event turn h = ground arith
