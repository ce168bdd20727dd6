-- ===== src/AgentUi/Store/Delivery/Tests.antt =====
-- src/agent-ui/index.ts: a subscriber of a turn with two chunks of a message and a thought between them.
use openma_common.AgentUi.Thoughts.{settle_thought_timing}
use openma_common.AgentUi.Messages.{merge_agent_ui_streaming_text, upsert_message}
use openma_common.Common.{
  ℕ, String, List, [], ◌∷◌, ◌++◌, ◌≡◌, refl, Option, none, some, All, String_discrete,
  Turn_discrete, non_empty, arith,
}
use openma_common.Common.Maps.{get, set, has, add}
use openma_common.Common.Units.{same, Units, codes, starts_with}
use openma_common.AgentUi.{Event, Body, MessageEventData, create_agent_ui_state}
use openma_common.AgentUi.Records.{apply_work_item_projection}
use openma_common.AgentUi.Plans.{apply_plan_projection}
use openma_common.AgentUi.Requests.{apply_callback_projection, apply_outcome_projection}
use openma_common.AgentUi.Reducer.{turn_change, is_ignored, reduce_agent_ui_event, session_change}
use openma_common.AgentUi.Store.{
  AgentUiStore, assistant, create_agent_ui_store, dispatch_all, subscribe_turn_stream,
  accumulated_turn_stream, subscribers_of,
}
use openma_common.AgentUi.Store.Streams.Turns.{rewrites}
use openma_common.AgentUi.Store.Delivery.Added.{Appends}
use openma_common.AgentUi.Store.Delivery.Heard.{heard, times}
use openma_common.AgentUi.Store.Delivery.Transcript.{transcript_heard, Unsubscribed}

abbrev no_date : String → Option ℕ
no_date t = none

abbrev data_of : Units → MessageEventData
data_of text = record { message_id = none; text = some text; content = none; phase = none }

abbrev chunk_event : String → Body → Event
chunk_event id body = record {
  event_id = id;
  session_id = "s";
  turn_id = some "t";
  work_item_id = none;
  occurred_at = "2026-01-01T00:00:00Z";
  seq = none;
  body = body;
}

abbrev chunks : List Event
chunks =
    chunk_event "e1" (Body.agent_message_chunk (data_of (codes "Hello")))
    ∷ chunk_event "e2" (Body.agent_message_chunk (data_of (codes "Hello, you")))
    ∷ chunk_event "e3" (Body.agent_thinking (data_of (codes "Hm")))
    ∷ chunk_event "e2" (Body.agent_message_chunk (data_of (codes " again")))
    ∷ chunk_event "e4" (Body.agent_message_chunk (data_of (codes "!")))
    ∷ []

abbrev subscribed_store : AgentUiStore
subscribed_store = (subscribe_turn_stream "t" 7 (create_agent_ui_store "s")).0

heard_text :
    heard 7 assistant (dispatch_all no_date chunks subscribed_store).1 ≡ codes "Hello, you!"
unfolding heard dispatch_all is_ignored String_discrete subscribe_turn_stream create_agent_ui_store
    create_agent_ui_state has non_empty starts_with get set add reduce_agent_ui_event session_change
    apply_outcome_projection apply_callback_projection apply_plan_projection
    apply_work_item_projection Turn_discrete turn_change upsert_message settle_thought_timing
    merge_agent_ui_streaming_text same
heard_text = refl

nobody : Unsubscribed 7 (create_agent_ui_store "s")
unfolding times subscribers_of get create_agent_ui_store
nobody id = refl

chunks_append : All (Appends no_date assistant "t") chunks
unfolding rewrites
chunks_append = (
  λ h. absurd (ground arith),
  (
    λ h. absurd (ground arith),
    (λ h. absurd (ground arith), (λ h. absurd (ground arith), (λ h. absurd (ground arith), tt))),
  ),
)

transcript_heard_example :
    heard 7 assistant (
      (subscribe_turn_stream "t" 7 (create_agent_ui_store "s")).1
      ++ (dispatch_all no_date chunks
          (subscribe_turn_stream "t" 7 (create_agent_ui_store "s")).0).1)
    ≡ accumulated_turn_stream
        (dispatch_all no_date chunks
          (subscribe_turn_stream "t" 7 (create_agent_ui_store "s")).0).0.state
        (some "t")
        assistant
unfolding non_empty
transcript_heard_example =
    transcript_heard no_date assistant "t" 7 (create_agent_ui_store "s") chunks refl nobody
      chunks_append
