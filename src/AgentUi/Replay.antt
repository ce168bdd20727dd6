-- ===== src/AgentUi/Replay.antt =====
-- src/agent-ui/index.ts: replay of events in the order of their sequence numbers.
use openma_common.Common.{ℕ, suc, String, Bool, Option, List, [], ◌∷◌, map}
use openma_common.Common.Sorting.{sort}
use openma_common.WorkItems.Registry.{seq_le}
use openma_common.AgentUi.{AgentUiState, Event, create_agent_ui_state}
use openma_common.AgentUi.Reducer.{reduce_all}

-- events.map((event, index) => ({ event, index }))
unfoldable pub indexed : {A : Type 0} → ℕ → List A → List (A × ℕ)
indexed index [] = []
indexed index (event ∷ events) = (event, index) ∷ indexed (suc index) events

-- The comparator, as the test that the left pair may stay in front.
event_le : Event × ℕ → Event × ℕ → Bool
unfolding seq_le
event_le l r = seq_le l.0.seq r.0.seq l.1 r.1

ordered_events : List Event → List Event
unfolding indexed event_le sort
ordered_events events = map (λ p. p.0) (sort event_le (indexed 0 events))

pub replay_agent_ui_events : (String → Option ℕ) → String → List Event → AgentUiState
unfolding create_agent_ui_state ordered_events reduce_all
replay_agent_ui_events parse_date session_id events =
    reduce_all parse_date (create_agent_ui_state session_id) (ordered_events events)
