-- ===== src/AgentUi/Sessions/Laws/Tests.antt =====
-- src/agent-ui/index.ts: two rows out of order, replayed twice.
use openma_common.Common.{ℕ, String, Option, none, some, List, [], ◌∷◌, ◌≡◌, ◌==◌, if◌then◌else◌}
use openma_common.AgentUi.{Event, Body}
use openma_common.AgentUi.Store.{create_agent_ui_store}
use openma_common.AgentUi.Sessions.{PersistedAgentUiEvent, replay_agent_ui_event_log}
use openma_common.AgentUi.Sessions.Laws.{log_again}

abbrev no_time : String → Option ℕ
no_time t = none

abbrev event_of_row : PersistedAgentUiEvent Body → List Event
event_of_row row =
    record {
      event_id = if row.seq == 1 then "e1" else "e2";
      session_id = "s";
      turn_id = some "t";
      work_item_id = none;
      occurred_at = "2026-01-01T00:00:00Z";
      seq = none;
      body = row.row;
    }
    ∷ []

abbrev rows_out_of_order : List (PersistedAgentUiEvent Body)
rows_out_of_order =
    record { seq = 2; row = Body.turn_queued } ∷ record { seq = 1; row = Body.session_running } ∷ []

log_again_example :
    replay_agent_ui_event_log no_time event_of_row rows_out_of_order
      (replay_agent_ui_event_log no_time event_of_row rows_out_of_order
        (create_agent_ui_store "s")).0
    ≡ (
      (replay_agent_ui_event_log no_time event_of_row rows_out_of_order
          (create_agent_ui_store "s")).0,
      [],
    )
log_again_example = log_again no_time event_of_row rows_out_of_order (create_agent_ui_store "s")
