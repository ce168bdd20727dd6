-- ===== src/AgentUi/Reducer/Invariant/Tests.antt =====
-- src/agent-ui/index.ts: a turn with a plan, a callback and a thought, and the same events again.
use openma_common.AgentUi.Records.{apply_work_item_projection}
use openma_common.AgentUi.Plans.{remove_plan, apply_plan_projection}
use openma_common.AgentUi.Requests.{apply_callback_projection, apply_outcome_projection}
use openma_common.Common.Maps.{add, set, get, has}
use openma_common.Common.{
  non_empty, String_discrete, ℕ, String, List, [], ◌∷◌, ◌≡◌, refl, false, Option, none, some,
  str_eq, if◌then◌else◌,
}
use openma_common.Common.Units.{codes}
use openma_common.AgentUi.{
  Event, Body, MessageEventData, PlanUpdatedData, PlanRepresentation, CallbackStatus,
  CallbackLifecycleData, text_id, reason_text, create_agent_ui_state,
}
use openma_common.AgentUi.Reducer.{session_change, reduce_all}
use openma_common.AgentUi.Reducer.Invariant.Session.{Consistent, session-Consistent}

-- Dates that are numbers of minutes.
abbrev minutes : String → Option ℕ
minutes t = if str_eq t "0:00" then some 0 else if str_eq t "0:01" then some 60000 else none

abbrev event_at : String → String → Body → Event
event_at id now body = record {
  event_id = id;
  session_id = "s";
  turn_id = some "t";
  work_item_id = none;
  occurred_at = now;
  seq = none;
  body = body;
}

abbrev thinking_data : MessageEventData
thinking_data = record { message_id = none; text = some (codes "Hm"); content = none; phase = none }

abbrev first_plan : PlanUpdatedData
first_plan = record {
  representation = some PlanRepresentation.items;
  plan_id = some "p";
  is_merge = false;
  entries = none;
}

abbrev permission : CallbackLifecycleData
permission = record {
  callback_id = text_id "c";
  category = none;
  method = some "session/request_permission";
  params = none;
  result = none;
  error = none;
}

abbrev turn_events : List Event
turn_events =
    event_at "e1" "0:00" Body.session_running
    ∷ event_at "e2" "0:00" (Body.agent_thinking thinking_data)
    ∷ event_at "e3" "0:00" (Body.plan_updated first_plan)
    ∷ event_at "e4" "0:00" (Body.callback CallbackStatus.pending permission)
    ∷ event_at "e5" "0:01" (Body.plan_removed (some "p"))
    ∷ event_at "e6" "0:01" (Body.session_idle (reason_text "end_turn"))
    ∷ []

turn_order_after :
    (reduce_all minutes (create_agent_ui_state "s") turn_events).turn_order ≡ "t" ∷ []
unfolding reduce_all String_discrete create_agent_ui_state has session_change non_empty get
    apply_outcome_projection apply_callback_projection apply_plan_projection
    apply_work_item_projection set add remove_plan
turn_order_after = refl

plans_after : (reduce_all minutes (create_agent_ui_state "s") turn_events).plan_order ≡ []
unfolding reduce_all String_discrete create_agent_ui_state has session_change non_empty get
    apply_outcome_projection apply_callback_projection apply_plan_projection
    apply_work_item_projection set add remove_plan
plans_after = refl

callbacks_after :
    (reduce_all minutes (create_agent_ui_state "s") turn_events).callback_order ≡ "c" ∷ []
unfolding reduce_all String_discrete create_agent_ui_state has session_change non_empty get
    apply_outcome_projection apply_callback_projection apply_plan_projection
    apply_work_item_projection set add remove_plan
callbacks_after = refl

session-Consistent_example : Consistent (reduce_all minutes (create_agent_ui_state "s") turn_events)
session-Consistent_example = session-Consistent minutes "s" turn_events
