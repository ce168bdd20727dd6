-- ===== src/AgentUi/Records/Orders.antt =====
-- src/agent-ui/index.ts: what the projections of records leave as it is.
use openma_common.Common.{◌≡◌, arith}
use openma_common.AgentUi.{
  AgentUiState, Event, Body, plan_updated, plan_completed, plan_removed, callback, outcome,
}
use openma_common.AgentUi.Records.{apply_work_item_projection}
use openma_common.AgentUi.Plans.{
  plan_projection, apply_plan_projection, with_plan, update_plan, complete_plan, remove_plan,
}
use openma_common.AgentUi.Requests.{
  callback_projection, apply_callback_projection, outcome_projection, apply_outcome_projection,
  with_callback, put_callback, put_outcome,
}

-- The part of a state that the projections of records leave as it is.
pub record SameTurns (state next : AgentUiState) : Type 0 where
  pub turns : next.turns ≡ state.turns
  pub turn_order : next.turn_order ≡ state.turn_order
  pub active_turn_id : next.active_turn_id ≡ state.active_turn_id
  pub session_id : next.session_id ≡ state.session_id
  pub seen_event_ids : next.seen_event_ids ≡ state.seen_event_ids

plan_projection-SameTurns :
    (body : Body) (event : Event) (state : AgentUiState)
    → SameTurns state (plan_projection body event state)
unfolding plan_projection with_plan update_plan complete_plan remove_plan
plan_projection-SameTurns (plan_updated data_) event state = ground arith
plan_projection-SameTurns (plan_completed id) event state = ground arith
plan_projection-SameTurns (plan_removed id) event state = ground arith
plan_projection-SameTurns _ event state = ground arith

callback_projection-SameTurns :
    (body : Body) (event : Event) (state : AgentUiState)
    → SameTurns state (callback_projection body event state)
unfolding callback_projection with_callback put_callback
callback_projection-SameTurns (callback status data_) event state = ground arith
callback_projection-SameTurns _ event state = ground arith

outcome_projection-SameTurns :
    (body : Body) (event : Event) (state : AgentUiState)
    → SameTurns state (outcome_projection body event state)
unfolding outcome_projection put_outcome
outcome_projection-SameTurns (outcome type data_) event state = ground arith
outcome_projection-SameTurns _ event state = ground arith

pub records-SameTurns :
    (state : AgentUiState) (event : Event)
    → SameTurns state (
        apply_outcome_projection
          (apply_callback_projection
            (apply_plan_projection (apply_work_item_projection state event) event)
            event)
          event)
unfolding apply_work_item_projection apply_plan_projection apply_callback_projection
    apply_outcome_projection
records-SameTurns state event =
    let after_items = apply_work_item_projection state event in
    let after_plans = plan_projection event.body event after_items in
    let after_callbacks = callback_projection event.body event after_plans in
    ground (
      arith,
      plan_projection-SameTurns event.body event after_items,
      callback_projection-SameTurns event.body event after_plans,
      outcome_projection-SameTurns event.body event after_callbacks,
    )
