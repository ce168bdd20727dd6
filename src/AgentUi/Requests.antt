-- ===== src/AgentUi/Requests.antt =====
-- src/agent-ui/index.ts: what an event does to the callbacks and the outcomes.
use openma_common.Common.{String, Option, none, some, if◌then◌else◌, non_empty}
use openma_common.Common.Maps.{get, set}
use openma_common.Common.Json.{Json}
use openma_common.AgentUi.{
  over, AgentUiState, AgentUiCallbackState, CallbackStatus, notification, CallbackId, text_id,
  number_id, null_id, no_id, CallbackLifecycleData, AgentUiOutcomeState, OutcomeData,
  OutcomeEventType, outcome_defined, evaluation_completed, Event, Body, callback, outcome,
}
use openma_common.AgentUi.Records.{ordered}

notification_id : CallbackStatus → String → Option String
notification_id notification event_id = some event_id
notification_id _ event_id = none

callback_id_of : CallbackId → CallbackStatus → String → Option String
unfolding notification_id
callback_id_of (text_id t) status event_id =
    if non_empty t then some t else notification_id status event_id
callback_id_of (number_id t) status event_id = some t
callback_id_of null_id status event_id = some "null"
callback_id_of no_id status event_id = notification_id status event_id

previous_params : Option AgentUiCallbackState → Option Json
previous_params none = none
previous_params (some previous) = previous.params

unfoldable pub put_callback :
    AgentUiState → String → String → CallbackStatus → CallbackLifecycleData → AgentUiState
unfolding over previous_params
put_callback state id method status data_ = record state {
  callbacks =
      set id
        (record {
          id = id;
          category = data_.category;
          method = method;
          status = status;
          params = over data_.params (previous_params (get id state.callbacks));
          result = data_.result;
          error = data_.error;
        })
        state.callbacks;
  callback_order = ordered id state.callback_order;
}

-- A callback with an id and a method, both non-empty.
unfoldable pub with_callback :
    AgentUiState
    → Option String
    → Option String
    → CallbackStatus
    → CallbackLifecycleData
    → AgentUiState
unfolding put_callback
with_callback state (some id) (some method) status data_ =
    if non_empty id
    then (if non_empty method then put_callback state id method status data_ else state)
    else state
with_callback state _ _ status data_ = state

unfoldable pub callback_projection : Body → Event → AgentUiState → AgentUiState
unfolding with_callback callback_id_of
callback_projection (callback status data_) event state =
    with_callback state (callback_id_of data_.callback_id status event.event_id) data_.method status
      data_
callback_projection _ event state = state

unfoldable pub apply_callback_projection : AgentUiState → Event → AgentUiState
unfolding callback_projection
apply_callback_projection state event = callback_projection event.body event state

or_event_id : Option String → String → String
or_event_id none event_id = event_id
or_event_id (some t) event_id = if non_empty t then t else event_id

or_completed : Option String → String
or_completed none = "completed"
or_completed (some result) = result

outcome_status : OutcomeEventType → Option String → String
unfolding or_completed
outcome_status outcome_defined result = "defined"
outcome_status evaluation_completed result = or_completed result
outcome_status _ result = "evaluating"

-- A property of the previous outcome, if there is one.
of_previous :
    {A : Type 0} → (AgentUiOutcomeState → Option A) → Option AgentUiOutcomeState → Option A
of_previous property none = none
of_previous property (some previous) = property previous

unfoldable pub put_outcome :
    AgentUiState → String → OutcomeEventType → OutcomeData → String → AgentUiState
unfolding over outcome_status of_previous
put_outcome state id type data_ occurred_at =
    let previous = get id state.outcomes in
    record state {
      outcomes =
          set id
            (record {
              id = id;
              status = outcome_status type data_.result;
              description = over data_.description (of_previous (λ p. p.description) previous);
              rubric = over data_.rubric (of_previous (λ p. p.rubric) previous);
              max_iterations =
                  over data_.max_iterations (of_previous (λ p. p.max_iterations) previous);
              iteration = data_.iteration;
              explanation = data_.explanation;
              usage = data_.usage;
              updated_at = occurred_at;
            })
            state.outcomes;
      outcome_order = ordered id state.outcome_order;
    }

unfoldable pub outcome_projection : Body → Event → AgentUiState → AgentUiState
unfolding put_outcome or_event_id
outcome_projection (outcome type data_) event state =
    put_outcome state (or_event_id data_.outcome_id event.event_id) type data_ event.occurred_at
outcome_projection _ event state = state

unfoldable pub apply_outcome_projection : AgentUiState → Event → AgentUiState
unfolding outcome_projection
apply_outcome_projection state event = outcome_projection event.body event state
