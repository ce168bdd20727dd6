-- ===== src/AgentUi/Sessions/Laws.antt =====
-- src/agent-ui/index.ts: a log that is replayed again.
mod Tests
use openma_common.Common.{
  ℕ, String, Bool, true, false, Option, none, some, List, [], ◌∷◌, ◌++◌, ◌≡◌, refl, sym, ap, ◌∙◌,
  arith, if◌then◌else◌, All, subst,
}
use openma_common.AgentUi.{AgentUiState, Event}
use openma_common.AgentUi.Reducer.{is_ignored, reduce_agent_ui_event, reduce_all}
use openma_common.AgentUi.Reducer.Invariant.Session.{All-ignored}
use openma_common.AgentUi.Store.{AgentUiStore, StoreCall, dispatch, dispatch_all}
use openma_common.AgentUi.Store.Delivery.Transcript.{dispatch_state}
use openma_common.AgentUi.Sessions.{
  PersistedAgentUiEvent, replay_agent_ui_event_log, decoded, ordered_rows,
}

module _ (parse_date : String → Option ℕ) where
  state-dispatch_all :
      (events : List Event) (store : AgentUiStore)
      → (dispatch_all parse_date events store).0.state ≡ reduce_all parse_date store.state events
  unfolding dispatch_all reduce_all
  state-dispatch_all [] store = refl
  state-dispatch_all (event ∷ events) store =
      state-dispatch_all events (dispatch parse_date store event).0
      ∙ ap (λ s. reduce_all parse_date s events) (dispatch_state parse_date store event)

  -- Events that the state ignores change nothing and call nobody.
  ignored-dispatch_all :
      (events : List Event) (store : AgentUiStore)
      → All (λ (event : Event). is_ignored parse_date store.state event ≡ true) events
      → dispatch_all parse_date events store ≡ (store, [])
  unfolding dispatch_all dispatch
  ignored-dispatch_all [] store h = refl
  ignored-dispatch_all (event ∷ events) store h =
      rw (h.0, if◌then◌else◌) (ap (λ p. p) (ignored-dispatch_all events store h.1))

  ignored_now :
      (events : List Event) (store : AgentUiStore)
      → All
          (λ (event : Event).
            is_ignored parse_date (dispatch_all parse_date events store).0.state event ≡ true)
          events
  ignored_now events store =
      subst (λ s. All (λ (event : Event). is_ignored parse_date s event ≡ true) events)
        (sym (state-dispatch_all events store)) (All-ignored parse_date events store.state)

-- A log of persisted rows that is replayed into a store a second time leaves the store as the first
-- replay left it, and calls no listener and no subscriber, whatever the decoder gives for the rows.
pub log_again :
    {A : Type 0} (parse_date : String → Option ℕ) (decode : PersistedAgentUiEvent A → List Event)
    (rows : List (PersistedAgentUiEvent A)) (store : AgentUiStore)
    → replay_agent_ui_event_log parse_date decode rows
        (replay_agent_ui_event_log parse_date decode rows store).0
      ≡ ((replay_agent_ui_event_log parse_date decode rows store).0, [])
unfolding replay_agent_ui_event_log
log_again parse_date decode rows store =
    ignored-dispatch_all parse_date (decoded decode (ordered_rows rows)) _
      (ignored_now parse_date (decoded decode (ordered_rows rows)) store)
