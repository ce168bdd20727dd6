-- ===== src/AgentUi/Store/Delivery.antt =====
-- src/agent-ui/index.ts: what the subscribers of a turn's stream hear of its text.
pub mod Added
pub mod Heard
pub mod Transcript
mod Tests
use mathlib.Core.List.{append-nil, append_assoc}
use openma_common.Common.{
  ℕ, String, Bool, true, false, Option, none, some, List, [], ◌∷◌, ◌++◌, ◌≡◌, ◌≢◌, ◌⊎◌, refl, sym,
  ap, ◌∙◌, arith, inl, inr, ite, if◌then◌else◌, Bool-cases, Option-cases, String_discrete,
  Turn_discrete, length, if_pos, if_neg,
}
use openma_common.Common.Maps.{get, set, get-set}
use openma_common.Common.Units.{Units, drop, starts_with, starts_with-append, drop-append}
use openma_common.AgentUi.{AgentUiState, AgentUiTurnState, Body, Event}
use openma_common.AgentUi.Records.{apply_work_item_projection}
use openma_common.AgentUi.Plans.{apply_plan_projection}
use openma_common.AgentUi.Requests.{apply_callback_projection, apply_outcome_projection}
use openma_common.AgentUi.Records.Orders.{records-SameTurns}
use openma_common.AgentUi.Messages.Merging.{Begins}
use openma_common.AgentUi.Thoughts.{settle_thought_timing}
use openma_common.AgentUi.Reducer.{
  turn_id_of, require_turn, with_turn, turn_change, session_change, projections, settle_timing,
  settled_turn, changed_turn, apply_event, reduced, is_ignored, reduce_agent_ui_event, mark_seen,
}
use openma_common.AgentUi.Store.{
  StreamKind, assistant, thought, streamed_texts, text_of_turn, accumulated_turn_stream,
  stream_projection, stream_delta, added_text,
}
use openma_common.AgentUi.Store.Streams.{settle_items_texts}
use openma_common.AgentUi.Store.Streams.Turns.{turn_change_kept, turn_change_grown, rewrites, is_of}

-- The text of a stream in a turn.
unfoldable pub text_in : StreamKind → String → AgentUiState → Units
text_in s id state = text_of_turn s (get id state.turns)

projections_turns :
    (state : AgentUiState) (event : Event) → (projections state event).turns ≡ state.turns
unfolding projections mark_seen
projections_turns state event = (records-SameTurns state event).turns

session_change_turns :
    (body : Body) (turn : Option String) (event : Event) (state : AgentUiState)
    → (session_change body turn event state).turns ≡ state.turns
unfolding session_change
session_change_turns Body.session_running turn event state = ground arith
session_change_turns (Body.capability_updated capability value) turn event state = ground arith
session_change_turns (Body.usage_updated usage budget) turn event state = ground arith
session_change_turns Body.turn_completed turn event state = ground arith
session_change_turns (Body.turn_failed data_) turn event state = ground arith
session_change_turns (Body.turn_cancelled data_) turn event state = ground arith
session_change_turns _ turn event state = refl

require_turn_kept :
    (s : StreamKind) (id : String) (turn : Option String) (state : AgentUiState)
    → text_in s id (require_turn turn state) ≡ text_in s id state
unfolding text_in require_turn text_of_turn streamed_texts
require_turn_kept s id none state = refl
require_turn_kept s id (some other) state = elim (Option-cases (get other state.turns)) [
  | inl e ↦ rw (e, require_turn) (rw (get-set other id _ state.turns) (ground (arith, e)))
  | inr (turn, e) ↦ rw (e, require_turn) refl
]

module _ (s : StreamKind) (id : String) (change : AgentUiTurnState → AgentUiTurnState) where
  with_turn_kept :
      ((turn : AgentUiTurnState)
        → streamed_texts s (change turn).items ≡ streamed_texts s turn.items)
      → (turn : Option String) (state : AgentUiState)
      → text_in s id (with_turn turn change state) ≡ text_in s id state
  unfolding text_in with_turn text_of_turn
  with_turn_kept kept none state = refl
  with_turn_kept kept (some other) state = elim (Option-cases (get other state.turns)) [
    | inl e ↦ rw (e, with_turn) refl
    | inr (turn, e) ↦
        rw (e, with_turn)
          (rw (get-set other id (change turn) state.turns) (ground (arith, e, kept turn)))
  ]

  with_turn_other :
      (other : String) (state : AgentUiState)
      → other ≢ id
      → text_in s id (with_turn (some other) change state) ≡ text_in s id state
  unfolding text_in with_turn
  with_turn_other other state n = elim (Option-cases (get other state.turns)) [
    | inl e ↦ rw (e, with_turn) refl
    | inr (turn, e) ↦
        rw (e, with_turn)
          (rw (get-set other id (change turn) state.turns, if_neg (String_discrete other id) n)
            refl)
  ]

  with_turn_grown :
      ((turn : AgentUiTurnState)
        → Begins (streamed_texts s (change turn).items) (streamed_texts s turn.items))
      → (state : AgentUiState)
      → Begins (text_in s id (with_turn (some id) change state)) (text_in s id state)
  unfolding text_in with_turn text_of_turn
  with_turn_grown grown state = elim (Option-cases (get id state.turns)) [
    | inl e ↦ rw (e, with_turn) (rw e ([], refl))
    | inr (turn, e) ↦
        rw (e, with_turn)
          (rw (get-set id id (change turn) state.turns, if_pos (String_discrete id id) refl)
            (grown turn))
  ]

-- A text and what was added to it.
added_text-append : (before rest : Units) → added_text before (before ++ rest) ≡ rest
unfolding added_text
added_text-append before rest =
    rw (starts_with-append before rest, if◌then◌else◌) (drop-append before rest)

added_text-Begins :
    (after before : Units) → Begins after before → after ≡ before ++ added_text before after
added_text-Begins after before b =
    b.1 ∙ ap (λ t. before ++ t) (sym (ap (added_text before) b.1 ∙ added_text-append before b.0))

-- A session's end changes the active turn, but no event that has a text of the stream does.
changed_turn_own :
    (s : StreamKind) (body : Body) (turn : Option String) (state : AgentUiState)
    → (rewrites s body ≡ true) ⊎ (is_of s (stream_projection body) ≡ true)
    → changed_turn turn body state ≡ turn
unfolding changed_turn rewrites is_of stream_projection
changed_turn_own s (Body.session_idle stop) turn state h = ground arith
changed_turn_own s (Body.session_error data_) turn state h = ground arith
changed_turn_own s _ turn state h = refl

module _ (parse_date : String → Option ℕ) (s : StreamKind) (id : String) (event : Event) where
  prepared : AgentUiState → AgentUiState
  prepared state =
      let turn = turn_id_of event.turn_id in
      settle_timing parse_date turn event (require_turn turn (projections state event))

  prepared_kept : (state : AgentUiState) → text_in s id (prepared state) ≡ text_in s id state
  unfolding prepared settle_timing settle_thought_timing text_in text_of_turn
  prepared_kept state =
      let turn = turn_id_of event.turn_id in
      let required = require_turn turn (projections state event) in
      with_turn_kept s id (settle_thought_timing parse_date event.body event.occurred_at)
        (λ (t : AgentUiTurnState).
          settle_items_texts parse_date s event.body event.occurred_at t.items)
        (settled_turn turn event.body required) required
      ∙ require_turn_kept s id turn (projections state event)
      ∙ ap (λ turns. text_of_turn s (get id turns)) (projections_turns state event)

  -- The text after the event is the one after the change of its turn.
  reduced_text :
      (state : AgentUiState)
      → text_in s id (reduced parse_date state event)
        ≡ text_in s id (
            with_turn
              (changed_turn (turn_id_of event.turn_id) event.body (prepared state))
              (turn_change event.body event)
              (prepared state))
  unfolding reduced apply_event prepared text_in
  reduced_text state =
      ap (λ turns. text_of_turn s (get id turns))
        (session_change_turns event.body (turn_id_of event.turn_id) event _)

  reduced_kept :
      (state : AgentUiState)
      → rewrites s event.body ≡ false
      → is_of s (stream_projection event.body) ≡ false
      → text_in s id (reduced parse_date state event) ≡ text_in s id state
  reduced_kept state r n =
      reduced_text state
      ∙ with_turn_kept s id (turn_change event.body event)
          (λ (t : AgentUiTurnState). turn_change_kept s event.body event t r n)
          (changed_turn (turn_id_of event.turn_id) event.body (prepared state)) (prepared state)
      ∙ prepared_kept state

  with_turn_elsewhere :
      (turn : Option String) (state : AgentUiState)
      → turn ≢ some id
      → text_in s id (with_turn turn (turn_change event.body event) state) ≡ text_in s id state
  unfolding with_turn
  with_turn_elsewhere none state n = refl
  with_turn_elsewhere (some other) state n =
      with_turn_other s id (turn_change event.body event) other state (λ e. n (ap some e))

  reduced_elsewhere :
      (state : AgentUiState)
      → (rewrites s event.body ≡ true) ⊎ (is_of s (stream_projection event.body) ≡ true)
      → turn_id_of event.turn_id ≢ some id
      → text_in s id (reduced parse_date state event) ≡ text_in s id state
  reduced_elsewhere state h n =
      reduced_text state
      ∙ rw (changed_turn_own s event.body (turn_id_of event.turn_id) (prepared state) h)
          (with_turn_elsewhere (turn_id_of event.turn_id) (prepared state) n)
      ∙ prepared_kept state

  reduced_grown :
      (state : AgentUiState)
      → is_of s (stream_projection event.body) ≡ true
      → turn_id_of event.turn_id ≡ some id
      → Begins (text_in s id (reduced parse_date state event)) (text_in s id state)
  reduced_grown state h e =
      let grown =
        with_turn_grown s id (turn_change event.body event)
          (λ (t : AgentUiTurnState). turn_change_grown s event.body event t h) (prepared state) in
      (
        grown.0,
        reduced_text state
            ∙ rw
                (
                  changed_turn_own s event.body (turn_id_of event.turn_id) (prepared state) (inr h),
                  e,
                )
                (grown.1 ∙ ap (λ t. t ++ grown.0) (prepared_kept state)),
      )
