-- ===== src/AgentUi/Store/Delivery/Added.antt =====
-- src/agent-ui/index.ts: what one event adds to the text that streams in a turn.
use mathlib.Core.List.{append-nil}
use openma_common.Common.{
  ℕ, String, true, false, Option, some, [], ◌++◌, ◌≡◌, ◌≢◌, refl, sym, ◌∙◌, inl, inr, ite,
  if◌then◌else◌, Bool-cases, Turn_discrete, if_pos, if_neg,
}
use openma_common.Common.Units.{Units}
use openma_common.AgentUi.{AgentUiState, Event}
use openma_common.AgentUi.Messages.Merging.{Begins}
use openma_common.AgentUi.Reducer.{turn_id_of, reduced, is_ignored, reduce_agent_ui_event}
use openma_common.AgentUi.Store.{
  StreamKind, accumulated_turn_stream, stream_projection, stream_delta, added_text,
}
use openma_common.AgentUi.Store.Streams.Turns.{rewrites, is_of}
use openma_common.AgentUi.Store.Delivery.{
  text_in, added_text-Begins, reduced_kept, reduced_elsewhere, reduced_grown,
}

pub accumulated_text :
    (s : StreamKind) (id : String) (state : AgentUiState) (turn_id : Option String)
    → turn_id_of turn_id ≡ some id
    → accumulated_turn_stream state turn_id s ≡ text_in s id state
unfolding accumulated_turn_stream text_in
accumulated_text s id state turn_id e = rw (accumulated_turn_stream, e) refl

module _ (parse_date : String → Option ℕ) (s : StreamKind) (id : String) where
  -- The text that an event adds to the stream of the turn.
  unfoldable pub added_by : AgentUiState → Event → Units
  added_by state event =
      if is_of s (stream_projection event.body)
      then ite (Turn_discrete (turn_id_of event.turn_id) (some id))
          (stream_delta parse_date state event s) []
      else []

  -- An event that is, for the assistant's stream, no whole agent.message of the turn and, for the
  -- thoughts, no agent.thinking of the turn without a text: neither kind calls a subscriber.
  abbrev pub Appends : Event → Type 0
  Appends event = rewrites s event.body ≡ true → turn_id_of event.turn_id ≢ some id

  delta_text :
      (state : AgentUiState) (event : Event)
      → turn_id_of event.turn_id ≡ some id
      → stream_delta parse_date state event s
        ≡ added_text
            (text_in s id state)
            (text_in s id (reduce_agent_ui_event parse_date state event))
  unfolding stream_delta
  delta_text state event e =
      rw
        (
          accumulated_text s id state event.turn_id e,
          accumulated_text s id (reduce_agent_ui_event parse_date state event) event.turn_id e,
        )
        refl

  grown :
      (state : AgentUiState) (event : Event)
      → is_of s (stream_projection event.body) ≡ true
      → turn_id_of event.turn_id ≡ some id
      → Begins (text_in s id (reduce_agent_ui_event parse_date state event)) (text_in s id state)
  unfolding reduce_agent_ui_event
  grown state event h e = elim (Bool-cases (is_ignored parse_date state event)) [
    | inl old ↦ rw (old, if◌then◌else◌) ([], sym (append-nil (text_in s id state)))
    | inr new ↦ rw (new, if◌then◌else◌) (reduced_grown parse_date s id event state h e)
  ]

  kept :
      (state : AgentUiState) (event : Event)
      → text_in s id (reduced parse_date state event) ≡ text_in s id state
      → text_in s id (reduce_agent_ui_event parse_date state event) ≡ text_in s id state
  unfolding reduce_agent_ui_event
  kept state event h = elim (Bool-cases (is_ignored parse_date state event)) [
    | inl old ↦ rw (old, if◌then◌else◌) refl
    | inr new ↦ rw (new, if◌then◌else◌) h
  ]

  -- One event: the text grows by what the event adds.
  pub text_after :
      (state : AgentUiState) (event : Event)
      → Appends event
      → text_in s id (reduce_agent_ui_event parse_date state event)
        ≡ text_in s id state ++ added_by state event
  unfolding added_by
  text_after state event appends = elim (Bool-cases (is_of s (stream_projection event.body))) [
    | inl h ↦ elim (Turn_discrete (turn_id_of event.turn_id) (some id)) [
      | yes e ↦
          rw
            (
              h,
              if◌then◌else◌,
              if_pos (Turn_discrete (turn_id_of event.turn_id) (some id)) e,
              delta_text state event e,
            )
            (added_text-Begins (text_in s id (reduce_agent_ui_event parse_date state event))
              (text_in s id state) (grown state event h e))
      | no n ↦
          rw (h, if◌then◌else◌, if_neg (Turn_discrete (turn_id_of event.turn_id) (some id)) n)
            (kept state event (reduced_elsewhere parse_date s id event state (inr h) n)
              ∙ sym (append-nil (text_in s id state)))
    ]
    | inr n ↦
        rw (n, if◌then◌else◌)
          (kept state event (unstreamed state event appends n)
            ∙ sym (append-nil (text_in s id state)))
  ]
    where
      unstreamed :
          (state : AgentUiState) (event : Event)
          → Appends event
          → is_of s (stream_projection event.body) ≡ false
          → text_in s id (reduced parse_date state event) ≡ text_in s id state
      unstreamed state event appends n = elim (Bool-cases (rewrites s event.body)) [
        | inl r ↦ reduced_elsewhere parse_date s id event state (inl r) (appends r)
        | inr r ↦ reduced_kept parse_date s id event state r n
      ]
