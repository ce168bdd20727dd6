-- ===== src/AgentUi/Reducer/Invariant/Session.antt =====
-- src/agent-ui/index.ts: what holds over all the events of a session.
use openma_common.Common.{
  ℕ, String, true, Option, none, some, List, [], ◌∷◌, ◌++◌, ◌≡◌, refl, sym, ap, ◌∙◌, arith, inl,
  inr, ite, if◌then◌else◌, Bool-cases, String_discrete, All,
}
use openma_common.Common.Maps.{has, add, has-add, UniqueKeys}
use openma_common.AgentUi.{AgentUiState, Event, create_agent_ui_state}
use openma_common.AgentUi.Records.Orders.{records-SameTurns}
use openma_common.AgentUi.Records.Keys.{Ordered, records-Ordered}
use openma_common.AgentUi.Thoughts.{settle_thought_timing}
use openma_common.AgentUi.Reducer.{
  turn_id_of, require_turn, with_turn, turn_change, projections, mark_seen, settle_timing,
  settled_turn, changed_turn, apply_event, reduced, is_ignored, reduce_agent_ui_event, reduce_all,
}
use openma_common.AgentUi.Reducer.Invariant.{
  TurnsOrdered, SameRecords, SameRecords-trans, SameRecords-Ordered, require_turn-SameRecords,
  with_turn-SameRecords, session_change-SameRecords, with_turn-TurnsOrdered, with_turn_rest,
  require_turn-TurnsOrdered, require_turn_there, session_change-TurnsOrdered, none-ne-some,
}
use openma_common.Common.Keys.{keys}

-- The orders and the active turn of a state agree with its maps.
pub record Consistent (state : AgentUiState) : Type 0 where
  pub records : Ordered state
  pub turns : TurnsOrdered state

projections-TurnsOrdered :
    (state : AgentUiState) (event : Event)
    → TurnsOrdered state
    → TurnsOrdered (projections state event)
unfolding projections mark_seen
projections-TurnsOrdered state event o =
    let same = records-SameTurns state event in
    record {
      turns = ap keys same.turns ∙ o.turns ∙ sym same.turn_order;
      active = λ id e. ap (has id) same.turn_order ∙ o.active id (sym same.active_turn_id ∙ e);
    }

projections-Ordered :
    (state : AgentUiState) (event : Event) → Ordered state → Ordered (projections state event)
unfolding projections mark_seen
projections-Ordered state event o =
    let r = records-Ordered state event o in
    record {
      plans_unique = r.plans_unique;
      plans = r.plans;
      callbacks = r.callbacks;
      outcomes = r.outcomes;
      work_items = r.work_items;
    }

required_there :
    (turn : Option String) (state : AgentUiState)
    → TurnsOrdered state
    → (id : String) → turn ≡ some id
    → has id (require_turn turn state).turn_order ≡ true
required_there none state o id e = absurd (none-ne-some e)
required_there (some other) state o id e =
    ap (λ t. has t (require_turn (some other) state).turn_order) (some_same e)
    ∙ require_turn_there other state o
  where
    some_same : {other id : String} → some other ≡ some id → id ≡ other
    some_same e = cc

module _ (parse_date : String → Option ℕ) (event : Event) where
  reduced-SameRecords :
      (state : AgentUiState)
      → SameRecords (projections state event) (reduced parse_date state event)
  unfolding reduced apply_event settle_timing
  reduced-SameRecords state =
      let turn = turn_id_of event.turn_id in
      let projected = projections state event in
      let required = require_turn turn projected in
      let settled = settle_timing parse_date turn event required in
      let changed =
        with_turn (changed_turn turn event.body settled) (turn_change event.body event) settled in
      SameRecords-trans (require_turn-SameRecords turn projected) (
        SameRecords-trans
          (with_turn-SameRecords (settled_turn turn event.body required)
            (settle_thought_timing parse_date event.body event.occurred_at) required)
          (SameRecords-trans
            (with_turn-SameRecords (changed_turn turn event.body settled)
              (turn_change event.body event) settled)
            (session_change-SameRecords event.body turn event changed)))

  reduced-TurnsOrdered :
      (state : AgentUiState) → TurnsOrdered state → TurnsOrdered (reduced parse_date state event)
  unfolding reduced apply_event settle_timing
  reduced-TurnsOrdered state o =
      let turn = turn_id_of event.turn_id in
      let projected = projections state event in
      let required = require_turn turn projected in
      let settled = settle_timing parse_date turn event required in
      let ordered = projections-TurnsOrdered state event o in
      let settle_rest =
        with_turn_rest (settled_turn turn event.body required)
          (settle_thought_timing parse_date event.body event.occurred_at) required in
      let change_rest =
        with_turn_rest (changed_turn turn event.body settled) (turn_change event.body event)
          settled in
      session_change-TurnsOrdered event.body turn event _
        (λ id e.
          ap (has id) (change_rest.0 ∙ settle_rest.0) ∙ required_there turn projected ordered id e)
        (with_turn-TurnsOrdered (changed_turn turn event.body settled)
          (turn_change event.body event) settled
          (with_turn-TurnsOrdered (settled_turn turn event.body required)
            (settle_thought_timing parse_date event.body event.occurred_at) required
            (require_turn-TurnsOrdered turn projected ordered)))

  reduce-Consistent :
      (state : AgentUiState)
      → Consistent state
      → Consistent (reduce_agent_ui_event parse_date state event)
  unfolding reduce_agent_ui_event
  reduce-Consistent state c = elim (Bool-cases (is_ignored parse_date state event)) [
    | inl old ↦ rw (old, if◌then◌else◌) c
    | inr new ↦
        rw (new, if◌then◌else◌)
          (record {
            records =
                SameRecords-Ordered (reduced-SameRecords state)
                  (projections-Ordered state event c.records);
            turns = reduced-TurnsOrdered state c.turns;
          })
  ]

  projections_seen :
      (state : AgentUiState)
      → ((projections state event).seen_event_ids ≡ add event.event_id state.seen_event_ids)
        × ((projections state event).session_id ≡ state.session_id)
  unfolding projections mark_seen
  projections_seen state =
      let same = records-SameTurns state event in
      (ap (add event.event_id) same.seen_event_ids, same.session_id)

  -- A reduced event is seen, and what was seen stays so.
  reduced_seen :
      (state : AgentUiState)
      → ((reduced parse_date state event).seen_event_ids ≡ add event.event_id state.seen_event_ids)
        × ((reduced parse_date state event).session_id ≡ state.session_id)
  reduced_seen state =
      let same = reduced-SameRecords state in
      let (seen, session) = projections_seen state in
      (same.seen_event_ids ∙ seen, same.session_id ∙ session)

module _ (parse_date : String → Option ℕ) where
  ignored_of :
      (next : AgentUiState) (event : Event) (session_id : String) (seen : List String)
      → (next.seen_event_ids ≡ seen) × (next.session_id ≡ session_id)
      → is_ignored parse_date next event
        ≡ ite (String_discrete event.session_id session_id) (has event.event_id seen) true
  unfolding is_ignored
  ignored_of next event session_id seen (s, i) =
      λ t. ite (String_discrete event.session_id (i t)) (has event.event_id (s t)) true

  seen_now :
      (mine session_id id : String) (seen : List String)
      → ite (String_discrete mine session_id) (has id (add id seen)) true ≡ true
  seen_now mine session_id id seen = ground (arith, has-add id id seen)

  seen_before :
      (mine session_id id other : String) (seen : List String)
      → ite (String_discrete mine session_id) (has id seen) true ≡ true
      → ite (String_discrete mine session_id) (has id (add other seen)) true ≡ true
  seen_before mine session_id id other seen h = ground (arith, has-add other id seen, h)

  ignored_here :
      (state : AgentUiState) (event : Event)
      → is_ignored parse_date (reduce_agent_ui_event parse_date state event) event ≡ true
  unfolding reduce_agent_ui_event
  ignored_here state event = elim (Bool-cases (is_ignored parse_date state event)) [
    | inl old ↦ rw (old, if◌then◌else◌) old
    | inr new ↦
        rw (new, if◌then◌else◌)
          (ignored_of (reduced parse_date state event) event state.session_id
              (add event.event_id state.seen_event_ids) (reduced_seen parse_date event state)
            ∙ seen_now event.session_id state.session_id event.event_id state.seen_event_ids)
  ]

  ignored_later :
      (state : AgentUiState) (event other : Event)
      → is_ignored parse_date state event ≡ true
      → is_ignored parse_date (reduce_agent_ui_event parse_date state other) event ≡ true
  unfolding reduce_agent_ui_event
  ignored_later state event other h = elim (Bool-cases (is_ignored parse_date state other)) [
    | inl old ↦ rw (old, if◌then◌else◌) h
    | inr new ↦
        rw (new, if◌then◌else◌)
          (ignored_of (reduced parse_date state other) event state.session_id
              (add other.event_id state.seen_event_ids) (reduced_seen parse_date other state)
            ∙ seen_before event.session_id state.session_id event.event_id other.event_id
                state.seen_event_ids h)
  ]

  ignored_after :
      (events : List Event) (state : AgentUiState) (event : Event)
      → is_ignored parse_date state event ≡ true
      → is_ignored parse_date (reduce_all parse_date state events) event ≡ true
  unfolding reduce_all
  ignored_after [] state event h = h
  ignored_after (other ∷ events) state event h =
      ignored_after events (reduce_agent_ui_event parse_date state other) event
        (ignored_later state event other h)

  pub All-ignored :
      (events : List Event) (state : AgentUiState)
      → All
          (λ (event : Event).
            is_ignored parse_date (reduce_all parse_date state events) event ≡ true)
          events
  unfolding reduce_all
  All-ignored [] state = tt
  All-ignored (event ∷ events) state =
      let next = reduce_agent_ui_event parse_date state event in
      (ignored_after events next event (ignored_here state event), All-ignored events next)

  ignored-reduce_all :
      (events : List Event) (state : AgentUiState)
      → All (λ (event : Event). is_ignored parse_date state event ≡ true) events
      → reduce_all parse_date state events ≡ state
  unfolding reduce_all reduce_agent_ui_event
  ignored-reduce_all [] state h = refl
  ignored-reduce_all (event ∷ events) state h =
      rw (h.0, if◌then◌else◌) (ignored-reduce_all events state h.1)

  reduce_all-append :
      (xs ys : List Event) (state : AgentUiState)
      → reduce_all parse_date state (xs ++ ys)
        ≡ reduce_all parse_date (reduce_all parse_date state xs) ys
  unfolding reduce_all
  reduce_all-append [] ys state = refl
  reduce_all-append (x ∷ xs) ys state =
      reduce_all-append xs ys (reduce_agent_ui_event parse_date state x)

  -- Events that are reduced a second time, after all of them were reduced once, leave any state as
  -- the first time left it.
  events_again :
      (state : AgentUiState) (events : List Event)
      → reduce_all parse_date state (events ++ events) ≡ reduce_all parse_date state events
  events_again state events =
      reduce_all-append events events state
      ∙ ignored-reduce_all events (reduce_all parse_date state events) (All-ignored events state)

  reduce_all-Consistent :
      (events : List Event) (state : AgentUiState)
      → Consistent state
      → Consistent (reduce_all parse_date state events)
  unfolding reduce_all
  reduce_all-Consistent [] state c = c
  reduce_all-Consistent (event ∷ events) state c =
      reduce_all-Consistent events (reduce_agent_ui_event parse_date state event)
        (reduce-Consistent parse_date event state c)

  created-Consistent : (session_id : String) → Consistent (create_agent_ui_state session_id)
  unfolding create_agent_ui_state keys UniqueKeys has
  created-Consistent session_id = record {
    records = record {
      plans_unique = tt;
      plans = refl;
      callbacks = refl;
      outcomes = refl;
      work_items = λ id. refl;
    };
    turns = record { turns = refl; active = λ id e. absurd (none-ne-some e) };
  }

  -- After any list of events a new session's orders of turns, plans, callbacks and outcomes are the
  -- keys of their maps in the order of insertion, the plans have distinct ids, the order of work
  -- items has the ids of the work items and no others, and the active turn, if there is one, is a
  -- turn of the session.
  pub session-Consistent :
      (session_id : String) (events : List Event)
      → Consistent (reduce_all parse_date (create_agent_ui_state session_id) events)
  session-Consistent session_id events =
      reduce_all-Consistent events (create_agent_ui_state session_id)
        (created-Consistent session_id)
