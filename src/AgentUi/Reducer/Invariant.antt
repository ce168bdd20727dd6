-- ===== src/AgentUi/Reducer/Invariant.antt =====
-- src/agent-ui/index.ts: the state that any list of events leaves behind.
pub mod Session
mod Tests
use openma_common.Common.{
  ℕ, String, Bool, true, false, Option, none, some, List, [], ◌∷◌, ◌++◌, ◌≡◌, ◌⊎◌, subst, if_pos,
  if_neg, String_discrete, Turn_discrete, refl, sym, ap, ◌∙◌, arith, inl, inr, if◌then◌else◌,
  Bool-cases, Option-cases, non_empty,
}
use openma_common.Common.Maps.{get, set, has, add, has-add, UniqueKeys}
use openma_common.Common.Keys.{keys, keys-set, add-keys, add-keys_new, has-keys}
use openma_common.AgentUi.{AgentUiState, AgentUiTurnState, Body, Event, create_agent_ui_state}
use openma_common.AgentUi.Records.Orders.{records-SameTurns}
use openma_common.AgentUi.Records.Keys.{Ordered, records-Ordered}
use openma_common.AgentUi.Reducer.{
  turn_id_of, require_turn, with_turn, session_change, projections, mark_seen, settle_timing,
  apply_event, reduced, is_ignored, reduce_agent_ui_event, reduce_all, new_turn, clear_active,
}

-- The turns are in the order in which they came, and the active turn is one of them.
pub record TurnsOrdered (state : AgentUiState) : Type 0 where
  pub turns : keys state.turns ≡ state.turn_order
  pub active : (id : String) → state.active_turn_id ≡ some id → has id state.turn_order ≡ true

-- What a change of the session outside its records leaves as it is.
record SameRecords (state next : AgentUiState) : Type 0 where
  plans : next.plans ≡ state.plans
  plan_order : next.plan_order ≡ state.plan_order
  callbacks : next.callbacks ≡ state.callbacks
  callback_order : next.callback_order ≡ state.callback_order
  outcomes : next.outcomes ≡ state.outcomes
  outcome_order : next.outcome_order ≡ state.outcome_order
  work_items : next.work_items ≡ state.work_items
  work_item_order : next.work_item_order ≡ state.work_item_order
  session_id : next.session_id ≡ state.session_id
  seen_event_ids : next.seen_event_ids ≡ state.seen_event_ids

SameRecords-Ordered :
    {state next : AgentUiState} → SameRecords state next → Ordered state → Ordered next
SameRecords-Ordered same o = record {
  plans_unique = subst UniqueKeys (sym same.plans) (o.plans_unique);
  plans = ap keys same.plans ∙ o.plans ∙ sym same.plan_order;
  callbacks = ap keys same.callbacks ∙ o.callbacks ∙ sym same.callback_order;
  outcomes = ap keys same.outcomes ∙ o.outcomes ∙ sym same.outcome_order;
  work_items = λ id.
      ap (has id) same.work_item_order
      ∙ o.work_items id
      ∙ ap (λ m. has id (keys m)) (sym same.work_items);
}

SameRecords-trans :
    {state next last : AgentUiState}
    → SameRecords state next
    → SameRecords next last
    → SameRecords state last
SameRecords-trans p q = ground arith

require_turn-SameRecords :
    (turn : Option String) (state : AgentUiState) → SameRecords state (require_turn turn state)
unfolding require_turn
require_turn-SameRecords none state = ground arith
require_turn-SameRecords (some id) state = ground arith

with_turn-SameRecords :
    (turn : Option String) (change : AgentUiTurnState → AgentUiTurnState) (state : AgentUiState)
    → SameRecords state (with_turn turn change state)
unfolding with_turn
with_turn-SameRecords none change state = ground arith
with_turn-SameRecords (some id) change state = ground arith

session_change-SameRecords :
    (body : Body) (turn : Option String) (event : Event) (state : AgentUiState)
    → SameRecords state (session_change body turn event state)
unfolding session_change
session_change-SameRecords Body.session_running none event state = ground arith
session_change-SameRecords Body.session_running (some id) event state = ground arith
session_change-SameRecords (Body.capability_updated none value) turn event state = ground arith
session_change-SameRecords (Body.capability_updated (some t) value) turn event state = ground arith
session_change-SameRecords (Body.usage_updated none budget) turn event state = ground arith
session_change-SameRecords (Body.usage_updated (some u) budget) turn event state = ground arith
session_change-SameRecords Body.turn_completed turn event state = ground arith
session_change-SameRecords (Body.turn_failed data_) turn event state = ground arith
session_change-SameRecords (Body.turn_cancelled data_) turn event state = ground arith
session_change-SameRecords _ turn event state = ground arith

keys-with_turn :
    (turn : Option String) (change : AgentUiTurnState → AgentUiTurnState) (state : AgentUiState)
    → keys (with_turn turn change state).turns ≡ keys state.turns
unfolding with_turn
keys-with_turn none change state = refl
keys-with_turn (some id) change state = elim (Option-cases (get id state.turns)) [
  | inl e ↦ rw (e, with_turn) refl
  | inr (turn, e) ↦
      rw (e, with_turn) (keys-set id (change turn) state.turns ∙ add-keys id turn state.turns e)
]

with_turn_rest :
    (turn : Option String) (change : AgentUiTurnState → AgentUiTurnState) (state : AgentUiState)
    → ((with_turn turn change state).turn_order ≡ state.turn_order)
      × ((with_turn turn change state).active_turn_id ≡ state.active_turn_id)
unfolding with_turn
with_turn_rest none change state = (refl, refl)
with_turn_rest (some id) change state = ground arith

-- The same turns and active turn, or the active turn cleared or set to one that is there.
TurnsOrdered-of :
    (state next : AgentUiState)
    → keys next.turns ≡ keys state.turns
    → next.turn_order ≡ state.turn_order
    → ((id : String) → next.active_turn_id ≡ some id → has id state.turn_order ≡ true)
    → TurnsOrdered state
    → TurnsOrdered next
TurnsOrdered-of state next k order active o = record {
  turns = k ∙ o.turns ∙ sym order;
  active = λ id e. ap (has id) order ∙ active id e;
}

with_turn-TurnsOrdered :
    (turn : Option String) (change : AgentUiTurnState → AgentUiTurnState) (state : AgentUiState)
    → TurnsOrdered state
    → TurnsOrdered (with_turn turn change state)
with_turn-TurnsOrdered turn change state o =
    let (order, active) = with_turn_rest turn change state in
    TurnsOrdered-of state (with_turn turn change state) (keys-with_turn turn change state) order
      (λ id e. o.active id (sym active ∙ e)) o

require_turn_order :
    (id : String) (state : AgentUiState)
    → TurnsOrdered state
    → (require_turn (some id) state).turn_order ≡ add id state.turn_order
unfolding require_turn
require_turn_order id state o = elim (Option-cases (get id state.turns)) [
  | inl e ↦
      rw (e, require_turn)
        (ap (λ t. t ++ id ∷ []) (sym o.turns)
          ∙ sym (add-keys_new id state.turns e)
          ∙ ap (add id) o.turns)
  | inr (turn, e) ↦
      rw (e, require_turn)
        (sym o.turns ∙ sym (add-keys id turn state.turns e) ∙ ap (add id) o.turns)
]

keys-require_turn :
    (id : String) (state : AgentUiState)
    → keys (require_turn (some id) state).turns ≡ add id (keys state.turns)
unfolding require_turn
keys-require_turn id state = elim (Option-cases (get id state.turns)) [
  | inl e ↦ rw (e, require_turn) (keys-set id _ state.turns)
  | inr (turn, e) ↦ rw (e, require_turn) (sym (add-keys id turn state.turns e))
]

require_turn_active :
    (id : String) (state : AgentUiState)
    → (require_turn (some id) state).active_turn_id ≡ state.active_turn_id
unfolding require_turn
require_turn_active id state = ground arith

require_turn-TurnsOrdered :
    (turn : Option String) (state : AgentUiState)
    → TurnsOrdered state
    → TurnsOrdered (require_turn turn state)
require_turn-TurnsOrdered none state o = unfold require_turn in o
require_turn-TurnsOrdered (some id) state o = record {
  turns = keys-require_turn id state ∙ ap (add id) o.turns ∙ sym (require_turn_order id state o);
  active = λ other e.
      ap (has other) (require_turn_order id state o)
      ∙ has_added other id state.turn_order
          (o.active other (sym (require_turn_active id state) ∙ e));
}
  where
    has_added :
        (other id : String) (order : List String)
        → has other order ≡ true
        → has other (add id order) ≡ true
    has_added other id order h = ground (arith, has-add id other order, h)

-- The turn that was asked for is there.
require_turn_there :
    (id : String) (state : AgentUiState)
    → TurnsOrdered state
    → has id (require_turn (some id) state).turn_order ≡ true
require_turn_there id state o =
    ap (has id) (require_turn_order id state o)
    ∙ has-add id id state.turn_order
    ∙ if_pos (String_discrete id id) refl true (has id state.turn_order)

none-ne-some : {A : Type 0} {a : A} → none ≡ some a → ⊥
none-ne-some e = cc

cleared :
    {turn : Option String} (id : Option String) (state : AgentUiState)
    → ((clear_active id state).active_turn_id ≡ state.active_turn_id)
      ⊎ (((clear_active id state).active_turn_id ≡ none)
          ⊎ ((clear_active id state).active_turn_id ≡ turn))
unfolding clear_active
cleared id state = elim (Turn_discrete state.active_turn_id id) [
  | yes p ↦
      inr (
        inl (ap (λ s. s.active_turn_id) (if_pos (Turn_discrete state.active_turn_id id) p _ state)))
  | no n ↦
      inl (ap (λ s. s.active_turn_id) (if_neg (Turn_discrete state.active_turn_id id) n _ state))
]

active_after :
    (body : Body) (turn : Option String) (event : Event) (state : AgentUiState)
    → ((session_change body turn event state).active_turn_id ≡ state.active_turn_id)
      ⊎ (((session_change body turn event state).active_turn_id ≡ none)
          ⊎ ((session_change body turn event state).active_turn_id ≡ turn))
unfolding session_change
active_after Body.session_running none event state = inl refl
active_after Body.session_running (some id) event state = inr (inr refl)
active_after (Body.session_idle stop) turn event state = inr (inl refl)
active_after Body.session_terminated turn event state = inr (inl refl)
active_after (Body.session_error data_) turn event state = inr (inl refl)
active_after (Body.capability_updated none value) turn event state = inl refl
active_after (Body.capability_updated (some t) value) turn event state = inl (ground arith)
active_after (Body.usage_updated none budget) turn event state = inl refl
active_after (Body.usage_updated (some u) budget) turn event state = inl refl
active_after Body.turn_completed turn event state = cleared event.turn_id state
active_after (Body.turn_failed data_) turn event state = cleared event.turn_id state
active_after (Body.turn_cancelled data_) turn event state = cleared event.turn_id state
active_after _ turn event state = inl refl

session_change_turns :
    (body : Body) (turn : Option String) (event : Event) (state : AgentUiState)
    → ((session_change body turn event state).turns ≡ state.turns)
      × ((session_change body turn event state).turn_order ≡ state.turn_order)
unfolding session_change
session_change_turns Body.session_running none event state = (refl, refl)
session_change_turns Body.session_running (some id) event state = (refl, refl)
session_change_turns (Body.capability_updated none value) turn event state = (refl, refl)
session_change_turns (Body.capability_updated (some t) value) turn event state = ground arith
session_change_turns (Body.usage_updated none budget) turn event state = (refl, refl)
session_change_turns (Body.usage_updated (some u) budget) turn event state = (refl, refl)
session_change_turns Body.turn_completed turn event state = ground arith
session_change_turns (Body.turn_failed data_) turn event state = ground arith
session_change_turns (Body.turn_cancelled data_) turn event state = ground arith
session_change_turns _ turn event state = (refl, refl)

session_change-TurnsOrdered :
    (body : Body) (turn : Option String) (event : Event) (state : AgentUiState)
    → ((id : String) → turn ≡ some id → has id state.turn_order ≡ true)
    → TurnsOrdered state
    → TurnsOrdered (session_change body turn event state)
session_change-TurnsOrdered body turn event state there o =
    let (turns, order) = session_change_turns body turn event state in
    TurnsOrdered-of state (session_change body turn event state) (ap keys turns) order
      (λ id e. elim (active_after body turn event state) [
        | inl same ↦ o.active id (sym same ∙ e)
        | inr (inl gone) ↦ absurd (none-ne-some (sym gone ∙ e))
        | inr (inr set_now) ↦ there id (sym set_now ∙ e)
      ])
      o
