-- ===== src/AgentUi/Store/Delivery/Heard.antt =====
-- src/agent-ui/index.ts: over the events of a session, the calls of a subscriber add up to the text.
use mathlib.Core.List.{append-nil, append_assoc}
use openma_common.Common.{
  ℕ, ◌+◌, ◌==◌, String, Bool, true, false, Option, none, some, List, [], ◌∷◌, ◌++◌, ◌≡◌, ◌≢◌, refl,
  sym, ap, ◌∙◌, arith, inl, inr, ite, if◌then◌else◌, Bool-cases, Option-cases, Turn_discrete, map,
  if_pos, if_neg,
}
use openma_common.Common.Maps.{get}
use openma_common.Common.Units.{Units, is_nil}
use openma_common.AgentUi.{AgentUiState, Event}
use openma_common.AgentUi.Reducer.{turn_id_of, is_ignored, reduce_agent_ui_event}
use openma_common.AgentUi.Store.{
  AgentUiStore, StoreCall, listener_called, subscriber_called, StreamKind, assistant, thought,
  accumulated_turn_stream, stream_projection, stream_delta, added_text, dispatch, stream_calls,
  state_calls, subscribers_of, calls_of, opens_stream_segment,
}
use openma_common.AgentUi.Store.Streams.Turns.{is_of}
use openma_common.AgentUi.Store.Delivery.{added_text-append}
use openma_common.AgentUi.Store.Delivery.Added.{added_by}

added_text_same : (text : Units) → added_text text text ≡ []
added_text_same text =
    ap (λ t. added_text text t) (sym (append-nil text)) ∙ added_text-append text []

is_of-eq : (s kind : StreamKind) → is_of s (some kind) ≡ true → kind ≡ s
unfolding is_of
is_of-eq assistant assistant h = refl
is_of-eq thought thought h = refl
is_of-eq assistant thought h = cc
is_of-eq thought assistant h = cc

append_empty : (xs ys : Units) → ys ≡ [] → xs ++ ys ≡ xs
append_empty xs ys e = ap (λ t. xs ++ t) e ∙ append-nil xs

-- How often a listener stands in a set of them.
unfoldable pub times : ℕ → List ℕ → ℕ
times l [] = 0
times l (other ∷ listeners) = (if other == l then 1 else 0) + times l listeners

-- The text of a stream in one call, and in several, of a subscriber.
unfoldable pub heard_in : ℕ → StreamKind → StoreCall → Units
heard_in l s (listener_called other state) = []
heard_in l s (subscriber_called other kind text) =
    if is_of s (some kind) then (if other == l then text else []) else []

unfoldable pub heard : ℕ → StreamKind → List StoreCall → Units
unfolding heard_in is_of
heard l s [] = []
heard l s (call ∷ calls) = heard_in l s call ++ heard l s calls

pub heard-append :
    (l : ℕ) (s : StreamKind) (xs ys : List StoreCall)
    → heard l s (xs ++ ys) ≡ heard l s xs ++ heard l s ys
unfolding heard
heard-append l s [] ys = refl
heard-append l s (x ∷ xs) ys =
    ap (λ t. heard_in l s x ++ t) (heard-append l s xs ys)
    ∙ sym (append_assoc (heard_in l s x) (heard l s xs) (heard l s ys))

heard-state_calls :
    (l : ℕ) (s : StreamKind) (listeners : List ℕ) (state : AgentUiState)
    → heard l s (state_calls listeners state) ≡ []
unfolding heard state_calls
heard-state_calls l s [] state = refl
heard-state_calls l s (other ∷ listeners) state = heard-state_calls l s listeners state

abbrev subscribers_called : StreamKind → Units → List ℕ → List StoreCall
subscribers_called kind text ls = map (λ subscriber. subscriber_called subscriber kind text) ls

heard_other :
    (l : ℕ) (s kind : StreamKind) (text : Units) (ls : List ℕ)
    → is_of s (some kind) ≡ false
    → heard l s (subscribers_called kind text ls) ≡ []
unfolding heard
heard_other l s kind text [] h = refl
heard_other l s kind text (other ∷ ls) h = rw (h, if◌then◌else◌) (heard_other l s kind text ls h)

heard_none :
    (l : ℕ) (s kind : StreamKind) (text : Units) (ls : List ℕ)
    → times l ls ≡ 0
    → heard l s (subscribers_called kind text ls) ≡ []
unfolding heard times
heard_none l s kind text [] h = refl
heard_none l s kind text (other ∷ ls) h = ground (arith, heard_none l s kind text ls)

heard_once :
    (l : ℕ) (s kind : StreamKind) (text : Units) (ls : List ℕ)
    → is_of s (some kind) ≡ true
    → times l ls ≡ 1
    → heard l s (subscribers_called kind text ls) ≡ text
unfolding heard times
heard_once l s kind text [] h e = ground arith
heard_once l s kind text (other ∷ ls) h e = elim (Bool-cases (other == l)) [
  | inl here ↦
      rw (h, if◌then◌else◌, here, if◌then◌else◌)
        (ap (λ t. text ++ t) (heard_none l s kind text ls (ground arith)) ∙ append-nil text)
  | inr there ↦
      rw (h, if◌then◌else◌, there, if◌then◌else◌) (heard_once l s kind text ls h (ground arith))
]

heard_empty :
    (l : ℕ) (s kind : StreamKind) (ls : List ℕ) → heard l s (subscribers_called kind [] ls) ≡ []
unfolding heard
heard_empty l s kind [] = refl
heard_empty l s kind (other ∷ ls) = ground (arith, heard_empty l s kind ls)

-- No call for an empty text is heard as a call with it.
heard_if :
    (l : ℕ) (s kind : StreamKind) (text : Units) (ls : List ℕ)
    → heard l s (if is_nil text then [] else subscribers_called kind text ls)
      ≡ heard l s (subscribers_called kind text ls)
unfolding heard
heard_if l s kind [] ls = sym (heard_empty l s kind ls)
heard_if l s kind (c ∷ text) ls = refl

-- A subscriber of one turn, and of no other.
pub record Subscribed (l : ℕ) (id : String) (store : AgentUiStore) : Type 0 where
  pub here : times l (subscribers_of (get id store.stream_subscribers)) ≡ 1
  pub not_elsewhere :
      (other : String)
      → other ≢ id
      → times l (subscribers_of (get other store.stream_subscribers)) ≡ 0

module _ (parse_date : String → Option ℕ) (s : StreamKind) (id : String) (l : ℕ) where
  no_turn :
      (kind : StreamKind) (delta : Units)
      → heard l s []
        ≡ (if is_of s (some kind) then ite (Turn_discrete none (some id)) delta [] else [])
  unfolding heard
  no_turn kind delta =
      rw (if_neg (Turn_discrete none (some id)) (λ (e : none ≡ some id). cc) delta [])
        (elim (Bool-cases (is_of s (some kind))) [ inl e ↦ rw e refl | inr e ↦ rw e refl ])

  heard-stream_calls :
      (store : AgentUiStore) (turn_id : Option String) (kind : StreamKind) (delta : Units)
      → Subscribed l id store
      → heard l s (stream_calls store.stream_subscribers turn_id kind delta) ≡ (
          if is_of s (some kind)
          then ite (Turn_discrete (turn_id_of turn_id) (some id)) delta []
          else [])
  unfolding stream_calls
  heard-stream_calls store turn_id kind delta sub = elim (Option-cases (turn_id_of turn_id)) [
    | inl e ↦ rw (e, stream_calls) (no_turn kind delta)
    | inr (turn, e) ↦
        rw (e, stream_calls)
          (heard_if l s kind delta (subscribers_of (get turn store.stream_subscribers))
            ∙ in_turn store turn kind delta sub)
  ]
    where
      in_turn :
          (store : AgentUiStore) (turn : String) (kind : StreamKind) (delta : Units)
          → Subscribed l id store
          → heard l s
              (subscribers_called kind delta (subscribers_of (get turn store.stream_subscribers)))
            ≡ (if is_of s (some kind)
                then ite (Turn_discrete (some turn) (some id)) delta []
                else [])
      in_turn store turn kind delta sub =
          let ls = subscribers_of (get turn store.stream_subscribers) in
          elim (Bool-cases (is_of s (some kind))) [
            | inr n ↦ rw (n, if◌then◌else◌) (heard_other l s kind delta ls n)
            | inl h ↦ elim (Turn_discrete (some turn) (some id)) [
              | yes e ↦
                  rw (h, if◌then◌else◌, if_pos (Turn_discrete (some turn) (some id)) e)
                    (heard_once l s kind delta ls h (
                      let same_turn : turn ≡ id = cc in
                      ap (λ t. times l (subscribers_of (get t store.stream_subscribers))) same_turn
                      ∙ sub.here))
              | no n ↦
                  rw (h, if◌then◌else◌, if_neg (Turn_discrete (some turn) (some id)) n)
                    (heard_none l s kind delta ls (sub.not_elsewhere turn (λ e. n (ap some e))))
            ]
          ]

  added_ignored :
      (state : AgentUiState) (event : Event)
      → is_ignored parse_date state event ≡ true
      → added_by parse_date s id state event ≡ []
  unfolding added_by stream_delta reduce_agent_ui_event
  added_ignored state event old =
      rw (old, if◌then◌else◌)
        (ground (arith, added_text_same (accumulated_turn_stream state event.turn_id s)))

  quiet :
      (opens : Bool) (listeners : List ℕ) (next : AgentUiState)
      → heard l s (if opens then state_calls listeners next else []) ≡ []
  unfolding heard
  quiet true listeners next = heard-state_calls l s listeners next
  quiet false listeners next = refl

  own_delta :
      (state : AgentUiState) (event : Event) (kind : StreamKind)
      → (if is_of s (some kind)
          then ite
              (Turn_discrete (turn_id_of event.turn_id) (some id))
              (stream_delta parse_date state event kind)
              []
          else [])
        ≡ (if is_of s (some kind)
            then ite
                (Turn_discrete (turn_id_of event.turn_id) (some id))
                (stream_delta parse_date state event s)
                []
            else [])
  own_delta state event kind = elim (Bool-cases (is_of s (some kind))) [
    | inl e ↦
        ap
          (λ k.
            if is_of s (some kind)
            then ite (Turn_discrete (turn_id_of event.turn_id) (some id))
                (stream_delta parse_date state event k) []
            else [])
          (is_of-eq s kind e)
    | inr e ↦ rw e refl
  ]

  calls_heard :
      (store : AgentUiStore) (event : Event) (next : AgentUiState) (projected : Option StreamKind)
      → Subscribed l id store
      → heard l s (calls_of parse_date store event next projected) ≡ (
          if is_of s projected
          then ite
              (Turn_discrete (turn_id_of event.turn_id) (some id))
              (stream_delta parse_date store.state event s)
              []
          else [])
  unfolding calls_of is_of
  calls_heard store event next none sub = heard-state_calls l s store.listeners next
  calls_heard store event next (some kind) sub =
      let delta = stream_delta parse_date store.state event kind in
      heard-append l s (stream_calls store.stream_subscribers event.turn_id kind delta) _
      ∙ rw (heard-stream_calls store event.turn_id kind delta sub) (
          append_empty _ _
            (quiet (opens_stream_segment store.state event kind) store.listeners next)
          ∙ own_delta store.state event kind)

  pub heard-dispatch :
      (store : AgentUiStore) (event : Event)
      → Subscribed l id store
      → heard l s (dispatch parse_date store event).1 ≡ added_by parse_date s id store.state event
  unfolding dispatch added_by heard
  heard-dispatch store event sub = elim (Bool-cases (is_ignored parse_date store.state event)) [
    | inl old ↦ rw (old, if◌then◌else◌) (sym (added_ignored store.state event old))
    | inr new ↦
        rw (new, if◌then◌else◌) (calls_heard store event _ (stream_projection event.body) sub)
  ]
