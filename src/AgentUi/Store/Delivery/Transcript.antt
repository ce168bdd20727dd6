-- ===== src/AgentUi/Store/Delivery/Transcript.antt =====
-- src/agent-ui/index.ts: a subscriber hears the text of its stream, whole and in order.
use mathlib.Core.List.{append-nil, append_assoc}
use openma_common.Common.{
  ℕ, String, true, Option, some, List, [], ◌∷◌, ◌++◌, ◌≡◌, refl, sym, ap, ◌∙◌, arith, if◌then◌else◌,
  String_discrete, if_pos, if_neg, non_empty, All,
}
use openma_common.Common.Maps.{get, get-set}
use openma_common.Common.Units.{Units}
use openma_common.AgentUi.{Event}
use openma_common.AgentUi.Reducer.{turn_id_of, reduce_agent_ui_event}
use openma_common.AgentUi.Store.{
  AgentUiStore, StreamKind, assistant, thought, accumulated_turn_stream, dispatch, dispatch_all,
  subscribers_of, subscribe_turn_stream, add_listener, text_call,
}
use openma_common.AgentUi.Store.Streams.Turns.{is_of}
use openma_common.AgentUi.Store.Delivery.{text_in}
use openma_common.AgentUi.Store.Delivery.Added.{Appends, accumulated_text, text_after}
use openma_common.AgentUi.Store.Delivery.Heard.{
  heard, heard_in, heard-append, times, Subscribed, heard-dispatch,
}

pub dispatch_state :
    (parse_date : String → Option ℕ) (store : AgentUiStore) (event : Event)
    → (dispatch parse_date store event).0.state ≡ reduce_agent_ui_event parse_date store.state event
unfolding dispatch reduce_agent_ui_event
dispatch_state parse_date store event = ground arith

dispatch_subscribers :
    (parse_date : String → Option ℕ) (store : AgentUiStore) (event : Event)
    → (dispatch parse_date store event).0.stream_subscribers ≡ store.stream_subscribers
unfolding dispatch
dispatch_subscribers parse_date store event = ground arith

module _ (parse_date : String → Option ℕ) (s : StreamKind) (id : String) (l : ℕ) where
  dispatch-Subscribed :
      (store : AgentUiStore) (event : Event)
      → Subscribed l id store
      → Subscribed l id (dispatch parse_date store event).0
  dispatch-Subscribed store event sub = record {
    here =
        ap (λ m. times l (subscribers_of (get id m))) (dispatch_subscribers parse_date store event)
        ∙ sub.here;
    not_elsewhere = λ other n.
        ap (λ m. times l (subscribers_of (get other m)))
          (dispatch_subscribers parse_date store event)
        ∙ sub.not_elsewhere other n;
  }

  heard_since :
      (events : List Event) (store : AgentUiStore)
      → All (Appends parse_date s id) events
      → Subscribed l id store
      → text_in s id (dispatch_all parse_date events store).0.state
        ≡ text_in s id store.state ++ heard l s (dispatch_all parse_date events store).1
  unfolding dispatch_all heard
  heard_since [] store appends sub = sym (append-nil (text_in s id store.state))
  heard_since (event ∷ events) store appends sub =
      let next = (dispatch parse_date store event).0 in
      heard_since events next appends.1 (dispatch-Subscribed store event sub)
      ∙ ap (λ t. t ++ heard l s (dispatch_all parse_date events next).1)
          (ap (text_in s id) (dispatch_state parse_date store event)
            ∙ text_after parse_date s id store.state event appends.0
            ∙ ap (λ t. text_in s id store.state ++ t)
                (sym (heard-dispatch parse_date s id l store event sub)))
      ∙ append_assoc (text_in s id store.state) (heard l s (dispatch parse_date store event).1)
          (heard l s (dispatch_all parse_date events next).1)
      ∙ ap (λ t. text_in s id store.state ++ t)
          (sym (
            heard-append l s (dispatch parse_date store event).1
              (dispatch_all parse_date events next).1))

turn_id_of-some : (id : String) → non_empty id ≡ true → turn_id_of (some id) ≡ some id
unfolding turn_id_of
turn_id_of-some id h = rw (h, if◌then◌else◌) refl

-- A listener that is in no set of subscribers.
abbrev pub Unsubscribed : ℕ → AgentUiStore → Type 0
Unsubscribed l store =
    (id : String) → times l (subscribers_of (get id store.stream_subscribers)) ≡ 0

times-add_listener : (l : ℕ) (ls : List ℕ) → times l ls ≡ 0 → times l (add_listener l ls) ≡ 1
unfolding times add_listener
times-add_listener l [] h = ground arith
times-add_listener l (other ∷ ls) h = ground (arith, times-add_listener l ls)

module _ (s : StreamKind) (id : String) (l : ℕ) (store : AgentUiStore) where
  subscribe-Subscribed : Unsubscribed l store → Subscribed l id (subscribe_turn_stream id l store).0
  unfolding subscribe_turn_stream subscribers_of
  subscribe-Subscribed fresh = record {
    here =
        rw (get-set id id _ store.stream_subscribers, if_pos (String_discrete id id) refl)
          (times-add_listener l (subscribers_of (get id store.stream_subscribers)) (fresh id));
    not_elsewhere = λ other n.
        rw
          (
            get-set id other _ store.stream_subscribers,
            if_neg (String_discrete id other) (λ e. n (sym e)),
          )
          (fresh other);
  }

heard-text_call :
    (l : ℕ) (s kind : StreamKind) (text : Units)
    → heard l s (text_call l kind text) ≡ (if is_of s (some kind) then text else [])
unfolding text_call heard heard_in
heard-text_call l s kind [] = ground arith
heard-text_call l s kind (c ∷ text) = ground (arith, append-nil (c ∷ text))

-- The calls at the subscription give the text that is there.
module _ (id : String) (l : ℕ) (store : AgentUiStore) (named : turn_id_of (some id) ≡ some id) where
  joined :
      (s : StreamKind)
      → (if is_of s (some thought)
            then accumulated_turn_stream store.state (some id) thought
            else [])
          ++ (if is_of s (some assistant)
              then accumulated_turn_stream store.state (some id) assistant
              else [])
        ≡ text_in s id store.state
  unfolding is_of
  joined assistant = accumulated_text assistant id store.state (some id) named
  joined thought =
      append-nil (accumulated_turn_stream store.state (some id) thought)
      ∙ accumulated_text thought id store.state (some id) named

  first_heard :
      (s : StreamKind)
      → heard l s (subscribe_turn_stream id l store).1
        ≡ text_in s id (subscribe_turn_stream id l store).0.state
  unfolding subscribe_turn_stream
  first_heard s =
      let thoughts = accumulated_turn_stream store.state (some id) thought in
      let answers = accumulated_turn_stream store.state (some id) assistant in
      heard-append l s (text_call l thought thoughts) (text_call l assistant answers)
      ∙ rw (heard-text_call l s thought thoughts, heard-text_call l s assistant answers) (joined s)

-- A listener that no turn has as a subscriber, once it subscribes to a turn of a store, hears over
-- any list of events exactly the text of that kind of stream, whole and in order, that the turn has
-- after them: the calls at the subscription and the deltas of each event concatenate to the
-- accumulated text. The turn has a non-empty id; for the assistant's text no event of the turn is
-- an agent.message, whether or not it replaces a text, and for the thoughts none is an
-- agent.thinking without a text, since the store calls no subscriber for these.
pub transcript_heard :
    (parse_date : String → Option ℕ) (s : StreamKind) (id : String) (l : ℕ) (store : AgentUiStore)
    (events : List Event)
    → non_empty id ≡ true
    → Unsubscribed l store
    → All (Appends parse_date s id) events
    → heard l s (
        (subscribe_turn_stream id l store).1
        ++ (dispatch_all parse_date events (subscribe_turn_stream id l store).0).1)
      ≡ accumulated_turn_stream
          (dispatch_all parse_date events (subscribe_turn_stream id l store).0).0.state
          (some id)
          s
transcript_heard parse_date s id l store events named fresh appends =
    let own : turn_id_of (some id) ≡ some id = turn_id_of-some id named in
    let subscribed = (subscribe_turn_stream id l store).0 in
    heard-append l s (subscribe_turn_stream id l store).1
      (dispatch_all parse_date events subscribed).1
    ∙ ap (λ t. t ++ heard l s (dispatch_all parse_date events subscribed).1)
        (first_heard id l store own s)
    ∙ sym (
        heard_since parse_date s id l events subscribed appends
          (subscribe-Subscribed s id l store fresh))
    ∙ sym (accumulated_text s id (dispatch_all parse_date events subscribed).0.state (some id) own)
