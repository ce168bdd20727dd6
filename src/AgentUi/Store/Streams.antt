-- ===== src/AgentUi/Store/Streams.antt =====
-- src/agent-ui/index.ts: how an event changes the text that streams in a turn.
pub mod Turns
use mathlib.Core.List.{append-nil, append_assoc}
use openma_common.Common.{
  ℕ, String, Bool, true, false, Option, none, some, List, [], ◌∷◌, ◌++◌, ◌≡◌, ◌≢◌, refl, sym, ap,
  ◌∙◌, arith, inl, inr, if◌then◌else◌, Bool-cases, Option-cases,
}
use openma_common.Common.Units.{Units}
use openma_common.AgentUi.{
  AgentUiMessageItem, AgentUiTimelineItem, message_item, tool_item, raw_item, MessageKind,
  MessageRole, MessageEventData, Body, ToolStatus, ToolLifecycleData,
}
use openma_common.AgentUi.Messages.{
  continue_tail, continued, fits, kind_eq, role_eq, merge_agent_ui_streaming_text, no_text,
}
use openma_common.AgentUi.Messages.Merging.{Begins, merge-Begins}
use openma_common.AgentUi.Thoughts.{settle_items, settle_item, settle_thought, settled}
use openma_common.AgentUi.Tools.{upsert_tool_item}
use openma_common.AgentUi.Store.{
  StreamKind, assistant, thought, streams, streams_role, streamed_text, streamed_texts,
}

streamed_texts-append :
    (kind : StreamKind) (xs ys : List AgentUiTimelineItem)
    → streamed_texts kind (xs ++ ys) ≡ streamed_texts kind xs ++ streamed_texts kind ys
unfolding streamed_texts
streamed_texts-append kind [] ys = refl
streamed_texts-append kind (x ∷ xs) ys =
    ap (λ t. streamed_text kind x ++ t) (streamed_texts-append kind xs ys)
    ∙ sym (append_assoc (streamed_text kind x) (streamed_texts kind xs) (streamed_texts kind ys))

kind_eq-eq : (k kind : MessageKind) → kind_eq k kind ≡ true → k ≡ kind
unfolding kind_eq
kind_eq-eq MessageKind.message kind h = ground arith
kind_eq-eq MessageKind.thinking kind h = ground arith
kind_eq-eq MessageKind.notice kind h = ground arith

role_eq-eq : (r role : MessageRole) → role_eq r role ≡ true → r ≡ role
unfolding role_eq
role_eq-eq MessageRole.user role h = ground arith
role_eq-eq MessageRole.assistant role h = ground arith
role_eq-eq MessageRole.system role h = ground arith

-- An item that continues has the kind and the role of the event.
fits-streams :
    (kind : MessageKind) (role : MessageRole) (id : Option Units) (item : AgentUiMessageItem)
    (s : StreamKind)
    → fits kind role id item ≡ true
    → streams s item ≡ streams_role s kind role
unfolding fits streams
fits-streams kind role id item s h =
    ground (arith, kind_eq-eq item.kind kind, role_eq-eq item.role role)

continued-streams :
    (s : StreamKind) (data_ : MessageEventData) (streaming : Bool) (item : AgentUiMessageItem)
    → streams s (continued data_ streaming item) ≡ streams s item
unfolding streams continued
continued-streams s data_ streaming item = refl

Begins-same : (text first : Units) → text ≡ first → Begins text first
Begins-same text first e = ([], e ∙ sym (append-nil first))

Begins-append_left :
    (front text first : Units) → Begins text first → Begins (front ++ text) (front ++ first)
Begins-append_left front text first b =
    (b.0, ap (λ t. front ++ t) b.1 ∙ sym (append_assoc front first b.0))

Begins-eq :
    {text text' first first' : Units}
    → text ≡ text'
    → first ≡ first'
    → Begins text' first'
    → Begins text first
Begins-eq p q b = (b.0, p ∙ b.1 ∙ ap (λ t. t ++ b.0) (sym q))

streamed_one :
    (s : StreamKind) (item : AgentUiMessageItem)
    → streams s item ≡ true
    → streamed_texts s (message_item item ∷ []) ≡ item.text
unfolding streamed_texts streamed_text
streamed_one s item h = rw (h, if◌then◌else◌) (append-nil item.text)

continued-Begins :
    (data_ : MessageEventData) (item : AgentUiMessageItem)
    → Begins (continued data_ true item).text item.text
unfolding continued
continued-Begins data_ item = merge-Begins item.text (no_text data_.text)

under : AgentUiTimelineItem → Option (List AgentUiTimelineItem) → Option (List AgentUiTimelineItem)
under item found = elim found [ none ↦ none | some rest ↦ some (item ∷ rest) ]

next_found :
    (item : AgentUiTimelineItem) (found : Option (List AgentUiTimelineItem))
    (changed : List AgentUiTimelineItem)
    → under item found ≡ some changed
    → (later : List AgentUiTimelineItem) × (found ≡ some later) × (changed ≡ item ∷ later)
unfolding under
next_found item none changed h = absurd (ground arith)
next_found item (some later) changed h = (later, refl, ground arith)

-- What the search for the tail gives at the items behind the first one.
continue_tail_next :
    (kind : MessageKind) (role : MessageRole) (data_ : MessageEventData) (streaming : Bool)
    (item next : AgentUiTimelineItem) (items changed : List AgentUiTimelineItem)
    → continue_tail (item ∷ next ∷ items) kind role data_ streaming ≡ some changed
    → (later : List AgentUiTimelineItem) × (continue_tail (next ∷ items) kind role data_ streaming
        ≡ some later)
      × (changed ≡ item ∷ later)
unfolding continue_tail under
continue_tail_next kind role data_ streaming item next items changed h =
    next_found item (continue_tail (next ∷ items) kind role data_ streaming) changed
      (next_step item ∙ h)
  where
    next_step :
        (item : AgentUiTimelineItem)
        → under item (continue_tail (next ∷ items) kind role data_ streaming)
          ≡ continue_tail (item ∷ next ∷ items) kind role data_ streaming
    next_step (message_item m) = refl
    next_step (tool_item t) = refl
    next_step (raw_item id) = refl

module _ (s : StreamKind) (kind : MessageKind) (role : MessageRole) (data_ : MessageEventData) where
  -- A message that is none of the stream leaves its text as it is.
  pub continue_tail-kept :
      (streaming : Bool) (items changed : List AgentUiTimelineItem)
      → streams_role s kind role ≡ false
      → continue_tail items kind role data_ streaming ≡ some changed
      → streamed_texts s changed ≡ streamed_texts s items
  unfolding continue_tail streamed_texts streamed_text
  continue_tail-kept streaming [] changed n h = ground arith
  continue_tail-kept streaming (message_item item ∷ []) changed n h = ground (
    arith,
    fits-streams kind role data_.message_id item s,
    continued-streams s data_ streaming item,
  )
  continue_tail-kept streaming (tool_item item ∷ []) changed n h = ground arith
  continue_tail-kept streaming (raw_item id ∷ []) changed n h = ground arith
  continue_tail-kept streaming (item ∷ next ∷ items) changed n h =
      let (later, found, e) =
        continue_tail_next kind role data_ streaming item next items changed h in
      ap (streamed_texts s) e
      ∙ ap (λ t. streamed_text s item ++ t)
          (continue_tail-kept streaming (next ∷ items) later n found)

  -- A chunk of the stream extends its text.
  pub continue_tail-grown :
      (items changed : List AgentUiTimelineItem)
      → streams_role s kind role ≡ true
      → continue_tail items kind role data_ true ≡ some changed
      → Begins (streamed_texts s changed) (streamed_texts s items)
  unfolding continue_tail streamed_texts streamed_text
  continue_tail-grown [] changed n h = ground arith
  continue_tail-grown (message_item item ∷ []) changed n h =
      elim (Bool-cases (fits kind role data_.message_id item)) [
        | inl e ↦
            let of_stream = fits-streams kind role data_.message_id item s e ∙ n in
            let one : changed ≡ message_item (continued data_ true item) ∷ [] = ground arith in
            Begins-eq
              (ap (streamed_texts s) one
                ∙ streamed_one s (continued data_ true item)
                    (continued-streams s data_ true item ∙ of_stream))
              (streamed_one s item of_stream) (continued-Begins data_ item)
        | inr e ↦ absurd (ground arith)
      ]
  continue_tail-grown (tool_item item ∷ []) changed n h = ground arith
  continue_tail-grown (raw_item id ∷ []) changed n h = ground arith
  continue_tail-grown (item ∷ next ∷ items) changed n h =
      let (later, found, e) = continue_tail_next kind role data_ true item next items changed h in
      Begins-eq (ap (streamed_texts s) e) refl (
        Begins-append_left (streamed_text s item) (streamed_texts s later)
          (streamed_texts s (next ∷ items)) (continue_tail-grown (next ∷ items) later n found))

settle_item_text :
    (parse_date : String → Option ℕ) (s : StreamKind) (body : Body) (now : String)
    (item : AgentUiTimelineItem) (later : List AgentUiTimelineItem)
    → streamed_text s (settle_item parse_date body now item later) ≡ streamed_text s item
unfolding settle_item streamed_text settle_thought settled
settle_item_text parse_date s body now (message_item item) later = ground arith
settle_item_text parse_date s body now (tool_item item) later = refl
settle_item_text parse_date s body now (raw_item id) later = refl

pub settle_items_texts :
    (parse_date : String → Option ℕ) (s : StreamKind) (body : Body) (now : String)
    (items : List AgentUiTimelineItem)
    → streamed_texts s (settle_items parse_date body now items) ≡ streamed_texts s items
unfolding settle_items streamed_texts
settle_items_texts parse_date s body now [] = refl
settle_items_texts parse_date s body now (item ∷ items) = ground (
  arith,
  settle_item_text parse_date s body now item items,
  settle_items_texts parse_date s body now items,
)

pub upsert_tool_item_texts :
    (s : StreamKind) (id : Units) (status : ToolStatus) (data_ : ToolLifecycleData)
    (items : List AgentUiTimelineItem)
    → streamed_texts s (upsert_tool_item id status data_ items) ≡ streamed_texts s items
unfolding upsert_tool_item streamed_texts streamed_text
upsert_tool_item_texts s id status data_ [] = refl
upsert_tool_item_texts s id status data_ (tool_item item ∷ items) =
    ground (arith, upsert_tool_item_texts s id status data_ items)
upsert_tool_item_texts s id status data_ (message_item item ∷ items) =
    rw (upsert_tool_item_texts s id status data_ items) refl
upsert_tool_item_texts s id status data_ (raw_item other ∷ items) =
    upsert_tool_item_texts s id status data_ items
