-- ===== src/SessionSpans.antt =====
-- src/telemetry/session-spans.ts: the spans of one session, with the attribute names of
-- src/telemetry/gen-ai.ts. The tracer is not code of this repository: the calls that are made on it and
-- on its spans are kept as a list, and a span is named by how many were started before it. A context of
-- the tracer is a value of any type.
pub mod Turns
use openma_common.Common.{
  ℕ, suc, String, Bool, true, false, Option, none, some, List, [], ◌∷◌, ◌++◌, if◌then◌else◌,
  non_empty,
}
use openma_common.Common.Maps.{set}
use openma_common.Common.Json.{Number}

pub data AttributeValue : Type 0 where
  text : String → AttributeValue
  number : Number → AttributeValue

abbrev pub Attributes : Type 0
Attributes = List (String × AttributeValue)

-- {...attributes, ...more}
pub spread : Attributes → Attributes → Attributes
spread attributes [] = attributes
spread attributes ((key, value) ∷ more) = spread (set key value attributes) more

pub data SpanOutcome : Type 0 where
  ok : SpanOutcome
  error : String → SpanOutcome
  unset : String → SpanOutcome

pub record SessionIdentity : Type 0 where
  pub agent_name : String
  pub attributes : Attributes

pub record ToolCallInfo : Type 0 where
  pub tool_call_id : String
  pub name : Option String
  pub kind : Option String

pub record ContextUsage : Type 0 where
  pub used : Option Number
  pub size : Option Number
  pub cost_amount : Option Number

pub data SpanStatusCode : Type 0 where
  ok_code error_code : SpanStatusCode

pub data Parent (C : Type 0) : Type 0 where
  active : Parent C
  remote : C → Parent C
  child_of : ℕ → Parent C

pub data SpanCall (C : Type 0) : Type 0 where
  starts : ℕ → String → Attributes → Parent C → SpanCall C
  sets_status : ℕ → SpanStatusCode → SpanCall C
  sets_attributes : ℕ → Attributes → SpanCall C
  adds_event : ℕ → String → Option Attributes → SpanCall C
  ends : ℕ → SpanCall C

pub record OpenTool : Type 0 where
  pub span : ℕ
  pub parent_turn_id : String

pub record SessionSpans (C : Type 0) : Type 0 where
  pub session_id : String
  pub identity : SessionIdentity
  pub create_agent : Option ℕ
  pub acp_session_id : Option String
  pub ready : Bool
  pub turns : List (String × ℕ)
  pub tools : List (String × OpenTool)
  pub started : ℕ
  pub calls : List (SpanCall C)

pub field_of : String → Option AttributeValue → Attributes
field_of key none = []
field_of key (some value) = (key, value) ∷ []

pub number_of : Option Number → Option AttributeValue
number_of none = none
number_of (some n) = some (number n)

-- A text that is there and not empty.
pub text_of : Option String → Option AttributeValue
text_of none = none
text_of (some t) = if non_empty t then some (text t) else none

-- The value of a key that a map may lack, as `has` tests it.
pub is_some {ℓ} : {A : Type ℓ} → Option A → Bool
is_some none = false
is_some (some a) = true

or_kept : Option String → Option String → Option String
or_kept none kept = kept
or_kept (some id) kept = if non_empty id then some id else kept

module _ {C : Type 0} where
  pub finish : ℕ → SpanOutcome → List (SpanCall C)
  finish span ok = sets_status span ok_code ∷ ends span ∷ []
  finish span (error error_type) =
      sets_attributes span (("error.type", text error_type) ∷ [])
      ∷ sets_status span error_code
      ∷ ends span
      ∷ []
  finish span (unset reason) =
      sets_attributes span (("openma.end_reason", text reason) ∷ []) ∷ ends span ∷ []

  pub new : String → SessionIdentity → SessionSpans C
  new session_id identity = record {
    session_id = session_id;
    identity = identity;
    create_agent = none;
    acp_session_id = none;
    ready = false;
    turns = [];
    tools = [];
    started = 0;
    calls = [];
  }

  -- this.attributes()
  pub attributes_of : SessionSpans C → Attributes
  unfolding spread field_of text_of
  attributes_of s =
      spread
        (spread
          (("gen_ai.conversation.id", text s.session_id)
            ∷ ("gen_ai.agent.name", text s.identity.agent_name)
            ∷ [])
          s.identity.attributes)
        (field_of "openma.acp_session_id" (text_of s.acp_session_id))

  pub called : SessionSpans C → List (SpanCall C) → SessionSpans C
  called s cs = record s { calls = s.calls ++ cs }

  -- this.tracer.startSpan(name, options, parent): the span is `s.started`.
  pub start_span : SessionSpans C → String → Attributes → Parent C → SessionSpans C
  start_span s name attributes parent = record s {
    started = suc s.started;
    calls = s.calls ++ starts s.started name attributes parent ∷ [];
  }

  end_of : Option ℕ → List (SpanCall C)
  end_of none = []
  end_of (some span) = ends span ∷ []

  pub begin_create_agent : SessionSpans C → SessionIdentity → SessionSpans C
  unfolding start_span called end_of
  begin_create_agent s identity =
      let closed =
        called (record s { identity = identity; ready = false }) (end_of s.create_agent) in
      record (start_span closed "create_agent"
        (spread (("gen_ai.operation.name", text "create_agent") ∷ []) (attributes_of closed))
        active) { create_agent = some s.started }

  pub mark_ready : SessionSpans C → Option String → SessionSpans C
  unfolding called finish or_kept
  mark_ready s acp_session_id =
      let s' = record s {
        ready = true;
        acp_session_id = or_kept acp_session_id s.acp_session_id;
      } in
      elim s.create_agent [
        | none ↦ s'
        | some span ↦
            record (called s' (sets_attributes span (attributes_of s') ∷ finish span ok)) {
              create_agent = none;
            }
      ]

  pub fail_start : SessionSpans C → String → SessionSpans C × Bool
  unfolding called finish
  fail_start s error_type = elim s.create_agent [
    | none ↦ (s, false)
    | some span ↦ (record (called s (finish span (error error_type))) { create_agent = none }, true)
  ]
