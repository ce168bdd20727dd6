-- ===== src/SessionSpans/Turns.antt =====
-- src/telemetry/session-spans.ts: the spans of turns and of the tools that run in them.
pub mod Balance
pub mod Steps
pub mod Closed
mod Tests
use openma_common.Common.{
  ℕ, String, Bool, true, false, Option, none, some, List, [], ◌∷◌, ◌++◌, map, ite, if◌then◌else◌,
  String_discrete,
}
use openma_common.Common.Maps.{get, set, delete}
use openma_common.Common.Json.{Number}
use openma_common.SessionSpans.{
  text, Attributes, spread, field_of, number_of, text_of, is_some, SpanOutcome, ok, error, unset,
  ToolCallInfo, ContextUsage, Parent, active, remote, child_of, SpanCall, sets_attributes,
  adds_event, OpenTool, SessionSpans, finish, attributes_of, called, start_span,
}

-- The tools of other turns.
pub other_tools : String → List (String × OpenTool) → List (String × OpenTool)
other_tools id [] = []
other_tools id ((tool_call_id, tool) ∷ tools) =
    ite (String_discrete tool.parent_turn_id id) (other_tools id tools)
      ((tool_call_id, tool) ∷ other_tools id tools)

first_turn : List (String × ℕ) → Option ℕ
first_turn [] = none
first_turn ((id, span) ∷ turns) = some span

tool_outcome : Bool → SpanOutcome
tool_outcome true = ok
tool_outcome false = error "tool_failed"

module _ {C : Type 0} where
  remote_parent : Option C → Parent C
  remote_parent none = active
  remote_parent (some c) = remote c

  pub begin_turn : SessionSpans C → String → Option Number → Option C → SessionSpans C
  unfolding start_span is_some
  begin_turn s turn_id prompt_chars parent =
      if is_some (get turn_id s.turns)
      then s
      else record (start_span s "invoke_agent"
          (spread (spread (("gen_ai.operation.name", text "invoke_agent") ∷ []) (attributes_of s)) (
            ("openma.turn_id", text turn_id)
            ∷ field_of "openma.prompt_chars" (number_of prompt_chars)))
          (remote_parent parent)) { turns = set turn_id s.started s.turns }

  pub has_turn : SessionSpans C → String → Bool
  unfolding is_some
  has_turn s turn_id = is_some (get turn_id s.turns)

  -- The tools of a turn, as the calls that end them.
  pub end_tools : String → List (String × OpenTool) → List (SpanCall C)
  unfolding finish
  end_tools id [] = []
  end_tools id ((tool_call_id, tool) ∷ tools) =
      ite (String_discrete tool.parent_turn_id id)
        (finish tool.span (unset "turn ended") ++ end_tools id tools) (end_tools id tools)

  attributes_set : ℕ → Option Attributes → List (SpanCall C)
  attributes_set span none = []
  attributes_set span (some attributes) = sets_attributes span attributes ∷ []

  -- The body of the loop of `endTurn`, and the loop.
  pub end_one : SessionSpans C → String → SpanOutcome → Option Attributes → SessionSpans C
  unfolding called attributes_set
  end_one s id outcome attributes = elim (get id s.turns) [
    | none ↦ s
    | some span ↦
        record (called s
          (end_tools id s.tools ++ (attributes_set span attributes ++ finish span outcome))) {
            turns = delete id s.turns;
            tools = other_tools id s.tools;
          }
  ]

  pub end_each : SessionSpans C → List String → SpanOutcome → Option Attributes → SessionSpans C
  end_each s [] outcome attributes = s
  end_each s (id ∷ ids) outcome attributes =
      end_each (end_one s id outcome attributes) ids outcome attributes

  pub end_turn : SessionSpans C → Option String → SpanOutcome → Option Attributes → SessionSpans C
  end_turn s none outcome attributes = end_each s (map (λ e. e.0) s.turns) outcome attributes
  end_turn s (some id) outcome attributes = end_each s (id ∷ []) outcome attributes

  turn_span : SessionSpans C → Option String → Option ℕ
  unfolding first_turn
  turn_span s none = first_turn s.turns
  turn_span s (some id) = get id s.turns

  event_of : Option ℕ → String → Option Attributes → List (SpanCall C)
  event_of none name attributes = []
  event_of (some span) name attributes = adds_event span name attributes ∷ []

  pub add_turn_event : SessionSpans C → Option String → String → Option Attributes → SessionSpans C
  unfolding called event_of turn_span
  add_turn_event s turn_id name attributes =
      called s (event_of (turn_span s turn_id) name attributes)

  usage_of : Option ℕ → Attributes → List (SpanCall C)
  usage_of span [] = []
  usage_of none (a ∷ attributes) = []
  usage_of (some span) (a ∷ attributes) = sets_attributes span (a ∷ attributes) ∷ []

  pub record_usage : SessionSpans C → String → ContextUsage → SessionSpans C
  unfolding called usage_of field_of number_of
  record_usage s turn_id usage = called s (
      usage_of (get turn_id s.turns) (
        field_of "openma.acp.context_used" (number_of usage.used)
        ++ (field_of "openma.acp.context_size" (number_of usage.size)
            ++ field_of "openma.acp.cost_amount" (number_of usage.cost_amount))))

  parent_of : Option ℕ → Parent C
  parent_of none = active
  parent_of (some span) = child_of span

  pub begin_tool : SessionSpans C → String → ToolCallInfo → SessionSpans C
  unfolding start_span is_some
  begin_tool s turn_id tool =
      if is_some (get tool.tool_call_id s.tools)
      then s
      else record (start_span s "execute_tool"
          (spread (spread (("gen_ai.operation.name", text "execute_tool") ∷ []) (attributes_of s)) (
            ("openma.turn_id", text turn_id)
            ∷ ("gen_ai.tool.call.id", text tool.tool_call_id)
            ∷ (field_of "gen_ai.tool.name" (text_of tool.name)
                ++ field_of "openma.acp.tool_kind" (text_of tool.kind))))
          (parent_of (get turn_id s.turns))) {
            tools =
                set tool.tool_call_id (record { span = s.started; parent_turn_id = turn_id })
                  s.tools;
          }

  -- `completed` is whether the outcome is "completed".
  pub end_tool : SessionSpans C → String → Bool → SessionSpans C
  unfolding called
  end_tool s tool_call_id completed = elim (get tool_call_id s.tools) [
    | none ↦ s
    | some tool ↦ record (called s (finish tool.span (tool_outcome completed))) {
      tools = delete tool_call_id s.tools;
    }
  ]

  pub finish_tools : List (String × OpenTool) → String → List (SpanCall C)
  finish_tools [] reason = []
  finish_tools ((id, tool) ∷ tools) reason =
      finish tool.span (unset reason) ++ finish_tools tools reason

  close_create_agent : SessionSpans C → String → SessionSpans C
  unfolding called
  close_create_agent s reason = elim s.create_agent [
    | none ↦ s
    | some span ↦ record (called s (finish span (unset reason))) { create_agent = none }
  ]

  pub close_all : SessionSpans C → String → SessionSpans C
  unfolding called close_create_agent end_turn
  close_all s reason =
      let tools_closed = record (called s (finish_tools s.tools reason)) { tools = [] } in
      close_create_agent (end_turn tools_closed none (unset reason) none) reason
