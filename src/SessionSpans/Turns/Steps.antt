-- ===== src/SessionSpans/Turns/Steps.antt =====
-- src/telemetry/session-spans.ts: every call on a session keeps the balance of its spans.
use mathlib.Core.List.{append_assoc}
use openma_common.Common.{
  ℕ, suc, ◌+◌, String, Bool, Option, none, some, List, [], ◌∷◌, ◌++◌, ◌≡◌, refl, arith,
  if◌then◌else◌, ltb, inl, inr, Option-cases, Bool-cases,
}
use openma_common.Common.Maps.{get}
use openma_common.Common.Json.{Number}
use openma_common.SessionSpans.{
  Attributes, SpanOutcome, ok, error, unset, SessionIdentity, ToolCallInfo, ContextUsage, SpanCall,
  sets_attributes, SessionSpans, is_some, finish, new, called, start_span, end_of,
  begin_create_agent, mark_ready, fail_start,
}
use openma_common.SessionSpans.Turns.{
  begin_turn, end_turn, event_of, add_turn_event, usage_of, record_usage, begin_tool, tool_outcome,
  turn_span, end_tool, finish_tools, close_create_agent, close_all,
}
use openma_common.SessionSpans.Turns.Balance.{
  one_if, one_if_some, turn_count-set, tool_count-set, tool_count-delete, end_count,
  end_count-append, end_count-finish, finish_tools-count, open_count, Balanced, end_turn-Balanced,
}

pub data Call (C : Type 0) : Type 0 where
  begins_create_agent : SessionIdentity → Call C
  marks_ready : Option String → Call C
  fails_start : String → Call C
  begins_turn : String → Option Number → Option C → Call C
  ends_turn : Option String → SpanOutcome → Option Attributes → Call C
  adds_turn_event : Option String → String → Option Attributes → Call C
  records_usage : String → ContextUsage → Call C
  begins_tool : String → ToolCallInfo → Call C
  ends_tool : String → Bool → Call C
  closes_all : String → Call C

end_of-count :
    (C : Type 0) (n : ℕ) (o : Option ℕ) → end_count n (end_of {C = C} o) ≡ one_if_some n o
unfolding end_of
end_of-count C n none = refl
end_of-count C n (some m) = omega arith

usage_of-count :
    (C : Type 0) (n : ℕ) (o : Option ℕ) (a : Attributes) → end_count n (usage_of {C = C} o a) ≡ 0
unfolding usage_of
usage_of-count C n o [] = refl
usage_of-count C n none (x ∷ a) = refl
usage_of-count C n (some m) (x ∷ a) = refl

event_of-count :
    (C : Type 0) (n : ℕ) (o : Option ℕ) (name : String) (a : Option Attributes)
    → end_count n (event_of {C = C} o name a) ≡ 0
unfolding event_of
event_of-count C n none name a = refl
event_of-count C n (some m) name a = refl

module _ {C : Type 0} where
  unfoldable pub step : SessionSpans C → Call C → SessionSpans C
  step s (begins_create_agent identity) = begin_create_agent s identity
  step s (marks_ready id) = mark_ready s id
  step s (fails_start error_type) = (fail_start s error_type).0
  step s (begins_turn id chars parent) = begin_turn s id chars parent
  step s (ends_turn id outcome attributes) = end_turn s id outcome attributes
  step s (adds_turn_event id name attributes) = add_turn_event s id name attributes
  step s (records_usage id usage) = record_usage s id usage
  step s (begins_tool id tool) = begin_tool s id tool
  step s (ends_tool id completed) = end_tool s id completed
  step s (closes_all reason) = close_all s reason

  unfoldable pub run : SessionSpans C → List (Call C) → SessionSpans C
  run s [] = s
  run s (c ∷ cs) = run (step s c) cs

  -- Calls that start no span keep the balance if what they end was open and is no longer.
  handed :
      (s : SessionSpans C) (cs : List (SpanCall C)) (o n : ℕ)
      → end_count n cs + o ≡ open_count n s
      → Balanced s
      → end_count n (s.calls ++ cs) + o ≡ (if ltb n s.started then 1 else 0)
  handed s cs o n ended h = omega (arith, h n, ended, end_count-append n s.calls cs)

  -- Calls that start a span keep the balance if that span is now open.
  begun :
      (s : SessionSpans C) (cs : List (SpanCall C)) (o n : ℕ)
      → end_count n cs + o ≡ one_if n s.started + open_count n s
      → Balanced s
      → end_count n (s.calls ++ cs) + o ≡ (if ltb n (suc s.started) then 1 else 0)
  begun s cs o n ended h = ground (arith, h n, ended, end_count-append n s.calls cs)

  begin_create_agent-Balanced :
      (s : SessionSpans C) (i : SessionIdentity) → Balanced s → Balanced (begin_create_agent s i)
  unfolding begin_create_agent called start_span
  begin_create_agent-Balanced s i h n = rw (append_assoc s.calls (end_of s.create_agent)) (
      begun s _ _ n
        (omega (
          arith,
          end_of-count C n s.create_agent,
          end_count-append n (end_of {C = C} s.create_agent),
        ))
        h)

  mark_ready-Balanced :
      (s : SessionSpans C) (id : Option String) → Balanced s → Balanced (mark_ready s id)
  unfolding mark_ready called
  mark_ready-Balanced s id h n = elim (Option-cases s.create_agent) [
    | inl no_start ↦ rw (no_start, mark_ready) (h n)
    | inr (span, start) ↦
        rw (start, mark_ready)
          (handed s (sets_attributes span _ ∷ finish span ok) _ n
            (rw start (omega (arith, end_count-finish C n span ok))) h)
  ]

  fail_start-Balanced : (s : SessionSpans C) (t : String) → Balanced s → Balanced (fail_start s t).0
  unfolding fail_start called
  fail_start-Balanced s t h n = elim (Option-cases s.create_agent) [
    | inl no_start ↦ rw (no_start, fail_start) (h n)
    | inr (span, start) ↦
        rw (start, fail_start)
          (handed s (finish span (error t)) _ n
            (rw start (omega (arith, end_count-finish C n span (error t)))) h)
  ]

  begin_turn-Balanced :
      (s : SessionSpans C) (id : String) (chars : Option Number) (parent : Option C)
      → Balanced s
      → Balanced (begin_turn s id chars parent)
  unfolding begin_turn start_span
  begin_turn-Balanced s id chars parent h n = elim (Bool-cases (is_some (get id s.turns))) [
    | inl is_open ↦ rw (is_open, begin_turn) (h n)
    | inr new_turn ↦
        rw (new_turn, begin_turn)
          (begun s _ _ n (omega (arith, turn_count-set n s.started id s.turns new_turn)) h)
  ]

  add_turn_event-Balanced :
      (s : SessionSpans C) (id : Option String) (name : String) (a : Option Attributes)
      → Balanced s
      → Balanced (add_turn_event s id name a)
  unfolding add_turn_event called
  add_turn_event-Balanced s id name a h n =
      handed s (event_of (turn_span s id) name a) _ n
        (omega (arith, event_of-count C n (turn_span s id) name a)) h

  record_usage-Balanced :
      (s : SessionSpans C) (id : String) (usage : ContextUsage)
      → Balanced s
      → Balanced (record_usage s id usage)
  unfolding record_usage called
  record_usage-Balanced s id usage h n =
      handed s (usage_of (get id s.turns) _) _ n
        (omega (arith, usage_of-count C n (get id s.turns) _)) h

  begin_tool-Balanced :
      (s : SessionSpans C) (id : String) (tool : ToolCallInfo)
      → Balanced s
      → Balanced (begin_tool s id tool)
  unfolding begin_tool start_span
  begin_tool-Balanced s id tool h n = elim (Bool-cases (is_some (get tool.tool_call_id s.tools))) [
    | inl is_open ↦ rw (is_open, begin_tool) (h n)
    | inr new_tool ↦
        rw (new_tool, begin_tool)
          (begun s _ _ n
            (omega (
              arith,
              tool_count-set n (record { span = s.started; parent_turn_id = id }) tool.tool_call_id
                  s.tools new_tool,
            ))
            h)
  ]

  end_tool-Balanced :
      (s : SessionSpans C) (id : String) (completed : Bool)
      → Balanced s
      → Balanced (end_tool s id completed)
  unfolding end_tool called
  end_tool-Balanced s id completed h n = elim (Option-cases (get id s.tools)) [
    | inl no_tool ↦ rw (no_tool, end_tool) (h n)
    | inr (tool, is_open) ↦
        rw (is_open, end_tool)
          (handed s (finish tool.span (tool_outcome completed)) _ n
            (omega (
              arith,
              end_count-finish C n tool.span (tool_outcome completed),
              tool_count-delete n tool id s.tools is_open,
            ))
            h)
  ]

  close_create_agent-Balanced :
      (s : SessionSpans C) (reason : String) → Balanced s → Balanced (close_create_agent s reason)
  unfolding close_create_agent called
  close_create_agent-Balanced s reason h n = elim (Option-cases s.create_agent) [
    | inl no_start ↦ rw (no_start, close_create_agent) (h n)
    | inr (span, start) ↦
        rw (start, close_create_agent)
          (handed s (finish span (unset reason)) _ n
            (rw start (omega (arith, end_count-finish C n span (unset reason)))) h)
  ]

  pub close_all-Balanced :
      (s : SessionSpans C) (reason : String) → Balanced s → Balanced (close_all s reason)
  unfolding close_all called
  close_all-Balanced s reason h = close_create_agent-Balanced _ reason (
      end_turn-Balanced _ none (unset reason) none (λ n. omega (
        arith,
        h n,
        end_count-append n s.calls (finish_tools s.tools reason),
        finish_tools-count C n s.tools reason,
      )))

  step-Balanced : (s : SessionSpans C) (c : Call C) → Balanced s → Balanced (step s c)
  unfolding step
  step-Balanced s (begins_create_agent i) h = begin_create_agent-Balanced s i h
  step-Balanced s (marks_ready id) h = mark_ready-Balanced s id h
  step-Balanced s (fails_start t) h = fail_start-Balanced s t h
  step-Balanced s (begins_turn id chars parent) h = begin_turn-Balanced s id chars parent h
  step-Balanced s (ends_turn id outcome a) h = end_turn-Balanced s id outcome a h
  step-Balanced s (adds_turn_event id name a) h = add_turn_event-Balanced s id name a h
  step-Balanced s (records_usage id usage) h = record_usage-Balanced s id usage h
  step-Balanced s (begins_tool id tool) h = begin_tool-Balanced s id tool h
  step-Balanced s (ends_tool id completed) h = end_tool-Balanced s id completed h
  step-Balanced s (closes_all reason) h = close_all-Balanced s reason h

  pub run-Balanced : (s : SessionSpans C) (cs : List (Call C)) → Balanced s → Balanced (run s cs)
  unfolding run
  run-Balanced s [] h = h
  run-Balanced s (c ∷ cs) h = run-Balanced (step s c) cs (step-Balanced s c h)

  pub new-Balanced :
      (s : SessionSpans C) (id : String) (i : SessionIdentity) → s ≡ new id i → Balanced s
  unfolding new
  new-Balanced s id i e n = rw e (ground arith)
