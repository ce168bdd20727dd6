-- ===== src/SessionSpans/Turns/Tests.antt =====
-- The spans of a concrete session: its agent starts, a turn runs a tool, and the session is closed.
use openma_common.Common.{
  ℕ, none, some, List, [], ◌∷◌, ◌≡◌, refl, if◌then◌else◌, ltb, String_discrete,
}
use openma_common.Common.Maps.{get, set}
use openma_common.SessionSpans.{SessionSpans, SessionIdentity, new}
use openma_common.SessionSpans.{mark_ready, begin_create_agent}
use openma_common.SessionSpans.Turns.{begin_tool, close_all, begin_turn}
use openma_common.SessionSpans.Turns.Balance.{end_count}
use openma_common.SessionSpans.Turns.Steps.{
  Call, begins_create_agent, marks_ready, begins_turn, begins_tool, run, step,
}
use openma_common.SessionSpans.Turns.Closed.{IsClosed, close_all_exact}

abbrev agent : SessionIdentity
agent = record { agent_name = "codex"; attributes = [] }

abbrev started_session : SessionSpans ℕ
started_session = new "s1" agent

abbrev tool_runs : List (Call ℕ)
tool_runs =
    begins_create_agent agent
    ∷ marks_ready (some "a1")
    ∷ begins_turn "t1" none (some 7)
    ∷ begins_tool "t1" (record { tool_call_id = "c1"; name = none; kind = none })
    ∷ []

abbrev running_session : SessionSpans ℕ
running_session = run started_session tool_runs

close_all_exact_example :
    IsClosed (close_all running_session "disposed")
    × (end_count 1 (close_all running_session "disposed").calls
        ≡ (if ltb 1 (close_all running_session "disposed").started then 1 else 0))
close_all_exact_example = close_all_exact "s1" agent tool_runs "disposed" 1

turn_is_open : get "t1" running_session.turns ≡ some 1
unfolding run begin_turn get step begin_tool mark_ready begin_create_agent new set String_discrete
turn_is_open = refl
