-- ===== src/SemanticRecovery/Prompt/Tests.antt =====
-- The recovery prompt of a short history.
use openma_common.Common.Maps.{set, get}
use openma_common.Common.{
  ◌+◌, ◌≤◌, none, some, List, [], ◌∷◌, length, ◌≡◌, refl, arith, String_discrete,
}
use openma_common.Common.Units.{same, Units, codes, trim, join}
use openma_common.SemanticRecovery.{
  ManagedRecoveryEvent, user_message, agent_message, tool_use, tool_result, plain, text,
  native_state_stale, content_to_text, recovery_lines, without_current_prompt, collect_tool_names,
}
use openma_common.SemanticRecovery.Prompt.{
  build_managed_event_recovery_prompt, max_characters, current_budget, payload_budget, prefix_of,
}
use openma_common.SemanticRecovery.Prompt.Bounds.{limit, recovery_prompt_bounded}

abbrev history : List ManagedRecoveryEvent
history =
    user_message (text (codes "list files") ∷ [])
    ∷ tool_use "t1" (codes "ls")
    ∷ tool_result "t1" (plain (codes "a.ts "))
    ∷ agent_message (text (codes "one file") ∷ [])
    ∷ user_message (text (codes "go on") ∷ [])
    ∷ []

recovery_prompt_bounded_example :
    length
      (build_managed_event_recovery_prompt history (codes "go on") native_state_stale (some 100))
    ≤ limit (some 100)
recovery_prompt_bounded_example =
    recovery_prompt_bounded history (codes "go on") native_state_stale (some 100)

abbrev lines : List Units
lines =
    codes "User: list files" ∷ codes "Completed tool ls: a.ts" ∷ codes "Assistant: one file" ∷ []

history-lines :
    recovery_lines (collect_tool_names history) (without_current_prompt history (codes "go on"))
    ≡ lines
unfolding recovery_lines collect_tool_names without_current_prompt same trim content_to_text get set
    String_discrete
history-lines = refl

current_fits :
    length (trim (codes " go on")) ≤ current_budget lines (payload_budget native_state_stale none)
unfolding trim current_budget payload_budget
current_fits = omega arith

all_fits :
    length (trim (codes " go on")) + length (join lines) ≤ payload_budget native_state_stale none
unfolding trim payload_budget max_characters prefix_of
all_fits = omega arith
