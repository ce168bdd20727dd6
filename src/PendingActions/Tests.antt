-- ===== src/PendingActions/Tests.antt =====
-- Pending actions of a concrete log: one of two asked tool calls has its result.
use openma_common.Common.{
  String, true, false, List, [], ◌∷◌, ◌≡◌, refl, non_empty, if◌then◌else◌, ◌&&◌, not,
  String_discrete,
}
use openma_common.Common.Json.{
  Fields, field, end, str, obj, arr, cons, nil, text_at, truthy_text_at, property, fields_of,
}
use openma_common.Common.Maps.{get, set, has}
use openma_common.PendingActions.{
  derived_actions, action_of, PendingManagedAction, request_of, asked_ids, tool_id,
  custom_result_id, tool_result_id, event_thread_id,
}
use openma_common.PendingActions.Laws.{with_id}
use openma_common.PendingActions.Spec.{is_requested, is_answered, waiting, last_use}
use openma_common.PendingActions.Exact.{pending_exact}

abbrev tool_use : String → Fields
tool_use id = field "type" (str "agent.tool_use") (field "id" (str id) end)

abbrev log : List Fields
log =
    tool_use "u1"
    ∷ tool_use "u2"
    ∷ field "type" (str "session.status_idle") (
        field "stop_reason"
          (obj (
            field "type" (str "requires_action")
              (field "event_ids" (arr (cons (str "u1") (cons (str "u2") nil))) end)))
          end)
    ∷ field "type" (str "agent.tool_result") (field "tool_use_id" (str "u1") end)
    ∷ []

pending_exact_example : with_id "u2" (derived_actions log) ≡ (
    if is_requested "u2" log && not (is_answered "u2" log)
    then waiting "u2" (last_use "u2" log)
    else [])
pending_exact_example = pending_exact log "u2"

abbrev ids : List PendingManagedAction → List String
ids [] = []
ids (a ∷ actions) = a.id ∷ ids actions

one_left : ids (derived_actions log) ≡ "u2" ∷ []
unfolding derived_actions request_of text_at String_discrete set asked_ids action_of get tool_id
    truthy_text_at non_empty has custom_result_id tool_result_id
one_left = refl

-- The specification at the log: the answered call is not pending, the other one is.
specified :
    (is_requested "u1" log ≡ true)
    × ((is_answered "u1" log ≡ true)
        × ((is_requested "u2" log ≡ true) × (is_answered "u2" log ≡ false)))
unfolding String_discrete text_at truthy_text_at non_empty property fields_of event_thread_id
specified = (refl, (refl, (refl, refl)))
