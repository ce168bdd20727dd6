-- ===== src/PendingActions/Exact.antt =====
-- src/session-events/pending-actions.ts: the derived actions, said by the events alone.
use openma_common.Common.{
  String, Bool, true, false, ◌&&◌, ◌||◌, not, Option, none, some, List, [], ◌∷◌, if◌then◌else◌, ◌≡◌,
  refl, arith, ◌∙◌,
}
use openma_common.Common.Json.{Fields}
use openma_common.Common.Maps.{UniqueKeys}
use openma_common.PendingActions.{
  tool_id, tool_result_id, custom_result_id, action_of, prepend, action_kind, derived_actions,
}
use openma_common.PendingActions.Laws.{
  is_id, is_asked, is_resolved, last_tool, with_id, requests, found_by_walk,
}
use openma_common.PendingActions.Spec.{
  is_requested, uses_tool, last_use, answers, is_answered, waiting,
}
use openma_common.PendingActions.Requests.{walk-requested, is_type-has_type}

is_id-tool_id : (event : Fields) (id : String) → is_id (tool_id event) id ≡ uses_tool id event
unfolding tool_id
is_id-tool_id event id = ground (
  arith,
  is_type-has_type event "agent.tool_use",
  is_type-has_type event "agent.mcp_tool_use",
  is_type-has_type event "agent.custom_tool_use",
)

last_tool-last_use : (id : String) (events : List Fields) → last_tool id events ≡ last_use id events
last_tool-last_use id [] = refl
last_tool-last_use id (event ∷ events) =
    rw (last_tool-last_use id events, is_id-tool_id event id) refl

is_id-answers :
    (event : Fields) (id : String)
    → (is_id (tool_result_id event) id || is_id (custom_result_id event) id) ≡ answers id event
unfolding tool_result_id custom_result_id
is_id-answers event id = ground (
  arith,
  is_type-has_type event "user.tool_confirmation",
  is_type-has_type event "agent.tool_result",
  is_type-has_type event "agent.mcp_tool_result",
  is_type-has_type event "user.custom_tool_result",
)

is_resolved-is_answered :
    (id : String) (events : List Fields) → is_resolved id events ≡ is_answered id events
is_resolved-is_answered id [] = refl
is_resolved-is_answered id (event ∷ events) =
    rw (is_resolved-is_answered id events, is_id-answers event id) refl

is_asked-is_requested :
    (events : List Fields) (id : String) → is_asked id (requests events) ≡ is_requested id events
unfolding UniqueKeys
is_asked-is_requested events id =
    ground
      (arith, walk-requested (record { tools = []; requested = []; resolved = [] }) events id tt)

action_of-waiting :
    (id : String) (is_asked is_done : Bool) (o : Option Fields)
    → (if is_asked then prepend (action_of id is_done o) [] else [])
      ≡ (if is_asked && not is_done then waiting id o else [])
unfolding action_of action_kind prepend
action_of-waiting id false is_done o = refl
action_of-waiting id true true none = refl
action_of-waiting id true true (some event) = refl
action_of-waiting id true false none = refl
action_of-waiting id true false (some event) =
    rw (is_type-has_type event "agent.custom_tool_use") refl

-- There is a derived action with an id exactly where some idle event requires an action and lists
-- the id and no later event of its thread is a running, terminated or idle one, some event uses a
-- tool with that id, and no event confirms that use or is its result. Then there is exactly one, it
-- holds the last such use, and its kind is a custom result where that use is of a custom tool and a
-- confirmation otherwise.
pub pending_exact :
    (events : List Fields) (id : String)
    → with_id id (derived_actions events) ≡ (
        if is_requested id events && not (is_answered id events)
        then waiting id (last_use id events)
        else [])
pending_exact events id =
    found_by_walk events id
    ∙ action_of-waiting id (is_asked id (requests events)) (is_resolved id events)
        (last_tool id events)
    ∙ rw
        (
          is_asked-is_requested events id,
          is_resolved-is_answered id events,
          last_tool-last_use id events,
        )
        refl
