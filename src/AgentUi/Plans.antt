-- ===== src/AgentUi/Plans.antt =====
-- src/agent-ui/index.ts: what an event does to the plans.
use openma_common.Common.{
  String, Bool, true, false, Option, none, some, List, [], ◌∷◌, ◌++◌, ite, if◌then◌else◌, non_empty,
  String_discrete,
}
use openma_common.Common.Maps.{get, set, delete}
use openma_common.AgentUi.{
  over, AgentUiState, AgentUiPlanState, CanonicalPlanEntry, PlanUpdatedData, Event, Body,
  plan_updated, plan_completed, plan_removed,
}
use openma_common.AgentUi.Records.{ordered}

-- order.filter((other) => other !== id)
unfoldable pub without : String → List String → List String
without id [] = []
without id (other ∷ order) =
    let rest = without id order in ite (String_discrete other id) rest (other ∷ rest)

non_empty_or : Option String → Option String → Option String
non_empty_or none other = other
non_empty_or (some t) other = if non_empty t then some t else other

-- { ...merged[index], ...entry }
merge_entry : CanonicalPlanEntry → CanonicalPlanEntry → CanonicalPlanEntry
unfolding over
merge_entry old entry = record {
  id = over entry.id old.id;
  content = entry.content;
  priority = over entry.priority old.priority;
  status = over entry.status old.status;
  adapter_meta = over entry.adapter_meta old.adapter_meta;
}

has_id : Option String → String → Bool
has_id none id = false
has_id (some other) id = ite (String_discrete other id) true false

-- The merge at the first entry with the id, or none if no entry has it.
merge_at : String → CanonicalPlanEntry → List CanonicalPlanEntry → Option (List CanonicalPlanEntry)
unfolding merge_entry has_id
merge_at id entry [] = none
merge_at id entry (old ∷ merged) =
    let rest = merge_at id entry merged in
    if has_id old.id id
    then some (merge_entry old entry ∷ merged)
    else elim rest [ none ↦ none | some tail ↦ some (old ∷ tail) ]

or_append :
    List CanonicalPlanEntry
    → CanonicalPlanEntry
    → Option (List CanonicalPlanEntry)
    → List CanonicalPlanEntry
or_append merged entry none = merged ++ entry ∷ []
or_append merged entry (some found) = found

merge_one : List CanonicalPlanEntry → CanonicalPlanEntry → Option String → List CanonicalPlanEntry
unfolding merge_at or_append
merge_one merged entry none = merged ++ entry ∷ []
merge_one merged entry (some id) =
    if non_empty id then or_append merged entry (merge_at id entry merged) else merged ++ entry ∷ []

pub merge_plan_entries : List CanonicalPlanEntry → List CanonicalPlanEntry → List CanonicalPlanEntry
unfolding merge_one
merge_plan_entries merged [] = merged
merge_plan_entries merged (entry ∷ incoming) =
    merge_plan_entries (merge_one merged entry entry.id) incoming

or_no_entries : Option (List CanonicalPlanEntry) → List CanonicalPlanEntry
or_no_entries none = []
or_no_entries (some entries) = entries

entries_after : Bool → Option AgentUiPlanState → List CanonicalPlanEntry → List CanonicalPlanEntry
entries_after true (some previous) incoming = merge_plan_entries previous.entries incoming
entries_after _ _ incoming = incoming

unfoldable pub update_plan : AgentUiState → String → PlanUpdatedData → AgentUiState
unfolding entries_after or_no_entries
update_plan state id data_ = elim data_.representation [
  | none ↦ state
  | some representation ↦ record state {
    plans =
        set id
          (record {
            id = id;
            representation = representation;
            is_completed = false;
            entries =
                entries_after data_.is_merge (get id state.plans) (or_no_entries data_.entries);
          })
          state.plans;
    plan_order = ordered id state.plan_order;
  }
]

unfoldable pub complete_plan : AgentUiState → String → AgentUiState
complete_plan state id = elim (get id state.plans) [
  | none ↦ state
  | some previous ↦ record state {
    plans = set id (record previous { is_completed = true }) state.plans;
  }
]

unfoldable pub remove_plan : AgentUiState → String → AgentUiState
unfolding without
remove_plan state id = record state {
  plans = delete id state.plans;
  plan_order = without id state.plan_order;
}

-- A plan's change, by the id of the plan, if it has a non-empty one.
unfoldable pub with_plan : AgentUiState → Option String → (String → AgentUiState) → AgentUiState
with_plan state none change = state
with_plan state (some id) change = if non_empty id then change id else state

unfoldable pub plan_projection : Body → Event → AgentUiState → AgentUiState
unfolding with_plan non_empty_or update_plan complete_plan
plan_projection (plan_updated data_) event state =
    with_plan state (non_empty_or data_.plan_id event.turn_id) (λ id. update_plan state id data_)
plan_projection (plan_completed plan_id) event state =
    with_plan state (non_empty_or plan_id event.turn_id) (λ id. complete_plan state id)
plan_projection (plan_removed plan_id) event state =
    with_plan state (non_empty_or plan_id event.turn_id) (λ id. remove_plan state id)
plan_projection _ event state = state

unfoldable pub apply_plan_projection : AgentUiState → Event → AgentUiState
unfolding plan_projection
apply_plan_projection state event = plan_projection event.body event state
