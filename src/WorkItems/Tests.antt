-- ===== src/WorkItems/Tests.antt =====
-- The work items' theorems at concrete events.
use mathlib.Core.List.{Perm}
use openma_common.Common.{
  ℕ, String, Option, none, some, [], ◌∷◌, ◌≡◌, refl, String_discrete, non_empty,
}
use openma_common.Common.Json.{str}
use openma_common.Common.Maps.{get, set, has, add}
use openma_common.WorkItems.{
  OpenmaEvent, Payload, bash, other, ended, failed, started, output, fails, reidentified, created,
  update_item, apply_work_item_event, WorkItemSnapshot,
}
use openma_common.WorkItems.Laws.{status_at, outputs_at, reidentify_self}
use openma_common.WorkItems.Registry.{
  WorkItemRegistry, create_work_item_registry, order_work_item_events, reduce_work_items,
  reduce_work_item_event,
}
use openma_common.WorkItems.Registry.Order.{IsSequenced, order_sorts}
use openma_common.WorkItems.Registry.Terminal.{reduce_all, ended-Stays}
use openma_common.WorkItems.Projector.{create_work_item_projector, snapshot}
use openma_common.WorkItems.Projector.Equivalence.{feeds, reads, run, snapshot_exact}

abbrev event : String → Option ℕ → Payload → OpenmaEvent
event id seq payload = record {
  event_id = id;
  work_item_id = some "w1";
  occurred_at = "noon";
  seq = seq;
  payload = payload;
}

abbrev starts : OpenmaEvent
starts = event "e1" (some 1) (started bash (some "build"))

abbrev prints : OpenmaEvent
prints = event "e2" (some 2) (output (str "hello"))

abbrev breaks : OpenmaEvent
breaks = event "e3" (some 3) (
    fails (record {
      kind = some other;
      title = none;
      error = some "exit 1";
      reason = none;
      result = none;
    }))

abbrev late : OpenmaEvent
late = event "e4" none (started bash none)

snapshot_exact_example :
    (snapshot (
      run create_work_item_projector
        (feeds prints ∷ reads ∷ feeds starts ∷ feeds late ∷ reads ∷ feeds prints ∷ []))).1
    ≡ reduce_work_items (prints ∷ starts ∷ late ∷ [])
unfolding String_discrete
snapshot_exact_example =
    snapshot_exact (feeds prints ∷ reads ∷ feeds starts ∷ feeds late ∷ reads ∷ feeds prints ∷ [])

order_sorts_example :
    Perm (order_work_item_events (late ∷ prints ∷ starts ∷ [])) (late ∷ prints ∷ starts ∷ [])
    × IsSequenced (order_work_item_events (late ∷ prints ∷ starts ∷ []))
order_sorts_example = order_sorts (late ∷ prints ∷ starts ∷ [])

abbrev broken : WorkItemRegistry
broken = reduce_all create_work_item_registry (starts ∷ prints ∷ breaks ∷ [])

broken_status : status_at "w1" broken.items ≡ some (ended failed)
unfolding reduce_all reduce_work_item_event create_work_item_registry apply_work_item_event get set
    has add String_discrete non_empty
broken_status = refl

ended-Stays_example :
    status_at "w1" (reduce_all broken (late ∷ prints ∷ [])).items ≡ some (ended failed)
ended-Stays_example =
    ended-Stays broken (late ∷ prints ∷ []) "w1" failed broken_status (tt, (tt, tt))

abbrev talkative : WorkItemSnapshot
talkative = update_item (created "w1" bash) "noon" (output (str "hello"))

reidentify_self_example :
    outputs_at "w1"
      (apply_work_item_event (("w1", talkative) ∷ []) (event "e5" none (reidentified "w1")))
    ≡ some (str "hello" ∷ str "hello" ∷ [])
unfolding get String_discrete non_empty update_item created
reidentify_self_example =
    reidentify_self (("w1", talkative) ∷ []) "w1" "e5" "noon" none talkative refl refl
