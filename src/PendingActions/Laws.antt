-- ===== src/PendingActions/Laws.antt =====
-- src/session-events/pending-actions.ts: which tool calls are pending, said by the events alone.
use openma_common.Common.{
  if_pos, if_neg, String, Bool, true, false, ◌||◌, Option, none, some, List, [], ◌∷◌, ◌++◌, ite,
  if◌then◌else◌, String_discrete, ◌≡◌, refl, arith,
}
use openma_common.Common.Json.{Fields}
use openma_common.Common.Maps.{
  add, get, has, add_all, get-set, has-add, has-add_all, UniqueKeys, set-UniqueKeys,
  delete-UniqueKeys,
}
use openma_common.PendingActions.{
  PendingManagedAction, tool_id, Request, keeps, forgets, asks, tool_result_id, custom_result_id,
  Walk, note_tool, note_request, note_resolved, walk_event, walk_events, flat_values, action_of,
  prepend, actions_of, derived_actions,
}

-- The first of two values that is there.
abbrev pub or_else {ℓ} : {A : Type ℓ} → Option A → Option A → Option A
or_else none b = b
or_else (some a) b = some a

abbrev pub is_id : Option String → String → Bool
is_id none id = false
is_id (some k) id = ite (String_discrete k id) true false

-- The last event that uses the tool with an id.
abbrev pub last_tool : String → List Fields → Option Fields
last_tool id [] = none
last_tool id (event ∷ events) =
    or_else (last_tool id events) (if is_id (tool_id event) id then some event else none)

-- Whether an event resolves an id.
abbrev pub is_resolved : String → List Fields → Bool
is_resolved id [] = false
is_resolved id (event ∷ events) =
    let later = is_resolved id events in
    (is_id (tool_result_id event) id || is_id (custom_result_id event) id) || later

get-note_tool :
    (o : Option String) (event : Fields) (tools : List (String × Fields)) (id : String)
    → get id (note_tool o event tools) ≡ (if is_id o id then some event else get id tools)
unfolding note_tool
get-note_tool none event tools id = refl
get-note_tool (some k) event tools id = ground (arith, get-set k id event tools)

walk-tools :
    (w : Walk) (events : List Fields) (id : String)
    → get id (walk_events w events).tools ≡ or_else (last_tool id events) (get id w.tools)
unfolding walk_events walk_event
walk-tools w [] id = refl
walk-tools w (event ∷ events) id = ground (
  arith,
  walk-tools (walk_event w event) events id,
  get-note_tool (tool_id event) event w.tools id,
)

has-note_resolved :
    (o : Option String) (resolved : List String) (id : String)
    → has id (note_resolved o resolved) ≡ (is_id o id || has id resolved)
unfolding note_resolved
has-note_resolved none resolved id = refl
has-note_resolved (some k) resolved id = ground (arith, has-add k id resolved)

walk-resolved :
    (w : Walk) (events : List Fields) (id : String)
    → has id (walk_events w events).resolved ≡ (is_resolved id events || has id w.resolved)
unfolding walk_events walk_event
walk-resolved w [] id = refl
walk-resolved w (event ∷ events) id = ground (
  arith,
  walk-resolved (walk_event w event) events id,
  has-note_resolved (custom_result_id event) (note_resolved (tool_result_id event) w.resolved) id,
  has-note_resolved (tool_result_id event) w.resolved id,
)

pub note_request-UniqueKeys :
    (r : Request) (thread : String) (requested : List (String × List String))
    → UniqueKeys requested
    → UniqueKeys (note_request r thread requested)
unfolding note_request
note_request-UniqueKeys keeps thread requested u = u
note_request-UniqueKeys forgets thread requested u = delete-UniqueKeys thread requested u
note_request-UniqueKeys (asks ids) thread requested u = set-UniqueKeys thread ids requested u

-- The actions of an id.
abbrev pub with_id : String → List PendingManagedAction → List PendingManagedAction
with_id id [] = []
with_id id (a ∷ actions) =
    let others = with_id id actions in ite (String_discrete a.id id) (a ∷ others) others

with_id-prepend :
    (k id : String) (resolved : Bool) (tool : Option Fields) (actions : List PendingManagedAction)
    → with_id id (prepend (action_of k resolved tool) actions) ≡ (
        let others = with_id id actions in
        ite (String_discrete k id) (prepend (action_of k resolved tool) others) others)
unfolding prepend action_of
with_id-prepend k id resolved none actions = ground arith
with_id-prepend k id true (some event) actions = ground arith
with_id-prepend k id false (some event) actions = ground arith

-- No text stands twice in a list.
abbrev IsDistinct : List String → Type 0
IsDistinct [] = Unit
IsDistinct (k ∷ ks) = (has k ks ≡ false) × IsDistinct ks

add-IsDistinct : (k : String) (s : List String) → IsDistinct s → IsDistinct (add k s)
unfolding add has
add-IsDistinct k [] d = (refl, tt)
add-IsDistinct k (j ∷ s) d = elim (String_discrete j k) [
  | yes same ↦ rw (if_pos (String_discrete j k) same) d
  | no n ↦
      rw (if_neg (String_discrete j k) n)
        (ground (arith, has-add k j s, d.0, n), add-IsDistinct k s d.1)
]

add_all-IsDistinct : (ks s : List String) → IsDistinct s → IsDistinct (add_all ks s)
unfolding add_all
add_all-IsDistinct [] s d = d
add_all-IsDistinct (k ∷ ks) s d = add_all-IsDistinct ks (add k s) (add-IsDistinct k s d)

with_id-actions :
    (w : Walk) (ids : List String) (id : String)
    → IsDistinct ids
    → with_id id (actions_of w ids)
      ≡ (if has id ids then prepend (action_of id (has id w.resolved) (get id w.tools)) [] else [])
unfolding actions_of has
with_id-actions w [] id d = refl
with_id-actions w (k ∷ ids) id d = ground (
  arith,
  d.0,
  with_id-actions w ids id d.1,
  with_id-prepend k id (has k w.resolved) (get k w.tools) (actions_of w ids),
)

-- Whether some thread's request has the id.
abbrev pub is_asked : String → List (String × List String) → Bool
is_asked id [] = false
is_asked id ((thread, ids) ∷ requested) = let others = is_asked id requested in has id ids || others

has-append : (id : String) (ks js : List String) → has id (ks ++ js) ≡ (has id ks || has id js)
unfolding has
has-append id [] js = refl
has-append id (k ∷ ks) js = ground (arith, has-append id ks js)

has-flat_values :
    (id : String) (requested : List (String × List String))
    → has id (flat_values requested) ≡ is_asked id requested
unfolding flat_values has
has-flat_values id [] = refl
has-flat_values id ((thread, ids) ∷ requested) =
    ground (arith, has-append id ids (flat_values requested), has-flat_values id requested)

abbrev start : Walk
start = record { tools = []; requested = []; resolved = [] }

-- The requests that stand after the events, by thread.
abbrev pub requests : List Fields → List (String × List String)
requests events = (walk_events start events).requested

or-false : (b : Bool) → (b || false) ≡ b
or-false true = refl
or-false false = refl

or_else-none {ℓ} : {A : Type ℓ} (o : Option A) → or_else o none ≡ o
or_else-none none = refl
or_else-none (some a) = refl

-- The actions of an id, by the requests that stand in the walk, the last tool use and the results.
pub found_by_walk :
    (events : List Fields) (id : String)
    → with_id id (derived_actions events) ≡ (
        if is_asked id (requests events)
        then prepend (action_of id (is_resolved id events) (last_tool id events)) []
        else [])
unfolding derived_actions get has
found_by_walk events id =
    let w = walk_events start events in
    let ids = add_all (flat_values w.requested) [] in
    rw (with_id-actions w ids id (add_all-IsDistinct (flat_values w.requested) [] tt)) (
      rw (has-add_all (flat_values w.requested) id []) (
        rw (has-flat_values id w.requested) (
          rw (walk-resolved start events id) (
            rw (walk-tools start events id) (
              rw (or-false (is_resolved id events))
                (rw (or_else-none (last_tool id events)) refl))))))
