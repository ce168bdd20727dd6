-- ===== src/AgentUi/Records/Keys.antt =====
-- src/agent-ui/index.ts: the orders of the records are the keys of their maps.
use openma_common.Common.{
  String, Bool, true, false, Option, none, some, List, [], ◌∷◌, ◌≡◌, refl, sym, ap, ◌∙◌, arith, inl,
  inr, if◌then◌else◌, Bool-cases, Option-cases, String_discrete, if_pos, if_neg, non_empty,
}
use openma_common.Common.Maps.{
  get, set, delete, has, add, has-add, UniqueKeys, set-UniqueKeys, delete-UniqueKeys,
}
use openma_common.Common.Keys.{keys, keys-set, add-keys, has-keys, keys_absent}
use openma_common.WorkItems.{Items}
use openma_common.AgentUi.{
  AgentUiState, PlanUpdatedData, CallbackStatus, CallbackLifecycleData, Event, Body, plan_updated,
  plan_completed, plan_removed, callback, outcome,
}
use openma_common.AgentUi.Records.{
  keep_present, add_ids, reduced_items, work_items_of, apply_work_item_projection,
}
use openma_common.AgentUi.Plans.{
  without, plan_projection, apply_plan_projection, with_plan, update_plan, complete_plan,
  remove_plan,
}
use openma_common.AgentUi.Requests.{
  callback_projection, apply_callback_projection, outcome_projection, apply_outcome_projection,
  with_callback, put_callback, put_outcome,
}

without_absent : (k : String) (order : List String) → has k order ≡ false → without k order ≡ order
unfolding without has
without_absent k [] h = refl
without_absent k (j ∷ order) h = ground (arith, without_absent k order)

keys-delete :
    {V : Type 0} (k : String) (m : List (String × V))
    → UniqueKeys m
    → keys (delete k m) ≡ without k (keys m)
unfolding keys delete without UniqueKeys
keys-delete k [] u = refl
keys-delete k ((j, v) ∷ m) u = elim (String_discrete j k) [
  | yes e ↦
      rw (if_pos (String_discrete j k) e, if_pos (String_discrete j k) e)
        (sym (without_absent k (keys m) (keys_absent k m (ap (λ t. get t m) (sym e) ∙ u.0))))
  | no n ↦
      rw (if_neg (String_discrete j k) n, if_neg (String_discrete j k) n)
        (ap (λ t. j ∷ t) (keys-delete k m u.1))
]

has-keep_present :
    (id : String) (order : List String) (items : Items)
    → has id (keep_present order items) ≡ true
    → has id (keys items) ≡ true
unfolding keep_present has
has-keep_present id [] items h = ground arith
has-keep_present id (j ∷ order) items h = elim (Option-cases (get j items)) [
  | inl e ↦ ground (arith, e, has-keep_present id order items)
  | inr (item, e) ↦ ground (arith, e, has-keys j item items e, has-keep_present id order items)
]

has-add_ids :
    (id : String) (items : Items) (order : List String)
    → has id (add_ids items order) ≡ (if has id order then true else has id (keys items))
unfolding add_ids has keys
has-add_ids id [] order = ground arith
has-add_ids id ((j, item) ∷ items) order =
    ground (arith, has-add_ids id items (add j order), has-add j id order)

keys-work_items_of : (items : Items) → keys (work_items_of items) ≡ keys items
unfolding work_items_of keys
keys-work_items_of [] = refl
keys-work_items_of ((id, item) ∷ items) = ap (λ t. id ∷ t) (keys-work_items_of items)

all_there : (a b : Bool) → (a ≡ true → b ≡ true) → (if a then true else b) ≡ b
all_there true b h = sym (h refl)
all_there false b h = refl

-- The order of each map's records is the order of its keys; that of the work items has the same ids.
pub record Ordered (state : AgentUiState) : Type 0 where
  pub plans_unique : UniqueKeys state.plans
  pub plans : keys state.plans ≡ state.plan_order
  pub callbacks : keys state.callbacks ≡ state.callback_order
  pub outcomes : keys state.outcomes ≡ state.outcome_order
  pub work_items : (id : String) → has id state.work_item_order ≡ has id (keys state.work_items)

keys-set_ordered :
    {V : Type 0} (k : String) (v : V) (m : List (String × V)) (order : List String)
    → keys m ≡ order
    → keys (set k v m) ≡ add k order
keys-set_ordered k v m order e = keys-set k v m ∙ ap (add k) e

work_items-Ordered :
    (state : AgentUiState) (event : Event)
    → Ordered state
    → Ordered (apply_work_item_projection state event)
unfolding apply_work_item_projection
work_items-Ordered state event o = record {
  plans_unique = o.plans_unique;
  plans = o.plans;
  callbacks = o.callbacks;
  outcomes = o.outcomes;
  work_items = λ id.
      let reduced = reduced_items state event in
      has-add_ids id reduced (keep_present state.work_item_order reduced)
      ∙ all_there (has id (keep_present state.work_item_order reduced)) (has id (keys reduced))
          (has-keep_present id state.work_item_order reduced)
      ∙ ap (has id) (sym (keys-work_items_of reduced));
}

update_plan-Ordered :
    (state : AgentUiState) (id : String) (data_ : PlanUpdatedData)
    → Ordered state
    → Ordered (update_plan state id data_)
unfolding update_plan
update_plan-Ordered state id data_ o = elim (Option-cases data_.representation) [
  | inl e ↦ rw (e, update_plan) o
  | inr (r, e) ↦
      rw (e, update_plan)
        (record {
          plans_unique = set-UniqueKeys id _ state.plans o.plans_unique;
          plans = keys-set_ordered id _ state.plans state.plan_order o.plans;
          callbacks = o.callbacks;
          outcomes = o.outcomes;
          work_items = o.work_items;
        })
]

complete_plan-Ordered :
    (state : AgentUiState) (id : String) → Ordered state → Ordered (complete_plan state id)
unfolding complete_plan
complete_plan-Ordered state id o = elim (Option-cases (get id state.plans)) [
  | inl e ↦ rw (e, complete_plan) o
  | inr (previous, e) ↦
      rw (e, complete_plan)
        (record {
          plans_unique = set-UniqueKeys id _ state.plans o.plans_unique;
          plans = keys-set id _ state.plans ∙ add-keys id previous state.plans e ∙ o.plans;
          callbacks = o.callbacks;
          outcomes = o.outcomes;
          work_items = o.work_items;
        })
]

remove_plan-Ordered :
    (state : AgentUiState) (id : String) → Ordered state → Ordered (remove_plan state id)
unfolding remove_plan
remove_plan-Ordered state id o = record {
  plans_unique = delete-UniqueKeys id state.plans o.plans_unique;
  plans = keys-delete id state.plans o.plans_unique ∙ ap (without id) o.plans;
  callbacks = o.callbacks;
  outcomes = o.outcomes;
  work_items = o.work_items;
}

with_plan-Ordered :
    (state : AgentUiState) (id : Option String) (change : String → AgentUiState)
    → Ordered state
    → ((t : String) → Ordered (change t))
    → Ordered (with_plan state id change)
unfolding with_plan
with_plan-Ordered state none change o c = o
with_plan-Ordered state (some id) change o c = elim (Bool-cases (non_empty id)) [
  | inl e ↦ rw (e, if◌then◌else◌) (c id)
  | inr e ↦ rw (e, if◌then◌else◌) o
]

plans-Ordered :
    (body : Body) (event : Event) (state : AgentUiState)
    → Ordered state
    → Ordered (plan_projection body event state)
unfolding plan_projection
plans-Ordered (plan_updated data_) event state o =
    with_plan-Ordered state _ (λ id. update_plan state id data_) o
      (λ id. update_plan-Ordered state id data_ o)
plans-Ordered (plan_completed id) event state o =
    with_plan-Ordered state _ (λ id. complete_plan state id) o
      (λ id. complete_plan-Ordered state id o)
plans-Ordered (plan_removed id) event state o =
    with_plan-Ordered state _ (λ id. remove_plan state id) o (λ id. remove_plan-Ordered state id o)
plans-Ordered _ event state o = o

put_callback-Ordered :
    (state : AgentUiState) (id method : String) (status : CallbackStatus)
    (data_ : CallbackLifecycleData)
    → Ordered state
    → Ordered (put_callback state id method status data_)
unfolding put_callback
put_callback-Ordered state id method status data_ o = record {
  plans_unique = o.plans_unique;
  plans = o.plans;
  callbacks = keys-set_ordered id _ state.callbacks state.callback_order o.callbacks;
  outcomes = o.outcomes;
  work_items = o.work_items;
}

with_callback-Ordered :
    (state : AgentUiState) (id method : Option String) (status : CallbackStatus)
    (data_ : CallbackLifecycleData)
    → Ordered state
    → Ordered (with_callback state id method status data_)
unfolding with_callback
with_callback-Ordered state (some id) (some method) status data_ o =
    elim (Bool-cases (non_empty id)) [
      | inr e ↦ rw (e, if◌then◌else◌) o
      | inl e ↦
          rw (e, if◌then◌else◌)
            (elim (Bool-cases (non_empty method)) [
              | inr f ↦ rw (f, if◌then◌else◌) o
              | inl f ↦ rw (f, if◌then◌else◌) (put_callback-Ordered state id method status data_ o)
            ])
    ]
with_callback-Ordered state (some id) none status data_ o = o
with_callback-Ordered state none method status data_ o = o

callbacks-Ordered :
    (body : Body) (event : Event) (state : AgentUiState)
    → Ordered state
    → Ordered (callback_projection body event state)
unfolding callback_projection
callbacks-Ordered (callback status data_) event state o =
    with_callback-Ordered state _ data_.method status data_ o
callbacks-Ordered _ event state o = o

outcomes-Ordered :
    (body : Body) (event : Event) (state : AgentUiState)
    → Ordered state
    → Ordered (outcome_projection body event state)
unfolding outcome_projection put_outcome
outcomes-Ordered (outcome type data_) event state o = record {
  plans_unique = o.plans_unique;
  plans = o.plans;
  callbacks = o.callbacks;
  outcomes = keys-set_ordered _ _ state.outcomes state.outcome_order o.outcomes;
  work_items = o.work_items;
}
outcomes-Ordered _ event state o = o

pub records-Ordered :
    (state : AgentUiState) (event : Event)
    → Ordered state
    → Ordered (
        apply_outcome_projection
          (apply_callback_projection
            (apply_plan_projection (apply_work_item_projection state event) event)
            event)
          event)
unfolding apply_plan_projection apply_callback_projection apply_outcome_projection
records-Ordered state event o = outcomes-Ordered event.body event _ (
    callbacks-Ordered event.body event _
      (plans-Ordered event.body event _ (work_items-Ordered state event o)))
