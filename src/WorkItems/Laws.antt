-- ===== src/WorkItems/Laws.antt =====
-- src/session-events/openma.ts: what one event does to the items.
use mathlib.Core.Option
use openma_common.Common.{
  ℕ, String, true, false, Option, none, some, List, ◌≡◌, refl, ◌≢◌, inl, inr, arith, ap, ◌∙◌,
  if_pos, if_neg, String_discrete, if◌then◌else◌, Bool-cases, Option-cases, non_empty, ◌++◌,
}
use openma_common.Common.Json.{Json}
use openma_common.Common.Maps.{get, set, delete, get-set, get-delete_ne}
use openma_common.WorkItems.{
  OpenmaEvent, Items, WorkItemSnapshot, WorkItemKind, other, WorkItemStatus, WorkItemTerminalStatus,
  Payload, ended, reidentified, classified, started, progressed, work_item_of, is_work_item_event,
  is_blocked, terminal_of, update_item, or_created, start_kind, advance, classify, reidentify,
  merged, dispatch, apply_work_item_event,
}

pub apply-unrelated :
    (items : Items) (e : OpenmaEvent)
    → is_work_item_event e ≡ false
    → apply_work_item_event items e ≡ items
unfolding is_work_item_event apply_work_item_event
apply-unrelated items e h = ground arith

-- The status of the item at an id.
abbrev pub status_at : String → Items → Option WorkItemStatus
status_at k items = Option.map (λ (x : WorkItemSnapshot). x.status) (get k items)

-- The event does not take the item at the id to another id.
abbrev pub Stays : String → Payload → Type 0
Stays k (reidentified previous_id) = previous_id ≢ k
Stays k _ = Unit {0}

guarded_status :
    (item : WorkItemSnapshot) (t : String) (p : Payload) (st : WorkItemTerminalStatus)
    → item.status ≡ ended st
    → (if is_blocked item.status (terminal_of p) then item else update_item item t p).status
      ≡ ended st
unfolding is_blocked terminal_of update_item
guarded_status item t (started k x) st h = ground arith
guarded_status item t (progressed n o) st h = ground arith
guarded_status item t p st h = ground arith

status_at-set :
    (id k : String) (v : WorkItemSnapshot) (items : Items) (s : WorkItemStatus)
    → status_at k items ≡ some s
    → (id ≡ k → v.status ≡ s)
    → status_at k (set id v items) ≡ some s
status_at-set id k v items s h same = elim (String_discrete id k) [
  | yes p ↦ rw (get-set id k v items, if_pos _ p) (ap some (same p))
  | no n ↦ rw (get-set id k v items, if_neg _ n) h
]

found_status :
    (k : String) (items : Items) (s : WorkItemStatus) (kind : WorkItemKind)
    → status_at k items ≡ some s
    → (or_created (get k items) k kind).status ≡ s
found_status k items s kind h = ground arith

advance-terminal :
    (items : Items) (id t : String) (p : Payload) (k : String) (st : WorkItemTerminalStatus)
    → status_at k items ≡ some (ended st)
    → status_at k (advance items id t p) ≡ some (ended st)
unfolding advance
advance-terminal items id t p k st h = status_at-set id k _ items (ended st) h (λ e.
    guarded_status (or_created (get id items) id (start_kind p)) t p st
      (found_status id items (ended st) (start_kind p) (rw e h)))

classify-terminal :
    (items : Items) (id : String) (kind : WorkItemKind) (o : Option WorkItemSnapshot) (k : String)
    (s : WorkItemStatus)
    → get id items ≡ o
    → status_at k items ≡ some s
    → status_at k (classify items id kind o) ≡ some s
unfolding classify
classify-terminal items id kind none k s e h = h
classify-terminal items id kind (some item) k s e h =
    status_at-set id k (record item { kind = kind }) items s h (λ q. ground (arith, q))

status_at-delete :
    (j k : String) (items : Items) → j ≢ k → status_at k (delete j items) ≡ status_at k items
status_at-delete j k items n =
    ap (Option.map (λ (x : WorkItemSnapshot). x.status)) (get-delete_ne j k items n)

reidentify-terminal :
    (items : Items) (id previous_id k : String) (o c : Option WorkItemSnapshot) (s : WorkItemStatus)
    → get id items ≡ c
    → previous_id ≢ k
    → status_at k items ≡ some s
    → status_at k (reidentify items id previous_id o c) ≡ some s
unfolding reidentify merged
reidentify-terminal items id previous_id k none c s e n h =
    status_at-set id k _ items s h (λ q. found_status id items s other (rw q h))
reidentify-terminal items id previous_id k (some previous) none s e n h =
    status_at-set id k _ (delete previous_id items) s (status_at-delete previous_id k items n ∙ h)
      (λ q. ground (arith, q))
reidentify-terminal items id previous_id k (some previous) (some current) s e n h =
    status_at-set id k _ (delete previous_id items) s (status_at-delete previous_id k items n ∙ h)
      (λ q. ground (arith, q))

dispatch-terminal :
    (items : Items) (id t : String) (p : Payload) (k : String) (st : WorkItemTerminalStatus)
    → Stays k p
    → status_at k items ≡ some (ended st)
    → status_at k (dispatch items id t p) ≡ some (ended st)
unfolding dispatch
dispatch-terminal items id t (reidentified previous_id) k st n h =
    reidentify-terminal items id previous_id k (get previous_id items) (get id items) (ended st)
      refl n h
dispatch-terminal items id t (classified kind) k st n h =
    classify-terminal items id kind (get id items) k (ended st) refl h
dispatch-terminal items id t p k st n h = advance-terminal items id t p k st h

pub apply-terminal :
    (items : Items) (e : OpenmaEvent) (k : String) (st : WorkItemTerminalStatus)
    → Stays k e.payload
    → status_at k items ≡ some (ended st)
    → status_at k (apply_work_item_event items e) ≡ some (ended st)
unfolding apply_work_item_event
apply-terminal items e k st n h = elim (Option-cases (work_item_of e)) [
  | inl none_of ↦ rw (none_of, apply_work_item_event) h
  | inr (id, of) ↦
      rw (of, apply_work_item_event)
        (elim (Bool-cases (non_empty id)) [
          | inl some_id ↦ rw some_id (dispatch-terminal items id e.occurred_at e.payload k st n h)
          | inr no_id ↦ rw no_id h
        ])
]

-- The output of the item at an id.
abbrev pub outputs_at : String → Items → Option (List Json)
outputs_at k items = Option.map (λ (x : WorkItemSnapshot). x.outputs) (get k items)

-- Reidentifying the item at a non-empty id to that very id leaves an item there whose output is the
-- former output twice.
pub reidentify_self :
    (items : Items) (id event_id t : String) (seq : Option ℕ) (item : WorkItemSnapshot)
    → non_empty id ≡ true
    → get id items ≡ some item
    → outputs_at id (
        apply_work_item_event items (record {
          event_id = event_id;
          work_item_id = some id;
          occurred_at = t;
          seq = seq;
          payload = reidentified id;
        }))
      ≡ some (item.outputs ++ item.outputs)
unfolding apply_work_item_event reidentify merged
reidentify_self items id event_id t seq item ne h =
    rw ne (rw h (rw (get-set id id (merged item item id) (delete id items)) (rw (if_pos _ refl))))
