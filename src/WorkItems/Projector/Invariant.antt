-- ===== src/WorkItems/Projector/Invariant.antt =====
-- src/session-events/openma.ts: what holds of the projector between two calls.
use openma_common.Common.{
  ℕ, suc, ◌≤◌, String, Bool, true, false, some, List, [], ◌∷◌, ◌++◌, ◌≡◌, refl, arith, ◌⊎◌, inl,
  inr, Bool-cases, Option-cases, ite, String_discrete, sym, ◌∙◌, ap,
}
use openma_common.Common.Maps.{has, add, has-add, get, set-get_self}
use openma_common.WorkItems.{OpenmaEvent, Items, is_work_item_event, apply_work_item_event}
use openma_common.WorkItems.Laws.{apply-unrelated}
use openma_common.WorkItems.Registry.{reduce_work_items}
use openma_common.WorkItems.Registry.Order.{has_event}
use openma_common.WorkItems.Registry.Reduction.{reduce-last}
use openma_common.WorkItems.Projector.{
  WorkItemProjector, copy_item, copy_items, touched_work_item_ids, apply_in_order, in_order_after,
  note_event, bump, apply, refresh, is_version, renew,
}
use openma_common.WorkItems.Projector.Order.{IsNoted, IsNoted-append, in_order_after-Earlier}

copy_items-eq : (items : Items) (ids : List String) → copy_items items ids ≡ items
unfolding copy_items
copy_items-eq items [] = refl
copy_items-eq items (id ∷ ids) = elim (Option-cases (get id items)) [
  | inl e ↦ rw (e, copy_item) (copy_items-eq items ids)
  | inr (v, e) ↦ rw (e, copy_item) (rw (set-get_self id v items e) (copy_items-eq items ids))
]

-- The cached copy is stale, or it is the items.
pub record IsCached (p : WorkItemProjector) : Type 0 where
  pub fresh : p.snapshot_version ≡ some p.version → p.current ≡ p.items
  pub bounded : (v : ℕ) → p.snapshot_version ≡ some v → v ≤ p.version

pub record Inv (p : WorkItemProjector) : Type 0 where
  pub ids : (k : String) → has k p.received_ids ≡ has_event k p.received
  pub noted : IsNoted p.max_seq p.saw_unsequenced p.received
  pub items_reduced : p.dirty ≡ false → p.items ≡ (reduce_work_items p.received).items
  pub seen_reduced : p.dirty ≡ false → p.seen ≡ (reduce_work_items p.received).seen_event_ids
  pub cached : IsCached p

has_event-append :
    (k : String) (es : List OpenmaEvent) (e : OpenmaEvent)
    → has_event k (es ++ e ∷ []) ≡ ite (String_discrete e.event_id k) true (has_event k es)
has_event-append k [] e = refl
has_event-append k (x ∷ es) e = ground (arith, has_event-append k es e)

ids-append :
    (k : String) (ids : List String) (es : List OpenmaEvent) (e : OpenmaEvent)
    → has k ids ≡ has_event k es
    → has k (add e.event_id ids) ≡ has_event k (es ++ e ∷ [])
ids-append k ids es e h = ground (arith, has-add e.event_id k ids, has_event-append k es e)

note-IsCached : (p : WorkItemProjector) (e : OpenmaEvent) → IsCached p → IsCached (note_event p e)
unfolding note_event
note-IsCached p e h = record { fresh = h.fresh; bounded = h.bounded }

-- Once the projection is dirty only the notes count.
note-Inv :
    (p : WorkItemProjector) (e : OpenmaEvent)
    → Inv p
    → Inv (record (note_event p e) { dirty = true })
unfolding note_event
note-Inv p e h = record {
  ids = λ k. ids-append k p.received_ids p.received e (h.ids k);
  noted = IsNoted-append p.max_seq p.saw_unsequenced p.received e h.noted;
  items_reduced = λ d. cc;
  seen_reduced = λ d. cc;
  cached = record { fresh = h.cached.fresh; bounded = h.cached.bounded };
}

-- What an event in order makes of the items: the reduction of all that was received with it.
applied-Inv :
    (p : WorkItemProjector) (e : OpenmaEvent) (version : ℕ)
    → Inv p
    → p.dirty ≡ false
    → has e.event_id p.received_ids ≡ false
    → in_order_after e.seq p.saw_unsequenced p.max_seq ≡ true
    → (apply_work_item_event p.items e ≡ p.items) × (version ≡ p.version)
      ⊎ (version ≡ suc p.version)
    → Inv (record (note_event p e) {
      items = apply_work_item_event p.items e;
      seen = add e.event_id p.seen;
      version = version;
    })
unfolding note_event
applied-Inv p e version h clean new in_order moved =
    let step =
      reduce-last p.received e
        (in_order_after-Earlier e.seq p.max_seq p.saw_unsequenced p.received h.noted in_order)
        (sym (h.ids e.event_id) ∙ new) in
    record {
      ids = λ k. ids-append k p.received_ids p.received e (h.ids k);
      noted = IsNoted-append p.max_seq p.saw_unsequenced p.received e h.noted;
      items_reduced = λ d. rw step (ap (λ m. apply_work_item_event m e) (h.items_reduced clean));
      seen_reduced = λ d. rw step (ap (add e.event_id) (h.seen_reduced clean));
      cached = record {
        fresh = λ k. ground (arith, h.cached.fresh, h.cached.bounded (suc p.version));
        bounded = λ v k. ground (arith, h.cached.bounded v);
      };
    }

applied-Inv_lem :
    (p : WorkItemProjector) (e : OpenmaEvent) (b : Bool)
    → is_work_item_event e ≡ b
    → Inv p
    → p.dirty ≡ false
    → has e.event_id p.received_ids ≡ false
    → in_order_after e.seq p.saw_unsequenced p.max_seq ≡ true
    → Inv (bump (apply_in_order (note_event p e) e)).0
unfolding bump apply_in_order note_event
applied-Inv_lem p e true w h clean new in_order =
    rw (w, copy_items-eq p.items (touched_work_item_ids e))
      (applied-Inv p e (suc p.version) h clean new in_order (inr refl))
applied-Inv_lem p e false w h clean new in_order = rw w (
    let same = apply-unrelated p.items e w in
    rw same at (applied-Inv p e p.version h clean new in_order (inl (same, refl))))

pub apply-Inv : (p : WorkItemProjector) (e : OpenmaEvent) → Inv p → Inv (apply p e).0
unfolding apply
apply-Inv p e h = elim (Bool-cases (has e.event_id p.received_ids)) [
  | inl seen ↦ rw seen h
  | inr new ↦ elim (Bool-cases p.dirty) [
    | inl dirty ↦ rw (new, dirty) (note-Inv p e h)
    | inr clean ↦ elim (Bool-cases (in_order_after e.seq p.saw_unsequenced p.max_seq)) [
      | inl order ↦
          rw (new, clean, order)
            (rw clean at (applied-Inv_lem p e (is_work_item_event e) refl h clean new order))
      | inr late ↦ rw (new, clean, late) (note-Inv p e h)
    ]
  ]
]

pub refresh-Inv : (p : WorkItemProjector) → Inv p → Inv (refresh p)
unfolding refresh
refresh-Inv p h = elim (Bool-cases p.dirty) [
  | inl dirty ↦ rw dirty (record {
    ids = h.ids;
    noted = h.noted;
    items_reduced = λ d. refl;
    seen_reduced = λ d. refl;
    cached = record {
      fresh = λ k. ground (arith, h.cached.bounded (suc p.version));
      bounded = λ v k. ground (arith, h.cached.bounded v);
    };
  })
  | inr clean ↦ rw clean (rw clean at h)
]

pub refresh-dirty : (p : WorkItemProjector) → (refresh p).dirty ≡ false
unfolding refresh
refresh-dirty p = ground arith

pub refresh-received : (p : WorkItemProjector) → (refresh p).received ≡ p.received
unfolding refresh
refresh-received p = ground arith

pub renew-Inv : (p : WorkItemProjector) → Inv p → Inv (renew p)
unfolding renew
renew-Inv p h = elim (Bool-cases (is_version p.snapshot_version p.version)) [
  | inl fresh ↦ rw fresh h
  | inr stale ↦ rw stale (record {
    ids = h.ids;
    noted = h.noted;
    items_reduced = h.items_reduced;
    seen_reduced = h.seen_reduced;
    cached = record { fresh = λ k. refl; bounded = λ v k. ground arith };
  })
]

-- What `renew` leaves in the copy is the items, and it leaves all else as it was.
pub renew-current :
    (p : WorkItemProjector)
    → IsCached p
    → ((renew p).current ≡ p.items) × ((renew p).seen ≡ p.seen) × ((renew p).received ≡ p.received)
unfolding renew
renew-current p h = ground (arith, h.fresh)
