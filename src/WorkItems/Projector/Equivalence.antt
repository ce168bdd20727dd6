-- ===== src/WorkItems/Projector/Equivalence.antt =====
-- src/session-events/openma.ts: the projector gives what the reduction of all events gives.
use openma_common.Common.{Bool, List, [], ◌∷◌, ◌++◌, ◌≡◌, refl, arith, ◌∙◌, ap, if◌then◌else◌}
use openma_common.Common.Maps.{has}
use openma_common.WorkItems.{OpenmaEvent}
use openma_common.WorkItems.Registry.{reduce_work_items}
use openma_common.WorkItems.Registry.Order.{has_event}
use openma_common.WorkItems.Projector.{
  WorkItemProjector, create_work_item_projector, apply_in_order, apply, refresh, snapshot,
}
use openma_common.WorkItems.Projector.Invariant.{
  Inv, apply-Inv, refresh-Inv, refresh-dirty, refresh-received, renew-Inv, renew-current,
}

-- The host's calls: an event that arrives, or a snapshot that is read.
pub data Call : Type 0 where
  feeds : OpenmaEvent → Call
  reads : Call

pub run : WorkItemProjector → List Call → WorkItemProjector
run p [] = p
run p (feeds e ∷ cs) = run (apply p e).0 cs
run p (reads ∷ cs) = run (snapshot p).0 cs

-- The events fed so far, each id once, in the order of their first arrival.
abbrev pub arrivals : List OpenmaEvent → List Call → List OpenmaEvent
arrivals es [] = es
arrivals es (feeds e ∷ cs) = arrivals (if has_event e.event_id es then es else es ++ e ∷ []) cs
arrivals es (reads ∷ cs) = arrivals es cs

apply-received :
    (p : WorkItemProjector) (e : OpenmaEvent)
    → (apply p e).0.received
      ≡ (if has e.event_id p.received_ids then p.received else p.received ++ e ∷ [])
unfolding apply apply_in_order
apply-received p e = ground arith

snapshot-Inv : (p : WorkItemProjector) → Inv p → Inv (snapshot p).0
unfolding snapshot
snapshot-Inv p h = renew-Inv (refresh p) (refresh-Inv p h)

snapshot-received : (p : WorkItemProjector) → Inv p → (snapshot p).0.received ≡ p.received
unfolding snapshot
snapshot-received p h = (renew-current (refresh p) (refresh-Inv p h).cached).2 ∙ refresh-received p

run-Inv :
    (p : WorkItemProjector) (cs : List Call)
    → Inv p
    → Inv (run p cs) × ((run p cs).received ≡ arrivals p.received cs)
unfolding run
run-Inv p [] h = (h, refl)
run-Inv p (feeds e ∷ cs) h =
    let (kept, same) = run-Inv (apply p e).0 cs (apply-Inv p e h) in
    (
      kept,
      same
          ∙ ap (λ es. arrivals es cs)
              (apply-received p e
                ∙ ap (λ (b : Bool). if b then p.received else p.received ++ e ∷ [])
                    (h.ids e.event_id)),
    )
run-Inv p (reads ∷ cs) h =
    let (kept, same) = run-Inv (snapshot p).0 cs (snapshot-Inv p h) in
    (kept, same ∙ ap (λ es. arrivals es cs) (snapshot-received p h))

new-Inv : Inv create_work_item_projector
unfolding create_work_item_projector has reduce_work_items
new-Inv = record {
  ids = λ k. refl;
  noted = record { bounded = tt; sequenced = λ k. tt };
  items_reduced = λ d. refl;
  seen_reduced = λ d. refl;
  cached = record { fresh = λ k. refl; bounded = λ v k. cc };
}

snapshot-reduced : (p : WorkItemProjector) → Inv p → (snapshot p).1 ≡ reduce_work_items p.received
unfolding snapshot
snapshot-reduced p h =
    let q = refresh-Inv p h in
    let (copy, seen, same) = renew-current (refresh p) q.cached in
    let items_eq =
      copy
      ∙ q.items_reduced (refresh-dirty p)
      ∙ ap (λ es. (reduce_work_items es).items) (refresh-received p) in
    let seen_eq =
      seen
      ∙ q.seen_reduced (refresh-dirty p)
      ∙ ap (λ es. (reduce_work_items es).seen_event_ids) (refresh-received p) in
    λ i. record { items = items_eq i; seen_event_ids = seen_eq i }

-- After any sequence of applied events and read snapshots a new projector gives a snapshot with the
-- items and the seen ids that the full reduction has for the list of the events received, in which
-- each event id stands once, at its first arrival.
pub snapshot_exact :
    (cs : List Call)
    → (snapshot (run create_work_item_projector cs)).1 ≡ reduce_work_items (arrivals [] cs)
unfolding create_work_item_projector
snapshot_exact cs =
    let (kept, same) = run-Inv create_work_item_projector cs new-Inv in
    snapshot-reduced (run create_work_item_projector cs) kept ∙ ap reduce_work_items same
