-- ===== src/SessionOrchestrator/Invariant.antt =====
-- src/session-orchestrator/index.ts: every call keeps the orchestrator well formed.
use openma_common.Common.{
  ℕ, String, Bool, true, false, Option, none, some, List, [], ◌∷◌, ◌≡◌, refl, ◌≢◌, arith, sym,
}
use openma_common.SessionOrchestrator.Calls.{Call, enqueues, removes, updates, reorders, step, run}
use openma_common.Common.Sorting.{insert_sorted, sort}
use openma_common.SessionOrchestrator.{
  QueuedSessionTurn, SessionOrchestrator, new, find_queued, change_queued, push, enqueue_found,
  drop_queued, in_order, order_from,
}

-- No entry of the queue has the id; every id stands in the queue once at most.
abbrev pub Absent {ℓ} : {T : Type ℓ} → String → List (QueuedSessionTurn T) → Type 0
Absent t [] = Unit {0}
Absent t (e ∷ q) = (e.turn_id ≢ t) × Absent t q

abbrev pub Distinct {ℓ} : {T : Type ℓ} → List (QueuedSessionTurn T) → Type 0
Distinct [] = Unit {0}
Distinct (e ∷ q) = Absent e.turn_id q × Distinct q

pub record Inv {ℓ} {T : Type ℓ} (s : SessionOrchestrator T) : Type 0 where
  pub distinct : Distinct s.queued
  pub closed_turn : s.disposed ≡ true → s.active_turn_id ≡ none
  pub closed_steering : s.disposed ≡ true → s.steering_turn_ids ≡ []
  pub closed_restart : s.disposed ≡ true → s.restart_pending ≡ false

module _ {ℓ} {T : Type ℓ} where
  Absent-push :
      (t : String) (e : QueuedSessionTurn T) (q : List (QueuedSessionTurn T))
      → Absent t q
      → e.turn_id ≢ t
      → Absent t (push e q)
  unfolding push
  Absent-push t e [] h n = (n, tt)
  Absent-push t e (x ∷ q) h n = (h.0, Absent-push t e q h.1 n)

  find_queued-Absent :
      (t : String) (q : List (QueuedSessionTurn T)) → find_queued t q ≡ none → Absent t q
  unfolding find_queued
  find_queued-Absent t [] h = tt
  find_queued-Absent t (e ∷ q) h = ground (arith, find_queued-Absent t q)

  Distinct-push :
      (e : QueuedSessionTurn T) (q : List (QueuedSessionTurn T))
      → Absent e.turn_id q
      → Distinct q
      → Distinct (push e q)
  unfolding push
  Distinct-push e [] a d = (tt, tt)
  Distinct-push e (x ∷ q) a d =
      (Absent-push x.turn_id e q d.0 (λ p. a.0 (sym p)), Distinct-push e q a.1 d.1)

  Absent-change :
      (t k : String) (f : T → T) (q : List (QueuedSessionTurn T))
      → Absent t q
      → Absent t (change_queued k f q)
  unfolding change_queued
  Absent-change t k f [] h = tt
  Absent-change t k f (e ∷ q) h = ground (arith, Absent-change t k f q)

  Distinct-change :
      (k : String) (f : T → T) (q : List (QueuedSessionTurn T))
      → Distinct q
      → Distinct (change_queued k f q)
  unfolding change_queued
  Distinct-change k f [] d = tt
  Distinct-change k f (e ∷ q) d =
      ground (arith, Distinct-change k f q, Absent-change e.turn_id k f q)

  Absent-drop :
      (t k : String) (q : List (QueuedSessionTurn T)) → Absent t q → Absent t (drop_queued k q)
  unfolding drop_queued
  Absent-drop t k [] h = tt
  Absent-drop t k (e ∷ q) h = ground (arith, Absent-drop t k q)

  Distinct-drop :
      (k : String) (q : List (QueuedSessionTurn T)) → Distinct q → Distinct (drop_queued k q)
  unfolding drop_queued
  Distinct-drop k [] d = tt
  Distinct-drop k (e ∷ q) d = ground (arith, Distinct-drop k q, Absent-drop e.turn_id k q)

  module _ (le : QueuedSessionTurn T → QueuedSessionTurn T → Bool) where
    Absent-insert :
        (t : String) (e : QueuedSessionTurn T) (q : List (QueuedSessionTurn T))
        → Absent t q
        → e.turn_id ≢ t
        → Absent t (insert_sorted le e q)
    unfolding insert_sorted
    Absent-insert t e [] h n = (n, tt)
    Absent-insert t e (x ∷ q) h n = ground (arith, Absent-insert t e q)

    Distinct-insert :
        (e : QueuedSessionTurn T) (q : List (QueuedSessionTurn T))
        → Absent e.turn_id q
        → Distinct q
        → Distinct (insert_sorted le e q)
    unfolding insert_sorted
    Distinct-insert e [] a d = (tt, tt)
    Distinct-insert e (x ∷ q) a d = ground (arith, Distinct-insert e q, Absent-insert x.turn_id e q)

    Absent-sort : (t : String) (q : List (QueuedSessionTurn T)) → Absent t q → Absent t (sort le q)
    unfolding sort
    Absent-sort t [] h = tt
    Absent-sort t (e ∷ q) h = Absent-insert t e (sort le q) (Absent-sort t q h.1) h.0

    Distinct-sort : (q : List (QueuedSessionTurn T)) → Distinct q → Distinct (sort le q)
    unfolding sort
    Distinct-sort [] d = tt
    Distinct-sort (e ∷ q) d =
        Distinct-insert e (sort le q) (Absent-sort e.turn_id q d.0) (Distinct-sort q d.1)

  enqueue_found-Inv :
      (s : SessionOrchestrator T) (t : String) (v : T) (clock : ℕ)
      (o : Option (QueuedSessionTurn T))
      → find_queued t s.queued ≡ o
      → Inv s
      → Inv (enqueue_found s t v clock o).0
  unfolding enqueue_found
  enqueue_found-Inv s t v clock none e h =
      let entry : QueuedSessionTurn T = record { turn_id = t; value = v; created_at = clock } in
      ground (arith, Distinct-push entry s.queued (find_queued-Absent t s.queued e) h.distinct)
  enqueue_found-Inv s t v clock (some x) e h =
      ground (arith, Distinct-change t (λ _. v) s.queued h.distinct)

  pub step-Inv : (s : SessionOrchestrator T) (c : Call T) → Inv s → Inv (step s c)
  unfolding step
  step-Inv s (enqueues t v clock) h = enqueue_found-Inv s t v clock (find_queued t s.queued) refl h
  step-Inv s (removes t) h = ground (arith, Distinct-drop t s.queued h.distinct)
  step-Inv s (updates t f) h = ground (arith, Distinct-change t f s.queued h.distinct)
  step-Inv s (reorders ts) h =
      ground (arith, Distinct-sort (in_order (order_from 0 ts [])) s.queued h.distinct)
  step-Inv s _ h = ground arith

  run-Inv : (s : SessionOrchestrator T) (cs : List (Call T)) → Inv s → Inv (run s cs)
  unfolding run
  run-Inv s [] h = h
  run-Inv s (c ∷ cs) h = run-Inv (step s c) cs (step-Inv s c h)

  -- After any sequence of calls on a new orchestrator no turn id stands in the queue twice, and a
  -- disposed orchestrator has no active turn, no steering turn and no pending restart.
  pub calls-Inv : (id : String) (cs : List (Call T)) → Inv (run (new id) cs)
  calls-Inv id cs = run-Inv (new id) cs (unfold new in ground arith)
