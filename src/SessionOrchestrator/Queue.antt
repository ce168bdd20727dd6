-- ===== src/SessionOrchestrator/Queue.antt =====
-- src/session-orchestrator/index.ts: what the queue holds after a call, and the order of claims.
use mathlib.Core.Option
use openma_common.Common.{
  ℕ, zero, suc, String, false, none, some, List, [], ◌∷◌, ◌++◌, map, ◌≡◌, refl, ◌≢◌, ◌⊎◌, ap, ite,
  inl, inr, arith, length, String_discrete, Option-cases,
}
use openma_common.SessionOrchestrator.{
  QueuedSessionTurn, SessionOrchestrator, find_queued, change_queued, push, enqueue, enqueue_found,
  claim_next, finish_turn, drop_queued, update_queued,
}
use openma_common.SessionOrchestrator.Invariant.{Absent, Distinct}

module _ {ℓ} {T : Type ℓ} where
  find-push :
      (k : String) (e : QueuedSessionTurn T) (q : List (QueuedSessionTurn T))
      → find_queued e.turn_id q ≡ none
      → find_queued k (push e q) ≡ ite (String_discrete e.turn_id k) (some e) (find_queued k q)
  unfolding find_queued push
  find-push k e [] h = refl
  find-push k e (x ∷ q) h = ground (arith, find-push k e q)

  find-change :
      (k t : String) (f : T → T) (q : List (QueuedSessionTurn T))
      → find_queued k (change_queued t f q)
        ≡ ite
            (String_discrete t k)
            (Option.map
              (λ (e : QueuedSessionTurn T). record e { value = f e.value })
              (find_queued k q))
            (find_queued k q)
  unfolding find_queued change_queued
  find-change k t f [] = ground arith
  find-change k t f (x ∷ q) = ground (arith, find-change k t f q)

  find-id :
      (k : String) (q : List (QueuedSessionTurn T)) (e : QueuedSessionTurn T)
      → find_queued k q ≡ some e
      → e.turn_id ≡ k
  unfolding find_queued
  find-id k [] e h = cc
  find-id k (x ∷ q) e h = ground (arith, find-id k q e)

  -- After an enqueue, looking an id up in the queue gives the returned entry for the enqueued id,
  -- and what it gave before for every other id.
  find-enqueue :
      (s : SessionOrchestrator T) (t k : String) (v : T) (clock : ℕ)
      → find_queued k (enqueue s t v clock).0.queued
        ≡ ite (String_discrete t k) (some (enqueue s t v clock).1) (find_queued k s.queued)
  unfolding enqueue
  find-enqueue s t k v clock = elim (Option-cases (find_queued t s.queued)) [
    | inl absent ↦
        let entry : QueuedSessionTurn T = record { turn_id = t; value = v; created_at = clock } in
        rw (absent, enqueue_found) (find-push k entry s.queued absent)
    | inr (e, found) ↦ rw (found, enqueue_found) (ground (arith, find-change k t (λ _. v) s.queued))
  ]

  abbrev pub ids : List (QueuedSessionTurn T) → List String
  ids = map (λ e. e.turn_id)

  ids-push :
      (e : QueuedSessionTurn T) (q : List (QueuedSessionTurn T))
      → ids (push e q) ≡ ids q ++ e.turn_id ∷ []
  unfolding push
  ids-push e [] = refl
  ids-push e (x ∷ q) = ap (◌∷◌ x.turn_id) (ids-push e q)

  pub ids-change :
      (t : String) (f : T → T) (q : List (QueuedSessionTurn T)) → ids (change_queued t f q) ≡ ids q
  unfolding change_queued
  ids-change t f [] = refl
  ids-change t f (x ∷ q) = ground (arith, ids-change t f q)

  -- An enqueue of an id that is not queued puts it at the end of the queue; an enqueue of an id
  -- that is queued leaves the ids and their order as they were.
  pub ids-enqueue :
      (s : SessionOrchestrator T) (t : String) (v : T) (clock : ℕ)
      → ((find_queued t s.queued ≡ none)
          × (ids (enqueue s t v clock).0.queued ≡ ids s.queued ++ t ∷ []))
        ⊎ ((find_queued t s.queued ≢ none) × (ids (enqueue s t v clock).0.queued ≡ ids s.queued))
  unfolding enqueue
  ids-enqueue s t v clock = elim (Option-cases (find_queued t s.queued)) [
    | inl absent ↦
        let entry : QueuedSessionTurn T = record { turn_id = t; value = v; created_at = clock } in
        inl (absent, rw (absent, enqueue_found) (ids-push entry s.queued))
    | inr (e, found) ↦
        inr (ground arith, rw (found, enqueue_found) (ids-change t (λ _. v) s.queued))
  ]

  -- After an update of a queued turn, looking its id up gives the entry with the updated value and
  -- all else as before, and every other id gives what it gave before.
  find-update :
      (s : SessionOrchestrator T) (t k : String) (f : T → T)
      → find_queued k (update_queued s t f).0.queued
        ≡ ite
            (String_discrete t k)
            (Option.map
              (λ (e : QueuedSessionTurn T). record e { value = f e.value })
              (find_queued k s.queued))
            (find_queued k s.queued)
  unfolding update_queued
  find-update s t k f = ground (arith, find-change k t f s.queued)

  Absent-find : (k : String) (q : List (QueuedSessionTurn T)) → Absent k q → find_queued k q ≡ none
  unfolding find_queued
  Absent-find k [] a = refl
  Absent-find k (x ∷ q) a = ground (arith, Absent-find k q)

  find-drop :
      (k t : String) (q : List (QueuedSessionTurn T))
      → Distinct q
      → find_queued k (drop_queued t q) ≡ ite (String_discrete t k) none (find_queued k q)
  unfolding find_queued drop_queued
  find-drop k t [] d = ground arith
  find-drop k t (x ∷ q) d = ground (arith, find-drop k t q, Absent-find x.turn_id q)

  -- Claims and finishes the claimed turn, for the given number of rounds.
  pub drain : ℕ → SessionOrchestrator T → SessionOrchestrator T × List (QueuedSessionTurn T)
  drain zero s = (s, [])
  drain (suc n) s = elim (claim_next s).1 [
    | none ↦ (s, [])
    | some e ↦ let rest = drain n (finish_turn (claim_next s).0 e.turn_id).0 in (rest.0, e ∷ rest.1)
  ]

  -- Nothing keeps the next turn from starting.
  abbrev pub IsIdle : SessionOrchestrator T → Type 0
  IsIdle s =
      (s.disposed ≡ false)
      × (s.restart_pending ≡ false)
      × (s.active_turn_id ≡ none)
      × (s.steering_turn_ids ≡ [])

  drain_queue :
      (s : SessionOrchestrator T) (q : List (QueuedSessionTurn T))
      → s.queued ≡ q
      → IsIdle s
      → drain (length q) s ≡ (record s { queued = [] }, q)
  unfolding drain claim_next finish_turn
  drain_queue s [] e h = ground arith
  drain_queue s (x ∷ q) e h =
      ground (arith, drain_queue (record s { queued = q; active_turn_id = none }) q refl)

  -- When nothing keeps the next turn from starting, claiming and finishing turns as often as the
  -- queue is long hands out the queued entries in their order and leaves the queue empty and the
  -- rest as it was.
  pub drain_fifo :
      (s : SessionOrchestrator T)
      → IsIdle s
      → drain (length s.queued) s ≡ (record s { queued = [] }, s.queued)
  drain_fifo s h = drain_queue s s.queued refl h
