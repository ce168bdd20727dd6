-- ===== src/SessionOrchestrator/Calls.antt =====
-- src/session-orchestrator/index.ts: the calls that a host makes, one after another.
use openma_common.Common.{ℕ, String, List, [], ◌∷◌}
use openma_common.SessionOrchestrator.{
  SessionRestartMode, SessionOrchestrator, try_start_turn, finish_turn, enqueue, claim_next,
  clear_queue, remove_queued, update_queued, reorder_queue, begin_steering, finish_steering,
  request_restart, clear_restart, dispose,
}

-- A call of one of the methods.
pub data Call {ℓ} (T : Type ℓ) : Type ℓ where
  starts : String → Call T
  finishes : String → Call T
  enqueues : String → T → ℕ → Call T
  claims : Call T
  clears : Call T
  removes : String → Call T
  updates : String → (T → T) → Call T
  reorders : List String → Call T
  steers : String → Call T
  unsteers : String → Call T
  restarts : SessionRestartMode → Call T
  unrestarts : Call T
  disposes : Call T

module _ {ℓ} {T : Type ℓ} where
  unfoldable pub step : SessionOrchestrator T → Call T → SessionOrchestrator T
  unfolding try_start_turn finish_turn enqueue claim_next clear_queue remove_queued update_queued
      reorder_queue begin_steering finish_steering request_restart clear_restart dispose
  step s (starts t) = (try_start_turn s t).0
  step s (finishes t) = (finish_turn s t).0
  step s (enqueues t v clock) = (enqueue s t v clock).0
  step s claims = (claim_next s).0
  step s clears = (clear_queue s).0
  step s (removes t) = (remove_queued s t).0
  step s (updates t f) = (update_queued s t f).0
  step s (reorders ts) = reorder_queue s ts
  step s (steers t) = (begin_steering s t).0
  step s (unsteers t) = (finish_steering s t).0
  step s (restarts m) = (request_restart s m).0
  step s unrestarts = clear_restart s
  step s disposes = (dispose s).0

  unfoldable pub run : SessionOrchestrator T → List (Call T) → SessionOrchestrator T
  run s [] = s
  run s (c ∷ cs) = run (step s c) cs
