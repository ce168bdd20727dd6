-- ===== src/SessionOrchestrator/Tests.antt =====
-- The orchestrator's theorems at concrete sessions.
use mathlib.Core.List.{Perm}
use openma_common.Common.{ℕ, String, true, false, none, some, List, [], ◌∷◌, ◌++◌, ◌≡◌, refl, ◌⊎◌}
use openma_common.SessionOrchestrator.{
  SessionOrchestrator, QueuedSessionTurn, new, is_busy, try_start_turn, reorder_queue, dispose,
}
use openma_common.SessionOrchestrator.Calls.{
  Call, starts, finishes, enqueues, claims, disposes, step, run,
}
use openma_common.SessionOrchestrator.Invariant.{Inv, calls-Inv}
use openma_common.SessionOrchestrator.Turns.{
  IsStarted, try_start_exact, active_kept, restart_holds, IsInert, dispose_final,
}
use openma_common.SessionOrchestrator.Queue.{ids, drain, drain_fifo}
use openma_common.SessionOrchestrator.Reorder.{IsOrdered, reorder_sorts}
use openma_common.SessionOrchestrator.Ledger.{run_accounts, all_income, all_outgo}
use openma_common.SessionOrchestrator.Inheritance.{SessionInheritanceInput}

-- `a` runs, and `b`, `c` and `d` wait.
abbrev waiting : SessionOrchestrator ℕ
waiting = record {
  session_id = "s1";
  active_turn_id = some "a";
  queued =
      record { turn_id = "b"; value = 1; created_at = 10 }
      ∷ record { turn_id = "c"; value = 2; created_at = 20 }
      ∷ record { turn_id = "d"; value = 3; created_at = 30 }
      ∷ [];
  steering_turn_ids = [];
  restart_pending = false;
  disposed = false;
}

abbrev history : List (Call ℕ)
history = starts "a" ∷ enqueues "b" 1 10 ∷ enqueues "c" 2 20 ∷ finishes "a" ∷ claims ∷ disposes ∷ []

calls-Inv_example : Inv (run {T = ℕ} (new "s1") history)
calls-Inv_example = calls-Inv "s1" history

abbrev fresh : SessionOrchestrator ℕ
fresh = new "s1"

try_start_exact_example :
    ((fresh.active_turn_id ≡ none)
      × (fresh.queued ≡ [])
      × (fresh.steering_turn_ids ≡ [])
      × (fresh.restart_pending ≡ false)
      × (fresh.disposed ≡ false)
      × IsStarted fresh "a" "b")
    ⊎ (((is_busy fresh ≡ true) ⊎ ((fresh.restart_pending ≡ true) ⊎ (fresh.disposed ≡ true)))
        × (try_start_turn fresh "a" ≡ (fresh, false)))
try_start_exact_example = try_start_exact fresh "a" "b"

abbrev next_claim : Call ℕ
next_claim = claims

active_kept_example :
    ((step waiting next_claim).active_turn_id ≡ some "a")
    ⊎ (((step waiting next_claim).active_turn_id ≡ none)
        × ((next_claim ≡ finishes "a") ⊎ (next_claim ≡ disposes)))
active_kept_example = active_kept waiting next_claim "a" refl

abbrev restarting : SessionOrchestrator ℕ
restarting = record waiting { active_turn_id = none; restart_pending = true }

restart_holds_example :
    let s = run restarting (claims ∷ starts "z" ∷ []) in
    (s.restart_pending ≡ true) × (s.active_turn_id ≡ none)
restart_holds_example = restart_holds restarting (claims ∷ starts "z" ∷ []) refl refl (tt, (tt, tt))

dispose_final_example : IsInert (run (dispose (run {T = ℕ} (new "s1") history)).0 history) "z"
dispose_final_example = dispose_final (run (new "s1") history) history "z" (calls-Inv "s1" history)

abbrev idle : SessionOrchestrator ℕ
idle = record waiting { active_turn_id = none }

drain_fifo_example : drain 3 idle ≡ (record idle { queued = [] }, idle.queued)
drain_fifo_example = drain_fifo idle (refl, refl, refl, refl)

abbrev wanted : List String
wanted = "d" ∷ "x" ∷ "b" ∷ "d" ∷ []

abbrev third : QueuedSessionTurn ℕ
third = record { turn_id = "d"; value = 3; created_at = 30 }

reorder_sorts_example : IsOrdered wanted (reorder_queue waiting wanted).queued
reorder_sorts_example = (reorder_sorts waiting wanted third).1

run_accounts_example :
    Perm
      (all_income waiting history ++ ids waiting.queued)
      (all_outgo waiting history ++ ids (run waiting history).queued)
run_accounts_example = run_accounts waiting history

abbrev both_requests : SessionInheritanceInput
both_requests = record {
  cwd = "/work";
  additional_directories = none;
  resume_acp_session_id = some "acp-1";
  fork_from = some (record { acp_session_id = ""; session_id = some "s0" });
}
