-- ===== src/SessionOrchestrator/Ledger.antt =====
-- src/session-orchestrator/index.ts: every queued turn is accounted for.
use mathlib.Core.List.{
  Perm, append-nil, append_assoc, perm_append_comm, perm_middle, perm_append_singleton,
}
use mathlib.Core.List.Perm
use openma_common.Common.{ℕ, String, Option, none, some, List, [], ◌∷◌, ◌++◌, arith}
use openma_common.SessionOrchestrator.{
  QueuedSessionTurn, SessionOrchestrator, find_queued, drop_queued, in_order, order_from, enqueue,
  claim_next, clear_queue, remove_queued, dispose,
}
use openma_common.SessionOrchestrator.Calls.{
  Call, enqueues, claims, clears, removes, updates, reorders, disposes, step, run,
}
use openma_common.SessionOrchestrator.Queue.{ids, ids-enqueue, ids-change}
use openma_common.Common.Sorting.{sort-perm}

module _ {ℓ} {A : Type ℓ} where
  swap_front : (xs ys zs : List A) → Perm ((xs ++ ys) ++ zs) (ys ++ (xs ++ zs))
  swap_front xs ys zs =
      Perm.trans (Perm.append (perm_append_comm xs ys) (Perm.refl zs))
        (rw (append_assoc ys xs zs) (Perm.refl (ys ++ (xs ++ zs))))

  -- Two balances, the second taken where the first ends, make one.
  chain_accounts :
      (i j q o p r t : List A)
      → Perm (i ++ q) (o ++ r)
      → Perm (j ++ r) (p ++ t)
      → Perm ((i ++ j) ++ q) ((o ++ p) ++ t)
  chain_accounts i j q o p r t first second = Perm.trans (swap_front i j q) (
      Perm.trans (Perm.append (Perm.refl j) first) (
        Perm.trans (Perm.symm (swap_front o j r))
          (rw (append_assoc o j r) (rw (append_assoc o p t) (Perm.append (Perm.refl o) second)))))

module _ {ℓ} {T : Type ℓ} where
  abbrev pub id_of : Option (QueuedSessionTurn T) → List String
  id_of none = []
  id_of (some e) = e.turn_id ∷ []

  abbrev pub new_id : Option (QueuedSessionTurn T) → String → List String
  new_id none t = t ∷ []
  new_id (some e) t = []

  -- The id that a call brings into the queue, and those that it hands to the caller.
  pub income : SessionOrchestrator T → Call T → List String
  income s (enqueues t v clock) = new_id (find_queued t s.queued) t
  income s _ = []

  pub outgo : SessionOrchestrator T → Call T → List String
  outgo s claims = id_of (claim_next s).1
  outgo s clears = ids (clear_queue s).1
  outgo s (removes t) = id_of (remove_queued s t).1
  outgo s disposes = ids (dispose s).1
  outgo s _ = []

  ids-drop :
      (t : String) (q : List (QueuedSessionTurn T))
      → Perm (ids q) (id_of (find_queued t q) ++ ids (drop_queued t q))
  unfolding find_queued drop_queued
  ids-drop t [] = Perm.refl []
  ids-drop t (e ∷ q) =
      let rest =
        Perm.trans (Perm.cons e.turn_id (ids-drop t q))
          (Perm.symm (perm_middle (id_of (find_queued t q)) (ids (drop_queued t q)))) in
      ground (arith, rest, Perm.refl (e.turn_id ∷ ids q))

  claims_lem :
      (s : SessionOrchestrator T)
      → Perm (ids s.queued) (id_of (claim_next s).1 ++ ids (claim_next s).0.queued)
  unfolding claim_next
  claims_lem s = ground (arith, Perm.refl (ids s.queued))

  enqueues_lem :
      (s : SessionOrchestrator T) (t : String) (v : T) (clock : ℕ)
      → Perm
          (new_id (find_queued t s.queued) t ++ ids s.queued)
          (ids (enqueue s t v clock).0.queued)
  enqueues_lem s t v clock = ground (
    arith,
    ids-enqueue s t v clock,
    Perm.symm (perm_append_singleton t (ids s.queued)),
    Perm.refl (ids s.queued),
  )

  step_accounts :
      (s : SessionOrchestrator T) (c : Call T)
      → Perm (income s c ++ ids s.queued) (outgo s c ++ ids (step s c).queued)
  unfolding step income outgo
  step_accounts s (enqueues t v clock) = enqueues_lem s t v clock
  step_accounts s claims = claims_lem s
  step_accounts s (removes t) = ids-drop t s.queued
  step_accounts s (updates t f) = ground (arith, ids-change t f s.queued, Perm.refl (ids s.queued))
  step_accounts s (reorders ts) =
      Perm.symm (Perm.map _ (sort-perm (in_order (order_from 0 ts [])) s.queued))
  step_accounts s clears = ground (arith, append-nil (ids s.queued), Perm.refl (ids s.queued))
  step_accounts s disposes = ground (arith, append-nil (ids s.queued), Perm.refl (ids s.queued))
  step_accounts s _ = ground (arith, Perm.refl (ids s.queued))

  pub all_income : SessionOrchestrator T → List (Call T) → List String
  all_income s [] = []
  all_income s (c ∷ cs) = income s c ++ all_income (step s c) cs

  pub all_outgo : SessionOrchestrator T → List (Call T) → List String
  all_outgo s [] = []
  all_outgo s (c ∷ cs) = outgo s c ++ all_outgo (step s c) cs

  -- Over any calls no queued turn is lost or made up: the ids queued at the start with those that
  -- the calls brought in are a permutation of those that claims, removals, clears and disposals
  -- handed out with those queued at the end.
  pub run_accounts :
      (s : SessionOrchestrator T) (cs : List (Call T))
      → Perm (all_income s cs ++ ids s.queued) (all_outgo s cs ++ ids (run s cs).queued)
  unfolding run all_income all_outgo
  run_accounts s [] = Perm.refl (ids s.queued)
  run_accounts s (c ∷ cs) =
      chain_accounts (income s c) (all_income (step s c) cs) (ids s.queued) (outgo s c)
        (all_outgo (step s c) cs) (ids (step s c).queued) (ids (run (step s c) cs).queued)
        (step_accounts s c) (run_accounts (step s c) cs)
