-- ===== src/SessionOrchestrator/Turns.antt =====
-- src/session-orchestrator/index.ts: one turn at a time, restarts and disposal.
use openma_common.Common.{
  String, true, false, none, some, List, [], ◌∷◌, ◌≡◌, ◌⊎◌, ◌||◌, Bool-cases, inl, inr, arith, All,
}
use openma_common.SessionOrchestrator.{
  SessionOrchestrator, is_busy, try_start_turn, finish_turn, claim_next, begin_steering, dispose,
}
use openma_common.SessionOrchestrator.Calls.{
  Call, finishes, claims, unrestarts, disposes, step, run,
}
use openma_common.SessionOrchestrator.Invariant.{Inv, step-Inv}

module _ {ℓ} {T : Type ℓ} where
  -- What a turn that was started at once leaves: it is active, all else is as before, no turn starts or
  -- is claimed beside it, and its end gives the state before it.
  abbrev pub IsStarted : SessionOrchestrator T → String → String → Type ℓ
  IsStarted s t other =
      let (after, started) = try_start_turn s t in
      (started ≡ true)
      × (after ≡ record s { active_turn_id = some t })
      × (try_start_turn after other ≡ (after, false))
      × (claim_next after ≡ (after, none))
      × (finish_turn after t ≡ (s, true))

  -- A turn is started at once when there is no active turn, no queued and no steering one, no
  -- pending restart and no disposal: then it is the active turn and all else is as before, no other
  -- turn can be started or claimed beside it, and finishing it gives the state before it. In every
  -- other state the orchestrator is busy, waits for a restart or is disposed, and the attempt is
  -- refused and changes nothing.
  pub try_start_exact :
      (s : SessionOrchestrator T) (t other : String)
      → ((s.active_turn_id ≡ none)
          × (s.queued ≡ [])
          × (s.steering_turn_ids ≡ [])
          × (s.restart_pending ≡ false)
          × (s.disposed ≡ false)
          × IsStarted s t other)
        ⊎ (((is_busy s ≡ true) ⊎ ((s.restart_pending ≡ true) ⊎ (s.disposed ≡ true)))
            × (try_start_turn s t ≡ (s, false)))
  unfolding try_start_turn is_busy claim_next finish_turn
  try_start_exact s t other = elim (Bool-cases (is_busy s || s.restart_pending || s.disposed)) [
    | inl e ↦ inr (ground arith, ground arith)
    | inr e ↦
        inl (ground arith, ground arith, ground arith, ground arith, ground arith, ground arith)
  ]

  -- While a turn is active no call makes another turn active: the turn stays active, or the call
  -- finishes that very turn or disposes the orchestrator, and then none is active.
  pub active_kept :
      (s : SessionOrchestrator T) (c : Call T) (t : String)
      → s.active_turn_id ≡ some t
      → ((step s c).active_turn_id ≡ some t)
        ⊎ (((step s c).active_turn_id ≡ none) × ((c ≡ finishes t) ⊎ (c ≡ disposes)))
  unfolding step
  active_kept s claims t h = ground arith
  active_kept s _ t h = ground arith

  -- The calls that leave a restart to be made.
  abbrev pub IsHeld : Call T → Type 0
  IsHeld unrestarts = ⊥
  IsHeld disposes = ⊥
  IsHeld _ = Unit {0}

  abbrev Parked : SessionOrchestrator T → Type 0
  Parked s = (s.restart_pending ≡ true) × (s.active_turn_id ≡ none)

  step-Parked : (s : SessionOrchestrator T) (c : Call T) → Parked s → IsHeld c → Parked (step s c)
  unfolding step
  step-Parked s unrestarts h k = absurd k
  step-Parked s disposes h k = absurd k
  step-Parked s _ h k = ground arith

  -- Once a restart is pending and no turn is active, no turn becomes active and the restart stays
  -- pending through any calls other than clearing the restart and disposing.
  pub restart_holds :
      (s : SessionOrchestrator T) (cs : List (Call T))
      → s.restart_pending ≡ true
      → s.active_turn_id ≡ none
      → All IsHeld cs
      → ((run s cs).restart_pending ≡ true) × ((run s cs).active_turn_id ≡ none)
  unfolding run
  restart_holds s [] p a k = (p, a)
  restart_holds s (c ∷ cs) p a k =
      let (p', a') = step-Parked s c (p, a) k.0 in restart_holds (step s c) cs p' a' k.1

  step-disposed :
      (s : SessionOrchestrator T) (c : Call T) → s.disposed ≡ true → (step s c).disposed ≡ true
  unfolding step
  step-disposed s claims h = ground arith
  step-disposed s _ h = ground arith

  -- What a disposed orchestrator answers.
  abbrev pub IsInert : SessionOrchestrator T → String → Type ℓ
  IsInert d t =
      (d.active_turn_id ≡ none)
      × (d.steering_turn_ids ≡ [])
      × (claim_next d ≡ (d, none))
      × (try_start_turn d t ≡ (d, false))
      × (begin_steering d t ≡ (d, false))
      × (dispose d ≡ (d, []))

  run-IsInert :
      (s : SessionOrchestrator T) (cs : List (Call T)) (t : String)
      → Inv s
      → s.disposed ≡ true
      → IsInert (run s cs) t
  unfolding run
  run-IsInert s [] t v h =
      unfold claim_next try_start_turn begin_steering dispose in
      (v.closed_turn h, v.closed_steering h, ground arith, ground arith, ground arith, ground arith)
  run-IsInert s (c ∷ cs) t v h = run-IsInert (step s c) cs t (step-Inv s c v) (step-disposed s c h)

  -- After a well-formed orchestrator is disposed, and whatever is called next, it has no active and
  -- no steering turn, claims nothing, starts and steers no turn, and disposing it again returns
  -- nothing; none of these calls changes it.
  pub dispose_final :
      (s : SessionOrchestrator T) (cs : List (Call T)) (t : String)
      → Inv s
      → IsInert (run (dispose s).0 cs) t
  unfolding step
  dispose_final s cs t v =
      run-IsInert (dispose s).0 cs t (step-Inv s disposes v) (unfold dispose in ground arith)
