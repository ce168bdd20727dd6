-- ===== src/ManagedSessionHost/Races.antt =====
-- src/local-runtime/session-host.ts: two prompts of one turn, between whose first look and the turn's start a
-- step of the other may come.
use openma_common.Common.{
  ℕ, suc, ◌+◌, String, true, false, Option, none, some, List, [], ◌∷◌, ◌++◌, ◌≡◌, ap, ◌∙◌, arith,
}
use openma_common.Common.Maps.{get, has}
use openma_common.ManagedSessionHost.{PromptInput, leasing, World, SessionHost, Step, put}
use openma_common.ManagedSessionHost.Prompts.{
  prompt, remember_written, run_turn, after_retained, went_through, after_lease,
}
use openma_common.ManagedSessionHost.Steps.{
  prompt_called, HostStep, call, go_on, make_call, resume, step, run,
}
use openma_common.ManagedSessionHost.Admission.{agent_prompts}

-- A live session without a checkpoint in which a turn neither runs nor has completed, and a host that is
-- not draining.
pub record Idle (w : World) (input : PromptInput) (r : ℕ) (h : SessionHost) : Type 0 where
  pub found : get input.session_id h.sessions ≡ some r
  pub alive : w.alive r ≡ true
  pub not_completed : has input.turn_id (h.objects r).completed_turns ≡ false
  pub not_running : get input.turn_id (h.objects r).turns ≡ none
  pub unfenced : (h.objects r).checkpoint ≡ none
  pub open_host : h.draining ≡ false

module _ (w : World) (input : PromptInput) (r : ℕ) where
  prompt-Idle :
      (k : ℕ) (h : SessionHost)
      → Idle w input r h
      → prompt w k input h ≡ (put k (leasing input r none) h, [])
  unfolding prompt
  prompt-Idle k h v =
      rw (v.found, prompt) (ground (arith, v.alive, v.not_completed, v.not_running, v.unfenced))

  -- What the host does without a checkpoint store when the call goes on after the lease.
  go_on-Idle :
      (store : Option String) (grace : Option ℕ) (k : ℕ) (h : SessionHost)
      → h.tasks k ≡ leasing input r none
      → h.draining ≡ false
      → step store grace w (go_on k) h ≡ run_turn k input r h
  unfolding step resume after_lease after_retained went_through remember_written
  go_on-Idle store grace k h e d = rw (e, step) (ground (arith, d))

  count-run :
      (store : Option String) (grace : Option ℕ) (s : HostStep) (rest : List (World × HostStep))
      (h : SessionHost) (now : Step)
      → step store grace w s h ≡ now
      → agent_prompts (run store grace ((w, s) ∷ rest) h).1
        ≡ agent_prompts (now.1 ++ (run store grace rest now.0).1)
  unfolding run
  count-run store grace s rest h now e =
      ap (λ (last : Step). agent_prompts (last.1 ++ (run store grace rest last.0).1)) e

  call-Idle :
      (store : Option String) (grace : Option ℕ) (h : SessionHost)
      → Idle w input r h
      → step store grace w (call (prompt_called input)) h
        ≡ (put h.next (leasing input r none) (record h { next = suc h.next }), [])
  unfolding step make_call
  call-Idle store grace h v =
      prompt-Idle h.next (record h { next = suc h.next })
        (record {
          found = v.found;
          alive = v.alive;
          not_completed = v.not_completed;
          not_running = v.not_running;
          unfenced = v.unfenced;
          open_host = v.open_host;
        })

  -- The host once a prompt was called there, which waits for the lease.
  waiting : SessionHost → SessionHost
  waiting h = put h.next (leasing input r none) (record h { next = suc h.next })

  waiting-Idle : (h : SessionHost) → Idle w input r h → Idle w input r (waiting h)
  unfolding waiting
  waiting-Idle h v = record {
    found = v.found;
    alive = v.alive;
    not_completed = v.not_completed;
    not_running = v.not_running;
    unfenced = v.unfenced;
    open_host = v.open_host;
  }

  first_waits : (h : SessionHost) → (waiting (waiting h)).tasks h.next ≡ leasing input r none
  unfolding waiting
  first_waits h = ground arith

  second_waits :
      (h : SessionHost)
      → (run_turn h.next input r (waiting (waiting h))).0.tasks (suc h.next) ≡ leasing input r none
  unfolding waiting run_turn
  second_waits h = ground arith

  -- A turn that neither runs nor has completed in a live session without a checkpoint is not
  -- guarded against a second prompt: when it is prompted twice before the first call goes on behind
  -- its lease, and the host is not draining, the agent is prompted twice.
  pub prompt_twice :
      (store : Option String) (grace : Option ℕ) (h : SessionHost)
      → Idle w input r h
      → agent_prompts
          (run store grace
            ((w, call (prompt_called input))
              ∷ (w, call (prompt_called input))
              ∷ (w, go_on h.next)
              ∷ (w, go_on (suc h.next))
              ∷ [])
            h).1
        ≡ 2
  unfolding waiting run run_turn agent_prompts
  prompt_twice store grace h v =
      let n = h.next in
      let h1 = waiting h in
      let h2 = waiting h1 in
      let h3 = (run_turn n input r h2).0 in
      let steps4 = (w, go_on (suc n)) ∷ [] in
      let steps3 = (w, go_on n) ∷ steps4 in
      let steps2 = (w, call (prompt_called input)) ∷ steps3 in
      let a = call-Idle store grace h v in
      let b = call-Idle store grace h1 (waiting-Idle h v) in
      let c = go_on-Idle store grace n h2 (first_waits h) v.open_host in
      let d = go_on-Idle store grace (suc n) h3 (second_waits h) v.open_host in
      count-run store grace (call (prompt_called input)) steps2 h (h1, []) a
      ∙ count-run store grace (call (prompt_called input)) steps3 h1 (h2, []) b
      ∙ count-run store grace (go_on n) steps4 h2 (run_turn n input r h2) c
      ∙ ap (λ (m : ℕ). 1 + m)
          (count-run store grace (go_on (suc n)) [] h3 (run_turn (suc n) input r h3) d)
