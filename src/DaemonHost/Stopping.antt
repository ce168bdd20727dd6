-- ===== src/DaemonHost/Stopping.antt =====
-- src/local-runtime/daemon-host.ts: how a stop ends.
use openma_common.Common.{
  String, true, false, Option, none, some, List, [], ◌∷◌, ◌++◌, ◌≡◌, ◌⊎◌, refl, ap, ◌∙◌, arith, inl,
  inr, Option-cases,
}
use openma_common.DaemonHost.{
  DaemonHost, DaemonDrainSummary, Failure, HostEvent, start_called, stop_host, drain_done,
  drain_failed, disposal_done, disposal_failed, create_daemon_host, step, run, is_stopped, is_idle,
}
use openma_common.DaemonHost.Laws.{is_there, Inv, step-Inv}

pub created-Inv : Inv create_daemon_host
unfolding create_daemon_host is_there is_stopped is_idle
created-Inv = ground arith

-- The end of the drain, and that of the disposal.
abbrev pub drain_end : DaemonDrainSummary ⊎ String → HostEvent
drain_end (inl summary) = drain_done summary
drain_end (inr error) = drain_failed error

abbrev pub disposal_end : Option String → HostEvent
disposal_end none = disposal_done
disposal_end (some error) = disposal_failed error

module _ (thrown_by_stop : Option Failure) where
  pub run-Inv :
      (events : List HostEvent) (h : DaemonHost) → Inv h → Inv (run thrown_by_stop events h).0
  unfolding run
  run-Inv [] h v = v
  run-Inv (event ∷ events) h v =
      run-Inv events (step thrown_by_stop event h).0 (step-Inv thrown_by_stop event h v)

  run-append :
      (xs ys : List HostEvent) (h : DaemonHost)
      → (run thrown_by_stop (xs ++ ys) h).0 ≡ (run thrown_by_stop ys (run thrown_by_stop xs h).0).0
  unfolding run
  run-append [] ys h = refl
  run-append (x ∷ xs) ys h = run-append xs ys (step thrown_by_stop x h).0

  -- What is left to do once the drain has ended.
  drained_or_disposing :
      (d : DaemonDrainSummary ⊎ String) (h : DaemonHost)
      → Inv h
      → h.stop_called ≡ true
      → is_stopped (step thrown_by_stop (drain_end d) h).0.phase ≡ false
      → (step thrown_by_stop (drain_end d) h).0.disposing ≡ true
  unfolding step is_there is_stopped is_idle
  drained_or_disposing (inl summary) h v c n = ground arith
  drained_or_disposing (inr error) h v c n = ground arith

  disposal_stops :
      (e : Option String) (h : DaemonHost)
      → Inv h
      → (is_stopped h.phase ≡ false → h.disposing ≡ true)
      → is_stopped (step thrown_by_stop (disposal_end e) h).0.phase ≡ true
  unfolding step is_there is_stopped is_idle
  disposal_stops none h v d = elim (Option-cases h.cleanup) [
    | inl none_left ↦ ground (arith, none_left)
    | inr (before, left) ↦ ground (arith, left)
  ]
  disposal_stops (some error) h v d = elim (Option-cases h.cleanup) [
    | inl none_left ↦ ground (arith, none_left)
    | inr (before, left) ↦ ground (arith, left)
  ]

  -- Once stop was called, the end of the drain and then that of the disposal, however they end,
  -- leave the promise of stop resolved or rejected, whatever happened before and whatever the end
  -- of the connection throws.
  pub stop_settles :
      (events : List HostEvent) (d : DaemonDrainSummary ⊎ String) (e : Option String)
      → (run thrown_by_stop events create_daemon_host).0.stop_called ≡ true
      → is_there
          (run thrown_by_stop
            (events ++ drain_end d ∷ disposal_end e ∷ [])
            create_daemon_host).0.settled
        ≡ true
  unfolding run
  stop_settles events d e called =
      let h = (run thrown_by_stop events create_daemon_host).0 in
      let v = run-Inv events create_daemon_host created-Inv in
      let next = (step thrown_by_stop (drain_end d) h).0 in
      let w = step-Inv thrown_by_stop (drain_end d) h v in
      ap (λ s. is_there s.settled)
        (run-append events (drain_end d ∷ disposal_end e ∷ []) create_daemon_host)
      ∙ (step-Inv thrown_by_stop (disposal_end e) next w).settled_stopped
      ∙ disposal_stops e next w (drained_or_disposing d h v called)

  step_settled :
      (event : HostEvent) (h : DaemonHost)
      → Inv h
      → is_stopped h.phase ≡ true
      → ((step thrown_by_stop event h).0.settled ≡ h.settled)
        × (is_stopped (step thrown_by_stop event h).0.phase ≡ true)
        × ((step thrown_by_stop event h).1 ≡ [])
  unfolding step is_there is_stopped is_idle
  step_settled start_called h v s = ground arith
  step_settled (stop_host true) h v s = ground arith
  step_settled (stop_host false) h v s = ground arith
  step_settled (drain_done summary) h v s = ground arith
  step_settled (drain_failed error) h v s = ground arith
  step_settled disposal_done h v s = elim (Option-cases h.cleanup) [
    | inl none_left ↦ ground (arith, none_left)
    | inr (before, left) ↦ ground (arith, left)
  ]
  step_settled (disposal_failed error) h v s = elim (Option-cases h.cleanup) [
    | inl none_left ↦ ground (arith, none_left)
    | inr (before, left) ↦ ground (arith, left)
  ]

  pub settled_from :
      (events : List HostEvent) (h : DaemonHost)
      → Inv h
      → is_stopped h.phase ≡ true
      → ((run thrown_by_stop events h).0.settled ≡ h.settled)
        × ((run thrown_by_stop events h).1 ≡ [])
  unfolding run
  settled_from [] h v s = (refl, refl)
  settled_from (event ∷ events) h v s =
      let (same, still, quiet) = step_settled event h v s in
      let (later, calls) =
        settled_from events (step thrown_by_stop event h).0 (step-Inv thrown_by_stop event h v)
          still in
      (
        later ∙ same,
        ap (λ t. t ++ (run thrown_by_stop events (step thrown_by_stop event h).0).1) quiet ∙ calls,
      )
