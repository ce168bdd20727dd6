-- ===== src/DaemonHost/Laws.antt =====
-- src/local-runtime/daemon-host.ts: what holds of a host after any events.
use openma_common.Common.{Bool, true, false, Option, none, some, ◌≡◌, arith, Option-cases, inl, inr}
use openma_common.DaemonHost.{
  DaemonHost, Failure, HostEvent, start_called, stop_host, drain_done, drain_failed, disposal_done,
  disposal_failed, step, is_stopped, is_idle,
}

unfoldable pub is_there : {A : Type 0} → Option A → Bool
is_there none = false
is_there (some a) = true

-- A stopped host has settled its promise and closed its connection; one that is stopping has a promise
-- pending that will go on with the stop.
pub record Inv (h : DaemonHost) : Type 0 where
  pub settled_stopped : is_there h.settled ≡ is_stopped h.phase
  pub stopped_closed : is_stopped h.phase ≡ true → h.closed ≡ true
  pub idle_uncalled : is_idle h.phase ≡ true → h.stop_called ≡ false
  pub pending :
      h.stop_called ≡ true
      → is_stopped h.phase ≡ false
      → h.forced ≡ false
      → h.disposal ≡ false
      → h.draining ≡ true
  pub forced_disposing : h.forced ≡ true → is_stopped h.phase ≡ false → h.disposing ≡ true
  pub forced_disposal : h.forced ≡ true → h.disposal ≡ true
  pub cleaning : h.disposal ≡ true → is_stopped h.phase ≡ false → h.disposing ≡ true
  pub cleanup_there : h.disposal ≡ true → h.forced ≡ false → is_there h.cleanup ≡ true
  pub uncalled :
      h.stop_called ≡ false
      → (h.forced ≡ false)
        × (h.disposal ≡ false)
        × (h.draining ≡ false)
        × (is_stopped h.phase ≡ false)
  pub disposing_disposal : h.disposing ≡ true → h.disposal ≡ true
  pub draining_open :
      h.draining ≡ true → h.forced ≡ false → (h.disposal ≡ false) × (is_stopped h.phase ≡ false)

module _ (thrown_by_stop : Option Failure) where
  pub step-Inv : (event : HostEvent) (h : DaemonHost) → Inv h → Inv (step thrown_by_stop event h).0
  unfolding step is_there is_stopped is_idle
  step-Inv start_called h v = ground arith
  step-Inv (stop_host true) h v = ground arith
  step-Inv (stop_host false) h v = ground arith
  step-Inv (drain_done summary) h v = ground arith
  step-Inv (drain_failed error) h v = ground arith
  step-Inv disposal_done h v = elim (Option-cases h.cleanup) [
    | inl e ↦ ground (arith, e)
    | inr (error, e) ↦ ground (arith, e)
  ]
  step-Inv (disposal_failed error) h v = elim (Option-cases h.cleanup) [
    | inl e ↦ ground (arith, e)
    | inr (before, e) ↦ ground (arith, e)
  ]
