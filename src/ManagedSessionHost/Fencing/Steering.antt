-- ===== src/ManagedSessionHost/Fencing/Steering.antt =====
-- src/local-runtime/session-host.ts: steering writes fenced checkpoints.
use openma_common.Common.{ℕ, String, Option, none, some, ◌==◌, length}
use openma_common.ManagedSessionHost.{PromptInput, done, steering, settling, World, SessionHost}
use openma_common.ManagedSessionHost.Sessions.{live_session}
use openma_common.ManagedSessionHost.Steering.{
  queue_as_prompt, steer_live, steer_found, steer, after_steer,
}
use openma_common.ManagedSessionHost.Fencing.{
  Inv, Fenced, fenced, put-Inv, either-Fenced, and_then-Fenced,
}
use openma_common.ManagedSessionHost.Fencing.Sessions.{live-Fenced}
use openma_common.ManagedSessionHost.Fencing.Turns.{prompt-Fenced}

module _ (o : String) (P : String → ℕ → Type 0) (D : Type 0) (w : World) (k : ℕ) where
  queue-Fenced :
      (input : PromptInput) (r : ℕ) (h : SessionHost)
      → Inv o P D h
      → Fenced o P D (queue_as_prompt w k input r h)
  unfolding queue_as_prompt
  queue-Fenced input r h v =
      either-Fenced o P D (w.permission_open r)
        (fenced o P D (put-Inv o P D k (settling input) h tt v) tt)
        (prompt-Fenced o P D w k input h v)

  steer_found-Fenced :
      (input : PromptInput) (found : Option ℕ) (h : SessionHost)
      → Inv o P D h
      → Fenced o P D (steer_found w k input found h)
  unfolding steer_found steer_live
  steer_found-Fenced input none h v = fenced o P D (put-Inv o P D k done h tt v) (tt, tt)
  steer_found-Fenced input (some r) h v =
      either-Fenced o P D (length (h.objects r).turns == 0) (prompt-Fenced o P D w k input h v) (
        either-Fenced o P D (w.supports_steering r)
          (fenced o P D (put-Inv o P D k (steering input r) h tt v) (tt, tt))
          (queue-Fenced input r h v))

  pub steer-Fenced :
      (input : PromptInput) (h : SessionHost) → Inv o P D h → Fenced o P D (steer w k input h)
  unfolding steer
  steer-Fenced input h v =
      let found = live_session w input.session_id h in
      let p = live-Fenced o P D w input.session_id h v in
      and_then-Fenced o P D found.1 (steer_found w k input found.0) p
        (steer_found-Fenced input found.0 found.1.0 p.host_inv)

  pub after_steer-Fenced :
      (input : PromptInput) (r : ℕ) (h : SessionHost)
      → Inv o P D h
      → Fenced o P D (after_steer w k input r h)
  unfolding after_steer
  after_steer-Fenced input r h v =
      either-Fenced o P D _ (fenced o P D (put-Inv o P D k done h tt v) tt)
        (queue-Fenced input r h v)
