-- ===== src/ManagedSessionHost/Steering.antt =====
-- src/local-runtime/session-host.ts: `steer`, which hands a text to a running turn or queues it as a prompt.
use openma_common.Common.{
  ℕ, Bool, true, false, Option, none, some, [], ◌∷◌, if◌then◌else◌, ◌==◌, length,
}
use openma_common.ManagedSessionHost.{
  PromptInput, World, done, steering, settling, SteerOutcome, steered, acp_steer, SessionHost, Step,
  put,
}
use openma_common.ManagedSessionHost.Sessions.{live_session, and_then}
use openma_common.ManagedSessionHost.Prompts.{no_such_session, prompt}

-- queueAsPrompt: at once, or once the open permission requests have settled. The steering call gives
-- its number to the prompt, which nothing waits for.
unfoldable pub queue_as_prompt : World → ℕ → PromptInput → ℕ → SessionHost → Step
unfolding prompt
queue_as_prompt w k input r h =
    if w.permission_open r then (put k (settling input) h, []) else prompt w k input h

unfoldable pub steer_live : World → ℕ → PromptInput → ℕ → SessionHost → Step
unfolding prompt queue_as_prompt
steer_live w k input r h =
    if length (h.objects r).turns == 0
    then prompt w k input h
    else if w.supports_steering r
    then (put k (steering input r) h, acp_steer r input.text ∷ [])
    else queue_as_prompt w k input r h

unfoldable pub steer_found : World → ℕ → PromptInput → Option ℕ → SessionHost → Step
unfolding no_such_session steer_live
steer_found w k input none h = (put k done h, no_such_session input ∷ [])
steer_found w k input (some r) h = steer_live w k input r h

unfoldable pub steer : World → ℕ → PromptInput → SessionHost → Step
unfolding live_session steer_found
steer w k input h =
    let found = live_session w input.session_id h in
    and_then found.1 (steer_found w k input found.0)

takes : SteerOutcome → Bool
takes steered = true
takes _ = false

-- A rejection, or an outcome other than taking the text, queues it as a prompt.
taken : World → Bool
unfolding takes
taken w = elim w.rejected [ none ↦ takes w.outcome | some error ↦ false ]

unfoldable pub after_steer : World → ℕ → PromptInput → ℕ → SessionHost → Step
unfolding taken queue_as_prompt
after_steer w k input r h = if taken w then (put k done h, []) else queue_as_prompt w k input r h
