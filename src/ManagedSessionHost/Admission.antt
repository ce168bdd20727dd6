-- ===== src/ManagedSessionHost/Admission.antt =====
-- src/local-runtime/session-host.ts: once a drain was called, no turn is admitted.
use openma_common.Common.{
  ℕ, suc, ◌+◌, String, Option, none, some, List, [], ◌∷◌, ◌++◌, ◌≡◌, refl, arith, All-append, All,
}
use openma_common.ManagedSessionHost.{
  DrainOptions, World, Output, emit, load_checkpoint, compare_and_set, delete_checkpoint,
  runtime_start, acp_prompt, acp_steer, acp_dispose, sleep, progress, returned, counted, drained,
  threw, new_host,
}
use openma_common.ManagedSessionHost.Drains.{drain}
use openma_common.ManagedSessionHost.Steps.{drain_called, HostStep, call, make_call, step, run}
use openma_common.ManagedSessionHost.Fencing.{Written, same-Inv}
use openma_common.ManagedSessionHost.Fencing.Closing.{drain-Fenced}
use openma_common.ManagedSessionHost.Grants.{OwnedBy, new-Inv, run-Fenced}

is_agent_prompt : Output → ℕ
is_agent_prompt (acp_prompt r k text) = 1
is_agent_prompt _ = 0

-- How many prompts of an agent there are in a list of outputs.
unfoldable pub agent_prompts : List Output → ℕ
unfolding is_agent_prompt
agent_prompts [] = 0
agent_prompts (output ∷ outputs) = is_agent_prompt output + agent_prompts outputs

own_id : Option String → String
own_id none = ""
own_id (some owner) = owner

own_id-OwnedBy : (store : Option String) → OwnedBy (own_id store) store
unfolding own_id
own_id-OwnedBy none = tt
own_id-OwnedBy (some owner) = refl

-- The generations do not matter here.
abbrev AnyGeneration : String → ℕ → Type 0
AnyGeneration session_id generation = Unit {0}

no_prompt :
    (o : String) (output : Output)
    → Written o AnyGeneration (Unit {0}) output
    → is_agent_prompt output ≡ 0
unfolding is_agent_prompt
no_prompt o (acp_prompt r k text) p = absurd (p tt)
no_prompt o (emit event) p = refl
no_prompt o (load_checkpoint session_id) p = refl
no_prompt o (compare_and_set expected c) p = refl
no_prompt o (delete_checkpoint session_id fence) p = refl
no_prompt o (runtime_start input) p = refl
no_prompt o (acp_steer r text) p = refl
no_prompt o (acp_dispose r) p = refl
no_prompt o (sleep ms) p = refl
no_prompt o (progress n left) p = refl
no_prompt o (returned b) p = refl
no_prompt o (counted n) p = refl
no_prompt o (drained report) p = refl
no_prompt o threw p = refl

no_prompts :
    (o : String) (outputs : List Output)
    → All (Written o AnyGeneration (Unit {0})) outputs
    → agent_prompts outputs ≡ 0
unfolding agent_prompts
no_prompts o [] p = refl
no_prompts o (output ∷ outputs) p = omega (arith, no_prompt o output p.0, no_prompts o outputs p.1)

module _ (store : Option String) (grace : Option ℕ) where
  -- Once a drain was called on a host, after any steps of a new one, no agent is prompted any more,
  -- whatever is called and answered afterwards, also for prompts that were waiting for their lease
  -- when the drain began.
  pub drained_admits_none :
      (before after : List (World × HostStep)) (w : World) (options : DrainOptions)
      → agent_prompts
          (run store grace
            ((w, call (drain_called options)) ∷ after)
            (run store grace before new_host).0).1
        ≡ 0
  unfolding run step make_call
  drained_admits_none before after w options =
      let o = own_id store in
      let own = own_id-OwnedBy store in
      let h = (run store grace before new_host).0 in
      let v =
        (run-Fenced store grace o AnyGeneration ⊥ own before new_host (λ x m. tt)
          (new-Inv o AnyGeneration)).host_inv in
      let numbered = record h { next = suc h.next } in
      let begun = drain w h.next options numbered in
      let p =
        drain-Fenced o AnyGeneration (Unit {0}) w h.next ⊥ options numbered
          (same-Inv o AnyGeneration ⊥ h numbered refl refl refl v) in
      let q =
        run-Fenced store grace o AnyGeneration (Unit {0}) own after begun.0 (λ x m. tt)
          p.host_inv in
      no_prompts o (begun.1 ++ (run store grace after begun.0).1) (
        All-append (Written o AnyGeneration (Unit {0})) begun.1 (run store grace after begun.0).1
          p.all_written q.all_written)
