-- ===== src/ManagedSessionHost/Steps.antt =====
-- src/local-runtime/session-host.ts: the calls of the host's methods, and the steps in which pending calls
-- go on.
use openma_common.Common.{ℕ, suc, String, Option, none, some, List, [], ◌∷◌, ◌++◌, if◌then◌else◌}
use openma_common.ManagedSessionHost.{
  Checkpoint, StartInput, PromptInput, DrainOptions, World, Task, done, loading, claiming, starting,
  readying, losing, remembering, leasing, streaming, committing, uncommitted, steering, settling,
  disposing, deleting, disposing_all, polling, aborting, cancelling, SessionHost, Step, put,
  write_object,
}
use openma_common.ManagedSessionHost.Sessions.{
  has_session, announce, announce_all, session_count, lease_lost,
}
use openma_common.ManagedSessionHost.Starts.{
  start, after_load, after_claim, after_start, after_ready, kept,
}
use openma_common.ManagedSessionHost.Prompts.{
  prompt, after_lease, after_event, after_commit, after_uncommitted,
}
use openma_common.ManagedSessionHost.Steering.{steer, after_steer}
use openma_common.ManagedSessionHost.Disposal.{
  dispose, dispose_all, cancel, after_dispose, after_delete, after_one_of_all, after_grace,
}
use openma_common.ManagedSessionHost.Drains.{drain, poll}

pub data HostCall : Type 0 where
  has_called : String → HostCall
  session_count_called : HostCall
  announce_called : String → HostCall
  announce_all_called : HostCall
  start_called : StartInput → HostCall
  prompt_called : PromptInput → HostCall
  steer_called : PromptInput → HostCall
  dispose_called : String → HostCall
  dispose_all_called : HostCall
  drain_called : DrainOptions → HostCall
  cancel_called : String → String → HostCall

pub data HostStep : Type 0 where
  call : HostCall → HostStep
  go_on : ℕ → HostStep

-- `.then((saved) => { if (saved) session.checkpoint = recovering })`
unfoldable pub after_save : World → ℕ → ℕ → Checkpoint → SessionHost → Step
unfolding kept
after_save w k r checkpoint h =
    if kept w
    then (put k done (write_object r (record (h.objects r) { checkpoint = some checkpoint }) h), [])
    else (put k done h, [])

-- A load is pending only where there is a store.
unfoldable pub load_ended : Option String → World → ℕ → StartInput → SessionHost → Step
unfolding after_load
load_ended none w k input h = (put k done h, [])
load_ended (some owner) w k input h = after_load owner w k input w.rejected h

-- `store` is the host's own id where it has a checkpoint store, `grace` the grace of a cancel, if any.
module _ (store : Option String) (grace : Option ℕ) where
  unfoldable pub make_call : World → ℕ → HostCall → SessionHost → Step
  unfolding has_session announce announce_all session_count start prompt steer dispose dispose_all
      cancel drain
  make_call w k (has_called session_id) h = has_session w session_id h
  make_call w k session_count_called h = session_count w h
  make_call w k (announce_called session_id) h = announce w session_id h
  make_call w k announce_all_called h = announce_all w h.sessions h
  make_call w k (start_called input) h = start store w k input h
  make_call w k (prompt_called input) h = prompt w k input h
  make_call w k (steer_called input) h = steer w k input h
  make_call w k (dispose_called session_id) h = dispose store k session_id h
  make_call w k dispose_all_called h = dispose_all k none h
  make_call w k (drain_called options) h = drain w k options h
  make_call w k (cancel_called session_id turn_id) h = cancel grace k session_id turn_id h

  unfoldable pub resume : World → ℕ → Task → SessionHost → Step
  unfolding load_ended after_claim after_start after_ready lease_lost after_save after_lease
      after_event after_commit after_uncommitted after_steer prompt after_dispose after_delete
      after_one_of_all poll dispose_all after_grace
  resume w k done h = (h, [])
  resume w k (loading input) h = load_ended store w k input h
  resume w k (claiming input durable claimed) h = after_claim w k input durable claimed w.rejected h
  resume w k (starting input durable claimed) h = after_start w k input durable claimed w.rejected h
  resume w k (readying input r checkpoint) h = after_ready w k input r checkpoint h
  resume w k (losing session_id) h = (put k done h, lease_lost session_id ∷ [])
  resume w k (remembering r checkpoint) h = after_save w k r checkpoint h
  resume w k (leasing input r checkpoint) h = after_lease w k input r checkpoint h
  resume w k (streaming input r error) h = after_event w k input r error w.rejected h
  resume w k (committing input r checkpoint) h = after_commit w k input r checkpoint h
  resume w k (uncommitted input r) h = after_uncommitted k input r h
  resume w k (steering input r) h = after_steer w k input r h
  resume w k (settling input) h = prompt w k input h
  resume w k (disposing session_id r) h = after_dispose store k session_id r h
  resume w k (deleting session_id) h = after_delete k session_id h
  resume w k (disposing_all entries report) h = after_one_of_all w k entries report h
  resume w k (polling options started_at report) h = poll w k options started_at report h
  resume w k (aborting report) h = dispose_all k (some report) h
  resume w k (cancelling session_id turn_id r) h = after_grace w k session_id turn_id r h

  -- A call is numbered when it is made.
  unfoldable pub step : World → HostStep → SessionHost → Step
  unfolding make_call resume
  step w (call c) h = make_call w h.next c (record h { next = suc h.next })
  step w (go_on k) h = resume w k (h.tasks k) h

  -- The host after steps, and all that it did.
  unfoldable pub run : List (World × HostStep) → SessionHost → Step
  unfolding step
  run [] h = (h, [])
  run ((w, s) ∷ steps) h =
      let now = step w s h in let last = run steps now.0 in (last.0, now.1 ++ last.1)
