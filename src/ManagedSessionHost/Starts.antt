-- ===== src/ManagedSessionHost/Starts.antt =====
-- src/local-runtime/session-host.ts: `start`, from one await to the next.
use Prim.Native.String.{◌++◌ as text_append}
use openma_common.Common.{
  ℕ, suc, String, Bool, false, Option, none, some, List, [], ◌∷◌, ◌++◌, if◌then◌else◌, non_empty,
}
use openma_common.Common.Maps.{get, set, delete}
use openma_common.SessionKernel.Wire.{session_ready, session_error}
use openma_common.ManagedSessionHost.{
  recovering, ready, Checkpoint, StartInput, World, done, loading, claiming, starting, readying,
  losing, Output, emit, load_checkpoint, compare_and_set, runtime_start, threw, SessionHost, Step,
  put, write_object,
}
use openma_common.ManagedSessionHost.Sessions.{lease_lost, drop_session, announce_one}

unfoldable pub generation_of : Option Checkpoint → Option ℕ
generation_of none = none
generation_of (some checkpoint) = some checkpoint.generation

-- (durableCheckpoint?.generation ?? 0) + 1
unfoldable pub next_generation : Option Checkpoint → ℕ
next_generation none = 1
next_generation (some checkpoint) = suc checkpoint.generation

unfoldable pub acp_id_of : Option Checkpoint → Option String
acp_id_of none = none
acp_id_of (some checkpoint) = some checkpoint.acp_session_id

-- The spread of a last completed turn: present if it is truthy.
truthy : Option String → Option String
truthy none = none
truthy (some s) = if non_empty s then some s else none

unfoldable pub last_completed_of : Option Checkpoint → Option String
unfolding truthy
last_completed_of none = none
last_completed_of (some checkpoint) = truthy checkpoint.last_completed_turn_id

or_empty : Option String → String
or_empty none = ""
or_empty (some s) = s

unfoldable pub claimed_checkpoint : String → World → StartInput → Option Checkpoint → Checkpoint
unfolding next_generation acp_id_of last_completed_of or_empty
claimed_checkpoint owner w input durable = record {
  session_id = input.session_id;
  generation = next_generation durable;
  owner_id = owner;
  acp_session_id = or_empty (acp_id_of durable);
  phase = recovering;
  updated_at = w.now;
  last_completed_turn_id = last_completed_of durable;
}

-- a ?? b
first_given : Option String → Option String → Option String
first_given none b = b
first_given (some a) b = some a

recovery_option : Option String → Option String → Option String
unfolding truthy
recovery_option own none = own
recovery_option own (some recovery) =
    if non_empty recovery then elim (truthy own) [ none ↦ some recovery | some s ↦ own ] else own

-- The options with the session id to recover from, if there is one and they name none themselves.
unfoldable pub start_options : StartInput → Option Checkpoint → List (String × String) → StartInput
unfolding recovery_option first_given acp_id_of
start_options input durable resume_ids =
    let recovery = first_given (get input.session_id resume_ids) (acp_id_of durable) in
    record input { resume_acp_session_id = recovery_option input.resume_acp_session_id recovery }

unfoldable pub run_start :
    ℕ → StartInput → Option Checkpoint → Option Checkpoint → SessionHost → Step
unfolding start_options
run_start k input durable claimed h = (
  put k (starting input durable claimed) h,
  runtime_start (start_options input durable h.resume_session_ids) ∷ [],
)

-- The first await of a start: the store's load, or the runtime's start where there is no store.
unfoldable pub begin_start : Option String → ℕ → StartInput → SessionHost → Step
unfolding run_start
begin_start none k input h = run_start k input none none h
begin_start (some owner) k input h =
    (put k (loading input) h, load_checkpoint input.session_id ∷ [])

unfoldable pub start_unless : Option String → ℕ → StartInput → Option ℕ → SessionHost → Step
unfolding begin_start
start_unless store k input none h = begin_start store k input h
start_unless store k input (some r) h = (h, [])

draining_message : String
draining_message = "runtime is draining; retry on another runtime"

unfoldable pub draining_error : String → Option String → Output
unfolding draining_message
draining_error session_id turn_id = emit (session_error session_id turn_id draining_message)

unfoldable pub start : Option String → World → ℕ → StartInput → SessionHost → Step
unfolding draining_error announce_one start_unless
start store w k input h =
    if h.draining
    then (h, draining_error input.session_id none ∷ [])
    else (let found = announce_one w input.session_id h in
        let rest = start_unless store k input found.0 found.1.0 in (rest.0, found.1.1 ++ rest.1))

-- catch (error): the message of a failed load or claim
checkpoint_failed : String → String → Output
checkpoint_failed session_id error =
    emit (session_error session_id none (text_append "session checkpoint failed: " error))

unfoldable pub after_load : String → World → ℕ → StartInput → Option String → SessionHost → Step
unfolding checkpoint_failed claimed_checkpoint generation_of
after_load owner w k input (some error) h =
    (put k done h, checkpoint_failed input.session_id error ∷ [])
after_load owner w k input none h =
    let claimed = claimed_checkpoint owner w input w.found in
    (put k (claiming input w.found claimed) h, compare_and_set (generation_of w.found) claimed ∷ [])

unfoldable pub after_claim :
    World → ℕ → StartInput → Option Checkpoint → Checkpoint → Option String → SessionHost → Step
unfolding checkpoint_failed lease_lost run_start
after_claim w k input durable claimed (some error) h =
    (put k done h, checkpoint_failed input.session_id error ∷ [])
after_claim w k input durable claimed none h =
    if w.saved
    then run_start k input durable (some claimed) h
    else (put k done h, lease_lost input.session_id ∷ [])

unfoldable pub one_of : Option String → List String
one_of none = []
one_of (some s) = s ∷ []

-- The session that the runtime started, under a new reference.
unfoldable pub install :
    World → StartInput → Option Checkpoint → Option Checkpoint → SessionHost → SessionHost
unfolding one_of last_completed_of
install w input durable claimed h =
    record (write_object h.next
      (record {
        acp_session_id = w.started_id;
        turns = [];
        completed_turns = one_of (last_completed_of durable);
        checkpoint = claimed;
      })
      h) { sessions = set input.session_id h.next h.sessions; next = suc h.next }

-- this.#resumeSessionIds.delete, and the event that the session is ready
unfoldable pub finish_start : ℕ → StartInput → String → SessionHost → Step
finish_start k input acp_session_id h = (
  put k done (record h { resume_session_ids = delete input.session_id h.resume_session_ids }),
  emit (session_ready input.session_id acp_session_id) ∷ [],
)

-- { ...claimedCheckpoint, acpSessionId, phase: "ready", updatedAt }
unfoldable pub ready_checkpoint : World → Checkpoint → Checkpoint
ready_checkpoint w claimed = record claimed {
  acp_session_id = w.started_id;
  phase = ready;
  updated_at = w.now;
}

unfoldable pub make_ready : World → ℕ → StartInput → ℕ → Option Checkpoint → SessionHost → Step
unfolding finish_start ready_checkpoint
make_ready w k input r none h = finish_start k input w.started_id h
make_ready w k input r (some claimed) h =
    let checkpoint = ready_checkpoint w claimed in
    (
      put k (readying input r checkpoint) h,
      compare_and_set (some claimed.generation) checkpoint ∷ [],
    )

unfoldable pub after_start :
    World
    → ℕ
    → StartInput
    → Option Checkpoint
    → Option Checkpoint
    → Option String
    → SessionHost
    → Step
unfolding make_ready install
after_start w k input durable claimed (some error) h =
    (put k done h, emit (session_error input.session_id none error) ∷ [])
after_start w k input durable claimed none h =
    make_ready w k input h.next claimed (install w input durable claimed h)

-- this.#sessions.get(input.sessionId)!.checkpoint = readyCheckpoint: whichever session has the id now,
-- and a TypeError where none has it.
unfoldable pub set_ready : ℕ → StartInput → Checkpoint → Option ℕ → SessionHost → Step
unfolding finish_start
set_ready k input checkpoint none h = (put k done h, threw ∷ [])
set_ready k input checkpoint (some r) h =
    finish_start k input checkpoint.acp_session_id
      (write_object r (record (h.objects r) { checkpoint = some checkpoint }) h)

-- .catch(() => false)
unfoldable pub kept : World → Bool
kept w = elim w.rejected [ none ↦ w.saved | some error ↦ false ]

unfoldable pub after_ready : World → ℕ → StartInput → ℕ → Checkpoint → SessionHost → Step
unfolding kept set_ready drop_session
after_ready w k input r checkpoint h =
    if kept w
    then set_ready k input checkpoint (get input.session_id h.sessions) h
    else drop_session input.session_id r (put k (losing input.session_id) h)
