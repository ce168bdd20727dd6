-- ===== src/ManagedSessionHost/Prompts.antt =====
-- src/local-runtime/session-host.ts: `prompt`, from one await to the next, with the lease of
-- the session's generation and the commit of a completed turn.
use openma_common.Common.{
  ℕ, String, str_eq, Bool, true, false, Option, none, some, [], ◌∷◌, if◌then◌else◌, ◌==◌, non_empty,
}
use openma_common.Common.Maps.{get, set, delete, has, add}
use openma_common.Common.Json.{Json, fields_of, text_at, property}
use openma_common.SessionKernel.Wire.{session_event, session_complete, session_error}
use openma_common.ManagedSessionHost.{
  Checkpoint, PromptInput, World, Task, done, leasing, streaming, committing, uncommitted, Output,
  emit, compare_and_set, acp_prompt, acp_dispose, SessionHost, Step, put, write_object,
}
use openma_common.ManagedSessionHost.Sessions.{is_some, lease_lost, live_session, and_then}
use openma_common.ManagedSessionHost.Starts.{draining_error, kept}

unfoldable pub no_such_session : PromptInput → Output
no_such_session input = emit (session_error input.session_id (some input.turn_id) "no such session")

completed : PromptInput → Output
completed input = emit (session_complete input.session_id input.turn_id)

-- { ...session.checkpoint, updatedAt }, and with the turn that is completed
touched : World → Checkpoint → Checkpoint
touched w checkpoint = record checkpoint { updated_at = w.now }

with_turn : World → String → Checkpoint → Checkpoint
with_turn w turn_id checkpoint = record checkpoint {
  last_completed_turn_id = some turn_id;
  updated_at = w.now;
}

-- The await of the lease; where there is no checkpoint nothing is written, and the call goes on after
-- what is ready to go on before it.
unfoldable pub lease : World → ℕ → PromptInput → ℕ → Option Checkpoint → SessionHost → Step
unfolding touched
lease w k input r none h = (put k (leasing input r none) h, [])
lease w k input r (some checkpoint) h =
    let next = touched w checkpoint in
    (put k (leasing input r (some next)) h, compare_and_set (some checkpoint.generation) next ∷ [])

unfoldable pub admit : World → ℕ → PromptInput → ℕ → Bool → SessionHost → Step
unfolding draining_error lease
admit w k input r in_flight h =
    if in_flight
    then (put k done h, [])
    else if h.draining
    then (put k done h, draining_error input.session_id (some input.turn_id) ∷ [])
    else lease w k input r (h.objects r).checkpoint h

unfoldable pub prompt_found : World → ℕ → PromptInput → Option ℕ → SessionHost → Step
unfolding no_such_session completed admit is_some
prompt_found w k input none h = (put k done h, no_such_session input ∷ [])
prompt_found w k input (some r) h =
    if has input.turn_id (h.objects r).completed_turns
    then (put k done h, completed input ∷ [])
    else admit w k input r (is_some (get input.turn_id (h.objects r).turns)) h

unfoldable pub prompt : World → ℕ → PromptInput → SessionHost → Step
unfolding live_session prompt_found
prompt w k input h =
    let found = live_session w input.session_id h in
    and_then found.1 (prompt_found w k input found.0)

-- if (this.#sessions.get(sessionId) === session) this.#sessions.delete(sessionId), and its disposal
unfoldable pub delete_if_same : String → ℕ → Option ℕ → SessionHost → SessionHost
delete_if_same session_id r none h = h
delete_if_same session_id r (some current) h =
    if current == r then record h { sessions = delete session_id h.sessions } else h

unfoldable pub lose : String → ℕ → SessionHost → Step
unfolding delete_if_same
lose session_id r h =
    (delete_if_same session_id r (get session_id h.sessions) h, acp_dispose r ∷ [])

-- The session's checkpoint once it was written.
unfoldable pub remember_written : ℕ → Option Checkpoint → SessionHost → SessionHost
remember_written r none h = h
remember_written r (some checkpoint) h =
    write_object r (record (h.objects r) { checkpoint = some checkpoint }) h

-- session.turns.set(turnId, controller), and the agent's prompt
unfoldable pub run_turn : ℕ → PromptInput → ℕ → SessionHost → Step
run_turn k input r h =
    let session = h.objects r in
    (
      put k (streaming input r none)
          (write_object r (record session { turns = set input.turn_id k session.turns }) h),
      acp_prompt r k input.text ∷ [],
    )

unfoldable pub after_retained : ℕ → PromptInput → ℕ → SessionHost → Step
unfolding draining_error run_turn
after_retained k input r h =
    if h.draining
    then (put k done h, draining_error input.session_id (some input.turn_id) ∷ [])
    else run_turn k input r h

-- Whether the write that a call waits for went through; it did where there was none to make.
unfoldable pub went_through : World → Option Checkpoint → Bool
unfolding kept
went_through w none = true
went_through w (some checkpoint) = kept w

unfoldable pub after_lease : World → ℕ → PromptInput → ℕ → Option Checkpoint → SessionHost → Step
unfolding went_through after_retained remember_written lose
after_lease w k input r checkpoint h =
    if went_through w checkpoint
    then after_retained k input r (remember_written r checkpoint h)
    else lose input.session_id r (put k (Task.losing input.session_id) h)

-- finally: session.turns.delete(turnId)
unfoldable pub turn_ended : ℕ → PromptInput → ℕ → SessionHost → SessionHost
turn_ended k input r h =
    let session = h.objects r in
    put k done (write_object r (record session { turns = delete input.turn_id session.turns }) h)

unfoldable pub fail_turn : ℕ → PromptInput → ℕ → String → SessionHost → Step
unfolding turn_ended
fail_turn k input r message h = (
  turn_ended k input r h,
  emit (session_error input.session_id (some input.turn_id) message) ∷ [],
)

unfoldable pub commit : World → ℕ → PromptInput → ℕ → Option Checkpoint → SessionHost → Step
unfolding with_turn
commit w k input r none h = (put k (committing input r none) h, [])
commit w k input r (some checkpoint) h =
    let next = with_turn w input.turn_id checkpoint in
    (
      put k (committing input r (some next)) h,
      compare_and_set (some checkpoint.generation) next ∷ [],
    )

-- After the loop; an empty error counts as none.
unfoldable pub after_stream : World → ℕ → PromptInput → ℕ → Option String → SessionHost → Step
unfolding fail_turn commit
after_stream w k input r none h = commit w k input r (h.objects r).checkpoint h
after_stream w k input r (some error) h =
    if non_empty error
    then fail_turn k input r error h
    else commit w k input r (h.objects r).checkpoint h

has_type : String → Option String → Bool
has_type type none = false
has_type type (some s) = str_eq s type

error_or_default : Option String → String
error_or_default none = "ACP prompt error (no message)"
error_or_default (some error) = error

-- One event of the agent's stream.
unfoldable pub stream_event : ℕ → PromptInput → ℕ → Option String → Json → SessionHost → Step
unfolding has_type error_or_default text_at property fields_of
stream_event k input r error event h =
    let type = text_at "type" (fields_of event) in
    if has_type "promptComplete" type
    then (h, emit (session_event input.session_id input.turn_id event) ∷ [])
    else if has_type "promptError" type
    then (
      put k (streaming input r (some (error_or_default (text_at "error" (fields_of event))))) h,
      [],
    )
    else (h, emit (session_event input.session_id input.turn_id event) ∷ [])

-- The stream gives an event or ends; an aborted turn leaves the loop at the next event.
unfoldable pub next_of_stream :
    World → ℕ → PromptInput → ℕ → Option String → Option Json → SessionHost → Step
unfolding after_stream stream_event
next_of_stream w k input r error none h = after_stream w k input r error h
next_of_stream w k input r error (some event) h =
    if h.aborted k then after_stream w k input r error h else stream_event k input r error event h

unfoldable pub after_event :
    World → ℕ → PromptInput → ℕ → Option String → Option String → SessionHost → Step
unfolding fail_turn next_of_stream
after_event w k input r error (some message) h = fail_turn k input r message h
after_event w k input r error none h = next_of_stream w k input r error w.next_event h

unfoldable pub complete_turn : ℕ → PromptInput → ℕ → SessionHost → Step
unfolding completed turn_ended
complete_turn k input r h =
    let session = h.objects r in
    (
      turn_ended k input r (
          write_object r
            (record session { completed_turns = add input.turn_id session.completed_turns }) h),
      completed input ∷ [],
    )

unfoldable pub after_commit : World → ℕ → PromptInput → ℕ → Option Checkpoint → SessionHost → Step
unfolding went_through complete_turn remember_written lose
after_commit w k input r checkpoint h =
    if went_through w checkpoint
    then complete_turn k input r (remember_written r checkpoint h)
    else lose input.session_id r (put k (uncommitted input r) h)

unfoldable pub after_uncommitted : ℕ → PromptInput → ℕ → SessionHost → Step
unfolding turn_ended lease_lost
after_uncommitted k input r h = (turn_ended k input r h, lease_lost input.session_id ∷ [])
