-- ===== src/SessionKernel/Lifecycle/Laws.antt =====
-- src/session-kernel/index.ts: invariants of the lifecycle reducer, its diagram and stale events.
use openma_common.Common.{
  String, true, Option, none, some, List, [], ◌∷◌, ◌≡◌, refl, ◌≢◌, ◌⊎◌, arith, All, ite, non_empty,
  String_discrete,
}
use openma_common.SessionKernel.Lifecycle.{
  SessionLifecycleStatus, starting, ready, running, errored, disposed, SessionLifecycle,
  SessionLifecycleEvent, start_requested, prompt_requested, prompt_cancelled, session_complete,
  session_error, initial_session_lifecycle, reduce_session_lifecycle, reduce_all,
}

-- What holds of a lifecycle between two events.
pub record Inv (s : SessionLifecycle) : Type 0 where
  pub running_turn : s.status ≡ running → s.active_turn_id ≢ none
  pub turn_running : s.active_turn_id ≢ none → (s.status ≡ running) ⊎ (s.status ≡ starting)
  pub errored_reason : s.status ≡ errored → s.last_error ≢ none
  pub healthy : (s.status ≡ running) ⊎ (s.status ≡ starting) → s.last_error ≡ none

reduce-Inv :
    (s : SessionLifecycle) (e : SessionLifecycleEvent) → Inv s → Inv (reduce_session_lifecycle s e)
unfolding reduce_session_lifecycle
reduce-Inv s e h = ground arith

initial-Inv : (id : String) → Inv (initial_session_lifecycle id)
unfolding initial_session_lifecycle
initial-Inv id = ground arith

reduce_all-Inv :
    (s : SessionLifecycle) (es : List SessionLifecycleEvent) → Inv s → Inv (reduce_all s es)
unfolding reduce_all
reduce_all-Inv s [] h = h
reduce_all-Inv s (e ∷ es) h = reduce_all-Inv (reduce_session_lifecycle s e) es (reduce-Inv s e h)

-- After any sequence of lifecycle events a running session has an active turn, an active turn
-- exists only while the session is running or starting, an errored session has a reason, and a
-- running or starting session has none.
pub history-Inv :
    (id : String) (es : List SessionLifecycleEvent)
    → Inv (reduce_all (initial_session_lifecycle id) es)
history-Inv id es = reduce_all-Inv (initial_session_lifecycle id) es (initial-Inv id)

-- The diagram of the statuses.
infix 40 ◌⟶◌
pub data ◌⟶◌ : SessionLifecycleStatus → SessionLifecycleStatus → Type 0 where
  stay : {s : SessionLifecycleStatus} → s ⟶ s
  start : {s : SessionLifecycleStatus} → s ≢ disposed → s ⟶ starting
  report_ready : {s : SessionLifecycleStatus} → s ≢ disposed → s ⟶ ready
  prompt : {s : SessionLifecycleStatus} → s ≢ disposed → s ⟶ running
  fail : {s : SessionLifecycleStatus} → s ⟶ errored
  dispose : {s : SessionLifecycleStatus} → s ⟶ disposed

-- From a well-formed state every event keeps the status or follows the diagram, in which starting,
-- ready and running are entered only from a status other than disposed, and errored and disposed
-- from any.
pub reduce-⟶ :
    (s : SessionLifecycle) (e : SessionLifecycleEvent)
    → Inv s
    → s.status ⟶ (reduce_session_lifecycle s e).status
unfolding reduce_session_lifecycle
reduce-⟶ s e h = grind (arith, stay, start, report_ready, prompt, fail, dispose)

abbrev pub IsQuiet : SessionLifecycleEvent → Type 0
IsQuiet (session_error t m) = ⊥
IsQuiet _ = Unit {0}

disposed_step :
    (s : SessionLifecycle) (e : SessionLifecycleEvent)
    → Inv s
    → s.status ≡ disposed
    → IsQuiet e
    → reduce_session_lifecycle s e ≡ s
unfolding reduce_session_lifecycle
disposed_step s e h d q = ground arith

-- A well-formed disposed session is left as it is by every sequence of events in which there is no
-- session error.
disposed_absorbs :
    (s : SessionLifecycle) (es : List SessionLifecycleEvent)
    → Inv s
    → s.status ≡ disposed
    → All IsQuiet es
    → reduce_all s es ≡ s
unfolding reduce_all
disposed_absorbs s [] h d q = refl
disposed_absorbs s (e ∷ es) h d q = rw (disposed_step s e h d q.0) (disposed_absorbs s es h d q.1)

-- Any session error that reaches a well-formed disposed session, followed by a start request, makes
-- the session starting with no error: disposal is not final.
pub disposed_reopened :
    (s : SessionLifecycle) (turn : Option String) (message : String)
    → Inv s
    → s.status ≡ disposed
    → let t = reduce_all s (session_error turn message ∷ start_requested ∷ []) in
      (t.status ≡ starting) × (t.last_error ≡ none)
unfolding reduce_all reduce_session_lifecycle
disposed_reopened s turn message h d = ground arith

-- While a turn with a non-empty id runs in a session that is not disposed, a completion or
-- cancellation of a turn makes the session ready if it is that turn and changes nothing otherwise;
-- an error that names a turn fails the session if it is that turn and changes nothing otherwise; an
-- error that names no turn fails the session.
pub settle_exact :
    (s : SessionLifecycle) (turn other message : String)
    → s.status ≢ disposed
    → non_empty turn ≡ true
    → non_empty other ≡ true
    → let t = reduce_session_lifecycle s (prompt_requested turn) in
      let settled = record s { status = ready; active_turn_id = none; last_error = none } in
      let failed = record s {
        status = errored;
        active_turn_id = none;
        last_error = some message;
      } in
      (reduce_session_lifecycle t (session_complete other)
        ≡ ite (String_discrete turn other) settled t)
      × (reduce_session_lifecycle t (prompt_cancelled other)
          ≡ ite (String_discrete turn other) settled t)
      × (reduce_session_lifecycle t (session_error (some other) message)
          ≡ ite (String_discrete turn other) failed t)
      × (reduce_session_lifecycle t (session_error none message) ≡ failed)
unfolding reduce_session_lifecycle
settle_exact s turn other message h p q = ground arith
