-- ===== src/ManagedSessionHost/Disposal.antt =====
-- src/local-runtime/session-host.ts: `dispose`, `cancel`, and the disposal of all sessions.
use openma_common.Common.{
  ℕ, String, Bool, true, false, Option, none, some, List, [], ◌∷◌, ◌++◌, if◌then◌else◌, ◌==◌,
}
use openma_common.Common.Maps.{get, delete}
use openma_common.SessionKernel.Wire.{session_disposed}
use openma_common.ManagedSessionHost.{
  Checkpoint, DrainReport, World, done, disposing, deleting, disposing_all, cancelling, Output,
  emit, delete_checkpoint, acp_dispose, sleep, drained, SessionHost, Step, update, put,
}
use openma_common.ManagedSessionHost.Sessions.{
  is_some, remember_for_recovery, drop_session, and_then,
}

-- controller.abort() for each turn of a session
unfoldable pub abort_turns : List (String × ℕ) → (ℕ → Bool) → ℕ → Bool
abort_turns [] aborted = aborted
abort_turns ((turn_id, c) ∷ turns) aborted = abort_turns turns (update c true aborted)

unfoldable pub abort_session : ℕ → SessionHost → SessionHost
abort_session r h = record h { aborted = abort_turns (h.objects r).turns h.aborted }

unfoldable pub fence_of : Option Checkpoint → Option (ℕ × String)
fence_of none = none
fence_of (some checkpoint) = some (checkpoint.generation, checkpoint.owner_id)

unfoldable pub checkpoint_of : Option ℕ → SessionHost → Option Checkpoint
checkpoint_of none h = none
checkpoint_of (some r) h = (h.objects r).checkpoint

-- The rest of a disposal, up to the store's answer or to its end where there is no store.
unfoldable pub forget : Option String → ℕ → String → Option ℕ → SessionHost → Step
unfolding fence_of checkpoint_of
forget none k session_id r h = (
  put k done (record h { resume_session_ids = delete session_id h.resume_session_ids }),
  emit (session_disposed session_id) ∷ [],
)
forget (some owner) k session_id r h = (
  put k (deleting session_id)
      (record h { resume_session_ids = delete session_id h.resume_session_ids }),
  delete_checkpoint session_id (fence_of (checkpoint_of r h)) ∷ [],
)

unfoldable pub dispose_found : Option String → ℕ → String → Option ℕ → SessionHost → Step
unfolding forget abort_session
dispose_found store k session_id none h = forget store k session_id none h
dispose_found store k session_id (some r) h =
    (put k (disposing session_id r) (abort_session r h), acp_dispose r ∷ [])

unfoldable pub dispose : Option String → ℕ → String → SessionHost → Step
unfolding dispose_found
dispose store k session_id h = dispose_found store k session_id (get session_id h.sessions) h

unfoldable pub after_dispose : Option String → ℕ → String → ℕ → SessionHost → Step
unfolding forget
after_dispose store k session_id r h =
    forget store k session_id (some r) (record h { sessions = delete session_id h.sessions })

unfoldable pub after_delete : ℕ → String → SessionHost → Step
after_delete k session_id h = (put k done h, emit (session_disposed session_id) ∷ [])

unfoldable pub abort_all : List (String × ℕ) → SessionHost → SessionHost
unfolding abort_session
abort_all [] h = h
abort_all ((session_id, r) ∷ entries) h = abort_all entries (abort_session r h)

unfoldable pub disposals : List (String × ℕ) → List Output
disposals [] = []
disposals ((session_id, r) ∷ entries) = acp_dispose r ∷ disposals entries

reported : Option DrainReport → List Output
reported none = []
reported (some report) = drained report ∷ []

-- Promise.all over what is left of the sessions.
unfoldable pub wait_for_all : ℕ → List (String × ℕ) → Option DrainReport → SessionHost → Step
unfolding reported
wait_for_all k [] report h = (put k done h, reported report)
wait_for_all k (entry ∷ entries) report h = (put k (disposing_all (entry ∷ entries) report) h, [])

-- All sessions that the map has now are aborted and disposed; a drain gives its report at the end.
unfoldable pub dispose_all : ℕ → Option DrainReport → SessionHost → Step
unfolding abort_all disposals wait_for_all
dispose_all k report h =
    let waiting = wait_for_all k h.sessions report (abort_all h.sessions h) in
    (waiting.0, disposals h.sessions ++ waiting.1)

-- One of the disposals that are pending has ended: the session with that id leaves the map.
unfoldable pub one_of_all_ended :
    World → ℕ → List (String × ℕ) → Option DrainReport → Option ℕ → SessionHost → Step
unfolding wait_for_all
one_of_all_ended w k entries report none h = (h, [])
one_of_all_ended w k entries report (some r) h =
    wait_for_all k (delete w.disposed_id entries) report
      (record h { sessions = delete w.disposed_id h.sessions })

unfoldable pub after_one_of_all :
    World → ℕ → List (String × ℕ) → Option DrainReport → SessionHost → Step
unfolding one_of_all_ended
after_one_of_all w k entries report h =
    one_of_all_ended w k entries report (get w.disposed_id entries) h

-- The second look of a cancel, after the grace: the same session, and the turn still there.
unfoldable pub same_session : ℕ → Option ℕ → Bool
same_session r none = false
same_session r (some current) = current == r

unfoldable pub cancel_turn : Option ℕ → ℕ → String → String → ℕ → Option ℕ → SessionHost → Step
cancel_turn grace k session_id turn_id r none h = (put k done h, [])
cancel_turn none k session_id turn_id r (some c) h =
    (put k done (record h { aborted = update c true h.aborted }), [])
cancel_turn (some ms) k session_id turn_id r (some c) h = (
  put k (cancelling session_id turn_id r) (record h { aborted = update c true h.aborted }),
  sleep ms ∷ [],
)

unfoldable pub cancel_found : Option ℕ → ℕ → String → String → Option ℕ → SessionHost → Step
unfolding cancel_turn
cancel_found grace k session_id turn_id none h = (put k done h, [])
cancel_found grace k session_id turn_id (some r) h =
    cancel_turn grace k session_id turn_id r (get turn_id (h.objects r).turns) h

unfoldable pub cancel : Option ℕ → ℕ → String → String → SessionHost → Step
unfolding cancel_found
cancel grace k session_id turn_id h =
    cancel_found grace k session_id turn_id (get session_id h.sessions) h

unfoldable pub after_grace : World → ℕ → String → String → ℕ → SessionHost → Step
unfolding same_session is_some remember_for_recovery drop_session
after_grace w k session_id turn_id r h =
    if same_session r (get session_id h.sessions)
    then (if is_some (get turn_id (h.objects r).turns)
        then and_then (remember_for_recovery w session_id r (put k done h))
            (drop_session session_id r)
        else (put k done h, []))
    else (put k done h, [])
