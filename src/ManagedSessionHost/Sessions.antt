-- ===== src/ManagedSessionHost/Sessions.antt =====
-- src/local-runtime/session-host.ts: finding a live session, remembering a dead one, and what the host
-- tells of its sessions.
use openma_common.Common.{
  ℕ, suc, ◌+◌, String, Bool, true, false, Option, none, some, List, [], ◌∷◌, ◌++◌, length,
  if◌then◌else◌, non_empty,
}
use openma_common.Common.Maps.{get, set, delete}
use openma_common.SessionKernel.Wire.{session_ready, session_error}
use openma_common.ManagedSessionHost.{
  recovering, Checkpoint, ActiveSession, World, remembering, Output, emit, compare_and_set,
  acp_dispose, returned, counted, SessionHost, Step, put,
}

abbrev pub and_then : Step → (SessionHost → Step) → Step
and_then step next = let last = next step.0 in (last.0, step.1 ++ last.1)

unfoldable pub lease_lost : String → Output
lease_lost session_id =
    emit (session_error session_id none "runtime lost the session generation lease")

-- { ...session.checkpoint, acpSessionId, phase: "recovering", updatedAt }
recovering_checkpoint : ActiveSession → ℕ → Checkpoint → Checkpoint
recovering_checkpoint session now checkpoint = record checkpoint {
  acp_session_id = session.acp_session_id;
  phase = recovering;
  updated_at = now;
}

-- The write of the checkpoint is a call of its own, which nothing waits for.
unfoldable pub save_recovering : World → ℕ → ActiveSession → Option Checkpoint → SessionHost → Step
unfolding recovering_checkpoint
save_recovering w r session none h = (h, [])
save_recovering w r session (some checkpoint) h =
    let saving = recovering_checkpoint session w.now checkpoint in
    (
      put h.next (remembering r saving) (record h { next = suc h.next }),
      compare_and_set (some checkpoint.generation) saving ∷ [],
    )

-- this.#resumeSessionIds.set, for an agent's session id that is not empty
unfoldable pub with_resume_id : String → String → SessionHost → SessionHost
with_resume_id session_id acp_session_id h =
    if non_empty acp_session_id
    then record h { resume_session_ids = set session_id acp_session_id h.resume_session_ids }
    else h

unfoldable pub remember_for_recovery : World → String → ℕ → SessionHost → Step
unfolding with_resume_id save_recovering
remember_for_recovery w session_id r h =
    let session = h.objects r in
    save_recovering w r session session.checkpoint
      (with_resume_id session_id session.acp_session_id h)

-- this.#sessions.delete(sessionId), and the disposal of an agent's session that nothing waits for
unfoldable pub drop_session : String → ℕ → SessionHost → Step
drop_session session_id r h =
    (record h { sessions = delete session_id h.sessions }, acp_dispose r ∷ [])

unfoldable pub check_alive : World → String → Option ℕ → SessionHost → Option ℕ × Step
unfolding remember_for_recovery drop_session
check_alive w session_id none h = (none, (h, []))
check_alive w session_id (some r) h =
    if w.alive r
    then (some r, (h, []))
    else (none, and_then (remember_for_recovery w session_id r h) (drop_session session_id r))

-- The live session of an id, and what looking for it does.
unfoldable pub live_session : World → String → SessionHost → Option ℕ × Step
unfolding check_alive
live_session w session_id h = check_alive w session_id (get session_id h.sessions) h

unfoldable pub is_some : Option ℕ → Bool
is_some none = false
is_some (some r) = true

unfoldable pub has_session : World → String → SessionHost → Step
unfolding live_session is_some
has_session w session_id h =
    let found = live_session w session_id h in
    (found.1.0, found.1.1 ++ returned (is_some found.0) ∷ [])

unfoldable pub ready_of : String → SessionHost → Option ℕ → List Output
ready_of session_id h none = []
ready_of session_id h (some r) = emit (session_ready session_id (h.objects r).acp_session_id) ∷ []

unfoldable pub announce_one : World → String → SessionHost → Option ℕ × Step
unfolding live_session ready_of
announce_one w session_id h =
    let found = live_session w session_id h in
    (found.0, (found.1.0, found.1.1 ++ ready_of session_id found.1.0 found.0))

unfoldable pub announce : World → String → SessionHost → Step
unfolding announce_one is_some
announce w session_id h =
    let found = announce_one w session_id h in
    (found.1.0, found.1.1 ++ returned (is_some found.0) ∷ [])

-- Both loops run over the keys that the map has before them.
unfoldable pub announce_all : World → List (String × ℕ) → SessionHost → Step
unfolding announce_one
announce_all w [] h = (h, [])
announce_all w ((session_id, r) ∷ entries) h =
    and_then (announce_one w session_id h).1 (announce_all w entries)

unfoldable pub prune_dead_sessions : World → List (String × ℕ) → SessionHost → Step
unfolding live_session
prune_dead_sessions w [] h = (h, [])
prune_dead_sessions w ((session_id, r) ∷ entries) h =
    and_then (live_session w session_id h).1 (prune_dead_sessions w entries)

unfoldable pub session_count : World → SessionHost → Step
unfolding prune_dead_sessions
session_count w h =
    let pruned = prune_dead_sessions w h.sessions h in
    (pruned.0, pruned.1 ++ counted (length pruned.0.sessions) ∷ [])

unfoldable pub active_turns : (ℕ → ActiveSession) → List (String × ℕ) → ℕ
active_turns objects [] = 0
active_turns objects ((session_id, r) ∷ entries) =
    length (objects r).turns + active_turns objects entries

unfoldable pub active_turn_count : SessionHost → ℕ
unfolding active_turns
active_turn_count h = active_turns h.objects h.sessions
