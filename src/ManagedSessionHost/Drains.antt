-- ===== src/ManagedSessionHost/Drains.antt =====
-- src/local-runtime/session-host.ts: `drain`, from one sleep to the next.
use openma_common.Common.{
  ℕ, ◌+◌, ◌-◌, min, String, Bool, true, Option, none, some, List, [], ◌∷◌, ◌++◌, if◌then◌else◌,
  ◌==◌, leb, ltb, length,
}
use openma_common.ManagedSessionHost.{
  ActiveSession, DrainOptions, DrainReport, World, polling, aborting, sleep, progress, SessionHost,
  Step, update, put,
}
use openma_common.ManagedSessionHost.Sessions.{active_turn_count, prune_dead_sessions}
use openma_common.ManagedSessionHost.Disposal.{dispose_all}

-- options.pollIntervalMs ?? 200, and options.abortGraceMs ?? 2_000
unfoldable pub given_or : Option ℕ → ℕ → ℕ
given_or none n = n
given_or (some m) n = m

-- A controller is aborted if it is not yet, and counted then.
unfoldable pub abort_one : ℕ → (ℕ → Bool) × ℕ → (ℕ → Bool) × ℕ
abort_one c (aborted, n) = if aborted c then (aborted, n) else (update c true aborted, n + 1)

unfoldable pub abort_counted : List (String × ℕ) → (ℕ → Bool) × ℕ → (ℕ → Bool) × ℕ
unfolding abort_one
abort_counted [] counts = counts
abort_counted ((turn_id, c) ∷ turns) counts = abort_counted turns (abort_one c counts)

unfoldable pub abort_each :
    (ℕ → ActiveSession) → List (String × ℕ) → (ℕ → Bool) × ℕ → (ℕ → Bool) × ℕ
unfolding abort_counted
abort_each objects [] counts = counts
abort_each objects ((session_id, r) ∷ entries) counts =
    abort_each objects entries (abort_counted (objects r).turns counts)

-- After the loop: what is left is aborted, and then all sessions are disposed, after a grace if a turn
-- was aborted.
unfoldable pub finish_drain : ℕ → DrainOptions → DrainReport → SessionHost → Step
unfolding given_or abort_each dispose_all
finish_drain k options report h =
    let (aborted, n) = abort_each h.objects h.sessions (h.aborted, 0) in
    let final = record report { aborted_turns = n } in
    let rest = record h { aborted = aborted } in
    let grace = given_or options.abort_grace_ms 2000 in
    if ltb 0 n
    then (if ltb 0 grace
        then (put k (aborting final) rest, sleep grace ∷ [])
        else dispose_all k (some final) rest)
    else dispose_all k (some final) rest

-- One round of the loop, whose clock runs from `started_at`.
unfoldable pub poll : World → ℕ → DrainOptions → ℕ → DrainReport → SessionHost → Step
unfolding given_or active_turn_count finish_drain
poll w k options started_at report h =
    let elapsed = w.now - started_at in
    let left = options.deadline_ms - elapsed in
    if active_turn_count h == 0
    then finish_drain k options report h
    else if leb options.deadline_ms elapsed
    then finish_drain k options report h
    else (
      put k (polling options started_at report) h,
      progress (active_turn_count h) left
          ∷ sleep (min (given_or options.poll_interval_ms 200) left)
          ∷ [],
    )

unfoldable pub drain : World → ℕ → DrainOptions → SessionHost → Step
unfolding active_turn_count prune_dead_sessions poll
drain w k options h =
    let initial = active_turn_count h in
    let pruned = prune_dead_sessions w h.sessions (record h { draining = true }) in
    let report : DrainReport = record {
      initial_turns = initial;
      aborted_turns = 0;
      sessions = length pruned.0.sessions;
    } in
    let round = poll w k options w.now report pruned.0 in (round.0, pruned.1 ++ round.1)
