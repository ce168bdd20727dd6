-- ===== src/DaemonHost/Calls.antt =====
-- src/local-runtime/daemon-host.ts: how often the host calls what it owns.
use openma_common.Common.{
  ℕ, ◌+◌, ◌≤◌, Bool, true, false, not, Option, List, [], ◌∷◌, ◌++◌, ◌≡◌, refl, sym, ◌∙◌, arith, inl,
  inr, if◌then◌else◌, Option-cases,
}
use openma_common.DaemonHost.{
  DaemonHost, Failure, HostEvent, start_called, stop_host, drain_done, drain_failed, disposal_done,
  disposal_failed, HostCall, connection_start, connection_stop, sessions_drain,
  sessions_dispose_all, create_daemon_host, step, run, is_stopped, is_idle,
}
use openma_common.DaemonHost.Laws.{is_there, Inv, step-Inv}
use openma_common.DaemonHost.Stopping.{created-Inv, run-Inv, settled_from}

same_call : HostCall → HostCall → Bool
same_call connection_stop connection_stop = true
same_call sessions_drain sessions_drain = true
same_call sessions_dispose_all sessions_dispose_all = true
same_call connection_start connection_start = true
same_call _ _ = false

-- How often a call stands in a list of them.
pub times_called : HostCall → List HostCall → ℕ
unfolding same_call
times_called c [] = 0
times_called c (call ∷ calls) = (if same_call call c then 1 else 0) + times_called c calls

one_if : Bool → ℕ
one_if true = 1
one_if false = 0

times_called-append :
    (c : HostCall) (xs ys : List HostCall)
    → times_called c (xs ++ ys) ≡ times_called c xs + times_called c ys
unfolding times_called
times_called-append c [] ys = omega arith
times_called-append c (x ∷ xs) ys = omega (arith, times_called-append c xs ys)

-- The calls that a state tells of.
told : HostCall → DaemonHost → ℕ
unfolding one_if
told connection_start h = one_if (not (is_idle h.phase))
told connection_stop h = one_if h.closed
told sessions_drain h = one_if h.stop_called
told sessions_dispose_all h = one_if h.disposal

-- What a step that makes calls adds to what the state tells of them: all of the ends of the connection,
-- and of the others no more than it makes.
record Tells (before after : DaemonHost) (calls : List HostCall) : Type 0 where
  starts :
      times_called connection_start calls + told connection_start before
      ≤ told connection_start after
  drains :
      times_called sessions_drain calls + told sessions_drain before ≤ told sessions_drain after
  disposals :
      times_called sessions_dispose_all calls + told sessions_dispose_all before
      ≤ told sessions_dispose_all after
  ends :
      times_called connection_stop calls + told connection_stop before ≡ told connection_stop after

module _ (thrown_by_stop : Option Failure) where
  step-Tells :
      (event : HostEvent) (h : DaemonHost)
      → Inv h
      → Tells h (step thrown_by_stop event h).0 (step thrown_by_stop event h).1
  unfolding step is_there is_stopped is_idle told times_called
  step-Tells start_called h v = ground arith
  step-Tells (stop_host true) h v = ground arith
  step-Tells (stop_host false) h v = ground arith
  step-Tells (drain_done summary) h v = ground arith
  step-Tells (drain_failed error) h v = ground arith
  step-Tells disposal_done h v = elim (Option-cases h.cleanup) [
    | inl none_left ↦ ground (arith, none_left)
    | inr (before, left) ↦ ground (arith, left)
  ]
  step-Tells (disposal_failed error) h v = elim (Option-cases h.cleanup) [
    | inl none_left ↦ ground (arith, none_left)
    | inr (before, left) ↦ ground (arith, left)
  ]

  step-told :
      (c : HostCall) (event : HostEvent) (h : DaemonHost)
      → Inv h
      → times_called c (step thrown_by_stop event h).1 + told c h
        ≤ told c (step thrown_by_stop event h).0
  step-told connection_start event h v = (step-Tells event h v).starts
  step-told connection_stop event h v = omega (arith, (step-Tells event h v).ends)
  step-told sessions_drain event h v = (step-Tells event h v).drains
  step-told sessions_dispose_all event h v = (step-Tells event h v).disposals

  run-told :
      (c : HostCall) (events : List HostEvent) (h : DaemonHost)
      → Inv h
      → times_called c (run thrown_by_stop events h).1 + told c h
        ≤ told c (run thrown_by_stop events h).0
  unfolding run
  run-told c [] h v = unfold times_called in omega arith
  run-told c (event ∷ events) h v =
      let next = step thrown_by_stop event h in
      omega (
        arith,
        times_called-append c next.1 (run thrown_by_stop events next.0).1,
        step-told c event h v,
        run-told c events next.0 (step-Inv thrown_by_stop event h v),
      )

  run_released :
      (events : List HostEvent) (h : DaemonHost)
      → Inv h
      → times_called connection_stop (run thrown_by_stop events h).1 + told connection_stop h
        ≡ told connection_stop (run thrown_by_stop events h).0
  unfolding run
  run_released [] h v = unfold times_called in omega arith
  run_released (event ∷ events) h v =
      let next = step thrown_by_stop event h in
      omega (
        arith,
        times_called-append connection_stop next.1 (run thrown_by_stop events next.0).1,
        (step-Tells event h v).ends,
        run_released events next.0 (step-Inv thrown_by_stop event h v),
      )

  told_le : (c : HostCall) (h : DaemonHost) → told c h ≤ 1
  unfolding told one_if
  told_le connection_start h = ground arith
  told_le connection_stop h = ground arith
  told_le sessions_drain h = ground arith
  told_le sessions_dispose_all h = ground arith

  told_open : told connection_stop create_daemon_host ≡ 0
  unfolding told create_daemon_host
  told_open = refl

  told_closed : (h : DaemonHost) → h.closed ≡ true → told connection_stop h ≡ 1
  unfolding told
  told_closed h e = rw e refl

  -- Over any events a new host makes each of its calls, the start and the end of the connection,
  -- the drain and the disposal of the sessions, at most once.
  pub called_once :
      (c : HostCall) (events : List HostEvent)
      → times_called c (run thrown_by_stop events create_daemon_host).1 ≤ 1
  called_once c events = omega (
    arith,
    run-told c events create_daemon_host created-Inv,
    told_le c (run thrown_by_stop events create_daemon_host).0,
  )

  -- Once the promise of stop has settled, the connection has been ended exactly once, and no later
  -- events change how the promise settled or make the host call anything.
  pub settled_once :
      (events later : List HostEvent)
      → is_there (run thrown_by_stop events create_daemon_host).0.settled ≡ true
      → ((run thrown_by_stop later (run thrown_by_stop events create_daemon_host).0).0.settled
          ≡ (run thrown_by_stop events create_daemon_host).0.settled)
        × ((run thrown_by_stop later (run thrown_by_stop events create_daemon_host).0).1 ≡ [])
        × (times_called connection_stop (run thrown_by_stop events create_daemon_host).1 ≡ 1)
  settled_once events later s =
      let h = (run thrown_by_stop events create_daemon_host).0 in
      let v = run-Inv thrown_by_stop events create_daemon_host created-Inv in
      let stops : is_stopped h.phase ≡ true = sym v.settled_stopped ∙ s in
      let (same, quiet) = settled_from thrown_by_stop later h v stops in
      (
        same,
        quiet,
        omega (
          arith,
          run_released events create_daemon_host created-Inv,
          told_open,
          told_closed h (v.stopped_closed stops),
        ),
      )
