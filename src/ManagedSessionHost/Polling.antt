-- ===== src/ManagedSessionHost/Polling.antt =====
-- src/local-runtime/session-host.ts: how long the loop of a drain goes on.
use native.Mathlib.Nat.{suc-mul}
use openma_common.Common.{
  ℕ, ◌+◌, ◌<◌, ◌≤◌, String, Bool, true, false, Option, some, List, [], ◌∷◌, ◌≡◌, arith, ◌-◌, ◌*◌,
  min, All, length,
}
use openma_common.ManagedSessionHost.{
  DrainOptions, DrainReport, Task, polling, World, SessionHost, Output, sleep,
}
use openma_common.ManagedSessionHost.Disposal.{abort_all, wait_for_all, dispose_all}
use openma_common.ManagedSessionHost.Drains.{given_or, abort_each, finish_drain, poll}

unfoldable pub is_polling : Task → Bool
is_polling (polling options started_at report) = true
is_polling _ = false

wait_leaves :
    (k : ℕ) (entries : List (String × ℕ)) (report : Option DrainReport) (h : SessionHost)
    → is_polling ((wait_for_all k entries report h).0.tasks k) ≡ false
unfolding wait_for_all is_polling
wait_leaves k [] report h = ground arith
wait_leaves k (entry ∷ entries) report h = ground arith

finish_drain_leaves :
    (k : ℕ) (options : DrainOptions) (report : DrainReport) (h : SessionHost)
    → is_polling ((finish_drain k options report h).0.tasks k) ≡ false
unfolding finish_drain dispose_all is_polling
finish_drain_leaves k options report h =
    let counts = abort_each h.objects h.sessions (h.aborted, 0) in
    let rest = record h { aborted = counts.0 } in
    let final = record report { aborted_turns = counts.1 } in
    let all = abort_all h.sessions rest in ground (arith, wait_leaves k h.sessions (some final) all)

-- The sum of the sleeps among outputs.
unfoldable pub asked_sleep : List Output → ℕ
asked_sleep [] = 0
asked_sleep (sleep ms ∷ outputs) = ms + asked_sleep outputs
asked_sleep (_ ∷ outputs) = asked_sleep outputs

-- options.pollIntervalMs ?? 200
abbrev pub interval : DrainOptions → ℕ
interval options = given_or options.poll_interval_ms 200

module _ (k : ℕ) (options : DrainOptions) (started_at : ℕ) (report : DrainReport) where
  -- Whether the loop goes on after a round of it, with the host as it then is.
  abbrev pub goes_on : World × SessionHost → Bool
  goes_on (w, h) = is_polling ((poll w k options started_at report h).0.tasks k)

  -- The milliseconds that a round asks the clock to sleep.
  abbrev pub slept : World × SessionHost → ℕ
  slept (w, h) = asked_sleep (poll w k options started_at report h).1

  -- A clock that has not gone back since the start, and has moved on by what a round asked for when the
  -- next one begins.
  abbrev pub Clocked : ℕ → List (World × SessionHost) → Type 0
  Clocked now [] = Unit {0}
  Clocked now ((w, h) ∷ rounds) = (now ≤ w.now) × Clocked (w.now + slept (w, h)) rounds

  poll_in_time :
      (w : World) (h : SessionHost)
      → goes_on (w, h) ≡ true
      → w.now - started_at < options.deadline_ms
  unfolding poll is_polling
  poll_in_time w h e = ground (arith, e, finish_drain_leaves k options report h)

  -- A round after which the loop goes on asks for a positive sleep.
  poll_sleeps :
      (w : World) (h : SessionHost)
      → goes_on (w, h) ≡ true
      → 0 < interval options
      → 0 < slept (w, h)
  unfolding poll is_polling asked_sleep
  poll_sleeps w h e p = ground (arith, e, p, finish_drain_leaves k options report h)

  polls_from :
      (now : ℕ) (rounds : List (World × SessionHost))
      → 0 < interval options
      → started_at ≤ now
      → Clocked now rounds
      → All (λ round. goes_on round ≡ true) rounds
      → length rounds ≤ options.deadline_ms - (now - started_at)
  polls_from now [] p s c a = omega arith
  polls_from now ((w, h) ∷ rounds) p s c a =
      let positive = poll_sleeps w h a.0 p in
      let in_time = poll_in_time w h a.0 in
      let rest = polls_from (w.now + slept (w, h)) rounds p (omega (arith, s, c.0)) c.1 a.1 in
      omega (arith, p, s, c.0, positive, in_time, rest)

  -- What a round asks for is the interval, or what is left of the deadline where that is less.
  poll_sleep :
      (w : World) (h : SessionHost)
      → goes_on (w, h) ≡ true
      → slept (w, h) ≡ min (interval options) (options.deadline_ms - (w.now - started_at))
  unfolding poll is_polling asked_sleep
  poll_sleep w h e = ground (arith, e, finish_drain_leaves k options report h)

  -- A sleep that ends by the deadline.
  abbrev pub EndsInTime : World × SessionHost → Type 0
  EndsInTime (w, h) = w.now + slept (w, h) ≤ started_at + options.deadline_ms

  sleeps_end_in_time :
      (now : ℕ) (rounds : List (World × SessionHost))
      → started_at ≤ now
      → Clocked now rounds
      → All (λ round. goes_on round ≡ true) rounds
      → All EndsInTime rounds
  sleeps_end_in_time now [] s c a = tt
  sleeps_end_in_time now ((w, h) ∷ rounds) s c a = (
    omega (arith, s, c.0, poll_sleep w h a.0, poll_in_time w h a.0),
    sleeps_end_in_time (w.now + slept (w, h)) rounds (omega (arith, s, c.0)) c.1 a.1,
  )

  -- Every round but the last slept for the whole interval.
  intervals_from :
      (now : ℕ) (w : World) (h : SessionHost) (rounds : List (World × SessionHost))
      → started_at ≤ now
      → Clocked now ((w, h) ∷ rounds)
      → All (λ round. goes_on round ≡ true) ((w, h) ∷ rounds)
      → length rounds * interval options + (w.now - started_at) < options.deadline_ms
  intervals_from now w h [] s c a = omega (arith, poll_in_time w h a.0)
  intervals_from now w h ((w', h') ∷ rounds) s c a =
      let rest =
        intervals_from (w.now + slept (w, h)) w' h' rounds (omega (arith, s, c.0)) c.1 a.1 in
      let next = poll_in_time w' h' a.1.0 in
      let product = suc-mul (length rounds) (interval options) in
      omega (arith, s, c.0, c.1.0, rest, next, product, poll_sleep w h a.0, poll_in_time w h a.0)

  -- When the poll interval is positive, and the clock does not go back and has moved on, when a
  -- round of a drain's loop begins, by at least what the round before it asked it to sleep, then,
  -- whatever else happens to the host between two rounds: if the loop goes on after each of some
  -- rounds, these rounds but the last take less than the deadline at one interval each, there are
  -- at most as many of them as the deadline has milliseconds, and no sleep that they ask for ends
  -- after the deadline.
  pub polls_bounded :
      (first : World × SessionHost) (rounds : List (World × SessionHost))
      → 0 < interval options
      → Clocked started_at (first ∷ rounds)
      → All (λ round. goes_on round ≡ true) (first ∷ rounds)
      → (length rounds * interval options < options.deadline_ms)
        × (length (first ∷ rounds) ≤ options.deadline_ms)
        × All EndsInTime (first ∷ rounds)
  polls_bounded first rounds p c a = (
    omega (arith, intervals_from started_at first.0 first.1 rounds (omega arith) c a),
    omega (arith, polls_from started_at (first ∷ rounds) p (omega arith) c a),
    sleeps_end_in_time started_at (first ∷ rounds) (omega arith) c a,
  )
