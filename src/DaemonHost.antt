-- ===== src/DaemonHost.antt =====
-- src/local-runtime/daemon-host.ts: the class DaemonHost, which starts a daemon's connection and stops
-- it after a drain of the sessions or by force. What happens to the host is an event: a call of one of
-- its methods, or the end of a promise of the session manager, which it had pending.
pub mod Laws
pub mod Stopping
pub mod Calls
mod Tests
use openma_common.Common.{
  ℕ, String, Bool, true, false, not, Option, none, some, List, [], ◌∷◌, ◌++◌, if◌then◌else◌, ◌&&◌,
}

-- What was thrown; AggregateError holds the errors of the drain and of the cleanup.
pub data Failure : Type 0 where
  thrown : String → Failure
  aggregate : String → String → Failure

pub record DaemonDrainSummary : Type 0 where
  pub initial_turns : ℕ
  pub aborted_turns : ℕ
  pub sessions : ℕ

pub data DaemonStopResult : Type 0 where
  drained : DaemonDrainSummary → DaemonStopResult
  forced_stop : DaemonStopResult

-- How the promise of `stop` ended.
pub data Settled : Type 0 where
  resolved : DaemonStopResult → Settled
  rejected : Failure → Settled

pub data Phase : Type 0 where
  idle running stopping stopped : Phase

-- `cleanup` is the error of the drain that waits for the disposal; `close_error` what the forced stop
-- keeps from the connection's end; `draining` and `disposing` tell that a promise is pending.
pub record DaemonHost : Type 0 where
  pub phase : Phase
  pub forced : Bool
  pub closed : Bool
  pub disposal : Bool
  pub stop_called : Bool
  pub settled : Option Settled
  pub draining : Bool
  pub disposing : Bool
  pub cleanup : Option String
  pub close_error : Option Failure

pub data HostEvent : Type 0 where
  start_called : HostEvent
  stop_host : Bool → HostEvent  -- whether the stop is by force
  drain_done : DaemonDrainSummary → HostEvent
  drain_failed : String → HostEvent
  disposal_done : HostEvent
  disposal_failed : String → HostEvent

-- A call that the host makes.
pub data HostCall : Type 0 where
  connection_start connection_stop sessions_drain sessions_dispose_all : HostCall

pub create_daemon_host : DaemonHost
create_daemon_host = record {
  phase = idle;
  forced = false;
  closed = false;
  disposal = false;
  stop_called = false;
  settled = none;
  draining = false;
  disposing = false;
  cleanup = none;
  close_error = none;
}

abbrev pub Step : Type 0
Step = DaemonHost × List HostCall

-- this.#phase === "idle", and this.#phase === "stopped"
pub is_idle : Phase → Bool
is_idle idle = true
is_idle _ = false

pub is_stopped : Phase → Bool
is_stopped stopped = true
is_stopped _ = false

start : DaemonHost → Step
unfolding is_idle
start h = if is_idle h.phase then (record h { phase = running }, connection_start ∷ []) else (h, [])

-- error ??= closeError
first_error : Option Failure → Option Failure → Option Failure
first_error none other = other
first_error (some error) other = some error

settle : DaemonStopResult → Option Failure → Settled
settle result none = resolved result
settle result (some error) = rejected error

-- What ending the connection throws, if it does, is an argument.
module _ (thrown_by_stop : Option Failure) where
  -- The host after its connection's end, the error of that, and the call.
  close : DaemonHost → DaemonHost × Option Failure × List HostCall
  close h =
      if h.closed
      then (h, none, [])
      else (record h { closed = true }, thrown_by_stop, connection_stop ∷ [])

  finish : DaemonStopResult → Option Failure → DaemonHost → Step
  unfolding is_stopped close first_error settle
  finish result error h =
      if is_stopped h.phase
      then (h, [])
      else (let (closed, close_error, calls) = close h in
          (
            record closed {
              phase = stopped;
              settled = some (settle result (first_error error close_error));
            },
            calls,
          ))

  -- `disposeAll` is called once, and later calls of `#dispose` share its promise.
  dispose : DaemonHost → Step
  dispose h =
      if h.disposal
      then (h, [])
      else (record h { disposal = true; disposing = true }, sessions_dispose_all ∷ [])

  force : DaemonHost → Step
  unfolding is_stopped close dispose
  force h =
      if h.forced
      then (h, [])
      else if is_stopped h.phase
      then (h, [])
      else (let (closed, close_error, calls) = close (record h { forced = true }) in
          let (next, more) = dispose (record closed { close_error = close_error }) in
          (next, calls ++ more))

  -- The first call of `stop`, which makes its promise and, if it is not by force, starts the drain.
  begin_stop : Bool → DaemonHost → Step
  begin_stop by_force h =
      if h.stop_called
      then (h, [])
      else if by_force
      then (record h { stop_called = true; phase = stopping }, [])
      else (record h { stop_called = true; phase = stopping; draining = true }, sessions_drain ∷ [])

  stop : Bool → DaemonHost → Step
  unfolding begin_stop force
  stop by_force h =
      let (begun, calls) = begin_stop by_force h in
      if by_force then (let (next, more) = force begun in (next, calls ++ more)) else (begun, calls)

  drain_ended : DaemonDrainSummary → DaemonHost → Step
  unfolding finish
  drain_ended summary h =
      if h.draining
      then (let rest = record h { draining = false } in
          if h.forced then (rest, []) else finish (drained summary) none rest)
      else (h, [])

  drain_broke : String → DaemonHost → Step
  unfolding dispose
  drain_broke error h =
      if h.draining
      then (let rest = record h { draining = false } in
          if h.forced then (rest, []) else dispose (record rest { cleanup = some error }))
      else (h, [])

  -- The cleanup after a failed drain goes on first, unless the stop is forced; then the forced stop.
  after_cleanup : Option String → Option String → DaemonHost → Step
  unfolding finish
  after_cleanup none disposal_error h = (h, [])
  after_cleanup (some error) none h = finish forced_stop (some (thrown error)) h
  after_cleanup (some error) (some later) h = finish forced_stop (some (aggregate error later)) h

  forced_error : Option Failure → Option String → Option Failure
  forced_error close_error none = close_error
  forced_error close_error (some error) = some (thrown error)

  disposal_ended : Option String → DaemonHost → Step
  unfolding finish after_cleanup forced_error
  disposal_ended error h =
      if h.disposing
      then (let rest = record h { disposing = false } in
          if h.forced
          then finish forced_stop (forced_error h.close_error error) rest
          else after_cleanup h.cleanup error rest)
      else (h, [])

  unfoldable pub step : HostEvent → DaemonHost → Step
  unfolding start stop drain_ended drain_broke disposal_ended
  step start_called h = start h
  step (stop_host by_force) h = stop by_force h
  step (drain_done summary) h = drain_ended summary h
  step (drain_failed error) h = drain_broke error h
  step disposal_done h = disposal_ended none h
  step (disposal_failed error) h = disposal_ended (some error) h

  -- The host after events, and all the calls that it made.
  unfoldable pub run : List HostEvent → DaemonHost → Step
  unfolding step
  run [] h = (h, [])
  run (event ∷ events) h =
      let now = step event h in let (last, later) = run events now.0 in (last, now.1 ++ later)
