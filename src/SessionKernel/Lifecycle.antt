-- ===== src/SessionKernel/Lifecycle.antt =====
-- src/session-kernel/index.ts: the lifecycle reducer that every host applies.
mod Laws
mod Tests
use openma_common.Common.{
  String, Bool, true, false, Option, none, some, List, [], ◌∷◌, ◌&&◌, ite, non_empty, if◌then◌else◌,
  String_discrete, Turn_discrete,
}

pub data SessionLifecycleStatus : Type 0 where
  draft starting ready running errored disposed : SessionLifecycleStatus

pub record SessionLifecycle : Type 0 where
  pub session_id : String
  pub status : SessionLifecycleStatus
  pub acp_session_id : Option String
  pub active_turn_id : Option String
  pub last_error : Option String

pub data SessionLifecycleEvent : Type 0 where
  start_requested : SessionLifecycleEvent
  session_ready : String → SessionLifecycleEvent
  prompt_requested : String → SessionLifecycleEvent
  prompt_cancelled : String → SessionLifecycleEvent
  session_complete : String → SessionLifecycleEvent
  session_error : Option String → String → SessionLifecycleEvent
  session_disposed : SessionLifecycleEvent

pub initial_session_lifecycle : String → SessionLifecycle
initial_session_lifecycle session_id = record {
  session_id = session_id;
  status = draft;
  acp_session_id = none;
  active_turn_id = none;
  last_error = none;
}

abbrev is_disposed : SessionLifecycleStatus → Bool
is_disposed disposed = true
is_disposed _ = false

-- event.turnId && state.activeTurnId && event.turnId !== state.activeTurnId
is_stale : Option String → Option String → Bool
is_stale (some t) (some active) =
    non_empty t && non_empty active && ite (String_discrete t active) false true
is_stale _ _ = false

-- The end of a turn, by completion or by cancellation.
settle : SessionLifecycle → String → SessionLifecycle
settle state turn_id =
    ite (Turn_discrete state.active_turn_id (some turn_id))
      (record state { status = ready; active_turn_id = none }) state

pub reduce_session_lifecycle : SessionLifecycle → SessionLifecycleEvent → SessionLifecycle
unfolding is_stale settle
reduce_session_lifecycle state start_requested =
    if is_disposed state.status
    then state
    else record state { status = starting; last_error = none }
reduce_session_lifecycle state (session_ready acp_session_id) =
    if is_disposed state.status then state else record state {
      status = ready;
      acp_session_id = some acp_session_id;
      active_turn_id = none;
      last_error = none;
    }
reduce_session_lifecycle state (prompt_requested turn_id) =
    if is_disposed state.status
    then state
    else record state { status = running; active_turn_id = some turn_id; last_error = none }
reduce_session_lifecycle state (session_complete turn_id) = settle state turn_id
reduce_session_lifecycle state (prompt_cancelled turn_id) = settle state turn_id
reduce_session_lifecycle state (session_error turn_id message) =
    if is_stale turn_id state.active_turn_id
    then state
    else record state { status = errored; active_turn_id = none; last_error = some message }
reduce_session_lifecycle state session_disposed = record state {
  status = disposed;
  active_turn_id = none;
}

-- A host feeds the events in the order in which it sees them.
pub reduce_all : SessionLifecycle → List SessionLifecycleEvent → SessionLifecycle
reduce_all state [] = state
reduce_all state (e ∷ es) = reduce_all (reduce_session_lifecycle state e) es
