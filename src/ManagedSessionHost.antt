-- ===== src/ManagedSessionHost.antt =====
-- src/local-runtime/session-host.ts and checkpoint.ts: the state of the class ManagedAgentsSessionHost.
-- Its methods await the agent's runtime, the agent's sessions, the checkpoint store and the clock, which
-- are parameters: the host is a store of session objects with the calls that are pending, each as the
-- continuation that stands behind its next await, and what an await brings is an argument of the step
-- that goes on from it. Continuations of several calls interleave in any order.
pub mod Sessions
pub mod Starts
pub mod Prompts
pub mod Steering
pub mod Disposal
pub mod Drains
pub mod Steps
pub mod Fencing
pub mod Grants
pub mod Admission
pub mod Aborts
pub mod Polling
pub mod Races
mod Tests
use openma_common.Common.{
  ℕ, String, Bool, true, false, Option, none, some, List, [], if◌then◌else◌, ◌==◌, non_empty,
}
use openma_common.Common.Json.{Json}
use openma_common.SessionKernel.Wire.{SessionHostEvent}

pub data CheckpointPhase : Type 0 where
  recovering ready suspended : CheckpointPhase

pub record Checkpoint : Type 0 where
  pub session_id : String
  pub generation : ℕ
  pub owner_id : String
  pub acp_session_id : String
  pub phase : CheckpointPhase
  pub updated_at : ℕ
  pub last_completed_turn_id : Option String

-- The agent's session behind it is named by the reference of this object. A turn's controller is named
-- by the call that made it.
pub record ActiveSession : Type 0 where
  pub acp_session_id : String
  pub turns : List (String × ℕ)
  pub completed_turns : List String
  pub checkpoint : Option Checkpoint

-- `options` is what the host passes on unread.
pub record StartInput : Type 0 where
  pub session_id : String
  pub resume_acp_session_id : Option String
  pub options : String

-- Also the input of `steer`, whose event id is the turn id of its prompt.
pub record PromptInput : Type 0 where
  pub session_id : String
  pub turn_id : String
  pub text : String

pub record DrainOptions : Type 0 where
  pub deadline_ms : ℕ
  pub poll_interval_ms : Option ℕ
  pub abort_grace_ms : Option ℕ

pub record DrainReport : Type 0 where
  pub initial_turns : ℕ
  pub aborted_turns : ℕ
  pub sessions : ℕ

-- What a pending call goes on with once its await has ended.
pub data Task : Type 0 where
  done : Task
  loading : StartInput → Task
  claiming : StartInput → Option Checkpoint → Checkpoint → Task
  starting : StartInput → Option Checkpoint → Option Checkpoint → Task
  readying : StartInput → ℕ → Checkpoint → Task
  losing : String → Task
  remembering : ℕ → Checkpoint → Task
  leasing : PromptInput → ℕ → Option Checkpoint → Task
  streaming : PromptInput → ℕ → Option String → Task
  committing : PromptInput → ℕ → Option Checkpoint → Task
  uncommitted : PromptInput → ℕ → Task
  steering : PromptInput → ℕ → Task
  settling : PromptInput → Task
  disposing : String → ℕ → Task
  deleting : String → Task
  disposing_all : List (String × ℕ) → Option DrainReport → Task
  polling : DrainOptions → ℕ → DrainReport → Task
  aborting : DrainReport → Task
  cancelling : String → String → ℕ → Task

pub data SteerOutcome : Type 0 where
  steered prompt_required steer_failed : SteerOutcome

-- What the world gives at a step: what its promise brings to the call that goes on, which reads the field
-- that its promise has, and what the host reads of the agents' sessions and the clock in that step.
-- `rejected` is the message of what the promise was rejected with.
pub record World : Type 0 where
  pub rejected : Option String
  pub found : Option Checkpoint
  pub saved : Bool
  pub started_id : String
  pub next_event : Option Json
  pub outcome : SteerOutcome
  pub disposed_id : String
  pub alive : ℕ → Bool
  pub supports_steering : ℕ → Bool
  pub permission_open : ℕ → Bool
  pub now : ℕ

-- What the host does outside: an event that it emits, a call, and what its methods give.
pub data Output : Type 0 where
  emit : SessionHostEvent → Output
  load_checkpoint : String → Output
  compare_and_set : Option ℕ → Checkpoint → Output
  delete_checkpoint : String → Option (ℕ × String) → Output
  runtime_start : StartInput → Output
  acp_prompt : ℕ → ℕ → String → Output
  acp_steer : ℕ → String → Output
  acp_dispose : ℕ → Output
  sleep : ℕ → Output
  progress : ℕ → ℕ → Output
  returned : Bool → Output
  counted : ℕ → Output
  drained : DrainReport → Output
  threw : Output

-- Objects, controllers and pending calls are named by numbers below `next`.
pub record SessionHost : Type 0 where
  pub sessions : List (String × ℕ)
  pub resume_session_ids : List (String × String)
  pub draining : Bool
  pub objects : ℕ → ActiveSession
  pub aborted : ℕ → Bool
  pub tasks : ℕ → Task
  pub next : ℕ

abbrev pub Step : Type 0
Step = SessionHost × List Output

abbrev pub no_session : ActiveSession
no_session = record { acp_session_id = ""; turns = []; completed_turns = []; checkpoint = none }

unfoldable pub new_host : SessionHost
new_host = record {
  sessions = [];
  resume_session_ids = [];
  draining = false;
  objects = λ r. no_session;
  aborted = λ r. false;
  tasks = λ k. done;
  next = 0;
}

-- if (this.#checkpointStore && !this.#hostInstanceId) throw: a store needs the host's own id.
pub create_session_host : Bool → Option String → Option SessionHost
unfolding new_host
create_session_host false id = some new_host
create_session_host true none = none
create_session_host true (some id) = if non_empty id then some new_host else none

-- A store of values by number, with one of them written.
abbrev pub update {ℓ} : {A : Type ℓ} → ℕ → A → (ℕ → A) → ℕ → A
update k a f j = if j == k then a else f j

-- The call `k` goes on with `t`; the object `r` is mutated to `s`.
abbrev pub put : ℕ → Task → SessionHost → SessionHost
put k t h = record h { tasks = update k t h.tasks }

abbrev pub write_object : ℕ → ActiveSession → SessionHost → SessionHost
write_object r s h = record h { objects = update r s h.objects }
