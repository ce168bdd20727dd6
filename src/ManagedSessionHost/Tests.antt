-- ===== src/ManagedSessionHost/Tests.antt =====
-- src/local-runtime/session-host.ts: a fenced session that completes a turn, a drain while one runs, and two
-- prompts of one turn.
use openma_common.Common.{
  ℕ, ◌*◌, ◌<◌, ◌≤◌, String, true, false, none, some, List, [], ◌∷◌, ◌++◌, ◌≡◌, refl, arith, inl,
  String_discrete, All, non_empty,
}
use openma_common.Common.Maps.{get, set, delete, has, add}
use openma_common.ManagedSessionHost.{
  recovering, ready, Checkpoint, StartInput, PromptInput, DrainOptions, DrainReport, done, steered,
  World, emit, load_checkpoint, compare_and_set, runtime_start, acp_prompt, SessionHost, new_host,
}
use openma_common.ManagedSessionHost.Drains.{poll, given_or}
use openma_common.ManagedSessionHost.Sessions.{active_turn_count}
use openma_common.ManagedSessionHost.Polling.{
  asked_sleep, EndsInTime, is_polling, interval, Clocked, goes_on, polls_bounded,
}
use openma_common.ManagedSessionHost.Steps.{
  start_called, prompt_called, drain_called, HostStep, call, go_on, run,
}
use openma_common.SessionKernel.Wire.{session_ready, session_complete}
use openma_common.ManagedSessionHost.Fencing.{Written}
use openma_common.ManagedSessionHost.Grants.{Granted, run-Written}
use openma_common.ManagedSessionHost.Admission.{agent_prompts, drained_admits_none}
use openma_common.ManagedSessionHost.Aborts.{drain_aborts_turns}
use openma_common.ManagedSessionHost.Races.{Idle, prompt_twice}

-- A store that saves, agents that live, and streams that end.
abbrev calm : World
calm = record {
  rejected = none;
  found = none;
  saved = true;
  started_id = "acp";
  next_event = none;
  outcome = steered;
  disposed_id = "s";
  alive = λ r. true;
  supports_steering = λ r. false;
  permission_open = λ r. false;
  now = 7;
}

abbrev start_input : StartInput
start_input = record { session_id = "s"; resume_acp_session_id = none; options = "" }

abbrev turn : PromptInput
turn = record { session_id = "s"; turn_id = "t"; text = "hello" }

abbrev started_steps : List (World × HostStep)
started_steps =
    (calm, call (start_called start_input))
    ∷ (calm, go_on 0)
    ∷ (calm, go_on 0)
    ∷ (calm, go_on 0)
    ∷ (calm, go_on 0)
    ∷ []

abbrev prompt_steps : List (World × HostStep)
prompt_steps =
    (calm, call (prompt_called turn)) ∷ (calm, go_on 2) ∷ (calm, go_on 2) ∷ (calm, go_on 2) ∷ []

abbrev fenced_steps : List (World × HostStep)
fenced_steps = started_steps ++ prompt_steps

abbrev claimed : Checkpoint
claimed = record {
  session_id = "s";
  generation = 1;
  owner_id = "host";
  acp_session_id = "";
  phase = recovering;
  updated_at = 7;
  last_completed_turn_id = none;
}

abbrev ready_now : Checkpoint
ready_now = record claimed { acp_session_id = "acp"; phase = ready }

fenced_outputs :
    (run (some "host") none fenced_steps new_host).1
    ≡ load_checkpoint "s"
      ∷ compare_and_set none claimed
      ∷ runtime_start start_input
      ∷ compare_and_set (some 1) ready_now
      ∷ emit (session_ready "s" "acp")
      ∷ compare_and_set (some 1) ready_now
      ∷ acp_prompt 1 2 "hello"
      ∷ compare_and_set (some 1) (record ready_now { last_completed_turn_id = some "t" })
      ∷ emit (session_complete "s" "t")
      ∷ []
unfolding run new_host get set delete has add non_empty String_discrete
fenced_outputs = refl

run-Written_example :
    All
      (Written "host" (Granted (some "host") none fenced_steps) ⊥)
      (run (some "host") none fenced_steps new_host).1
run-Written_example = run-Written "host" none fenced_steps

abbrev drain_options : DrainOptions
drain_options = record { deadline_ms = 1; poll_interval_ms = none; abort_grace_ms = none }

drained_admits_none_example :
    agent_prompts
      (run
        (some "host")
        none
        ((calm, call (drain_called drain_options)) ∷ prompt_steps)
        (run (some "host") none started_steps new_host).0).1
    ≡ 0
drained_admits_none_example =
    drained_admits_none (some "host") none started_steps prompt_steps calm drain_options

-- A host with one live session.
abbrev one_session : List (String × ℕ) → SessionHost
one_session turns = record {
  sessions = ("s", 1) ∷ [];
  resume_session_ids = [];
  draining = false;
  objects = λ r. record {
    acp_session_id = "acp";
    turns = turns;
    completed_turns = [];
    checkpoint = none;
  };
  aborted = λ c. false;
  tasks = λ k. done;
  next = 2;
}

prompt_Idle_example : Idle calm turn 1 (one_session [])
unfolding get has String_discrete
prompt_Idle_example = record {
  found = refl;
  alive = refl;
  not_completed = refl;
  not_running = refl;
  unfenced = refl;
  open_host = refl;
}

prompt_twice_example :
    agent_prompts
      (run none none
        ((calm, call (prompt_called turn))
          ∷ (calm, call (prompt_called turn))
          ∷ (calm, go_on 2)
          ∷ (calm, go_on 3)
          ∷ [])
        (one_session [])).1
    ≡ 2
prompt_twice_example = prompt_twice calm turn 1 none none (one_session []) prompt_Idle_example

abbrev no_report : DrainReport
no_report = record { initial_turns = 1; aborted_turns = 0; sessions = 1 }

drain_aborts_turns_example :
    (poll calm 4 drain_options 0 no_report (one_session (("t", 3) ∷ []))).0.aborted 3 ≡ true
drain_aborts_turns_example =
    drain_aborts_turns calm 4 drain_options 0 no_report (one_session (("t", 3) ∷ [])) "s" "t" 1 3
      (omega arith) (inl refl) (inl refl)

-- A drain that polls each millisecond, and has found a turn twice.
abbrev brisk : DrainOptions
brisk = record { deadline_ms = 3; poll_interval_ms = some 1; abort_grace_ms = none }

abbrev two_rounds : List (World × SessionHost)
two_rounds =
    (record calm { now = 7 }, one_session (("t", 3) ∷ []))
    ∷ (record calm { now = 8 }, one_session (("t", 3) ∷ []))
    ∷ []

two_rounds_interval : 0 < interval brisk
unfolding given_or
two_rounds_interval = omega arith

two_rounds-Clocked : Clocked 4 brisk 7 no_report 7 two_rounds
unfolding given_or asked_sleep poll
two_rounds-Clocked = omega arith

two_rounds_go_on : All (λ round. goes_on 4 brisk 7 no_report round ≡ true) two_rounds
unfolding poll is_polling active_turn_count
two_rounds_go_on = (refl, (refl, tt))

polls_bounded_example :
    (1 * interval brisk < 3) × (2 ≤ 3) × All (EndsInTime 4 brisk 7 no_report) two_rounds
polls_bounded_example =
    polls_bounded 4 brisk 7 no_report (record calm { now = 7 }, one_session (("t", 3) ∷ []))
      ((record calm { now = 8 }, one_session (("t", 3) ∷ [])) ∷ []) two_rounds_interval
      two_rounds-Clocked two_rounds_go_on
