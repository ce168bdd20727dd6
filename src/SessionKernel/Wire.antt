-- ===== src/SessionKernel/Wire.antt =====
-- src/session-kernel/index.ts: commands and host events, and the relay's snake_case JSON.
-- An optional property is an Option; `unknown` is a JSON value.
mod RoundTrip
mod Tests
use openma_common.Common.{String, str_eq, Option, none, some, if◌then◌else◌, non_empty}
use openma_common.Common.Json.{
  Json, str, obj, arr, Fields, end, field, property, text_at, truthy_text_at, fields_of, field_if,
}

pub data SessionRuntime : Type 0 where
  local cloud : SessionRuntime

pub record SessionStartCommand : Type 0 where
  pub session_id : String
  pub agent_id : String
  pub runtime : SessionRuntime
  pub cwd : Option String
  pub acp_session_id : Option String

pub record SessionPromptCommand : Type 0 where
  pub session_id : String
  pub turn_id : String
  pub text : String

pub record SessionCancelCommand : Type 0 where
  pub session_id : String
  pub turn_id : String

pub data SessionCommand : Type 0 where
  session_start : SessionStartCommand → SessionCommand
  session_prompt : SessionPromptCommand → SessionCommand
  session_cancel : SessionCancelCommand → SessionCommand
  session_dispose : String → SessionCommand

pub data SessionHostEvent : Type 0 where
  session_ready : String → String → SessionHostEvent
  session_event : String → String → Json → SessionHostEvent
  session_complete : String → String → SessionHostEvent
  session_error : String → Option String → String → SessionHostEvent
  session_disposed : String → SessionHostEvent

infixl 5 ◌>>=◌
abbrev pub ◌>>=◌ {ℓ κ} : {A : Type ℓ} {B : Type κ} → Option A → (A → Option B) → Option B
none >>= f = none
some a >>= f = f a

-- `!input || typeof input !== "object"`; an array is an object with none of the properties.
message_of : Json → Option Fields
message_of (obj fs) = some fs
message_of (arr xs) = some end
message_of _ = none

-- message.resume?.acp_session_id
resumed : Option Json → Option String
resumed none = none
resumed (some r) = truthy_text_at "acp_session_id" (fields_of r)

decode_start : String → Fields → Option SessionCommand
unfolding resumed
decode_start session_id message = do
  agent_id ← truthy_text_at "agent_id" message
  some (
      session_start (record {
        session_id = session_id;
        agent_id = agent_id;
        runtime = local;
        cwd = truthy_text_at "cwd" message;
        acp_session_id = resumed (property "resume" message);
      }))

decode_prompt : String → Fields → Option SessionCommand
decode_prompt session_id message = do
  turn_id ← truthy_text_at "turn_id" message
  text ← text_at "text" message
  some (session_prompt (record { session_id = session_id; turn_id = turn_id; text = text }))

decode_cancel : String → Fields → Option SessionCommand
decode_cancel session_id message = do
  turn_id ← truthy_text_at "turn_id" message
  some (session_cancel (record { session_id = session_id; turn_id = turn_id }))

command_by_type : String → Option String → Fields → Option SessionCommand
unfolding decode_start decode_prompt decode_cancel
command_by_type session_id none message = none
command_by_type session_id (some type) message =
    if str_eq type "session.start"
    then decode_start session_id message
    else if str_eq type "session.prompt"
    then decode_prompt session_id message
    else if str_eq type "session.cancel"
    then decode_cancel session_id message
    else if str_eq type "session.dispose"
    then some (session_dispose session_id)
    else none

pub decode_session_command : Json → Option SessionCommand
unfolding message_of command_by_type text_at truthy_text_at property fields_of
decode_session_command input = do
  message ← message_of input
  session_id ← truthy_text_at "session_id" message
  command_by_type session_id (text_at "type" message) message

-- The spread of an optional text: present if it is truthy.
text_if : String → Option String → Fields → Fields
text_if k none fs = fs
text_if k (some s) fs = field_if (non_empty s) k (str s) fs

resume_if : Option String → Fields
resume_if none = end
resume_if (some s) = field_if (non_empty s) "resume" (obj (field "acp_session_id" (str s) end)) end

header : String → String → Option String → Fields → Fields
unfolding text_if field_if
header type session_id tenant_id fs =
    field "type" (str type) (field "session_id" (str session_id) (text_if "tenant_id" tenant_id fs))

pub encode_session_command : Option String → SessionCommand → Json
unfolding header text_if resume_if field_if
encode_session_command tenant_id (session_start c) = obj (
    header "session.start" c.session_id tenant_id
      (field "agent_id" (str c.agent_id) (text_if "cwd" c.cwd (resume_if c.acp_session_id))))
encode_session_command tenant_id (session_prompt c) = obj (
    header "session.prompt" c.session_id tenant_id
      (field "turn_id" (str c.turn_id) (field "text" (str c.text) end)))
encode_session_command tenant_id (session_cancel c) =
    obj (header "session.cancel" c.session_id tenant_id (field "turn_id" (str c.turn_id) end))
encode_session_command tenant_id (session_dispose session_id) =
    obj (header "session.dispose" session_id tenant_id end)

decode_ready : String → Fields → Option SessionHostEvent
decode_ready session_id message = do
  acp_session_id ← truthy_text_at "acp_session_id" message
  some (session_ready session_id acp_session_id)

decode_event : String → Fields → Option SessionHostEvent
decode_event session_id message = do
  turn_id ← truthy_text_at "turn_id" message
  event ← property "event" message
  some (session_event session_id turn_id event)

decode_complete : String → Fields → Option SessionHostEvent
decode_complete session_id message = do
  turn_id ← truthy_text_at "turn_id" message
  some (session_complete session_id turn_id)

decode_error : String → Fields → Option SessionHostEvent
decode_error session_id message = do
  text ← text_at "message" message
  some (session_error session_id (truthy_text_at "turn_id" message) text)

host_event_by_type : String → Option String → Fields → Option SessionHostEvent
unfolding decode_ready decode_event decode_complete decode_error
host_event_by_type session_id none message = none
host_event_by_type session_id (some type) message =
    if str_eq type "session.ready"
    then decode_ready session_id message
    else if str_eq type "session.event"
    then decode_event session_id message
    else if str_eq type "session.complete"
    then decode_complete session_id message
    else if str_eq type "session.error"
    then decode_error session_id message
    else if str_eq type "session.disposed"
    then some (session_disposed session_id)
    else none

pub decode_session_host_event : Json → Option SessionHostEvent
unfolding message_of host_event_by_type text_at truthy_text_at property
decode_session_host_event input = do
  message ← message_of input
  session_id ← truthy_text_at "session_id" message
  host_event_by_type session_id (text_at "type" message) message

pub encode_session_host_event : Option String → SessionHostEvent → Json
unfolding header text_if field_if
encode_session_host_event tenant_id (session_ready session_id acp_session_id) =
    obj (
      header "session.ready" session_id tenant_id (field "acp_session_id" (str acp_session_id) end))
encode_session_host_event tenant_id (session_event session_id turn_id event) = obj (
    header "session.event" session_id tenant_id
      (field "turn_id" (str turn_id) (field "event" event end)))
encode_session_host_event tenant_id (session_complete session_id turn_id) =
    obj (header "session.complete" session_id tenant_id (field "turn_id" (str turn_id) end))
encode_session_host_event tenant_id (session_error session_id turn_id message) = obj (
    header "session.error" session_id tenant_id
      (text_if "turn_id" turn_id (field "message" (str message) end)))
encode_session_host_event tenant_id (session_disposed session_id) =
    obj (header "session.disposed" session_id tenant_id end)
