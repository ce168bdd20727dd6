-- ===== src/SessionKernel/Wire/Tests.antt =====
-- The wire's theorems at concrete messages.
use openma_common.Common.{none, some, ◌≡◌, refl}
use openma_common.Common.Json.{Json, null, str, obj, end, field}
use openma_common.Common.{non_empty}
use openma_common.SessionKernel.Wire.{
  SessionCommand, SessionHostEvent, session_start, session_prompt, session_error, cloud,
  decode_session_command, encode_session_command, decode_session_host_event,
  encode_session_host_event,
}
use openma_common.SessionKernel.Wire.RoundTrip.{
  normal, normal_event, decode-encode_command, decode-encode_host_event,
}

abbrev start_in_cloud : SessionCommand
start_in_cloud = session_start (record {
  session_id = "s1";
  agent_id = "claude";
  runtime = cloud;
  cwd = some "/work";
  acp_session_id = some "";
})

decode-encode_command_example :
    decode_session_command (encode_session_command (some "acme") start_in_cloud)
    ≡ some (normal start_in_cloud)
unfolding non_empty
decode-encode_command_example = decode-encode_command (some "acme") start_in_cloud (refl, refl)

abbrev prompt_message : Json
prompt_message = obj (
    field "type" (str "session.prompt") (
      field "session_id" (str "s1")
        (field "turn_id" (str "t1") (field "text" (str "") (field "extra" null end)))))

abbrev prompted : SessionCommand
prompted = session_prompt (record { session_id = "s1"; turn_id = "t1"; text = "" })

abbrev failed : SessionHostEvent
failed = session_error "s1" (some "") "boom"

decode-encode_host_event_example :
    decode_session_host_event (encode_session_host_event none failed) ≡ some (normal_event failed)
unfolding non_empty
decode-encode_host_event_example = decode-encode_host_event none failed refl

abbrev error_message : Json
error_message = obj (
    field "type" (str "session.error")
      (field "session_id" (str "s1") (field "message" (str "boom") end)))
