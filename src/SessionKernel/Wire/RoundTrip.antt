-- ===== src/SessionKernel/Wire/RoundTrip.antt =====
-- src/session-kernel/index.ts: what the encoders write and the decoders read back.
use openma_common.Common.{
  String, true, false, Option, none, some, ◌≡◌, refl, if◌then◌else◌, non_empty, arith, ap, ◌∙◌,
  str_eq, eq_iff,
}
use openma_common.Common.Json.{text_at, truthy_text_at, Fields, Json, as_truthy_text}
use openma_common.SessionKernel.Wire.{
  SessionCommand, session_start, session_prompt, session_cancel, session_dispose, local,
  command_by_type, host_event_by_type, message_of, ◌>>=◌, SessionHostEvent, session_ready,
  session_event, session_complete, session_error, session_disposed, decode_session_command,
  encode_session_command, decode_session_host_event, encode_session_host_event,
}

abbrev pub IsTruthy : String → Type 0
IsTruthy s = non_empty s ≡ true

-- The identifiers that the decoder insists on.
abbrev pub IsRoutable : SessionCommand → Type 0
IsRoutable (session_start c) = IsTruthy c.session_id × IsTruthy c.agent_id
IsRoutable (session_prompt c) = IsTruthy c.session_id × IsTruthy c.turn_id
IsRoutable (session_cancel c) = IsTruthy c.session_id × IsTruthy c.turn_id
IsRoutable (session_dispose s) = IsTruthy s

abbrev pub truthy : Option String → Option String
truthy none = none
truthy (some s) = if non_empty s then some s else none

-- What the wire keeps of a command: the placement is read back as local, and empty texts are absent.
abbrev pub normal : SessionCommand → SessionCommand
normal (session_start c) = session_start (record {
  session_id = c.session_id;
  agent_id = c.agent_id;
  runtime = local;
  cwd = truthy c.cwd;
  acp_session_id = truthy c.acp_session_id;
})
normal c = c

-- Whatever the tenant, decoding an encoded command whose required ids are not empty gives the
-- command back, except that a start is read back as local and that its empty optional texts are
-- absent.
pub decode-encode_command :
    (tenant : Option String) (c : SessionCommand)
    → IsRoutable c
    → decode_session_command (encode_session_command tenant c) ≡ some (normal c)
unfolding decode_session_command encode_session_command
decode-encode_command tenant (session_start c) h = ground arith
decode-encode_command tenant (session_prompt c) h = ground arith
decode-encode_command tenant (session_cancel c) h = ground arith
decode-encode_command tenant (session_dispose s) h = ground arith

module _ (s : String) (o : Option Json) where
  as_truthy_text-IsTruthy : as_truthy_text o ≡ some s → IsTruthy s
  as_truthy_text-IsTruthy h = ground arith

as_truthy_text-truthy : (o : Option Json) → truthy (as_truthy_text o) ≡ as_truthy_text o
as_truthy_text-truthy o = ground arith

decoded-IsNormal :
    (j : Json) (c : SessionCommand)
    → decode_session_command j ≡ some c
    → IsRoutable c × (normal c ≡ c)
unfolding decode_session_command
decoded-IsNormal j c h = ground arith

-- Whatever JSON a command was decoded from, encoding it for any tenant and decoding again gives the
-- same command.
decode_stable :
    (tenant : Option String) (j : Json) (c : SessionCommand)
    → decode_session_command j ≡ some c
    → decode_session_command (encode_session_command tenant c) ≡ some c
decode_stable tenant j c h =
    let (routable, same) = decoded-IsNormal j c h in
    decode-encode_command tenant c routable ∙ ap some same

abbrev pub IsRoutableEvent : SessionHostEvent → Type 0
IsRoutableEvent (session_ready s a) = IsTruthy s × IsTruthy a
IsRoutableEvent (session_event s t e) = IsTruthy s × IsTruthy t
IsRoutableEvent (session_complete s t) = IsTruthy s × IsTruthy t
IsRoutableEvent (session_error s t m) = IsTruthy s
IsRoutableEvent (session_disposed s) = IsTruthy s

abbrev pub normal_event : SessionHostEvent → SessionHostEvent
normal_event (session_error s t m) = session_error s (truthy t) m
normal_event e = e

-- Whatever the tenant, decoding an encoded host event whose required ids are not empty gives the
-- event back, except that the empty turn id of an error is absent.
pub decode-encode_host_event :
    (tenant : Option String) (e : SessionHostEvent)
    → IsRoutableEvent e
    → decode_session_host_event (encode_session_host_event tenant e) ≡ some (normal_event e)
unfolding decode_session_host_event encode_session_host_event
decode-encode_host_event tenant (session_ready s a) h = ground arith
decode-encode_host_event tenant (session_event s t e) h = ground arith
decode-encode_host_event tenant (session_complete s t) h = ground arith
decode-encode_host_event tenant (session_error s t m) h = ground arith
decode-encode_host_event tenant (session_disposed s) h = ground arith

decoded_event-IsNormal :
    (j : Json) (e : SessionHostEvent)
    → decode_session_host_event j ≡ some e
    → IsRoutableEvent e × (normal_event e ≡ e)
unfolding decode_session_host_event
decoded_event-IsNormal j e h = ground arith

-- Whatever JSON a host event was decoded from, encoding it for any tenant and decoding again gives
-- the same event.
decode_event_stable :
    (tenant : Option String) (j : Json) (e : SessionHostEvent)
    → decode_session_host_event j ≡ some e
    → decode_session_host_event (encode_session_host_event tenant e) ≡ some e
decode_event_stable tenant j e h =
    let (routable, same) = decoded_event-IsNormal j e h in
    decode-encode_host_event tenant e routable ∙ ap some same

abbrev IsHostType : String → Type 0
IsHostType t =
    (str_eq t "session.ready" ≡ false)
    × (str_eq t "session.event" ≡ false)
    × (str_eq t "session.complete" ≡ false)
    × (str_eq t "session.error" ≡ false)
    × (str_eq t "session.disposed" ≡ false)

-- A type is one text, so no other test on it passes.
not-IsHostType : (t k : String) → str_eq t k ≡ true → IsHostType k → IsHostType t
not-IsHostType t k e h = rw ((eq_iff t k).0 e) h

command_not_host :
    (s : String) (o : Option String) (m : Fields) (c : SessionCommand)
    → command_by_type s o m ≡ some c
    → host_event_by_type s o m ≡ none
unfolding command_by_type host_event_by_type
command_not_host s none m c h = refl
command_not_host s (some t) m c h = ground (
  arith,
  not-IsHostType t "session.start",
  not-IsHostType t "session.prompt",
  not-IsHostType t "session.cancel",
  not-IsHostType t "session.dispose",
)

routed_not_host :
    (o : Option String) (m : Fields) (c : SessionCommand)
    → (o >>= λ s. command_by_type s (text_at "type" m) m) ≡ some c
    → (o >>= λ s. host_event_by_type s (text_at "type" m) m) ≡ none
routed_not_host none m c h = refl
routed_not_host (some s) m c h = command_not_host s (text_at "type" m) m c h

message_not_host :
    (o : Option Fields) (c : SessionCommand)
    → (o >>= λ m. truthy_text_at "session_id" m >>= λ s. command_by_type s (text_at "type" m) m)
      ≡ some c
    → (o >>= λ m. truthy_text_at "session_id" m >>= λ s. host_event_by_type s (text_at "type" m) m)
      ≡ none
message_not_host none c h = refl
message_not_host (some m) c h = routed_not_host (truthy_text_at "session_id" m) m c h

-- A message that decodes as a command never decodes as a host event.
vocabularies_disjoint :
    (j : Json) (c : SessionCommand)
    → decode_session_command j ≡ some c
    → decode_session_host_event j ≡ none
unfolding decode_session_command decode_session_host_event
vocabularies_disjoint j c h = message_not_host (message_of j) c h
