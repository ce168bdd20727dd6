-- ===== src/EventVocabulary/Tests.antt =====
-- The validator at concrete events.
use openma_common.Common.{true, false, ◌≡◌, refl, ◌↔◌, non_empty, String_discrete}
use openma_common.Common.Json.{Fields, field, end, obj, str, num, natural, property}
use openma_common.Common.Maps.{has}
use openma_common.EventVocabulary.{is_openma_event, valid_source}
use openma_common.EventVocabulary.Laws.{accepted_exact}
use openma_common.EventVocabulary.Spec.{IsOpenmaEvent}

abbrev envelope : Fields → Fields
envelope fs = field "schema_version" (str "oma.event.v1") (
    field "event_id" (str "e1") (
      field "session_id" (str "s1") (
        field "source" (obj (field "kind" (str "user") end))
          (field "occurred_at" (str "now") (field "seq" (num (natural 7)) fs)))))

abbrev message : Fields
message = envelope (field "type" (str "user.message") (field "data" (str "hi") end))

message_is_accepted : is_openma_event (obj message) ≡ true
unfolding is_openma_event property has String_discrete non_empty valid_source
message_is_accepted = refl

raw_without_record :
    is_openma_event (obj (envelope (field "type" (str "raw.event") (field "data" (str "hi") end))))
    ≡ false
unfolding is_openma_event property has String_discrete non_empty valid_source
raw_without_record = refl

accepted_exact_example : (is_openma_event (obj message) ≡ true) ↔ IsOpenmaEvent (obj message)
accepted_exact_example = accepted_exact (obj message)

-- A message is no event with a number past the bound, with an empty id, or without its source.
too_late : is_openma_event (obj (field "seq" (num (natural 9007199254740992)) message)) ≡ false
unfolding is_openma_event property has String_discrete non_empty valid_source
too_late = refl

without_id : is_openma_event (obj (field "event_id" (str "") message)) ≡ false
unfolding is_openma_event property has String_discrete non_empty valid_source
without_id = refl

without_source : is_openma_event (obj (field "source" (str "user") message)) ≡ false
unfolding is_openma_event property has String_discrete non_empty valid_source
without_source = refl
