-- ===== src/EventVocabulary.antt =====
-- src/session-events/openma.ts: the event vocabulary and its runtime validator. Its input is a JSON value
-- here, which `immutableJson` copies as it is; values that are no JSON are rejected before.
pub mod Spec
pub mod Properties
pub mod Laws
mod Tests
use openma_common.Common.{
  ℕ, String, Bool, true, false, not, ◌&&◌, ◌||◌, Option, none, some, List, [], ◌∷◌, ◌++◌, ite,
  if◌then◌else◌, leb, non_empty, String_discrete,
}
use openma_common.Common.Json.{Json, Number, natural, num, str, obj, Fields, property}
use openma_common.Common.Maps.{has}

pub openma_canonical_event_types : List String
openma_canonical_event_types =
    "user.message" ∷ "user.interrupt" ∷ "user.permission_response" ∷ "user.elicitation_response"
    ∷ "agent.message" ∷ "agent.message_chunk" ∷ "agent.thinking" ∷ "turn.queued" ∷ "turn.started"
    ∷ "turn.completed" ∷ "turn.failed" ∷ "turn.cancelled" ∷ "turn.interrupted" ∷ "turn.steered"
    ∷ "tool.started" ∷ "tool.progress" ∷ "tool.completed" ∷ "tool.failed" ∷ "tool.cancelled"
    ∷ "work_item.started" ∷ "work_item.progress" ∷ "work_item.output" ∷ "work_item.completed"
    ∷ "work_item.failed" ∷ "work_item.cancelled" ∷ "work_item.killed" ∷ "work_item.terminated"
    ∷ "work_item.missing_terminal" ∷ "work_item.reidentified" ∷ "work_item.classified"
    ∷ "monitor.event" ∷ "plan.updated" ∷ "plan.completed" ∷ "plan.removed" ∷ "session.started"
    ∷ "session.running" ∷ "session.idle" ∷ "session.terminated" ∷ "session.error" ∷ "system.notice"
    ∷ "command_catalog.updated" ∷ "capability.updated" ∷ "usage.updated" ∷ "callback.requested"
    ∷ "callback.completed" ∷ "callback.failed" ∷ "callback.notification" ∷ "user.message_chunk"
    ∷ "user.fs_write_response" ∷ "session.updated" ∷ "session.rescheduled" ∷ "system.message"
    ∷ "outcome.defined" ∷ "outcome.evaluation_started" ∷ "outcome.evaluation_progress"
    ∷ "outcome.evaluation_completed" ∷ []

pub openma_event_types : List String
unfolding openma_canonical_event_types
openma_event_types = openma_canonical_event_types ++ "vendor.event" ∷ "raw.event" ∷ []

source_kinds : List String
source_kinds = "harness" ∷ "openma" ∷ "user" ∷ "system" ∷ []

raw_sources : List String
raw_sources = "acp" ∷ "adapter" ∷ "transport" ∷ []

raw_reasons : List String
raw_reasons = "unknown" ∷ "unsupported" ∷ "malformed" ∷ []

pub record_value : Option Json → Option Fields
record_value (some (obj fs)) = some fs
record_value _ = none

pub optional_string : Option Json → Bool
optional_string none = true
optional_string (some (str t)) = true
optional_string (some _) = false

pub is_text : Option Json → Bool
is_text (some (str t)) = true
is_text _ = false

-- A text among those of a set.
pub is_text_of : List String → Option Json → Bool
is_text_of texts (some (str t)) = has t texts
is_text_of texts _ = false

pub is_full_text : Option Json → Bool
is_full_text (some (str t)) = non_empty t
is_full_text _ = false

pub is_there : Option Json → Bool
is_there none = false
is_there (some v) = true

-- value === undefined || Number.isSafeInteger(value) && value >= 0
pub optional_seq : Option Json → Bool
optional_seq none = true
optional_seq (some (num (natural n))) = leb n 9007199254740991
optional_seq (some _) = false

valid_source_fields : Option Fields → Bool
unfolding is_text_of optional_string source_kinds
valid_source_fields none = false
valid_source_fields (some source) =
    is_text_of source_kinds (property "kind" source)
    && (optional_string (property "harness" source) && optional_string (property "adapter" source))

pub valid_source : Option Json → Bool
unfolding valid_source_fields record_value
valid_source value = valid_source_fields (record_value value)

valid_raw_fields : Option Fields → Bool
unfolding is_text_of optional_string is_text is_there raw_sources raw_reasons
valid_raw_fields none = false
valid_raw_fields (some raw) =
    is_text_of ("raw" ∷ []) (property "kind" raw)
    && (is_text_of raw_sources (property "source" raw)
        && (optional_string (property "method" raw)
            && (optional_string (property "event_type" raw)
                && (is_there (property "payload" raw)
                    && (is_text (property "received_at" raw)
                        && is_text_of raw_reasons (property "reason" raw))))))

pub valid_raw_record : Option Json → Bool
unfolding valid_raw_fields record_value
valid_raw_record value = valid_raw_fields (record_value value)

valid_correlation_fields : Option Fields → Bool
unfolding optional_string
valid_correlation_fields none = false
valid_correlation_fields (some correlation) =
    optional_string (property "session_id" correlation)
    && (optional_string (property "turn_id" correlation)
        && (optional_string (property "work_item_id" correlation)
            && optional_string (property "parent_id" correlation)))

valid_correlation : Option Json → Bool
unfolding valid_correlation_fields record_value
valid_correlation none = true
valid_correlation (some value) = valid_correlation_fields (record_value (some value))

valid_vendor_fields : Option Fields → Bool
unfolding is_text_of optional_string is_text is_there valid_correlation
valid_vendor_fields none = false
valid_vendor_fields (some vendor) =
    is_text_of ("vendor" ∷ []) (property "kind" vendor)
    && (is_text (property "harness" vendor)
        && (is_text (property "namespace" vendor)
            && (is_text (property "name" vendor)
                && (optional_string (property "version" vendor)
                    && (valid_correlation (property "correlation" vendor)
                        && is_there (property "data" vendor))))))

pub valid_vendor_record : Option Json → Bool
unfolding valid_vendor_fields record_value
valid_vendor_record value = valid_vendor_fields (record_value value)

optional_raw : Option Json → Bool
unfolding valid_raw_record
optional_raw none = true
optional_raw (some value) = valid_raw_record (some value)

-- The conditions on the envelope, in their order.
pub valid_envelope : Fields → Bool
unfolding is_text_of is_full_text optional_string optional_seq is_there optional_raw
    openma_event_types
valid_envelope event =
    is_text_of ("oma.event.v1" ∷ []) (property "schema_version" event)
    && (is_full_text (property "event_id" event)
        && (is_text_of openma_event_types (property "type" event)
            && (is_full_text (property "session_id" event)
                && (optional_string (property "session_thread_id" event)
                    && (optional_string (property "turn_id" event)
                        && (optional_string (property "work_item_id" event)
                            && (optional_string (property "parent_event_id" event)
                                && (optional_string (property "parent_id" event)
                                    && (valid_source (property "source" event)
                                        && (is_full_text (property "occurred_at" event)
                                            && (optional_string (property "ingested_at" event)
                                                && (optional_seq (property "seq" event)
                                                    && (is_there (property "data" event)
                                                        && optional_raw
                                                            (property "raw" event))))))))))))))

-- The data of a raw and of a vendor event.
pub valid_data : Fields → Bool
unfolding is_text_of
valid_data event =
    if is_text_of ("raw.event" ∷ []) (property "type" event)
    then valid_raw_record (property "data" event)
    else if is_text_of ("vendor.event" ∷ []) (property "type" event)
    then valid_vendor_record (property "data" event)
    else true

pub is_openma_event : Json → Bool
unfolding valid_envelope valid_data
is_openma_event (obj event) = if valid_envelope event then valid_data event else false
is_openma_event _ = false

-- event.type === "turn.queued" || event.data?.delivery === "queued"
pub is_openma_queued_event : Json → Bool
unfolding is_text_of
is_openma_queued_event (obj event) =
    is_text_of ("turn.queued" ∷ []) (property "type" event) || elim (property "data" event) [
      | some (obj data_fields) ↦ is_text_of ("queued" ∷ []) (property "delivery" data_fields)
      | _ ↦ false
    ]
is_openma_queued_event _ = false
