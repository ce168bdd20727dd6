-- ===== src/EventVocabulary/Laws.antt =====
-- src/session-events/openma.ts: the validator accepts the OpenMA events and nothing else.
use openma_common.Common.{true, Option, none, some, [], ◌∷◌, ◌≡◌, refl, sym, ◌∙◌, ◌↔◌, inl, inr}
use text.Mathlib.TextEquality.{eq_iff}
use openma_common.Common.Json.{Json, null, bool, num, str, arr, obj, Fields, property}
use openma_common.EventVocabulary.{
  optional_raw, valid_source, valid_raw_record, valid_correlation, valid_vendor_record,
  valid_source_fields, valid_raw_fields, valid_correlation_fields, valid_vendor_fields,
  valid_envelope, valid_data, is_openma_event,
}
use openma_common.EventVocabulary.Spec.{
  IsOneOf, IsOptional, IsObjectThat, IsSource, IsRawRecord, IsCorrelation, IsVendorRecord,
  IsEnvelope, IsData, IsOpenmaEvent,
}
use openma_common.EventVocabulary.Properties.{
  never, always, and_iff, if_iff, is_text_of_iff, is_full_text_iff, is_text_iff,
  optional_string_iff, optional_seq_iff, is_there_iff, record_value_iff, choice_iff,
}

valid_source_iff : (v : Option Json) → (valid_source v ≡ true) ↔ IsObjectThat IsSource v
unfolding valid_source valid_source_fields
valid_source_iff v = record_value_iff valid_source_fields v refl (λ source.
    and_iff _ _ (is_text_of_iff _ (property "kind" source)) (
      and_iff _ _ (optional_string_iff (property "harness" source))
        (optional_string_iff (property "adapter" source))))

valid_raw_record_iff : (v : Option Json) → (valid_raw_record v ≡ true) ↔ IsObjectThat IsRawRecord v
unfolding valid_raw_record valid_raw_fields
valid_raw_record_iff v = record_value_iff valid_raw_fields v refl (λ raw.
    and_iff _ _ (is_text_of_iff _ (property "kind" raw)) (
      and_iff _ _ (is_text_of_iff _ (property "source" raw)) (
        and_iff _ _ (optional_string_iff (property "method" raw)) (
          and_iff _ _ (optional_string_iff (property "event_type" raw)) (
            and_iff _ _ (is_there_iff (property "payload" raw)) (
              and_iff _ _ (is_text_iff (property "received_at" raw))
                (is_text_of_iff _ (property "reason" raw))))))))

valid_correlation_iff :
    (v : Option Json) → (valid_correlation v ≡ true) ↔ IsOptional (IsObjectThat IsCorrelation) v
unfolding valid_correlation valid_correlation_fields
valid_correlation_iff none = always
valid_correlation_iff (some value) =
    record_value_iff valid_correlation_fields (some value) refl (λ correlation.
      and_iff _ _ (optional_string_iff (property "session_id" correlation)) (
        and_iff _ _ (optional_string_iff (property "turn_id" correlation)) (
          and_iff _ _ (optional_string_iff (property "work_item_id" correlation))
            (optional_string_iff (property "parent_id" correlation)))))

valid_vendor_record_iff :
    (v : Option Json) → (valid_vendor_record v ≡ true) ↔ IsObjectThat IsVendorRecord v
unfolding valid_vendor_record valid_vendor_fields
valid_vendor_record_iff v = record_value_iff valid_vendor_fields v refl (λ vendor.
    and_iff _ _ (is_text_of_iff _ (property "kind" vendor)) (
      and_iff _ _ (is_text_iff (property "harness" vendor)) (
        and_iff _ _ (is_text_iff (property "namespace" vendor)) (
          and_iff _ _ (is_text_iff (property "name" vendor)) (
            and_iff _ _ (optional_string_iff (property "version" vendor)) (
              and_iff _ _ (valid_correlation_iff (property "correlation" vendor))
                (is_there_iff (property "data" vendor))))))))

optional_raw_iff :
    (v : Option Json) → (optional_raw v ≡ true) ↔ IsOptional (IsObjectThat IsRawRecord) v
unfolding optional_raw
optional_raw_iff none = always
optional_raw_iff (some value) = valid_raw_record_iff (some value)

valid_envelope_iff : (event : Fields) → (valid_envelope event ≡ true) ↔ IsEnvelope event
unfolding valid_envelope
valid_envelope_iff event = and_iff _ _ (is_text_of_iff _ (property "schema_version" event)) (
    and_iff _ _ (is_full_text_iff (property "event_id" event)) (
      and_iff _ _ (is_text_of_iff _ (property "type" event)) (
        and_iff _ _ (is_full_text_iff (property "session_id" event)) (
          and_iff _ _ (optional_string_iff (property "session_thread_id" event)) (
            and_iff _ _ (optional_string_iff (property "turn_id" event)) (
              and_iff _ _ (optional_string_iff (property "work_item_id" event)) (
                and_iff _ _ (optional_string_iff (property "parent_event_id" event)) (
                  and_iff _ _ (optional_string_iff (property "parent_id" event)) (
                    and_iff _ _ (valid_source_iff (property "source" event)) (
                      and_iff _ _ (is_full_text_iff (property "occurred_at" event)) (
                        and_iff _ _ (optional_string_iff (property "ingested_at" event)) (
                          and_iff _ _ (optional_seq_iff (property "seq" event)) (
                            and_iff _ _ (is_there_iff (property "data" event))
                              (optional_raw_iff (property "raw" event)))))))))))))))

raw_or_vendor :
    (v : Option Json) → IsOneOf ("raw.event" ∷ []) v → IsOneOf ("vendor.event" ∷ []) v → ⊥
raw_or_vendor none n _ = n
raw_or_vendor (some null) n _ = n
raw_or_vendor (some (bool _)) n _ = n
raw_or_vendor (some (num _)) n _ = n
raw_or_vendor (some (arr _)) n _ = n
raw_or_vendor (some (obj _)) n _ = n
raw_or_vendor (some (str t)) (inr n) _ = n
raw_or_vendor (some (str t)) (inl raw) (inr n) = n
raw_or_vendor (some (str t)) (inl raw) (inl vendor) =
    never.0 ((eq_iff "raw.event" "vendor.event").1 (raw ∙ sym vendor))

valid_data_iff : (event : Fields) → (valid_data event ≡ true) ↔ IsData event
unfolding valid_data
valid_data_iff event =
    choice_iff _ _ _ _ (raw_or_vendor (property "type" event))
      (is_text_of_iff _ (property "type" event)) (is_text_of_iff _ (property "type" event))
      (valid_raw_record_iff (property "data" event))
      (valid_vendor_record_iff (property "data" event))

-- The validator accepts a value exactly if it is an object with the schema version oma.event.v1,
-- non-empty texts as event id, session id and time, a type of the published vocabulary, absent or
-- textual optional fields, a source of one of the four kinds, no sequence number or one from 0 to
-- 9007199254740991, data, no raw record or a well-formed one, and data that is a raw record for a
-- raw event and a vendor record for a vendor event.
pub accepted_exact : (value : Json) → (is_openma_event value ≡ true) ↔ IsOpenmaEvent value
unfolding is_openma_event
accepted_exact null = never
accepted_exact (bool b) = never
accepted_exact (num n) = never
accepted_exact (str t) = never
accepted_exact (arr items) = never
accepted_exact (obj event) =
    if_iff (valid_envelope event) (valid_data event) (valid_envelope_iff event)
      (valid_data_iff event)
