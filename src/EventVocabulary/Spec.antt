-- ===== src/EventVocabulary/Spec.antt =====
-- src/session-events/openma.ts: what an OpenMA event is, by its fields, without the validator's tests.
use openma_common.Common.{Among, ◌≤◌, String, Option, none, some, List, [], ◌∷◌, ◌≢◌, ◌⊎◌}
use openma_common.Common.Json.{Json, natural, num, str, obj, Fields, property}
use openma_common.EventVocabulary.{openma_event_types}

-- A property that is a text, and the text is as a predicate says.
abbrev pub IsTextThat : (String → Type 0) → Option Json → Type 0
IsTextThat P (some (str t)) = P t
IsTextThat P _ = ⊥

abbrev pub IsText : Option Json → Type 0
IsText = IsTextThat (λ t. Unit)

abbrev pub IsFullText : Option Json → Type 0
IsFullText = IsTextThat (λ t. t ≢ "")

abbrev pub IsOneOf : List String → Option Json → Type 0
IsOneOf texts = IsTextThat (λ t. Among t texts)

-- A property that is there; one that is absent or as a predicate says; one that is an object.
abbrev pub IsThere : Option Json → Type 0
IsThere none = ⊥
IsThere (some v) = Unit

abbrev pub IsOptional : (Option Json → Type 0) → Option Json → Type 0
IsOptional P none = Unit
IsOptional P (some v) = P (some v)

abbrev pub IsObjectThat : (Fields → Type 0) → Option Json → Type 0
IsObjectThat P (some (obj fs)) = P fs
IsObjectThat P _ = ⊥

-- A number from 0 to 2 ^ 53 - 1.
abbrev pub IsSeq : Option Json → Type 0
IsSeq (some (num (natural n))) = n ≤ 9007199254740991
IsSeq _ = ⊥

abbrev pub IsSource : Fields → Type 0
IsSource source =
    IsOneOf ("harness" ∷ "openma" ∷ "user" ∷ "system" ∷ []) (property "kind" source)
    × (IsOptional IsText (property "harness" source)
        × IsOptional IsText (property "adapter" source))

abbrev pub IsRawRecord : Fields → Type 0
IsRawRecord raw =
    IsOneOf ("raw" ∷ []) (property "kind" raw)
    × (IsOneOf ("acp" ∷ "adapter" ∷ "transport" ∷ []) (property "source" raw)
        × (IsOptional IsText (property "method" raw)
            × (IsOptional IsText (property "event_type" raw)
                × (IsThere (property "payload" raw)
                    × (IsText (property "received_at" raw)
                        × IsOneOf ("unknown" ∷ "unsupported" ∷ "malformed" ∷ [])
                            (property "reason" raw))))))

abbrev pub IsCorrelation : Fields → Type 0
IsCorrelation correlation =
    IsOptional IsText (property "session_id" correlation)
    × (IsOptional IsText (property "turn_id" correlation)
        × (IsOptional IsText (property "work_item_id" correlation)
            × IsOptional IsText (property "parent_id" correlation)))

abbrev pub IsVendorRecord : Fields → Type 0
IsVendorRecord vendor =
    IsOneOf ("vendor" ∷ []) (property "kind" vendor)
    × (IsText (property "harness" vendor)
        × (IsText (property "namespace" vendor)
            × (IsText (property "name" vendor)
                × (IsOptional IsText (property "version" vendor)
                    × (IsOptional (IsObjectThat IsCorrelation) (property "correlation" vendor)
                        × IsThere (property "data" vendor))))))

abbrev pub IsEnvelope : Fields → Type 0
IsEnvelope event =
    IsOneOf ("oma.event.v1" ∷ []) (property "schema_version" event)
    × (IsFullText (property "event_id" event)
        × (IsOneOf openma_event_types (property "type" event)
            × (IsFullText (property "session_id" event)
                × (IsOptional IsText (property "session_thread_id" event)
                    × (IsOptional IsText (property "turn_id" event)
                        × (IsOptional IsText (property "work_item_id" event)
                            × (IsOptional IsText (property "parent_event_id" event)
                                × (IsOptional IsText (property "parent_id" event)
                                    × (IsObjectThat IsSource (property "source" event)
                                        × (IsFullText (property "occurred_at" event)
                                            × (IsOptional IsText (property "ingested_at" event)
                                                × (IsOptional IsSeq (property "seq" event)
                                                    × (IsThere (property "data" event)
                                                        × IsOptional (IsObjectThat IsRawRecord)
                                                            (property "raw" event))))))))))))))

-- The data of a raw event is a raw record, of a vendor event a vendor record, of any other any value.
abbrev pub IsData : Fields → Type 0
IsData event =
    (IsOneOf ("raw.event" ∷ []) (property "type" event)
      × IsObjectThat IsRawRecord (property "data" event))
    ⊎ ((IsOneOf ("vendor.event" ∷ []) (property "type" event)
          × IsObjectThat IsVendorRecord (property "data" event))
        ⊎ ((¬ IsOneOf ("raw.event" ∷ []) (property "type" event))
            × (¬ IsOneOf ("vendor.event" ∷ []) (property "type" event))))

abbrev pub IsOpenmaEvent : Json → Type 0
IsOpenmaEvent (obj event) = IsEnvelope event × IsData event
IsOpenmaEvent _ = ⊥
