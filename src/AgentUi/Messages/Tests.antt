-- ===== src/AgentUi/Messages/Tests.antt =====
-- src/agent-ui/index.ts: texts that repeat the end of the message, and a message that comes back.
use openma_common.Common.Decimal.{decimal}
use openma_common.Common.{List, [], ◌∷◌, ◌≡◌, refl, false, length, ◌+◌, ◌≤◌}
use openma_common.Common.Units.{ends_with, starts_with, same, Units, codes}
use openma_common.AgentUi.{AgentUiTimelineItem, raw_item}
use openma_common.AgentUi.Messages.{merge_agent_ui_streaming_text, has_item, unique_message_item_id}
use openma_common.AgentUi.Messages.Merging.{Begins, Ends, merge_keeps}
use openma_common.AgentUi.Messages.Fresh.{unique_message_item_id_fresh}

abbrev heard_so_far : Units
heard_so_far = codes "The overlap is"

abbrev heard_now : Units
heard_now = codes "overlap is long"

merged_overlap : merge_agent_ui_streaming_text heard_so_far heard_now ≡ codes "The overlap is long"
unfolding merge_agent_ui_streaming_text same starts_with ends_with
merged_overlap = refl

merged_short : merge_agent_ui_streaming_text (codes "ha") (codes "ha ha") ≡ codes "ha ha"
unfolding merge_agent_ui_streaming_text same starts_with
merged_short = refl

short_overlap : merge_agent_ui_streaming_text (codes "a b") (codes "b c") ≡ codes "a bb c"
unfolding merge_agent_ui_streaming_text same starts_with
short_overlap = refl

merge_keeps_example :
    Begins (merge_agent_ui_streaming_text heard_so_far heard_now) heard_so_far
    × Ends (merge_agent_ui_streaming_text heard_so_far heard_now) heard_now
    × (length (merge_agent_ui_streaming_text heard_so_far heard_now)
        ≤ length heard_so_far + length heard_now)
merge_keeps_example = merge_keeps heard_so_far heard_now

abbrev items_with_segment : List AgentUiTimelineItem
items_with_segment =
    raw_item (codes "m1") ∷ raw_item (codes "m1:segment:2") ∷ raw_item (codes "m1:segment:11") ∷ []

third_segment : unique_message_item_id items_with_segment (codes "m1") ≡ codes "m1:segment:3"
unfolding unique_message_item_id same decimal
third_segment = refl

unique_message_item_id_fresh_example :
    has_item (unique_message_item_id items_with_segment (codes "m1")) items_with_segment ≡ false
unique_message_item_id_fresh_example = unique_message_item_id_fresh items_with_segment (codes "m1")
