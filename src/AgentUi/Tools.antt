-- ===== src/AgentUi/Tools.antt =====
-- src/agent-ui/index.ts: the tool calls of a turn.
use openma_common.Common.{String, Option, none, some, List, [], ◌∷◌, ◌++◌, if◌then◌else◌, str_eq}
use openma_common.Common.Json.{Json, obj, Fields, end, field}
use openma_common.Common.Units.{Units, is_nil, same}
use openma_common.AgentUi.{
  over, AgentUiToolItem, AgentUiTimelineItem, message_item, tool_item, raw_item, AgentUiTurnState,
  ToolStatus, ToolLifecycleData, ToolOutputData,
}

-- The merge of one entry into the fields that are there: an object into an object, by the given merge
-- of objects, and any other value in its place.
pub merge_entry : (Fields → Fields) → String → Json → Fields → Fields
merge_entry merge key value end = field key value end
merge_entry merge key value (field k v fs) =
    let rest = merge_entry merge key value fs in
    if str_eq k key
    then field k
        (elim value [
          | obj incoming ↦ elim v [ obj current ↦ obj (merge current) | _ ↦ obj incoming ]
          | other ↦ other
        ])
        fs
    else field k v rest

mutual
  unfolding merge_entry

  -- The loop over the entries of the incoming fields.
  pub merge_adapter_meta : Fields → Fields → Fields
  merge_adapter_meta end current = current
  merge_adapter_meta (field key value incoming) current =
      merge_adapter_meta incoming (merge_entry (merge_value value) key value current)

  merge_value : Json → Fields → Fields
  merge_value (obj incoming) current = merge_adapter_meta incoming current
  merge_value _ current = current

or_fields : Option Fields → Fields
or_fields none = end
or_fields (some fs) = fs

merged_meta : Option Fields → Option Fields → Option Fields
unfolding merge_adapter_meta or_fields
merged_meta none current = current
merged_meta (some incoming) current = some (merge_adapter_meta incoming (or_fields current))

outputs_after : Option ToolOutputData → List ToolOutputData → List ToolOutputData
outputs_after none outputs = outputs
outputs_after (some output) outputs = if output.append then outputs ++ output ∷ [] else output ∷ []

pub updated_tool : ToolStatus → ToolLifecycleData → AgentUiToolItem → AgentUiToolItem
unfolding over merged_meta outputs_after
updated_tool status data_ item = record item {
  status = status;
  name = over data_.tool_name item.name;
  title = over data_.title item.title;
  tool_kind = over data_.kind item.tool_kind;
  raw_input = over data_.raw_input item.raw_input;
  raw_output = over data_.raw_output item.raw_output;
  content = over data_.content item.content;
  locations = over data_.locations item.locations;
  adapter_meta = merged_meta data_.adapter_meta item.adapter_meta;
  error = over data_.error item.error;
  reason = over data_.reason item.reason;
  outputs = outputs_after data_.output item.outputs;
}

new_tool : Units → ToolStatus → AgentUiToolItem
new_tool id status = record {
  id = id;
  name = none;
  title = none;
  tool_kind = none;
  status = status;
  raw_input = none;
  raw_output = none;
  content = none;
  locations = none;
  adapter_meta = none;
  outputs = [];
  error = none;
  reason = none;
}

-- The first tool call with the id, or a new one behind the items.
unfoldable pub upsert_tool_item :
    Units → ToolStatus → ToolLifecycleData → List AgentUiTimelineItem → List AgentUiTimelineItem
unfolding updated_tool new_tool
upsert_tool_item id status data_ [] =
    tool_item (updated_tool status data_ (new_tool id status)) ∷ []
upsert_tool_item id status data_ (tool_item item ∷ items) =
    let rest = upsert_tool_item id status data_ items in
    if same item.id id
    then tool_item (updated_tool status data_ item) ∷ items
    else tool_item item ∷ rest
upsert_tool_item id status data_ (message_item item ∷ items) =
    message_item item ∷ upsert_tool_item id status data_ items
upsert_tool_item id status data_ (raw_item other ∷ items) =
    raw_item other ∷ upsert_tool_item id status data_ items

unfoldable pub upsert_tool : ToolStatus → ToolLifecycleData → AgentUiTurnState → AgentUiTurnState
unfolding upsert_tool_item
upsert_tool status data_ turn = elim data_.tool_call_id [
  | none ↦ turn
  | some id ↦
      if is_nil id
      then turn
      else record turn { items = upsert_tool_item id status data_ turn.items }
]
