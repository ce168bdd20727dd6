-- ===== src/SemanticRecovery.antt =====
-- src/managed-runtime/semantic-recovery.ts: the bounded prompt by which an agent resumes from the
-- canonical history. A text is its UTF-16 code units; `maxCharacters` is a natural number.
pub mod Prompt
use openma_common.Common.{
  String, Bool, false, Option, none, some, List, [], ◌∷◌, ◌++◌, map, if◌then◌else◌,
}
use openma_common.Common.Maps.{get, set}
use openma_common.Common.Units.{Units, codes, is_nil, trim, join, same}

pub data RecoveryReason : Type 0 where
  native_state_missing native_state_stale : RecoveryReason

pub data SourceKind : Type 0 where
  image document : SourceKind

pub data ContentBlock : Type 0 where
  text : Units → ContentBlock
  -- its `file_id`, its `url` and its title
  source : SourceKind → Option Units → Option Units → Option Units → ContentBlock

pub data ToolContent : Type 0 where
  plain : Units → ToolContent
  blocks : List ContentBlock → ToolContent

pub data ManagedRecoveryEvent : Type 0 where
  user_message : List ContentBlock → ManagedRecoveryEvent
  agent_message : List ContentBlock → ManagedRecoveryEvent
  context_compacted : Option (List ContentBlock) → ManagedRecoveryEvent
  tool_use : String → Units → ManagedRecoveryEvent
  custom_tool_use : String → Units → ManagedRecoveryEvent
  mcp_tool_use : String → Units → Units → ManagedRecoveryEvent
  tool_result : String → ToolContent → ManagedRecoveryEvent
  mcp_tool_result : String → Units → Bool → ManagedRecoveryEvent
  custom_tool_result : String → List ContentBlock → ManagedRecoveryEvent

kind_name : SourceKind → Units
kind_name image = codes "image"
kind_name document = codes "document"

-- The first of the two that is not null.
or_else : Option Units → Option Units → Option Units
or_else none b = b
or_else (some a) b = some a

or_empty : Option Units → Units
or_empty none = []
or_empty (some t) = t

-- The kind, with the title of a document that has one.
block_label : SourceKind → Option Units → Units
unfolding kind_name
block_label document (some title) =
    if is_nil title then codes "document" else codes "document " ++ title
block_label kind title = kind_name kind

block_text : ContentBlock → Units
unfolding block_label or_else or_empty
block_text (text t) = t
block_text (source kind file_id url title) =
    let reference = or_empty (or_else file_id url) in
    let label = block_label kind title in
    if is_nil reference
    then codes "[" ++ (label ++ codes "]")
    else codes "[" ++ (label ++ (codes ": " ++ (reference ++ codes "]")))

-- .filter(Boolean)
non_nil : List Units → List Units
non_nil [] = []
non_nil (t ∷ ts) = if is_nil t then non_nil ts else t ∷ non_nil ts

pub content_to_text : List ContentBlock → Units
unfolding block_text non_nil
content_to_text content = join (non_nil (map block_text content))

-- The events that a compaction leaves: its summary, if it has one, and those after it.
from_compaction : Units → List ManagedRecoveryEvent → Option (List ManagedRecoveryEvent)
from_compaction summary later =
    if is_nil summary
    then none
    else some (
        user_message (
          text (codes "<conversation-summary>\n" ++ (summary ++ codes "\n</conversation-summary>"))
          ∷ [])
        ∷ later)

or_none : Option (List ContentBlock) → List ContentBlock
or_none none = []
or_none (some content) = content

compacted_here :
    ManagedRecoveryEvent → List ManagedRecoveryEvent → Option (List ManagedRecoveryEvent)
unfolding from_compaction or_none
compacted_here (context_compacted summary) later =
    from_compaction (trim (content_to_text (or_none summary))) later
compacted_here _ later = none

last_compaction : List ManagedRecoveryEvent → Option (List ManagedRecoveryEvent)
unfolding compacted_here
last_compaction [] = none
last_compaction (event ∷ events) = elim (last_compaction events) [
  | none ↦ compacted_here event events
  | some kept ↦ some kept
]

pub events_after_last_compaction : List ManagedRecoveryEvent → List ManagedRecoveryEvent
unfolding last_compaction
events_after_last_compaction events = elim (last_compaction events) [
  | none ↦ events
  | some kept ↦ kept
]

is_prompt : ManagedRecoveryEvent → Units → Bool
is_prompt (user_message content) prompt = same (trim (content_to_text content)) (trim prompt)
is_prompt _ prompt = false

-- The events without the last one that is the prompt, if there is one.
drop_prompt : List ManagedRecoveryEvent → Units → Option (List ManagedRecoveryEvent)
unfolding is_prompt
drop_prompt [] prompt = none
drop_prompt (event ∷ events) prompt = elim (drop_prompt events prompt) [
  | none ↦ if is_prompt event prompt then some events else none
  | some kept ↦ some (event ∷ kept)
]

pub without_current_prompt : List ManagedRecoveryEvent → Units → List ManagedRecoveryEvent
unfolding drop_prompt
without_current_prompt events prompt = elim (drop_prompt events prompt) [
  | none ↦ events
  | some kept ↦ kept
]

name_tool : ManagedRecoveryEvent → List (String × Units) → List (String × Units)
name_tool (tool_use id name) names = set id name names
name_tool (custom_tool_use id name) names = set id name names
name_tool (mcp_tool_use id name server) names = set id (server ++ (codes "/" ++ name)) names
name_tool _ names = names

names_from : List (String × Units) → List ManagedRecoveryEvent → List (String × Units)
unfolding name_tool
names_from names [] = names
names_from names (event ∷ events) = names_from (name_tool event names) events

pub collect_tool_names : List ManagedRecoveryEvent → List (String × Units)
unfolding names_from
collect_tool_names events = names_from [] events

or_unknown : Option Units → Units
or_unknown none = codes "unknown"
or_unknown (some name) = name

-- A line, unless its text is empty.
labelled : Units → Units → List Units
labelled label t = if is_nil t then [] else (label ++ t) ∷ []

tool_line : Units → Units → Units → List Units
unfolding labelled
tool_line outcome name result =
    labelled (outcome ++ (codes " tool " ++ (name ++ codes ": "))) result

result_text : ToolContent → Units
result_text (plain t) = t
result_text (blocks content) = content_to_text content

pub event_to_recovery_lines : ManagedRecoveryEvent → List (String × Units) → List Units
unfolding labelled tool_line result_text or_unknown
event_to_recovery_lines (user_message content) names =
    labelled (codes "User: ") (trim (content_to_text content))
event_to_recovery_lines (agent_message content) names =
    labelled (codes "Assistant: ") (trim (content_to_text content))
event_to_recovery_lines (tool_result id content) names =
    tool_line (codes "Completed") (or_unknown (get id names)) (trim (result_text content))
event_to_recovery_lines (mcp_tool_result id content is_error) names =
    tool_line (if is_error then codes "Failed" else codes "Completed") (or_unknown (get id names))
      (trim content)
event_to_recovery_lines (custom_tool_result id content) names =
    tool_line (codes "Completed") (or_unknown (get id names)) (trim (content_to_text content))
event_to_recovery_lines _ names = []

pub recovery_lines : List (String × Units) → List ManagedRecoveryEvent → List Units
unfolding event_to_recovery_lines
recovery_lines names [] = []
recovery_lines names (event ∷ events) =
    event_to_recovery_lines event names ++ recovery_lines names events
