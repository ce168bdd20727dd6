-- ===== src/SemanticRecovery/Prompt.antt =====
-- src/managed-runtime/semantic-recovery.ts: the envelope of the prompt and how its parts are cut.
pub mod Bounds
mod Tests
use openma_common.Common.{
  ℕ, suc, ◌+◌, ◌-◌, ◌*◌, ◌/◌, max, Bool, true, false, Option, none, some, List, [], ◌∷◌, ◌++◌,
  length, if◌then◌else◌, ltb, leb,
}
use openma_common.Common.Units.{Units, codes, is_nil, take, drop, trim, join}
use openma_common.SemanticRecovery.{
  RecoveryReason, native_state_missing, native_state_stale, ManagedRecoveryEvent,
  events_after_last_compaction, without_current_prompt, collect_tool_names, recovery_lines,
}

abbrev pub marker : Units
marker = codes "\n… [current request truncated] …\n"

pub truncate_current_request : Units → ℕ → Units
truncate_current_request text budget =
    let remaining = budget - length marker in
    if leb (length text) budget
    then text
    else take ((remaining + 1) / 2) text ++ (marker ++ drop (length text - remaining / 2) text)

-- The cost of a further line.
line_cost : Units → List Units → ℕ
line_cost line [] = length line
line_cost line (s ∷ selected) = length line + 1

-- The end of a line that does not fit by itself.
clipped : Units → ℕ → List Units → List Units
clipped line remaining [] = (codes "…" ++ drop (length line + 1 - remaining) line) ∷ []
clipped line remaining (s ∷ selected) = s ∷ selected

-- The loop over the lines, from the last one.
pub select_lines : List Units → List Units → ℕ → List Units
unfolding line_cost clipped
select_lines [] selected remaining = selected
select_lines (line ∷ earlier) selected remaining =
    let rest = select_lines earlier (line ∷ selected) (remaining - line_cost line selected) in
    if leb (line_cost line selected) remaining then rest else clipped line remaining selected

abbrev pub omitted : Units
omitted = codes "… earlier history omitted …"

-- The loop that makes room for the notice.
pub make_room : List Units → ℕ → List Units
make_room [] budget = []
make_room (line ∷ selected) budget =
    let rest = make_room selected budget in
    if ltb budget (length (join (line ∷ selected)) + length omitted + 1)
    then rest
    else line ∷ selected

pub reversed : List Units → List Units → List Units
reversed [] acc = acc
reversed (line ∷ lines) acc = reversed lines (line ∷ acc)

pub take_recent_lines : List Units → ℕ → Units
unfolding select_lines make_room reversed
take_recent_lines lines budget =
    let selected = select_lines (reversed lines []) [] budget in
    if ltb (length selected) (length lines)
    then join (omitted ∷ make_room selected budget)
    else join selected

reason_name : RecoveryReason → Units
reason_name native_state_missing = codes "native-state-missing"
reason_name native_state_stale = codes "native-state-stale"

reason_line : RecoveryReason → Units
reason_line native_state_stale =
    codes
      "The previous agent-native session state does not cover the latest canonical completed turn."
reason_line native_state_missing = codes "The previous agent-native session state is unavailable."

pub prefix_of : RecoveryReason → Units
unfolding reason_name reason_line
prefix_of reason = join (
    (codes "<openma-recovery version=\"1\" reason=\"" ++ (reason_name reason ++ codes "\">"))
    ∷ reason_line reason
    ∷ codes "Continue from the canonical OpenMA history and the current workspace."
    ∷ codes "Do not repeat completed side effects. Inspect current files before changing them."
    ∷ codes "Recovered conversation:"
    ∷ [])

abbrev pub current_label : Units
current_label = codes "Current request:"

abbrev pub closing_tag : Units
closing_tag = codes "</openma-recovery>"

or_default : Option ℕ → ℕ
or_default none = 32000
or_default (some n) = n

pub max_characters : Option ℕ → ℕ
unfolding or_default
max_characters option = max 1024 (or_default option)

pub payload_budget : RecoveryReason → Option ℕ → ℕ
payload_budget reason option =
    max_characters option
    - length (prefix_of reason)
    - length current_label
    - length closing_tag
    - 4

pub current_budget : List Units → ℕ → ℕ
current_budget [] payload = payload
current_budget (line ∷ lines) payload = max 256 (payload * 3 / 5)

-- The prompt around the lines of the history.
pub envelope : List Units → Units → RecoveryReason → Option ℕ → Units
unfolding payload_budget
envelope lines current reason option =
    let payload = payload_budget reason option in
    let bounded = truncate_current_request (trim current) (current_budget lines payload) in
    join (
      prefix_of reason
      ∷ take_recent_lines lines (payload - length bounded)
      ∷ current_label
      ∷ bounded
      ∷ closing_tag
      ∷ [])

pub build_managed_event_recovery_prompt :
    List ManagedRecoveryEvent → Units → RecoveryReason → Option ℕ → Units
unfolding envelope
build_managed_event_recovery_prompt events current reason option =
    let relevant = without_current_prompt (events_after_last_compaction events) current in
    envelope (recovery_lines (collect_tool_names relevant) relevant) current reason option
