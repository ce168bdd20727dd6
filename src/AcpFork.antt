-- ===== src/AcpFork.antt =====
-- src/acp-fork/index.ts: what an agent's answer to `initialize` says about forking, and fork points.
-- The regular expression reads ASCII digits; a version number is the natural number it prints, where
-- the source has the double nearest to it.
pub mod Laws
mod Tests
use Prim.Native.Char.{code}
use openma_common.Common.{
  ℕ, suc, ◌+◌, ◌-◌, ◌*◌, String, Bool, true, false, ◌&&◌, ◌||◌, Option, none, some, List, [], ◌∷◌,
  ite, if◌then◌else◌, ltb, leb, ◌==◌, ◌>>=◌,
}
use openma_common.Common.Json.{Json, Number, Fields, bool, num, obj, natural, property}
use openma_common.Common.Maps.{get, set, has}

pub record AcpForkPoint : Type 0 where
  pub message_id : String
  pub message_text : String
  pub message_occurrence : ℕ

pub data AcpForkSupportLevel : Type 0 where
  unsupported session message : AcpForkSupportLevel

pub data AcpForkSupportReason : Type 0 where
  not_initialized session_fork_not_advertised message_fork_not_advertised : AcpForkSupportReason
  message_fork_capability_invalid message_fork_advertised message_fork_verified_adapter :
      AcpForkSupportReason

pub data ForkSource : Type 0 where
  capability verified_adapter : ForkSource

pub record AcpForkSupport : Type 0 where
  pub level : AcpForkSupportLevel
  pub reason : AcpForkSupportReason
  pub message : String
  pub message_fork : Option ForkSource

-- `fork` is none where `sessionCapabilities` or its `fork` is null or absent.
pub record AgentCapabilities : Type 0 where
  pub fork : Option Json
  pub meta : Option Json

pub record Implementation : Type 0 where
  pub name : String
  pub version : Option String  -- none where it is not a text

pub record AcpForkSupportSource : Type 0 where
  pub agent_capabilities : Option AgentCapabilities
  pub agent_info : Option Implementation

pub fork_support_message : AcpForkSupportReason → String
fork_support_message not_initialized = "This agent has not reported whether it can fork a session."
fork_support_message session_fork_not_advertised = "This agent does not support forking a session."
fork_support_message message_fork_not_advertised =
    "This agent can fork the whole session but not from a specific message."
fork_support_message message_fork_capability_invalid =
    "This agent advertised a message fork capability this client does not recognize."
fork_support_message message_fork_advertised = "This agent can fork from a specific message."
fork_support_message message_fork_verified_adapter = "This agent can fork from a specific message."

pub describe_fork_support :
    AcpForkSupportLevel → AcpForkSupportReason → Option ForkSource → AcpForkSupport
unfolding fork_support_message
describe_fork_support level reason source = record {
  level = level;
  reason = reason;
  message = fork_support_message reason;
  message_fork = source;
}

pub data InclusiveForkPresence : Type 0 where
  absent valid invalid : InclusiveForkPresence

-- A value that is a record, as its fields.
record_of : Option Json → Option Fields
record_of (some (obj fs)) = some fs
record_of _ = none

field_record : Option Fields → String → Option Fields
unfolding record_of
field_record none key = none
field_record (some fs) key = record_of (property key fs)

is_one : Option Json → Bool
is_one (some (num (natural n))) = n == 1
is_one _ = false

is_true : Option Json → Bool
is_true (some (bool true)) = true
is_true _ = false

-- The capability record, if the property is there.
presence_of : Option Json → InclusiveForkPresence
unfolding record_of is_one is_true
presence_of none = absent
presence_of fork = elim (record_of fork) [
  | none ↦ invalid
  | some fs ↦
      if is_one (property "version" fs) && is_true (property "inclusive" fs) then valid else invalid
]

pub inclusive_fork_capability_presence : AgentCapabilities → InclusiveForkPresence
unfolding record_of field_record presence_of
inclusive_fork_capability_presence capabilities =
    elim (field_record (field_record (record_of capabilities.meta) "jetbrains") "air") [
      | none ↦ absent
      | some air ↦ presence_of (property "fork" air)
    ]

abbrev pub Version : Type 0
Version = ℕ × ℕ × ℕ

is_digit : ℕ → Bool
is_digit c = leb 48 c && leb c 57

-- The digits of a number that has begun, and what follows them.
digits : ℕ → String → ℕ × String
unfolding is_digit
digits n String.[] = (n, String.[])
digits n (String.◌∷◌ c s) =
    let rest = digits (10 * n + (code c - 48)) s in
    if is_digit (code c) then rest else (n, String.◌∷◌ c s)

-- (0|[1-9]\d*)
pub numeral : String → Option (ℕ × String)
unfolding is_digit digits
numeral String.[] = none
numeral (String.◌∷◌ c s) =
    if code c == 48
    then some (0, s)
    else if is_digit (code c)
    then some (digits (code c - 48) s)
    else none

-- \.
pub dot : String → Option String
dot String.[] = none
dot (String.◌∷◌ c s) = if code c == 46 then some s else none

-- $
pub at_end : Version → String → Option Version
at_end v String.[] = some v
at_end v (String.◌∷◌ c s) = none

pub strict_xyz_version : String → Option Version
unfolding numeral dot at_end
strict_xyz_version text = do
  (major, after_major) ← numeral text
  minor_text ← dot after_major
  (minor, after_minor) ← numeral minor_text
  patch_text ← dot after_minor
  (patch, rest) ← numeral patch_text
  at_end (major, minor, patch) rest

-- compareVersion(left, right) >= 0
pub at_least : Version → Version → Bool
at_least (a, b, c) (x, y, z) = if a == x then (if b == y then leb z c else ltb y b) else ltb x a

pub record Adapter : Type 0 where
  pub names : List String
  pub minimum : Version

pub verified_message_fork_adapters : List Adapter
verified_message_fork_adapters =
    record { names = "codex-acp" ∷ "@agentclientprotocol/codex-acp" ∷ []; minimum = (1, 10, 0) }
    ∷ record {
      names = "claude-acp" ∷ "@agentclientprotocol/claude-agent-acp" ∷ [];
      minimum = (0, 75, 1);
    }
    ∷ []

pub some_adapter : String → Version → List Adapter → Bool
some_adapter name version [] = false
some_adapter name version (adapter ∷ adapters) =
    (has name adapter.names && at_least version adapter.minimum)
    || some_adapter name version adapters

pub is_verified_message_fork_adapter : Option Implementation → Bool
unfolding some_adapter verified_message_fork_adapters
is_verified_message_fork_adapter none = false
is_verified_message_fork_adapter (some info) = elim info.version [
  | none ↦ false
  | some text ↦ elim (strict_xyz_version text) [
    | none ↦ false
    | some version ↦ some_adapter info.name version verified_message_fork_adapters
  ]
]

-- forkSupport once the session can be forked.
message_support : InclusiveForkPresence → Bool → AcpForkSupport
unfolding describe_fork_support
message_support valid verified =
    describe_fork_support message message_fork_advertised (some capability)
message_support invalid verified =
    describe_fork_support session message_fork_capability_invalid none
message_support absent verified =
    if verified
    then describe_fork_support message message_fork_verified_adapter (some verified_adapter)
    else describe_fork_support session message_fork_not_advertised none

pub fork_support : Option AcpForkSupportSource → AcpForkSupport
unfolding describe_fork_support message_support
fork_support none = describe_fork_support unsupported not_initialized none
fork_support (some source) = elim source.agent_capabilities [
  | none ↦ describe_fork_support unsupported not_initialized none
  | some capabilities ↦ elim capabilities.fork [
    | none ↦ describe_fork_support unsupported session_fork_not_advertised none
    | some fork ↦
        message_support (inclusive_fork_capability_presence capabilities)
          (is_verified_message_fork_adapter source.agent_info)
  ]
]

-- seen.get(message.text) ?? 0
or_zero : Option ℕ → ℕ
or_zero none = 0
or_zero (some n) = n

-- The messages, as pairs of an id and a text.
points_from : List (String × ℕ) → List (String × String) → List AcpForkPoint
unfolding or_zero
points_from seen [] = []
points_from seen ((id, text) ∷ messages) =
    let occurrence = or_zero (get text seen) + 1 in
    record { message_id = id; message_text = text; message_occurrence = occurrence }
    ∷ points_from (set text occurrence seen) messages

pub acp_fork_points_from_messages : List (String × String) → List AcpForkPoint
unfolding points_from
acp_fork_points_from_messages messages = points_from [] messages
