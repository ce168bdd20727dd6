-- ===== src/AcpFork/Laws.antt =====
-- src/acp-fork/index.ts: the order of versions, the capability, and the occurrences of a text.
use openma_common.Common.{
  ℕ, suc, ◌+◌, ◌<◌, String, Bool, true, false, Option, none, some, List, [], ◌∷◌, ◌++◌, ◌≡◌, refl,
  ◌⊎◌, ite, if◌then◌else◌, arith, String_discrete,
}
use openma_common.Common.Maps.{get, set, get-set}
use openma_common.AcpFork.{
  AcpForkPoint, AcpForkSupportSource, AcpForkSupportLevel, unsupported, session, message,
  AgentCapabilities, Implementation, absent, valid, invalid, ForkSource, fork_support,
  message_support, describe_fork_support, inclusive_fork_capability_presence,
  is_verified_message_fork_adapter, Version, at_least, or_zero, points_from,
  acp_fork_points_from_messages, some_adapter, strict_xyz_version, Adapter,
  verified_message_fork_adapters,
}

-- How often a text stands in a list of messages.
abbrev pub count : String → List (String × String) → ℕ
count text [] = 0
count text ((id, t) ∷ messages) =
    let n = count text messages in ite (String_discrete t text) (suc n) n

-- The points that the description gives: the count in the prefix, the message included.
abbrev pub points_after : List (String × String) → List (String × String) → List AcpForkPoint
points_after before [] = []
points_after before ((id, text) ∷ messages) =
    record { message_id = id; message_text = text; message_occurrence = count text before + 1 }
    ∷ points_after (before ++ (id, text) ∷ []) messages

count-append :
    (t id text : String) (before : List (String × String))
    → count t (before ++ (id, text) ∷ [])
      ≡ ite (String_discrete text t) (suc (count t before)) (count t before)
count-append t id text [] = refl
count-append t id text ((j, u) ∷ before) = ground (arith, count-append t id text before)

-- The map holds the counts of the messages so far.
Counts : List (String × ℕ) → List (String × String) → Type 0
Counts seen before = (t : String) → or_zero (get t seen) ≡ count t before

Counts-set :
    (seen : List (String × ℕ)) (before : List (String × String)) (id text : String)
    → Counts seen before
    → Counts (set text (or_zero (get text seen) + 1) seen) (before ++ (id, text) ∷ [])
unfolding Counts or_zero
Counts-set seen before id text h t = ground (
  arith,
  get-set text t (or_zero (get text seen) + 1) seen,
  count-append t id text before,
  h t,
  h text,
)

points_from-after :
    (seen : List (String × ℕ)) (before messages : List (String × String))
    → Counts seen before
    → points_from seen messages ≡ points_after before messages
unfolding points_from Counts
points_from-after seen before [] h = refl
points_from-after seen before ((id, text) ∷ messages) h = cc (
  h text,
  points_from-after (set text (or_zero (get text seen) + 1) seen) (before ++ (id, text) ∷ [])
      messages (Counts-set seen before id text h),
)

[]-Counts : Counts [] []
unfolding Counts get or_zero
[]-Counts t = refl

-- The fork points of a list of messages are, in order, the messages with one more than the number
-- of earlier messages that have the same text.
pub points_exact :
    (messages : List (String × String))
    → acp_fork_points_from_messages messages ≡ points_after [] messages
unfolding acp_fork_points_from_messages
points_exact messages = points_from-after [] [] messages []-Counts

-- A version comes before another: at the first number that differs, it has the smaller one.
pub Before : Version → Version → Type 0
Before (a, b, c) (x, y, z) = (a < x) ⊎ (((a ≡ x) × (b < y)) ⊎ ((a ≡ x) × ((b ≡ y) × (c < z))))

-- The comparison of two versions says that the first is not at least the second exactly where it
-- comes before it in the lexicographic order, and otherwise they are equal or the second comes
-- before the first.
at_least_exact :
    (v w : Version)
    → ((at_least v w ≡ false) × Before v w) ⊎ ((at_least v w ≡ true) × ((v ≡ w) ⊎ Before w v))
unfolding at_least Before
at_least_exact (a, b, c) (x, y, z) = ground arith

pub level_of : Option AgentCapabilities → Option Implementation → AcpForkSupportLevel
level_of none info = unsupported
level_of (some c) info = elim c.fork [
  | none ↦ unsupported
  | some fork ↦ elim (inclusive_fork_capability_presence c) [
    | valid ↦ message
    | invalid ↦ session
    | absent ↦ if is_verified_message_fork_adapter info then message else session
  ]
]

pub is_message : AcpForkSupportLevel → Bool
is_message message = true
is_message _ = false

pub is_some : Option ForkSource → Bool
is_some none = false
is_some (some s) = true

-- The level of support is none where the agent reported no capabilities or no session fork; else it
-- is message where the capability is valid, or absent with a verified adapter, and session
-- otherwise; and a fork from a message is described exactly at the level message.
support_exact :
    (source : AcpForkSupportSource)
    → ((fork_support (some source)).level ≡ level_of source.agent_capabilities source.agent_info)
      × (is_some (fork_support (some source)).message_fork
          ≡ is_message (fork_support (some source)).level)
unfolding fork_support message_support describe_fork_support level_of is_message is_some
support_exact source = ground arith

at_least_trans : (u v w : Version) → at_least v u ≡ true → at_least w v ≡ true → at_least w u ≡ true
unfolding at_least
at_least_trans (a, b, c) (x, y, z) (p, q, r) h k = ground arith

some_adapter-newer :
    (name : String) (v w : Version) (adapters : List Adapter)
    → at_least w v ≡ true
    → some_adapter name v adapters ≡ true
    → some_adapter name w adapters ≡ true
unfolding some_adapter
some_adapter-newer name v w [] newer h = cc
some_adapter-newer name v w (adapter ∷ adapters) newer h =
    ground (arith, at_least_trans adapter.minimum v w, some_adapter-newer name v w adapters newer)

-- Where an adapter is verified at a version, the same adapter is verified at each version that is
-- at least that one.
newer_verified :
    (name old_text new_text : String) (v w : Version)
    → strict_xyz_version old_text ≡ some v
    → strict_xyz_version new_text ≡ some w
    → at_least w v ≡ true
    → is_verified_message_fork_adapter (some (record { name = name; version = some old_text }))
      ≡ true
    → is_verified_message_fork_adapter (some (record { name = name; version = some new_text }))
      ≡ true
unfolding is_verified_message_fork_adapter
newer_verified name old_text new_text v w h k newer verified =
    rw (k, is_verified_message_fork_adapter)
      (some_adapter-newer name v w verified_message_fork_adapters newer
        (rw (h, is_verified_message_fork_adapter) at verified))
