-- ===== src/SessionOrchestrator/Inheritance.antt =====
-- src/session-orchestrator/index.ts: `sessionInheritance`, which a host calls before it opens an ACP
-- session. The thrown error is the `none` of the result.
use mathlib.Core.Option
use openma_common.Common.{String, true, Option, none, some, List, [], ◌≡◌, non_empty, if◌then◌else◌}

pub record SessionForkSource : Type 0 where
  pub acp_session_id : String
  pub session_id : Option String

pub record SessionInheritanceInput : Type 0 where
  pub cwd : String
  pub additional_directories : Option (List String)
  pub resume_acp_session_id : Option String
  pub fork_from : Option SessionForkSource

-- `parentSessionId`, `forkFromAcpSessionId`, or `resumeAcpSessionId`.
pub data InheritanceKind : Type 0 where
  fresh : InheritanceKind
  resume : String → InheritanceKind
  fork : Option String → String → InheritanceKind

pub record SessionInheritance : Type 0 where
  pub kind : InheritanceKind
  pub cwd : String
  pub additional_directories : List String

-- A truthy text, or nothing.
abbrev pub truthy : Option String → Option String
truthy none = none
truthy (some s) = if non_empty s then some s else none

-- input.forkFrom?.acpSessionId
abbrev pub fork_id : Option SessionForkSource → Option String
fork_id none = none
fork_id (some f) = truthy (some f.acp_session_id)

abbrev pub parent_id : Option SessionForkSource → Option String
parent_id none = none
parent_id (some f) = truthy f.session_id

abbrev pub or_empty : Option (List String) → List String
or_empty none = []
or_empty (some ds) = ds

kind_of : Option String → Option String → Option String → Option InheritanceKind
kind_of (some r) (some f) parent = none
kind_of none (some f) parent = some (fork parent f)
kind_of (some r) none parent = some (resume r)
kind_of none none parent = some fresh

with_base : SessionInheritanceInput → Option InheritanceKind → Option SessionInheritance
with_base input none = none
with_base input (some k) = some (record {
  kind = k;
  cwd = input.cwd;
  additional_directories = or_empty input.additional_directories;
})

pub session_inheritance : SessionInheritanceInput → Option SessionInheritance
unfolding kind_of with_base
session_inheritance input = with_base input (
    kind_of (truthy input.resume_acp_session_id) (fork_id input.fork_from)
      (parent_id input.fork_from))

-- The identifiers that a kind carries are truthy ones of the input, and no other request is dropped.
abbrev pub Carries : SessionInheritanceInput → InheritanceKind → Type 0
Carries input fresh = (truthy input.resume_acp_session_id ≡ none) × (fork_id input.fork_from ≡ none)
Carries input (resume r) =
    (input.resume_acp_session_id ≡ some r) × (non_empty r ≡ true) × (fork_id input.fork_from ≡ none)
Carries input (fork p f) =
    (truthy input.resume_acp_session_id ≡ none)
    × (Option.map (λ (x : SessionForkSource). x.acp_session_id) input.fork_from ≡ some f)
    × (non_empty f ≡ true)
    × (parent_id input.fork_from ≡ p)
