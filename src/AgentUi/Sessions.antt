-- ===== src/AgentUi/Sessions.antt =====
-- src/agent-ui/index.ts: the stores of the sessions of a host, and the replay of its persisted rows. The
-- decoder of a row is the host's, and so a parameter.
pub mod Laws
use openma_common.Common.{
  ℕ, suc, String, Bool, Option, none, some, List, [], ◌∷◌, ◌++◌, map, leb, if◌then◌else◌, false,
  true,
}
use openma_common.Common.Maps.{get, set, delete}
use openma_common.Common.Sorting.{sort}
use openma_common.AgentUi.{AgentUiState, Event}
use openma_common.AgentUi.Replay.{indexed}
use openma_common.AgentUi.Store.{AgentUiStore, StoreCall, create_agent_ui_store, dispatch_all}

abbrev pub AgentUiSessionRegistry : Type 0
AgentUiSessionRegistry = List (String × AgentUiStore)

-- The store of a session, made at the first request, and the registry that holds it.
pub get_store : String → AgentUiSessionRegistry → AgentUiStore × AgentUiSessionRegistry
get_store session_id stores = elim (get session_id stores) [
  | some existing ↦ (existing, stores)
  | none ↦
      (create_agent_ui_store session_id, set session_id (create_agent_ui_store session_id) stores)
]

pub has_store : String → AgentUiSessionRegistry → Bool
has_store session_id stores = elim (get session_id stores) [ none ↦ false | some existing ↦ true ]

pub remove_store : String → AgentUiSessionRegistry → AgentUiSessionRegistry × Bool
unfolding has_store
remove_store session_id stores = (delete session_id stores, has_store session_id stores)

pub clear_stores : AgentUiSessionRegistry → AgentUiSessionRegistry
clear_stores stores = []

pub record PersistedAgentUiEvent (A : Type 0) : Type 0 where
  pub seq : ℕ
  pub row : A

-- left.row.seq - right.row.seq || left.index - right.index
row_le : {A : Type 0} → PersistedAgentUiEvent A × ℕ → PersistedAgentUiEvent A × ℕ → Bool
row_le l r =
    if leb r.0.seq l.0.seq then (if leb l.0.seq r.0.seq then leb l.1 r.1 else false) else true

-- The events of the rows, in the order of the rows.
decoded :
    {A : Type 0}
    → (PersistedAgentUiEvent A → List Event)
    → List (PersistedAgentUiEvent A)
    → List Event
decoded decode [] = []
decoded decode (row ∷ rows) = decode row ++ decoded decode rows

ordered_rows : {A : Type 0} → List (PersistedAgentUiEvent A) → List (PersistedAgentUiEvent A)
unfolding row_le indexed sort
ordered_rows rows = map (λ p. p.0) (sort row_le (indexed 0 rows))

pub replay_agent_ui_event_log :
    {A : Type 0}
    → (String → Option ℕ)
    → (PersistedAgentUiEvent A → List Event)
    → List (PersistedAgentUiEvent A)
    → AgentUiStore
    → AgentUiStore × List StoreCall
unfolding dispatch_all decoded ordered_rows
replay_agent_ui_event_log parse_date decode rows store =
    dispatch_all parse_date (decoded decode (ordered_rows rows)) store
