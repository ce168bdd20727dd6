-- ===== src/SessionOrchestrator.antt =====
-- src/session-orchestrator/index.ts: which prompt of a session may start next. A method returns the
-- new state and its result; the clock's value is an argument of `enqueue`.
mod Calls
mod Invariant
mod Turns
mod Queue
mod Reorder
mod Ledger
pub mod Inheritance
mod Tests
use openma_common.Common.{
  ℕ, suc, ◌≤◌, String, Bool, true, false, not, ◌&&◌, ◌||◌, Option, none, some, List, [], ◌∷◌, ite,
  if◌then◌else◌, leb, String_discrete, Turn_discrete,
}
use openma_common.Common.Sorting.{sort}
use openma_common.Common.Maps.{get, set, has, add, remove}

pub data SessionRestartMode : Type 0 where
  now after_turn : SessionRestartMode

pub data SessionRestartDisposition : Type 0 where
  ready pending : SessionRestartDisposition

pub record QueuedSessionTurn {ℓ} (T : Type ℓ) : Type ℓ where
  pub turn_id : String
  pub value : T
  pub created_at : ℕ

pub record SessionOrchestrator {ℓ} (T : Type ℓ) : Type ℓ where
  pub session_id : String
  pub active_turn_id : Option String
  pub queued : List (QueuedSessionTurn T)
  pub steering_turn_ids : List String
  pub restart_pending : Bool
  pub disposed : Bool

abbrev pub is_some {ℓ} : {A : Type ℓ} → Option A → Bool
is_some none = false
is_some (some a) = true

abbrev pub is_cons {ℓ} : {A : Type ℓ} → List A → Bool
is_cons [] = false
is_cons (x ∷ xs) = true

-- The order map of `reorderQueue`: the first index of each id.
pub order_from : ℕ → List String → List (String × ℕ) → List (String × ℕ)
order_from index [] order = order
order_from index (t ∷ ts) order =
    order_from (suc index) ts (if is_some (get t order) then order else set t index order)

-- The comparator, as the test that `left` may stay in front of `right`.
pub precedes : Option ℕ → Option ℕ → ℕ → ℕ → Bool
precedes none none left right = leb left right
precedes none (some j) left right = false
precedes (some i) none left right = true
precedes (some i) (some j) left right = leb i j

is_after_turn : SessionRestartMode → Bool
is_after_turn now = false
is_after_turn after_turn = true

module _ {ℓ} {T : Type ℓ} where
  pub new : String → SessionOrchestrator T
  new session_id = record {
    session_id = session_id;
    active_turn_id = none;
    queued = [];
    steering_turn_ids = [];
    restart_pending = false;
    disposed = false;
  }

  pub is_busy : SessionOrchestrator T → Bool
  is_busy s = is_some s.active_turn_id || is_cons s.queued || is_cons s.steering_turn_ids

  pub try_start_turn : SessionOrchestrator T → String → SessionOrchestrator T × Bool
  try_start_turn s turn_id =
      if s.disposed
        || s.restart_pending
        || is_some s.active_turn_id
        || is_cons s.queued
        || is_cons s.steering_turn_ids
      then (s, false)
      else (record s { active_turn_id = some turn_id }, true)

  pub finish_turn : SessionOrchestrator T → String → SessionOrchestrator T × Bool
  finish_turn s turn_id =
      ite (Turn_discrete s.active_turn_id (some turn_id)) (record s { active_turn_id = none }, true)
        (s, false)

  -- #queued.find((entry) => entry.turnId === turnId)
  pub find_queued : String → List (QueuedSessionTurn T) → Option (QueuedSessionTurn T)
  find_queued t [] = none
  find_queued t (e ∷ q) = ite (String_discrete e.turn_id t) (some e) (find_queued t q)

  -- An assignment to the value of the entry that `find` gives.
  pub change_queued : String → (T → T) → List (QueuedSessionTurn T) → List (QueuedSessionTurn T)
  change_queued t f [] = []
  change_queued t f (e ∷ q) =
      ite (String_discrete e.turn_id t) (record e { value = f e.value } ∷ q)
        (e ∷ change_queued t f q)

  -- #queued.push(entry)
  pub push : QueuedSessionTurn T → List (QueuedSessionTurn T) → List (QueuedSessionTurn T)
  push e [] = e ∷ []
  push e (x ∷ q) = x ∷ push e q

  -- The state with the given queue, and the entry that is handed back.
  enqueue_found :
      SessionOrchestrator T
      → String
      → T
      → ℕ
      → Option (QueuedSessionTurn T)
      → SessionOrchestrator T × QueuedSessionTurn T
  unfolding change_queued push
  enqueue_found s turn_id v clock (some e) =
      (record s { queued = change_queued turn_id (λ _. v) s.queued }, record e { value = v })
  enqueue_found s turn_id v clock none =
      let entry : QueuedSessionTurn T = record {
        turn_id = turn_id;
        value = v;
        created_at = clock;
      } in
      (record s { queued = push entry s.queued }, entry)

  pub enqueue : SessionOrchestrator T → String → T → ℕ → SessionOrchestrator T × QueuedSessionTurn T
  unfolding find_queued enqueue_found
  enqueue s turn_id v clock = enqueue_found s turn_id v clock (find_queued turn_id s.queued)

  -- The queue's shift, and the claim of the entry that it gives.
  claim :
      SessionOrchestrator T
      → List (QueuedSessionTurn T)
      → SessionOrchestrator T × Option (QueuedSessionTurn T)
  claim s [] = (s, none)
  claim s (next ∷ q) = (record s { active_turn_id = some next.turn_id; queued = q }, some next)

  pub claim_next : SessionOrchestrator T → SessionOrchestrator T × Option (QueuedSessionTurn T)
  unfolding claim
  claim_next s =
      if s.disposed || s.restart_pending || is_some s.active_turn_id || is_cons s.steering_turn_ids
      then (s, none)
      else claim s s.queued

  pub clear_queue : SessionOrchestrator T → SessionOrchestrator T × List (QueuedSessionTurn T)
  clear_queue s = (record s { queued = [] }, s.queued)

  -- splice(index, 1) at the first entry with the id.
  pub drop_queued : String → List (QueuedSessionTurn T) → List (QueuedSessionTurn T)
  drop_queued t [] = []
  drop_queued t (e ∷ q) = ite (String_discrete e.turn_id t) q (e ∷ drop_queued t q)

  pub remove_queued :
      SessionOrchestrator T → String → SessionOrchestrator T × Option (QueuedSessionTurn T)
  unfolding find_queued drop_queued
  remove_queued s turn_id =
      (record s { queued = drop_queued turn_id s.queued }, find_queued turn_id s.queued)

  pub update_queued : SessionOrchestrator T → String → (T → T) → SessionOrchestrator T × Bool
  unfolding find_queued change_queued
  update_queued s turn_id update =
      if is_some (find_queued turn_id s.queued)
      then (record s { queued = change_queued turn_id update s.queued }, true)
      else (s, false)

  pub in_order : List (String × ℕ) → QueuedSessionTurn T → QueuedSessionTurn T → Bool
  unfolding precedes
  in_order order l r =
      precedes (get l.turn_id order) (get r.turn_id order) l.created_at r.created_at

  pub reorder_queue : SessionOrchestrator T → List String → SessionOrchestrator T
  unfolding order_from in_order sort get set
  reorder_queue s turn_ids = record s {
    queued = sort (in_order (order_from 0 turn_ids [])) s.queued;
  }

  pub begin_steering : SessionOrchestrator T → String → SessionOrchestrator T × Bool
  unfolding has add
  begin_steering s turn_id =
      if s.disposed || not (is_some s.active_turn_id) || has turn_id s.steering_turn_ids
      then (s, false)
      else (record s { steering_turn_ids = add turn_id s.steering_turn_ids }, true)

  pub finish_steering : SessionOrchestrator T → String → SessionOrchestrator T × Bool
  unfolding has remove
  finish_steering s turn_id = (
    record s { steering_turn_ids = remove turn_id s.steering_turn_ids },
    has turn_id s.steering_turn_ids,
  )

  pub request_restart :
      SessionOrchestrator T → SessionRestartMode → SessionOrchestrator T × SessionRestartDisposition
  unfolding is_after_turn
  request_restart s mode =
      if is_after_turn mode && (is_some s.active_turn_id || is_cons s.steering_turn_ids)
      then (record s { restart_pending = true }, pending)
      else (s, ready)

  pub clear_restart : SessionOrchestrator T → SessionOrchestrator T
  clear_restart s = record s { restart_pending = false }

  pub dispose : SessionOrchestrator T → SessionOrchestrator T × List (QueuedSessionTurn T)
  unfolding clear_queue
  dispose s =
      if s.disposed
      then (s, [])
      else clear_queue (record s {
        disposed = true;
        active_turn_id = none;
        steering_turn_ids = [];
        restart_pending = false;
      })
