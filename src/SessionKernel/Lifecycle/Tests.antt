-- ===== src/SessionKernel/Lifecycle/Tests.antt =====
-- The lifecycle's theorems at concrete histories.
use openma_common.Common.{none, List, [], ◌∷◌, ◌≡◌, refl, non_empty, String_discrete}
use openma_common.SessionKernel.Lifecycle.{
  SessionLifecycle, SessionLifecycleEvent, starting, disposed, start_requested, session_ready,
  prompt_requested, session_complete, session_error, session_disposed, initial_session_lifecycle,
  reduce_session_lifecycle, reduce_all,
}
use openma_common.SessionKernel.Lifecycle.Laws.{
  Inv, history-Inv, ◌⟶◌, reduce-⟶, disposed_reopened, settle_exact,
}

abbrev one_turn : List SessionLifecycleEvent
one_turn = start_requested ∷ session_ready "acp-1" ∷ prompt_requested "t1" ∷ []

history-Inv_example : Inv (reduce_all (initial_session_lifecycle "s1") one_turn)
history-Inv_example = history-Inv "s1" one_turn

abbrev closed_history : List SessionLifecycleEvent
closed_history = start_requested ∷ session_disposed ∷ []

abbrev closed : SessionLifecycle
closed = reduce_all (initial_session_lifecycle "s1") closed_history

reduce-⟶_example : disposed ⟶ disposed
unfolding reduce_all reduce_session_lifecycle initial_session_lifecycle
reduce-⟶_example = reduce-⟶ closed (prompt_requested "t2") (history-Inv "s1" closed_history)

disposed_reopened_example :
    let t = reduce_all closed (session_error none "late" ∷ start_requested ∷ []) in
    (t.status ≡ starting) × (t.last_error ≡ none)
unfolding reduce_all reduce_session_lifecycle initial_session_lifecycle
disposed_reopened_example =
    disposed_reopened closed none "late" (history-Inv "s1" closed_history) refl

abbrev busy : SessionLifecycle
busy = reduce_all (initial_session_lifecycle "s1") one_turn

settle_exact_example :
    reduce_session_lifecycle
      (reduce_session_lifecycle busy (prompt_requested "t2"))
      (session_complete "t1")
    ≡ reduce_session_lifecycle busy (prompt_requested "t2")
unfolding reduce_all reduce_session_lifecycle initial_session_lifecycle non_empty String_discrete
settle_exact_example = (settle_exact busy "t2" "t1" "late" (λ e. cc) refl refl).0
