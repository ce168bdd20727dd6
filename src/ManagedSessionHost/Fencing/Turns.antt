-- ===== src/ManagedSessionHost/Fencing/Turns.antt =====
-- src/local-runtime/session-host.ts: prompts write fenced checkpoints.
use openma_common.Common.{
  Bool, if◌then◌else◌, ◌≡◌, true, false, ℕ, String, Option, none, some, refl, arith, inl, non_empty,
}
use openma_common.Common.Maps.{get, set, delete, has, add}
use openma_common.Common.Json.{Json}
use openma_common.ManagedSessionHost.{
  Step, Checkpoint, PromptInput, done, losing, uncommitted, World, SessionHost, put, write_object,
}
use openma_common.ManagedSessionHost.Sessions.{lease_lost, live_session, is_some}
use openma_common.ManagedSessionHost.Prompts.{
  delete_if_same, lease, admit, prompt_found, prompt, lose, remember_written, run_turn,
  after_retained, went_through, after_lease, turn_ended, fail_turn, commit, after_stream,
  stream_event, next_of_stream, after_event, complete_turn, after_commit, after_uncommitted,
}
use openma_common.ManagedSessionHost.Fencing.{
  FineIfAny, Inv, Fenced, fenced, put-Inv, write_object-Inv, same-Inv, either-Fenced,
  and_then-Fenced,
}
use openma_common.ManagedSessionHost.Fencing.Sessions.{live-Fenced}

module _ (o : String) (P : String → ℕ → Type 0) (D : Type 0) (w : World) (k : ℕ) where
  lease-Fenced :
      (input : PromptInput) (r : ℕ) (c : Option Checkpoint) (h : SessionHost)
      → FineIfAny o P c
      → Inv o P D h
      → Fenced o P D (lease w k input r c h)
  unfolding lease
  lease-Fenced input r none h p v = fenced o P D (put-Inv o P D k _ h tt v) tt
  lease-Fenced input r (some c) h p v =
      fenced o P D (put-Inv o P D k _ h p v) ((p.0, inl (refl, p.1)), tt)

  admit-Fenced :
      (input : PromptInput) (r : ℕ) (in_flight : Bool) (h : SessionHost)
      → Inv o P D h
      → Fenced o P D (admit w k input r in_flight h)
  unfolding admit
  admit-Fenced input r in_flight h v =
      either-Fenced o P D in_flight (fenced o P D (put-Inv o P D k done h tt v) tt) (
        either-Fenced o P D h.draining (fenced o P D (put-Inv o P D k done h tt v) (tt, tt))
          (lease-Fenced input r (h.objects r).checkpoint h (v.objects_fine r) v))

  prompt_found-Fenced :
      (input : PromptInput) (found : Option ℕ) (h : SessionHost)
      → Inv o P D h
      → Fenced o P D (prompt_found w k input found h)
  unfolding prompt_found
  prompt_found-Fenced input none h v = fenced o P D (put-Inv o P D k done h tt v) (tt, tt)
  prompt_found-Fenced input (some r) h v =
      either-Fenced o P D (has input.turn_id (h.objects r).completed_turns)
        (fenced o P D (put-Inv o P D k done h tt v) (tt, tt))
        (admit-Fenced input r (is_some (get input.turn_id (h.objects r).turns)) h v)

  pub prompt-Fenced :
      (input : PromptInput) (h : SessionHost) → Inv o P D h → Fenced o P D (prompt w k input h)
  unfolding prompt
  prompt-Fenced input h v =
      let found = live_session w input.session_id h in
      let p = live-Fenced o P D w input.session_id h v in
      and_then-Fenced o P D found.1 (prompt_found w k input found.0) p
        (prompt_found-Fenced input found.0 found.1.0 p.host_inv)

  deleted-Inv :
      (session_id : String) (r : ℕ) (found : Option ℕ) (h : SessionHost)
      → Inv o P D h
      → Inv o P D (delete_if_same session_id r found h)
  unfolding delete_if_same
  deleted-Inv session_id r none h v = v
  deleted-Inv session_id r (some current) h v =
      same-Inv o P D h _ (ground arith) (ground arith) (ground arith) v

  lose-Fenced :
      (session_id : String) (r : ℕ) (h : SessionHost)
      → Inv o P D h
      → Fenced o P D (lose session_id r h)
  unfolding lose
  lose-Fenced session_id r h v =
      fenced o P D (deleted-Inv session_id r (get session_id h.sessions) h v) (tt, tt)

  written-Inv :
      (r : ℕ) (c : Option Checkpoint) (h : SessionHost)
      → FineIfAny o P c
      → Inv o P D h
      → Inv o P D (remember_written r c h)
  unfolding remember_written
  written-Inv r none h p v = v
  written-Inv r (some c) h p v =
      write_object-Inv o P D r (record (h.objects r) { checkpoint = some c }) h p v

  no_drain : (b : Bool) → b ≡ false → b ≡ true → ⊥
  no_drain b e f = cc

  run_turn-Fenced :
      (input : PromptInput) (r : ℕ) (h : SessionHost)
      → h.draining ≡ false
      → Inv o P D h
      → Fenced o P D (run_turn k input r h)
  unfolding run_turn
  run_turn-Fenced input r h e v =
      let s = record (h.objects r) { turns = set input.turn_id k (h.objects r).turns } in
      fenced o P D
        (put-Inv o P D k _ (write_object r s h) tt
          (write_object-Inv o P D r s h (v.objects_fine r) v))
        ((λ d. no_drain h.draining e (v.closed d)), tt)

  unless-Fenced :
      (b : Bool) {s t : Step}
      → Fenced o P D s
      → (b ≡ false → Fenced o P D t)
      → Fenced o P D (if b then s else t)
  unless-Fenced true p q = p
  unless-Fenced false p q = q refl

  after_retained-Fenced :
      (input : PromptInput) (r : ℕ) (h : SessionHost)
      → Inv o P D h
      → Fenced o P D (after_retained k input r h)
  unfolding after_retained
  after_retained-Fenced input r h v =
      unless-Fenced h.draining (fenced o P D (put-Inv o P D k done h tt v) (tt, tt))
        (λ e. run_turn-Fenced input r h e v)

  pub after_lease-Fenced :
      (input : PromptInput) (r : ℕ) (c : Option Checkpoint) (h : SessionHost)
      → FineIfAny o P c
      → Inv o P D h
      → Fenced o P D (after_lease w k input r c h)
  unfolding after_lease
  after_lease-Fenced input r c h p v =
      let kept_host = remember_written r c h in
      let kept_inv = written-Inv r c h p v in
      either-Fenced o P D (went_through w c) (after_retained-Fenced input r kept_host kept_inv) (
        lose-Fenced input.session_id r (put k (losing input.session_id) h)
          (put-Inv o P D k (losing input.session_id) h tt v))

  turn_ended-Inv :
      (input : PromptInput) (r : ℕ) (h : SessionHost)
      → Inv o P D h
      → Inv o P D (turn_ended k input r h)
  unfolding turn_ended
  turn_ended-Inv input r h v =
      let s = record (h.objects r) { turns = delete input.turn_id (h.objects r).turns } in
      put-Inv o P D k done (write_object r s h) tt
        (write_object-Inv o P D r s h (v.objects_fine r) v)

  commit-Fenced :
      (input : PromptInput) (r : ℕ) (c : Option Checkpoint) (h : SessionHost)
      → FineIfAny o P c
      → Inv o P D h
      → Fenced o P D (commit w k input r c h)
  unfolding commit
  commit-Fenced input r none h p v = fenced o P D (put-Inv o P D k _ h tt v) tt
  commit-Fenced input r (some c) h p v =
      fenced o P D (put-Inv o P D k _ h p v) ((p.0, inl (refl, p.1)), tt)

  after_stream-Fenced :
      (input : PromptInput) (r : ℕ) (error : Option String) (h : SessionHost)
      → Inv o P D h
      → Fenced o P D (after_stream w k input r error h)
  unfolding after_stream fail_turn
  after_stream-Fenced input r none h v =
      commit-Fenced input r (h.objects r).checkpoint h (v.objects_fine r) v
  after_stream-Fenced input r (some error) h v =
      either-Fenced o P D (non_empty error) (fenced o P D (turn_ended-Inv input r h v) (tt, tt))
        (commit-Fenced input r (h.objects r).checkpoint h (v.objects_fine r) v)

  next_of_stream-Fenced :
      (input : PromptInput) (r : ℕ) (error : Option String) (event : Option Json) (h : SessionHost)
      → Inv o P D h
      → Fenced o P D (next_of_stream w k input r error event h)
  unfolding next_of_stream stream_event
  next_of_stream-Fenced input r error none h v = after_stream-Fenced input r error h v
  next_of_stream-Fenced input r error (some event) h v =
      either-Fenced o P D (h.aborted k) (after_stream-Fenced input r error h v) (
        either-Fenced o P D _ (fenced o P D (v) (tt, tt)) (
          either-Fenced o P D _ (fenced o P D (put-Inv o P D k _ h tt v) tt)
            (fenced o P D (v) (tt, tt))))

  pub after_event-Fenced :
      (input : PromptInput) (r : ℕ) (error failed : Option String) (h : SessionHost)
      → Inv o P D h
      → Fenced o P D (after_event w k input r error failed h)
  unfolding after_event fail_turn
  after_event-Fenced input r error none h v = next_of_stream-Fenced input r error w.next_event h v
  after_event-Fenced input r error (some message) h v =
      fenced o P D (turn_ended-Inv input r h v) (tt, tt)

  pub after_commit-Fenced :
      (input : PromptInput) (r : ℕ) (c : Option Checkpoint) (h : SessionHost)
      → FineIfAny o P c
      → Inv o P D h
      → Fenced o P D (after_commit w k input r c h)
  unfolding after_commit complete_turn
  after_commit-Fenced input r c h p v =
      let kept_host = remember_written r c h in
      let kept_inv = written-Inv r c h p v in
      let s = record (kept_host.objects r) {
        completed_turns = add input.turn_id (kept_host.objects r).completed_turns;
      } in
      either-Fenced o P D (went_through w c)
        (fenced o P D
          (turn_ended-Inv input r (write_object r s kept_host)
            (write_object-Inv o P D r s kept_host (kept_inv.objects_fine r) kept_inv))
          (tt, tt))
        (lose-Fenced input.session_id r (put k (uncommitted input r) h)
          (put-Inv o P D k (uncommitted input r) h tt v))

  pub after_uncommitted-Fenced :
      (input : PromptInput) (r : ℕ) (h : SessionHost)
      → Inv o P D h
      → Fenced o P D (after_uncommitted k input r h)
  unfolding after_uncommitted lease_lost
  after_uncommitted-Fenced input r h v = fenced o P D (turn_ended-Inv input r h v) (tt, tt)
