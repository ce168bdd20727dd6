-- ===== src/ManagedSessionHost/Fencing/Closing.antt =====
-- src/local-runtime/session-host.ts: disposals, cancels and drains write fenced checkpoints.
use openma_common.Common.{
  ℕ, String, true, Option, none, some, List, [], ◌∷◌, refl, All-append, All, length,
}
use openma_common.Common.Maps.{get, delete}
use openma_common.ManagedSessionHost.{
  Checkpoint, DrainOptions, DrainReport, done, disposing, deleting, disposing_all, polling,
  aborting, cancelling, World, delete_checkpoint, SessionHost, update, put, write_object,
}
use openma_common.ManagedSessionHost.Sessions.{
  remember_for_recovery, drop_session, prune_dead_sessions, active_turn_count,
}
use openma_common.ManagedSessionHost.Starts.{kept}
use openma_common.ManagedSessionHost.Disposal.{
  fence_of, checkpoint_of, abort_session, forget, dispose_found, abort_all, disposals, wait_for_all,
  dispose_all, one_of_all_ended, cancel_turn, cancel_found, after_grace,
}
use openma_common.ManagedSessionHost.Drains.{abort_each, finish_drain, poll, drain}
use openma_common.ManagedSessionHost.Steps.{after_save}
use openma_common.ManagedSessionHost.Fencing.{
  Fine, FineIfAny, Written, Inv, Fenced, fenced, put-Inv, write_object-Inv, same-Inv, either-Fenced,
  and_then-Fenced,
}
use openma_common.ManagedSessionHost.Fencing.Sessions.{remember-Fenced, drop-Fenced, prune-Fenced}

module _ (o : String) (P : String → ℕ → Type 0) (D : Type 0) (w : World) (k : ℕ) where
  fence_owner :
      (session_id : String) (c : Option Checkpoint)
      → FineIfAny o P c
      → Written o P D (delete_checkpoint session_id (fence_of c))
  unfolding fence_of
  fence_owner session_id none p = tt
  fence_owner session_id (some c) p = p.0

  checkpoint_of-Fine :
      (r : Option ℕ) (h : SessionHost) → Inv o P D h → FineIfAny o P (checkpoint_of r h)
  unfolding checkpoint_of
  checkpoint_of-Fine none h v = tt
  checkpoint_of-Fine (some r) h v = v.objects_fine r

  pub forget-Fenced :
      (store : Option String) (session_id : String) (r : Option ℕ) (h : SessionHost)
      → Inv o P D h
      → Fenced o P D (forget store k session_id r h)
  unfolding forget
  forget-Fenced none session_id r h v =
      let rest = record h { resume_session_ids = delete session_id h.resume_session_ids } in
      (fenced o P D (put-Inv o P D k done rest tt (same-Inv o P D h rest refl refl refl v))
        (tt, tt))
  forget-Fenced (some owner) session_id r h v =
      let rest = record h { resume_session_ids = delete session_id h.resume_session_ids } in
      fenced o P D
        (put-Inv o P D k (deleting session_id) rest tt (same-Inv o P D h rest refl refl refl v))
        (fence_owner session_id (checkpoint_of r h) (checkpoint_of-Fine r h v), tt)

  pub dispose_found-Fenced :
      (store : Option String) (session_id : String) (found : Option ℕ) (h : SessionHost)
      → Inv o P D h
      → Fenced o P D (dispose_found store k session_id found h)
  unfolding dispose_found abort_session
  dispose_found-Fenced store session_id none h v = forget-Fenced store session_id none h v
  dispose_found-Fenced store session_id (some r) h v =
      fenced o P D
        (put-Inv o P D k (disposing session_id r) (abort_session r h) tt
          (same-Inv o P D h _ refl refl refl v))
        (tt, tt)

  abort_all-Inv :
      (entries : List (String × ℕ)) (h : SessionHost)
      → Inv o P D h
      → Inv o P D (abort_all entries h)
  unfolding abort_all abort_session
  abort_all-Inv [] h v = v
  abort_all-Inv ((session_id, r) ∷ entries) h v =
      abort_all-Inv entries (abort_session r h) (same-Inv o P D h _ refl refl refl v)

  disposals-Written : (entries : List (String × ℕ)) → All (Written o P D) (disposals entries)
  unfolding disposals
  disposals-Written [] = tt
  disposals-Written ((session_id, r) ∷ entries) = (tt, disposals-Written entries)

  wait-Fenced :
      (entries : List (String × ℕ)) (report : Option DrainReport) (h : SessionHost)
      → Inv o P D h
      → Fenced o P D (wait_for_all k entries report h)
  unfolding wait_for_all
  wait-Fenced [] none h v = fenced o P D (put-Inv o P D k done h tt v) tt
  wait-Fenced [] (some report) h v = fenced o P D (put-Inv o P D k done h tt v) (tt, tt)
  wait-Fenced (entry ∷ entries) report h v =
      fenced o P D (put-Inv o P D k (disposing_all (entry ∷ entries) report) h tt v) tt

  pub dispose_all-Fenced :
      (report : Option DrainReport) (h : SessionHost)
      → Inv o P D h
      → Fenced o P D (dispose_all k report h)
  unfolding dispose_all
  dispose_all-Fenced report h v =
      let waiting = wait_for_all k h.sessions report (abort_all h.sessions h) in
      let p =
        wait-Fenced h.sessions report (abort_all h.sessions h) (abort_all-Inv h.sessions h v) in
      fenced o P D p.host_inv (
        All-append (Written o P D) (disposals h.sessions) waiting.1 (disposals-Written h.sessions)
          p.all_written)

  pub one_of_all-Fenced :
      (entries : List (String × ℕ)) (report : Option DrainReport) (found : Option ℕ)
      (h : SessionHost)
      → Inv o P D h
      → Fenced o P D (one_of_all_ended w k entries report found h)
  unfolding one_of_all_ended
  one_of_all-Fenced entries report none h v = fenced o P D (v) tt
  one_of_all-Fenced entries report (some r) h v =
      let rest = record h { sessions = delete w.disposed_id h.sessions } in
      wait-Fenced (delete w.disposed_id entries) report rest
        (same-Inv o P D h rest refl refl refl v)

  cancel_turn-Fenced :
      (grace : Option ℕ) (session_id turn_id : String) (r : ℕ) (found : Option ℕ) (h : SessionHost)
      → Inv o P D h
      → Fenced o P D (cancel_turn grace k session_id turn_id r found h)
  unfolding cancel_turn
  cancel_turn-Fenced none session_id turn_id r none h v =
      fenced o P D (put-Inv o P D k done h tt v) tt
  cancel_turn-Fenced (some ms) session_id turn_id r none h v =
      fenced o P D (put-Inv o P D k done h tt v) tt
  cancel_turn-Fenced none session_id turn_id r (some c) h v =
      let rest = record h { aborted = update c true h.aborted } in
      (fenced o P D (put-Inv o P D k done rest tt (same-Inv o P D h rest refl refl refl v)) tt)
  cancel_turn-Fenced (some ms) session_id turn_id r (some c) h v =
      let rest = record h { aborted = update c true h.aborted } in
      (fenced o P D
        (put-Inv o P D k (cancelling session_id turn_id r) rest tt
          (same-Inv o P D h rest refl refl refl v))
        (tt, tt))

  pub cancel_found-Fenced :
      (grace : Option ℕ) (session_id turn_id : String) (found : Option ℕ) (h : SessionHost)
      → Inv o P D h
      → Fenced o P D (cancel_found grace k session_id turn_id found h)
  unfolding cancel_found
  cancel_found-Fenced grace session_id turn_id none h v =
      fenced o P D (put-Inv o P D k done h tt v) tt
  cancel_found-Fenced grace session_id turn_id (some r) h v =
      cancel_turn-Fenced grace session_id turn_id r (get turn_id (h.objects r).turns) h v

  pub after_grace-Fenced :
      (session_id turn_id : String) (r : ℕ) (h : SessionHost)
      → Inv o P D h
      → Fenced o P D (after_grace w k session_id turn_id r h)
  unfolding after_grace
  after_grace-Fenced session_id turn_id r h v =
      let rest = put k done h in
      let rest_inv = put-Inv o P D k done h tt v in
      let left = remember_for_recovery w session_id r rest in
      let p = remember-Fenced o P D w session_id r rest rest_inv in
      let q = drop-Fenced o P D session_id r left.0 p.host_inv in
      either-Fenced o P D _
        (either-Fenced o P D _ (and_then-Fenced o P D left (drop_session session_id r) p q)
          (fenced o P D (rest_inv) tt))
        (fenced o P D (rest_inv) tt)

  finish_drain-Fenced :
      (options : DrainOptions) (report : DrainReport) (h : SessionHost)
      → Inv o P D h
      → Fenced o P D (finish_drain k options report h)
  unfolding finish_drain
  finish_drain-Fenced options report h v =
      let counts = abort_each h.objects h.sessions (h.aborted, 0) in
      let final = record report { aborted_turns = counts.1 } in
      let rest = record h { aborted = counts.0 } in
      let rest_inv = same-Inv o P D h rest refl refl refl v in
      either-Fenced o P D _
        (either-Fenced o P D _
          (fenced o P D (put-Inv o P D k (aborting final) rest tt rest_inv) (tt, tt))
          (dispose_all-Fenced (some final) rest rest_inv))
        (dispose_all-Fenced (some final) rest rest_inv)

  pub poll-Fenced :
      (options : DrainOptions) (started_at : ℕ) (report : DrainReport) (h : SessionHost)
      → Inv o P D h
      → Fenced o P D (poll w k options started_at report h)
  unfolding poll
  poll-Fenced options started_at report h v =
      either-Fenced o P D _ (finish_drain-Fenced options report h v) (
        either-Fenced o P D _ (finish_drain-Fenced options report h v) (
          fenced o P D (put-Inv o P D k (polling options started_at report) h tt v) (tt, (tt, tt))))

  -- A drain closes the host before anything else.
  pub drain-Fenced :
      (before : Type 0) (options : DrainOptions) (h : SessionHost)
      → Inv o P before h
      → Fenced o P D (drain w k options h)
  unfolding drain
  drain-Fenced before options h v =
      let drained_inv : Inv o P D (record h { draining = true }) = record {
        objects_fine = v.objects_fine;
        tasks_fine = v.tasks_fine;
        closed = λ d. refl;
      } in
      let pruned = prune_dead_sessions w h.sessions (record h { draining = true }) in
      let report : DrainReport = record {
        initial_turns = active_turn_count h;
        aborted_turns = 0;
        sessions = length pruned.0.sessions;
      } in
      let p = prune-Fenced o P D w h.sessions (record h { draining = true }) drained_inv in
      and_then-Fenced o P D pruned (poll w k options w.now report) p
        (poll-Fenced options w.now report pruned.0 p.host_inv)

  pub after_save-Fenced :
      (r : ℕ) (c : Checkpoint) (h : SessionHost)
      → Fine o P c
      → Inv o P D h
      → Fenced o P D (after_save w k r c h)
  unfolding after_save
  after_save-Fenced r c h p v =
      let s = record (h.objects r) { checkpoint = some c } in
      either-Fenced o P D (kept w)
        (fenced o P D
          (put-Inv o P D k done (write_object r s h) tt (write_object-Inv o P D r s h p v)) tt)
        (fenced o P D (put-Inv o P D k done h tt v) tt)
