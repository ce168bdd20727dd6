-- ===== src/ManagedSessionHost/Fencing/Sessions.antt =====
-- src/local-runtime/session-host.ts: looking for sessions writes fenced checkpoints.
use openma_common.Common.{
  ℕ, suc, String, Option, none, some, List, [], ◌∷◌, ◌++◌, refl, arith, inl, inr, Bool-cases,
  All-append, All, length,
}
use openma_common.Common.Maps.{get}
use openma_common.ManagedSessionHost.{
  Checkpoint, ActiveSession, World, Output, returned, counted, SessionHost, Step,
}
use openma_common.ManagedSessionHost.Sessions.{
  save_recovering, with_resume_id, remember_for_recovery, drop_session, check_alive, live_session,
  is_some, has_session, ready_of, announce_one, announce, announce_all, prune_dead_sessions,
  session_count,
}
use openma_common.ManagedSessionHost.Fencing.{
  Written, Inv, Fenced, fenced, put-Inv, same-Inv, and_then-Fenced, FineIfAny,
}

module _ (o : String) (P : String → ℕ → Type 0) (D : Type 0) where
  save_recovering-Fenced :
      (w : World) (r : ℕ) (session : ActiveSession) (c : Option Checkpoint) (h : SessionHost)
      → FineIfAny o P c
      → Inv o P D h
      → Fenced o P D (save_recovering w r session c h)
  unfolding save_recovering
  save_recovering-Fenced w r session none h p v = fenced o P D (v) tt
  save_recovering-Fenced w r session (some c) h p v =
      fenced o P D
        (put-Inv o P D h.next _ (record h { next = suc h.next }) p
          (same-Inv o P D h _ refl refl refl v))
        ((p.0, inl (refl, p.1)), tt)

  with_resume_id-Inv :
      (session_id acp : String) (h : SessionHost)
      → Inv o P D h
      → Inv o P D (with_resume_id session_id acp h)
  unfolding with_resume_id
  with_resume_id-Inv session_id acp h v =
      same-Inv o P D h _ (ground arith) (ground arith) (ground arith) v

  pub remember-Fenced :
      (w : World) (session_id : String) (r : ℕ) (h : SessionHost)
      → Inv o P D h
      → Fenced o P D (remember_for_recovery w session_id r h)
  unfolding remember_for_recovery
  remember-Fenced w session_id r h v =
      let session = h.objects r in
      save_recovering-Fenced w r session session.checkpoint
        (with_resume_id session_id session.acp_session_id h) (v.objects_fine r)
        (with_resume_id-Inv session_id session.acp_session_id h v)

  pub drop-Fenced :
      (session_id : String) (r : ℕ) (h : SessionHost)
      → Inv o P D h
      → Fenced o P D (drop_session session_id r h)
  unfolding drop_session
  drop-Fenced session_id r h v = fenced o P D (same-Inv o P D h _ refl refl refl v) (tt, tt)

  check_alive-Fenced :
      (w : World) (session_id : String) (found : Option ℕ) (h : SessionHost)
      → Inv o P D h
      → Fenced o P D (check_alive w session_id found h).1
  unfolding check_alive
  check_alive-Fenced w session_id none h v = fenced o P D (v) tt
  check_alive-Fenced w session_id (some r) h v =
      let left = remember_for_recovery w session_id r h in
      let p = remember-Fenced w session_id r h v in
      let q = drop-Fenced session_id r left.0 p.host_inv in
      let dead = and_then-Fenced o P D left (drop_session session_id r) p q in
      elim (Bool-cases (w.alive r)) [ inl e ↦ rw (e) (fenced o P D (v) tt) | inr e ↦ rw (e) dead ]

  pub live-Fenced :
      (w : World) (session_id : String) (h : SessionHost)
      → Inv o P D h
      → Fenced o P D (live_session w session_id h).1
  unfolding live_session
  live-Fenced w session_id h v = check_alive-Fenced w session_id (get session_id h.sessions) h v

  search-Fenced :
      (s : Step) (outputs : List Output)
      → Fenced o P D s
      → All (Written o P D) outputs
      → Fenced o P D (s.0, s.1 ++ outputs)
  search-Fenced s outputs p q =
      fenced o P D p.host_inv (All-append (Written o P D) s.1 outputs p.all_written q)

  ready-Written :
      (session_id : String) (h : SessionHost) (found : Option ℕ)
      → All (Written o P D) (ready_of session_id h found)
  unfolding ready_of
  ready-Written session_id h none = tt
  ready-Written session_id h (some r) = (tt, tt)

  pub announce_one-Fenced :
      (w : World) (session_id : String) (h : SessionHost)
      → Inv o P D h
      → Fenced o P D (announce_one w session_id h).1
  unfolding announce_one
  announce_one-Fenced w session_id h v =
      let found = live_session w session_id h in
      search-Fenced found.1 (ready_of session_id found.1.0 found.0) (live-Fenced w session_id h v)
        (ready-Written session_id found.1.0 found.0)

  pub announce-Fenced :
      (w : World) (session_id : String) (h : SessionHost)
      → Inv o P D h
      → Fenced o P D (announce w session_id h)
  unfolding announce
  announce-Fenced w session_id h v =
      let found = announce_one w session_id h in
      search-Fenced found.1 (returned (is_some found.0) ∷ []) (announce_one-Fenced w session_id h v)
        (tt, tt)

  pub has_session-Fenced :
      (w : World) (session_id : String) (h : SessionHost)
      → Inv o P D h
      → Fenced o P D (has_session w session_id h)
  unfolding has_session
  has_session-Fenced w session_id h v =
      let found = live_session w session_id h in
      search-Fenced found.1 (returned (is_some found.0) ∷ []) (live-Fenced w session_id h v)
        (tt, tt)

  pub announce_all-Fenced :
      (w : World) (entries : List (String × ℕ)) (h : SessionHost)
      → Inv o P D h
      → Fenced o P D (announce_all w entries h)
  unfolding announce_all
  announce_all-Fenced w [] h v = fenced o P D (v) tt
  announce_all-Fenced w ((session_id, r) ∷ entries) h v =
      let p = announce_one-Fenced w session_id h v in
      and_then-Fenced o P D (announce_one w session_id h).1 (announce_all w entries) p
        (announce_all-Fenced w entries (announce_one w session_id h).1.0 p.host_inv)

  pub prune-Fenced :
      (w : World) (entries : List (String × ℕ)) (h : SessionHost)
      → Inv o P D h
      → Fenced o P D (prune_dead_sessions w entries h)
  unfolding prune_dead_sessions
  prune-Fenced w [] h v = fenced o P D (v) tt
  prune-Fenced w ((session_id, r) ∷ entries) h v =
      let p = live-Fenced w session_id h v in
      and_then-Fenced o P D (live_session w session_id h).1 (prune_dead_sessions w entries) p
        (prune-Fenced w entries (live_session w session_id h).1.0 p.host_inv)

  pub session_count-Fenced :
      (w : World) (h : SessionHost) → Inv o P D h → Fenced o P D (session_count w h)
  unfolding session_count
  session_count-Fenced w h v =
      let pruned = prune_dead_sessions w h.sessions h in
      search-Fenced pruned (counted (length pruned.0.sessions) ∷ []) (prune-Fenced w h.sessions h v)
        (tt, tt)
