-- ===== src/ManagedSessionHost/Fencing/Starts.antt =====
-- src/local-runtime/session-host.ts: starts write fenced checkpoints.
use openma_common.Common.{
  ℕ, suc, String, true, Option, none, some, [], ◌≡◌, refl, inl, inr, Bool-cases,
}
use openma_common.Common.Maps.{get, delete}
use openma_common.ManagedSessionHost.{
  Checkpoint, StartInput, done, losing, World, SessionHost, put, write_object,
}
use openma_common.ManagedSessionHost.Sessions.{lease_lost, announce_one}
use openma_common.ManagedSessionHost.Starts.{
  one_of, generation_of, last_completed_of, claimed_checkpoint, run_start, begin_start,
  start_unless, start, after_load, after_claim, install, finish_start, ready_checkpoint, make_ready,
  after_start, set_ready, kept, after_ready,
}
use openma_common.ManagedSessionHost.Fencing.{
  generation_or_zero, Fine, FineIfAny, Inv, Fenced, fenced, put-Inv, write_object-Inv, same-Inv,
  either-Fenced, and_then-Fenced,
}
use openma_common.ManagedSessionHost.Fencing.Sessions.{drop-Fenced, announce_one-Fenced}

module _ (o : String) (P : String → ℕ → Type 0) (D : Type 0) where
  run_start-Fenced :
      (k : ℕ) (input : StartInput) (durable claimed : Option Checkpoint) (h : SessionHost)
      → FineIfAny o P claimed
      → Inv o P D h
      → Fenced o P D (run_start k input durable claimed h)
  unfolding run_start
  run_start-Fenced k input durable claimed h p v = fenced o P D (put-Inv o P D k _ h p v) (tt, tt)

  start_unless-Fenced :
      (k : ℕ) (store : Option String) (input : StartInput) (found : Option ℕ) (h : SessionHost)
      → Inv o P D h
      → Fenced o P D (start_unless store k input found h)
  unfolding start_unless begin_start
  start_unless-Fenced k none input none h v = run_start-Fenced k input none none h tt v
  start_unless-Fenced k (some owner) input none h v =
      fenced o P D (put-Inv o P D k _ h tt v) (tt, tt)
  start_unless-Fenced k store input (some r) h v = fenced o P D (v) tt

  pub start-Fenced :
      (w : World) (k : ℕ) (store : Option String) (input : StartInput) (h : SessionHost)
      → Inv o P D h
      → Fenced o P D (start store w k input h)
  unfolding start
  start-Fenced w k store input h v =
      let found = announce_one w input.session_id h in
      let p = announce_one-Fenced o P D w input.session_id h v in
      either-Fenced o P D h.draining (fenced o P D (v) (tt, tt)) (
        and_then-Fenced o P D found.1 (start_unless store k input found.0) p
          (start_unless-Fenced k store input found.0 found.1.0 p.host_inv))

  claim_expects :
      (w : World) (input : StartInput) (durable : Option Checkpoint)
      → (claimed_checkpoint o w input durable).generation
        ≡ suc (generation_or_zero (generation_of durable))
  unfolding claimed_checkpoint generation_of
  claim_expects w input none = refl
  claim_expects w input (some c) = refl

  pub after_load-Fenced :
      (w : World) (k : ℕ) (input : StartInput) (failed : Option String) (h : SessionHost)
      → Inv o P D h
      → Fenced o P D (after_load o w k input failed h)
  unfolding after_load claimed_checkpoint
  after_load-Fenced w k input none h v =
      fenced o P D (put-Inv o P D k _ h refl v) ((refl, inr (claim_expects w input w.found)), tt)
  after_load-Fenced w k input (some error) h v = fenced o P D (put-Inv o P D k done h tt v) (tt, tt)

  -- A claim that was accepted is one of the generations that the store has granted.
  pub after_claim-Fenced :
      (w : World) (k : ℕ) (input : StartInput) (durable : Option Checkpoint) (claimed : Checkpoint)
      (failed : Option String) (h : SessionHost)
      → (failed ≡ none → w.saved ≡ true → P claimed.session_id claimed.generation)
      → claimed.owner_id ≡ o
      → Inv o P D h
      → Fenced o P D (after_claim w k input durable claimed failed h)
  unfolding after_claim lease_lost
  after_claim-Fenced w k input durable claimed (some error) h g e v =
      fenced o P D (put-Inv o P D k done h tt v) (tt, tt)
  after_claim-Fenced w k input durable claimed none h g e v = elim (Bool-cases w.saved) [
    | inl s ↦ rw (s) (run_start-Fenced k input durable (some claimed) h (e, g refl s) v)
    | inr s ↦ rw (s) (fenced o P D (put-Inv o P D k done h tt v) (tt, tt))
  ]

  finish_start-Fenced :
      (k : ℕ) (input : StartInput) (acp : String) (h : SessionHost)
      → Inv o P D h
      → Fenced o P D (finish_start k input acp h)
  unfolding finish_start
  finish_start-Fenced k input acp h v =
      let rest = record h { resume_session_ids = delete input.session_id h.resume_session_ids } in
      (fenced o P D (put-Inv o P D k done rest tt (same-Inv o P D h rest refl refl refl v))
        (tt, tt))

  make_ready-Fenced :
      (w : World) (k : ℕ) (input : StartInput) (r : ℕ) (claimed : Option Checkpoint)
      (h : SessionHost)
      → FineIfAny o P claimed
      → Inv o P D h
      → Fenced o P D (make_ready w k input r claimed h)
  unfolding make_ready ready_checkpoint
  make_ready-Fenced w k input r none h p v = finish_start-Fenced k input w.started_id h v
  make_ready-Fenced w k input r (some claimed) h p v =
      fenced o P D (put-Inv o P D k _ h p v) ((p.0, inl (refl, p.1)), tt)

  install-Inv :
      (w : World) (input : StartInput) (durable claimed : Option Checkpoint) (h : SessionHost)
      → FineIfAny o P claimed
      → Inv o P D h
      → Inv o P D (install w input durable claimed h)
  unfolding install
  install-Inv w input durable claimed h p v = same-Inv o P D _ _ refl refl refl (
      write_object-Inv o P D h.next
        (record {
          acp_session_id = w.started_id;
          turns = [];
          completed_turns = one_of (last_completed_of durable);
          checkpoint = claimed;
        })
        h p v)

  pub after_start-Fenced :
      (w : World) (k : ℕ) (input : StartInput) (durable claimed : Option Checkpoint)
      (failed : Option String) (h : SessionHost)
      → FineIfAny o P claimed
      → Inv o P D h
      → Fenced o P D (after_start w k input durable claimed failed h)
  unfolding after_start
  after_start-Fenced w k input durable claimed none h p v =
      make_ready-Fenced w k input h.next claimed (install w input durable claimed h) p
        (install-Inv w input durable claimed h p v)
  after_start-Fenced w k input durable claimed (some error) h p v =
      fenced o P D (put-Inv o P D k done h tt v) (tt, tt)

  set_ready-Fenced :
      (k : ℕ) (input : StartInput) (c : Checkpoint) (found : Option ℕ) (h : SessionHost)
      → Fine o P c
      → Inv o P D h
      → Fenced o P D (set_ready k input c found h)
  unfolding set_ready
  set_ready-Fenced k input c none h p v = fenced o P D (put-Inv o P D k done h tt v) (tt, tt)
  set_ready-Fenced k input c (some r) h p v =
      let s = record (h.objects r) { checkpoint = some c } in
      finish_start-Fenced k input c.acp_session_id (write_object r s h)
        (write_object-Inv o P D r s h p v)

  pub after_ready-Fenced :
      (w : World) (k : ℕ) (input : StartInput) (r : ℕ) (c : Checkpoint) (h : SessionHost)
      → Fine o P c
      → Inv o P D h
      → Fenced o P D (after_ready w k input r c h)
  unfolding after_ready
  after_ready-Fenced w k input r c h p v =
      either-Fenced o P D (kept w)
        (set_ready-Fenced k input c (get input.session_id h.sessions) h p v)
        (drop-Fenced o P D input.session_id r (put k (losing input.session_id) h)
          (put-Inv o P D k (losing input.session_id) h tt v))
