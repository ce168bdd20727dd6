-- ===== src/ManagedSessionHost/Grants.antt =====
-- src/local-runtime/session-host.ts: what holds over all steps of a host: the checkpoints that it writes.
use openma_common.Common.{
  subst, sym, none, some, ℕ, suc, String, true, Option, List, [], ◌∷◌, ◌++◌, ◌≡◌, refl, inl, inr,
  Among, if◌then◌else◌, All,
}
use openma_common.Common.Maps.{get, delete}
use openma_common.ManagedSessionHost.{
  Checkpoint, StartInput, Task, done, loading, claiming, starting, readying, losing, remembering,
  leasing, streaming, committing, uncommitted, steering, settling, disposing, deleting,
  disposing_all, polling, aborting, cancelling, World, SessionHost, new_host,
}
use openma_common.ManagedSessionHost.Sessions.{lease_lost}
use openma_common.ManagedSessionHost.Starts.{after_load, kept}
use openma_common.ManagedSessionHost.Disposal.{
  dispose, after_dispose, after_delete, after_one_of_all, cancel,
}
use openma_common.ManagedSessionHost.Steps.{
  HostCall, has_called, session_count_called, announce_called, announce_all_called, start_called,
  prompt_called, steer_called, dispose_called, dispose_all_called, drain_called, cancel_called,
  HostStep, call, go_on, load_ended, make_call, resume, step, run,
}
use openma_common.ManagedSessionHost.Fencing.{
  Written, TaskFine, Inv, Fenced, fenced, put-Inv, same-Inv, and_then-Fenced,
}
use openma_common.ManagedSessionHost.Fencing.Sessions.{
  announce-Fenced, announce_all-Fenced, has_session-Fenced, session_count-Fenced,
}
use openma_common.ManagedSessionHost.Fencing.Starts.{
  start-Fenced, after_load-Fenced, after_claim-Fenced, after_start-Fenced, after_ready-Fenced,
}
use openma_common.ManagedSessionHost.Fencing.Turns.{
  prompt-Fenced, after_lease-Fenced, after_event-Fenced, after_commit-Fenced,
  after_uncommitted-Fenced,
}
use openma_common.ManagedSessionHost.Fencing.Steering.{steer-Fenced, after_steer-Fenced}
use openma_common.ManagedSessionHost.Fencing.Closing.{
  forget-Fenced, dispose_found-Fenced, dispose_all-Fenced, one_of_all-Fenced, cancel_found-Fenced,
  after_grace-Fenced, poll-Fenced, drain-Fenced, after_save-Fenced,
}

-- The generation that a step brings: that of a claim which the store accepts.
unfoldable pub granted_claim : World → Task → List (String × ℕ)
unfolding kept
granted_claim w (claiming input durable claimed) =
    if kept w then (claimed.session_id, claimed.generation) ∷ [] else []
granted_claim w _ = []

unfoldable pub granted_by : World → HostStep → SessionHost → List (String × ℕ)
unfolding granted_claim
granted_by w (call c) h = []
granted_by w (go_on k) h = granted_claim w (h.tasks k)

claim_kept : (w : World) → w.rejected ≡ none → w.saved ≡ true → kept w ≡ true
unfolding kept
claim_kept w e s = rw (e) s

Among-append_left : (x : String × ℕ) (xs ys : List (String × ℕ)) → Among x xs → Among x (xs ++ ys)
Among-append_left x [] ys m = elim m [ ]
Among-append_left x (y ∷ xs) ys (inl e) = inl e
Among-append_left x (y ∷ xs) ys (inr m) = inr (Among-append_left x xs ys m)

Among-append_right : (x : String × ℕ) (xs ys : List (String × ℕ)) → Among x ys → Among x (xs ++ ys)
Among-append_right x [] ys m = m
Among-append_right x (y ∷ xs) ys m = inr (Among-append_right x xs ys m)

-- The host's own id, where it has a store.
abbrev pub OwnedBy : String → Option String → Type 0
OwnedBy o none = Unit {0}
OwnedBy o (some owner) = owner ≡ o

load_ended-Fenced :
    (o : String) (P : String → ℕ → Type 0) (D : Type 0) (store : Option String)
    → OwnedBy o store
    → (w : World) (k : ℕ) (input : StartInput) (h : SessionHost) → Inv o P D h
    → Fenced o P D (load_ended store w k input h)
unfolding load_ended
load_ended-Fenced o P D none own w k input h v = fenced o P D (put-Inv o P D k done h tt v) tt
load_ended-Fenced o P D (some owner) own w k input h v =
    subst (λ (x : String). Fenced o P D (after_load x w k input w.rejected h)) (sym own)
      (after_load-Fenced o P D w k input w.rejected h v)

pub new-Inv : (o : String) (P : String → ℕ → Type 0) → Inv o P ⊥ new_host
unfolding new_host
new-Inv o P = record { objects_fine = λ r. tt; tasks_fine = λ k. tt; closed = λ d. absurd d }

module _ (store : Option String) (grace : Option ℕ) where
  -- The generations that the store grants over steps.
  unfoldable pub granted : List (World × HostStep) → SessionHost → List (String × ℕ)
  unfolding granted_by
  granted [] h = []
  granted ((w, s) ∷ steps) h = granted_by w s h ++ granted steps (step store grace w s h).0

  module _ (o : String) (P : String → ℕ → Type 0) (D : Type 0) (own : OwnedBy o store) where
    call-Fenced :
        (w : World) (k : ℕ) (c : HostCall) (h : SessionHost)
        → Inv o P D h
        → Fenced o P D (make_call store grace w k c h)
    unfolding make_call dispose cancel
    call-Fenced w k (has_called session_id) h v = has_session-Fenced o P D w session_id h v
    call-Fenced w k session_count_called h v = session_count-Fenced o P D w h v
    call-Fenced w k (announce_called session_id) h v = announce-Fenced o P D w session_id h v
    call-Fenced w k announce_all_called h v = announce_all-Fenced o P D w h.sessions h v
    call-Fenced w k (start_called input) h v = start-Fenced o P D w k store input h v
    call-Fenced w k (prompt_called input) h v = prompt-Fenced o P D w k input h v
    call-Fenced w k (steer_called input) h v = steer-Fenced o P D w k input h v
    call-Fenced w k (dispose_called session_id) h v =
        dispose_found-Fenced o P D w k store session_id (get session_id h.sessions) h v
    call-Fenced w k dispose_all_called h v = dispose_all-Fenced o P D w k none h v
    call-Fenced w k (drain_called options) h v = drain-Fenced o P D w k D options h v
    call-Fenced w k (cancel_called session_id turn_id) h v =
        cancel_found-Fenced o P D w k grace session_id turn_id (get session_id h.sessions) h v

    claim-Granted :
        (w : World) (input : StartInput) (durable : Option Checkpoint) (claimed : Checkpoint)
        → ((x : String × ℕ)
            → Among x (granted_claim w (claiming input durable claimed))
            → P x.0 x.1)
        → w.rejected ≡ none
        → w.saved ≡ true
        → P claimed.session_id claimed.generation
    unfolding granted_claim
    claim-Granted w input durable claimed g e s =
        let grants = g (claimed.session_id, claimed.generation) in
        let among : Among (claimed.session_id, claimed.generation)
            (granted_claim w (claiming input durable claimed)) =
          rw (claim_kept w e s, granted_claim) (inl refl) in
        grants among

    resume-Fenced :
        (w : World) (k : ℕ) (t : Task) (h : SessionHost)
        → ((x : String × ℕ) → Among x (granted_claim w t) → P x.0 x.1)
        → TaskFine o P t
        → Inv o P D h
        → Fenced o P D (resume store grace w k t h)
    unfolding resume after_dispose after_one_of_all after_delete lease_lost
    resume-Fenced w k done h g f v = fenced o P D v tt
    resume-Fenced w k (loading input) h g f v = load_ended-Fenced o P D store own w k input h v
    resume-Fenced w k (claiming input durable claimed) h g f v =
        after_claim-Fenced o P D w k input durable claimed w.rejected h
          (claim-Granted w input durable claimed g) f v
    resume-Fenced w k (starting input durable claimed) h g f v =
        after_start-Fenced o P D w k input durable claimed w.rejected h f v
    resume-Fenced w k (readying input r c) h g f v = after_ready-Fenced o P D w k input r c h f v
    resume-Fenced w k (losing session_id) h g f v =
        fenced o P D (put-Inv o P D k done h tt v) (tt, tt)
    resume-Fenced w k (remembering r c) h g f v = after_save-Fenced o P D w k r c h f v
    resume-Fenced w k (leasing input r c) h g f v = after_lease-Fenced o P D w k input r c h f v
    resume-Fenced w k (streaming input r error) h g f v =
        after_event-Fenced o P D w k input r error w.rejected h v
    resume-Fenced w k (committing input r c) h g f v = after_commit-Fenced o P D w k input r c h f v
    resume-Fenced w k (uncommitted input r) h g f v = after_uncommitted-Fenced o P D w k input r h v
    resume-Fenced w k (steering input r) h g f v = after_steer-Fenced o P D w k input r h v
    resume-Fenced w k (settling input) h g f v = prompt-Fenced o P D w k input h v
    resume-Fenced w k (disposing session_id r) h g f v =
        let rest = record h { sessions = delete session_id h.sessions } in
        forget-Fenced o P D w k store session_id (some r) rest
          (same-Inv o P D h rest refl refl refl v)
    resume-Fenced w k (deleting session_id) h g f v =
        fenced o P D (put-Inv o P D k done h tt v) (tt, tt)
    resume-Fenced w k (disposing_all entries report) h g f v =
        one_of_all-Fenced o P D w k entries report (get w.disposed_id entries) h v
    resume-Fenced w k (polling options started_at report) h g f v =
        poll-Fenced o P D w k options started_at report h v
    resume-Fenced w k (aborting report) h g f v = dispose_all-Fenced o P D w k (some report) h v
    resume-Fenced w k (cancelling session_id turn_id r) h g f v =
        after_grace-Fenced o P D w k session_id turn_id r h v

    step-Fenced :
        (w : World) (s : HostStep) (h : SessionHost)
        → ((x : String × ℕ) → Among x (granted_by w s h) → P x.0 x.1)
        → Inv o P D h
        → Fenced o P D (step store grace w s h)
    unfolding step granted_by
    step-Fenced w (call c) h g v =
        let rest = record h { next = suc h.next } in
        call-Fenced w h.next c rest (same-Inv o P D h rest refl refl refl v)
    step-Fenced w (go_on k) h g v = resume-Fenced w k (h.tasks k) h g (v.tasks_fine k) v

    pub run-Fenced :
        (steps : List (World × HostStep)) (h : SessionHost)
        → ((x : String × ℕ) → Among x (granted steps h) → P x.0 x.1)
        → Inv o P D h
        → Fenced o P D (run store grace steps h)
    unfolding run granted
    run-Fenced [] h g v = fenced o P D v tt
    run-Fenced ((w, s) ∷ steps) h g v =
        let now = step store grace w s h in
        let later = granted steps now.0 in
        let p = step-Fenced w s h (λ x m. g x (Among-append_left x (granted_by w s h) later m)) v in
        let q =
          run-Fenced steps now.0 (λ x m. g x (Among-append_right x (granted_by w s h) later m))
            p.host_inv in
        and_then-Fenced o P D now (run store grace steps) p q

  -- The generations that the store grants a new host, and what a new host writes.
  abbrev pub Granted : List (World × HostStep) → String → ℕ → Type 0
  Granted steps session_id generation = Among (session_id, generation) (granted steps new_host)

-- Over any interleaving of calls and answers, every checkpoint that a new host with a store writes
-- bears its own id, and either claims the generation after the one that it expects, or is written
-- under a generation of that session that it expects unchanged and that the store has granted this
-- host by accepting a claim; and every deletion that is fenced names the host's own id.
pub run-Written :
    (o : String) (grace : Option ℕ) (steps : List (World × HostStep))
    → All (Written o (Granted (some o) grace steps) ⊥) (run (some o) grace steps new_host).1
run-Written o grace steps =
    let P = Granted (some o) grace steps in
    (run-Fenced (some o) grace o P ⊥ refl steps new_host (λ x m. m) (new-Inv o P)).all_written
