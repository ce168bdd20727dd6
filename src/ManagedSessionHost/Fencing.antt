-- ===== src/ManagedSessionHost/Fencing.antt =====
-- src/local-runtime/session-host.ts: what the host writes to the checkpoint store, and when it may prompt.
-- `o` is the host's own id, and `P` holds of the generations that the store has granted it; `D` says that
-- a drain has begun, after which no agent is prompted.
pub mod Sessions
pub mod Starts
pub mod Turns
pub mod Steering
pub mod Closing
use openma_common.Common.{
  ℕ, suc, String, Bool, true, false, Option, none, some, ◌≡◌, sym, ◌∙◌, ◌⊎◌, All-append, subst,
  if◌then◌else◌, ◌==◌, All,
}
use openma_common.ManagedSessionHost.{
  Checkpoint, ActiveSession, Task, claiming, starting, readying, remembering, leasing, committing,
  Output, compare_and_set, delete_checkpoint, acp_prompt, SessionHost, Step, put, write_object,
}
use openma_common.ManagedSessionHost.Sessions.{and_then}

abbrev pub generation_or_zero : Option ℕ → ℕ
generation_or_zero none = 0
generation_or_zero (some n) = n

module _ (o : String) (P : String → ℕ → Type 0) where
  abbrev pub Fine : Checkpoint → Type 0
  Fine c = (c.owner_id ≡ o) × P c.session_id c.generation

  abbrev pub FineIfAny : Option Checkpoint → Type 0
  FineIfAny none = Unit {0}
  FineIfAny (some c) = Fine c

  abbrev pub TaskFine : Task → Type 0
  TaskFine (claiming input durable claimed) = claimed.owner_id ≡ o
  TaskFine (starting input durable claimed) = FineIfAny claimed
  TaskFine (readying input r c) = Fine c
  TaskFine (remembering r c) = Fine c
  TaskFine (leasing input r c) = FineIfAny c
  TaskFine (committing input r c) = FineIfAny c
  TaskFine _ = Unit {0}

module _ (o : String) (P : String → ℕ → Type 0) (D : Type 0) where
  -- A write under a granted generation, or the claim of the next one; a deletion by the owner's id.
  abbrev pub Written : Output → Type 0
  Written (compare_and_set expected c) =
      (c.owner_id ≡ o)
      × (((expected ≡ some c.generation) × P c.session_id c.generation)
          ⊎ (c.generation ≡ suc (generation_or_zero expected)))
  Written (acp_prompt r k text) = ¬ D
  Written (delete_checkpoint session_id (some (generation, owner))) = owner ≡ o
  Written _ = Unit {0}

  pub record Inv (h : SessionHost) : Type 0 where
    pub objects_fine : (r : ℕ) → FineIfAny o P (h.objects r).checkpoint
    pub tasks_fine : (k : ℕ) → TaskFine o P (h.tasks k)
    pub closed : D → h.draining ≡ true

  pub record Fenced (s : Step) : Type 0 where
    pub host_inv : Inv s.0
    pub all_written : All Written s.1

  pub fenced : {s : Step} → Inv s.0 → All Written s.1 → Fenced s
  fenced v a = record { host_inv = v; all_written = a }

  task_at :
      (k : ℕ) (t : Task) (tasks : ℕ → Task) (j : ℕ) (b : Bool)
      → TaskFine o P t
      → TaskFine o P (tasks j)
      → TaskFine o P (if b then t else tasks j)
  task_at k t tasks j true p q = p
  task_at k t tasks j false p q = q

  pub put-Inv : (k : ℕ) (t : Task) (h : SessionHost) → TaskFine o P t → Inv h → Inv (put k t h)
  put-Inv k t h p v = record {
    objects_fine = v.objects_fine;
    tasks_fine = λ j. task_at k t h.tasks j (j == k) p (v.tasks_fine j);
    closed = v.closed;
  }

  object_at :
      (s : ActiveSession) (objects : ℕ → ActiveSession) (j : ℕ) (b : Bool)
      → FineIfAny o P s.checkpoint
      → FineIfAny o P (objects j).checkpoint
      → FineIfAny o P (if b then s else objects j).checkpoint
  object_at s objects j true p q = p
  object_at s objects j false p q = q

  pub write_object-Inv :
      (r : ℕ) (s : ActiveSession) (h : SessionHost)
      → FineIfAny o P s.checkpoint
      → Inv h
      → Inv (write_object r s h)
  write_object-Inv r s h p v = record {
    objects_fine = λ j. object_at s h.objects j (j == r) p (v.objects_fine j);
    tasks_fine = v.tasks_fine;
    closed = v.closed;
  }

  -- Nothing but the objects and the pending calls matters.
  pub same-Inv :
      (h h' : SessionHost)
      → h'.objects ≡ h.objects
      → h'.tasks ≡ h.tasks
      → h'.draining ≡ h.draining
      → Inv h
      → Inv h'
  same-Inv h h' e f g v = record {
    objects_fine = λ r.
        subst (λ (all : ℕ → ActiveSession). FineIfAny o P (all r).checkpoint) (sym e)
          (v.objects_fine r);
    tasks_fine = λ k. subst (λ (all : ℕ → Task). TaskFine o P (all k)) (sym f) (v.tasks_fine k);
    closed = λ d. g ∙ v.closed d;
  }

  pub either-Fenced : (b : Bool) {s t : Step} → Fenced s → Fenced t → Fenced (if b then s else t)
  either-Fenced true p q = p
  either-Fenced false p q = q

  pub and_then-Fenced :
      (s : Step) (next : SessionHost → Step)
      → Fenced s
      → Fenced (next s.0)
      → Fenced (and_then s next)
  and_then-Fenced s next p q =
      fenced q.host_inv (All-append Written s.1 (next s.0).1 p.all_written q.all_written)
