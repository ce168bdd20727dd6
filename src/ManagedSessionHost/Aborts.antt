-- ===== src/ManagedSessionHost/Aborts.antt =====
-- src/local-runtime/session-host.ts: what a drain does once its deadline has passed.
use openma_common.Common.{
  ℕ, ◌≤◌, String, Bool, true, Option, some, List, [], ◌∷◌, ◌≡◌, refl, ap, sym, ◌∙◌, arith, inl, inr,
  Among, ◌-◌, subst,
}
use openma_common.ManagedSessionHost.{
  ActiveSession, DrainOptions, DrainReport, World, SessionHost, update,
}
use openma_common.ManagedSessionHost.Disposal.{
  abort_turns, abort_session, abort_all, wait_for_all, dispose_all,
}
use openma_common.ManagedSessionHost.Drains.{
  abort_one, abort_counted, abort_each, finish_drain, poll,
}

-- What was aborted stays so.
abort_one_keeps :
    (d : ℕ) (counts : (ℕ → Bool) × ℕ) (c : ℕ) → counts.0 c ≡ true → (abort_one d counts).0 c ≡ true
unfolding abort_one
abort_one_keeps d counts c e = ground arith

abort_one_aborts : (d : ℕ) (counts : (ℕ → Bool) × ℕ) → (abort_one d counts).0 d ≡ true
unfolding abort_one
abort_one_aborts d counts = ground arith

abort_counted_keeps :
    (turns : List (String × ℕ)) (counts : (ℕ → Bool) × ℕ) (c : ℕ)
    → counts.0 c ≡ true
    → (abort_counted turns counts).0 c ≡ true
unfolding abort_counted
abort_counted_keeps [] counts c e = e
abort_counted_keeps ((turn_id, d) ∷ turns) counts c e =
    abort_counted_keeps turns (abort_one d counts) c (abort_one_keeps d counts c e)

abort_counted_aborts :
    (turns : List (String × ℕ)) (counts : (ℕ → Bool) × ℕ) (turn_id : String) (c : ℕ)
    → Among (turn_id, c) turns
    → (abort_counted turns counts).0 c ≡ true
unfolding abort_counted
abort_counted_aborts [] counts turn_id c m = elim m [ ]
abort_counted_aborts ((other, d) ∷ turns) counts turn_id c (inl same) =
    let e : d ≡ c = ap (λ (entry : String × ℕ). entry.1) same in
    abort_counted_keeps turns (abort_one d counts) c
      (subst (λ (x : ℕ). (abort_one d counts).0 x ≡ true) e (abort_one_aborts d counts))
abort_counted_aborts ((other, d) ∷ turns) counts turn_id c (inr m) =
    abort_counted_aborts turns (abort_one d counts) turn_id c m

module _ (objects : ℕ → ActiveSession) where
  abort_each_keeps :
      (entries : List (String × ℕ)) (counts : (ℕ → Bool) × ℕ) (c : ℕ)
      → counts.0 c ≡ true
      → (abort_each objects entries counts).0 c ≡ true
  unfolding abort_each
  abort_each_keeps [] counts c e = e
  abort_each_keeps ((session_id, r) ∷ entries) counts c e =
      abort_each_keeps entries (abort_counted (objects r).turns counts) c
        (abort_counted_keeps (objects r).turns counts c e)

  abort_each_aborts :
      (entries : List (String × ℕ)) (counts : (ℕ → Bool) × ℕ) (session_id turn_id : String)
      (r c : ℕ)
      → Among (session_id, r) entries
      → Among (turn_id, c) (objects r).turns
      → (abort_each objects entries counts).0 c ≡ true
  unfolding abort_each
  abort_each_aborts [] counts session_id turn_id r c m t = elim m [ ]
  abort_each_aborts ((other, q) ∷ entries) counts session_id turn_id r c (inl same) t =
      let e : q ≡ r = ap (λ (entry : String × ℕ). entry.1) same in
      let turns = subst (λ (x : ℕ). Among (turn_id, c) (objects x).turns) (sym e) t in
      abort_each_keeps entries (abort_counted (objects q).turns counts) c
        (abort_counted_aborts (objects q).turns counts turn_id c turns)
  abort_each_aborts ((other, q) ∷ entries) counts session_id turn_id r c (inr m) t =
      abort_each_aborts entries (abort_counted (objects q).turns counts) session_id turn_id r c m t

abort_turns_keeps :
    (turns : List (String × ℕ)) (aborted : ℕ → Bool) (c : ℕ)
    → aborted c ≡ true
    → abort_turns turns aborted c ≡ true
unfolding abort_turns
abort_turns_keeps [] aborted c e = e
abort_turns_keeps ((turn_id, d) ∷ turns) aborted c e =
    abort_turns_keeps turns (update d true aborted) c (ground arith)

abort_all_keeps :
    (entries : List (String × ℕ)) (h : SessionHost) (c : ℕ)
    → h.aborted c ≡ true
    → (abort_all entries h).aborted c ≡ true
unfolding abort_all abort_session
abort_all_keeps [] h c e = e
abort_all_keeps ((session_id, r) ∷ entries) h c e =
    abort_all_keeps entries (abort_session r h) c
      (abort_turns_keeps (h.objects r).turns h.aborted c e)

wait_aborted :
    (k : ℕ) (entries : List (String × ℕ)) (report : Option DrainReport) (h : SessionHost)
    → (wait_for_all k entries report h).0.aborted ≡ h.aborted
unfolding wait_for_all
wait_aborted k [] report h = refl
wait_aborted k (entry ∷ entries) report h = refl

dispose_all_keeps :
    (k : ℕ) (report : Option DrainReport) (h : SessionHost) (c : ℕ)
    → h.aborted c ≡ true
    → (dispose_all k report h).0.aborted c ≡ true
unfolding dispose_all
dispose_all_keeps k report h c e =
    let all = abort_all h.sessions h in
    ap (λ (aborted : ℕ → Bool). aborted c) (wait_aborted k h.sessions report all)
    ∙ abort_all_keeps h.sessions h c e

finish_drain_aborts :
    (k : ℕ) (options : DrainOptions) (report : DrainReport) (h : SessionHost)
    (session_id turn_id : String) (r c : ℕ)
    → Among (session_id, r) h.sessions
    → Among (turn_id, c) (h.objects r).turns
    → (finish_drain k options report h).0.aborted c ≡ true
unfolding finish_drain
finish_drain_aborts k options report h session_id turn_id r c m t =
    let counts = abort_each h.objects h.sessions (h.aborted, 0) in
    let final = record report { aborted_turns = counts.1 } in
    let rest = record h { aborted = counts.0 } in
    let e = abort_each_aborts h.objects h.sessions (h.aborted, 0) session_id turn_id r c m t in
    ground (arith, e, dispose_all_keeps k (some final) rest c e)

-- When the loop of a drain runs at or after its deadline, every turn that a session in the map then
-- has is aborted by the end of that step.
pub drain_aborts_turns :
    (w : World) (k : ℕ) (options : DrainOptions) (started_at : ℕ) (report : DrainReport)
    (h : SessionHost) (session_id turn_id : String) (r c : ℕ)
    → options.deadline_ms ≤ w.now - started_at
    → Among (session_id, r) h.sessions
    → Among (turn_id, c) (h.objects r).turns
    → (poll w k options started_at report h).0.aborted c ≡ true
unfolding poll
drain_aborts_turns w k options started_at report h session_id turn_id r c late m t =
    ground (arith, late, finish_drain_aborts k options report h session_id turn_id r c m t)
