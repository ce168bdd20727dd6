-- ===== src/SessionSpans/Turns/Closed.antt =====
-- src/telemetry/session-spans.ts: what ends when a turn ends and when the session is closed.
use openma_common.Common.{
  ℕ, ◌+◌, String, Option, none, some, List, [], ◌∷◌, map, ◌≡◌, refl, arith, if◌then◌else◌, ltb, ◌∙◌,
  All, ◌≢◌, if_pos, if_neg, String_discrete, inl, inr, Option-cases,
}
use openma_common.Common.Maps.{get, get_first, delete_first}
use openma_common.SessionSpans.{
  Attributes, SpanOutcome, unset, SessionIdentity, OpenTool, SessionSpans, new, called,
}
use openma_common.SessionSpans.Turns.{
  other_tools, end_one, end_each, end_turn, finish_tools, close_create_agent, close_all,
}
use openma_common.SessionSpans.Turns.Balance.{end_count, open_count, Balanced}
use openma_common.SessionSpans.Turns.Steps.{
  Call, run, run-Balanced, new-Balanced, close_all-Balanced,
}

no_tool_of :
    (id : String) (tools : List (String × OpenTool))
    → All (λ (e : String × OpenTool). e.1.parent_turn_id ≢ id) (other_tools id tools)
unfolding other_tools
no_tool_of id [] = tt
no_tool_of id ((k, tool) ∷ tools) = elim (String_discrete tool.parent_turn_id id) [
  | yes same ↦ rw (if_pos (String_discrete tool.parent_turn_id id) same) (no_tool_of id tools)
  | no other ↦
      rw (if_neg (String_discrete tool.parent_turn_id id) other) (other, no_tool_of id tools)
]

module _ {C : Type 0} where
  end_one-turns :
      (s : SessionSpans C) (id : String) (span : ℕ) (m : List (String × ℕ)) (outcome : SpanOutcome)
      (a : Option Attributes)
      → s.turns ≡ (id, span) ∷ m
      → (end_one s id outcome a).turns ≡ m
  unfolding end_one called
  end_one-turns s id span m outcome a h =
      rw (h, end_one) (rw (get_first id span m) (rw (h, delete_first id span m) refl))

  end_one-tools :
      (s : SessionSpans C) (id : String) (outcome : SpanOutcome) (a : Option Attributes)
      → s.tools ≡ []
      → (end_one s id outcome a).tools ≡ []
  unfolding end_one called other_tools
  end_one-tools s id outcome a h = elim (Option-cases (get id s.turns)) [
    | inl no_turn ↦ rw (no_turn, end_one) h
    | inr (span, turn) ↦ rw (turn, end_one) (rw h refl)
  ]

  end_each-turns :
      (s : SessionSpans C) (m : List (String × ℕ)) (outcome : SpanOutcome) (a : Option Attributes)
      → s.turns ≡ m
      → s.tools ≡ []
      → ((end_each s (map (λ e. e.0) m) outcome a).turns ≡ [])
        × ((end_each s (map (λ e. e.0) m) outcome a).tools ≡ [])
  unfolding end_each
  end_each-turns s [] outcome a h k = (h, k)
  end_each-turns s ((id, span) ∷ m) outcome a h k =
      end_each-turns (end_one s id outcome a) m outcome a (end_one-turns s id span m outcome a h)
        (end_one-tools s id outcome a k)

  close_create_agent-none :
      (s : SessionSpans C) (reason : String)
      → ((close_create_agent s reason).create_agent ≡ none)
        × (((close_create_agent s reason).turns ≡ s.turns)
            × ((close_create_agent s reason).tools ≡ s.tools))
  unfolding close_create_agent called
  close_create_agent-none s reason = elim (Option-cases s.create_agent) [
    | inl no_start ↦ rw (no_start, close_create_agent) (no_start, (refl, refl))
    | inr (span, start) ↦ rw (start, close_create_agent) (refl, (refl, refl))
  ]

  -- Nothing is kept as open.
  abbrev pub IsClosed : SessionSpans C → Type 0
  IsClosed s = (s.create_agent ≡ none) × ((s.turns ≡ []) × (s.tools ≡ []))

  close_all-IsClosed : (s : SessionSpans C) (reason : String) → IsClosed (close_all s reason)
  unfolding close_all called end_turn
  close_all-IsClosed s reason =
      let t = record (called s (finish_tools s.tools reason)) { tools = [] } in
      let (no_turns, no_tools) = end_each-turns t s.turns (unset reason) none refl refl in
      let (no_start, (turns, tools)) =
        close_create_agent-none (end_each t (map (λ e. e.0) s.turns) (unset reason) none) reason in
      (no_start, (turns ∙ no_turns, tools ∙ no_tools))

  closed_count :
      (s : SessionSpans C) (n : ℕ)
      → IsClosed s
      → Balanced s
      → end_count n s.calls ≡ (if ltb n s.started then 1 else 0)
  closed_count s n (no_start, (no_turns, no_tools)) h =
      omega (arith, rw no_start at (rw no_turns at (rw no_tools at (h n))))

  -- After any calls on a new session and closing it, no start, turn or tool is kept as open, each
  -- span that was started has been ended exactly once, and no other span was ended.
  pub close_all_exact :
      (id : String) (identity : SessionIdentity) (cs : List (Call C)) (reason : String) (n : ℕ)
      → IsClosed (close_all (run (new id identity) cs) reason)
        × (end_count n (close_all (run (new id identity) cs) reason).calls
            ≡ (if ltb n (close_all (run (new id identity) cs) reason).started then 1 else 0))
  close_all_exact id identity cs reason n =
      let s = run (new id identity) cs in
      let kept =
        close_all-Balanced s reason (run-Balanced _ cs (new-Balanced _ id identity refl)) in
      (
        close_all-IsClosed s reason,
        closed_count (close_all s reason) n (close_all-IsClosed s reason) kept,
      )

  -- After any calls on a new session each span that was started is either held at exactly one open
  -- place (the start, a turn or a tool) and never ended, or held at none and ended exactly once; a
  -- span that was not started is neither held nor ended.
  spans-Balanced :
      (id : String) (identity : SessionIdentity) (cs : List (Call C)) (n : ℕ)
      → end_count n (run (new id identity) cs).calls + open_count n (run (new id identity) cs)
        ≡ (if ltb n (run (new id identity) cs).started then 1 else 0)
  spans-Balanced id identity cs n = run-Balanced _ cs (new-Balanced _ id identity refl) n

  -- Once an open turn is ended, no tool of that turn is kept as open.
  end_turn-tools :
      (s : SessionSpans C) (id : String) (span : ℕ) (outcome : SpanOutcome) (a : Option Attributes)
      → get id s.turns ≡ some span
      → All
          (λ (e : String × OpenTool). e.1.parent_turn_id ≢ id)
          (end_turn s (some id) outcome a).tools
  unfolding end_turn end_each end_one called
  end_turn-tools s id span outcome a h = rw (h, end_turn, end_one) (no_tool_of id s.tools)
