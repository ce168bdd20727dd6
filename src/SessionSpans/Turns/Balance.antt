-- ===== src/SessionSpans/Turns/Balance.antt =====
-- src/telemetry/session-spans.ts: every span that was started is open or has been ended once.
use openma_common.Common.{
  ℕ, ◌+◌, String, false, Option, none, some, List, [], ◌∷◌, ◌++◌, map, ◌≡◌, refl, arith,
  if◌then◌else◌, ltb, ◌==◌, inl, inr, Option-cases,
}
use openma_common.Common.Maps.{get, set, delete}
use openma_common.SessionSpans.{
  Attributes, SpanOutcome, ok, error, unset, SpanCall, starts, sets_status, sets_attributes,
  adds_event, ends, OpenTool, SessionSpans, is_some, finish, called,
}
use openma_common.SessionSpans.Turns.{
  end_tools, other_tools, attributes_set, end_one, end_each, end_turn, finish_tools,
}

abbrev pub one_if : ℕ → ℕ → ℕ
one_if n m = if m == n then 1 else 0

abbrev pub one_if_some : ℕ → Option ℕ → ℕ
one_if_some n none = 0
one_if_some n (some m) = one_if n m

abbrev pub turn_count : ℕ → List (String × ℕ) → ℕ
turn_count n [] = 0
turn_count n ((k, m) ∷ turns) = one_if n m + turn_count n turns

abbrev pub tool_count : ℕ → List (String × OpenTool) → ℕ
tool_count n [] = 0
tool_count n ((k, tool) ∷ tools) = one_if n tool.span + tool_count n tools

pub turn_count-set :
    (n m : ℕ) (k : String) (turns : List (String × ℕ))
    → is_some (get k turns) ≡ false
    → turn_count n (set k m turns) ≡ one_if n m + turn_count n turns
unfolding get set is_some
turn_count-set n m k [] h = refl
turn_count-set n m k ((j, w) ∷ turns) h = ground (arith, turn_count-set n m k turns)

pub tool_count-set :
    (n : ℕ) (tool : OpenTool) (k : String) (tools : List (String × OpenTool))
    → is_some (get k tools) ≡ false
    → tool_count n (set k tool tools) ≡ one_if n tool.span + tool_count n tools
unfolding get set is_some
tool_count-set n tool k [] h = refl
tool_count-set n tool k ((j, w) ∷ tools) h = ground (arith, tool_count-set n tool k tools)

turn_count-delete :
    (n m : ℕ) (k : String) (turns : List (String × ℕ))
    → get k turns ≡ some m
    → turn_count n turns ≡ one_if n m + turn_count n (delete k turns)
unfolding get delete
turn_count-delete n m k [] h = cc
turn_count-delete n m k ((j, w) ∷ turns) h = ground (arith, turn_count-delete n m k turns)

pub tool_count-delete :
    (n : ℕ) (tool : OpenTool) (k : String) (tools : List (String × OpenTool))
    → get k tools ≡ some tool
    → tool_count n tools ≡ one_if n tool.span + tool_count n (delete k tools)
unfolding get delete
tool_count-delete n tool k [] h = cc
tool_count-delete n tool k ((j, w) ∷ tools) h = ground (arith, tool_count-delete n tool k tools)

module _ {C : Type 0} where
  -- How often the calls end a span, and how often they start it.
  abbrev pub end_count : ℕ → List (SpanCall C) → ℕ
  end_count n [] = 0
  end_count n (ends m ∷ calls) = one_if n m + end_count n calls
  end_count n (c ∷ calls) = end_count n calls

  pub end_count-append :
      (n : ℕ) (cs ds : List (SpanCall C)) → end_count n (cs ++ ds) ≡ end_count n cs + end_count n ds
  end_count-append n [] ds = omega arith
  end_count-append n (starts m name a p ∷ cs) ds = end_count-append n cs ds
  end_count-append n (sets_status m c ∷ cs) ds = end_count-append n cs ds
  end_count-append n (sets_attributes m a ∷ cs) ds = end_count-append n cs ds
  end_count-append n (adds_event m name a ∷ cs) ds = end_count-append n cs ds
  end_count-append n (ends m ∷ cs) ds = omega (arith, end_count-append n cs ds)

pub end_count-finish :
    (C : Type 0) (n span : ℕ) (outcome : SpanOutcome)
    → end_count n (finish {C = C} span outcome) ≡ one_if n span
unfolding finish
end_count-finish C n span ok = omega arith
end_count-finish C n span (error t) = omega arith
end_count-finish C n span (unset t) = omega arith

end_tools-balance :
    (C : Type 0) (n : ℕ) (id : String) (tools : List (String × OpenTool))
    → end_count n (end_tools {C = C} id tools) + tool_count n (other_tools id tools)
      ≡ tool_count n tools
unfolding end_tools other_tools
end_tools-balance C n id [] = omega arith
end_tools-balance C n id ((k, tool) ∷ tools) = ground (
  arith,
  end_tools-balance C n id tools,
  end_count-finish C n tool.span (unset "turn ended"),
  end_count-append n (finish {C = C} tool.span (unset "turn ended")) (end_tools {C = C} id tools),
)

pub finish_tools-count :
    (C : Type 0) (n : ℕ) (tools : List (String × OpenTool)) (reason : String)
    → end_count n (finish_tools {C = C} tools reason) ≡ tool_count n tools
unfolding finish_tools
finish_tools-count C n [] reason = refl
finish_tools-count C n ((k, tool) ∷ tools) reason = omega (
  arith,
  finish_tools-count C n tools reason,
  end_count-finish C n tool.span (unset reason),
  end_count-append n (finish {C = C} tool.span (unset reason)) (finish_tools {C = C} tools reason),
)

attributes_set-count :
    (C : Type 0) (n span : ℕ) (a : Option Attributes)
    → end_count n (attributes_set {C = C} span a) ≡ 0
unfolding attributes_set
attributes_set-count C n span none = refl
attributes_set-count C n span (some a) = refl

module _ {C : Type 0} where
  -- The places that hold a span as an open one.
  abbrev pub open_count : ℕ → SessionSpans C → ℕ
  open_count n s = one_if_some n s.create_agent + (turn_count n s.turns + tool_count n s.tools)

  -- A span was started exactly if it is open or ended, which it is once.
  abbrev pub Balanced : SessionSpans C → Type 0
  Balanced s = (n : ℕ) → end_count n s.calls + open_count n s ≡ (if ltb n s.started then 1 else 0)

  end_one-Balanced :
      (s : SessionSpans C) (id : String) (outcome : SpanOutcome) (a : Option Attributes)
      → Balanced s
      → Balanced (end_one s id outcome a)
  unfolding end_one called
  end_one-Balanced s id outcome a h n = elim (Option-cases (get id s.turns)) [
    | inl no_turn ↦ rw (no_turn, end_one) (h n)
    | inr (span, turn) ↦
        rw (turn, end_one)
          (omega (
            arith,
            h n,
            turn_count-delete n span id s.turns turn,
            end_tools-balance C n id s.tools,
            attributes_set-count C n span a,
            end_count-finish C n span outcome,
            end_count-append n (attributes_set span a) (finish span outcome),
            end_count-append n (end_tools id s.tools)
                (attributes_set span a ++ finish span outcome),
            end_count-append n s.calls
                (end_tools id s.tools ++ (attributes_set span a ++ finish span outcome)),
          ))
  ]

  end_each-Balanced :
      (s : SessionSpans C) (ids : List String) (outcome : SpanOutcome) (a : Option Attributes)
      → Balanced s
      → Balanced (end_each s ids outcome a)
  unfolding end_each
  end_each-Balanced s [] outcome a h = h
  end_each-Balanced s (id ∷ ids) outcome a h =
      end_each-Balanced (end_one s id outcome a) ids outcome a (end_one-Balanced s id outcome a h)

  pub end_turn-Balanced :
      (s : SessionSpans C) (id : Option String) (outcome : SpanOutcome) (a : Option Attributes)
      → Balanced s
      → Balanced (end_turn s id outcome a)
  unfolding end_turn
  end_turn-Balanced s none outcome a h = end_each-Balanced s (map (λ e. e.0) s.turns) outcome a h
  end_turn-Balanced s (some id) outcome a h = end_each-Balanced s (id ∷ []) outcome a h
