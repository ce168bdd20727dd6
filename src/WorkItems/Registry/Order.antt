-- ===== src/WorkItems/Registry/Order.antt =====
-- src/session-events/openma.ts: the order in which events are reduced.
use mathlib.Core.List.{Perm, map-append}
use mathlib.Core.List.Perm
use openma_common.Common.{
  ℕ, suc, ◌+◌, ◌≤◌, String, Bool, true, false, Option, none, some, List, [], ◌∷◌, ◌++◌, map, ◌≡◌,
  refl, ap, arith, All, length, String_discrete, ite, ◌∙◌,
}
use openma_common.Common.Sorting.{sort, insert_sorted, Sorted, sort-perm, Sorted-sort, sort-last}
use openma_common.WorkItems.{OpenmaEvent}
use openma_common.WorkItems.Registry.{indexed, seq_le, pair_le, order_work_item_events}

indexed-append :
    (i : ℕ) (es : List OpenmaEvent) (e : OpenmaEvent)
    → indexed i (es ++ e ∷ []) ≡ indexed i es ++ (e, i + length es) ∷ []
unfolding indexed
indexed-append i [] e = ground arith
indexed-append i (x ∷ es) e = ground (arith, indexed-append (suc i) es e)

map-indexed : (i : ℕ) (es : List OpenmaEvent) → map (λ p. p.0) (indexed i es) ≡ es
unfolding indexed
map-indexed i [] = refl
map-indexed i (x ∷ es) = ap (◌∷◌ x) (map-indexed (suc i) es)

-- Whether `a` may stand in front of `b`, which arrived later.
abbrev pub Earlier : Option ℕ → Option ℕ → Type 0
Earlier none none = Unit {0}
Earlier none (some b) = ⊥
Earlier (some a) none = Unit {0}
Earlier (some a) (some b) = a ≤ b

seq_le-Earlier : (a b : Option ℕ) (i j : ℕ) → Earlier a b → i ≤ j → seq_le a b i j ≡ true
unfolding seq_le
seq_le-Earlier none none i j h k = ground arith
seq_le-Earlier none (some b) i j h k = absurd h
seq_le-Earlier (some a) none i j h k = refl
seq_le-Earlier (some a) (some b) i j h k = ground arith

pair_le-last :
    (i j : ℕ) (es : List OpenmaEvent) (e : OpenmaEvent)
    → i + length es ≤ j
    → All (λ x. Earlier x.seq e.seq) es
    → All (λ x. pair_le x (e, j) ≡ true) (indexed i es)
unfolding indexed pair_le
pair_le-last i j [] e h a = tt
pair_le-last i j (x ∷ es) e h a = (
  seq_le-Earlier x.seq e.seq i j a.0 (omega arith),
  pair_le-last (suc i) j es e (omega arith) a.1,
)

-- An event that none before it must follow is reduced last.
pub order-last :
    (es : List OpenmaEvent) (e : OpenmaEvent)
    → All (λ x. Earlier x.seq e.seq) es
    → order_work_item_events (es ++ e ∷ []) ≡ order_work_item_events es ++ e ∷ []
unfolding order_work_item_events
order-last es e a = rw (indexed-append 0 es e) (
    rw
      (sort-last pair_le (indexed 0 es) (e, 0 + length es)
        (pair_le-last 0 (0 + length es) es e (omega arith) a))
      (map-append _ _ _))

seq_le_sound : (a b : Option ℕ) (i j : ℕ) → seq_le a b i j ≡ true → Earlier a b
unfolding seq_le
seq_le_sound none none i j h = tt
seq_le_sound none (some b) i j h = cc
seq_le_sound (some a) none i j h = tt
seq_le_sound (some a) (some b) i j h = ground arith

pair_le_total : (p q : OpenmaEvent × ℕ) → pair_le p q ≡ false → pair_le q p ≡ true
unfolding pair_le
pair_le_total (e, i) (f, j) h = ground arith

pair_le_trans :
    (p q r : OpenmaEvent × ℕ) → pair_le p q ≡ true → pair_le q r ≡ true → pair_le p r ≡ true
unfolding pair_le
pair_le_trans (e, i) (f, j) (g, k) h l = ground arith

-- Every event may stand in front of each later one.
abbrev pub IsSequenced : List OpenmaEvent → Type 0
IsSequenced [] = Unit {0}
IsSequenced (e ∷ es) = All (λ x. Earlier e.seq x.seq) es × IsSequenced es

All-seq :
    (p : OpenmaEvent × ℕ) (ps : List (OpenmaEvent × ℕ))
    → All (λ x. pair_le p x ≡ true) ps
    → All (λ x. Earlier p.0.seq x.seq) (map (λ q. q.0) ps)
unfolding pair_le
All-seq p [] a = tt
All-seq p (q ∷ ps) a = (seq_le_sound p.0.seq q.0.seq p.1 q.1 a.0, All-seq p ps a.1)

Sorted-IsSequenced :
    (ps : List (OpenmaEvent × ℕ)) → Sorted pair_le ps → IsSequenced (map (λ q. q.0) ps)
Sorted-IsSequenced [] s = tt
Sorted-IsSequenced (p ∷ ps) s = (All-seq p ps s.0, Sorted-IsSequenced ps s.1)

-- The ordered events are a permutation of the given ones, and each of them may stand before every
-- later one: sequenced events by their number and before all unsequenced events.
pub order_sorts :
    (es : List OpenmaEvent)
    → Perm (order_work_item_events es) es × IsSequenced (order_work_item_events es)
unfolding order_work_item_events
order_sorts es = (
  rw (map-indexed 0 es) at
      (Perm.map (λ (p : OpenmaEvent × ℕ). p.0) (sort-perm pair_le (indexed 0 es))),
  Sorted-IsSequenced (sort pair_le (indexed 0 es))
      (Sorted-sort pair_le pair_le_total pair_le_trans (indexed 0 es)),
)

-- Whether an event of the list has the id.
abbrev pub has_event : String → List OpenmaEvent → Bool
has_event k [] = false
has_event k (e ∷ es) = ite (String_discrete e.event_id k) true (has_event k es)

abbrev has_pair : String → List (OpenmaEvent × ℕ) → Bool
has_pair k [] = false
has_pair k (p ∷ ps) = ite (String_discrete p.0.event_id k) true (has_pair k ps)

has_pair-insert :
    (k : String) (p : OpenmaEvent × ℕ) (ps : List (OpenmaEvent × ℕ))
    → has_pair k (insert_sorted pair_le p ps) ≡ has_pair k (p ∷ ps)
unfolding insert_sorted
has_pair-insert k p [] = refl
has_pair-insert k p (q ∷ ps) = ground (arith, has_pair-insert k p ps)

has_pair-sort :
    (k : String) (ps : List (OpenmaEvent × ℕ)) → has_pair k (sort pair_le ps) ≡ has_pair k ps
unfolding sort
has_pair-sort k [] = refl
has_pair-sort k (p ∷ ps) = ground (arith, has_pair-insert k p (sort pair_le ps), has_pair-sort k ps)

has_event-map :
    (k : String) (ps : List (OpenmaEvent × ℕ)) → has_event k (map (λ p. p.0) ps) ≡ has_pair k ps
has_event-map k [] = refl
has_event-map k (p ∷ ps) = ground (arith, has_event-map k ps)

has_pair-indexed :
    (k : String) (i : ℕ) (es : List OpenmaEvent) → has_pair k (indexed i es) ≡ has_event k es
unfolding indexed
has_pair-indexed k i [] = refl
has_pair-indexed k i (e ∷ es) = ground (arith, has_pair-indexed k (suc i) es)

pub has_event-order :
    (k : String) (es : List OpenmaEvent) → has_event k (order_work_item_events es) ≡ has_event k es
unfolding order_work_item_events
has_event-order k es =
    has_event-map k (sort pair_le (indexed 0 es))
    ∙ has_pair-sort k (indexed 0 es)
    ∙ has_pair-indexed k 0 es
