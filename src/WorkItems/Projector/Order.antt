-- ===== src/WorkItems/Projector/Order.antt =====
-- src/session-events/openma.ts: the projector's test that an event arrives in order.
use openma_common.Common.{
  ℕ, ◌≤◌, Bool, true, false, ◌||◌, Option, none, some, List, [], ◌∷◌, ◌++◌, ◌≡◌, refl, ◌≢◌, arith,
  All, All-append,
}
use openma_common.WorkItems.{OpenmaEvent}
use openma_common.WorkItems.Registry.Order.{Earlier}
use openma_common.WorkItems.Projector.{in_order_after, max_after, is_unsequenced}

-- A sequence number is at most the largest.
abbrev pub AtMost : Option ℕ → Option ℕ → Type 0
AtMost none m = Unit {0}
AtMost (some a) none = ⊥
AtMost (some a) (some m) = a ≤ m

-- What the two notes say of the events received.
pub record IsNoted (max_seq : Option ℕ) (saw_unsequenced : Bool) (es : List OpenmaEvent)
    : Type 0 where
  pub bounded : All (λ e. AtMost e.seq max_seq) es
  pub sequenced : saw_unsequenced ≡ false → All (λ e. e.seq ≢ none) es

AtMost-max : (a s m : Option ℕ) → AtMost a m → AtMost a (max_after s m)
unfolding max_after
AtMost-max none s m h = tt
AtMost-max (some a) s none h = absurd h
AtMost-max (some a) none (some m) h = h
AtMost-max (some a) (some s) (some m) h = omega arith

AtMost-max_self : (s m : Option ℕ) → AtMost s (max_after s m)
unfolding max_after
AtMost-max_self none m = tt
AtMost-max_self (some s) none = omega arith
AtMost-max_self (some s) (some m) = omega arith

All-max :
    (s m : Option ℕ) (es : List OpenmaEvent)
    → All (λ e. AtMost e.seq m) es
    → All (λ e. AtMost e.seq (max_after s m)) es
All-max s m [] h = tt
All-max s m (e ∷ es) h = (AtMost-max e.seq s m h.0, All-max s m es h.1)

is_unsequenced-ne : (s : Option ℕ) → is_unsequenced s ≡ false → s ≢ none
unfolding is_unsequenced
is_unsequenced-ne s h = ground arith

pub IsNoted-append :
    (m : Option ℕ) (u : Bool) (es : List OpenmaEvent) (e : OpenmaEvent)
    → IsNoted m u es
    → IsNoted (max_after e.seq m) (u || is_unsequenced e.seq) (es ++ e ∷ [])
IsNoted-append m u es e h = record {
  bounded = All-append _ es (e ∷ []) (All-max e.seq m es h.bounded) (AtMost-max_self e.seq m, tt);
  sequenced = λ k.
      All-append _ es (e ∷ []) (h.sequenced (ground arith))
        (is_unsequenced-ne e.seq (ground arith), tt);
}

Earlier-unsequenced : (a : Option ℕ) → Earlier a none
Earlier-unsequenced none = tt
Earlier-unsequenced (some a) = tt

All-Earlier-unsequenced : (es : List OpenmaEvent) → All (λ x. Earlier x.seq none) es
All-Earlier-unsequenced [] = tt
All-Earlier-unsequenced (e ∷ es) = (Earlier-unsequenced e.seq, All-Earlier-unsequenced es)

Earlier-AtMost :
    (a m : Option ℕ) (s : ℕ) → AtMost a m → a ≢ none → AtMost m (some s) → Earlier a (some s)
Earlier-AtMost none m s h n k = n refl
Earlier-AtMost (some a) none s h n k = absurd h
Earlier-AtMost (some a) (some m) s h n k = omega arith

All-Earlier :
    (m : Option ℕ) (s : ℕ) (es : List OpenmaEvent)
    → All (λ e. AtMost e.seq m) es
    → All (λ e. e.seq ≢ none) es
    → AtMost m (some s)
    → All (λ x. Earlier x.seq (some s)) es
All-Earlier m s [] h n k = tt
All-Earlier m s (e ∷ es) h n k = (Earlier-AtMost e.seq m s h.0 n.0 k, All-Earlier m s es h.1 n.1 k)

-- An event that passes the test need stand before no event received.
pub in_order_after-Earlier :
    (s m : Option ℕ) (u : Bool) (es : List OpenmaEvent)
    → IsNoted m u es
    → in_order_after s u m ≡ true
    → All (λ x. Earlier x.seq s) es
unfolding in_order_after
in_order_after-Earlier none m u es h t = All-Earlier-unsequenced es
in_order_after-Earlier (some s) none u es h t =
    All-Earlier none s es h.bounded (h.sequenced (ground arith)) tt
in_order_after-Earlier (some s) (some m) u es h t =
    All-Earlier (some m) s es h.bounded (h.sequenced (ground arith)) (ground arith)
