-- ===== src/SessionOrchestrator/Reorder.antt =====
-- src/session-orchestrator/index.ts: `reorderQueue` sorts the queue by the given ids, stably.
use mathlib.Core.Option
use mathlib.Core.List.{Perm}
use openma_common.Common.{
  ℕ, suc, ◌+◌, ◌≤◌, String, Bool, true, false, Option, none, some, List, [], ◌∷◌, ◌≡◌, refl, ite,
  arith, All, String_discrete, ap, fun_ext,
}
use openma_common.Common.Maps.{get, set, get-set}
use openma_common.SessionOrchestrator.{
  QueuedSessionTurn, SessionOrchestrator, order_from, precedes, in_order, reorder_queue,
}
use openma_common.Common.Sorting.{Sorted, alike, sort-perm, Sorted-sort, alike-sort}

-- The place of an id in a list, at its first occurrence.
abbrev pub index_of : String → List String → Option ℕ
index_of t [] = none
index_of t (x ∷ xs) = ite (String_discrete x t) (some 0) (Option.map suc (index_of t xs))

-- The order map gives the first place of an id.
order_from-get :
    (t : String) (i : ℕ) (ts : List String) (m : List (String × ℕ))
    → get t (order_from i ts m)
      ≡ elim (get t m) [ some j ↦ some j | none ↦ Option.map (λ n. n + i) (index_of t ts) ]
unfolding order_from
order_from-get t i [] m = ground arith
order_from-get t i (x ∷ ts) m =
    ground (
      arith,
      order_from-get t (suc i) ts m,
      order_from-get t (suc i) ts (set x i m),
      get-set x t i m,
    )

-- Listed ids come first, in the order of the list; the others follow by their time.
abbrev pub RankLe : Option ℕ → Option ℕ → ℕ → ℕ → Type 0
RankLe none none a b = a ≤ b
RankLe none (some j) a b = ⊥
RankLe (some i) none a b = Unit {0}
RankLe (some i) (some j) a b = i ≤ j

precedes-RankLe : (i j : Option ℕ) (a b : ℕ) → precedes i j a b ≡ true → RankLe i j a b
unfolding precedes
precedes-RankLe none none a b h = ground arith
precedes-RankLe none (some j) a b h = ground arith
precedes-RankLe (some i) none a b h = tt
precedes-RankLe (some i) (some j) a b h = ground arith

precedes_total : (i j : Option ℕ) (a b : ℕ) → precedes i j a b ≡ false → precedes j i b a ≡ true
unfolding precedes
precedes_total none none a b h = ground arith
precedes_total none (some j) a b h = ground arith
precedes_total (some i) none a b h = ground arith
precedes_total (some i) (some j) a b h = ground arith

precedes_trans :
    (i j k : Option ℕ) (a b c : ℕ)
    → precedes i j a b ≡ true
    → precedes j k b c ≡ true
    → precedes i k a c ≡ true
unfolding precedes
precedes_trans none none none a b c h g = ground arith
precedes_trans (some i) (some j) (some k) a b c h g = ground arith
precedes_trans none none (some k) a b c h g = ground arith
precedes_trans none (some j) k a b c h g = ground arith
precedes_trans (some i) none none a b c h g = ground arith
precedes_trans (some i) none (some k) a b c h g = ground arith
precedes_trans (some i) (some j) none a b c h g = ground arith

module _ {ℓ} {T : Type ℓ} where
  -- Whether `e` may stand in front of `x` when the queue is put in the order of `ts`.
  abbrev pub MayPrecede : List String → QueuedSessionTurn T → QueuedSessionTurn T → Type 0
  MayPrecede ts e x =
      RankLe (index_of e.turn_id ts) (index_of x.turn_id ts) e.created_at x.created_at

  abbrev pub IsOrdered : List String → List (QueuedSessionTurn T) → Type 0
  IsOrdered ts [] = Unit {0}
  IsOrdered ts (e ∷ q) = All (MayPrecede ts e) q × IsOrdered ts q

map-add-zero : (o : Option ℕ) → Option.map (λ n. n + 0) o ≡ o
map-add-zero none = refl
map-add-zero (some n) = ap some (omega arith)

module _ {ℓ} {T : Type ℓ} where
  -- The comparator, by the places in the list.
  abbrev pub rank_le : List String → QueuedSessionTurn T → QueuedSessionTurn T → Bool
  rank_le ts e x =
      precedes (index_of e.turn_id ts) (index_of x.turn_id ts) e.created_at x.created_at

  in_order-rank_le : (ts : List String) → in_order {T = T} (order_from 0 ts []) ≡ rank_le ts
  unfolding in_order get
  in_order-rank_le ts = fun_ext (λ e. fun_ext (λ x.
      rw (order_from-get e.turn_id 0 ts [], order_from-get x.turn_id 0 ts [])
        (rw (map-add-zero (index_of e.turn_id ts), map-add-zero (index_of x.turn_id ts)))))

  All-RankLe :
      (ts : List String) (e : QueuedSessionTurn T) (q : List (QueuedSessionTurn T))
      → All (λ x. rank_le ts e x ≡ true) q
      → All (MayPrecede ts e) q
  All-RankLe ts e [] a = tt
  All-RankLe ts e (x ∷ q) a =
      (precedes-RankLe (index_of e.turn_id ts) _ _ _ a.0, All-RankLe ts e q a.1)

  Sorted-IsOrdered :
      (ts : List String) (q : List (QueuedSessionTurn T)) → Sorted (rank_le ts) q → IsOrdered ts q
  Sorted-IsOrdered ts [] s = tt
  Sorted-IsOrdered ts (e ∷ q) s = (All-RankLe ts e q s.0, Sorted-IsOrdered ts q s.1)

  rank_total :
      (ts : List String) (e x : QueuedSessionTurn T)
      → rank_le ts e x ≡ false
      → rank_le ts x e ≡ true
  rank_total ts e x = precedes_total (index_of e.turn_id ts) (index_of x.turn_id ts) _ _

  rank_trans :
      (ts : List String) (e x y : QueuedSessionTurn T)
      → rank_le ts e x ≡ true
      → rank_le ts x y ≡ true
      → rank_le ts e y ≡ true
  rank_trans ts e x y =
      precedes_trans (index_of e.turn_id ts) (index_of x.turn_id ts) (index_of y.turn_id ts) _ _ _

  -- Reordering permutes the queue; in the result every entry may precede each later one, which
  -- means that listed ids stand in the order of their first place in the list, before all others,
  -- and the others by their time; and the entries that tie with any given one keep their order.
  pub reorder_sorts :
      (s : SessionOrchestrator T) (ts : List String) (k : QueuedSessionTurn T)
      → let q = (reorder_queue s ts).queued in
        Perm q s.queued × IsOrdered ts q × (alike (rank_le ts) k q ≡ alike (rank_le ts) k s.queued)
  unfolding reorder_queue
  reorder_sorts s ts k = rw (in_order-rank_le ts) (
    sort-perm (rank_le ts) s.queued,
    Sorted-IsOrdered ts _ (Sorted-sort (rank_le ts) (rank_total ts) (rank_trans ts) s.queued),
    alike-sort (rank_le ts) (rank_total ts) (rank_trans ts) k s.queued,
  )
