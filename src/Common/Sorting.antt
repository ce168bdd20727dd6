-- ===== src/Common/Sorting.antt =====
-- Array.prototype.sort: a stable sort by a comparator, given as the test that its answer for the left
-- and the right element is not positive.
use mathlib.Core.Path.{◌≡◌, refl}
use mathlib.Core.Logic.{inl, inr}
use mathlib.Core.Bool.{Bool, true, false, ◌&&◌}
use mathlib.Core.List.{List, [], ◌∷◌, ◌++◌, Perm}
use mathlib.Core.List.Perm
use native.Mathlib.Omega.{arith}
use openma_common.Common.Tests.{if◌then◌else◌, Bool-cases}
use openma_common.Common.Lists.{All}

module _ {ℓ} {A : Type ℓ} (le : A → A → Bool) where
  -- An element passes only those that must stand before it.
  unfoldable pub insert_sorted : A → List A → List A
  insert_sorted e [] = e ∷ []
  insert_sorted e (x ∷ q) = if le e x then e ∷ x ∷ q else x ∷ insert_sorted e q

  unfoldable pub sort : List A → List A
  unfolding insert_sorted
  sort [] = []
  sort (e ∷ q) = insert_sorted e (sort q)

  insert_sorted-perm : (e : A) (q : List A) → Perm (insert_sorted e q) (e ∷ q)
  unfolding insert_sorted
  insert_sorted-perm e [] = Perm.refl (e ∷ [])
  insert_sorted-perm e (x ∷ q) = elim (Bool-cases (le e x)) [
    | inl stop ↦ rw stop (Perm.refl (e ∷ x ∷ q))
    | inr pass ↦ rw pass (Perm.trans (Perm.cons x (insert_sorted-perm e q)) (Perm.swap e x q))
  ]

  pub sort-perm : (q : List A) → Perm (sort q) q
  unfolding sort
  sort-perm [] = Perm.refl []
  sort-perm (e ∷ q) = Perm.trans (insert_sorted-perm e (sort q)) (Perm.cons e (sort-perm q))

  abbrev pub Sorted : List A → Type 0
  Sorted [] = Unit {0}
  Sorted (e ∷ q) = All (λ x. le e x ≡ true) q × Sorted q

  -- The elements that the comparator does not tell from `k`, in their order.
  abbrev pub alike : A → List A → List A
  alike k [] = []
  alike k (x ∷ q) = if le k x && le x k then x ∷ alike k q else alike k q

  insert_sorted-last :
      (x e : A) (q : List A)
      → le x e ≡ true
      → insert_sorted x (q ++ e ∷ []) ≡ insert_sorted x q ++ e ∷ []
  unfolding insert_sorted
  insert_sorted-last x e [] h = ground arith
  insert_sorted-last x e (y ∷ q) h = ground (arith, insert_sorted-last x e q h)

  -- An element that no other must follow is sorted to the end.
  pub sort-last :
      (q : List A) (e : A) → All (λ x. le x e ≡ true) q → sort (q ++ e ∷ []) ≡ sort q ++ e ∷ []
  unfolding sort
  sort-last [] e a = refl
  sort-last (x ∷ q) e a = rw (sort-last q e a.1) (insert_sorted-last x e (sort q) a.0)

  -- What a sort needs of its comparator.
  module _ (total : (e x : A) → le e x ≡ false → le x e ≡ true)
      (trans : (e x y : A) → le e x ≡ true → le x y ≡ true → le e y ≡ true) where
    All-insert :
        (e x : A) (q : List A)
        → le x e ≡ true
        → All (λ y. le x y ≡ true) q
        → All (λ y. le x y ≡ true) (insert_sorted e q)
    unfolding insert_sorted
    All-insert e x [] h a = (h, tt)
    All-insert e x (y ∷ q) h a = ground (arith, All-insert e x q)

    All-trans :
        (e x : A) (q : List A)
        → le e x ≡ true
        → All (λ y. le x y ≡ true) q
        → All (λ y. le e y ≡ true) q
    All-trans e x [] h a = tt
    All-trans e x (y ∷ q) h a = (trans e x y h a.0, All-trans e x q h a.1)

    Sorted-insert : (e : A) (q : List A) → Sorted q → Sorted (insert_sorted e q)
    unfolding insert_sorted
    Sorted-insert e [] s = (tt, tt)
    Sorted-insert e (x ∷ q) s = elim (Bool-cases (le e x)) [
      | inl stop ↦ rw stop ((stop, All-trans e x q stop s.0), s)
      | inr pass ↦ rw pass (All-insert e x q (total e x pass) s.0, Sorted-insert e q s.1)
    ]

    pub Sorted-sort : (q : List A) → Sorted (sort q)
    unfolding sort
    Sorted-sort [] = tt
    Sorted-sort (e ∷ q) = Sorted-insert e (sort q) (Sorted-sort q)

    alike-insert : (k e : A) (q : List A) → alike k (insert_sorted e q) ≡ alike k (e ∷ q)
    unfolding insert_sorted
    alike-insert k e [] = refl
    alike-insert k e (x ∷ q) = ground (arith, alike-insert k e q, trans e k x)

    pub alike-sort : (k : A) (q : List A) → alike k (sort q) ≡ alike k q
    unfolding sort
    alike-sort k [] = refl
    alike-sort k (e ∷ q) = ground (arith, alike-insert k e (sort q), alike-sort k q)
