-- ===== src/Common/Keys.antt =====
-- The keys of a map, in the order of their first insertion.
use Prim.Native.String.{String}
use mathlib.Core.Path.{◌≡◌, refl}
use mathlib.Core.Bool.{true, false}
use mathlib.Core.Option.{none, some}
use mathlib.Core.List.{List, [], ◌∷◌, ◌++◌}
use native.Mathlib.Omega.{arith}
use openma_common.Common.Maps.{get, set, has, add}

module _ {ℓ} {V : Type ℓ} where
  unfoldable pub keys : List (String × V) → List String
  keys [] = []
  keys ((k, v) ∷ m) = k ∷ keys m

  pub keys-set : (k : String) (v : V) (m : List (String × V)) → keys (set k v m) ≡ add k (keys m)
  unfolding keys set add
  keys-set k v [] = refl
  keys-set k v ((j, w) ∷ m) = ground (arith, keys-set k v m)

  -- A key that is there stays where it is, and one that is not goes to the end.
  pub add-keys :
      (k : String) (v : V) (m : List (String × V)) → get k m ≡ some v → add k (keys m) ≡ keys m
  unfolding keys get add
  add-keys k v [] h = ground arith
  add-keys k v ((j, w) ∷ m) h = ground (arith, add-keys k v m)

  pub add-keys_new :
      (k : String) (m : List (String × V)) → get k m ≡ none → add k (keys m) ≡ keys m ++ k ∷ []
  unfolding keys get add
  add-keys_new k [] h = refl
  add-keys_new k ((j, w) ∷ m) h = ground (arith, add-keys_new k m)

  pub has-keys :
      (k : String) (v : V) (m : List (String × V)) → get k m ≡ some v → has k (keys m) ≡ true
  unfolding keys get has
  has-keys k v [] h = ground arith
  has-keys k v ((j, w) ∷ m) h = ground (arith, has-keys k v m)

  -- order.filter((other) => other !== id), by recursion, and the keys without a deleted one.
  pub keys_absent : (k : String) (m : List (String × V)) → get k m ≡ none → has k (keys m) ≡ false
  unfolding keys get has
  keys_absent k [] h = refl
  keys_absent k ((j, w) ∷ m) h = ground (arith, keys_absent k m)
