-- ===== src/Common/Maps.antt =====
-- JavaScript's Map and Set over texts: entries in the order of first insertion.
use Prim.Native.String.{String}
use mathlib.Core.Path.{◌≡◌, refl, sym, ◌∙◌}
use mathlib.Core.Logic.{ite, ◌≢◌, if_pos, if_neg}
use mathlib.Core.Bool.{Bool, true, false}
use mathlib.Core.Option.{Option, none, some}
use mathlib.Core.List.{List, [], ◌∷◌}
use native.Mathlib.Omega.{arith}
use openma_common.Common.Texts.{String_discrete}
use openma_common.Common.Tests.{if◌then◌else◌}

module _ {ℓ} {V : Type ℓ} where
  -- m.get(k)
  unfoldable pub get : String → List (String × V) → Option V
  get k [] = none
  get k ((j, v) ∷ m) = ite (String_discrete j k) (some v) (get k m)

  -- m.set(k, v): an entry that is there keeps its place.
  unfoldable pub set : String → V → List (String × V) → List (String × V)
  set k v [] = (k, v) ∷ []
  set k v ((j, w) ∷ m) = ite (String_discrete j k) ((j, v) ∷ m) ((j, w) ∷ set k v m)

  -- m.delete(k)
  unfoldable pub delete : String → List (String × V) → List (String × V)
  delete k [] = []
  delete k ((j, w) ∷ m) = ite (String_discrete j k) m ((j, w) ∷ delete k m)

  pub get-set :
      (k j : String) (v : V) (m : List (String × V))
      → get j (set k v m) ≡ ite (String_discrete k j) (some v) (get j m)
  unfolding get set
  get-set k j v [] = refl
  get-set k j v ((i, w) ∷ m) = ground (arith, get-set k j v m)

module _ {ℓ} {V : Type ℓ} where
  pub get_first : (k : String) (v : V) (m : List (String × V)) → get k ((k, v) ∷ m) ≡ some v
  unfolding get
  get_first k v m = ground arith

  pub delete_first : (k : String) (v : V) (m : List (String × V)) → delete k ((k, v) ∷ m) ≡ m
  unfolding delete
  delete_first k v m = ground arith

  pub get-delete_ne : (k j : String) (m : List (String × V)) → k ≢ j → get j (delete k m) ≡ get j m
  unfolding get delete
  get-delete_ne k j [] n = refl
  get-delete_ne k j ((i, w) ∷ m) n = ground (arith, get-delete_ne k j m n)

  pub set-get_self : (k : String) (v : V) (m : List (String × V)) → get k m ≡ some v → set k v m ≡ m
  unfolding get set
  set-get_self k v [] h = cc
  set-get_self k v ((i, w) ∷ m) h = ground (arith, set-get_self k v m)

-- s.has(k)
unfoldable pub has : String → List String → Bool
has k [] = false
has k (j ∷ s) = ite (String_discrete j k) true (has k s)

-- s.add(k)
unfoldable pub add : String → List String → List String
add k [] = k ∷ []
add k (j ∷ s) = ite (String_discrete j k) (j ∷ s) (j ∷ add k s)

-- s.delete(k)
unfoldable pub remove : String → List String → List String
remove k [] = []
remove k (j ∷ s) = ite (String_discrete j k) s (j ∷ remove k s)

pub has-add :
    (k j : String) (s : List String) → has j (add k s) ≡ ite (String_discrete k j) true (has j s)
unfolding has add
has-add k j [] = refl
has-add k j (i ∷ s) = ground (arith, has-add k j s)

-- new Set of the texts, added to a set: each of them is there, and what was there stays.
unfoldable pub add_all : List String → List String → List String
unfolding add
add_all [] s = s
add_all (k ∷ ks) s = add_all ks (add k s)

pub has-add_all :
    (ks : List String) (j : String) (s : List String)
    → has j (add_all ks s) ≡ (if has j s then true else has j ks)
unfolding add_all has
has-add_all [] j s = ground arith
has-add_all (k ∷ ks) j s = ground (arith, has-add_all ks j (add k s), has-add k j s)

-- The keys of a map are distinct, as they are in every map that `set` and `delete` build.
module _ {ℓ} {V : Type ℓ} where
  unfoldable pub UniqueKeys : List (String × V) → Type ℓ
  UniqueKeys [] = Unit
  UniqueKeys ((k, v) ∷ m) = (get k m ≡ none) × UniqueKeys m

  pub get-delete_self :
      (k : String) (m : List (String × V)) → UniqueKeys m → get k (delete k m) ≡ none
  unfolding UniqueKeys get delete
  get-delete_self k [] u = refl
  get-delete_self k ((j, v) ∷ m) u = ground (arith, get-delete_self k m u.1, u.0)

  pub set-UniqueKeys :
      (k : String) (v : V) (m : List (String × V)) → UniqueKeys m → UniqueKeys (set k v m)
  unfolding UniqueKeys get set
  set-UniqueKeys k v [] u = (refl, tt)
  set-UniqueKeys k v ((j, w) ∷ m) u = elim (String_discrete j k) [
    | yes same ↦ rw (if_pos (String_discrete j k) same) u
    | no other ↦
        rw (if_neg (String_discrete j k) other)
          (ground (arith, get-set k j v m, u.0), set-UniqueKeys k v m u.1)
  ]

  pub delete-UniqueKeys :
      (k : String) (m : List (String × V)) → UniqueKeys m → UniqueKeys (delete k m)
  unfolding UniqueKeys get delete
  delete-UniqueKeys k [] u = tt
  delete-UniqueKeys k ((j, w) ∷ m) u = elim (String_discrete j k) [
    | yes same ↦ rw (if_pos (String_discrete j k) same) u.1
    | no other ↦
        rw (if_neg (String_discrete j k) other)
          (get-delete_ne k j m (λ p. other (sym p)) ∙ u.0, delete-UniqueKeys k m u.1)
  ]

pub has-remove_ne : (k j : String) (s : List String) → k ≢ j → has j (remove k s) ≡ has j s
unfolding has remove
has-remove_ne k j [] n = refl
has-remove_ne k j (i ∷ s) n = ground (arith, has-remove_ne k j s n)
