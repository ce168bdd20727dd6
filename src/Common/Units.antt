-- ===== src/Common/Units.antt =====
-- Texts as lists of UTF-16 code units, where the code measures them or takes them apart.
use Prim.Native.Nat.{ℕ, zero, suc, ◌+◌, ◌-◌, min}
use Prim.Native.Char.{code}
use Prim.Native.String.{String}
use mathlib.Core.Path.{◌≡◌, refl, ap}
use mathlib.Core.Bool.{Bool, true, false, ◌&&◌, ◌||◌}
use mathlib.Core.List.{List, [], ◌∷◌, ◌++◌}
use native.Mathlib.Omega.{arith}
use openma_common.Common.Tests.{leb, ◌==◌, if◌then◌else◌}
use openma_common.Common.Lists.{length, length-append}

abbrev pub Units : Type 0
Units = List ℕ

-- The units of a literal, whose characters are all in the basic plane.
abbrev pub codes : String → Units
codes String.[] = []
codes (String.◌∷◌ c s) = code c ∷ codes s

abbrev pub is_nil {ℓ} : {A : Type ℓ} → List A → Bool
is_nil [] = true
is_nil (x ∷ xs) = false

module _ {ℓ} {A : Type ℓ} where
  abbrev pub take : ℕ → List A → List A
  take zero xs = []
  take (suc n) [] = []
  take (suc n) (x ∷ xs) = x ∷ take n xs

  abbrev pub drop : ℕ → List A → List A
  drop zero xs = xs
  drop (suc n) [] = []
  drop (suc n) (x ∷ xs) = drop n xs

  pub length-take : (n : ℕ) (xs : List A) → length (take n xs) ≡ min n (length xs)
  length-take zero xs = omega arith
  length-take (suc n) [] = omega arith
  length-take (suc n) (x ∷ xs) = omega (arith, length-take n xs)

  pub length-drop : (n : ℕ) (xs : List A) → length (drop n xs) ≡ length xs - n
  length-drop zero xs = omega arith
  length-drop (suc n) [] = omega arith
  length-drop (suc n) (x ∷ xs) = omega (arith, length-drop n xs)

-- White space and line terminators of ECMAScript.
unfoldable pub is_space : ℕ → Bool
is_space c =
    (leb 9 c && leb c 13)
    || (c == 32)
    || (c == 160)
    || (c == 5760)
    || (leb 8192 c && leb c 8202)
    || (c == 8232)
    || (c == 8233)
    || (c == 8239)
    || (c == 8287)
    || (c == 12288)
    || (c == 65279)

unfoldable pub trim_start : Units → Units
trim_start [] = []
trim_start (c ∷ s) = let rest = trim_start s in if is_space c then rest else c ∷ s

unfoldable pub trim_end : Units → Units
trim_end [] = []
trim_end (c ∷ s) = let rest = trim_end s in if is_space c && is_nil rest then [] else c ∷ rest

-- s.trim()
unfoldable pub trim : Units → Units
unfolding trim_start trim_end is_space
trim s = trim_end (trim_start s)

abbrev pub newline : ℕ
newline = 10

-- texts.join("\n")
abbrev pub join : List Units → Units
join [] = []
join (x ∷ []) = x
join (x ∷ y ∷ ys) = x ++ newline ∷ join (y ∷ ys)

pub length-join :
    (x y : Units) (ys : List Units)
    → length (join (x ∷ y ∷ ys)) ≡ length x + suc (length (join (y ∷ ys)))
length-join x y ys = length-append x (newline ∷ join (y ∷ ys))

-- Whether a text begins, and whether it ends, with another.
unfoldable pub starts_with : Units → Units → Bool
starts_with s [] = true
starts_with [] (p ∷ ps) = false
starts_with (c ∷ s) (p ∷ ps) = let rest = starts_with s ps in if c == p then rest else false

-- Whether two texts are equal.
unfoldable pub same : Units → Units → Bool
same [] [] = true
same [] (d ∷ t) = false
same (c ∷ s) [] = false
same (c ∷ s) (d ∷ t) = let rest = same s t in if c == d then rest else false

unfoldable pub ends_with : Units → Units → Bool
unfolding same
ends_with s p = if leb (length p) (length s) then same (drop (length s - length p) s) p else false

pub take-drop : (n : ℕ) (s : Units) → take n s ++ drop n s ≡ s
take-drop zero s = refl
take-drop (suc n) [] = refl
take-drop (suc n) (c ∷ s) = ap (λ t. c ∷ t) (take-drop n s)

-- Equal texts, and a text with the start and the end that it is found to have.
pub same-eq : (s t : Units) → same s t ≡ true → s ≡ t
unfolding same
same-eq [] [] h = refl
same-eq [] (d ∷ t) h = ground arith
same-eq (c ∷ s) [] h = ground arith
same-eq (c ∷ s) (d ∷ t) h = ground (arith, same-eq s t)

same_self : (s : Units) → same s s ≡ true
unfolding same
same_self [] = refl
same_self (c ∷ s) = ground (arith, same_self s)

pub starts_with-eq : (s p : Units) → starts_with s p ≡ true → p ++ drop (length p) s ≡ s
unfolding starts_with
starts_with-eq s [] h = refl
starts_with-eq [] (c ∷ p) h = ground arith
starts_with-eq (d ∷ s) (c ∷ p) h = ground (arith, starts_with-eq s p)

pub ends_with-eq : (s p : Units) → ends_with s p ≡ true → take (length s - length p) s ++ p ≡ s
unfolding ends_with
ends_with-eq s p h =
    ground (arith, take-drop (length s - length p) s, same-eq (drop (length s - length p) s) p)

pub starts_with-append : (p rest : Units) → starts_with (p ++ rest) p ≡ true
unfolding starts_with
starts_with-append [] rest = refl
starts_with-append (c ∷ p) rest = ground (arith, starts_with-append p rest)

pub drop-append : (p rest : Units) → drop (length p) (p ++ rest) ≡ rest
drop-append [] rest = refl
drop-append (c ∷ p) rest = drop-append p rest
