-- ===== src/Common/Decimal.antt =====
-- A natural number as JavaScript prints it, by its decimal digits, and the number that digits stand for.
use Prim.Native.Nat.{ℕ, zero, suc, ◌+◌, ◌-◌, ◌*◌, ◌/◌, ◌%◌, ◌<◌}
use mathlib.Core.Path.{◌≡◌, sym, ap, ◌∙◌}
use mathlib.Core.List.{[], ◌∷◌}
use native.Mathlib.Omega.{arith}
use openma_common.Common.Tests.{ltb, if◌then◌else◌}
use openma_common.Common.Units.{Units}

-- The digits of a number below ten to the rounds, in front of others.
digits : ℕ → ℕ → Units → Units
digits zero n out = out
digits (suc rounds) n out =
    let rest = digits rounds (n / 10) ((48 + n % 10) ∷ out) in
    if ltb n 10 then (48 + n) ∷ out else rest

-- `${n}`: a number has fewer digits than its successor has units.
unfoldable pub decimal : ℕ → Units
unfolding digits
decimal n = digits (suc n) n []

value : Units → ℕ → ℕ
value [] n = n
value (c ∷ s) n = value s (n * 10 + (c - 48))

value-digits :
    (rounds n : ℕ) (out : Units) → n < rounds → value (digits rounds n out) 0 ≡ value out n
unfolding value digits
value-digits zero n out h = elim h [ ]
value-digits (suc rounds) n out h =
    ground (arith, value-digits rounds (n / 10) ((48 + n % 10) ∷ out))

-- Numbers with the same digits are equal.
pub decimal-injective : (m n : ℕ) → decimal m ≡ decimal n → m ≡ n
unfolding decimal value
decimal-injective m n e =
    sym (value-digits (suc m) m [] (omega arith))
    ∙ ap (λ s. value s 0) e
    ∙ value-digits (suc n) n [] (omega arith)
