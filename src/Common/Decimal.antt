-- ===== src/Common/Decimal.antt =====
-- Decimal numbers, as the C library's printing functions write them.
use Prim.Native.Nat.{ℕ, zero, suc, ◌+◌, ◌*◌, ◌/◌, ◌%◌, ◌^◌, ◌≤◌, ◌<◌}
use mathlib.Core.Path.{◌≡◌}
use mathlib.Core.Bool.{true, false}
use mathlib.Core.List.{[], ◌∷◌}
use mathlib.Core.Logic.{inl, inr}
use native.Mathlib.Omega.{arith}
use lspider.Common.Tests.{◌==◌, Bool-cases}
use lspider.Common.Lists.{length, All}
use lspider.Common.Text.{Bytes}

-- The digits of `n` before `out`. More rounds than `n` are enough.
unfoldable pub decimal_from : ℕ → ℕ → Bytes → Bytes
decimal_from zero n out = out
decimal_from (suc fuel) n out = elim (n / 10 == 0) [
  | true ↦ (48 + n % 10) ∷ out
  | false ↦ decimal_from fuel (n / 10) ((48 + n % 10) ∷ out)
]

unfoldable pub decimal : ℕ → Bytes
decimal n = decimal_from (suc n) n []

power_suc : (j : ℕ) → 10 ^ suc j ≡ 10 * 10 ^ j
power_suc j = omega arith

tenth_below : (n j : ℕ) → n < 10 ^ suc j → n / 10 < 10 ^ j
tenth_below n j h = omega (arith, power_suc j)

module _ (n : ℕ) where
  tenth_ne_zero : (n / 10 == 0) ≡ false → 10 ≤ n
  tenth_ne_zero e = ground arith

decimal_from-length :
    (fuel n j : ℕ) (out : Bytes)
    → n < 10 ^ suc j
    → length (decimal_from fuel n out) ≤ suc j + length out
unfolding decimal_from
decimal_from-length zero n j out h = omega arith
decimal_from-length (suc fuel) n zero out h = elim (Bool-cases (n / 10 == 0)) [
  | inl e ↦ ground (arith, e)
  | inr e ↦ absurd (omega (arith, tenth_ne_zero n e, power_suc 0))
]
decimal_from-length (suc fuel) n (suc j) out h = elim (Bool-cases (n / 10 == 0)) [
  | inl e ↦ ground (arith, e)
  | inr e ↦ ground (
    arith,
    e,
    decimal_from-length fuel (n / 10) j ((48 + n % 10) ∷ out) (tenth_below n (suc j) h),
  )
]

pub length-decimal : (n j : ℕ) → n < 10 ^ suc j → length (decimal n) ≤ suc j
unfolding decimal
length-decimal n j h = omega (arith, decimal_from-length (suc n) n j [] h)

-- A byte that is a digit.
abbrev pub Digit : ℕ → Type 0
Digit c = (48 ≤ c) × (c ≤ 57)

last_Digit : (n : ℕ) → Digit (48 + n % 10)
last_Digit n = (omega arith, omega arith)

decimal_from-All : (fuel n : ℕ) (out : Bytes) → All Digit out → All Digit (decimal_from fuel n out)
unfolding decimal_from
decimal_from-All zero n out h = h
decimal_from-All (suc fuel) n out h = elim (Bool-cases (n / 10 == 0)) [
  | inl e ↦ rw (e, All) (last_Digit n, h)
  | inr e ↦ rw (e, All) (decimal_from-All fuel (n / 10) ((48 + n % 10) ∷ out) (last_Digit n, h))
]

pub decimal-Digit : (n : ℕ) → All Digit (decimal n)
unfolding decimal
decimal-Digit n = decimal_from-All (suc n) n [] tt
