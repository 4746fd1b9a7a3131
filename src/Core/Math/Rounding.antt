-- ===== src/Core/Math/Rounding.antt =====
-- What the functions of libraries/Core/include/core/math.h return.
use cro_cos.Base.{
  ℕ, zero, suc, ◌+◌, ◌-◌, ◌*◌, ◌/◌, ◌%◌, ◌^◌, ◌≤◌, ◌<◌, ◌≡◌, ap, arith, inl, inr, ==_cases,
  ==_of_eq, ==_of_ne,
}
use native.Mathlib.Nat.{div-add-mod', mod-lt, div-mul-le_self, lt-div-mul-add}
use cro_cos.Core.Math.{
  divide_and_round_up, divide_and_round_down, round_up_to_nearest_multiple,
  round_down_to_nearest_multiple, gcd, gcd_loop,
}

-- A quotient rounded up is the least whose product reaches the number.
round_up_lem :
    (n d : ℕ)
    → 0 < d
    → n + d < 2 ^ 64
    → (n ≤ divide_and_round_up n d * d) × (divide_and_round_up n d * d < n + d)
unfolding divide_and_round_up
round_up_lem n d pos small =
    let less : (d + 2 ^ 64 - 1) % 2 ^ 64 ≡ d - 1 = omega arith in
    let sum : (n + (d - 1)) % 2 ^ 64 ≡ n + (d - 1) = omega arith in
    let most : (n + (d - 1)) / d * d ≤ n + (d - 1) = div-mul-le_self (n + (d - 1)) d in
    let least : n + (d - 1) < (n + (d - 1)) / d * d + d = lt-div-mul-add pos in
    rw (less, sum) (omega arith, omega arith)

-- Rounding up to a multiple gives the first one that is not below the number, and rounding down the
-- last that is not above it.
pub round_to_nearest_multiple :
    (n d : ℕ)
    → 0 < d
    → n + d < 2 ^ 64
    → (n ≤ round_up_to_nearest_multiple n d)
      × (round_up_to_nearest_multiple n d < n + d)
      × (round_up_to_nearest_multiple n d ≡ divide_and_round_up n d * d)
      × (round_down_to_nearest_multiple n d ≤ n)
      × (n < round_down_to_nearest_multiple n d + d)
      × (round_down_to_nearest_multiple n d ≡ n / d * d)
unfolding round_up_to_nearest_multiple round_down_to_nearest_multiple divide_and_round_down
round_to_nearest_multiple n d pos small =
    let (low, high) = round_up_lem n d pos small in
    let same : divide_and_round_up n d * d % 2 ^ 64 ≡ divide_and_round_up n d * d = omega arith in
    let below : n / d * d ≤ n = div-mul-le_self n d in
    let above : n < n / d * d + d = lt-div-mul-add pos in
    (omega arith, omega arith, same, omega arith, omega arith, omega arith)

-- One number divides another.
abbrev pub Divides : ℕ → ℕ → Type 0
Divides g a = (q : ℕ) × (a ≡ q * g)

gcd_loop-Divides :
    (fuel a b : ℕ) → b < fuel → Divides (gcd_loop fuel a b) a × Divides (gcd_loop fuel a b) b
unfolding gcd_loop
gcd_loop-Divides zero a b lt = absurd (omega arith)
gcd_loop-Divides (suc fuel) a b lt = elim (==_cases b 0) [
  | inl e ↦ rw (==_of_eq b 0 e) ((1, omega arith), (0, omega arith))
  | inr ne ↦
      let ((q, b_is), (r, rest_is)) =
        gcd_loop-Divides fuel b (a % b) (omega (arith, mod-lt a {m = b} (omega (arith, ne)))) in
      let g : ℕ = gcd_loop fuel b (a % b) in
      let whole : a / b * b + a % b ≡ a = div-add-mod' a b in
      let step : a / b * b ≡ a / b * (q * g) = ap (λ x. a / b * x) b_is in
      rw (==_of_ne b 0 ne) ((a / b * q + r, omega (arith, whole, step, rest_is)), (q, b_is))
]

-- `gcd` divides both of its arguments.
pub gcd-Divides : (a b : ℕ) → Divides (gcd a b) a × Divides (gcd a b) b
unfolding gcd
gcd-Divides a b = gcd_loop-Divides (suc b) a b (omega arith)
