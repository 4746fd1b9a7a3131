-- ===== src/Core/Math.antt =====
-- libraries/Core/include/core/math.h: the rounding and divisor functions, on `size_t`.
pub mod Rounding
use cro_cos.Base.{
  ℕ, zero, suc, ◌+◌, ◌-◌, ◌*◌, ◌/◌, ◌%◌, ◌^◌, ◌≤◌, ◌<◌, ◌≡◌, Bool, true, false, ltb, leb, ◌==◌,
  if◌then◌else◌,
}

unfoldable pub divide_and_round_up : ℕ → ℕ → ℕ
divide_and_round_up numerator denominator =
    (numerator + (denominator + 2 ^ 64 - 1) % 2 ^ 64) % 2 ^ 64 / denominator

unfoldable pub divide_and_round_down : ℕ → ℕ → ℕ
divide_and_round_down numerator denominator = numerator / denominator

unfoldable pub round_up_to_nearest_multiple : ℕ → ℕ → ℕ
unfolding divide_and_round_up
round_up_to_nearest_multiple to_round divisor =
    divide_and_round_up to_round divisor * divisor % 2 ^ 64

unfoldable pub round_down_to_nearest_multiple : ℕ → ℕ → ℕ
unfolding divide_and_round_down
round_down_to_nearest_multiple to_round divisor =
    divide_and_round_down to_round divisor * divisor % 2 ^ 64

-- The loop of `largestPowerOf2Dividing`, on the 64 bits of the value.
unfoldable pub power_loop : ℕ → ℕ → ℕ → ℕ
power_loop zero value result = result
power_loop (suc fuel) value result =
    let rest = power_loop fuel (value / 2) (result * 2 % 2 ^ 64) in
    if value % 2 == 0 then rest else result

unfoldable pub largest_power_of_2_dividing : ℕ → ℕ
unfolding power_loop
largest_power_of_2_dividing value = if value == 0 then 0 else power_loop 64 value 1

-- `gcd`, on fuel: the second argument falls in each call.
unfoldable pub gcd_loop : ℕ → ℕ → ℕ → ℕ
gcd_loop zero a b = a
gcd_loop (suc fuel) a b = let rest = gcd_loop fuel b (a % b) in if b == 0 then a else rest

unfoldable pub gcd : ℕ → ℕ → ℕ
unfolding gcd_loop
gcd a b = gcd_loop (suc b) a b

unfoldable pub lcm : ℕ → ℕ → ℕ
lcm a b = a / gcd a b * b % 2 ^ 64
