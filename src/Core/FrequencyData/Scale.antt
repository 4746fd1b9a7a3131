-- ===== src/Core/FrequencyData/Scale.antt =====
-- `scaledFrequency`, and `log2floor`, of libraries/Core/FrequencyData.cpp.
use cro_cos.Base.{
  ℕ, zero, suc, ◌+◌, ◌*◌, ◌/◌, ◌%◌, ◌^◌, ◌≤◌, ◌<◌, ◌≡◌, some, ltb, ◌==◌, ap, arith, Bool-cases, inl,
  inr,
}
use native.Mathlib.Nat.{mul-le-mul, two-pow-succ, pow-le-pow_right, mod-eq_of_lt}
use cro_cos.Core.FrequencyData.{
  FrequencyData, log2_loop, log2floor, log2floor_wide, from_freq, scaled_frequency,
}

pow_step : (n : ℕ) → 2 ^ suc n ≡ 2 ^ n + 2 ^ n
pow_step n = two-pow-succ n

pub pow_add : (a b : ℕ) → 2 ^ (a + b) ≡ 2 ^ a * 2 ^ b
pow_add a zero = let e : a + 0 ≡ a = omega arith in rw e (omega arith)
pow_add a (suc b) =
    let e : a + suc b ≡ suc (a + b) = omega arith in
    let twice : 2 ^ a * 2 ^ suc b ≡ 2 ^ a * (2 ^ b + 2 ^ b) = ap (λ x. 2 ^ a * x) (pow_step b) in
    rw e (omega (arith, pow_step (a + b), pow_add a b, twice))

doubled : (value log : ℕ) → value / 2 < 2 ^ (log + 1) → value < 2 ^ (suc log + 1)
doubled value log h =
    let e : suc log + 1 ≡ suc (log + 1) = omega arith in rw e (omega (arith, h, pow_step (log + 1)))

log2_loop_lem :
    (fuel value : ℕ)
    → 0 < value
    → value < 2 ^ fuel
    → (2 ^ log2_loop fuel value ≤ value)
      × (value < 2 ^ (log2_loop fuel value + 1))
      × (log2_loop fuel value < fuel)
unfolding log2_loop
log2_loop_lem zero value pos lt = absurd (omega arith)
log2_loop_lem (suc fuel) value pos lt = elim (Bool-cases (value / 2 == 0)) [
  | inl e ↦ rw e (ground arith)
  | inr e ↦
      let (low, high, short) =
        log2_loop_lem fuel (value / 2) (ground arith) (omega (arith, two-pow-succ fuel)) in
      rw e (
        omega (arith, low, pow_step (log2_loop fuel (value / 2))),
        doubled value (log2_loop fuel (value / 2)) high,
        omega arith,
      )
]

-- On a value of 64 bits other than 0, `log2floor` is the exponent of the largest power of two that
-- is not above it; on a value of 128 bits, so is the version that splits the words.
pub log2floor_lem :
    (value : ℕ)
    → 0 < value
    → (value < 2 ^ 64 → (2 ^ log2floor value ≤ value) × (value < 2 ^ (log2floor value + 1)))
      × (value < 2 ^ 128
          → (2 ^ log2floor_wide value ≤ value) × (value < 2 ^ (log2floor_wide value + 1)))
unfolding log2floor log2floor_wide
log2floor_lem value pos = (
  λ lt. let (low, high, _) = log2_loop_lem 64 value pos lt in (low, high),
  λ lt. elim (Bool-cases (value / 2 ^ 64 == 0)) [
    | inl e ↦
        let here : value % 2 ^ 64 ≡ value = ground (arith, e) in
        let (low, high, _) = log2_loop_lem 64 value pos (ground (arith, e)) in
        rw (e, here) (low, high)
    | inr e ↦
        let top = value / 2 ^ 64 in
        let here : top % 2 ^ 64 ≡ top = omega arith in
        let (low, high, _) = log2_loop_lem 64 top (ground (arith, e)) (omega arith) in
        rw (e, here)
          (
            omega (arith, low, pow_add (log2_loop 64 top) 64),
            let e : log2_loop 64 top + 64 + 1 ≡ log2_loop 64 top + 1 + 64 = omega arith in
                rw e (omega (arith, high, pow_add (log2_loop 64 top + 1) 64)),
          )
  ],
)

-- The sum of the logarithms bounds the product.
product_fits : (a b x y : ℕ) → x < 2 ^ (a + 1) → y < 2 ^ (b + 1) → a + b < 126 → y * x < 2 ^ 128
product_fits a b x y hx hy lt =
    let all : y * x ≤ 2 ^ (b + 1) * 2 ^ (a + 1) = mul-le-mul (omega arith) (omega arith) in
    let most : 2 ^ (b + 1 + (a + 1)) ≤ 2 ^ 127 =
      pow-le-pow_right (omega arith) {j = 127} (omega arith) in
    omega (arith, all, most, pow_add (b + 1) (a + 1))

-- The assertion of `scaledFrequency` rules out that the product wraps: the frequency made is the
-- exact quotient.
pub scaled_frequency_exact :
    (fd made : FrequencyData) (num denom : ℕ)
    → 0 < num
    → num < 2 ^ 64
    → 0 < fd.freq
    → fd.freq < 2 ^ 128
    → scaled_frequency fd num denom ≡ some made
    → (0 < denom) × (made.freq ≡ fd.freq * num / denom)
unfolding scaled_frequency from_freq
scaled_frequency_exact fd made num denom pos small fpos fsmall ran =
    let (_, num_lt) = (log2floor_lem num pos).0 small in
    let (_, freq_lt) = (log2floor_lem fd.freq fpos).1 fsmall in
    elim (Bool-cases (ltb (log2floor num + log2floor_wide fd.freq) 126)) [
      | inl e ↦
          let fits : fd.freq * num < 2 ^ 128 =
            product_fits (log2floor num) (log2floor_wide fd.freq) num fd.freq num_lt freq_lt
              (ground (arith, e)) in
          let exact : fd.freq * num % 2 ^ 128 ≡ fd.freq * num = mod-eq_of_lt fits in
          ground (arith, e, exact, ran)
      | inr e ↦ ground (arith, e, ran)
    ]
