-- ===== src/Core/FrequencyData/Conversion.antt =====
-- The conversions of libraries/Core/FrequencyData.cpp: accuracy, monotonicity and round trip.
use cro_cos.Base.{ℕ, ◌+◌, ◌*◌, ◌/◌, ◌%◌, ◌^◌, ◌≤◌, ◌<◌, ◌≡◌, some, arith}
use native.Mathlib.Nat.{mul-le-mul_right, mul-le-mul_left, div-mul-le_self}
use cro_cos.Core.FrequencyData.{FrequencyData, from_freq, nanos_to_ticks, from_hz}

-- A product of 128 bits, read behind the point, is at most the exact quotient, and is exact if it
-- fits in 64 bits.
abbrev high : ℕ → ℕ → ℕ
high a b = a * b % 2 ^ 128 / 2 ^ 64 % 2 ^ 64

high-le : (a b : ℕ) → high a b * 2 ^ 64 ≤ a * b
high-le a b = omega arith

high-exact : (a b : ℕ) → a * b < 2 ^ 128 → high a b ≡ a * b / 2 ^ 64
high-exact a b h = omega arith

-- What the constructor makes of a frequency.
from_freq_lem :
    (m : ℕ) (fd : FrequencyData)
    → from_freq m ≡ some fd
    → (fd.freq ≡ m) × (fd.period * (m / 2) ≤ 2 ^ 127)
unfolding from_freq
from_freq_lem m fd made =
    let at_most : 2 ^ 127 / (m / 2) * (m / 2) ≤ 2 ^ 127 = div-mul-le_self (2 ^ 127) (m / 2) in
    ground (arith, made, at_most)

-- Where no product overflows, more nanoseconds are no fewer ticks.
pub nanos_to_ticks_mono :
    (fd : FrequencyData) (ns later : ℕ)
    → ns ≤ later
    → later * fd.freq < 2 ^ 128
    → nanos_to_ticks fd ns ≤ nanos_to_ticks fd later
unfolding nanos_to_ticks
nanos_to_ticks_mono fd ns later le fits = omega (
  arith,
  mul-le-mul_right {m = ns} {n = later} fd.freq le,
  high-exact ns fd.freq,
  high-exact later fd.freq,
)

-- For a clock of `hz` Hertz, the ticks of `ns` nanoseconds are the exact number rounded down, or one
-- less, as long as they fit in 64 bits.
pub from_hz-nanos_to_ticks :
    (hz ns : ℕ) (fd : FrequencyData)
    → hz < 2 ^ 64
    → ns < 2 ^ 64
    → from_hz hz ≡ some fd
    → ns * hz < 2 ^ 64 * 1000000000
    → (nanos_to_ticks fd ns * 1000000000 ≤ ns * hz)
      × (ns * hz < (nanos_to_ticks fd ns + 2) * 1000000000)
unfolding nanos_to_ticks from_hz from_freq
from_hz-nanos_to_ticks hz ns fd small short made fits =
    let (freq_is, _) = from_freq_lem (hz * 2 ^ 64 / 1000000000) fd made in
    let below : ns * (fd.freq * 1000000000) ≤ ns * (hz * 2 ^ 64) =
      mul-le-mul_left ns (omega (arith, freq_is)) in
    let above : ns * (hz * 2 ^ 64) ≤ ns * (fd.freq * 1000000000 + 999999999) =
      mul-le-mul_left ns (omega (arith, freq_is)) in
    (omega (arith, below, high-le ns fd.freq), omega (arith, below, above, high-exact ns fd.freq))
