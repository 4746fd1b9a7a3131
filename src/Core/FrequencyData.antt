-- ===== src/Core/FrequencyData.antt =====
-- libraries/Core/FrequencyData.cpp, with `log2floor` of libraries/Core/include/core/math.h.
--
-- `freq` and `period` are fixed-point numbers of 128 bits, with 64 bits behind the point. A product
-- is taken modulo `2 ^ 128` and the casts to `uint64_t` modulo `2 ^ 64`, as written. `period` is not
-- initialised by the default constructor: its value there is a parameter.
pub mod Conversion
pub mod Scale
use cro_cos.Base.{
  ℕ, zero, suc, ◌+◌, ◌-◌, ◌*◌, ◌/◌, ◌%◌, ◌^◌, ◌≤◌, ◌<◌, ◌≡◌, ◌&&◌, Bool, true, false, not, Option,
  none, some, ltb, leb, ◌==◌, if◌then◌else◌, List, [], ◌∷◌, ◌++◌,
}

-- The loop `while (value >>= 1) log++`, for a value of at most `fuel` bits.
unfoldable pub log2_loop : ℕ → ℕ → ℕ
log2_loop zero value = 0
log2_loop (suc fuel) value =
    let rest = log2_loop fuel (value / 2) in if value / 2 == 0 then 0 else suc rest

-- `log2floor(uint64_t)`; its value at 0 is undefined in the source, and 0 here.
unfoldable pub log2floor : ℕ → ℕ
log2floor value = log2_loop 64 value

-- `log2floor(__uint128_t)`.
unfoldable pub log2floor_wide : ℕ → ℕ
log2floor_wide value =
    if value / 2 ^ 64 == 0
    then log2floor (value % 2 ^ 64)
    else log2floor (value / 2 ^ 64 % 2 ^ 64) + 64

pub record FrequencyData : Type 0 where
  pub freq : ℕ  -- __uint128_t
  pub period : ℕ  -- __uint128_t

-- The default constructor, on memory that holds `garbage`.
unfoldable pub unpopulated : ℕ → FrequencyData
unpopulated garbage = record { freq = 0; period = garbage }

-- The private constructor; it divides by zero, and gives `none`, on a frequency below 2.
unfoldable pub from_freq : ℕ → Option FrequencyData
from_freq m = if m / 2 == 0 then none else some (record { freq = m; period = 2 ^ 127 / (m / 2) })

unfoldable pub populated : FrequencyData → Bool
populated fd = not (fd.freq == 0)

unfoldable pub nanos_to_ticks : FrequencyData → ℕ → ℕ
nanos_to_ticks fd ns = ns * fd.freq % 2 ^ 128 / 2 ^ 64 % 2 ^ 64

unfoldable pub ticks_to_nanos : FrequencyData → ℕ → ℕ
ticks_to_nanos fd ticks = ticks * fd.period % 2 ^ 128 / 2 ^ 64 % 2 ^ 64

unfoldable pub from_hz : ℕ → Option FrequencyData
from_hz hz = from_freq (hz * 2 ^ 64 / 1000000000)

unfoldable pub from_khz : ℕ → Option FrequencyData
from_khz khz = from_freq (khz * 2 ^ 64 / 1000000)

unfoldable pub from_mhz : ℕ → Option FrequencyData
from_mhz mhz = from_freq (mhz * 2 ^ 64 / 1000)

unfoldable pub from_ghz : ℕ → Option FrequencyData
from_ghz ghz = from_freq (ghz * 2 ^ 64)

-- A division by a period of zero gives `none`.
unfoldable pub from_period_fs : ℕ → Option FrequencyData
from_period_fs fs = if fs == 0 then none else from_freq (1000000 * 2 ^ 64 / fs)

unfoldable pub from_period_ns : ℕ → Option FrequencyData
from_period_ns ns = if ns == 0 then none else from_freq (2 ^ 64 / ns)

unfoldable pub from_period_us : ℕ → Option FrequencyData
from_period_us us = from_period_ns (us * 1000 % 2 ^ 64)

unfoldable pub from_period_ms : ℕ → Option FrequencyData
from_period_ms ms = from_period_ns (ms * 1000000 % 2 ^ 64)

unfoldable pub from_period_seconds : ℕ → Option FrequencyData
from_period_seconds s = from_period_ns (s * 1000000000 % 2 ^ 64)

-- `none`: the assertion fails, or a division by zero.
unfoldable pub scaled_frequency : FrequencyData → ℕ → ℕ → Option FrequencyData
scaled_frequency fd num denom =
    if ltb (log2floor num + log2floor_wide fd.freq) 126
    then if denom == 0 then none else from_freq (fd.freq * num % 2 ^ 128 / denom)
    else none

-- What is printed: numbers, and the fixed texts.
pub data Piece : Type 0 where
  number : ℕ → Piece
  point zero_digit giga mega kilo hertz uncalibrated : Piece

-- The leading zeros that a fraction of three decimals is padded with.
abbrev pub padding : ℕ → List Piece
padding frac =
    let tens = if ltb frac 10 then zero_digit ∷ [] else [] in
    if ltb frac 100 then zero_digit ∷ tens else tens

abbrev pub decimal : ℕ → ℕ → Piece → List Piece
decimal int frac unit = number int ∷ point ∷ padding frac ++ number frac ∷ unit ∷ []

-- The frequency in Hz that the printer shows.
unfoldable pub shown_hz : FrequencyData → ℕ
shown_hz fd = fd.freq * 1000000000 % 2 ^ 128 / 2 ^ 64 % 2 ^ 64

-- `operator<<`.
unfoldable pub print : FrequencyData → List Piece
unfolding populated
print fd =
    let hz = shown_hz fd in
    if not (populated fd)
    then uncalibrated ∷ []
    else if leb 1000000000 hz
    then decimal (hz / 1000000000) (hz % 1000000000 / 1000000) giga
    else if leb 1000000 hz
    then decimal (hz / 1000000) (hz % 1000000 / 1000) mega
    else if leb 1000 hz
    then decimal (hz / 1000) (hz % 1000) kilo
    else number hz ∷ hertz ∷ []
