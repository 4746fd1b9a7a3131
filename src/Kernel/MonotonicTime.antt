-- ===== src/Kernel/MonotonicTime.antt =====
-- The monotonic time of kernel/timing/ClockManager.cpp, and its stopwatch. Each reading is one step
-- with no other CPU in between, so the compare-and-exchange of the loop succeeds at once.
use cro_cos.Base.{ℕ, ◌+◌, ◌-◌, ◌/◌, ◌%◌, ◌^◌}
use cro_cos.Core.FrequencyData.{ticks_to_nanos}
use cro_cos.Kernel.ClockManager.{ClockSource, elapsed}

pub record Times : Type 0 where
  pub last_read : ℕ  -- lastReadCSTimestamp
  pub timestamp : ℕ  -- monotimestamp

-- `monoTimens()` when the clock reads `now`: the time, and the state after it.
unfoldable pub mono_time_ns : ClockSource → ℕ → Times → ℕ × Times
mono_time_ns clock now s =
    let delta = elapsed clock.width s.last_read now in
    let time = (s.timestamp + ticks_to_nanos clock.calibration delta) % 2 ^ 64 in
    (time, record { last_read = now; timestamp = time })

unfoldable pub mono_time_ms : ClockSource → ℕ → Times → ℕ × Times
unfolding mono_time_ns
mono_time_ms clock now s = let read = mono_time_ns clock now s in (read.0 / 1000000, read.1)

-- A stopwatch is the time at which it was started. `unit` is 1, 1000 or 1000000.
unfoldable pub elapsed_since : ℕ → ℕ → ClockSource → ℕ → Times → ℕ × Times
elapsed_since unit start clock now s =
    let read = mono_time_ns clock now s in ((read.0 + 2 ^ 64 - start) % 2 ^ 64 / unit, read.1)

-- The time since the start, and the new start.
unfoldable pub lap : ℕ → ClockSource → ℕ → Times → (ℕ × ℕ) × Times
lap start clock now s =
    let read = mono_time_ns clock now s in (((read.0 + 2 ^ 64 - start) % 2 ^ 64, read.0), read.1)
