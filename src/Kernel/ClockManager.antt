-- ===== src/Kernel/ClockManager.antt =====
-- kernel/timing/ClockManager.cpp: which clock source is chosen, and the comparison of two counters
-- that a calibration rests on.
--
-- The registered sources are a list in the order of their registration. What the registers of the
-- hardware read is a parameter: `reads k` is the pair that the `k`-th round of the loop reads.
pub mod Selection
pub mod Comparison
use cro_cos.Base.{
  ℕ, zero, suc, ◌+◌, ◌-◌, ◌*◌, ◌/◌, ◌%◌, ◌^◌, ◌≤◌, ◌<◌, ◌≡◌, ◌&&◌, ◌||◌, Bool, true, false, not,
  Option, none, some, ltb, leb, ◌==◌, if◌then◌else◌, List, [], ◌∷◌, ◌++◌,
}
use cro_cos.Core.FrequencyData.{FrequencyData, populated, scaled_frequency}

pub record ClockSource : Type 0 where
  pub quality : ℕ  -- uint16_t
  pub width : ℕ  -- the mask is `2 ^ width - 1`
  pub stable : Bool  -- `hasStableFrequency()`
  pub calibration : FrequencyData

unfoldable pub is_calibrated : ClockSource → Bool
unfolding populated
is_calibrated cs = populated cs.calibration

unfoldable pub register_clock_source : ClockSource → List ClockSource → List ClockSource
register_clock_source source sources = sources ++ source ∷ []

-- `best == nullptr || cs->quality() > best->quality()`.
abbrev pub better_than : Option ClockSource → ClockSource → Bool
better_than none cs = true
better_than (some best) cs = ltb best.quality cs.quality

-- The loop that the three searches share: `best` is what it has found so far.
unfoldable pub best_of :
    (ClockSource → Bool) → Option ClockSource → List ClockSource → Option ClockSource
best_of eligible best [] = best
best_of eligible best (cs ∷ sources) =
    best_of eligible (if eligible cs && better_than best cs then some cs else best) sources

unfoldable pub find_bootstrap_clock : List ClockSource → Option ClockSource
unfolding best_of is_calibrated
find_bootstrap_clock sources = best_of (λ cs. is_calibrated cs && cs.stable) none sources

-- `none`: there is no stable source, and the assertion fails.
unfoldable pub find_best_watchdog_clock : List ClockSource → Option ClockSource
find_best_watchdog_clock sources = best_of (λ cs. cs.stable) none sources

-- The search of `initializeBestClockSource`.
unfoldable pub find_best_clock : List ClockSource → Option ClockSource
find_best_clock sources = best_of (λ _. true) none sources

unfoldable pub timer_past_minimum : ℕ → ℕ → ℕ → Bool → Bool
timer_past_minimum val min_ticks init_ticks overflows =
    leb min_ticks val && (ltb val init_ticks || not overflows)

-- One counter of the given width has reached its minimum.
unfoldable pub past : ℕ → ℕ → ℕ → ℕ → Bool
unfolding timer_past_minimum
past width init min_ticks val =
    let least = (init + min_ticks) % 2 ^ 64 % 2 ^ width in
    timer_past_minimum val least init (ltb least init)

-- `(val - init) & mask`.
unfoldable pub elapsed : ℕ → ℕ → ℕ → ℕ
elapsed width init val = (val + 2 ^ 64 - init) % 2 ^ 64 % 2 ^ width

-- The loop of `compareTimerTicks`, on fuel: it ends when both counters have reached their minimum.
unfoldable pub compare_loop :
    ℕ → ClockSource → ClockSource → ℕ → ℕ × ℕ → ℕ → (ℕ → ℕ × ℕ) → Option (ℕ × ℕ)
unfolding past elapsed
compare_loop zero a b min_ticks init k reads = none
compare_loop (suc fuel) a b min_ticks init k reads =
    let rest = compare_loop fuel a b min_ticks init (k + 1) reads in
    let now = reads k in
    if past a.width init.0 min_ticks now.0 && past b.width init.1 min_ticks now.1
    then some (elapsed a.width init.0 now.0, elapsed b.width init.1 now.1)
    else rest

-- `none`: an assertion fails, or the fuel is used up.
unfoldable pub compare_timer_ticks :
    ℕ → ClockSource → ClockSource → ℕ → (ℕ → ℕ × ℕ) → Option (ℕ × ℕ)
unfolding compare_loop
compare_timer_ticks fuel a b min_ticks reads =
    if ltb min_ticks ((2 ^ a.width - 1) / 2) && ltb min_ticks ((2 ^ b.width - 1) / 2)
    then compare_loop fuel a b min_ticks (reads 0) 1 reads
    else none

-- `calibrateClockSource`, with `computeFrequencyData`: the source with its new calibration.
unfoldable pub calibrate_clock_source :
    ℕ → ClockSource → ClockSource → (ℕ → ℕ × ℕ) → Option ClockSource
unfolding compare_timer_ticks
calibrate_clock_source fuel known to_calibrate reads =
    if known.stable && is_calibrated known
    then elim (compare_timer_ticks fuel known to_calibrate 100000 reads) [
      | none ↦ none
      | some (a_delta, b_delta) ↦ elim (scaled_frequency known.calibration b_delta a_delta) [
        | none ↦ none
        | some made ↦ some (record to_calibrate { calibration = made })
      ]
    ]
    else none
