-- ===== src/Tests/Time.antt =====
-- The theorems on kernel/ and libraries/Core/FrequencyData.cpp at concrete inputs.
use cro_cos.Base.{◌*◌, ◌/◌, ◌^◌, ◌≤◌, ◌<◌, ◌≡◌, ◌↔◌, ◌&&◌, true, false, some, refl, arith, [], ◌∷◌}
use cro_cos.Core.FrequencyData.{
  FrequencyData, from_freq, from_hz, nanos_to_ticks, scaled_frequency, log2floor, log2_loop,
  log2floor_wide,
}
use cro_cos.Core.FrequencyData.Conversion.{nanos_to_ticks_mono}
use cro_cos.Core.FrequencyData.Scale.{scaled_frequency_exact}
use cro_cos.Kernel.ClockManager.{
  ClockSource, is_calibrated, find_bootstrap_clock, find_best_watchdog_clock, find_best_clock, past,
  timer_past_minimum, elapsed,
}
use cro_cos.Kernel.ClockManager.Selection.{IsBest, searches-IsBest}
use cro_cos.Kernel.ClockManager.Comparison.{past-elapsed}
use cro_cos.Kernel.ContextDepths.{
  InterruptContextDepths, irq, pf, in_forbidden_context, in_any_interrupt_context,
  alloc_forbidden_depth_mask, rcu_read_side_forbidden_depth_mask,
}
use cro_cos.Kernel.ContextDepths.Packed.{Bytes, in_forbidden_context_iff}
use cro_cos.Kernel.ContextDepths.Guards.{quiet, interrupt, dispatch, dispatch-balanced}

-- A CPU in an external interrupt.
abbrev in_irq : InterruptContextDepths
in_irq = record {
  irq_depth = 1;
  nmi_depth = 0;
  ud_depth = 0;
  df_depth = 0;
  gp_depth = 0;
  mc_depth = 0;
  pf_depth = 0;
  reserved = 0;
}

in_irq-Bytes : Bytes in_irq
in_irq-Bytes = record {
  irq_byte = omega arith;
  nmi_byte = omega arith;
  ud_byte = omega arith;
  df_byte = omega arith;
  gp_byte = omega arith;
  mc_byte = omega arith;
  pf_byte = omega arith;
  reserved_zero = refl;
}

in_forbidden_context_iff_example :
    ((in_any_interrupt_context in_irq ≡ true) ↔ (0 < 1))
    × ((in_forbidden_context in_irq alloc_forbidden_depth_mask ≡ true) ↔ (0 < 1))
    × ((in_forbidden_context in_irq rcu_read_side_forbidden_depth_mask ≡ true) ↔ (0 < 0))
in_forbidden_context_iff_example = in_forbidden_context_iff in_irq in_irq-Bytes

dispatch-balanced_example :
    dispatch (interrupt pf (interrupt irq quiet quiet) quiet) in_irq ≡ some in_irq
dispatch-balanced_example =
    dispatch-balanced (interrupt pf (interrupt irq quiet quiet) quiet) 1 in_irq
      (omega arith, omega arith, omega arith, omega arith, omega arith, omega arith, omega arith)
      (omega arith)

-- A clock of 1 GHz, and one of 2 GHz.
abbrev giga_hertz : FrequencyData
giga_hertz = record { freq = 2 ^ 64; period = 2 ^ 64 }

abbrev two_giga_hertz : FrequencyData
two_giga_hertz = record { freq = 2 ^ 65; period = 2 ^ 63 }

giga_hertz_made : from_hz 1000000000 ≡ some giga_hertz
unfolding from_hz from_freq
giga_hertz_made = refl

nanos_to_ticks_mono_example : nanos_to_ticks giga_hertz 10 ≤ nanos_to_ticks giga_hertz 20
nanos_to_ticks_mono_example = nanos_to_ticks_mono giga_hertz 10 20 (omega arith) (omega arith)

doubled_made : scaled_frequency giga_hertz 20 10 ≡ some two_giga_hertz
unfolding scaled_frequency from_freq log2floor log2floor_wide log2_loop
doubled_made = refl

scaled_frequency_exact_example : (0 < 10) × (2 ^ 65 ≡ 2 ^ 64 * 20 / 10)
scaled_frequency_exact_example =
    scaled_frequency_exact giga_hertz two_giga_hertz 20 10 (omega arith) (omega arith) (omega arith)
      (omega arith) doubled_made

-- A source of good quality that is not stable, and a stable one.
abbrev fast_source : ClockSource
fast_source = record { quality = 300; width = 64; stable = false; calibration = giga_hertz }

abbrev steady_source : ClockSource
steady_source = record { quality = 200; width = 32; stable = true; calibration = giga_hertz }

searches-IsBest_example :
    IsBest
      (λ cs. is_calibrated cs && cs.stable)
      (fast_source ∷ steady_source ∷ [])
      (find_bootstrap_clock (fast_source ∷ steady_source ∷ []))
    × IsBest
        (λ cs. cs.stable)
        (fast_source ∷ steady_source ∷ [])
        (find_best_watchdog_clock (fast_source ∷ steady_source ∷ []))
    × IsBest
        (λ _. true)
        (fast_source ∷ steady_source ∷ [])
        (find_best_clock (fast_source ∷ steady_source ∷ []))
searches-IsBest_example = searches-IsBest (fast_source ∷ steady_source ∷ [])

-- A counter of 8 bits that overflows on its way from 250 to 10.
over : past 8 250 10 10 ≡ true
unfolding past timer_past_minimum
over = refl

past-elapsed_example : 10 ≤ elapsed 8 250 10
past-elapsed_example =
    past-elapsed 8 250 10 10 (omega arith) (omega arith) (omega arith) (omega arith) over
