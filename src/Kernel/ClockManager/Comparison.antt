-- ===== src/Kernel/ClockManager/Comparison.antt =====
-- `compareTimerTicks` of kernel/timing/ClockManager.cpp waits long enough.
use cro_cos.Base.{ℕ, ◌+◌, ◌-◌, ◌*◌, ◌/◌, ◌%◌, ◌^◌, ◌≤◌, ◌<◌, ◌≡◌, true, arith, sym, ap, ◌∙◌}
use native.Mathlib.Nat.{mod-eq_of_lt, add-mod_right, add-mul-mod_self_right, one-le-pow}
use cro_cos.Core.FrequencyData.Scale.{pow_add}
use cro_cos.Kernel.ClockManager.{past, timer_past_minimum, elapsed}

-- The word size is a multiple of the counter's.
width_divides : (w : ℕ) → w ≤ 64 → (k : ℕ) × (2 ^ 64 ≡ 2 ^ w + k * 2 ^ w)
width_divides w le =
    let e : w + (64 - w) ≡ 64 = omega arith in
    let split : 2 ^ 64 ≡ 2 ^ w * 2 ^ (64 - w) = ap (λ x. 2 ^ x) (sym e) ∙ pow_add w (64 - w) in
    let some_left : 1 ≤ 2 ^ (64 - w) = one-le-pow (64 - w) 2 (omega arith) in
    let f : 2 ^ (64 - w) ≡ 1 + (2 ^ (64 - w) - 1) = omega arith in
    let product : 2 ^ w * 2 ^ (64 - w) ≡ 2 ^ w * (1 + (2 ^ (64 - w) - 1)) = ap (λ x. 2 ^ w * x) f in
    (2 ^ (64 - w) - 1, omega (arith, split, product))

low_bits : (w x : ℕ) → w ≤ 64 → x % 2 ^ 64 % 2 ^ w ≡ x % 2 ^ w
low_bits w x le =
    let (k, e) = width_divides w le in
    let small : x % 2 ^ 64 + x / 2 ^ 64 * 2 ^ 64 ≡ x = omega arith in
    let scaled : x / 2 ^ 64 * 2 ^ 64 ≡ x / 2 ^ 64 * (2 ^ w + k * 2 ^ w) =
      ap (λ y. x / 2 ^ 64 * y) e in
    let whole : x ≡ x % 2 ^ 64 + (x / 2 ^ 64 * (1 + k)) * 2 ^ w = omega (arith, small, scaled) in
    sym (
      ap (λ y. y % 2 ^ w) whole
      ∙ add-mul-mod_self_right (x % 2 ^ 64) (x / 2 ^ 64 * (1 + k)) (2 ^ w))

-- A counter that the loop lets pass has advanced by the minimum at least, whether it overflowed in
-- between or not.
pub past-elapsed :
    (width init min_ticks val : ℕ)
    → width ≤ 64
    → init < 2 ^ width
    → val < 2 ^ width
    → min_ticks < 2 ^ width
    → past width init min_ticks val ≡ true
    → min_ticks ≤ elapsed width init val
unfolding past timer_past_minimum elapsed
past-elapsed width init min_ticks val le hi hv hm passed =
    let size : ℕ = 2 ^ width in
    let (k, e) = width_divides width le in
    let least : (init + min_ticks) % 2 ^ 64 % size ≡ (init + min_ticks) % size =
      low_bits width (init + min_ticks) le in
    let shifted : val + 2 ^ 64 - init ≡ val + size - init + k * size = omega (arith, e) in
    let gone : (val + 2 ^ 64 - init) % 2 ^ 64 % size ≡ (val + size - init) % size =
      low_bits width (val + 2 ^ 64 - init) le
      ∙ ap (λ y. y % size) shifted
      ∙ add-mul-mod_self_right (val + size - init) k size in
    let ahead : val < init → (val + size - init) % size ≡ val + size - init =
      λ lt. mod-eq_of_lt (omega arith) in
    let behind : init ≤ val → (val + size - init) % size ≡ val - init = λ lo.
      ap (λ y. y % size) (omega arith)
      ∙ add-mod_right (val - init) size
      ∙ mod-eq_of_lt (omega arith) in
    let plain : init + min_ticks < size → (init + min_ticks) % size ≡ init + min_ticks =
      λ lt. mod-eq_of_lt lt in
    let wraps : size ≤ init + min_ticks → (init + min_ticks) % size ≡ init + min_ticks - size =
      λ hi'.
        ap (λ y. y % size) (omega arith)
        ∙ add-mod_right (init + min_ticks - size) size
        ∙ mod-eq_of_lt (omega arith) in
    ground (arith, passed, least, gone, ahead, behind, plain, wraps)
