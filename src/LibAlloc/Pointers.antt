-- ===== src/LibAlloc/Pointers.antt =====
-- libraries/LibAlloc/include/liballoc/PointerArithmetic.h. Addresses are numbers below 2 ^ 64, and
-- the additions of the source wrap there.
use cro_cos.Base.{ℕ, ◌+◌, ◌-◌, ◌%◌, ◌^◌, ◌≤◌, ◌<◌, arith}
use native.Mathlib.Nat.{mod-lt}

-- `size_t` and `uintptr_t` addition and subtraction.
abbrev pub add64 : ℕ → ℕ → ℕ
add64 a b = (a + b) % 2 ^ 64

abbrev pub sub64 : ℕ → ℕ → ℕ
sub64 a b = (a + 2 ^ 64 - b) % 2 ^ 64

-- `addr - addr % alignment`. The power-of-two branch, `addr & ~(alignment - 1)`, is the same number.
unfoldable pub align_down : ℕ → ℕ → ℕ
align_down addr alignment = addr - addr % alignment

unfoldable pub align_up : ℕ → ℕ → ℕ
align_up addr alignment = align_down (sub64 (add64 addr alignment) 1) alignment

-- Where nothing wraps, `align_up` is the least multiple of the alignment from `addr` on.
pub align_up_bounds :
    (addr alignment : ℕ)
    → 0 < alignment
    → addr + alignment < 2 ^ 64
    → (addr ≤ align_up addr alignment) × (align_up addr alignment < addr + alignment)
unfolding align_up align_down
align_up_bounds addr alignment pos fits = omega (arith, mod-lt (addr + alignment - 1) pos)
