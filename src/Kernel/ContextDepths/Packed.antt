-- ===== src/Kernel/ContextDepths/Packed.antt =====
-- The packed word of kernel/include/interrupts/InterruptContextDepths.h, and its masks.
use cro_cos.Base.{ℕ, zero, suc, ◌+◌, ◌*◌, ◌/◌, ◌%◌, ◌<◌, ◌≡◌, ◌↔◌, true, not, ◌==◌, refl, ap, arith}
use cro_cos.Kernel.ContextDepths.{
  InterruptContextDepths, packed, bit_and, depth_mask, alloc_forbidden_depth_mask,
  rcu_read_side_forbidden_depth_mask, in_forbidden_context, in_any_interrupt_context,
}

-- A full mask keeps the low `w` bits, and an empty one drops them.
bit_and-zero : (w a : ℕ) → bit_and w a 0 ≡ 0
unfolding bit_and
bit_and-zero zero a = refl
bit_and-zero (suc w) a = omega (arith, bit_and-zero w (a / 2))

odd_step :
    (n w a b c : ℕ) → n ≡ suc w → c ≡ 1 + 2 * b → bit_and n a c ≡ a % 2 + 2 * bit_and w (a / 2) b
unfolding bit_and
odd_step n w a b c size e =
    let bit : c % 2 ≡ 1 = omega arith in
    let rest : c / 2 ≡ b = omega arith in rw (size, bit, rest) (omega arith)

even_step : (n w a b c : ℕ) → n ≡ suc w → c ≡ 2 * b → bit_and n a c ≡ 2 * bit_and w (a / 2) b
unfolding bit_and
even_step n w a b c size e =
    let bit : c % 2 ≡ 0 = omega arith in
    let rest : c / 2 ≡ b = omega arith in rw (size, bit, rest) (omega arith)

-- One byte of the word under a full byte of the mask.
full_byte : (w a b : ℕ) → bit_and (8 + w) a (255 + 256 * b) ≡ a % 256 + 256 * bit_and w (a / 256) b
full_byte w a b =
    let e : a / 2 / 2 / 2 / 2 / 2 / 2 / 2 / 2 ≡ a / 256 = omega arith in
    let same : bit_and w (a / 2 / 2 / 2 / 2 / 2 / 2 / 2 / 2) b ≡ bit_and w (a / 256) b =
      ap (λ x. bit_and w x b) e in
    omega (
      arith,
      same,
      odd_step (8 + w) (7 + w) a (127 + 128 * b) (255 + 256 * b) (omega arith) (omega arith),
      odd_step (7 + w) (6 + w) (a / 2) (63 + 64 * b) (127 + 128 * b) (omega arith) (omega arith),
      odd_step (6 + w) (5 + w) (a / 2 / 2) (31 + 32 * b) (63 + 64 * b) (omega arith) (omega arith),
      odd_step (5 + w) (4 + w) (a / 2 / 2 / 2) (15 + 16 * b) (31 + 32 * b) (omega arith)
          (omega arith),
      odd_step (4 + w) (3 + w) (a / 2 / 2 / 2 / 2) (7 + 8 * b) (15 + 16 * b) (omega arith)
          (omega arith),
      odd_step (3 + w) (2 + w) (a / 2 / 2 / 2 / 2 / 2) (3 + 4 * b) (7 + 8 * b) (omega arith)
          (omega arith),
      odd_step (2 + w) (1 + w) (a / 2 / 2 / 2 / 2 / 2 / 2) (1 + 2 * b) (3 + 4 * b) (omega arith)
          (omega arith),
      odd_step (1 + w) w (a / 2 / 2 / 2 / 2 / 2 / 2 / 2) b (1 + 2 * b) (omega arith) (omega arith),
    )

-- … and under an empty one.
empty_byte : (w a b : ℕ) → bit_and (8 + w) a (256 * b) ≡ 256 * bit_and w (a / 256) b
empty_byte w a b =
    let e : a / 2 / 2 / 2 / 2 / 2 / 2 / 2 / 2 ≡ a / 256 = omega arith in
    let same : bit_and w (a / 2 / 2 / 2 / 2 / 2 / 2 / 2 / 2) b ≡ bit_and w (a / 256) b =
      ap (λ x. bit_and w x b) e in
    omega (
      arith,
      same,
      even_step (8 + w) (7 + w) a (128 * b) (256 * b) (omega arith) (omega arith),
      even_step (7 + w) (6 + w) (a / 2) (64 * b) (128 * b) (omega arith) (omega arith),
      even_step (6 + w) (5 + w) (a / 2 / 2) (32 * b) (64 * b) (omega arith) (omega arith),
      even_step (5 + w) (4 + w) (a / 2 / 2 / 2) (16 * b) (32 * b) (omega arith) (omega arith),
      even_step (4 + w) (3 + w) (a / 2 / 2 / 2 / 2) (8 * b) (16 * b) (omega arith) (omega arith),
      even_step (3 + w) (2 + w) (a / 2 / 2 / 2 / 2 / 2) (4 * b) (8 * b) (omega arith) (omega arith),
      even_step (2 + w) (1 + w) (a / 2 / 2 / 2 / 2 / 2 / 2) (2 * b) (4 * b) (omega arith)
          (omega arith),
      even_step (1 + w) w (a / 2 / 2 / 2 / 2 / 2 / 2 / 2) b (2 * b) (omega arith) (omega arith),
    )

-- A word that starts with the byte `x`.
full_head :
    (n w x a m b : ℕ)
    → n ≡ 8 + w
    → m ≡ 255 + 256 * b
    → x < 256
    → bit_and n (x + 256 * a) m ≡ x + 256 * bit_and w a b
full_head n w x a m b size mask h =
    let low : (x + 256 * a) % 256 ≡ x = omega arith in
    let high : (x + 256 * a) / 256 ≡ a = omega arith in
    rw (size, mask) (rw (low, high) at (full_byte w (x + 256 * a) b))

empty_head :
    (n w x a m b : ℕ)
    → n ≡ 8 + w
    → m ≡ 256 * b
    → x < 256
    → bit_and n (x + 256 * a) m ≡ 256 * bit_and w a b
empty_head n w x a m b size mask h =
    let high : (x + 256 * a) / 256 ≡ a = omega arith in
    rw (size, mask) (rw high at (empty_byte w (x + 256 * a) b))

-- Each counter is a byte.
pub record Bytes (d : InterruptContextDepths) : Type 0 where
  pub irq_byte : d.irq_depth < 256
  pub nmi_byte : d.nmi_depth < 256
  pub ud_byte : d.ud_depth < 256
  pub df_byte : d.df_depth < 256
  pub gp_byte : d.gp_depth < 256
  pub mc_byte : d.mc_depth < 256
  pub pf_byte : d.pf_depth < 256
  pub reserved_zero : d.reserved ≡ 0

-- A word that is zero exactly if a sum is.
not_zero : (n m : ℕ) → (0 < n) ↔ (0 < m) → (not (n == 0) ≡ true) ↔ (0 < m)
not_zero n m (to, from) = (λ h. to (ground arith), λ h. ground (arith, from h))

module _ (d : InterruptContextDepths) (v : Bytes d) where
  abbrev p7 : ℕ
  p7 = d.pf_depth + 256 * d.reserved

  abbrev p6 : ℕ
  p6 = d.mc_depth + 256 * p7

  abbrev p5 : ℕ
  p5 = d.gp_depth + 256 * p6

  abbrev p4 : ℕ
  p4 = d.df_depth + 256 * p5

  abbrev p3 : ℕ
  p3 = d.ud_depth + 256 * p4

  abbrev p2 : ℕ
  p2 = d.nmi_depth + 256 * p3

  any_bits : (0 < packed d) ↔ (
      0
      < d.irq_depth + d.nmi_depth + d.ud_depth + d.df_depth + d.gp_depth + d.mc_depth + d.pf_depth)
  unfolding packed
  any_bits = (λ h. omega (arith, v.reserved_zero), λ h. omega arith)

  alloc_bits :
      bit_and 64 (packed d) alloc_forbidden_depth_mask
      ≡ d.irq_depth
        + 256
          * (d.nmi_depth
              + 256 * (d.ud_depth + 256 * (d.df_depth + 256 * (d.gp_depth + 256 * d.mc_depth))))
  unfolding packed alloc_forbidden_depth_mask depth_mask
  alloc_bits = omega (
    arith,
    full_head 64 56 d.irq_depth p2 281474976710655 1099511627775 (omega arith) (omega arith)
        v.irq_byte,
    full_head 56 48 d.nmi_depth p3 1099511627775 4294967295 (omega arith) (omega arith) v.nmi_byte,
    full_head 48 40 d.ud_depth p4 4294967295 16777215 (omega arith) (omega arith) v.ud_byte,
    full_head 40 32 d.df_depth p5 16777215 65535 (omega arith) (omega arith) v.df_byte,
    full_head 32 24 d.gp_depth p6 65535 255 (omega arith) (omega arith) v.gp_byte,
    full_head 24 16 d.mc_depth p7 255 0 (omega arith) (omega arith) v.mc_byte,
    bit_and-zero 16 p7,
  )

  read_side_bits :
      bit_and 64 (packed d) rcu_read_side_forbidden_depth_mask
      ≡ 256 * d.nmi_depth + 256 * 256 * 256 * 256 * 256 * d.mc_depth
  unfolding packed rcu_read_side_forbidden_depth_mask depth_mask
  read_side_bits = omega (
    arith,
    empty_head 64 56 d.irq_depth p2 280375465148160 1095216660735 (omega arith) (omega arith)
        v.irq_byte,
    full_head 56 48 d.nmi_depth p3 1095216660735 4278190080 (omega arith) (omega arith) v.nmi_byte,
    empty_head 48 40 d.ud_depth p4 4278190080 16711680 (omega arith) (omega arith) v.ud_byte,
    empty_head 40 32 d.df_depth p5 16711680 65280 (omega arith) (omega arith) v.df_byte,
    empty_head 32 24 d.gp_depth p6 65280 255 (omega arith) (omega arith) v.gp_byte,
    full_head 24 16 d.mc_depth p7 255 0 (omega arith) (omega arith) v.mc_byte,
    bit_and-zero 16 p7,
  )

  -- The packed word tells whether the CPU is in any tracked context; the allocation mask, whether
  -- it is in one other than a page fault; the read-side mask, whether it is in an NMI or a machine
  -- check. Each counter is a byte, and the reserved byte is zero.
  pub in_forbidden_context_iff :
      ((in_any_interrupt_context d ≡ true) ↔ (
        0
        < d.irq_depth + d.nmi_depth + d.ud_depth + d.df_depth + d.gp_depth + d.mc_depth
          + d.pf_depth))
      × ((in_forbidden_context d alloc_forbidden_depth_mask ≡ true)
          ↔ (0 < d.irq_depth + d.nmi_depth + d.ud_depth + d.df_depth + d.gp_depth + d.mc_depth))
      × ((in_forbidden_context d rcu_read_side_forbidden_depth_mask ≡ true)
          ↔ (0 < d.nmi_depth + d.mc_depth))
  unfolding in_forbidden_context in_any_interrupt_context
  in_forbidden_context_iff = (
    not_zero _ _ (any_bits),
    not_zero _ _ (λ h. omega (arith, alloc_bits), λ h. omega (arith, alloc_bits)),
    not_zero _ _ (λ h. omega (arith, read_side_bits), λ h. omega (arith, read_side_bits)),
  )
