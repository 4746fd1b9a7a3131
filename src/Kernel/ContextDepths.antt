-- ===== src/Kernel/ContextDepths.antt =====
-- kernel/interrupts/InterruptContextDepths.cpp and
-- kernel/include/interrupts/InterruptContextDepths.h.
--
-- The counters are those of one CPU, which its dispatcher reads and writes with interrupts
-- disabled: one state, no interleaving.
pub mod Packed
pub mod Guards
use cro_cos.Base.{
  ℕ, zero, suc, ◌+◌, ◌-◌, ◌*◌, ◌/◌, ◌%◌, ◌^◌, ◌≤◌, ◌<◌, ◌≡◌, ◌&&◌, Bool, true, false, not, Option,
  none, some, ltb, leb, ◌==◌, if◌then◌else◌, List, [], ◌∷◌,
}

-- `arch::InterruptKind`.
pub data InterruptKind : Type 0 where
  irq nmi ud df gp mc pf other : InterruptKind

pub record InterruptContextDepths : Type 0 where
  pub irq_depth : ℕ  -- uint8_t each
  pub nmi_depth : ℕ
  pub ud_depth : ℕ
  pub df_depth : ℕ
  pub gp_depth : ℕ
  pub mc_depth : ℕ
  pub pf_depth : ℕ
  pub reserved : ℕ

-- The eight bytes, the first the lowest.
unfoldable pub packed : InterruptContextDepths → ℕ
packed d =
    d.irq_depth
    + 256
      * (d.nmi_depth
          + 256
            * (d.ud_depth
                + 256
                  * (d.df_depth
                      + 256
                        * (d.gp_depth
                            + 256 * (d.mc_depth + 256 * (d.pf_depth + 256 * d.reserved))))))

unfoldable pub in_any_interrupt_context : InterruptContextDepths → Bool
in_any_interrupt_context d = not (packed d == 0)

-- `a & b` on words of `w` bits.
unfoldable pub bit_and : ℕ → ℕ → ℕ → ℕ
bit_and zero a b = 0
bit_and (suc w) a b = a % 2 * (b % 2) + 2 * bit_and w (a / 2) (b / 2)

-- The masks have no byte in common, so `|` is `+`.
unfoldable pub depth_mask : ℕ → ℕ
depth_mask offset = 255 * 2 ^ (offset * 8) % 2 ^ 64

unfoldable pub alloc_forbidden_depth_mask : ℕ
alloc_forbidden_depth_mask =
    depth_mask 0 + depth_mask 1 + depth_mask 2 + depth_mask 3 + depth_mask 4 + depth_mask 5

unfoldable pub rcu_read_side_forbidden_depth_mask : ℕ
rcu_read_side_forbidden_depth_mask = depth_mask 1 + depth_mask 5

unfoldable pub in_forbidden_context : InterruptContextDepths → ℕ → Bool
in_forbidden_context d mask = not (bit_and 64 (packed d) mask == 0)

-- What `counterFor` points to; `none` for the null pointer.
unfoldable pub counter_for : InterruptContextDepths → InterruptKind → Option ℕ
counter_for d irq = some d.irq_depth
counter_for d nmi = some d.nmi_depth
counter_for d ud = some d.ud_depth
counter_for d df = some d.df_depth
counter_for d gp = some d.gp_depth
counter_for d mc = some d.mc_depth
counter_for d pf = some d.pf_depth
counter_for d other = none

-- An assignment through that pointer.
unfoldable pub set_counter : InterruptContextDepths → InterruptKind → ℕ → InterruptContextDepths
set_counter d irq n = record d { irq_depth = n }
set_counter d nmi n = record d { nmi_depth = n }
set_counter d ud n = record d { ud_depth = n }
set_counter d df n = record d { df_depth = n }
set_counter d gp n = record d { gp_depth = n }
set_counter d mc n = record d { mc_depth = n }
set_counter d pf n = record d { pf_depth = n }
set_counter d other n = d

-- The constructor of `InterruptContextGuard`; `none`: its assertion fails.
unfoldable pub enter : InterruptKind → InterruptContextDepths → Option InterruptContextDepths
enter k d = elim (counter_for d k) [
  | none ↦ some d
  | some c ↦ if c == 255 then none else some (set_counter d k (c + 1))
]

-- The destructor.
unfoldable pub leave : InterruptKind → InterruptContextDepths → Option InterruptContextDepths
leave k d = elim (counter_for d k) [
  | none ↦ some d
  | some c ↦ if c == 0 then none else some (set_counter d k (c - 1))
]
