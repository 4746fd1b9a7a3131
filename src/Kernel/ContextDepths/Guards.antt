-- ===== src/Kernel/ContextDepths/Guards.antt =====
-- The guards of kernel/interrupts/InterruptContextDepths.cpp.
use cro_cos.Base.{
  ℕ, suc, ◌+◌, ◌-◌, ◌≤◌, ◌<◌, ◌≡◌, false, Option, none, some, ◌==◌, refl, arith, max,
}
use cro_cos.Kernel.ContextDepths.{
  InterruptContextDepths, InterruptKind, enter, leave, counter_for, set_counter, irq, nmi, ud, df,
  gp, mc, pf, other,
}

-- What the interrupt handlers of one CPU do: nothing, or an interrupt whose own handler is
-- interrupted in turn, and what comes after it.
pub data Nest : Type 0 where
  quiet : Nest
  interrupt : InterruptKind → Nest → Nest → Nest

-- Each interrupt is dispatched under a guard.
unfoldable pub dispatch : Nest → InterruptContextDepths → Option InterruptContextDepths
dispatch quiet d = some d
dispatch (interrupt k inner next) d = elim (enter k d) [
  | none ↦ none
  | some d1 ↦ elim (dispatch inner d1) [
    | none ↦ none
    | some d2 ↦ elim (leave k d2) [ none ↦ none | some d3 ↦ dispatch next d3 ]
  ]
]

-- How deep the interrupts of a nest stand in one another.
abbrev pub depth : Nest → ℕ
depth quiet = 0
depth (interrupt _ inner next) = max (suc (depth inner)) (depth next)

-- No counter is above `n`.
abbrev pub Below : ℕ → InterruptContextDepths → Type 0
Below n d =
    (d.irq_depth ≤ n)
    × (d.nmi_depth ≤ n)
    × (d.ud_depth ≤ n)
    × (d.df_depth ≤ n)
    × (d.gp_depth ≤ n)
    × (d.mc_depth ≤ n)
    × (d.pf_depth ≤ n)

nonzero : (c : ℕ) → (c + 1 == 0) ≡ false
nonzero c = ground arith

back : (c : ℕ) → c + 1 - 1 ≡ c
back c = omega arith

-- Under a guard, one counter at most is larger by one, and the guard's end restores it.
guarded :
    (k : InterruptKind) (n : ℕ) (d : InterruptContextDepths)
    → Below n d
    → n < 255
    → (d1 : InterruptContextDepths) × (enter k d ≡ some d1)
      × Below (n + 1) d1
      × (leave k d1 ≡ some d)
unfolding enter leave counter_for set_counter
guarded irq n d v lt = (
  record d { irq_depth = d.irq_depth + 1 },
  ground (arith, v),
  ground (arith, v),
  rw (nonzero d.irq_depth, back d.irq_depth) refl,
)
guarded nmi n d v lt = (
  record d { nmi_depth = d.nmi_depth + 1 },
  ground (arith, v),
  ground (arith, v),
  rw (nonzero d.nmi_depth, back d.nmi_depth) refl,
)
guarded ud n d v lt = (
  record d { ud_depth = d.ud_depth + 1 },
  ground (arith, v),
  ground (arith, v),
  rw (nonzero d.ud_depth, back d.ud_depth) refl,
)
guarded df n d v lt = (
  record d { df_depth = d.df_depth + 1 },
  ground (arith, v),
  ground (arith, v),
  rw (nonzero d.df_depth, back d.df_depth) refl,
)
guarded gp n d v lt = (
  record d { gp_depth = d.gp_depth + 1 },
  ground (arith, v),
  ground (arith, v),
  rw (nonzero d.gp_depth, back d.gp_depth) refl,
)
guarded mc n d v lt = (
  record d { mc_depth = d.mc_depth + 1 },
  ground (arith, v),
  ground (arith, v),
  rw (nonzero d.mc_depth, back d.mc_depth) refl,
)
guarded pf n d v lt = (
  record d { pf_depth = d.pf_depth + 1 },
  ground (arith, v),
  ground (arith, v),
  rw (nonzero d.pf_depth, back d.pf_depth) refl,
)
guarded other n d v lt = (d, refl, ground (arith, v), refl)

-- Guards that are nested at most 255 deep, on counters that leave room for them, trip no assertion,
-- and when the last one has ended every counter is what it was.
pub dispatch-balanced :
    (nest : Nest) (n : ℕ) (d : InterruptContextDepths)
    → Below n d
    → n + depth nest ≤ 255
    → dispatch nest d ≡ some d
unfolding dispatch
dispatch-balanced quiet n d v fits = refl
dispatch-balanced (interrupt k inner next) n d v fits =
    let (d1, entered, v1, left) = guarded k n d v (omega arith) in
    rw (entered, dispatch-balanced inner (n + 1) d1 v1 (omega arith), left, dispatch)
      (dispatch-balanced next n d v (omega arith))
