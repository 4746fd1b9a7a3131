-- ===== src/Core/LimboBags/Calls.antt =====
-- Every sequence of calls on the limbo bags of a slot (libraries/Core/include/core/rcu/EpochDomain.h)
-- from a zeroed slot on.
use cro_cos.Base.{ℕ, ◌^◌, ◌<◌, ◌≡◌, ◌≢◌, true, List, [], ◌∷◌, ◌⊎◌}
use cro_cos.Core.LimboBags.{LimboSlot, bag_count, Op, retire_op, sweep_op}
use cro_cos.Core.LimboBags.Expiry.{Inv}
use cro_cos.Core.LimboBags.Drains.{Held}
use cro_cos.Core.LimboBags.Kept.{Retires}

-- What the caller of `retire` answers for: neither pointer is null, the call is in a section, a drain or
-- a teardown, and the epoch fits the word of a bag. `at_` is where it retires its node.
abbrev pub Dated : (ℕ → ℕ) → Op → Type 0
Dated at_ (retire_op c) =
    (at_ c.retiree ≡ c.epoch)
    × (c.epoch < 2 ^ 62)
    × (c.retiree ≢ 0)
    × (c.deleter ≢ 0)
    × (c.in_section ≡ true)
Dated at_ (sweep_op e budget) = Unit

abbrev pub RetiredIn : ℕ → List Op → Type 0
RetiredIn x [] = ⊥
RetiredIn x (op ∷ ops) = Retires op x ⊎ RetiredIn x ops

-- All calls are so, and no node is retired twice.
abbrev pub AllDated : (ℕ → ℕ) → List Op → Type 0
AllDated at_ [] = Unit
AllDated at_ (op ∷ ops) =
    Dated at_ op × ((x : ℕ) → Retires op x → ¬ RetiredIn x ops) × AllDated at_ ops

module _ (at_ : ℕ → ℕ) (bound : ℕ) where
  -- Between the calls: the bags are in order, and hold none of the nodes that are still to come.
  record Ready (ops : List Op) (s : LimboSlot) : Type 0 where
    inv : Inv at_ s
    absent : (x : ℕ) → RetiredIn x ops → ¬ Held x s
    inside : s.open_bag_index < bag_count
