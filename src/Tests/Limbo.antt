-- ===== src/Tests/Limbo.antt =====
-- The theorems on the limbo bags of libraries/Core/include/core/rcu/EpochDomain.h at a run in which one
-- node has expired and another has not.
use cro_cos.Base.{true, ◌<◌, ◌⊎◌, ℕ, ◌≡◌, List, [], ◌∷◌, none, some, refl, arith}
use cro_cos.Core.LimboBags.{
  bag_sealed, bag_open, bag_count, pack_bag, bag_tag_of, bag_state_of, find_free_bag_from,
  drain_claimed_bag, sweep_bags, prepare_open_bag, retire, LimboSlot, RetireCall, new_slot, Op,
  retire_op, sweep_op, perform, perform_all,
}
use cro_cos.Base.Memory.{write}
use cro_cos.Core.TreiberStack.Shape.{In}
use cro_cos.Core.LimboBags.Kept.{Retires, perform-Kept}
use cro_cos.Core.LimboBags.Drains.{Held}

-- Node 5 is retired at epoch 5, node 6 at epoch 6, and then the slot is swept at epoch 7.
abbrev retiring : ℕ → RetireCall
retiring n = record { retiree = n; deleter = 100; epoch = n; in_section = true }

abbrev retires : List Op
retires = retire_op (retiring 5) ∷ retire_op (retiring 6) ∷ []

-- A node with another one behind it may not be retired again.
twice :
    perform_all 100
      (retire_op (retiring 5)
        ∷ retire_op (record (retiring 6) { epoch = 5 })
        ∷ retire_op (record (retiring 6) { epoch = 5 })
        ∷ [])
      new_slot
    ≡ none
unfolding pack_bag bag_tag_of bag_state_of find_free_bag_from drain_claimed_bag sweep_bags
    prepare_open_bag retire perform perform_all
twice = refl

-- The sweep drains node 5 only.
drained_node :
    elim (perform_all 100 retires new_slot) [
      | none ↦ none
      | some s ↦ elim (perform 100 (sweep_op 7 100) s) [ none ↦ none | some r ↦ some (r.0) ]
    ]
    ≡ some (5 ∷ [])
unfolding pack_bag bag_tag_of bag_state_of find_free_bag_from drain_claimed_bag sweep_bags
    prepare_open_bag retire perform perform_all
drained_node = refl

-- Bag 0 is sealed at epoch 5, and bag 1 is open at epoch 6.
abbrev two_bags : LimboSlot
two_bags = record {
  bags =
      write (write new_slot.bags 0 (record { head = 5 ∷ []; tag_state = pack_bag 5 bag_sealed })) 1
        (record { head = 6 ∷ []; tag_state = pack_bag 6 bag_open });
  open_bag_index = 1;
  retire_count = 2;
}

perform-Kept_example :
    (Held 6 two_bags ⊎ Retires (sweep_op 7 100) 6
      → In 6 (sweep_bags bag_count 0 7 100 two_bags).ran
        ⊎ Held 6 (sweep_bags bag_count 0 7 100 two_bags).rest)
    × (Held 6 (sweep_bags bag_count 0 7 100 two_bags).rest
        → Retires (sweep_op 7 100) 6 ⊎ Held 6 two_bags)
    × ((sweep_bags bag_count 0 7 100 two_bags).rest.open_bag_index < bag_count)
unfolding perform
perform-Kept_example =
    perform-Kept 100 (sweep_op 7 100) two_bags (sweep_bags bag_count 0 7 100 two_bags).rest
      (sweep_bags bag_count 0 7 100 two_bags).ran 6 (omega arith) refl
