-- ===== src/Tests/Allocation.antt =====
-- The theorems on libraries/LibAlloc and libraries/Core/include/core/atomic/SplitBitmap.h at concrete
-- states.
use cro_cos.Base.{
  ◌^◌, ℕ, ◌+◌, ◌*◌, ◌≤◌, ◌≡◌, ◌≢◌, true, false, Option, none, some, ltb, if◌then◌else◌, [], ◌∷◌,
  refl, arith, length, inl,
}
use cro_cos.LibAlloc.Slab.{Slab, free, built, is_slot_free, test_byte, free_list_size, object_count}
use cro_cos.LibAlloc.Slab.Stack as Stack
use cro_cos.LibAlloc.Slab.Stack.{Pops, free_slots, alloc_refines, free_refines}
use cro_cos.LibAlloc.Slab.Layout.{free_list_covers}
use cro_cos.LibAlloc.Pointers.{align_up, align_down}
use cro_cos.Core.SplitBitmap.{
  SplitBitmap, claim_bit, release_bit, reserve_bit, seed_all_available, count_available, ones,
}
use cro_cos.Core.SplitBitmap.Available as Bits
use cro_cos.Core.SplitBitmap.Available.{available}
use cro_cos.Core.SplitBitmap.Claim.{bit_of}
use cro_cos.Core.SplitBitmap.Drain.{Disjoint}
use cro_cos.Core.SplitBitmap.ClaimBit.{ClaimResult, claim_bit-ClaimResult}
use cro_cos.Core.SplitBitmap.Release.{
  Released, release_bit-Released, release_bit_undetected, released, was_zero,
}
use cro_cos.Core.SplitBitmap.Reserve.{Reserved, reserve_bit-Reserved, seed_all_available-Inv}
use cro_cos.LibAlloc.Bookkeeper.{SlabBookkeeper, OccupancyTransition, alloc_slot, free_slot}
use cro_cos.LibAlloc.Bookkeeper.Slots as Slots
use cro_cos.LibAlloc.Bookkeeper.Slots.{AllocResult, alloc_slot-AllocResult, Freed, free_slot-Freed}

-- Two slots of 8 bytes from address 64 on: the first is handed out, the second never was.
abbrev half_used : Slab
half_used = record {
  slot_size = 8;
  backing_storage = 64;
  initialized_horizon = 72;
  backing_size = 16;
  free_count = 1;
  num_slots = 2;
  next_free = some 72;
  mem = λ a. none;
  free_list = λ i. 254;
}

half_used-Inv : Stack.Inv [] 1 half_used
half_used-Inv = record {
  slot_pos = omega arith;
  no_wrap = omega arith;
  room = omega arith;
  tight = omega arith;
  chain = refl;
  distinct = tt;
  below = tt;
  counted = refl;
  at_most = omega arith;
  few = omega arith;
}

first_used : is_slot_free half_used 64 ≡ false
unfolding is_slot_free test_byte
first_used = refl

alloc_refines_example : Pops (free_slots [] 1 half_used) half_used
alloc_refines_example = alloc_refines [] 1 half_used half_used-Inv

free_refines_example :
    (t : Slab) × (free half_used 64 ≡ some t)
    × Stack.Inv (64 ∷ []) 1 t
    × (free_slots (64 ∷ []) 1 t ≡ 64 ∷ free_slots [] 1 half_used)
free_refines_example =
    free_refines [] 1 half_used 64 half_used-Inv first_used tt (omega arith) (omega arith)

-- A slab of slots of 8 bytes, aligned to 64, in the 128 bytes from address 64 on.
abbrev no_bytes : ℕ → ℕ
no_bytes i = 0

abbrev no_pointers : ℕ → Option ℕ
no_pointers a = none

abbrev small_slab : Slab
small_slab = record {
  slot_size = 8;
  backing_storage = 128;
  initialized_horizon = 128;
  backing_size = 64;
  free_count = 8;
  num_slots = 8;
  next_free = some 128;
  mem = no_pointers;
  free_list = λ i. if ltb i 2 then 255 else 0;
}

small_room : 64 + free_list_size 8 128 + 64 ≤ 64 + 128
unfolding free_list_size object_count
small_room = omega arith

small_skips : (built 64 8 64 128 no_bytes no_pointers).backing_storage ≢ 64 + free_list_size 8 128
unfolding built free_list_size object_count align_up align_down
small_skips = omega arith

free_list_covers_example :
    (built 64 8 64 128 no_bytes no_pointers).num_slots ≤ 8 * free_list_size 8 128
free_list_covers_example =
    free_list_covers 64 8 64 128 no_bytes no_pointers (omega arith) (omega arith) small_room
      (omega arith) (omega arith) (inl small_skips)

-- A buffer with no room for the alignment behind its bitmap is not refused: its size wraps around.
size_wraps : ltb (2 ^ 60) (built 64 8 65 60 no_bytes no_pointers).num_slots ≡ true
unfolding built free_list_size object_count align_up align_down
size_wraps = refl

-- Two words of which all bits are available, and the same with bit 70 in use.
abbrev all_available : SplitBitmap
all_available = seed_all_available 2

all_available-Inv : Bits.Inv all_available
all_available-Inv = (seed_all_available-Inv 2 (omega arith)).0

two_words : length all_available.alloc ≡ 2
unfolding seed_all_available
two_words = refl

abbrev one_used : SplitBitmap
one_used = reserve_bit all_available 70

one_used-Reserved : Reserved all_available one_used 70
one_used-Reserved =
    reserve_bit-Reserved all_available all_available-Inv 70 (omega (arith, two_words))

claim_bit-ClaimResult_example : let r = claim_bit one_used in ClaimResult one_used r.0 r.1
claim_bit-ClaimResult_example = claim_bit-ClaimResult one_used one_used-Reserved.inv

one_used_words : length one_used.free ≡ 2
unfolding reserve_bit seed_all_available
one_used_words = refl

release_bit-Released_example :
    (release_bit one_used 70
      ≡ some (
        was_zero one_used one_used-Reserved.inv 70 (omega (arith, one_used_words)),
        released one_used one_used-Reserved.inv 70 (omega (arith, one_used_words)),
      ))
    × Released one_used
        (released one_used one_used-Reserved.inv 70 (omega (arith, one_used_words)))
        70
release_bit-Released_example =
    release_bit-Released one_used one_used-Reserved.inv 70 (omega (arith, one_used_words))
      one_used-Reserved.gone

all_words : length all_available.free ≡ 2
unfolding seed_all_available
all_words = refl

first_set : bit_of all_available.alloc 0 5 ≡ true
unfolding seed_all_available ones
first_set = refl

release_bit_undetected_example :
    (release_bit all_available 5
      ≡ some (
        was_zero all_available all_available-Inv 5 (omega (arith, all_words)),
        released all_available all_available-Inv 5 (omega (arith, all_words)),
      ))
    × (Disjoint
          (released all_available all_available-Inv 5 (omega (arith, all_words))).alloc
          (released all_available all_available-Inv 5 (omega (arith, all_words))).free
        → ⊥)
release_bit_undetected_example =
    release_bit_undetected all_available all_available-Inv 5 (omega (arith, all_words)) first_set

-- A slab of 128 slots of which the slot 70 is in use.
abbrev one_allocated : SlabBookkeeper
one_allocated = record { bitmap = one_used; allocated_count = 1; reserved_count = 0 }

was_available : available all_available 1 6 ≡ true
unfolding seed_all_available ones
was_available = refl

one_fewer : count_available one_used + 1 ≡ 128
one_fewer =
    let counted : count_available one_used + 1 ≡ count_available all_available =
      rw was_available at one_used-Reserved.counted in
    omega (arith, counted, (seed_all_available-Inv 2 (omega arith)).1)

one_allocated-Inv : Slots.Inv 128 one_allocated
one_allocated-Inv = record {
  bits = one_used-Reserved.inv;
  words = omega (arith, one_used-Reserved.words, two_words);
  total = omega (arith, one_fewer);
  usable = omega arith;
}

alloc_slot-AllocResult_example :
    let r = alloc_slot 128 one_allocated in AllocResult 128 one_allocated r.0 r.1 r.2
alloc_slot-AllocResult_example = alloc_slot-AllocResult 128 one_allocated one_allocated-Inv

free_slot-Freed_example :
    (t : OccupancyTransition) × (c : SlabBookkeeper) × (free_slot 128 70 one_allocated
      ≡ some (t, c))
    × Freed 128 one_allocated c t 70
free_slot-Freed_example =
    free_slot-Freed 128 one_allocated one_allocated-Inv 70 (omega arith) one_used-Reserved.gone
      (omega arith)
