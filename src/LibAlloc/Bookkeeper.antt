-- ===== src/LibAlloc/Bookkeeper.antt =====
-- libraries/LibAlloc/include/liballoc/Slab.h, the class `SlabBookkeeper`, and
-- libraries/LibAlloc/include/liballoc/OccupancyTransition.h.
--
-- The bookkeeper owns a `SplitBitmap` and counts what is allocated and what is reserved. The
-- template parameter `SlotCount` is the section's parameter. Each method is the sequence of its
-- steps with no other CPU in between.
pub mod Slots
pub mod Seed
use cro_cos.Base.{
  ℕ, zero, suc, ◌+◌, ◌-◌, ◌*◌, ◌/◌, ◌%◌, ◌^◌, ◌≤◌, ◌<◌, ◌≡◌, ◌&&◌, ◌||◌, Bool, true, false, not,
  Option, none, some, ltb, leb, ◌==◌, if◌then◌else◌, List, [], ◌∷◌,
}
use cro_cos.Core.SplitBitmap.{
  SplitBitmap, claim_bit, release_bit, release_bits_bulk, reserve_bit, is_bit_available,
  seed_all_available, seed_all_used, flush_alloc_into_free,
}
use cro_cos.LibAlloc.Pointers.{sub64}

pub data OccupancyState : Type 0 where
  empty partial full : OccupancyState

abbrev pub is_full_state : OccupancyState → Bool
is_full_state full = true
is_full_state _ = false

abbrev pub is_empty_state : OccupancyState → Bool
is_empty_state empty = true
is_empty_state _ = false

pub record OccupancyTransition : Type 0 where
  pub before : OccupancyState
  pub after : OccupancyState

unfoldable pub became_full : OccupancyTransition → Bool
became_full t = not (is_full_state t.before) && is_full_state t.after

unfoldable pub became_empty : OccupancyTransition → Bool
became_empty t = not (is_empty_state t.before) && is_empty_state t.after

unfoldable pub became_available : OccupancyTransition → Bool
became_available t = is_full_state t.before && not (is_full_state t.after)

unfoldable pub state_from_count : ℕ → ℕ → OccupancyState
state_from_count count max_alloc =
    if count == 0 then empty else if leb max_alloc count then full else partial

pub record SlabBookkeeper : Type 0 where
  pub bitmap : SplitBitmap
  pub allocated_count : ℕ  -- SlotCountType
  pub reserved_count : ℕ  -- SlotCountType

module _ (slot_count : ℕ) where
  abbrev pub word_count : ℕ
  word_count = (slot_count + 63) / 64

  -- The number of values of `SlotCountType`, the least of the unsigned types that holds SlotCount.
  abbrev pub count_mod : ℕ
  count_mod =
      if ltb slot_count (2 ^ 8)
      then 2 ^ 8
      else if ltb slot_count (2 ^ 16)
      then 2 ^ 16
      else if ltb slot_count (2 ^ 32)
      then 2 ^ 32
      else 2 ^ 64

  abbrev pub max_alloc : SlabBookkeeper → ℕ
  max_alloc b = sub64 (word_count * 64) b.reserved_count

  abbrev pub transition : SlabBookkeeper → ℕ → ℕ → OccupancyTransition
  transition b prev next = record {
    before = state_from_count prev (max_alloc b);
    after = state_from_count next (max_alloc b);
  }

  -- The claim, the drain and the second claim are those of `claimBit`, in the same order.
  unfoldable pub alloc_slot : SlabBookkeeper → Option ℕ × OccupancyTransition × SlabBookkeeper
  unfolding state_from_count
  alloc_slot b =
      let claimed = claim_bit b.bitmap in
      let prev = b.allocated_count in
      elim (claimed.0) [
        | none ↦ (none, transition b prev prev, record b { bitmap = claimed.1 })
        | some bit ↦ (
          some bit,
          transition b prev (prev + 1),
          record b { bitmap = claimed.1; allocated_count = (prev + 1) % count_mod },
        )
      ]

  -- The loop of `allocSlots`: the slots in the order of the callbacks, and the bitmap.
  unfoldable pub claim_slots : ℕ → SplitBitmap → List ℕ × SplitBitmap
  claim_slots zero m = ([], m)
  claim_slots (suc count) m =
      let claimed = claim_bit m in
      let rest = claim_slots count claimed.1 in
      elim (claimed.0) [ none ↦ ([], claimed.1) | some bit ↦ (bit ∷ rest.0, rest.1) ]

  abbrev pub length_of : List ℕ → ℕ
  length_of [] = 0
  length_of (_ ∷ l) = suc (length_of l)

  unfoldable pub alloc_slots : ℕ → SlabBookkeeper → List ℕ × OccupancyTransition × SlabBookkeeper
  unfolding claim_slots state_from_count
  alloc_slots count b =
      let claimed = claim_slots count b.bitmap in
      let allocated = length_of claimed.0 in
      let prev = b.allocated_count in
      (
        claimed.0,
        transition b prev (prev + allocated),
        record b {
          bitmap = claimed.1;
          allocated_count = (prev + allocated % count_mod) % count_mod;
        },
      )

  -- `none`: the bitmap's assertion against a double free fails.
  unfoldable pub free_slot : ℕ → SlabBookkeeper → Option (OccupancyTransition × SlabBookkeeper)
  unfolding state_from_count
  free_slot slot b =
      let prev = b.allocated_count in
      elim (release_bit b.bitmap slot) [
        | none ↦ none
        | some (_, m) ↦ some (
          transition b prev (sub64 prev 1),
          record b { bitmap = m; allocated_count = (prev + count_mod - 1) % count_mod },
        )
      ]

  unfoldable pub free_slots_bulk :
      List (List Bool) → ℕ → SlabBookkeeper → Option (OccupancyTransition × SlabBookkeeper)
  unfolding state_from_count
  free_slots_bulk pending released_count b =
      let prev = b.allocated_count in
      elim (release_bits_bulk b.bitmap pending) [
        | none ↦ none
        | some m ↦ some (
          transition b prev (sub64 prev released_count),
          record b {
            bitmap = m;
            allocated_count = (prev + count_mod - released_count % count_mod) % count_mod;
          },
        )
      ]

  -- `none`: the slab is not quiescent, and the assertion fails.
  unfoldable pub reserve_slot : ℕ → SlabBookkeeper → Option SlabBookkeeper
  reserve_slot slot b =
      if b.allocated_count == 0
      then some (
          if is_bit_available b.bitmap slot
          then record b {
            bitmap = reserve_bit b.bitmap slot;
            reserved_count = (b.reserved_count + 1) % count_mod;
          }
          else b)
      else none

  -- The loop over the tail, `n` slots from `i` on.
  unfoldable pub reserve_slots : ℕ → ℕ → SlabBookkeeper → Option SlabBookkeeper
  unfolding reserve_slot
  reserve_slots zero i b = some b
  reserve_slots (suc n) i b = elim (reserve_slot i b) [
    | none ↦ none
    | some b' ↦ reserve_slots n (i + 1) b'
  ]

  -- `seedAllAvailable(usableCount)`.
  unfoldable pub seed_available : ℕ → SlabBookkeeper → Option SlabBookkeeper
  unfolding reserve_slots
  seed_available usable b =
      let seeded = record b { bitmap = seed_all_available word_count; allocated_count = 0 } in
      let done = reserve_slots (word_count * 64 - usable) usable seeded in
      if leb usable slot_count then done else none

  unfoldable pub seed_used : SlabBookkeeper → SlabBookkeeper
  seed_used b = record b {
    bitmap = seed_all_used word_count;
    allocated_count = max_alloc b % count_mod;
  }

  unfoldable pub flush_alloc_side : SlabBookkeeper → SlabBookkeeper
  flush_alloc_side b = record b { bitmap = flush_alloc_into_free b.bitmap }

  unfoldable pub is_full : SlabBookkeeper → Bool
  is_full b = b.allocated_count == max_alloc b % count_mod

  unfoldable pub is_empty : SlabBookkeeper → Bool
  is_empty b =
      b.allocated_count == 0 && b.reserved_count == (word_count * 64 - slot_count) % count_mod

  unfoldable pub free_slot_count : SlabBookkeeper → ℕ
  free_slot_count b = sub64 (sub64 (word_count * 64) b.reserved_count) b.allocated_count
