-- ===== src/LibAlloc/Bookkeeper/Slots.antt =====
-- `allocSlot` and `freeSlot` of libraries/LibAlloc/include/liballoc/Slab.h: the counts agree with
-- the bitmap, and the reported transitions with the counts.
use cro_cos.Base.{
  ℕ, ◌+◌, ◌-◌, ◌*◌, ◌/◌, ◌%◌, ◌^◌, ◌≤◌, ◌<◌, ◌≡◌, ◌↔◌, true, false, Option, none, some, refl, arith,
  ap, ◌∙◌, length, inl, inr, Option-cases,
}
use native.Mathlib.Nat.{mod-eq_of_lt, add-mod_right}
use cro_cos.Core.SplitBitmap.{SplitBitmap, claim_bit, count_available}
use cro_cos.Core.SplitBitmap.Available as Bits
use cro_cos.Core.SplitBitmap.Available.{Claimed, available}
use cro_cos.Core.SplitBitmap.ClaimBit.{claim_bit-ClaimResult}
use cro_cos.Core.SplitBitmap.Release.{Released, release_bit-Released}
use cro_cos.LibAlloc.Pointers.{sub64}
use cro_cos.LibAlloc.Bookkeeper.{
  SlabBookkeeper, OccupancyTransition, alloc_slot, free_slot, state_from_count, became_full,
  became_available, became_empty, word_count, count_mod, max_alloc, transition, free_slot_count,
}

-- One slot more fills the slab exactly if it was the last.
became_full_lem :
    (prev most : ℕ)
    → prev < most
    → (became_full
          (record { before = state_from_count prev most; after = state_from_count (prev + 1) most })
        ≡ true)
      ↔ (prev + 1 ≡ most)
unfolding became_full state_from_count
became_full_lem prev most lt = (λ h. ground arith, λ h. ground arith)

-- One slot fewer makes a full slab available again, and no other.
became_available_lem :
    (prev most : ℕ)
    → 0 < prev
    → prev ≤ most
    → (became_available
          (record { before = state_from_count prev most; after = state_from_count (prev - 1) most })
        ≡ true)
      ↔ (prev ≡ most)
unfolding became_available state_from_count
became_available_lem prev most pos le = (λ h. ground arith, λ h. ground arith)

became_empty_lem :
    (prev most : ℕ)
    → 0 < prev
    → prev ≤ most
    → (became_empty
          (record { before = state_from_count prev most; after = state_from_count (prev - 1) most })
        ≡ true)
      ↔ (prev ≡ 1)
unfolding became_empty state_from_count
became_empty_lem prev most pos le = (λ h. ground arith, λ h. ground arith)

count_mod-lt : (slot_count : ℕ) → slot_count < 2 ^ 64 → slot_count < count_mod slot_count
count_mod-lt slot_count h = ground arith

module _ (slot_count : ℕ) where
  -- Every bit is allocated, reserved or available, and at most SlotCount bits are not reserved.
  pub record Inv (b : SlabBookkeeper) : Type 0 where
    pub bits : Bits.Inv b.bitmap
    pub words : length b.bitmap.alloc ≡ word_count slot_count
    pub total :
        b.allocated_count + b.reserved_count + count_available b.bitmap ≡ word_count slot_count * 64
    pub usable : word_count slot_count * 64 ≤ b.reserved_count + slot_count

  -- A slot was handed out.
  pub record Allocated (b c : SlabBookkeeper) (t : OccupancyTransition) (slot : ℕ) : Type 0 where
    pub taken : Claimed b.bitmap c.bitmap slot
    pub counted : c.allocated_count ≡ b.allocated_count + 1
    pub filled : (became_full t ≡ true) ↔ (free_slot_count slot_count c ≡ 0)
    pub inv : Inv c

  abbrev pub AllocResult : SlabBookkeeper → Option ℕ → OccupancyTransition → SlabBookkeeper → Type 0
  AllocResult b none t c = (free_slot_count slot_count b ≡ 0) × (t.before ≡ t.after) × Inv c
  AllocResult b (some slot) t c = Allocated b c t slot

  -- A slot was taken back.
  pub record Freed (b c : SlabBookkeeper) (t : OccupancyTransition) (slot : ℕ) : Type 0 where
    pub put_back : Released b.bitmap c.bitmap slot
    pub counted : c.allocated_count + 1 ≡ b.allocated_count
    pub opened : (became_available t ≡ true) ↔ (free_slot_count slot_count b ≡ 0)
    pub emptied : (became_empty t ≡ true) ↔ (c.allocated_count ≡ 0)
    pub inv : Inv c

  module _ (b : SlabBookkeeper) (v : Inv b) where
    free_slot_count_lem : free_slot_count slot_count b ≡ count_available b.bitmap
    unfolding free_slot_count
    free_slot_count_lem = omega (arith, v.total, v.bits.few, v.words)

    small : slot_count < count_mod slot_count
    small = count_mod-lt slot_count (omega (arith, v.bits.few, v.words))

    max_alloc_lem : max_alloc slot_count b + b.reserved_count ≡ word_count slot_count * 64
    max_alloc_lem = omega (arith, v.total, v.bits.few, v.words)

    module _ (slot : ℕ) (c : SplitBitmap) (t : Claimed b.bitmap c slot) where
      count_fits : (b.allocated_count + 1) % count_mod slot_count ≡ b.allocated_count + 1
      count_fits = mod-eq_of_lt (omega (arith, small, t.counted, v.total, v.usable))

      abbrev after_claim : SlabBookkeeper
      after_claim = record b {
        bitmap = c;
        allocated_count = (b.allocated_count + 1) % count_mod slot_count;
      }

      claimed_inv : Inv after_claim
      claimed_inv = record {
        bits = t.inv;
        words = t.words ∙ v.words;
        total = omega (arith, count_fits, t.counted, v.total);
        usable = v.usable;
      }

      claimed_filled :
          (became_full (transition slot_count b b.allocated_count (b.allocated_count + 1)) ≡ true)
          ↔ (free_slot_count slot_count after_claim ≡ 0)
      unfolding free_slot_count
      claimed_filled =
          let (to, from) =
            became_full_lem b.allocated_count (max_alloc slot_count b)
              (omega (arith, max_alloc_lem, t.counted, v.total)) in
          (
            λ h. omega (arith, to h, count_fits, max_alloc_lem, v.total, t.counted),
            λ h. from (omega (arith, count_fits, max_alloc_lem, v.total, t.counted)),
          )

    -- `allocSlot` hands out a slot exactly if one is free; the slot was free, and no longer is; the
    -- allocated count rises by one; `becameFull` is reported exactly if no slot is left.
    pub alloc_slot-AllocResult : let r = alloc_slot slot_count b in AllocResult b r.0 r.1 r.2
    unfolding alloc_slot
    alloc_slot-AllocResult = elim (Option-cases ((claim_bit b.bitmap).0)) [
      | inl nothing ↦
          rw (nothing, alloc_slot)
            (let (none_left, none_after, words, bits) =
                rw nothing at (claim_bit-ClaimResult b.bitmap v.bits) in
              (
                free_slot_count_lem ∙ none_left,
                refl,
                record {
                  bits = bits;
                  words = words ∙ v.words;
                  total = omega (arith, v.total);
                  usable = v.usable;
                },
              ))
      | inr (slot, found) ↦
          rw (found, alloc_slot)
            (let t = rw found at (claim_bit-ClaimResult b.bitmap v.bits) in
              record {
                taken = t;
                counted = count_fits slot _ t;
                filled = claimed_filled slot _ t;
                inv = claimed_inv slot _ t;
              })
    ]

    module _ (slot : ℕ) (c : SplitBitmap) (t : Released b.bitmap c slot)
        (words : length c.alloc ≡ length b.bitmap.alloc) (pos : 0 < b.allocated_count) where
      count_falls :
          ((b.allocated_count + count_mod slot_count - 1) % count_mod slot_count
            ≡ b.allocated_count - 1)
          × (sub64 b.allocated_count 1 ≡ b.allocated_count - 1)
      count_falls =
          let e : b.allocated_count + count_mod slot_count - 1
              ≡ (b.allocated_count - 1) + count_mod slot_count =
            omega (arith, small) in
          (
            ap (λ x. x % count_mod slot_count) e
                ∙ add-mod_right (b.allocated_count - 1) (count_mod slot_count)
                ∙ mod-eq_of_lt (omega (arith, small, v.total, v.usable)),
            omega (arith, small, v.total, v.usable),
          )

      in_use : b.allocated_count ≤ max_alloc slot_count b
      in_use = omega (arith, max_alloc_lem, v.total)

      abbrev after_free : SlabBookkeeper
      after_free = record b {
        bitmap = c;
        allocated_count = (b.allocated_count + count_mod slot_count - 1) % count_mod slot_count;
      }

      freed :
          Freed b after_free
            (transition slot_count b b.allocated_count (sub64 b.allocated_count 1))
            slot
      unfolding free_slot_count
      freed = record {
        put_back = t;
        counted = omega (arith, count_falls);
        opened =
            let (to, from) =
              became_available_lem b.allocated_count (max_alloc slot_count b) pos in_use in
            rw (count_falls.1) (
              λ h. omega (arith, to h, max_alloc_lem, v.total),
              λ h. from (omega (arith, max_alloc_lem, v.total)),
            );
        emptied =
            let (to, from) =
              became_empty_lem b.allocated_count (max_alloc slot_count b) pos in_use in
            rw (count_falls.1, count_falls.0) (λ h. omega (arith, to h), λ h. from (omega arith));
        inv = record {
          bits = t.inv;
          words = words ∙ v.words;
          total = omega (arith, count_falls, t.counted, v.total);
          usable = v.usable;
        };
      }

    -- `freeSlot` of a slot that was handed out puts it back: it is available again, no other slot
    -- changes, the allocated count falls by one, `becameAvailable` is reported exactly if the slab
    -- was full, and `becameEmpty` exactly if the slot was the last one allocated.
    pub free_slot-Freed :
        (slot : ℕ)
        → slot < word_count slot_count * 64
        → available b.bitmap (slot / 64) (slot % 64) ≡ false
        → 0 < b.allocated_count
        → (t : OccupancyTransition) × (c : SlabBookkeeper) × (free_slot slot_count slot b
            ≡ some (t, c))
          × Freed b c t slot
    unfolding free_slot
    free_slot-Freed slot inside used pos =
        let (accepted, t) =
          release_bit-Released b.bitmap v.bits slot (omega (arith, v.words, v.bits.same)) used in
        (_, _, rw (accepted, free_slot), freed slot _ t refl pos)
