-- ===== src/LibAlloc/Bookkeeper/Seed.antt =====
-- `seedAllAvailable` of libraries/LibAlloc/include/liballoc/Slab.h: the tail bits are reserved, and
-- the slab starts well formed.
use cro_cos.Base.{
  ℕ, zero, suc, ◌+◌, ◌-◌, ◌*◌, ◌/◌, ◌%◌, ◌≤◌, ◌<◌, ◌≡◌, ◌||◌, true, false, some, refl, arith, ap,
  ◌∙◌, length, replicate, length-replicate, get_or-replicate,
}
use mathlib.Core.Path.{subst}
use native.Mathlib.Nat.{mod-eq_of_lt}
use cro_cos.Core.SplitBitmap.{reserve_bit, count_available, seed_all_available, ones, zeros}
use cro_cos.Core.SplitBitmap.Claim.{bit_of}
use cro_cos.Core.SplitBitmap.Available as Bits
use cro_cos.Core.SplitBitmap.Available.{available}
use cro_cos.Core.SplitBitmap.Release.{is_bit_available_lem}
use cro_cos.Core.SplitBitmap.Reserve.{Reserved, reserve_bit-Reserved, seed_all_available-Inv}
use cro_cos.LibAlloc.Bookkeeper.{
  SlabBookkeeper, reserve_slot, reserve_slots, seed_available, word_count, count_mod,
}
use cro_cos.LibAlloc.Bookkeeper.Slots.{Inv}

apart : (i j : ℕ) → i < j → ¬ ((j / 64 ≡ i / 64) × (j % 64 ≡ i % 64))
apart i j lt (a, b) = absurd (omega arith)

ones_bit : (n k i : ℕ) → k < n → i < 64 → bit_of (replicate n ones) k i ≡ true
unfolding ones
ones_bit zero k i hk hi = absurd (omega arith)
ones_bit (suc n) zero i hk hi = get_or-replicate 64 i true false hi
ones_bit (suc n) (suc k) i hk hi = ones_bit n k i (omega arith) hi

module _ (slot_count : ℕ) where
  -- A state of the reserving loop: nothing is allocated, and every slot from `i` on is available.
  pub record Seeding (i : ℕ) (b : SlabBookkeeper) : Type 0 where
    pub bits : Bits.Inv b.bitmap
    pub words : length b.bitmap.alloc ≡ word_count slot_count
    pub none_allocated : b.allocated_count ≡ 0
    pub rest :
        (j : ℕ)
        → i ≤ j
        → j < word_count slot_count * 64
        → available b.bitmap (j / 64) (j % 64) ≡ true

  -- The bookkeeper with slot `i` reserved.
  abbrev reserved : ℕ → SlabBookkeeper → SlabBookkeeper
  reserved i b = record b {
    bitmap = reserve_bit b.bitmap i;
    reserved_count = (b.reserved_count + 1) % count_mod slot_count;
  }

  module _ (i : ℕ) (b : SlabBookkeeper) (v : Seeding i b)
      (inside : i < word_count slot_count * 64) where
    taken : Reserved b.bitmap (reserve_bit b.bitmap i) i
    taken = reserve_bit-Reserved b.bitmap v.bits i (omega (arith, v.words))

    reserve_slot_lem : reserve_slot slot_count i b ≡ some (reserved i b)
    unfolding reserve_slot
    reserve_slot_lem = ground (
      arith,
      v.none_allocated,
      is_bit_available_lem b.bitmap v.bits i (omega (arith, v.words, v.bits.same)),
      v.rest i,
    )

    taken_count : count_available (reserve_bit b.bitmap i) + 1 ≡ count_available b.bitmap
    taken_count = rw (v.rest i (omega arith) inside) at taken.counted

    reserved-Seeding : Seeding (i + 1) (reserved i b)
    reserved-Seeding = record {
      bits = taken.inv;
      words = taken.words ∙ v.words;
      none_allocated = v.none_allocated;
      rest = λ j le lt.
          taken.others (j / 64) (j % 64) (apart i j (omega arith)) ∙ v.rest j (omega arith) lt;
    }

  -- What the loop over `n` tail slots from `i` on leaves.
  record Seeded (n : ℕ) (b c : SlabBookkeeper) (end : ℕ) : Type 0 where
    seeding : Seeding end c
    counted : count_available c.bitmap + n ≡ count_available b.bitmap
    kept_back : c.reserved_count ≡ b.reserved_count + n

  reserve_slots-Seeded :
      (n i end : ℕ) (b : SlabBookkeeper)
      → Seeding i b
      → i + n ≡ end
      → end ≤ word_count slot_count * 64
      → b.reserved_count + n < count_mod slot_count
      → (c : SlabBookkeeper) × (reserve_slots slot_count n i b ≡ some c) × Seeded n b c end
  unfolding reserve_slots
  reserve_slots-Seeded zero i end b v e le fits =
      let same : i ≡ end = omega arith in
      (
        b,
        refl,
        record {
          seeding = subst (λ k. Seeding k b) same v;
          counted = omega arith;
          kept_back = omega arith;
        },
      )
  reserve_slots-Seeded (suc n) i end b v e le fits =
      let inside : i < word_count slot_count * 64 = omega arith in
      let count : (b.reserved_count + 1) % count_mod slot_count ≡ b.reserved_count + 1 =
        mod-eq_of_lt (omega arith) in
      let t = taken i b v inside in
      let (c, ran, done) =
        reserve_slots-Seeded n (i + 1) end (reserved i b) (reserved-Seeding i b v inside)
          (omega arith) le (omega arith) in
      (
        c,
        rw (reserve_slot_lem i b v inside, reserve_slots) ran,
        record {
          seeding = done.seeding;
          counted = omega (arith, done.counted, taken_count i b v inside);
          kept_back = omega (arith, done.kept_back);
        },
      )

  fresh-Seeding :
      (usable : ℕ) (b : SlabBookkeeper)
      → word_count slot_count < 256
      → Seeding usable
          (record b { bitmap = seed_all_available (word_count slot_count); allocated_count = 0 })
  unfolding seed_all_available
  fresh-Seeding usable b few = record {
    bits = (seed_all_available-Inv (word_count slot_count) few).0;
    words = length-replicate (word_count slot_count) ones;
    none_allocated = refl;
    rest = λ j le lt.
        ap (λ x. x || bit_of (replicate (word_count slot_count) zeros) (j / 64) (j % 64))
          (ones_bit (word_count slot_count) (j / 64) (j % 64) (omega arith) (omega arith));
  }

  -- `seedAllAvailable(usable)` on a bookkeeper with no slot reserved succeeds, makes exactly `usable`
  -- slots available, counts the others as reserved, and leaves the bookkeeper well formed.
  pub seed_available-Inv :
      (usable : ℕ) (b : SlabBookkeeper)
      → word_count slot_count < 256
      → usable ≤ slot_count
      → b.reserved_count ≡ 0
      → word_count slot_count * 64 - usable < count_mod slot_count
      → (c : SlabBookkeeper) × (seed_available slot_count usable b ≡ some c)
        × (count_available c.bitmap ≡ usable)
        × (c.reserved_count ≡ word_count slot_count * 64 - usable)
        × Inv slot_count c
  unfolding seed_available
  seed_available-Inv usable b few le fresh fits =
      let W : ℕ = word_count slot_count in
      let (bits, all) = seed_all_available-Inv W few in
      let start : SlabBookkeeper = record b {
        bitmap = seed_all_available W;
        allocated_count = 0;
      } in
      let (c, ran, done) =
        reserve_slots-Seeded (W * 64 - usable) usable (W * 64) start (fresh-Seeding usable b few)
          (omega arith) (omega arith) (omega arith) in
      (
        c,
        ground (arith, ran),
        omega (arith, done.counted, all),
        omega (arith, done.kept_back),
        record {
          bits = done.seeding.bits;
          words = done.seeding.words;
          total = omega (arith, done.counted, done.kept_back, done.seeding.none_allocated, all);
          usable = omega (arith, done.kept_back);
        },
      )
