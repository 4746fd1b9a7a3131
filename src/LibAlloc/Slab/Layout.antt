-- ===== src/LibAlloc/Slab/Layout.antt =====
-- The layout that the constructor of `Slab` (libraries/LibAlloc/SlabAllocator.cpp) chooses: the
-- bitmap of free slots first, then the aligned slots.
use cro_cos.Base.{
  ℕ, ◌+◌, ◌-◌, ◌*◌, ◌/◌, ◌%◌, ◌^◌, ◌≤◌, ◌<◌, ◌≡◌, ◌≢◌, arith, Option, ap, inl, inr, ◌⊎◌,
}
use native.Mathlib.Nat.{lt-mul-div-succ, div-lt_iff_lt-mul, div-le_self}
use cro_cos.LibAlloc.Pointers.{add64, align_up_bounds}
use cro_cos.LibAlloc.Slab.{Slab, built, object_count, free_list_size}

-- The arithmetic of the layout: with `n` objects fitting a buffer of `size` bytes beside a bit each,
-- a ninth slot for eight bits needs that no byte is lost to alignment and none to rounding.
covered :
    (s n f size room pad : ℕ)
    → 0 < s
    → 8 * size < n * (8 * s + 1) + (8 * s + 1)
    → f ≡ (n + (8 - 1)) / 8
    → room + f + pad ≤ size
    → (0 < pad) ⊎ (n % 8 ≢ 0)
    → room < (8 * f + 1) * s
covered s n f size room pad pos most ef fits loss =
    let d : ℕ = 8 * f - n in
    let e : 8 * f ≡ n + d = omega arith in omega (arith, ap (λ (t : ℕ). t * s) e)

object_count_bounds :
    (s size : ℕ)
    → 8 * size + 8 * s + 1 < 2 ^ 64
    → (8 * size < object_count s size * (8 * s + 1) + (8 * s + 1))
      × (object_count s size ≤ 8 * size)
unfolding object_count
object_count_bounds s size few =
    let e : (8 * size) % 2 ^ 64 ≡ 8 * size = omega arith in
    let e' : add64 ((8 * s) % 2 ^ 64) 1 ≡ 8 * s + 1 = omega arith in
    rw (e, e')
      (
        omega (arith, lt-mul-div-succ (8 * size) {b = 8 * s + 1} (omega arith)),
        div-le_self (8 * size) (8 * s + 1),
      )

free_list_size_lem :
    (s size : ℕ)
    → object_count s size + 7 < 2 ^ 64
    → free_list_size s size ≡ (object_count s size + (8 - 1)) / 8
unfolding free_list_size
free_list_size_lem s size small = omega arith

module _ (align slot_size store size : ℕ) (bytes : ℕ → ℕ) (contents : ℕ → Option ℕ)
    (pos : 0 < align) (fits : store + size + slot_size + align < 2 ^ 64)
    (room : store + free_list_size slot_size size + align ≤ store + size) where
  abbrev made : Slab
  made = built align slot_size store size bytes contents

  -- The slots lie in the buffer, behind the bitmap, and end with it.
  made_place :
      (store + free_list_size slot_size size ≤ made.backing_storage)
      × (made.backing_storage + made.backing_size ≡ store + size)
  unfolding built
  made_place =
      omega (
        arith,
        align_up_bounds (add64 store (free_list_size slot_size size)) align pos (omega arith),
      )

  -- Let the alignment be above 0, the buffer be large enough for the bitmap and the alignment, the
  -- address of its end, with a slot and the alignment, be below 2 ^ 64, and so be
  -- the numerator of the object count, with its denominator; let a slot have 8 bytes at least. Then the bitmap has a bit for every slot, if
  -- alignment skips a byte behind it or its last byte is not full.
  pub free_list_covers :
      8 ≤ slot_size
      → 8 * size + 8 * slot_size + 1 < 2 ^ 64
      → (made.backing_storage ≢ store + free_list_size slot_size size)
        ⊎ (object_count slot_size size % 8 ≢ 0)
      → made.num_slots ≤ 8 * free_list_size slot_size size
  unfolding built
  free_list_covers big few loss =
      let n : ℕ = object_count slot_size size in
      let f : ℕ = free_list_size slot_size size in
      let (most, small) = object_count_bounds slot_size size few in
      let pad : ℕ = made.backing_storage - (store + f) in
      omega (
        arith,
        (div-lt_iff_lt-mul {k = slot_size} (omega arith)).1 (
            covered slot_size n f size made.backing_size pad (omega arith) most
              (free_list_size_lem slot_size size (omega arith)) (omega (arith, made_place))
              (elim loss [ inl skip ↦ inl (omega (arith, made_place)) | inr part ↦ inr part ])),
      )
