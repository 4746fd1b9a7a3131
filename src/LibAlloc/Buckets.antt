-- ===== src/LibAlloc/Buckets.antt =====
-- The bucket policy of libraries/LibAlloc/SlabAllocator.cpp: which bucket of partially full slabs a
-- slab belongs to, by its occupancy. The number of buckets is the parameter `bucket_count`.
use cro_cos.Base.{
  ℕ, ◌+◌, ◌-◌, ◌*◌, ◌/◌, ◌^◌, ◌≤◌, ◌<◌, leb, if◌then◌else◌, min, max, arith, lt_cases, inl, inr,
}
use native.Mathlib.Nat.{mul-le-mul_right}

abbrev pub slab_fill_percent_shift : ℕ
slab_fill_percent_shift = 2

abbrev pub bucket_percent_table_size : ℕ
bucket_percent_table_size = 26

abbrev pub bucket_percent_overlap : ℕ
bucket_percent_overlap = 20

module _ (bucket_count : ℕ) where
  unfoldable pub interval_nudge : ℕ
  interval_nudge =
      (bucket_percent_table_size * bucket_percent_overlap
        + 100 * bucket_count
        - 1
        + (100 * bucket_count - 1))
      / (100 * bucket_count)

  -- The entries of the two tables.
  unfoldable pub lower_bucket : ℕ → ℕ
  lower_bucket i =
      min ((max i interval_nudge - interval_nudge) * bucket_count / bucket_percent_table_size)
        (bucket_count - 1)

  unfoldable pub upper_bucket : ℕ → ℕ
  upper_bucket i =
      min
        (min (i + interval_nudge) (bucket_percent_table_size - 1)
          * bucket_count
          / bucket_percent_table_size)
        (bucket_count - 1)

  unfoldable pub bucket_index_in_alloc : ℕ → ℕ
  unfolding upper_bucket
  bucket_index_in_alloc occupancy =
      let adjusted = occupancy / 2 ^ slab_fill_percent_shift in
      if leb bucket_percent_table_size adjusted then bucket_count - 1 else upper_bucket adjusted

  unfoldable pub bucket_index_in_free : ℕ → ℕ
  unfolding lower_bucket
  bucket_index_in_free occupancy =
      let adjusted = occupancy / 2 ^ slab_fill_percent_shift in
      if leb bucket_percent_table_size adjusted then bucket_count - 1 else lower_bucket adjusted

  -- A freed slab is put no higher than an allocated one of the same occupancy, and both into a bucket
  -- that there is: the hysteresis never moves a slab by itself.
  pub bucket_index_in_free-le :
      (occupancy : ℕ)
      → 0 < bucket_count
      → (bucket_index_in_free occupancy ≤ bucket_index_in_alloc occupancy)
        × (bucket_index_in_alloc occupancy < bucket_count)
  unfolding bucket_index_in_free bucket_index_in_alloc lower_bucket upper_bucket
  bucket_index_in_free-le occupancy pos =
      let i : ℕ = occupancy / 4 in
      let n : ℕ = interval_nudge in
      elim (lt_cases i 26) [
        | inr big ↦ ground arith
        | inl small ↦
            let le : (max i n - n) * bucket_count ≤ min (i + n) 25 * bucket_count =
              mul-le-mul_right bucket_count (omega arith) in
            ground (arith, le)
      ]
