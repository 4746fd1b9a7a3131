-- ===== src/Core/Sort.antt =====
-- libraries/Core/include/core/algo/sort.h.
--
-- The array is a raw memory, and `comp a b` tells whether `a` comes before `b`. Every routine works
-- in place on the cells from `low` to `high`. A scan of the partition that finds no end, or leaves
-- the memory downwards, gives `none`.
pub mod Rearranged
pub mod Insertion
pub mod Scan
pub mod Partition
pub mod Heapify
pub mod Heapsort
pub mod Introsort
use cro_cos.Base.{
  ℕ, zero, suc, ◌+◌, ◌-◌, ◌*◌, ◌/◌, ◌%◌, ◌^◌, ◌≤◌, ◌<◌, ◌≡◌, ◌&&◌, ◌||◌, Bool, true, false, not,
  Option, none, some, ltb, leb, ◌==◌, if◌then◌else◌,
}
use cro_cos.Base.Memory.{write}
use cro_cos.Core.Vector.{swap_cells}
use cro_cos.Core.FrequencyData.{log2floor}
use cro_cos.LibAlloc.Pointers.{sub64}

-- The slice's size is a `size_t`.
abbrev pub slice_size : ℕ → ℕ → ℕ
slice_size low high = (high + 2 ^ 64 - low + 1) % 2 ^ 64

module _ {ℓ} {A : Type ℓ} (comp : A → A → Bool) where
  -- The inner loop of `insertionSort`, at `j = low + n`, and the assignment after it.
  unfoldable pub insert_key : ℕ → ℕ → A → (ℕ → A) → ℕ → A
  insert_key low zero key m = write m low key
  insert_key low (suc n) key m =
      let rest = insert_key low n key (write m (low + suc n) (m (low + n))) in
      if comp key (m (low + n)) then rest else write m (low + suc n) key

  -- Its outer loop: `n` rounds from `i = low + k` on.
  unfoldable pub insertion_rounds : ℕ → ℕ → ℕ → (ℕ → A) → ℕ → A
  unfolding insert_key
  insertion_rounds low zero k m = m
  insertion_rounds low (suc n) k m =
      insertion_rounds low n (k + 1) (insert_key low k (m (low + k)) m)

  unfoldable pub insertion_sort : ℕ → ℕ → (ℕ → A) → ℕ → A
  unfolding insertion_rounds
  insertion_sort low high m = insertion_rounds low (high - low) 1 m

  -- The largest of a node and its two children.
  unfoldable pub largest_of : ℕ → ℕ → ℕ → (ℕ → A) → ℕ
  largest_of heap_size heap_base index m =
      let left = 2 * index + 1 in
      let right = 2 * index + 2 in
      let largest =
        if ltb left heap_size && comp (m (index + heap_base)) (m (left + heap_base))
        then left
        else index in
      if ltb right heap_size && comp (m (largest + heap_base)) (m (right + heap_base))
      then right
      else largest

  -- The loop of `heapify`, on fuel: the index grows in each round and stays below the heap's size.
  unfoldable pub heapify_loop : ℕ → ℕ → ℕ → ℕ → (ℕ → A) → ℕ → A
  unfolding largest_of
  heapify_loop zero heap_size heap_base index m = m
  heapify_loop (suc fuel) heap_size heap_base index m =
      let largest = largest_of heap_size heap_base index m in
      let rest =
        heapify_loop fuel heap_size heap_base largest
          (swap_cells m (index + heap_base) (largest + heap_base)) in
      if largest == index then m else rest

  unfoldable pub heapify : ℕ → ℕ → ℕ → (ℕ → A) → ℕ → A
  heapify heap_size heap_base index m = heapify_loop (suc heap_size) heap_size heap_base index m

  -- The first loop of `heapsort`, whose size is cast to `int64_t`: an array has fewer than 2 ^ 63
  -- elements. It runs from `i = n - 1` down to 0.
  unfoldable pub build_heap : ℕ → ℕ → ℕ → (ℕ → A) → ℕ → A
  unfolding heapify
  build_heap heap_size low zero m = m
  build_heap heap_size low (suc n) m = build_heap heap_size low n (heapify heap_size low n m)

  -- The second, from `i = low + n` down to `low + 1`.
  unfoldable pub extract : ℕ → ℕ → (ℕ → A) → ℕ → A
  extract low zero m = m
  extract low (suc n) m = extract low n (heapify (suc n) low 0 (swap_cells m low (low + suc n)))

  unfoldable pub heapsort : ℕ → ℕ → (ℕ → A) → ℕ → A
  unfolding build_heap extract
  heapsort low high m =
      let slice_size = high - low + 1 in
      extract low (high - low) (build_heap slice_size low (slice_size / 2) m)

  -- `if (comp(data[i], data[j])) swap(data[i], data[j])`.
  unfoldable pub swap_if : ℕ → ℕ → (ℕ → A) → ℕ → A
  swap_if i j m = if comp (m i) (m j) then swap_cells m i j else m

  unfoldable pub median_of_three : ℕ → ℕ → (ℕ → A) → ℕ → A
  unfolding swap_if
  median_of_three low high m =
      let mid = low + (high - low) / 2 in
      swap_cells (swap_if high mid (swap_if mid low (swap_if high low m))) low mid

  -- The first inner loop of `partitionHoare`; `i` is the next index to look at, and the pivot is a
  -- reference to the cell `low`.
  unfoldable pub scan_up : ℕ → ℕ → ℕ → (ℕ → A) → Option ℕ
  scan_up zero low i m = none
  scan_up (suc fuel) low i m =
      let rest = scan_up fuel low (i + 1) m in if comp (m i) (m low) then rest else some i

  -- The second.
  unfoldable pub scan_down : ℕ → ℕ → ℕ → (ℕ → A) → Option ℕ
  scan_down zero low j m = none
  scan_down (suc fuel) low j m =
      let rest = if j == 0 then none else scan_down fuel low (j - 1) m in
      if comp (m low) (m j) then rest else some j

  -- The outer loop, from the next indices to look at: the index that is returned, and the memory.
  unfoldable pub partition_loop : ℕ → ℕ → ℕ → ℕ → ℕ → (ℕ → A) → Option (ℕ × (ℕ → A))
  unfolding scan_up scan_down
  partition_loop zero scans low i0 j0 m = none
  partition_loop (suc fuel) scans low i0 j0 m = elim (scan_up scans low i0 m) [
    | none ↦ none
    | some i ↦ elim (scan_down scans low j0 m) [
      | none ↦ none
      | some j ↦
          let rest = partition_loop fuel scans low (i + 1) (j - 1) (swap_cells m i j) in
          if leb j i then some (j, m) else rest
    ]
  ]

  unfoldable pub partition_hoare : ℕ → ℕ → (ℕ → A) → Option (ℕ × (ℕ → A))
  unfolding partition_loop median_of_three
  partition_hoare low high m =
      let n = high - low + 2 in partition_loop n n low low high (median_of_three low high m)

  unfoldable pub introsort : ℕ → ℕ → ℕ → (ℕ → A) → Option (ℕ → A)
  unfolding insertion_sort heapsort partition_hoare
  introsort zero low high m =
      if leb (slice_size low high) 16
      then some (insertion_sort low high m)
      else some (heapsort low high m)
  introsort (suc depth) low high m = elim (leb (slice_size low high) 16) [
    | true ↦ some (insertion_sort low high m)
    | false ↦ elim (partition_hoare low high m) [
      | none ↦ none
      | some (pivot, m1) ↦ elim (introsort depth low pivot m1) [
        | none ↦ none
        | some m2 ↦ introsort depth (pivot + 1) high m2
      ]
    ]
  ]

  -- `sort(data, size)`.
  unfoldable pub sort : ℕ → (ℕ → A) → Option (ℕ → A)
  unfolding introsort
  sort size m = introsort (log2floor size * 2) 0 (sub64 size 1) m
