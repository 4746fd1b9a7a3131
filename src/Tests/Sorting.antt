-- ===== src/Tests/Sorting.antt =====
-- The theorems on libraries/Core/include/core/algo/sort.h and the containers of
-- libraries/Core/include/core/ds at concrete inputs.
use cro_cos.Base.{ℕ, ◌+◌, ◌-◌, ◌*◌, ◌%◌, ◌<◌, ◌≡◌, true, false, none, some, ltb, ◌==◌, refl, arith}
use cro_cos.Base.Memory.{write}
use cro_cos.Core.Vector.{Vector}
use cro_cos.Core.Sort.{sort}
use cro_cos.Core.Sort.Insertion.{StrictWeak, Sorted}
use cro_cos.Core.Sort.Rearranged.{Rearranged}
use cro_cos.Core.Sort.Introsort.{sort-Sorted}
use cro_cos.Core.IndexedHashTable.{IndexedHashTable, tombstone, contains, probe_entry, not_reached}
use cro_cos.Core.IndexedHashTable.Tombstones.{contains-full_of_tombstones}
use cro_cos.Core.Heap as H
use cro_cos.Core.Heap.BubbleUp.{IsHeap}
use cro_cos.Core.Heap.Queue.{push-IsHeap, pop-IsHeap}

ltb_order : StrictWeak ltb
ltb_order = record {
  asym = λ a b h. ground (arith, h);
  neg_trans = λ a b c h h'. ground (arith, h, h');
}

-- Forty elements, in no order.
abbrev shuffled : ℕ → ℕ
shuffled i = (i * 17 + 5) % 40

sort-Sorted_example :
    (m' : ℕ → ℕ) × (sort ltb 40 shuffled ≡ some m')
    × Sorted ltb 0 40 m'
    × Rearranged 0 39 shuffled m'
sort-Sorted_example = sort-Sorted ltb ltb_order 40 shuffled (omega arith) (omega arith)

abbrev blank : ℕ → ℕ → ℕ
blank capacity i = 0

-- A heap, and a vector: the elements 9, 8, 7 in a full buffer.
abbrev three : Vector ℕ
three = record { data_at = λ i. 9 - i; size = 3; capacity = 3 }

three-IsHeap : IsHeap ltb 3 three.data_at
three-IsHeap p c ch lt = ground (arith, ch)

push-IsHeap_example :
    (v : Vector ℕ) × (h' : Vector ℕ) × (H.push ltb blank 20 three ≡ some h')
    × (h'.size ≡ 3 + 1)
    × (((k : ℕ) → k < 3 → v.data_at k ≡ three.data_at k) × (v.data_at 3 ≡ 20))
    × Rearranged 0 3 v.data_at h'.data_at
    × IsHeap ltb h'.size h'.data_at
push-IsHeap_example =
    push-IsHeap ltb ltb_order blank three three-IsHeap (omega arith) (omega arith) 20

pop-IsHeap_example :
    (v : Vector ℕ) × (h' : Vector ℕ) × (H.pop ltb blank three ≡ some (9, h'))
    × ((k : ℕ) → k < 3 → ltb 9 (three.data_at k) ≡ false)
    × (h'.size + 1 ≡ 3)
    × ((k : ℕ) → k < h'.size → v.data_at k ≡ write three.data_at 0 7 k)
    × Rearranged 0 (h'.size - 1) v.data_at h'.data_at
    × IsHeap ltb h'.size h'.data_at
pop-IsHeap_example =
    pop-IsHeap ltb ltb_order blank three three-IsHeap (omega arith) (omega arith) (omega arith)

-- A table of eight entries from which everything was removed.
abbrev emptied : IndexedHashTable ℕ
emptied = record { entry_at = λ _. tombstone; capacity = 8; count = 0; has_buffer = true }

contains-full_of_tombstones_example :
    (probe_entry (λ k. k) ◌==◌ (λ v. v) 5 emptied ≡ not_reached)
    × (contains (λ k. k) ◌==◌ (λ v. v) 5 emptied ≡ none)
contains-full_of_tombstones_example =
    contains-full_of_tombstones (λ k. k) ◌==◌ (λ v. v) 5 emptied refl (omega arith) (λ i _. refl)
