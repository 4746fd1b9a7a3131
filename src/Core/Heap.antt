-- ===== src/Core/Heap.antt =====
-- libraries/Core/include/core/ds/Heap.h: a priority queue in a vector.
pub mod BubbleUp
pub mod Queue
use cro_cos.Base.{
  ℕ, zero, suc, ◌+◌, ◌-◌, ◌*◌, ◌/◌, ◌%◌, ◌^◌, ◌≤◌, ◌<◌, ◌≡◌, ◌&&◌, ◌||◌, Bool, true, false, not,
  Option, none, some, ltb, leb, ◌==◌, if◌then◌else◌,
}
use cro_cos.Base.Memory.{write}
use cro_cos.Core.Vector.{Vector, swap_cells}
use cro_cos.Core.Vector as V
use cro_cos.Core.Sort.{heapify}
use cro_cos.Core.Sort as S
use cro_cos.LibAlloc.Pointers.{sub64}

unfoldable pub parent : ℕ → ℕ
parent index = (index - 1) / 2

module _ {ℓ} {A : Type ℓ} (comp : A → A → Bool) where
  -- The loop of `bubbleUp`, on fuel: each round at least halves the index.
  unfoldable pub bubble_up : ℕ → ℕ → (ℕ → A) → ℕ → A
  unfolding parent
  bubble_up zero index m = m
  bubble_up (suc fuel) index m =
      let rest = bubble_up fuel (parent index) (swap_cells m index (parent index)) in
      let step = if comp (m (parent index)) (m index) then rest else m in
      if index == 0 then m else step

  module _ (fresh : ℕ → ℕ → A) where
    unfoldable pub push : A → Vector A → Option (Vector A)
    unfolding bubble_up
    push value h = elim (V.push fresh value h) [
      | none ↦ none
      | some v ↦ some (record v { data_at = bubble_up v.size (v.size - 1) v.data_at })
    ]

    -- `none`: the heap is empty, and the assertion fails.
    unfoldable pub pop : Vector A → Option (A × Vector A)
    pop h =
        if h.size == 0
        then none
        else if h.size == 1
        then elim (V.pop fresh h) [ none ↦ none | some (_, v) ↦ some (h.data_at 0, v) ]
        else elim (V.pop fresh
            (record h { data_at = write h.data_at 0 (h.data_at (h.size - 1)) })) [
              | none ↦ none
              | some (_, v) ↦
                  some (h.data_at 0, record v { data_at = heapify comp v.size 0 0 v.data_at })
            ]

    unfoldable pub reserve : ℕ → Vector A → Option (Vector A)
    reserve new_capacity h = V.ensure_room fresh (sub64 new_capacity h.size) h

  -- `buildHeap`, which the constructors from a vector and from an array call.
  unfoldable pub build_heap : Vector A → Vector A
  build_heap h =
      if leb h.size 1
      then h
      else record h { data_at = S.build_heap comp h.size 0 (h.size / 2) h.data_at }

module _ {ℓ} {A : Type ℓ} where
  -- `none`: the heap is empty, and the assertion fails.
  unfoldable pub top : Vector A → Option A
  top h = if h.size == 0 then none else some (h.data_at 0)

  unfoldable pub empty : Vector A → Bool
  empty h = h.size == 0
