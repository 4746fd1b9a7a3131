-- ===== src/Core/Heap/Queue.antt =====
-- `push` and `pop` of libraries/Core/include/core/ds/Heap.h keep the heap property; `pop` returns a
-- greatest element.
use cro_cos.Base.{
  ℕ, ◌+◌, ◌-◌, ◌^◌, ◌≤◌, ◌<◌, ◌≡◌, Bool, false, some, refl, ap, ap₂, ◌∙◌, arith, inl, inr, ==_cases,
  ==_of_ne, ==_of_eq,
}
use cro_cos.Base.Memory.{write, write_other}
use cro_cos.Core.Vector.{Vector}
use cro_cos.Core.Vector.Sequence.{push-append, pop-last}
use cro_cos.Core.Sort.Rearranged.{Rearranged, Rearranged-refl, Rearranged-widen}
use cro_cos.Core.Sort.Insertion.{StrictWeak}
use cro_cos.Core.Sort.Heapify.{HeapFrom, heapify-HeapFrom}
use cro_cos.Core.Sort.Heapsort.{root_greatest}
use cro_cos.Core.Sort.{heapify}
use cro_cos.Core.Heap.{bubble_up, push, pop}
use cro_cos.Core.Heap.BubbleUp.{IsHeap, Rising, bubble_up-IsHeap}

module _ {ℓ} {A : Type ℓ} (comp : A → A → Bool) (order : StrictWeak comp) (size : ℕ)
    (m : ℕ → A) where
  IsHeap-HeapFrom : IsHeap comp size m → HeapFrom comp order size 0 0 m
  IsHeap-HeapFrom h p c lo ch lt =
      ap₂ (λ a b. comp (m a) (m b)) (omega arith) (omega arith) ∙ h p c ch lt

  HeapFrom-IsHeap : HeapFrom comp order size 0 0 m → IsHeap comp size m
  HeapFrom-IsHeap h p c ch lt =
      ap₂ (λ a b. comp (m a) (m b)) (omega arith) (omega arith) ∙ h p c (omega arith) ch lt

module _ {ℓ} {A : Type ℓ} (comp : A → A → Bool) (order : StrictWeak comp) (fresh : ℕ → ℕ → A)
    (h : Vector A) (heap : IsHeap comp h.size h.data_at) (le : h.size ≤ h.capacity)
    (small : h.capacity < 2 ^ 61) where
  -- `push` adds the element to the vector and then only moves elements about, and the result is a
  -- heap.
  pub push-IsHeap :
      (x : A)
      → (v : Vector A) × (h' : Vector A) × (push comp fresh x h ≡ some h')
        × (h'.size ≡ h.size + 1)
        × (((k : ℕ) → k < h.size → v.data_at k ≡ h.data_at k) × (v.data_at h.size ≡ x))
        × Rearranged 0 h.size v.data_at h'.data_at
        × IsHeap comp h'.size h'.data_at
  unfolding push
  push-IsHeap x =
      let (v, ran, _, fits, bound, grown, cells) = push-append fresh h le (omega arith) x in
      let rising : Rising comp v.size (v.size - 1) v.data_at = record {
        others = λ p c ch lt ne.
            ap₂ comp (cells.0 p (omega (arith, ch, grown))) (cells.0 c (omega (arith, grown)))
            ∙ heap p c ch (omega (arith, grown));
        grandchildren = λ q c ch ch' lt. absurd (omega (arith, ch'));
      } in
      let (whole, moved) =
        bubble_up-IsHeap comp order v.size v.size (v.size - 1) v.data_at (omega (arith, grown))
          (omega (arith, grown)) rising in
      (
        v,
        record v { data_at = bubble_up comp v.size (v.size - 1) v.data_at },
        rw (ran, push) refl,
        grown,
        cells,
        Rearranged-widen 0 h.size 0 (v.size - 1) v.data_at _ (omega arith) (omega (arith, grown))
            moved,
        whole,
      )

  -- `pop` of a heap with an element returns one that none comes after, puts the last element in the
  -- place of the first and then only moves elements about, and what is left is a heap.
  pub pop-IsHeap :
      0 < h.size
      → (v : Vector A) × (h' : Vector A) × (pop comp fresh h ≡ some (h.data_at 0, h'))
        × ((k : ℕ) → k < h.size → comp (h.data_at 0) (h.data_at k) ≡ false)
        × (h'.size + 1 ≡ h.size)
        × ((k : ℕ) → k < h'.size → v.data_at k ≡ write h.data_at 0 (h.data_at (h.size - 1)) k)
        × Rearranged 0 (h'.size - 1) v.data_at h'.data_at
        × IsHeap comp h'.size h'.data_at
  unfolding pop
  pop-IsHeap pos =
      let greatest : (k : ℕ) → k < h.size → comp (h.data_at 0) (h.data_at k) ≡ false = λ k lt.
        ap (λ i. comp (h.data_at 0) (h.data_at i)) (omega arith)
        ∙ root_greatest comp order h.size h.size 0 h.data_at
            (IsHeap-HeapFrom comp order h.size h.data_at heap) k lt lt in
      elim (==_cases h.size 1) [
        | inl one ↦
            let (x, v, ran, _, fits, shorter, cells) = pop-last fresh h le (omega arith) pos in
            (
              v,
              v,
              rw (==_of_ne h.size 0 (omega arith), ==_of_eq h.size 1 one, ran, pop) refl,
              greatest,
              shorter,
              (λ k lt. absurd (omega (arith, shorter))),
              Rearranged-refl 0 (v.size - 1) v.data_at,
              λ p c ch lt. absurd (omega (arith, shorter, ch)),
            )
        | inr many ↦
            let moved_last : Vector A = record h {
              data_at = write h.data_at 0 (h.data_at (h.size - 1));
            } in
            let (x, v, ran, _, fits, shorter, cells) =
              pop-last fresh moved_last le (omega arith) pos in
            let (sunk, moved) =
              heapify-HeapFrom comp order v.size 0 0 v.data_at (omega (arith, shorter))
                (λ p c lo ch lt.
                  ap₂ comp
                    (ap v.data_at (omega arith)
                      ∙ cells p (omega (arith, ch))
                      ∙ write_other h.data_at 0 p _ (omega arith))
                    (ap v.data_at (omega arith)
                      ∙ cells c lt
                      ∙ write_other h.data_at 0 c _ (omega (arith, ch)))
                  ∙ heap p c ch (omega (arith, shorter))) in
            (
              v,
              record v { data_at = heapify comp v.size 0 0 v.data_at },
              rw (==_of_ne h.size 0 (omega arith), ==_of_ne h.size 1 many, ran, pop) refl,
              greatest,
              shorter,
              cells,
              Rearranged-widen 0 (v.size - 1) 0 (0 + v.size - 1) v.data_at _ (omega arith)
                  (omega arith) moved,
              HeapFrom-IsHeap comp order v.size _ sunk,
            )
      ]
