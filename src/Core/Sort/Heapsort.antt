-- ===== src/Core/Sort/Heapsort.antt =====
-- `heapsort` of libraries/Core/include/core/algo/sort.h sorts.
use cro_cos.Base.{
  ℕ, zero, suc, ◌+◌, ◌-◌, ◌/◌, ◌≤◌, ◌<◌, ◌≡◌, Bool, false, refl, sym, ap, ap₂, ◌∙◌, arith, inl, inr,
  ==_cases, lt_cases,
}
use cro_cos.Core.Vector.{swap_cells}
use cro_cos.Core.Sort.{heapify, build_heap, extract, heapsort}
use cro_cos.Core.Sort.Rearranged.{
  Rearranged, Rearranged-refl, Rearranged-trans, Rearranged-widen, Rearranged-inside,
  Rearranged-frame, Rearranged-swap_cells,
}
use cro_cos.Core.Sort.Insertion.{StrictWeak, Sorted}
use cro_cos.Core.Sort.Scan.{irrefl, swap_cells-second, swap_cells-other}
use cro_cos.Core.Sort.Heapify.{Child, HeapFrom, heapify-HeapFrom}

module _ {ℓ} {A : Type ℓ} (comp : A → A → Bool) (order : StrictWeak comp) where
  -- The root of a heap is not less than any of its elements; by recursion to the parent.
  pub root_greatest :
      (fuel size base : ℕ) (m : ℕ → A)
      → HeapFrom comp order size base 0 m
      → (k : ℕ) → k < size
      → k < fuel
      → comp (m base) (m (k + base)) ≡ false
  root_greatest zero size base m heap k lt enough = absurd (omega arith)
  root_greatest (suc fuel) size base m heap k lt enough = elim (==_cases k 0) [
    | inl e ↦ ap (λ i. comp (m base) (m i)) (omega arith) ∙ irrefl comp order (m base)
    | inr ne ↦
        let parent : ℕ = (k - 1) / 2 in
        let child : Child parent k = ground arith in
        order.neg_trans (m base) (m (parent + base)) (m (k + base))
          (root_greatest fuel size base m heap parent (omega arith) (omega arith))
          (heap parent k (omega arith) child lt)
  ]

  build_heap-HeapFrom :
      (size low n : ℕ) (m : ℕ → A)
      → n ≤ size
      → HeapFrom comp order size low n m
      → HeapFrom comp order size low 0 (build_heap comp size low n m)
        × Rearranged low (low + size - 1) m (build_heap comp size low n m)
  unfolding build_heap
  build_heap-HeapFrom size low zero m le heap = (heap, Rearranged-refl low (low + size - 1) m)
  build_heap-HeapFrom size low (suc n) m le heap =
      let m' : ℕ → A = heapify comp size low n m in
      let (larger, moved) = heapify-HeapFrom comp order size low n m (omega arith) heap in
      let (whole, rest) = build_heap-HeapFrom size low n m' (omega arith) larger in
      (whole, Rearranged-trans low (low + size - 1) m m' _ moved rest)

  module _ (low high : ℕ) where
    -- The loop of extractions: a heap of `n + 1` elements, and above it what is in its place.
    record Extracting (n : ℕ) (m : ℕ → A) : Type 0 where
      heap : HeapFrom comp order (suc n) low 0 m
      upper : (a b : ℕ) → low ≤ a → a < b → low + n < b → b ≤ high → comp (m b) (m a) ≡ false

    -- One extraction.
    module _ (n : ℕ) (m : ℕ → A) (v : Extracting (suc n) m) (fits : low + suc n ≤ high) where
      abbrev top : ℕ
      top = low + suc n

      abbrev swapped : ℕ → A
      swapped = swap_cells m low top

      abbrev after : ℕ → A
      after = heapify comp (suc n) low 0 swapped

      heapified :
          HeapFrom comp order (suc n) low 0 after × Rearranged low (low + suc n - 1) swapped after
      heapified = heapify-HeapFrom comp order (suc n) low 0 swapped (omega arith) (λ p c lo ch lt.
          ap₂ comp (swap_cells-other m low top (p + low) (omega arith) (omega (arith, ch)))
            (swap_cells-other m low top (c + low) (omega (arith, ch)) (omega arith))
          ∙ v.heap p c (omega arith) ch (omega arith))

      moved : Rearranged low top m after
      moved =
          Rearranged-trans low top m swapped after
            (Rearranged-swap_cells low top m low top (omega arith, omega arith)
              (omega arith, omega arith))
            (Rearranged-widen low top low (low + suc n - 1) swapped after (omega arith)
              (omega arith) (heapified.1))

      at_top : after top ≡ m low
      at_top =
          Rearranged-frame low (low + suc n - 1) swapped after (heapified.1) top
            (λ (a, b). absurd (omega arith))
          ∙ swap_cells-second m low top top refl

      above_top : (k : ℕ) → top < k → after k ≡ m k
      above_top k lt = Rearranged-frame low top m after moved k (λ (a, b). absurd (omega arith))

      extracted : Extracting n after
      extracted = record {
        heap = heapified.0;
        upper = λ a b la ab nb bh. elim (==_cases b top) [
          | inl e ↦
              let (lo, hi) = Rearranged-inside low top m after moved a la (omega arith) in
              let there : moved.source a - low + low ≡ moved.source a = omega arith in
              ap₂ comp (ap after e ∙ at_top) (moved.moved a ∙ ap m (sym there))
              ∙ root_greatest (suc (suc n)) (suc (suc n)) low m v.heap (moved.source a - low)
                  (omega arith) (omega arith)
          | inr ne ↦ elim (lt_cases top a) [
            | inl a_above ↦
                ap₂ comp (above_top b (omega arith)) (above_top a a_above)
                ∙ v.upper a b la ab (omega arith) bh
            | inr a_in ↦
                let (lo, hi) = Rearranged-inside low top m after moved a la a_in in
                ap₂ comp (above_top b (omega arith)) (moved.moved a)
                ∙ v.upper (moved.source a) b lo (omega arith) (omega arith) bh
          ]
        ];
      }

    extract-Sorted :
        (n : ℕ) (m : ℕ → A)
        → low + n ≤ high
        → Extracting n m
        → Sorted comp low (suc high - low) (extract comp low n m)
          × Rearranged low high m (extract comp low n m)
    unfolding extract
    extract-Sorted zero m le v = (
      (λ i j lo lt lt'. v.upper i j lo lt (omega arith) (omega arith)),
      Rearranged-refl low high m,
    )
    extract-Sorted (suc n) m le v =
        let (sorted, rest) = extract-Sorted n (after n m v le) (omega arith) (extracted n m v le) in
        (
          sorted,
          Rearranged-trans low high m (after n m v le) _
              (Rearranged-widen low high low (low + suc n) m (after n m v le) (omega arith) le
                (moved n m v le))
              rest,
        )

    -- `heapsort` puts the cells from `low` to `high` in order, and only moves them about.
    pub heapsort-Sorted :
        (m : ℕ → A)
        → low ≤ high
        → Sorted comp low (suc high - low) (heapsort comp low high m)
          × Rearranged low high m (heapsort comp low high m)
    unfolding heapsort
    heapsort-Sorted m le =
        let size : ℕ = high - low + 1 in
        let (heap, built) =
          build_heap-HeapFrom size low (size / 2) m (omega arith)
            (λ p c lo ch lt. absurd (omega (arith, ch))) in
        let m' : ℕ → A = build_heap comp size low (size / 2) m in
        let (sorted, moved) = extract-Sorted (high - low) m' (omega arith) (record {
          heap = λ p c lo ch lt. heap p c lo ch (omega arith);
          upper = λ a b la ab nb bh. absurd (omega arith);
        }) in
        (
          sorted,
          Rearranged-trans low high m m' _
              (Rearranged-widen low high low (low + size - 1) m m' (omega arith) (omega arith)
                built)
              moved,
        )
