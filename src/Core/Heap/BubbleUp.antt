-- ===== src/Core/Heap/BubbleUp.antt =====
-- `bubbleUp` of libraries/Core/include/core/ds/Heap.h restores the heap property.
use cro_cos.Base.{
  ℕ, zero, suc, ◌-◌, ◌<◌, ◌≡◌, ◌≢◌, Bool, true, false, sym, ap₂, ◌∙◌, arith, Bool-cases, inl, inr,
  ==_cases, ==_of_ne, ==_of_eq,
}
use mathlib.Core.Path.{subst}
use cro_cos.Core.Vector.{swap_cells}
use cro_cos.Core.Sort.Rearranged.{
  Rearranged, Rearranged-refl, Rearranged-trans, Rearranged-swap_cells,
}
use cro_cos.Core.Sort.Insertion.{StrictWeak}
use cro_cos.Core.Sort.Scan.{swap_cells-first, swap_cells-second, swap_cells-other}
use cro_cos.Core.Sort.Heapify.{Child}
use cro_cos.Core.Heap.{bubble_up, parent}

module _ {ℓ} {A : Type ℓ} (comp : A → A → Bool) where
  -- No element comes after its children.
  abbrev pub IsHeap : ℕ → (ℕ → A) → Type 0
  IsHeap size m = (p c : ℕ) → Child p c → c < size → comp (m p) (m c) ≡ false

  -- The same but for the node `i` below its parent; its children are not greater than the parent.
  pub record Rising (size i : ℕ) (m : ℕ → A) : Type 0 where
    pub others : (p c : ℕ) → Child p c → c < size → c ≢ i → comp (m p) (m c) ≡ false
    pub grandchildren : (q c : ℕ) → Child q i → Child i c → c < size → comp (m q) (m c) ≡ false

  module _ (order : StrictWeak comp) (size : ℕ) where
    module _ (i q : ℕ) (m : ℕ → A) (v : Rising size i m) (child : Child q i) (inside : i < size)
        (more : comp (m q) (m i) ≡ true) where
      abbrev risen : ℕ → A
      risen = swap_cells m i q

      lower : comp (m i) (m q) ≡ false
      lower = order.asym (m q) (m i) more

      at_i : (k : ℕ) → i ≡ k → risen k ≡ m q
      at_i k e = swap_cells-first m i q k e (omega (arith, child))

      at_q : (k : ℕ) → q ≡ k → risen k ≡ m i
      at_q k e = swap_cells-second m i q k e

      at_other : (k : ℕ) → i ≢ k → q ≢ k → risen k ≡ m k
      at_other k ne ne' = swap_cells-other m i q k ne ne'

      risen_others : (p c : ℕ) → Child p c → c < size → c ≢ q → comp (risen p) (risen c) ≡ false
      risen_others p c ch lt ne = elim (==_cases i c) [
        | inl e ↦ ap₂ comp (at_q p (omega (arith, ch, child))) (at_i c e) ∙ lower
        | inr ne' ↦
            let c_kept = at_other c ne' (λ e. ne (sym e)) in
            elim (==_cases q p) [
              | inl e ↦
                  ap₂ comp (at_q p e) c_kept
                  ∙ order.neg_trans (m i) (m q) (m c) lower
                      (v.others q c (subst (λ k. Child k c) (sym e) ch) lt (λ e'. ne' (sym e')))
              | inr nq ↦ elim (==_cases i p) [
                | inl e ↦
                    ap₂ comp (at_i p e) c_kept
                    ∙ v.grandchildren q c child (subst (λ k. Child k c) (sym e) ch) lt
                | inr ni ↦
                    ap₂ comp (at_other p ni nq) c_kept ∙ v.others p c ch lt (λ e'. ne' (sym e'))
              ]
            ]
      ]

      risen_grand : (r c : ℕ) → Child r q → Child q c → c < size → comp (risen r) (risen c) ≡ false
      risen_grand r c ch ch' lt =
          let above : comp (m r) (m q) ≡ false =
            v.others r q ch (omega (arith, child)) (omega (arith, child)) in
          let r_kept = at_other r (omega (arith, ch, child)) (omega (arith, ch)) in
          elim (==_cases i c) [
            | inl e ↦ ap₂ comp r_kept (at_i c e) ∙ above
            | inr ne ↦
                ap₂ comp r_kept (at_other c ne (omega (arith, ch')))
                ∙ order.neg_trans (m r) (m q) (m c) above (v.others q c ch' lt (λ e. ne (sym e)))
          ]

      next : Rising size q risen
      next = record { others = risen_others; grandchildren = risen_grand }

    parent-Child : (i : ℕ) → 0 < i → Child (parent i) i
    unfolding parent
    parent-Child i pos = ground arith

    -- `bubbleUp` of an element that may be greater than its parent makes a heap.
    pub bubble_up-IsHeap :
        (fuel i : ℕ) (m : ℕ → A)
        → i < fuel
        → i < size
        → Rising size i m
        → IsHeap size (bubble_up comp fuel i m)
          × Rearranged 0 (size - 1) m (bubble_up comp fuel i m)
    unfolding bubble_up
    bubble_up-IsHeap zero i m lt inside v = absurd (omega arith)
    bubble_up-IsHeap (suc fuel) i m lt inside v = elim (==_cases i 0) [
      | inl e ↦ rw (==_of_eq i 0 e) (
        (λ p c ch in_heap. v.others p c ch in_heap (omega (arith, ch))),
        Rearranged-refl 0 (size - 1) m,
      )
      | inr ne ↦
          let q : ℕ = parent i in
          let child : Child q i = parent-Child i (omega (arith, ne)) in
          elim (Bool-cases (comp (m q) (m i))) [
            | inr stop ↦
                let settled : IsHeap size m = λ p c ch in_heap. elim (==_cases c i) [
                  | inl e ↦ ap₂ (λ a b. comp (m a) (m b)) (omega (arith, ch, child)) e ∙ stop
                  | inr other ↦ v.others p c ch in_heap other
                ] in
                rw (==_of_ne i 0 ne, stop) (settled, Rearranged-refl 0 (size - 1) m)
            | inl more ↦
                let (heap, moved) =
                  bubble_up-IsHeap fuel q (risen i q m v child inside more) (omega (arith, child))
                    (omega (arith, child)) (next i q m v child inside more) in
                rw (==_of_ne i 0 ne, more)
                  (
                    heap,
                    Rearranged-trans 0 (size - 1) m (swap_cells m i q) _
                        (Rearranged-swap_cells 0 (size - 1) m i q (omega arith, omega arith)
                          (omega arith, omega (arith, child)))
                        moved,
                  )
          ]
    ]
