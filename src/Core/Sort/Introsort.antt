-- ===== src/Core/Sort/Introsort.antt =====
-- `introsort` and `sort` of libraries/Core/include/core/algo/sort.h end and sort.
use cro_cos.Base.{
  ℕ, zero, suc, ◌+◌, ◌-◌, ◌*◌, ◌^◌, ◌≤◌, ◌<◌, ◌≡◌, Bool, false, some, leb, refl, ap, ap₂, ◌∙◌,
  arith, Bool-cases, inl, inr, lt_cases,
}
use cro_cos.LibAlloc.Pointers.{sub64}
use cro_cos.Core.FrequencyData.{log2floor}
use cro_cos.Core.Sort.{insertion_sort, heapsort, introsort, sort, slice_size}
use cro_cos.Core.Sort.Rearranged.{
  Rearranged, Rearranged-trans, Rearranged-widen, Rearranged-inside, Rearranged-frame,
}
use cro_cos.Core.Sort.Insertion.{StrictWeak, Sorted, insertion_sort-Sorted}
use cro_cos.Core.Sort.Heapsort.{heapsort-Sorted}
use cro_cos.Core.Sort.Partition.{Split, partition_hoare-Split}

-- A slice that does not count as small has an element.
big_slice :
    (low high : ℕ)
    → low ≤ suc high
    → high < 2 ^ 64 - 1
    → leb (slice_size low high) 16 ≡ false
    → low ≤ high
big_slice low high le small h = ground arith

module _ {ℓ} {A : Type ℓ} (comp : A → A → Bool) (order : StrictWeak comp) where
  -- A range that is split, and sorted on both sides, is sorted.
  joined :
      (low p high : ℕ) (m1 m2 m3 : ℕ → A)
      → Split comp order low high p m1
      → Sorted comp low (suc p - low) m2
      → Rearranged low p m1 m2
      → Sorted comp (p + 1) (suc high - (p + 1)) m3
      → Rearranged (p + 1) high m2 m3
      → Sorted comp low (suc high - low) m3
  joined low p high m1 m2 m3 split left r2 right r3 i j lo lt hi =
      let below : (k : ℕ) → k ≤ p → m3 k ≡ m2 k =
        λ k le. Rearranged-frame (p + 1) high m2 m3 r3 k (λ (a, b). absurd (omega arith)) in
      elim (lt_cases p i) [
        | inl i_right ↦ right i j (omega arith) lt (omega arith)
        | inr i_left ↦ elim (lt_cases p j) [
          | inr j_left ↦ ap₂ comp (below j j_left) (below i i_left) ∙ left i j lo lt (omega arith)
          | inl j_right ↦
              let (a_low, a_high) = Rearranged-inside low p m1 m2 r2 i lo i_left in
              let (b_low, b_high) =
                Rearranged-inside (p + 1) high m2 m3 r3 j (omega arith) (omega arith) in
              ap₂ comp
                (r3.moved j
                  ∙ Rearranged-frame low p m1 m2 r2 (r3.source j) (λ (a, b). absurd (omega arith)))
                (below i i_left ∙ r2.moved i)
              ∙ split.apart (r2.source i) (r3.source j) a_low a_high (omega arith) b_high
        ]
      ]

  introsort-Sorted :
      (depth low high : ℕ) (m : ℕ → A)
      → low ≤ suc high
      → high < 2 ^ 64 - 1
      → (m' : ℕ → A) × (introsort comp depth low high m ≡ some m')
        × Sorted comp low (suc high - low) m'
        × Rearranged low high m m'
  unfolding introsort
  introsort-Sorted zero low high m le small = elim (Bool-cases (leb (slice_size low high) 16)) [
    | inl e ↦
        let (sorted, moved) = insertion_sort-Sorted comp order low high m le in
        (insertion_sort comp low high m, rw e refl, sorted, moved)
    | inr e ↦
        let (sorted, moved) =
          heapsort-Sorted comp order low high m (big_slice low high le small e) in
        (heapsort comp low high m, rw e refl, sorted, moved)
  ]
  introsort-Sorted (suc depth) low high m le small =
      elim (Bool-cases (leb (slice_size low high) 16)) [
        | inl e ↦
            let (sorted, moved) = insertion_sort-Sorted comp order low high m le in
            (insertion_sort comp low high m, rw (e, introsort) refl, sorted, moved)
        | inr e ↦
            let (p, m1, split_ran, split, r1) =
              partition_hoare-Split comp order low high m (big_slice low high le small e) in
            let (m2, left_ran, left, r2) =
              introsort-Sorted depth low p m1 (omega (arith, split.low_p))
                (omega (arith, split.p_high)) in
            let (m3, right_ran, right, r3) =
              introsort-Sorted depth (p + 1) high m2 (omega (arith, split.p_high)) small in
            (
              m3,
              rw (e, split_ran, left_ran, introsort) right_ran,
              joined low p high m1 m2 m3 split left r2 right r3,
              Rearranged-trans low high m m1 m3 r1 (
                  Rearranged-trans low high m1 m2 m3
                    (Rearranged-widen low high low p m1 m2 (omega arith) split.p_high r2)
                    (Rearranged-widen low high (p + 1) high m2 m3 (omega (arith, split.low_p))
                      (omega arith) r3)),
            )
      ]

  -- `sort` of an array with an element, by a strict weak order, ends, whatever the depth limit comes
  -- to: no element comes before an earlier one, and the elements are those there were, moved about.
  pub sort-Sorted :
      (size : ℕ) (m : ℕ → A)
      → 0 < size
      → size < 2 ^ 64
      → (m' : ℕ → A) × (sort comp size m ≡ some m')
        × Sorted comp 0 size m'
        × Rearranged 0 (size - 1) m m'
  unfolding sort
  sort-Sorted size m pos small =
      let last : sub64 size 1 ≡ size - 1 = omega arith in
      let (m', ran, sorted, moved) =
        introsort-Sorted (log2floor size * 2) 0 (size - 1) m (omega arith) (omega arith) in
      (
        m',
        ap (λ h. introsort comp (log2floor size * 2) 0 h m) last ∙ ran,
        (λ i j lo lt hi. sorted i j lo lt (omega arith)),
        moved,
      )
