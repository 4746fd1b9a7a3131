-- ===== src/Core/Sort/Insertion.antt =====
-- `insertionSort` of libraries/Core/include/core/algo/sort.h sorts.
use cro_cos.Base.{
  ℕ, zero, suc, ◌+◌, ◌-◌, ◌≤◌, ◌<◌, ◌≡◌, ◌≢◌, Bool, true, false, ltb, leb, ◌==◌, if◌then◌else◌,
  refl, sym, ap, ◌∙◌, arith, Bool-cases, inl, inr, ==_cases, lt_cases,
}
use cro_cos.Base.Memory.{write, write_same, write_other}
use cro_cos.Core.Sort.{insert_key, insertion_rounds, insertion_sort}
use cro_cos.Core.Sort.Rearranged.{Rearranged, Rearranged-refl, Rearranged-trans, Rearranged-widen}

-- What the comparator must be: a strict weak order.
pub record StrictWeak {ℓ} {A : Type ℓ} (comp : A → A → Bool) : Type ℓ where
  pub asym : (a b : A) → comp a b ≡ true → comp b a ≡ false
  pub neg_trans : (a b c : A) → comp a b ≡ false → comp b c ≡ false → comp a c ≡ false

-- No element of the `n` cells from `low` on comes before an earlier one.
abbrev pub Sorted {ℓ} : {A : Type ℓ} → (A → A → Bool) → ℕ → ℕ → (ℕ → A) → Type 0
Sorted comp low n m = (i j : ℕ) → low ≤ i → i < j → j < low + n → comp (m j) (m i) ≡ false

module _ {ℓ} {A : Type ℓ} (comp : A → A → Bool) where
  -- The key stands `place` cells above `low`; the greater elements have moved up by one.
  record Inserted (low n : ℕ) (key : A) (m r : ℕ → A) : Type ℓ where
    place : ℕ
    within : place ≤ n
    here : r (low + place) ≡ key
    below : (k : ℕ) → k < low + place → r k ≡ m k
    above : (k : ℕ) → low + place ≤ k → k < low + n → r (suc k) ≡ m k
    beyond : (k : ℕ) → low + n < k → r k ≡ m k
    greater : (k : ℕ) → low + place ≤ k → k < low + n → comp key (m k) ≡ true
    stop : (k : ℕ) → low + place ≡ suc k → low ≤ k → comp key (m k) ≡ false

  insert_key-Inserted :
      (low n : ℕ) (key : A) (m : ℕ → A) → Inserted low n key m (insert_key comp low n key m)
  unfolding insert_key
  insert_key-Inserted low zero key m = record {
    place = 0;
    within = omega arith;
    here = write_same m low (low + 0) key (omega arith);
    below = λ k lt. write_other m low k key (omega arith);
    above = λ k le lt. absurd (omega arith);
    beyond = λ k lt. write_other m low k key (omega arith);
    greater = λ k le lt. absurd (omega arith);
    stop = λ k e le. absurd (omega arith);
  }
  insert_key-Inserted low (suc n) key m =
      let last : ℕ = low + suc n in
      let up : ℕ → A = write m last (m (low + n)) in
      let keep : (k : ℕ) → last ≢ k → up k ≡ m k = λ k ne. write_other m last k (m (low + n)) ne in
      let ih = insert_key-Inserted low n key up in
      elim (Bool-cases (comp key (m (low + n)))) [
        | inl e ↦ rw e (record {
          place = ih.place;
          within = omega (arith, ih.within);
          here = ih.here;
          below = λ k lt. ih.below k lt ∙ keep k (omega (arith, ih.within));
          above = λ k le lt. elim (==_cases k (low + n)) [
            | inl top ↦
                ih.beyond (suc k) (omega arith)
                ∙ write_same m last (suc k) _ (omega arith)
                ∙ ap m (sym top)
            | inr ne ↦ ih.above k le (omega arith) ∙ keep k (omega arith)
          ];
          beyond = λ k lt. ih.beyond k (omega arith) ∙ keep k (omega arith);
          greater = λ k le lt. elim (==_cases k (low + n)) [
            | inl top ↦ ap (λ i. comp key (m i)) top ∙ e
            | inr ne ↦ ap (comp key) (sym (keep k (omega arith))) ∙ ih.greater k le (omega arith)
          ];
          stop =
              λ k e' le. ap (comp key) (sym (keep k (omega (arith, ih.within)))) ∙ ih.stop k e' le;
        })
        | inr e ↦ rw e (record {
          place = suc n;
          within = omega arith;
          here = write_same m last last key refl;
          below = λ k lt. write_other m last k key (omega arith);
          above = λ k le lt. absurd (omega arith);
          beyond = λ k lt. write_other m last k key (omega arith);
          greater = λ k le lt. absurd (omega arith);
          stop = λ k e' le. ap (λ i. comp key (m i)) (omega arith) ∙ e;
        })
      ]

  -- The cells of the result, by where they stand.
  module _ (low n : ℕ) (key : A) (m r : ℕ → A) (v : Inserted low n key m r) where
    at_key : (k : ℕ) → k ≡ low + v.place → r k ≡ key
    at_key k e = ap r e ∙ v.here

    above_key : (k : ℕ) → low + v.place < k → k ≤ low + n → r k ≡ m (k - 1)
    above_key k lt le =
        let e : suc (k - 1) ≡ k = omega arith in
        rw e at (v.above (k - 1) (omega arith) (omega arith))

  -- Where an element of the result came from, and where it went.
  abbrev from_place : ℕ → ℕ → ℕ → ℕ
  from_place p last k =
      if ltb k p then k else if k == p then last else if leb k last then k - 1 else k

  abbrev to_place : ℕ → ℕ → ℕ → ℕ
  to_place p last k =
      if ltb k p then k else if k == last then p else if ltb k last then k + 1 else k

  moved_lem :
      (low n : ℕ) (m r : ℕ → A) (v : Inserted low n (m (low + n)) m r) (k : ℕ)
      → r k ≡ m (from_place (low + v.place) (low + n) k)
  moved_lem low n m r v k = elim (lt_cases k (low + v.place)) [
    | inl lt ↦ v.below k lt ∙ ap m (ground arith)
    | inr le ↦ elim (==_cases k (low + v.place)) [
      | inl e ↦ at_key low n (m (low + n)) m r v k e ∙ ap m (ground arith)
      | inr ne ↦ elim (lt_cases (low + n) k) [
        | inl lt ↦ v.beyond k lt ∙ ap m (ground (arith, v.within))
        | inr le' ↦ above_key low n (m (low + n)) m r v k (omega arith) le' ∙ ap m (ground arith)
      ]
    ]
  ]

  inserted-Rearranged :
      (low n : ℕ) (m r : ℕ → A) → Inserted low n (m (low + n)) m r → Rearranged low (low + n) m r
  inserted-Rearranged low n m r v = record {
    source = from_place (low + v.place) (low + n);
    target = to_place (low + v.place) (low + n);
    moved = moved_lem low n m r v;
    source-target = λ k. ground (arith, v.within);
    target-source = λ k. ground (arith, v.within);
    outside = λ k out. ground (arith, out, v.within);
  }

  module _ (order : StrictWeak comp) where
    before_key :
        (low n : ℕ) (key : A) (m r : ℕ → A) (v : Inserted low n key m r)
        → Sorted comp low n m
        → (i : ℕ) → low ≤ i
        → i < low + v.place
        → comp key (m i) ≡ false
    before_key low n key m r v sorted i le lt =
        let last : ℕ = low + v.place - 1 in
        let stopped : comp key (m last) ≡ false = v.stop last (omega arith) (omega arith) in
        elim (==_cases i last) [
          | inl e ↦ ap (λ k. comp key (m k)) e ∙ stopped
          | inr ne ↦
              order.neg_trans key (m last) (m i) stopped
                (sorted i last le (omega arith) (omega (arith, v.within)))
        ]

    Inserted-Sorted :
        (low n : ℕ) (key : A) (m r : ℕ → A)
        → Inserted low n key m r
        → Sorted comp low n m
        → Sorted comp low (suc n) r
    Inserted-Sorted low n key m r v sorted i j le lt lt' =
        let q : ℕ = low + v.place in
        let left = at_key low n key m r v in
        let right = above_key low n key m r v in
        elim (lt_cases j q) [
          | inl j_low ↦
              rw (v.below j j_low, v.below i (omega arith))
                (sorted i j le lt (omega (arith, v.within)))
          | inr j_high ↦ elim (==_cases j q) [
            | inl j_key ↦
                rw (left j j_key, v.below i (omega arith))
                  (before_key low n key m r v sorted i le (omega arith))
            | inr j_above ↦
                let r_j = right j (omega arith) (omega arith) in
                elim (lt_cases i q) [
                  | inl i_low ↦
                      rw (r_j, v.below i i_low) (sorted i (j - 1) le (omega arith) (omega arith))
                  | inr i_high ↦ elim (==_cases i q) [
                    | inl i_key ↦
                        rw (r_j, left i i_key)
                          (order.asym key (m (j - 1))
                            (v.greater (j - 1) (omega arith) (omega arith)))
                    | inr i_above ↦
                        rw (r_j, right i (omega arith) (omega arith))
                          (sorted (i - 1) (j - 1) (omega arith) (omega arith) (omega arith))
                  ]
                ]
          ]
        ]

    insertion_rounds-Sorted :
        (low high n k : ℕ) (m : ℕ → A)
        → low + (n + k) ≤ suc high
        → Sorted comp low k m
        → Sorted comp low (n + k) (insertion_rounds comp low n k m)
          × Rearranged low high m (insertion_rounds comp low n k m)
    unfolding insertion_rounds
    insertion_rounds-Sorted low high zero k m fits sorted =
        let e : 0 + k ≡ k = omega arith in rw e (sorted, Rearranged-refl low high m)
    insertion_rounds-Sorted low high (suc n) k m fits sorted =
        let r : ℕ → A = insert_key comp low k (m (low + k)) m in
        let v = insert_key-Inserted low k (m (low + k)) m in
        let one_more : Sorted comp low (k + 1) r =
          let e : suc k ≡ k + 1 = omega arith in
          rw e at (Inserted-Sorted low k (m (low + k)) m r v sorted) in
        let (all, rest) = insertion_rounds-Sorted low high n (k + 1) r (omega arith) one_more in
        let e : n + (k + 1) ≡ suc n + k = omega arith in
        (
          rw e at all,
          Rearranged-trans low high m r _
              (Rearranged-widen low high low (low + k) m r (omega arith) (omega arith)
                (inserted-Rearranged low k m r v))
              rest,
        )

    -- `insertionSort` puts the cells from `low` to `high` in order, and only moves them about; on an
    -- empty range it does nothing.
    pub insertion_sort-Sorted :
        (low high : ℕ) (m : ℕ → A)
        → low ≤ suc high
        → Sorted comp low (suc high - low) (insertion_sort comp low high m)
          × Rearranged low high m (insertion_sort comp low high m)
    unfolding insertion_sort insertion_rounds
    insertion_sort-Sorted low high m le = elim (lt_cases high low) [
      | inl none_left ↦
          let e : high - low ≡ 0 = omega arith in
          rw (e, insertion_rounds)
            ((λ i j lo lt lt'. absurd (omega arith)), Rearranged-refl low high m)
      | inr some_left ↦
          let one : Sorted comp low 1 m = λ i j lo lt lt'. absurd (omega arith) in
          let e : high - low + 1 ≡ suc high - low = omega arith in
          rw e at (insertion_rounds-Sorted low high (high - low) 1 m (omega arith) one)
    ]
