-- ===== src/Core/Sort/Rearranged.antt =====
-- What every routine of libraries/Core/include/core/algo/sort.h does to the array: it moves the
-- elements of a range about, and leaves the rest alone.
use cro_cos.Base.{
  ℕ, ◌≤◌, ◌≡◌, ◌==◌, if◌then◌else◌, refl, sym, ap, ◌∙◌, arith, Bool-cases, inl, inr, lt_cases,
}
use cro_cos.Core.Vector.{swap_cells}

-- The exchange of two numbers.
abbrev pub transposed : ℕ → ℕ → ℕ → ℕ
transposed i j k = if j == k then i else if i == k then j else k

transposed_twice : (i j k : ℕ) → transposed i j (transposed i j k) ≡ k
transposed_twice i j k = ground arith

transposed_outside :
    (low high i j k : ℕ)
    → (low ≤ i) × (i ≤ high)
    → (low ≤ j) × (j ≤ high)
    → ¬ ((low ≤ k) × (k ≤ high))
    → transposed i j k ≡ k
transposed_outside low high i j k hi hj out = ground arith

module _ {ℓ} {A : Type ℓ} where
  -- The cells of `m'` are those of `m` in another order: `source` tells where each came from, and
  -- `target` is its inverse. Neither moves a cell outside `low`, …, `high`.
  pub record Rearranged (low high : ℕ) (m m' : ℕ → A) : Type ℓ where
    pub source : ℕ → ℕ
    pub target : ℕ → ℕ
    pub moved : (k : ℕ) → m' k ≡ m (source k)
    pub source-target : (k : ℕ) → source (target k) ≡ k
    pub target-source : (k : ℕ) → target (source k) ≡ k
    pub outside : (k : ℕ) → ¬ ((low ≤ k) × (k ≤ high)) → source k ≡ k

  module _ (low high : ℕ) where
    pub Rearranged-refl : (m : ℕ → A) → Rearranged low high m m
    Rearranged-refl m = record {
      source = λ k. k;
      target = λ k. k;
      moved = λ k. refl;
      source-target = λ k. refl;
      target-source = λ k. refl;
      outside = λ k out. refl;
    }

    pub Rearranged-trans :
        (m m' m'' : ℕ → A)
        → Rearranged low high m m'
        → Rearranged low high m' m''
        → Rearranged low high m m''
    Rearranged-trans m m' m'' r r' = record {
      source = λ k. r.source (r'.source k);
      target = λ k. r'.target (r.target k);
      moved = λ k. r'.moved k ∙ r.moved (r'.source k);
      source-target = λ k. ap r.source (r'.source-target (r.target k)) ∙ r.source-target k;
      target-source = λ k. ap r'.target (r.target-source (r'.source k)) ∙ r'.target-source k;
      outside = λ k out. ap r.source (r'.outside k out) ∙ r.outside k out;
    }

    -- A cell outside the range keeps its value.
    pub Rearranged-frame :
        (m m' : ℕ → A)
        → Rearranged low high m m'
        → (k : ℕ) → ¬ ((low ≤ k) × (k ≤ high))
        → m' k ≡ m k
    Rearranged-frame m m' r k out = r.moved k ∙ ap m (r.outside k out)

    -- What stands in the range came from the range.
    pub Rearranged-inside :
        (m m' : ℕ → A) (r : Rearranged low high m m') (k : ℕ)
        → low ≤ k
        → k ≤ high
        → (low ≤ r.source k) × (r.source k ≤ high)
    Rearranged-inside m m' r k le le' =
        let fixed : ¬ ((low ≤ r.source k) × (r.source k ≤ high)) → r.source k ≡ k = λ out.
          sym (r.target-source (r.source k))
          ∙ ap r.target (r.outside (r.source k) out)
          ∙ r.target-source k in
        elim (lt_cases (r.source k) low) [
          | inl below ↦
              let e = fixed (λ (a, b). absurd (omega arith)) in (omega (arith, e), omega (arith, e))
          | inr low_in ↦ elim (lt_cases high (r.source k)) [
            | inl above ↦
                let e = fixed (λ (a, b). absurd (omega arith)) in
                (omega (arith, e), omega (arith, e))
            | inr high_in ↦ (low_in, high_in)
          ]
        ]

    -- A range within the range.
    pub Rearranged-widen :
        (lo hi : ℕ) (m m' : ℕ → A)
        → low ≤ lo
        → hi ≤ high
        → Rearranged lo hi m m'
        → Rearranged low high m m'
    Rearranged-widen lo hi m m' le le' r = record {
      source = r.source;
      target = r.target;
      moved = r.moved;
      source-target = r.source-target;
      target-source = r.target-source;
      outside = λ k out. r.outside k (λ (a, b). out (omega arith, omega arith));
    }

  -- Two cells of the range that trade values.
  pub Rearranged-of_trade :
      (low high : ℕ) (m m' : ℕ → A) (i j : ℕ)
      → (low ≤ i) × (i ≤ high)
      → (low ≤ j) × (j ≤ high)
      → ((k : ℕ) → m' k ≡ m (transposed i j k))
      → Rearranged low high m m'
  Rearranged-of_trade low high m m' i j hi hj h = record {
    source = transposed i j;
    target = transposed i j;
    moved = h;
    source-target = transposed_twice i j;
    target-source = transposed_twice i j;
    outside = λ k out. transposed_outside low high i j k hi hj out;
  }

  pub Rearranged-swap_cells :
      (low high : ℕ) (m : ℕ → A) (i j : ℕ)
      → (low ≤ i) × (i ≤ high)
      → (low ≤ j) × (j ≤ high)
      → Rearranged low high m (swap_cells m i j)
  unfolding swap_cells
  Rearranged-swap_cells low high m i j hi hj = Rearranged-of_trade low high m _ i j hi hj (λ k.
      elim (Bool-cases (j == k)) [
        | inl e ↦ rw e refl
        | inr e ↦ elim (Bool-cases (i == k)) [ inl f ↦ rw (e, f) refl | inr f ↦ rw (e, f) refl ]
      ])
