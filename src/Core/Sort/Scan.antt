-- ===== src/Core/Sort/Scan.antt =====
-- The two inner loops of `partitionHoare` in libraries/Core/include/core/algo/sort.h stop inside
-- the range.
use cro_cos.Base.{
  ℕ, zero, suc, ◌+◌, ◌-◌, ◌≤◌, ◌<◌, ◌≡◌, ◌≢◌, Bool, true, false, some, ◌==◌, refl, ap, ◌∙◌, arith,
  Bool-cases, inl, inr, ==_cases, ==_of_ne,
}
use cro_cos.Base.Memory.{write, write_same, write_other}
use cro_cos.Core.Vector.{swap_cells}
use cro_cos.Core.Sort.{scan_up, scan_down}
use cro_cos.Core.Sort.Insertion.{StrictWeak}

module _ {ℓ} {A : Type ℓ} (m : ℕ → A) (i j : ℕ) where
  pub swap_cells-second : (k : ℕ) → j ≡ k → swap_cells m i j k ≡ m i
  unfolding swap_cells
  swap_cells-second k e = write_same (write m i (m j)) j k (m i) e

  pub swap_cells-first : (k : ℕ) → i ≡ k → j ≢ k → swap_cells m i j k ≡ m j
  unfolding swap_cells
  swap_cells-first k e ne = write_other (write m i (m j)) j k (m i) ne ∙ write_same m i k (m j) e

  pub swap_cells-other : (k : ℕ) → i ≢ k → j ≢ k → swap_cells m i j k ≡ m k
  unfolding swap_cells
  swap_cells-other k ne ne' =
      write_other (write m i (m j)) j k (m i) ne' ∙ write_other m i k (m j) ne

module _ {ℓ} {A : Type ℓ} (comp : A → A → Bool) (order : StrictWeak comp) where
  pub irrefl : (a : A) → comp a a ≡ false
  irrefl a = elim (Bool-cases (comp a a)) [ inl e ↦ order.asym a a e | inr e ↦ e ]

  -- Where the first inner loop stops: at the first element that is not less than the pivot.
  pub record StopsUp (low i s : ℕ) (m : ℕ → A) (k : ℕ) : Type 0 where
    pub from : i ≤ k
    pub upto : k ≤ s
    pub stop : comp (m k) (m low) ≡ false
    pub passed : (l : ℕ) → i ≤ l → l < k → comp (m l) (m low) ≡ true

  pub scan_up-StopsUp :
      (fuel low i s : ℕ) (m : ℕ → A)
      → i ≤ s
      → s < i + fuel
      → comp (m s) (m low) ≡ false
      → (k : ℕ) × (scan_up comp fuel low i m ≡ some k) × StopsUp low i s m k
  unfolding scan_up
  scan_up-StopsUp zero low i s m le lt sentinel = absurd (omega arith)
  scan_up-StopsUp (suc fuel) low i s m le lt sentinel = elim (Bool-cases (comp (m i) (m low))) [
    | inl less ↦
        let short : i ≢ s = λ e. ground (arith, ap (λ k. comp (m k) (m low)) e, less, sentinel) in
        let (k, found, v) =
          scan_up-StopsUp fuel low (i + 1) s m (omega (arith, short)) (omega arith) sentinel in
        (
          k,
          rw less found,
          record {
            from = omega (arith, v.from);
            upto = v.upto;
            stop = v.stop;
            passed = λ l lo hi. elim (==_cases l i) [
              | inl e ↦ ap (λ k. comp (m k) (m low)) e ∙ less
              | inr ne ↦ v.passed l (omega arith) hi
            ];
          },
        )
    | inr stop ↦ (
      i,
      rw stop refl,
      record {
        from = omega arith;
        upto = le;
        stop = stop;
        passed = λ l lo hi. absurd (omega arith);
      },
    )
  ]

  -- Where the second stops: at the last element that is not greater; the pivot itself at the latest.
  pub record StopsDown (low j : ℕ) (m : ℕ → A) (k : ℕ) : Type 0 where
    pub from : low ≤ k
    pub upto : k ≤ j
    pub stop : comp (m low) (m k) ≡ false
    pub passed : (l : ℕ) → k < l → l ≤ j → comp (m low) (m l) ≡ true

  pub scan_down-StopsDown :
      (fuel low j : ℕ) (m : ℕ → A)
      → low ≤ j
      → j < low + fuel
      → (k : ℕ) × (scan_down comp fuel low j m ≡ some k) × StopsDown low j m k
  unfolding scan_down
  scan_down-StopsDown zero low j m le lt = absurd (omega arith)
  scan_down-StopsDown (suc fuel) low j m le lt = elim (Bool-cases (comp (m low) (m j))) [
    | inl less ↦
        let short : low ≢ j =
          λ e. ground (arith, ap (λ k. comp (m low) (m k)) e, less, irrefl (m low)) in
        let (k, found, v) =
          scan_down-StopsDown fuel low (j - 1) m (omega (arith, short)) (omega (arith, short)) in
        let above : (j == 0) ≡ false = ==_of_ne j 0 (omega (arith, short)) in
        (
          k,
          rw (less, above) found,
          record {
            from = v.from;
            upto = omega (arith, v.upto);
            stop = v.stop;
            passed = λ l lo hi. elim (==_cases l j) [
              | inl e ↦ ap (λ k. comp (m low) (m k)) e ∙ less
              | inr ne ↦ v.passed l lo (omega arith)
            ];
          },
        )
    | inr stop ↦ (
      j,
      rw stop refl,
      record {
        from = le;
        upto = omega arith;
        stop = stop;
        passed = λ l lo hi. absurd (omega arith);
      },
    )
  ]
