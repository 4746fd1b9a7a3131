-- ===== src/Base/Memory.antt =====
-- Raw memory: a `T*` is the function from its index to the value that stands there. `write` is an
-- assignment through the pointer. The window of `n` cells from `lo` on is read off as a list.
use mathlib.Core.Path.{◌≡◌, refl, ap, ap₂}
use mathlib.Core.Logic.{◌≢◌}
use mathlib.Core.List.{List, [], ◌∷◌, ◌++◌}
use Prim.Native.Nat.{ℕ, zero, suc, ◌+◌, ◌-◌, ◌≤◌, ◌<◌}
use native.Mathlib.Omega.{arith}
use cro_cos.Base.Lists.{take, drop}
use cro_cos.Base.Tests.{==_of_eq, ==_of_ne, ◌==◌, if◌then◌else◌}

module _ {ℓ} {A : Type ℓ} where
  abbrev pub write : (ℕ → A) → ℕ → A → ℕ → A
  write m i v j = if i == j then v else m j

  -- The cells `lo`, `lo + 1`, …, `n` of them, as a list.
  abbrev pub window : (ℕ → A) → ℕ → ℕ → List A
  window m lo zero = []
  window m lo (suc n) = m lo ∷ window m (suc lo) n

  pub write_same : (m : ℕ → A) (i j : ℕ) (v : A) → i ≡ j → write m i v j ≡ v
  write_same m i j v e = rw (==_of_eq i j e) refl

  pub write_other : (m : ℕ → A) (i j : ℕ) (v : A) → i ≢ j → write m i v j ≡ m j
  write_other m i j v ne = rw (==_of_ne i j ne) refl

  pub window-write_of_lt :
      (m : ℕ → A) (lo n i : ℕ) (v : A) → i < lo → window (write m i v) lo n ≡ window m lo n
  window-write_of_lt m lo zero i v h = refl
  window-write_of_lt m lo (suc n) i v h =
      ap₂ ◌∷◌ (ground arith) (window-write_of_lt m (suc lo) n i v (omega arith))

  pub window-write_of_le :
      (m : ℕ → A) (lo n i : ℕ) (v : A) → lo + n ≤ i → window (write m i v) lo n ≡ window m lo n
  window-write_of_le m lo zero i v h = refl
  window-write_of_le m lo (suc n) i v h =
      ap₂ ◌∷◌ (ground arith) (window-write_of_le m (suc lo) n i v (omega arith))

  -- A window is what its cells are.
  pub window-ext :
      (m m' : ℕ → A) (lo lo' n : ℕ)
      → ((i : ℕ) → i < n → m (lo + i) ≡ m' (lo' + i))
      → window m lo n ≡ window m' lo' n
  window-ext m m' lo lo' zero h = refl
  window-ext m m' lo lo' (suc n) h =
      let start : lo + 0 ≡ lo = omega arith in
      let start' : lo' + 0 ≡ lo' = omega arith in
      ap₂ ◌∷◌ (rw (start, start') at (h 0 (omega arith))) (
        window-ext m m' (suc lo) (suc lo') n (λ i lt.
          let e : lo + suc i ≡ suc lo + i = omega arith in
          let e' : lo' + suc i ≡ suc lo' + i = omega arith in
          rw (e, e') at (h (suc i) (omega arith))))

  pub window-add :
      (m : ℕ → A) (lo n k : ℕ) → window m lo (n + k) ≡ window m lo n ++ window m (lo + n) k
  window-add m lo zero k =
      let e : lo + 0 ≡ lo = omega arith in let e' : 0 + k ≡ k = omega arith in rw (e, e') refl
  window-add m lo (suc n) k =
      let e : suc n + k ≡ suc (n + k) = omega arith in
      let e' : lo + suc n ≡ suc lo + n = omega arith in
      rw (e, e') (ap (◌∷◌ (m lo)) (window-add m (suc lo) n k))

  pub window-snoc : (m : ℕ → A) (lo n : ℕ) → window m lo (n + 1) ≡ window m lo n ++ m (lo + n) ∷ []
  window-snoc m lo n = window-add m lo n 1

  pub window-cells :
      (m m' : ℕ → A) (n : ℕ) → ((i : ℕ) → i < n → m i ≡ m' i) → window m 0 n ≡ window m' 0 n
  window-cells m m' n h =
      window-ext m m' 0 0 n (λ i lt. let e : 0 + i ≡ i = omega arith in rw e (h i lt))

  pub take-window : (m : ℕ → A) (lo n k : ℕ) → k ≤ n → take k (window m lo n) ≡ window m lo k
  take-window m lo n zero le = refl
  take-window m lo zero (suc k) le = absurd (omega arith)
  take-window m lo (suc n) (suc k) le = ap (◌∷◌ (m lo)) (take-window m (suc lo) n k (omega arith))

  pub drop-window :
      (m : ℕ → A) (lo n k : ℕ) → k ≤ n → drop k (window m lo n) ≡ window m (lo + k) (n - k)
  drop-window m lo n zero le =
      let e : lo + 0 ≡ lo = omega arith in let e' : n - 0 ≡ n = omega arith in rw (e, e') refl
  drop-window m lo zero (suc k) le = absurd (omega arith)
  drop-window m lo (suc n) (suc k) le =
      let e : lo + suc k ≡ suc lo + k = omega arith in
      let e' : suc n - suc k ≡ n - k = omega arith in
      rw (e, e') (drop-window m (suc lo) n k (omega arith))
