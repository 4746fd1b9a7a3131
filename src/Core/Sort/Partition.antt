-- ===== src/Core/Sort/Partition.antt =====
-- `partitionHoare` of libraries/Core/include/core/algo/sort.h ends, stays inside the range and
-- splits it.
use cro_cos.Base.{
  ℕ, zero, suc, ◌+◌, ◌-◌, ◌/◌, ◌≤◌, ◌<◌, ◌≡◌, ◌≢◌, Bool, true, false, some, leb, refl, ap, ap₂, ◌∙◌,
  arith, Bool-cases, inl, inr, ==_cases, lt_cases,
}
use cro_cos.Core.Vector.{swap_cells}
use cro_cos.Core.Sort.{partition_loop, partition_hoare, median_of_three, swap_if}
use cro_cos.Core.Sort.Rearranged.{
  Rearranged, Rearranged-refl, Rearranged-trans, Rearranged-swap_cells,
}
use cro_cos.Core.Sort.Insertion.{StrictWeak}
use cro_cos.Core.Sort.Scan.{
  StopsUp, StopsDown, irrefl, scan_up-StopsUp, scan_down-StopsDown, swap_cells-first,
  swap_cells-second, swap_cells-other,
}

leb_of_le : (a b : ℕ) → a ≤ b → leb a b ≡ true
leb_of_le a b h = ground arith

leb_of_lt : (a b : ℕ) → b < a → leb a b ≡ false
leb_of_lt a b h = ground arith

module _ {ℓ} {A : Type ℓ} (comp : A → A → Bool) (order : StrictWeak comp) (low high : ℕ) where
  -- The outer loop before a round: what the two indices have passed is on the right side of the
  -- pivot, and some cell stops the first scan.
  record Round (i0 j0 : ℕ) (m : ℕ → A) : Type 0 where
    sentinel : ℕ
    after_i0 : i0 ≤ sentinel
    in_range : sentinel ≤ high
    stops : comp (m sentinel) (m low) ≡ false
    low_i0 : low ≤ i0
    low_j0 : low ≤ j0
    j0_high : j0 ≤ high
    left : (k : ℕ) → low ≤ k → k < i0 → comp (m low) (m k) ≡ false
    right : (k : ℕ) → j0 < k → k ≤ high → comp (m k) (m low) ≡ false

  -- No element from `low` to `p` comes after one from `p + 1` to `high`.
  pub record Split (p : ℕ) (m : ℕ → A) : Type 0 where
    pub low_p : low ≤ p
    pub p_high : p ≤ high
    pub apart : (a b : ℕ) → low ≤ a → a ≤ p → p < b → b ≤ high → comp (m b) (m a) ≡ false

  module _ (i0 j0 : ℕ) (m : ℕ → A) (v : Round i0 j0 m) (i j : ℕ)
      (up : StopsUp comp order low i0 v.sentinel m i) (down : StopsDown comp order low j0 m j) where
    below_pivot : (k : ℕ) → low ≤ k → k < i → comp (m low) (m k) ≡ false
    below_pivot k le lt = elim (lt_cases k i0) [
      | inl old ↦ v.left k le old
      | inr new ↦ order.asym (m k) (m low) (up.passed k new lt)
    ]

    above_pivot : (k : ℕ) → j < k → k ≤ high → comp (m k) (m low) ≡ false
    above_pivot k lt le = elim (lt_cases j0 k) [
      | inl old ↦ v.right k old le
      | inr new ↦ order.asym (m low) (m k) (down.passed k lt new)
    ]

    -- The indices have met.
    met : j ≤ i → Split j m
    met le = record {
      low_p = down.from;
      p_high = omega (arith, down.upto, v.j0_high);
      apart = λ a b la ap' pb bh.
          order.neg_trans (m b) (m low) (m a) (above_pivot b pb bh) (elim (==_cases a j) [
            | inl e ↦ ap (λ k. comp (m low) (m k)) e ∙ down.stop
            | inr ne ↦ below_pivot a la (omega arith)
          ]);
    }

    -- They have not: after the exchange, another round can begin.
    module _ (lt : i < j) where
      abbrev after : ℕ → A
      after = swap_cells m i j

      after_i : after i ≡ m j
      after_i = swap_cells-first m i j i refl (omega (arith, lt))

      after_j : after j ≡ m i
      after_j = swap_cells-second m i j j refl

      kept : (k : ℕ) → i ≢ k → j ≢ k → after k ≡ m k
      kept k ne ne' = swap_cells-other m i j k ne ne'

      pivot_moved : i ≡ low → after low ≡ m j
      pivot_moved e = swap_cells-first m i j low e (omega (arith, lt))

      pivot_kept : i ≢ low → after low ≡ m low
      pivot_kept ne = kept low ne (omega (arith, up.from, v.low_i0))

      -- The cell of the pivot holds another value after the first round: one that is not greater.
      pivot_falls : (a : A) → comp a (m low) ≡ false → comp a (after low) ≡ false
      pivot_falls a h = elim (==_cases i low) [
        | inl e ↦ rw (pivot_moved e) (order.neg_trans a (m low) (m j) h down.stop)
        | inr ne ↦ rw (pivot_kept ne) h
      ]

      next-Round : Round (i + 1) (j - 1) after
      next-Round = record {
        sentinel = j;
        after_i0 = omega arith;
        in_range = omega (arith, down.upto, v.j0_high);
        stops = rw after_j (pivot_falls (m i) up.stop);
        low_i0 = omega (arith, up.from, v.low_i0);
        low_j0 = omega (arith, up.from, v.low_i0);
        j0_high = omega (arith, down.upto, v.j0_high);
        left = λ k le lt'. elim (==_cases k i) [
          | inl here ↦ elim (==_cases i low) [
            | inl e ↦ ap₂ comp (pivot_moved e) (ap after here ∙ after_i) ∙ irrefl comp order (m j)
            | inr ne ↦ ap₂ comp (pivot_kept ne) (ap after here ∙ after_i) ∙ down.stop
          ]
          | inr ne ↦
              ap₂ comp (pivot_kept (omega arith)) (kept k (omega arith) (omega arith))
              ∙ below_pivot k le (omega arith)
        ];
        right = λ k lt' le. elim (==_cases k j) [
          | inl here ↦
              ap (λ x. comp x (after low)) (ap after here ∙ after_j) ∙ pivot_falls (m i) up.stop
          | inr ne ↦
              ap (λ x. comp x (after low)) (kept k (omega arith) (omega arith))
              ∙ pivot_falls (m k) (above_pivot k (omega arith) le)
        ];
      }

  partition_loop-Split :
      (fuel scans i0 j0 : ℕ) (m : ℕ → A)
      → Round i0 j0 m
      → suc j0 - i0 < fuel
      → high < low + scans
      → (p : ℕ) × (m' : ℕ → A) × (partition_loop comp fuel scans low i0 j0 m ≡ some (p, m'))
        × Split p m'
        × Rearranged low high m m'
  unfolding partition_loop
  partition_loop-Split zero scans i0 j0 m v few enough = absurd (omega arith)
  partition_loop-Split (suc fuel) scans i0 j0 m v few enough =
      let (i, i_found, up) =
        scan_up-StopsUp comp order scans low i0 v.sentinel m v.after_i0
          (omega (arith, v.in_range, v.low_i0)) v.stops in
      let (j, j_found, down) =
        scan_down-StopsDown comp order scans low j0 m v.low_j0 (omega (arith, v.j0_high)) in
      elim (lt_cases i j) [
        | inr le ↦ (
          j,
          m,
          rw (i_found, j_found, leb_of_le j i le, partition_loop) refl,
          met i0 j0 m v i j up down le,
          Rearranged-refl low high m,
        )
        | inl lt ↦
            let next = next-Round i0 j0 m v i j up down lt in
            let (p, m', ran, split, moved) =
              partition_loop-Split fuel scans (i + 1) (j - 1) (swap_cells m i j) next
                (omega (arith, up.from, down.upto)) enough in
            (
              p,
              m',
              rw (i_found, j_found, leb_of_lt j i lt, partition_loop) ran,
              split,
              Rearranged-trans low high m (swap_cells m i j) m'
                  (Rearranged-swap_cells low high m i j
                    (omega (arith, up.from, v.low_i0), omega (arith, lt, down.upto, v.j0_high))
                    (omega (arith, lt, up.from, v.low_i0), omega (arith, down.upto, v.j0_high)))
                  moved,
            )
      ]

  swap_if-Rearranged :
      (i j : ℕ) (m : ℕ → A)
      → (low ≤ i) × (i ≤ high)
      → (low ≤ j) × (j ≤ high)
      → Rearranged low high m (swap_if comp i j m)
  unfolding swap_if
  swap_if-Rearranged i j m hi hj = elim (Bool-cases (comp (m i) (m j))) [
    | inl e ↦ rw e (Rearranged-swap_cells low high m i j hi hj)
    | inr e ↦ rw e (Rearranged-refl low high m)
  ]

  median_of_three-Rearranged :
      (m : ℕ → A) → low ≤ high → Rearranged low high m (median_of_three comp low high m)
  unfolding median_of_three
  median_of_three-Rearranged m le =
      let mid : ℕ = low + (high - low) / 2 in
      let at_low : (low ≤ low) × (low ≤ high) = (omega arith, le) in
      let at_mid : (low ≤ mid) × (mid ≤ high) = (omega arith, omega arith) in
      let at_high : (low ≤ high) × (high ≤ high) = (le, omega arith) in
      let m1 : ℕ → A = swap_if comp high low m in
      let m2 : ℕ → A = swap_if comp mid low m1 in
      let m3 : ℕ → A = swap_if comp high mid m2 in
      Rearranged-trans low high m m1 _ (swap_if-Rearranged high low m at_high at_low) (
        Rearranged-trans low high m1 m2 _ (swap_if-Rearranged mid low m1 at_mid at_low) (
          Rearranged-trans low high m2 m3 _ (swap_if-Rearranged high mid m2 at_high at_mid)
            (Rearranged-swap_cells low high m3 low mid at_low at_mid)))

  -- For a strict weak order, `partitionHoare` ends within the range, without a scan that leaves it:
  -- it returns an index of the range, no element up to it comes after one above it, and the elements
  -- are only moved about.
  pub partition_hoare-Split :
      (m : ℕ → A)
      → low ≤ high
      → (p : ℕ) × (m' : ℕ → A) × (partition_hoare comp low high m ≡ some (p, m'))
        × Split p m'
        × Rearranged low high m m'
  unfolding partition_hoare
  partition_hoare-Split m le =
      let start : ℕ → A = median_of_three comp low high m in
      let first : Round low high start = record {
        sentinel = low;
        after_i0 = omega arith;
        in_range = le;
        stops = irrefl comp order (start low);
        low_i0 = omega arith;
        low_j0 = le;
        j0_high = omega arith;
        left = λ k lo lt. absurd (omega arith);
        right = λ k lt le'. absurd (omega arith);
      } in
      let (p, m', ran, split, moved) =
        partition_loop-Split (high - low + 2) (high - low + 2) low high start first (omega arith)
          (omega arith) in
      (
        p,
        m',
        ran,
        split,
        Rearranged-trans low high m start m' (median_of_three-Rearranged m le) moved,
      )
