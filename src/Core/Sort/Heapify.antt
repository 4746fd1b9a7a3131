-- ===== src/Core/Sort/Heapify.antt =====
-- `heapify` of libraries/Core/include/core/algo/sort.h restores the heap property.
use cro_cos.Base.{
  ℕ, zero, suc, ◌+◌, ◌-◌, ◌*◌, ◌≤◌, ◌<◌, ◌≡◌, ◌≢◌, ◌&&◌, Bool, true, false, ltb, refl, sym, ap, ap₂,
  ◌∙◌, arith, Bool-cases, ◌⊎◌, inl, inr, ==_cases, ==_of_ne, ==_of_eq,
}
use mathlib.Core.Path.{subst}
use cro_cos.Core.Vector.{swap_cells}
use cro_cos.Core.Sort.{largest_of, heapify_loop, heapify}
use cro_cos.Core.Sort.Rearranged.{
  Rearranged, Rearranged-refl, Rearranged-trans, Rearranged-swap_cells,
}
use cro_cos.Core.Sort.Insertion.{StrictWeak}
use cro_cos.Core.Sort.Scan.{irrefl, swap_cells-first, swap_cells-second, swap_cells-other}

-- Node `c` is a child of node `p`.
abbrev pub Child : ℕ → ℕ → Type 0
Child p c = (c ≡ 2 * p + 1) ⊎ (c ≡ 2 * p + 2)

ltb_of_lt : (a b : ℕ) → a < b → ltb a b ≡ true
ltb_of_lt a b h = ground arith

ltb_of_le : (a b : ℕ) → b ≤ a → ltb a b ≡ false
ltb_of_le a b h = ground arith

-- What the guarded comparison of a child tells.
guard_true : (a b : ℕ) (t : Bool) → ltb a b && t ≡ true → (a < b) × (t ≡ true)
guard_true a b t h = ground (arith, h)

guard_false : (a b : ℕ) (t : Bool) → ltb a b && t ≡ false → a < b → t ≡ false
guard_false a b t h lt = ground (arith, h)

module _ {ℓ} {A : Type ℓ} (comp : A → A → Bool) (order : StrictWeak comp) where
  trans : (a b c : A) → comp a b ≡ true → comp b c ≡ true → comp a c ≡ true
  trans a b c h h' = elim (Bool-cases (comp a c)) [
    | inl e ↦ e
    | inr e ↦ ground (arith, h, order.neg_trans a c b e (order.asym b c h'))
  ]

  module _ (size base : ℕ) where
    -- No node from `r` on is less than a child of its own.
    abbrev pub HeapFrom : ℕ → (ℕ → A) → Type 0
    HeapFrom r m =
        (p c : ℕ) → r ≤ p → Child p c → c < size → comp (m (p + base)) (m (c + base)) ≡ false

    -- The same but for the node `i`, whose children are not greater than its parent either.
    record Broken (r i : ℕ) (m : ℕ → A) : Type 0 where
      others :
          (p c : ℕ)
          → r ≤ p
          → p ≢ i
          → Child p c
          → c < size
          → comp (m (p + base)) (m (c + base)) ≡ false
      grandchildren :
          (q c : ℕ)
          → r ≤ q
          → Child q i
          → Child i c
          → c < size
          → comp (m (q + base)) (m (c + base)) ≡ false

    -- The node that `heapify` chooses.
    record Largest (i : ℕ) (m : ℕ → A) (l : ℕ) : Type 0 where
      which : (l ≡ i) ⊎ ((Child i l) × (l < size) × (comp (m (i + base)) (m (l + base)) ≡ true))
      most : (c : ℕ) → Child i c → c < size → comp (m (l + base)) (m (c + base)) ≡ false

    both_children :
        (i : ℕ) (m : ℕ → A) (x : A)
        → (2 * i + 1 < size → comp x (m (2 * i + 1 + base)) ≡ false)
        → (2 * i + 2 < size → comp x (m (2 * i + 2 + base)) ≡ false)
        → (c : ℕ) → Child i c
        → c < size
        → comp x (m (c + base)) ≡ false
    both_children i m x left right c (inl e) lt =
        ap (λ k. comp x (m (k + base))) e ∙ left (omega arith)
    both_children i m x left right c (inr e) lt =
        ap (λ k. comp x (m (k + base))) e ∙ right (omega arith)

    largest_of-Largest : (i : ℕ) (m : ℕ → A) → Largest i m (largest_of comp size base i m)
    unfolding largest_of
    largest_of-Largest i m =
        let left : ℕ = 2 * i + 1 in
        let right : ℕ = 2 * i + 2 in
        let at : ℕ → A = λ k. m (k + base) in
        let pick = both_children i m in
        elim (Bool-cases (ltb left size && comp (at i) (at left))) [
          | inl e ↦
              let (left_in, i_left) = guard_true left size _ e in
              elim (Bool-cases (ltb right size && comp (at left) (at right))) [
                | inl f ↦
                    let (right_in, left_right) = guard_true right size _ f in
                    rw (e, f)
                      (record {
                        which = inr (
                          inr refl,
                          right_in,
                          trans (at i) (at left) (at right) i_left left_right,
                        );
                        most =
                            pick (at right) (λ lt. order.asym (at left) (at right) left_right)
                              (λ lt. irrefl comp order (at right));
                      })
                | inr f ↦
                    rw (e, f)
                      (record {
                        which = inr (inl refl, left_in, i_left);
                        most =
                            pick (at left) (λ lt. irrefl comp order (at left))
                              (guard_false right size _ f);
                      })
              ]
          | inr e ↦ elim (Bool-cases (ltb right size && comp (at i) (at right))) [
            | inl f ↦
                let (right_in, i_right) = guard_true right size _ f in
                let not_left : left < size → comp (at right) (at left) ≡ false = λ lt.
                  order.neg_trans (at right) (at i) (at left) (order.asym (at i) (at right) i_right)
                    (guard_false left size _ e lt) in
                rw (e, f)
                  (record {
                    which = inr (inr refl, right_in, i_right);
                    most = pick (at right) not_left (λ lt. irrefl comp order (at right));
                  })
            | inr f ↦
                rw (e, f)
                  (record {
                    which = inl refl;
                    most = pick (at i) (guard_false left size _ e) (guard_false right size _ f);
                  })
          ]
        ]

    -- The exchange with the chosen child leaves the child's place as the only broken one.
    sunk :
        (r i l : ℕ) (m : ℕ → A)
        → r ≤ i
        → Broken r i m
        → Child i l
        → l < size
        → comp (m (i + base)) (m (l + base)) ≡ true
        → ((c : ℕ) → Child i c → c < size → comp (m (l + base)) (m (c + base)) ≡ false)
        → Broken r l (swap_cells m (i + base) (l + base))
    sunk r i l m le v child inside less most =
        let m' : ℕ → A = swap_cells m (i + base) (l + base) in
        let deeper : i < l = omega (arith, child) in
        let at_i : m' (i + base) ≡ m (l + base) =
          swap_cells-first m (i + base) (l + base) (i + base) refl (omega arith) in
        let at_l : m' (l + base) ≡ m (i + base) =
          swap_cells-second m (i + base) (l + base) (l + base) refl in
        let at_other : (k : ℕ) → i ≢ k → l ≢ k → m' (k + base) ≡ m (k + base) = λ k ne ne'.
          swap_cells-other m (i + base) (l + base) (k + base) (omega (arith, ne))
            (omega (arith, ne')) in
        let at : (k k' : ℕ) (a : A) → k ≡ k' → m' (k + base) ≡ a → m' (k' + base) ≡ a =
          λ k k' a e h. ap (λ x. m' (x + base)) (sym e) ∙ h in
        record {
          others = λ p c lo ne ch lt. elim (==_cases i p) [
            | inl e ↦ elim (==_cases l c) [
              | inl e' ↦
                  ap₂ comp (at i p _ e at_i) (at l c _ e' at_l)
                  ∙ order.asym (m (i + base)) (m (l + base)) less
              | inr ne' ↦
                  ap₂ comp (at i p _ e at_i) (at_other c (omega (arith, ch)) ne')
                  ∙ most c (subst (λ k. Child k c) (sym e) ch) lt
            ]
            | inr ne2 ↦ elim (==_cases i c) [
              | inl e' ↦
                  ap₂ comp (at_other p ne2 (λ e2. ne (sym e2))) (at i c _ e' at_i)
                  ∙ v.grandchildren p l lo (subst (λ k. Child p k) (sym e') ch) child inside
              | inr ne' ↦
                  ap₂ comp (at_other p ne2 (λ e2. ne (sym e2)))
                    (at_other c ne' (omega (arith, ch, child, ne2)))
                  ∙ v.others p c lo (λ e2. ne2 (sym e2)) ch lt
            ]
          ];
          grandchildren = λ q c lo ch ch' lt.
              ap₂ comp (at i q _ (omega (arith, ch, child)) at_i)
                (at_other c (omega (arith, ch')) (omega (arith, ch')))
              ∙ v.others l c (omega arith) (omega arith) ch' lt;
        }

    heapify_loop-HeapFrom :
        (fuel r i : ℕ) (m : ℕ → A)
        → r ≤ i
        → i < size
        → size < i + fuel
        → Broken r i m
        → HeapFrom r (heapify_loop comp fuel size base i m)
          × Rearranged base (base + size - 1) m (heapify_loop comp fuel size base i m)
    unfolding heapify_loop
    heapify_loop-HeapFrom zero r i m le lt enough v = absurd (omega arith)
    heapify_loop-HeapFrom (suc fuel) r i m le lt enough v =
        let l : ℕ = largest_of comp size base i m in
        let large = largest_of-Largest i m in
        elim (large.which) [
          | inl e ↦
              let settled : (p c : ℕ)
                  → r ≤ p
                  → Child p c
                  → c < size
                  → comp (m (p + base)) (m (c + base)) ≡ false =
                λ p c lo ch in_heap. elim (==_cases p i) [
                  | inl e' ↦
                      ap (λ k. comp (m (k + base)) (m (c + base))) (e' ∙ sym e)
                      ∙ large.most c (subst (λ k. Child k c) e' ch) in_heap
                  | inr ne ↦ v.others p c lo ne ch in_heap
                ] in
              rw (==_of_eq l i e) (settled, Rearranged-refl base (base + size - 1) m)
          | inr (child, inside, less) ↦
              let next = sunk r i l m le v child inside less large.most in
              let (heap, moved) =
                heapify_loop-HeapFrom fuel r l (swap_cells m (i + base) (l + base))
                  (omega (arith, child)) inside (omega (arith, child)) next in
              rw (==_of_ne l i (omega (arith, child))) (
                heap,
                Rearranged-trans base (base + size - 1) m (swap_cells m (i + base) (l + base)) _
                    (Rearranged-swap_cells base (base + size - 1) m (i + base) (l + base)
                      (omega arith, omega arith) (omega arith, omega (arith, inside)))
                    moved,
              )
        ]

    -- `heapify` of a node whose two subtrees are heaps makes a heap of the whole, and only moves the
    -- elements of the heap about.
    pub heapify-HeapFrom :
        (i : ℕ) (m : ℕ → A)
        → i < size
        → HeapFrom (suc i) m
        → HeapFrom i (heapify comp size base i m)
          × Rearranged base (base + size - 1) m (heapify comp size base i m)
    unfolding heapify
    heapify-HeapFrom i m lt v =
        heapify_loop-HeapFrom (suc size) i i m (omega arith) lt (omega arith) (record {
          others = λ p c lo ne ch in_heap. v p c (omega (arith, ne)) ch in_heap;
          grandchildren = λ q c lo ch ch' in_heap. absurd (omega (arith, ch));
        })
