-- ===== src/Core/Vector/Sequence.antt =====
-- The operations of libraries/Core/include/core/ds/Vector.h on the sequence of the elements.
use cro_cos.Base.{
  ℕ, zero, suc, ◌+◌, ◌-◌, ◌*◌, ◌^◌, ◌≤◌, ◌<◌, ◌≡◌, true, some, ltb, [], ◌∷◌, ◌++◌, max, refl, sym,
  ap, ap₂, ◌∙◌, arith, inl, inr, ==_cases, take, drop,
}
use cro_cos.Base.Memory.{
  write, window, write_same, write_other, window-ext, window-cells, take-window, drop-window,
  window-snoc, window-add, window-write_of_le,
}
use cro_cos.Core.Vector.{Vector, elements, push, pop, remove, shift_left, shift_right}
use cro_cos.Core.Vector.Policy.{Moved-elements, reallocate_if_necessary-Moved}

module _ {ℓ} {A : Type ℓ} where
  -- The loop of `remove` moves each cell above `i` down by one.
  shift_left_lem :
      (n i : ℕ) (m : ℕ → A) (j : ℕ)
      → ((j < i → shift_left n i m j ≡ m j) × (i ≤ j → j < i + n → shift_left n i m j ≡ m (j + 1)))
  unfolding shift_left
  shift_left_lem zero i m j = (λ lt. refl, λ le lt. absurd (omega arith))
  shift_left_lem (suc n) i m j =
      let after : ℕ → A = write m i (m (i + 1)) in
      let (below, above) = shift_left_lem n (i + 1) after j in
      (
        λ lt. below (omega arith) ∙ write_other m i j _ (omega arith),
        λ le lt. elim (==_cases i j) [
          | inl e ↦ below (omega arith) ∙ write_same m i j _ e ∙ ap (λ k. m (k + 1)) e
          | inr ne ↦ above (omega arith) (omega arith) ∙ write_other m i (j + 1) _ (omega arith)
        ],
      )

  -- … and writes no cell above the last.
  beyond : (n index : ℕ) (m : ℕ → A) (j : ℕ) → index + n < j → shift_right n index m j ≡ m j
  unfolding shift_right
  beyond zero index m j lt = refl
  beyond (suc n) index m j lt =
      beyond n index _ j (omega arith) ∙ write_other m (index + suc n) j _ (omega arith)

  -- The loop of `insert` moves each cell from `index` on up by one.
  pub shift_right_lem :
      (n index : ℕ) (m : ℕ → A) (j : ℕ)
      → ((j ≤ index → shift_right n index m j ≡ m j)
          × (index < j → j ≤ index + n → shift_right n index m j ≡ m (j - 1)))
  unfolding shift_right
  shift_right_lem zero index m j = (λ lt. refl, λ le lt. absurd (omega arith))
  shift_right_lem (suc n) index m j =
      let after : ℕ → A = write m (index + suc n) (m (index + n)) in
      let (below, above) = shift_right_lem n index after j in
      (
        λ le. below le ∙ write_other m (index + suc n) j _ (omega arith),
        λ lt le. elim (==_cases (index + suc n) j) [
          | inl e ↦
              beyond n index after j (omega arith)
              ∙ write_same m (index + suc n) j _ e
              ∙ ap m (omega arith)
          | inr ne ↦ above lt (omega arith) ∙ write_other m (index + suc n) (j - 1) _ (omega arith)
        ],
      )

module _ {ℓ} {A : Type ℓ} (fresh : ℕ → ℕ → A) (v : Vector A) (le : v.size ≤ v.capacity)
    (small : v.capacity < 2 ^ 63) where
  -- `push` succeeds and appends the element.
  pub push-append :
      (x : A)
      → (w : Vector A) × (push fresh x v ≡ some w)
        × (elements w ≡ elements v ++ x ∷ [])
        × (w.size ≤ w.capacity)
        × (w.capacity ≤ max v.capacity (2 * v.size + 8))
        × (w.size ≡ v.size + 1)
        × (((i : ℕ) → i < v.size → w.data_at i ≡ v.data_at i) × (w.data_at v.size ≡ x))
  unfolding push
  push-append x =
      let (u, ran, m, room, bound) = reallocate_if_necessary-Moved fresh v le small in
      let fits : ltb u.size u.capacity ≡ true = ground arith in
      (
        record u { data_at = write u.data_at u.size x; size = u.size + 1 },
        rw (ran, fits, push) refl,
        (window-snoc (write u.data_at u.size x) 0 u.size
            ∙ ap₂ ◌++◌
                (window-write_of_le u.data_at 0 u.size u.size x (omega arith)
                  ∙ Moved-elements fresh v u m)
                (ap (λ a. a ∷ []) (write_same u.data_at u.size (0 + u.size) x (omega arith)))),
        omega (arith, room),
        bound,
        omega (arith, m.same_size),
        (
          (λ i lt.
              write_other u.data_at u.size i x (omega (arith, m.same_size)) ∙ m.same_cells i lt),
          write_same u.data_at u.size v.size x m.same_size,
        ),
      )

  -- `pop` of a vector with an element returns the last one and leaves the others.
  pub pop-last :
      0 < v.size
      → (x : A) × (w : Vector A) × (pop fresh v ≡ some (x, w))
        × (elements v ≡ elements w ++ x ∷ [])
        × (w.size ≤ w.capacity)
        × (w.size + 1 ≡ v.size)
        × ((i : ℕ) → i < w.size → w.data_at i ≡ v.data_at i)
  unfolding pop
  pop-last pos =
      let shorter : Vector A = record v { size = v.size - 1 } in
      let (u, ran, m, room, _) = reallocate_if_necessary-Moved fresh shorter (omega arith) small in
      let some_left : ltb 0 v.size ≡ true = ground arith in
      let e : v.size - 1 + 1 ≡ v.size = omega arith in
      (
        v.data_at (v.size - 1),
        u,
        rw (some_left, ran) refl,
        rw e at (window-snoc v.data_at 0 (v.size - 1))
            ∙ ap₂ ◌++◌ (sym (Moved-elements fresh shorter u m))
                (ap (λ i. v.data_at i ∷ []) (omega arith)),
        omega (arith, room),
        omega (arith, m.same_size),
        λ i lt. m.same_cells i (omega (arith, m.same_size)),
      )

  -- What the loop of `remove` leaves.
  closed_gap :
      (index : ℕ)
      → index < v.size
      → window (shift_left (v.size - 1 - index) index v.data_at) 0 (v.size - 1)
        ≡ take index (elements v) ++ drop (index + 1) (elements v)
  closed_gap index lt =
      let k : ℕ = v.size - 1 - index in
      let after : ℕ → A = shift_left k index v.data_at in
      let cut : v.size - 1 ≡ index + k = omega arith in
      let left : window after 0 index ≡ take index (elements v) =
        window-cells after v.data_at index (λ i h. (shift_left_lem k index v.data_at i).0 h)
        ∙ sym (take-window v.data_at 0 v.size index (omega arith)) in
      let moved : (i : ℕ) → i < k → after (0 + index + i) ≡ v.data_at (0 + (index + 1) + i) = λ i h.
        (shift_left_lem k index v.data_at (0 + index + i)).1 (omega arith) (omega arith)
        ∙ ap v.data_at (omega arith) in
      let rest : v.size - (index + 1) ≡ k = omega arith in
      let right : window after (0 + index) k ≡ drop (index + 1) (elements v) =
        window-ext after v.data_at (0 + index) (0 + (index + 1)) k moved
        ∙ sym (rw rest at (drop-window v.data_at 0 v.size (index + 1) (omega arith))) in
      ap (window after 0) cut ∙ window-add after 0 index k ∙ ap₂ ◌++◌ left right

  -- `remove(index)` takes the element out and closes the gap.
  pub remove-drop :
      (index : ℕ)
      → index < v.size
      → (w : Vector A) × (remove fresh index v ≡ some w)
        × (elements w ≡ take index (elements v) ++ drop (index + 1) (elements v))
        × (w.size ≤ w.capacity)
  unfolding remove
  remove-drop index lt =
      let k = v.size - 1 - index in
      let gone : Vector A = record v {
        data_at = shift_left k index v.data_at;
        size = v.size - 1;
      } in
      let (u, ran, m, room, _) = reallocate_if_necessary-Moved fresh gone (omega arith) small in
      let inside : ltb index v.size ≡ true = ground arith in
      (u, rw inside ran, Moved-elements fresh gone u m ∙ closed_gap index lt, omega (arith, room))
