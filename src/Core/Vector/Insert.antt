-- ===== src/Core/Vector/Insert.antt =====
-- `insert`, the constructors from a sequence, and `reverse` of
-- libraries/Core/include/core/ds/Vector.h.
use cro_cos.Base.{
  ℕ, suc, ◌+◌, ◌-◌, ◌^◌, ◌≤◌, ◌<◌, ◌≡◌, true, some, ltb, leb, List, [], ◌∷◌, ◌++◌, refl, sym, ap,
  ap₂, ◌∙◌, arith, inl, inr, ==_cases, ==_of_eq, ==_of_ne, length, take, drop,
}
use cro_cos.Base.Memory.{
  write, window, write_same, write_other, take-window, drop-window, window-ext, window-cells,
  window-add, window-write_of_le,
}
use cro_cos.Core.Vector.{
  Vector, elements, push_all, from_range, from_list, with_capacity, insert, shift_right,
}
use cro_cos.Core.Vector.Policy.{Moved-elements, reallocate_if_necessary-Moved}
use cro_cos.Core.Vector.Sequence.{push-append, shift_right_lem}
use mathlib.Core.List.{append_assoc, append-nil}

module _ {ℓ} {A : Type ℓ} where
  -- What the loop of `insert` and its last assignment leave.
  opened_gap :
      (v : Vector A) (index : ℕ) (x : A)
      → index ≤ v.size
      → window (write (shift_right (v.size - index) index v.data_at) index x) 0 (v.size + 1)
        ≡ take index (elements v) ++ x ∷ drop index (elements v)
  opened_gap v index x le =
      let k : ℕ = v.size - index in
      let shifted : ℕ → A = shift_right k index v.data_at in
      let after : ℕ → A = write shifted index x in
      let cut : v.size + 1 ≡ index + suc k = omega arith in
      let left : window after 0 index ≡ take index (elements v) =
        window-write_of_le shifted 0 index index x (omega arith)
        ∙ window-cells shifted v.data_at index
            (λ i h. (shift_right_lem k index v.data_at i).0 (omega arith))
        ∙ sym (take-window v.data_at 0 v.size index le) in
      let moved : (i : ℕ) → i < k → after (suc (0 + index) + i) ≡ v.data_at (0 + index + i) = λ i h.
        write_other shifted index (suc (0 + index) + i) x (omega arith)
        ∙ (shift_right_lem k index v.data_at (suc (0 + index) + i)).1 (omega arith) (omega arith)
        ∙ ap v.data_at (omega arith) in
      let right : window after (suc (0 + index)) k ≡ drop index (elements v) =
        window-ext after v.data_at (suc (0 + index)) (0 + index) k moved
        ∙ sym (drop-window v.data_at 0 v.size index le) in
      ap (window after 0) cut
      ∙ window-add after 0 index (suc k)
      ∙ ap₂ ◌++◌ left (ap₂ ◌∷◌ (write_same shifted index (0 + index) x (omega arith)) right)

  take_all : (v : Vector A) (k : ℕ) → k ≡ v.size → take k (elements v) ≡ elements v
  take_all v k e = take-window v.data_at 0 v.size k (omega arith) ∙ ap (window v.data_at 0) e

  drop_all : (v : Vector A) (k : ℕ) → k ≡ v.size → drop k (elements v) ≡ []
  drop_all v k e =
      let none_left : v.size - k ≡ 0 = omega arith in
      rw none_left at (drop-window v.data_at 0 v.size k (omega arith))

module _ {ℓ} {A : Type ℓ} (fresh : ℕ → ℕ → A) where
  -- `insert(index, x)` puts the element before the one at `index`, or last.
  pub insert-between :
      (v : Vector A) (index : ℕ) (x : A)
      → v.size ≤ v.capacity
      → v.capacity < 2 ^ 61
      → index ≤ v.size
      → (w : Vector A) × (insert fresh index x v ≡ some w)
        × (elements w ≡ take index (elements v) ++ x ∷ drop index (elements v))
        × (w.size ≤ w.capacity)
  unfolding insert
  insert-between v index x le small inside =
      let (u, ran, m, room, bound) = reallocate_if_necessary-Moved fresh v le (omega arith) in
      let valid : leb index v.size ≡ true = ground arith in
      let fits : ltb u.size u.capacity ≡ true = ground arith in
      let same : take index (elements u) ++ x ∷ drop index (elements u)
          ≡ take index (elements v) ++ x ∷ drop index (elements v) =
        ap (λ l. take index l ++ x ∷ drop index l) (Moved-elements fresh v u m) in
      elim (==_cases index u.size) [
        | inl e ↦
            let (w, pushed, appended, fine, _, _, _) =
              push-append fresh u (omega (arith, room)) (omega (arith, bound)) x in
            (
              w,
              rw (valid, ran, ==_of_eq index u.size e, insert) pushed,
              appended
                  ∙ ap₂ (λ a b. a ++ x ∷ b) (sym (take_all u index e)) (sym (drop_all u index e))
                  ∙ same,
              fine,
            )
        | inr ne ↦ (
          record u {
            data_at = write (shift_right (u.size - index) index u.data_at) index x;
            size = u.size + 1;
          },
          rw (valid, ran, ==_of_ne index u.size ne, fits, insert) refl,
          opened_gap u index x (omega (arith, m.same_size)) ∙ same,
          omega (arith, room),
        )
      ]

  push_all-append :
      (xs : List A) (v : Vector A)
      → v.size ≤ v.capacity
      → v.capacity < 2 ^ 61
      → v.size + length xs < 2 ^ 59
      → (w : Vector A) × (push_all fresh xs v ≡ some w)
        × (elements w ≡ elements v ++ xs)
        × (w.size ≤ w.capacity)
  unfolding push_all
  push_all-append [] v le small few = (v, refl, sym (append-nil (elements v)), le)
  push_all-append (x ∷ xs) v le small few =
      let (u, pushed, appended, fine, bound, grown, _) = push-append fresh v le (omega arith) x in
      let (w, ran, rest, ok) =
        push_all-append xs u fine (omega (arith, bound)) (omega (arith, grown)) in
      (
        w,
        rw (pushed, push_all) ran,
        rest ∙ ap (λ l. l ++ xs) appended ∙ append_assoc (elements v) (x ∷ []) xs,
        ok,
      )

  -- A vector made from a range, or from a list of initial elements, has those elements in order.
  pub from_list-elements :
      (n : ℕ) (xs : List A)
      → n < 2 ^ 61
      → length xs < 2 ^ 59
      → ((w : Vector A) × (from_list fresh n xs ≡ some w) × (elements w ≡ xs))
        × ((w : Vector A) × (from_range fresh xs ≡ some w) × (elements w ≡ xs))
  unfolding from_list from_range with_capacity
  from_list-elements n xs small few =
      let (w, ran, all, _) =
        push_all-append xs (with_capacity fresh n) (omega arith) small (omega arith) in
      let (w', ran', all', _) =
        push_all-append xs (with_capacity fresh 5) (omega arith) (omega arith) (omega arith) in
      ((w, ran, all), (w', ran', all'))
