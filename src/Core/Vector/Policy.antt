-- ===== src/Core/Vector/Policy.antt =====
-- The capacity of libraries/Core/include/core/ds/Vector.h: reallocation keeps the elements and
-- leaves room for one more.
use cro_cos.Base.{
  ℕ, ◌+◌, ◌*◌, ◌/◌, ◌%◌, ◌^◌, ◌≤◌, ◌<◌, ◌≡◌, ◌&&◌, some, ltb, leb, ◌==◌, max, refl, ◌∙◌, arith,
  Bool-cases, inl, inr,
}
use cro_cos.Base.Memory.{window-cells}
use cro_cos.Core.Vector.{
  Vector, elements, reallocate, copied, grow_or_shrink, reallocate_if_necessary, ensure_room,
}

module _ {ℓ} {A : Type ℓ} (fresh : ℕ → ℕ → A) where
  -- The same elements in another buffer.
  pub record Moved (v w : Vector A) : Type ℓ where
    pub same_size : w.size ≡ v.size
    pub same_cells : (i : ℕ) → i < v.size → w.data_at i ≡ v.data_at i
    pub fits : w.size ≤ w.capacity

  pub Moved-elements : (v w : Vector A) → Moved v w → elements w ≡ elements v
  Moved-elements v w m = rw m.same_size (window-cells w.data_at v.data_at v.size m.same_cells)

  -- `reallocate` to a capacity that holds the elements.
  pub reallocate-Moved :
      (n : ℕ) (v : Vector A)
      → v.size ≤ n
      → (w : Vector A) × (reallocate fresh n v ≡ some w) × Moved v w × (w.capacity ≡ n)
  unfolding reallocate copied
  reallocate-Moved n v le = (
    record v { data_at = copied fresh v n; capacity = n },
    ground arith,
    record { same_size = refl; same_cells = λ i lt. ground arith; fits = le },
    refl,
  )

  pub Moved-refl : (v : Vector A) → v.size ≤ v.capacity → Moved v v
  Moved-refl v le = record { same_size = refl; same_cells = λ i lt. refl; fits = le }

  grow_or_shrink-Moved :
      (v : Vector A)
      → v.size ≤ v.capacity
      → 0 < v.capacity
      → v.capacity < 2 ^ 63
      → (w : Vector A) × (grow_or_shrink fresh v ≡ some w)
        × Moved v w
        × (w.size < w.capacity)
        × (w.capacity ≤ max v.capacity (2 * v.size))
  unfolding grow_or_shrink
  grow_or_shrink-Moved v le pos small = elim (Bool-cases (v.size == v.capacity)) [
    | inl e ↦
        let (w, ran, m, cap) = reallocate-Moved (v.capacity * 2 % 2 ^ 64) v (omega arith) in
        (w, rw e ran, m, ground (arith, e, m.same_size, cap), ground (arith, e, cap))
    | inr e ↦ elim (Bool-cases (leb v.size (v.capacity / 4) && ltb 8 v.capacity)) [
      | inl f ↦
          let (w, ran, m, cap) = reallocate-Moved (v.capacity / 2) v (ground (arith, f)) in
          (w, rw (e, f) ran, m, ground (arith, f, m.same_size, cap), omega (arith, cap))
      | inr f ↦ (v, rw (e, f) refl, Moved-refl v le, ground (arith, e), omega arith)
    ]
  ]

  -- Before an element is added or after one was removed, the vector is given a buffer that keeps its
  -- elements and has room for one more; no element is written outside it.
  pub reallocate_if_necessary-Moved :
      (v : Vector A)
      → v.size ≤ v.capacity
      → v.capacity < 2 ^ 63
      → (w : Vector A) × (reallocate_if_necessary fresh v ≡ some w)
        × Moved v w
        × (w.size < w.capacity)
        × (w.capacity ≤ max v.capacity (2 * v.size + 8))
  unfolding reallocate_if_necessary
  reallocate_if_necessary-Moved v le small = elim (Bool-cases (v.capacity == 0)) [
    | inl e ↦
        let (u, made, m, cap) = reallocate-Moved 8 v (ground (arith, e)) in
        let (w, ran, m', room, bound) =
          grow_or_shrink-Moved u m.fits (omega (arith, cap)) (omega (arith, cap)) in
        (
          w,
          rw (e, made, reallocate_if_necessary) ran,
          record {
            same_size = m'.same_size ∙ m.same_size;
            same_cells = λ i lt. m'.same_cells i (omega (arith, m.same_size)) ∙ m.same_cells i lt;
            fits = m'.fits;
          },
          room,
          omega (arith, bound, cap),
        )
    | inr e ↦
        let (w, ran, m, room, bound) = grow_or_shrink-Moved v le (ground (arith, e)) small in
        (w, rw e ran, m, room, omega (arith, bound))
  ]

  -- After `ensureRoom(k)` the buffer has room for `k` more elements, and the elements are the same.
  pub ensure_room-Moved :
      (k : ℕ) (v : Vector A)
      → v.size ≤ v.capacity
      → v.size + k + 4 < 2 ^ 64
      → (w : Vector A) × (ensure_room fresh k v ≡ some w)
        × (elements w ≡ elements v)
        × (v.size + k ≤ w.capacity)
  unfolding ensure_room
  ensure_room-Moved k v le small = elim (Bool-cases (ltb v.capacity ((v.size + k) % 2 ^ 64))) [
    | inl e ↦
        let (w, ran, m, cap) =
          reallocate-Moved (((v.size + k) % 2 ^ 64 + 4) % 2 ^ 64) v (omega arith) in
        (w, rw e ran, Moved-elements v w m, omega (arith, cap))
    | inr e ↦ (v, rw e refl, refl, ground (arith, e))
  ]
