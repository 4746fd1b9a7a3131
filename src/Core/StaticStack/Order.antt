-- ===== src/Core/StaticStack/Order.antt =====
-- `push` and `pop` of `StaticStack` (libraries/Core/include/core/ds/Stack.h) are last in, first out.
use cro_cos.Base.{ℕ, ◌+◌, ◌<◌, ◌≡◌, ◌^◌, some, [], ◌∷◌, ◌++◌, refl, ap, ap₂, ◌∙◌, arith, lt→ltb}
use cro_cos.Base.Memory.{write, window, window-snoc, window-write_of_le, write_same}
use cro_cos.Core.StaticStack.{StaticStack, elements, push, pop}
use cro_cos.LibAlloc.Pointers.{sub64}

module _ {ℓ} {A : Type ℓ} where
  -- On a stack with room, `push` puts the element on top, and a `pop` after it returns the element
  -- and leaves the elements that there were.
  pub push-pop :
      (n : ℕ) (t : A) (s : StaticStack A)
      → s.stack_pointer < n
      → n < 2 ^ 64
      → (s' : StaticStack A) × (push n t s ≡ some s')
        × (elements s' ≡ elements s ++ t ∷ [])
        × ((pop s').0 ≡ t)
        × (elements ((pop s').1) ≡ elements s)
  unfolding push pop
  push-pop n t s lt small =
      let after : ℕ → A = write s.data_at s.stack_pointer t in
      let down : sub64 (s.stack_pointer + 1) 1 ≡ s.stack_pointer = omega arith in
      let kept : window after 0 s.stack_pointer ≡ elements s =
        window-write_of_le s.data_at 0 s.stack_pointer s.stack_pointer t (omega arith) in
      (
        record s { data_at = after; stack_pointer = s.stack_pointer + 1 },
        rw (lt→ltb s.stack_pointer n lt) refl,
        window-snoc after 0 s.stack_pointer
            ∙ ap₂ ◌++◌ kept (
                ap (λ a. a ∷ [])
                  (write_same s.data_at s.stack_pointer (0 + s.stack_pointer) t (omega arith))),
        ap after down ∙ write_same s.data_at s.stack_pointer s.stack_pointer t refl,
        ap (window after 0) down ∙ kept,
      )
