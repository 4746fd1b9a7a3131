-- ===== src/Core/StaticStack.antt =====
-- `StaticStack` of libraries/Core/include/core/ds/Stack.h: an array of `n` cells and a pointer.
pub mod Order
use cro_cos.Base.{
  ℕ, zero, suc, ◌+◌, ◌-◌, ◌≤◌, ◌<◌, ◌≡◌, Bool, true, false, Option, none, some, ltb, leb, ◌==◌,
  if◌then◌else◌, List, [], ◌∷◌, ℤ, pos, negsuc,
}
use cro_cos.Base.Memory.{write, window}
use cro_cos.LibAlloc.Pointers.{sub64}

pub record StaticStack {ℓ} (A : Type ℓ) : Type ℓ where
  pub data_at : ℕ → A
  pub stack_pointer : ℕ

module _ {ℓ} {A : Type ℓ} where
  -- From the bottom to the top.
  abbrev pub elements : StaticStack A → List A
  elements s = window s.data_at 0 s.stack_pointer

  -- `none`: the stack is full, and the assertion fails.
  unfoldable pub push : ℕ → A → StaticStack A → Option (StaticStack A)
  push n t s =
      if ltb s.stack_pointer n
      then some (record s {
        data_at = write s.data_at s.stack_pointer t;
        stack_pointer = s.stack_pointer + 1;
      })
      else none

  -- The pointer wraps on an empty stack: nothing checks it.
  unfoldable pub pop : StaticStack A → A × StaticStack A
  pop s =
      (s.data_at (sub64 s.stack_pointer 1), record s { stack_pointer = sub64 s.stack_pointer 1 })

  unfoldable pub empty : StaticStack A → Bool
  empty s = s.stack_pointer == 0

  -- The index of the cell that `top()` points to.
  unfoldable pub top : StaticStack A → ℕ
  top s = sub64 s.stack_pointer 1

  unfoldable pub at : StaticStack A → ℕ → Option A
  at s index = if ltb index s.stack_pointer then some (s.data_at index) else none

  unfoldable pub at_signed : StaticStack A → ℤ → Option A
  at_signed s (pos index) = if ltb index s.stack_pointer then some (s.data_at index) else none
  at_signed s (negsuc k) =
      if leb (k + 1) s.stack_pointer then some (s.data_at (s.stack_pointer - (k + 1))) else none
