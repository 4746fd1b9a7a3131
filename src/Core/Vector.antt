-- ===== src/Core/Vector.antt =====
-- libraries/Core/include/core/ds/Vector.h.
--
-- A vector is its buffer, a raw memory of `capacity` cells, and its two numbers. `fresh` gives the
-- cells of a new buffer, which the source leaves as they are. A write past the end of the buffer
-- gives `none`, and so does a failed assertion. Destructors and the allocator's failure are left
-- out.
pub mod Policy
pub mod Sequence
pub mod Insert
use cro_cos.Base.{
  ℕ, zero, suc, ◌+◌, ◌-◌, ◌*◌, ◌/◌, ◌%◌, ◌^◌, ◌≤◌, ◌<◌, ◌≡◌, ◌&&◌, ◌||◌, Bool, true, false, not,
  Option, none, some, ltb, leb, ◌==◌, if◌then◌else◌, List, [], ◌∷◌, ℤ, pos, negsuc,
}
use cro_cos.Base.Memory.{write, window}
use cro_cos.LibAlloc.Pointers.{sub64}

pub record Vector {ℓ} (A : Type ℓ) : Type ℓ where
  pub data_at : ℕ → A
  pub size : ℕ
  pub capacity : ℕ

-- The elements, in order: what an iteration from `begin()` to `end()` sees.
abbrev pub elements {ℓ} : {A : Type ℓ} → Vector A → List A
elements v = window v.data_at 0 v.size

-- `swap(data[i], data[j])`.
unfoldable pub swap_cells {ℓ} : {A : Type ℓ} → (ℕ → A) → ℕ → ℕ → ℕ → A
swap_cells m i j = write (write m i (m j)) j (m i)

module _ {ℓ} {A : Type ℓ} where
  -- The loop of `remove`: `n` cells from `i` on take the value of the next.
  unfoldable pub shift_left : ℕ → ℕ → (ℕ → A) → ℕ → A
  shift_left zero i m = m
  shift_left (suc n) i m = shift_left n (i + 1) (write m i (m (i + 1)))

  -- The loop of `insert`: the `n` cells above `index` take the value of the one before.
  unfoldable pub shift_right : ℕ → ℕ → (ℕ → A) → ℕ → A
  shift_right zero index m = m
  shift_right (suc n) index m = shift_right n index (write m (index + suc n) (m (index + n)))

  unfoldable pub empty : Vector A → Bool
  empty v = v.size == 0

  -- `operator[]` of an unsigned index.
  unfoldable pub at : Vector A → ℕ → Option A
  at v index = if ltb index v.size then some (v.data_at index) else none

  -- `operator[]` of a signed one: `negsuc k` is `-(k + 1)`, counted from the end.
  unfoldable pub at_signed : Vector A → ℤ → Option A
  at_signed v (pos index) = if ltb index v.size then some (v.data_at index) else none
  at_signed v (negsuc k) = if leb (k + 1) v.size then some (v.data_at (v.size - (k + 1))) else none

  -- The index of the cell that `top()` points to.
  unfoldable pub top : Vector A → ℕ
  top v = sub64 v.size 1

  -- The loop of `mergeIn`, from `i` down.
  unfoldable pub merge_down : (A → A → Bool) → ℕ → (ℕ → A) → ℕ → A
  merge_down comp zero m = m
  merge_down comp (suc i) m =
      let rest = merge_down comp i (swap_cells m (suc i) i) in
      if comp (m (suc i)) (m i) then rest else m

  -- An iteration over `reverse()`, from the pointer `data + n - 1` down to `data`.
  unfoldable pub reversed_from : ℕ → (ℕ → A) → List A
  reversed_from zero m = []
  reversed_from (suc n) m = m n ∷ reversed_from n m

  unfoldable pub reversed : Vector A → List A
  unfolding reversed_from
  reversed v = reversed_from v.size v.data_at

module _ {ℓ} {A : Type ℓ} (fresh : ℕ → ℕ → A) where
  unfoldable pub copied : Vector A → ℕ → ℕ → A
  copied v new_capacity i = if ltb i v.size then v.data_at i else fresh new_capacity i

  -- `none`: the elements do not fit the new buffer.
  unfoldable pub reallocate : ℕ → Vector A → Option (Vector A)
  reallocate new_capacity v =
      if leb v.size new_capacity
      then some (record v { data_at = copied v new_capacity; capacity = new_capacity })
      else none

  -- The second and third test, after the first has given an empty vector its buffer.
  unfoldable pub grow_or_shrink : Vector A → Option (Vector A)
  unfolding reallocate
  grow_or_shrink v =
      if v.size == v.capacity
      then reallocate (v.capacity * 2 % 2 ^ 64) v
      else if leb v.size (v.capacity / 4) && ltb 8 v.capacity
      then reallocate (v.capacity / 2) v
      else some v

  unfoldable pub reallocate_if_necessary : Vector A → Option (Vector A)
  unfolding grow_or_shrink
  reallocate_if_necessary v =
      if v.capacity == 0
      then elim (reallocate 8 v) [ none ↦ none | some w ↦ grow_or_shrink w ]
      else grow_or_shrink v

  unfoldable pub with_capacity : ℕ → Vector A
  with_capacity n = record { data_at = fresh n; size = 0; capacity = n }

  unfoldable pub from_array : (ℕ → A) → ℕ → Vector A
  from_array array n = record {
    data_at = λ i. if ltb i n then array i else fresh n i;
    size = n;
    capacity = n;
  }

  unfoldable pub copy : Vector A → Vector A
  copy other = record other { data_at = copied other other.capacity }

  -- `operator=` of another vector and of the same one: what the target holds afterwards.
  unfoldable pub assign : Bool → Vector A → Vector A → Vector A
  unfolding copy
  assign itself other v = if itself then v else copy other

  -- The default constructor, `clear()`, and what a moved-from vector is.
  unfoldable pub cleared : Vector A
  cleared = record { data_at = fresh 0; size = 0; capacity = 0 }

  -- The move constructor: the new vector, and what is left of the other.
  unfoldable pub move_from : Vector A → Vector A × Vector A
  move_from other = (other, cleared)

  -- `operator=` of a temporary: the target and what is left of the other.
  unfoldable pub move_assign : Bool → Vector A → Vector A → Vector A × Vector A
  unfolding cleared
  move_assign itself other v = if itself then (v, v) else (other, cleared)

  unfoldable pub push : A → Vector A → Option (Vector A)
  unfolding reallocate_if_necessary
  push value v = elim (reallocate_if_necessary v) [
    | none ↦ none
    | some w ↦
        if ltb w.size w.capacity
        then some (record w { data_at = write w.data_at w.size value; size = w.size + 1 })
        else none
  ]

  unfoldable pub push_all : List A → Vector A → Option (Vector A)
  unfolding push
  push_all [] v = some v
  push_all (x ∷ xs) v = elim (push x v) [ none ↦ none | some w ↦ push_all xs w ]

  -- The constructors from a range and from an initializer list.
  unfoldable pub from_range : List A → Option (Vector A)
  from_range xs = push_all xs (with_capacity 5)

  unfoldable pub from_list : ℕ → List A → Option (Vector A)
  from_list n xs = push_all xs (with_capacity n)

  unfoldable pub remove : ℕ → Vector A → Option (Vector A)
  unfolding shift_left
  remove index v =
      if ltb index v.size
      then reallocate_if_necessary (record v {
        data_at = shift_left (v.size - 1 - index) index v.data_at;
        size = v.size - 1;
      })
      else none

  unfoldable pub pop : Vector A → Option (A × Vector A)
  pop v =
      if ltb 0 v.size
      then elim (reallocate_if_necessary (record v { size = v.size - 1 })) [
        | none ↦ none
        | some w ↦ some (v.data_at (v.size - 1), w)
      ]
      else none

  unfoldable pub insert : ℕ → A → Vector A → Option (Vector A)
  unfolding shift_right
  insert index value v =
      if leb index v.size
      then elim (reallocate_if_necessary v) [
        | none ↦ none
        | some w ↦
            if index == w.size
            then push value w
            else if ltb w.size w.capacity
            then some (record w {
              data_at = write (shift_right (w.size - index) index w.data_at) index value;
              size = w.size + 1;
            })
            else none
      ]
      else none

  unfoldable pub ensure_room : ℕ → Vector A → Option (Vector A)
  ensure_room open_slots v =
      let min_size = (v.size + open_slots) % 2 ^ 64 in
      if ltb v.capacity min_size then reallocate ((min_size + 4) % 2 ^ 64) v else some v

  unfoldable pub shrink_to_fit : Vector A → Option (Vector A)
  shrink_to_fit v = reallocate v.size v

  unfoldable pub merge_in : (A → A → Bool) → A → Vector A → Option (Vector A)
  unfolding merge_down
  merge_in comp value v = elim (push value v) [
    | none ↦ none
    | some w ↦
        some
          (if w.size == 1 then w else record w { data_at = merge_down comp (w.size - 1) w.data_at })
  ]
