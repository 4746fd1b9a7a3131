-- ===== src/Core/LinkedList.antt =====
-- libraries/Core/include/core/ds/LinkedList.h: `IntrusiveLinkedList`.
--
-- A node is a number and `nullptr` is `none`. `Extractor::previous` and `Extractor::next` are the
-- functions `previous_at` and `next_at`, which hold the links of every node. The result of a push
-- is `none` where the code dereferences a null pointer.
pub mod Shape
pub mod Link
pub mod Unlink
use cro_cos.Base.{ℕ, ◌==◌, Bool, true, false, Option, none, some}
use cro_cos.Base.Memory.{write}

pub record IntrusiveLinkedList : Type 0 where
  pub head_node : Option ℕ
  pub tail_node : Option ℕ
  pub previous_at : ℕ → Option ℕ
  pub next_at : ℕ → Option ℕ

abbrev pub empty_list : (ℕ → Option ℕ) → (ℕ → Option ℕ) → IntrusiveLinkedList
empty_list previous next = record {
  head_node = none;
  tail_node = none;
  previous_at = previous;
  next_at = next;
}

-- `p == &node`.
abbrev pub points_at : Option ℕ → ℕ → Bool
points_at none node = false
points_at (some p) node = p == node

-- A link written through a pointer that is tested for null first.
abbrev pub relink : (ℕ → Option ℕ) → Option ℕ → Option ℕ → ℕ → Option ℕ
relink links none v = links
relink links (some p) v = write links p v

-- The branch of both pushes for an empty list.
abbrev pub push_only : ℕ → IntrusiveLinkedList → IntrusiveLinkedList
push_only node l = record l {
  head_node = some node;
  tail_node = some node;
  previous_at = write l.previous_at node none;
  next_at = write l.next_at node none;
}

unfoldable pub push_back_at :
    Option ℕ → Option ℕ → ℕ → IntrusiveLinkedList → Option IntrusiveLinkedList
push_back_at none tail node l = some (push_only node l)
push_back_at (some head) none node l = none
push_back_at (some head) (some tail) node l = some (record l {
  tail_node = some node;
  previous_at = write l.previous_at node (some tail);
  next_at = write (write l.next_at tail (some node)) node none;
})

unfoldable pub push_back : ℕ → IntrusiveLinkedList → Option IntrusiveLinkedList
push_back node l = push_back_at l.head_node l.tail_node node l

unfoldable pub push_front_at : Option ℕ → ℕ → IntrusiveLinkedList → IntrusiveLinkedList
push_front_at none node l = push_only node l
push_front_at (some head) node l = record l {
  head_node = some node;
  previous_at = write (write l.previous_at head (some node)) node none;
  next_at = write l.next_at node (some head);
}

unfoldable pub push_front : ℕ → IntrusiveLinkedList → IntrusiveLinkedList
push_front node l = push_front_at l.head_node node l

-- The end of the list that `remove` leaves: the neighbour's, if the node stood there.
abbrev pub end_without : Bool → Option ℕ → Option ℕ → Option ℕ
end_without true end neighbour = neighbour
end_without false end neighbour = end

unfoldable pub remove : ℕ → IntrusiveLinkedList → IntrusiveLinkedList
remove node l =
    let next = relink l.next_at (l.previous_at node) (l.next_at node) in
    record {
      head_node = end_without (points_at l.head_node node) l.head_node (l.next_at node);
      tail_node = end_without (points_at l.tail_node node) l.tail_node (l.previous_at node);
      previous_at = relink l.previous_at (next node) (l.previous_at node);
      next_at = next;
    }

abbrev pub pop_at : Option ℕ → IntrusiveLinkedList → Option ℕ × IntrusiveLinkedList
pop_at none l = (none, l)
pop_at (some node) l = (some node, remove node l)

unfoldable pub pop_front : IntrusiveLinkedList → Option ℕ × IntrusiveLinkedList
pop_front l = pop_at l.head_node l

unfoldable pub pop_back : IntrusiveLinkedList → Option ℕ × IntrusiveLinkedList
pop_back l = pop_at l.tail_node l
