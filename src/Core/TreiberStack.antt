-- ===== src/Core/TreiberStack.antt =====
-- libraries/Core/include/core/atomic/TreiberStack.h: `TreiberStack`, and the threads that use it.
--
-- A node is a number, `nullptr` is `none`, and the head is a pointer with its tag, as
-- `Uint128HeadEncoding` packs them. A thread's state is the place in the code where it stands, with
-- its local variables, the calls that it has still to make, and the nodes that it owns: it pushes
-- only nodes that it owns, and owns what it pops. A step is one atomic operation on the head or one
-- access to a node's link. Memory is sequentially consistent here.
pub mod Shape
pub mod Steps
pub mod Effects
pub mod Linear
use cro_cos.Base.{
  ℕ, ◌+◌, ◌%◌, ◌^◌, Bool, true, false, ◌&&◌, Option, none, some, List, [], ◌∷◌, ◌==◌, if◌then◌else◌,
}
use cro_cos.Base.Memory.{write}
use cro_cos.LibAlloc.Pointers.{add64}

pub record TreiberStack : Type 0 where
  pub head_ptr : Option ℕ
  pub head_tag : ℕ
  pub next_at : ℕ → Option ℕ

pub data Op : Type 0 where
  push_op : Op
  pop_op : Op

pub data Thread : Type 0 where
  between : List Op → List ℕ → Thread
  push_load : List Op → List ℕ → ℕ → Thread
  push_link : List Op → List ℕ → ℕ → Option ℕ → ℕ → Thread
  push_exchange : List Op → List ℕ → ℕ → Option ℕ → ℕ → Thread
  pop_load : List Op → List ℕ → Thread
  pop_next : List Op → List ℕ → ℕ → ℕ → Thread
  pop_exchange : List Op → List ℕ → ℕ → ℕ → Option ℕ → Thread

abbrev pub same_ptr : Option ℕ → Option ℕ → Bool
same_ptr none none = true
same_ptr none (some q) = false
same_ptr (some p) none = false
same_ptr (some p) (some q) = p == q

-- The comparison of `compare_exchange`: the whole of the head, pointer and tag.
abbrev pub head_is : TreiberStack → Option ℕ → ℕ → Bool
head_is s ptr tag = same_ptr s.head_ptr ptr && s.head_tag == tag

-- The next call of a thread; it has nothing to push if it owns no node.
abbrev pub next_call : List Op → List ℕ → Thread
next_call [] owned = between [] owned
next_call (push_op ∷ ops) [] = between ops []
next_call (push_op ∷ ops) (n ∷ owned) = push_load ops owned n
next_call (pop_op ∷ ops) owned = pop_load ops owned

abbrev pub pop_loaded : List Op → List ℕ → Option ℕ → ℕ → Thread
pop_loaded ops owned none tag = between ops owned
pop_loaded ops owned (some p) tag = pop_next ops owned p tag

-- The two outcomes of the exchanges. The push goes on with the head that it found, the pop loads the
-- head again.
abbrev pub push_exchanged : Bool → List Op → List ℕ → ℕ → ℕ → TreiberStack → Thread × TreiberStack
push_exchanged true ops owned n tag s =
    (between ops owned, record s { head_ptr = some n; head_tag = add64 tag 1 })
push_exchanged false ops owned n tag s = (push_link ops owned n s.head_ptr s.head_tag, s)

abbrev pub pop_exchanged :
    Bool → List Op → List ℕ → ℕ → ℕ → Option ℕ → TreiberStack → Thread × TreiberStack
pop_exchanged true ops owned p tag next s =
    (between ops (p ∷ owned), record s { head_ptr = next; head_tag = tag })
pop_exchanged false ops owned p tag next s = (pop_load ops owned, s)

unfoldable pub step : Thread → TreiberStack → Thread × TreiberStack
step (between ops owned) s = (next_call ops owned, s)
step (push_load ops owned n) s = (push_link ops owned n s.head_ptr s.head_tag, s)
step (push_link ops owned n ptr tag) s =
    (push_exchange ops owned n ptr tag, record s { next_at = write s.next_at n ptr })
step (push_exchange ops owned n ptr tag) s = push_exchanged (head_is s ptr tag) ops owned n tag s
step (pop_load ops owned) s = (pop_loaded ops owned s.head_ptr s.head_tag, s)
step (pop_next ops owned p tag) s = (pop_exchange ops owned p tag (s.next_at p), s)
step (pop_exchange ops owned p tag next) s =
    pop_exchanged (head_is s (some p) tag) ops owned p tag next s

pub record System : Type 0 where
  pub stack : TreiberStack
  pub threads : ℕ → Thread

-- An empty stack, and what each thread is to call and owns.
abbrev pub start : (ℕ → Option ℕ) → (ℕ → List Op) → (ℕ → List ℕ) → System
start links ops owned = record {
  stack = record { head_ptr = none; head_tag = 0; next_at = links };
  threads = λ t. between (ops t) (owned t);
}

unfoldable pub schedule : ℕ → System → System
schedule t s = record {
  stack = (step (s.threads t) s.stack).1;
  threads = write s.threads t ((step (s.threads t) s.stack).0);
}

-- The threads that take the steps, in their order.
unfoldable pub run : List ℕ → System → System
run [] s = s
run (t ∷ ts) s = run ts (schedule t s)
