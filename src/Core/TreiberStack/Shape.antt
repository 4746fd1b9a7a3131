-- ===== src/Core/TreiberStack/Shape.antt =====
-- What holds of a `TreiberStack` (libraries/Core/include/core/atomic/TreiberStack.h) and its threads
-- between any two steps: the nodes of the stack are a list, and every node has one owner.
use cro_cos.Base.{
  ℕ, ◌≤◌, ◌≡◌, ◌≢◌, ◌⊎◌, inl, inr, true, Option, none, some, List, [], ◌∷◌, refl, ap, ◌∙◌, arith,
  ==_iff, ==_cases,
}
use cro_cos.Base.Memory.{write, write_same, write_other}
use cro_cos.Core.LinkedList.Shape.{first_or, Nexts}
use cro_cos.Core.RingBuffer.Tickets.{write-all}
use cro_cos.Core.TreiberStack.{
  TreiberStack, Thread, between, push_load, push_link, push_exchange, pop_load, pop_next,
  pop_exchange, same_ptr, head_is,
}
use cro_cos.LibAlloc.Slab.Stack.{Avoids, Distinct}

abbrev pub In : ℕ → List ℕ → Type 0
In x [] = ⊥
In x (y ∷ ys) = (y ≡ x) ⊎ In x ys

pub In-Avoids : (x y : ℕ) (xs : List ℕ) → In x xs → Avoids y xs → x ≢ y
In-Avoids x y [] h off q = elim h [ ]
In-Avoids x y (z ∷ xs) (inl e) (ne, off) q = ne (e ∙ q)
In-Avoids x y (z ∷ xs) (inr h) (ne, off) q = In-Avoids x y xs h off q

pub Avoids-of : (x : ℕ) (xs : List ℕ) → ¬ In x xs → Avoids x xs
Avoids-of x [] h = tt
Avoids-of x (y ∷ xs) h = ((λ e. h (inl e)), Avoids-of x xs (λ i. h (inr i)))

-- The nodes that a thread owns, with the one that it is pushing.
abbrev pub held : Thread → List ℕ
held (between ops owned) = owned
held (push_load ops owned n) = n ∷ owned
held (push_link ops owned n ptr tag) = n ∷ owned
held (push_exchange ops owned n ptr tag) = n ∷ owned
held (pop_load ops owned) = owned
held (pop_next ops owned p tag) = owned
held (pop_exchange ops owned p tag next) = owned

-- A pop that read the head `p` with its tag: if the tag is still the same, then `p` is still the head,
-- or it is not in the stack.
pub record Seen (s : TreiberStack) (nodes : List ℕ) (p tag : ℕ) : Type 0 where
  pub not_newer : tag ≤ s.head_tag
  pub same_or_gone : tag ≡ s.head_tag → (s.head_ptr ≡ some p) ⊎ Avoids p nodes

abbrev pub Local : TreiberStack → List ℕ → Thread → Type 0
Local s nodes (push_exchange ops owned n ptr tag) = s.next_at n ≡ ptr
Local s nodes (pop_next ops owned p tag) = Seen s nodes p tag
Local s nodes (pop_exchange ops owned p tag next) =
    Seen s nodes p tag × (tag ≡ s.head_tag → s.head_ptr ≡ some p → s.next_at p ≡ next)
Local s nodes _ = Unit

-- The stack is the chain of the nodes, from the top.
pub record IsStack (s : TreiberStack) (nodes : List ℕ) : Type 0 where
  pub top : s.head_ptr ≡ first_or none nodes
  pub chain : Nexts s.next_at nodes none
  pub distinct : Distinct nodes

-- `Node x` says that `x` is one of the nodes that the threads had to begin with.
pub record Inv (Node : ℕ → Type 0) (nodes : List ℕ) (s : TreiberStack) (threads : ℕ → Thread)
    : Type 0 where
  pub linked : IsStack s nodes
  pub not_shared : (t u x : ℕ) → In x (held (threads t)) → In x (held (threads u)) → t ≡ u
  pub not_in_stack : (t x : ℕ) → In x (held (threads t)) → Avoids x nodes
  pub not_twice : (t : ℕ) → Distinct (held (threads t))
  pub not_lost : (x : ℕ) → Node x → In x nodes ⊎ ((t : ℕ) × In x (held (threads t)))
  pub locals : (t : ℕ) → Local s nodes (threads t)

pub head_is-eq :
    (s : TreiberStack) (ptr : Option ℕ) (tag : ℕ)
    → head_is s ptr tag ≡ true
    → (s.head_ptr ≡ ptr) × (s.head_tag ≡ tag)
head_is-eq s ptr tag h = ground (arith, same_ptr-eq s.head_ptr ptr)
  where
    same_ptr-eq : (a b : Option ℕ) → same_ptr a b ≡ true → a ≡ b
    same_ptr-eq none none h = refl
    same_ptr-eq none (some q) h = cc
    same_ptr-eq (some p) none h = cc
    same_ptr-eq (some p) (some q) h = ap some ((==_iff p q).0 h)

pub record Moved (nodes nodes' : List ℕ) (s' : TreiberStack) (threads : ℕ → Thread) (t : ℕ)
    (th' : Thread) : Type 0 where
  pub linked' : IsStack s' nodes'
  pub apart : (u x : ℕ) → t ≢ u → In x (held th') → ¬ In x (held (threads u))
  pub off_here : (x : ℕ) → In x (held th') → Avoids x nodes'
  pub off_others : (u x : ℕ) → t ≢ u → In x (held (threads u)) → Avoids x nodes'
  pub once : Distinct (held th')
  pub moved_on : (x : ℕ) → In x nodes ⊎ In x (held (threads t)) → In x nodes' ⊎ In x (held th')
  pub here : Local s' nodes' th'
  pub others : (u : ℕ) → t ≢ u → Local s' nodes' (threads u)

pub Inv-write :
    (Node : ℕ → Type 0) (nodes nodes' : List ℕ) (s s' : TreiberStack) (threads : ℕ → Thread) (t : ℕ)
    (th' : Thread)
    → Inv Node nodes s threads
    → Moved nodes nodes' s' threads t th'
    → Inv Node nodes' s' (write threads t th')
Inv-write Node nodes nodes' s s' threads t th' v m = record {
  linked = m.linked';
  not_shared =
      write-all (λ u a. (w x : ℕ) → In x (held a) → In x (held (write threads t th' w)) → u ≡ w)
        threads t th'
        (λ w x mine.
          write-all (λ w b. In x (held b) → t ≡ w) threads t th' (λ _. refl)
            (λ w ne theirs. absurd (m.apart w x ne mine theirs)) w)
        (λ u ne w x theirs.
          write-all (λ w b. In x (held b) → u ≡ w) threads t th'
            (λ mine. absurd (m.apart u x ne mine theirs))
            (λ w _ other. v.not_shared u w x theirs other) w);
  not_in_stack =
      write-all (λ _ a. (x : ℕ) → In x (held a) → Avoids x nodes') threads t th' m.off_here
        (λ u ne x. m.off_others u x ne);
  not_twice = write-all (λ _ a. Distinct (held a)) threads t th' m.once (λ u ne. v.not_twice u);
  not_lost = λ x is. elim (v.not_lost x is) [
    | inl old ↦ found x (m.moved_on x (inl old))
    | inr (u, h) ↦ elim (==_cases t u) [
      | inl e ↦ found x (m.moved_on x (inr (rw (← e) at h)))
      | inr ne ↦ inr (u, rw (write_other threads t u th' ne) h)
    ]
  ];
  locals = write-all (λ _ a. Local s' nodes' a) threads t th' m.here m.others;
}
  where
    found :
        (x : ℕ)
        → In x nodes' ⊎ In x (held th')
        → In x nodes' ⊎ ((u : ℕ) × In x (held (write threads t th' u)))
    found x (inl h) = inl h
    found x (inr h) = inr (t, rw (write_same threads t t th' refl) h)
