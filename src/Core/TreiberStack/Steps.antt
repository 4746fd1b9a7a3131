-- ===== src/Core/TreiberStack/Steps.antt =====
-- The steps on a `TreiberStack` (libraries/Core/include/core/atomic/TreiberStack.h) that change it, and
-- those that leave it as it is, keep its invariant.
use cro_cos.Base.{
  ℕ, ◌+◌, ◌≡◌, ◌≢◌, ◌⊎◌, inl, inr, Option, none, some, List, [], ◌∷◌, refl, sym, ◌∙◌, arith,
}
use cro_cos.Base.Memory.{write, write_other}
use cro_cos.Core.LinkedList.Shape.{first_or, Nexts-write}
use cro_cos.Core.TreiberStack.{
  TreiberStack, Thread, between, push_load, push_link, push_exchange, pop_load, pop_next,
  pop_exchange,
}
use cro_cos.Core.TreiberStack.Shape.{
  In, In-Avoids, Avoids-of, held, Seen, Local, IsStack, Inv, Inv-write,
}
use cro_cos.LibAlloc.Slab.Stack.{Avoids, Distinct}

-- A write to the link of a node off the stack does not touch the link of the head.
off_head :
    (s : TreiberStack) (nodes : List ℕ) (n p : ℕ)
    → IsStack s nodes
    → Avoids n nodes
    → s.head_ptr ≡ some p
    → n ≢ p
off_head s [] n p is off e same = ground (arith, is.top, e)
off_head s (q ∷ nodes) n p is off e same = off.0 (ground (arith, is.top, e, same))

-- A link written by another thread leaves a thread's facts true.
Local-link :
    (s : TreiberStack) (nodes : List ℕ) (n : ℕ) (ptr : Option ℕ) (th : Thread)
    → IsStack s nodes
    → Avoids n nodes
    → ¬ In n (held th)
    → Local s nodes th
    → Local (record s { next_at = write s.next_at n ptr }) nodes th
Local-link s nodes n ptr (between ops owned) is off other h = tt
Local-link s nodes n ptr (push_load ops owned m) is off other h = tt
Local-link s nodes n ptr (push_link ops owned m q tag) is off other h = tt
Local-link s nodes n ptr (push_exchange ops owned m q tag) is off other h =
    write_other s.next_at n m ptr (λ e. other (inl (sym e))) ∙ h
Local-link s nodes n ptr (pop_load ops owned) is off other h = tt
Local-link s nodes n ptr (pop_next ops owned p tag) is off other h = record {
  not_newer = h.not_newer;
  same_or_gone = h.same_or_gone;
}
Local-link s nodes n ptr (pop_exchange ops owned p tag next) is off other h = (
  record { not_newer = h.0.not_newer; same_or_gone = h.0.same_or_gone },
  λ e e'. write_other s.next_at n p ptr (off_head s nodes n p is off e') ∙ h.1 e e',
)

-- A push makes the tags that were read before old.
Seen-push :
    (s : TreiberStack) (nodes : List ℕ) (n p tag : ℕ)
    → Seen s nodes p tag
    → Seen (record s { head_ptr = some n; head_tag = s.head_tag + 1 }) (n ∷ nodes) p tag
Seen-push s nodes n p tag h = record {
  not_newer = omega (arith, h.not_newer);
  same_or_gone = λ e. absurd (omega (arith, e, h.not_newer));
}

Local-push :
    (s : TreiberStack) (nodes : List ℕ) (n : ℕ) (th : Thread)
    → Local s nodes th
    → Local (record s { head_ptr = some n; head_tag = s.head_tag + 1 }) (n ∷ nodes) th
Local-push s nodes n (between ops owned) h = tt
Local-push s nodes n (push_load ops owned m) h = tt
Local-push s nodes n (push_link ops owned m q tag) h = tt
Local-push s nodes n (push_exchange ops owned m q tag) h = h
Local-push s nodes n (pop_load ops owned) h = tt
Local-push s nodes n (pop_next ops owned p tag) h = Seen-push s nodes n p tag h
Local-push s nodes n (pop_exchange ops owned p tag next) h =
    (Seen-push s nodes n p tag h.0, λ e. absurd (omega (arith, e, h.0.not_newer)))

-- A pop takes the head off for good, as far as a thread with the same tag can tell.
Seen-pop :
    (s : TreiberStack) (m : ℕ) (nodes : List ℕ) (next : Option ℕ) (p tag : ℕ)
    → IsStack s (m ∷ nodes)
    → Seen s (m ∷ nodes) p tag
    → Seen (record s { head_ptr = next }) nodes p tag
Seen-pop s m nodes next p tag is h = record {
  not_newer = h.not_newer;
  same_or_gone = λ e. elim (h.same_or_gone e) [
    | inl at ↦ (let same : m ≡ p = ground (arith, is.top, at) in inr (rw same at is.distinct.0))
    | inr off ↦ inr off.1
  ];
}

-- The node under the head is not one that was the head, or is off the stack.
gone :
    (s : TreiberStack) (m : ℕ) (nodes : List ℕ) (p : ℕ)
    → IsStack s (m ∷ nodes)
    → (s.head_ptr ≡ some p) ⊎ Avoids p (m ∷ nodes)
    → first_or none nodes ≡ some p
    → ⊥
gone s m [] p is h at = cc
gone s m (q ∷ nodes) p is (inl top) at = is.distinct.0.0 (ground (arith, is.top, top, at))
gone s m (q ∷ nodes) p is (inr off) at = off.1.0 (ground (arith, at))

Local-pop :
    (s : TreiberStack) (m : ℕ) (nodes : List ℕ) (th : Thread)
    → IsStack s (m ∷ nodes)
    → Local s (m ∷ nodes) th
    → Local (record s { head_ptr = first_or none nodes }) nodes th
Local-pop s m nodes (between ops owned) is h = tt
Local-pop s m nodes (push_load ops owned n) is h = tt
Local-pop s m nodes (push_link ops owned n q tag) is h = tt
Local-pop s m nodes (push_exchange ops owned n q tag) is h = h
Local-pop s m nodes (pop_load ops owned) is h = tt
Local-pop s m nodes (pop_next ops owned p tag) is h =
    Seen-pop s m nodes (first_or none nodes) p tag is h
Local-pop s m nodes (pop_exchange ops owned p tag next) is h = (
  Seen-pop s m nodes (first_or none nodes) p tag is h.0,
  λ e at. absurd (gone s m nodes p is (h.0.same_or_gone e) at),
)

module _ (Node : ℕ → Type 0) (nodes : List ℕ) (s : TreiberStack) (threads : ℕ → Thread)
    (v : Inv Node nodes s threads) (t : ℕ) (th' : Thread) where
  -- A step that changes neither the stack nor who owns what.
  pub Inv-still :
      held (threads t) ≡ held th' → Local s nodes th' → Inv Node nodes s (write threads t th')
  Inv-still e here = Inv-write Node nodes nodes s s threads t th' v (record {
    linked' = v.linked;
    apart = λ u x ne mine theirs. ne (v.not_shared t u x (rw e mine) theirs);
    off_here = λ x mine. v.not_in_stack t x (rw e mine);
    off_others = λ u x ne theirs. v.not_in_stack u x theirs;
    once = rw e at (v.not_twice t);
    moved_on = λ x. rw e (λ h. h);
    here = here;
    others = λ u ne. v.locals u;
  })

  -- A thread links the node that it is pushing.
  pub Inv-link :
      (n : ℕ) (ptr : Option ℕ)
      → In n (held (threads t))
      → held (threads t) ≡ held th'
      → Local (record s { next_at = write s.next_at n ptr }) nodes th'
      → Inv Node nodes (record s { next_at = write s.next_at n ptr }) (write threads t th')
  Inv-link n ptr mine_too e here =
      let off : Avoids n nodes = v.not_in_stack t n mine_too in
      Inv-write Node nodes nodes s (record s { next_at = write s.next_at n ptr }) threads t th' v
        (record {
          linked' = record {
            top = v.linked.top;
            chain = Nexts-write s.next_at n ptr nodes none off v.linked.chain;
            distinct = v.linked.distinct;
          };
          apart = λ u x ne mine theirs. ne (v.not_shared t u x (rw e mine) theirs);
          off_here = λ x mine. v.not_in_stack t x (rw e mine);
          off_others = λ u x ne theirs. v.not_in_stack u x theirs;
          once = rw e at (v.not_twice t);
          moved_on = λ x. rw e (λ h. h);
          here = here;
          others = λ u ne.
              Local-link s nodes n ptr (threads u) v.linked off
                (λ theirs. ne (v.not_shared t u n mine_too theirs)) (v.locals u);
        })

  -- The exchange of a push: the node goes on top of the stack.
  pub Inv-push :
      (n : ℕ)
      → held (threads t) ≡ n ∷ held th'
      → s.next_at n ≡ s.head_ptr
      → Local (record s { head_ptr = some n; head_tag = s.head_tag + 1 }) (n ∷ nodes) th'
      → Inv Node
          (n ∷ nodes)
          (record s { head_ptr = some n; head_tag = s.head_tag + 1 })
          (write threads t th')
  Inv-push n e link here =
      let whole : Distinct (n ∷ held th') = rw e at (v.not_twice t) in
      let off : Avoids n nodes = v.not_in_stack t n (rw e (inl refl)) in
      Inv-write Node nodes (n ∷ nodes) s (record s { head_ptr = some n; head_tag = s.head_tag + 1 })
        threads t th' v
        (record {
          linked' = record {
            top = refl;
            chain = (link ∙ v.linked.top, v.linked.chain);
            distinct = (off, v.linked.distinct);
          };
          apart = λ u x ne mine theirs. ne (v.not_shared t u x (rw e (inr mine)) theirs);
          off_here = λ x mine. (
            (λ same. In-Avoids x n (held th') mine whole.0 (sym same)),
            v.not_in_stack t x (rw e (inr mine)),
          );
          off_others = λ u x ne theirs. (
            (λ same. ne (v.not_shared t u x (rw e (inl same)) theirs)),
            v.not_in_stack u x theirs,
          );
          once = whole.1;
          moved_on = λ x h. elim h [
            | inl old ↦ inl (inr old)
            | inr mine ↦ elim (rw e at mine) [ inl same ↦ inl (inl same) | inr kept ↦ inr kept ]
          ];
          here = here;
          others = λ u ne. Local-push s nodes n (threads u) (v.locals u);
        })

  -- The exchange of a pop: the head goes off the stack, and its thread owns it.
  pub Inv-pop :
      (p : ℕ) (rest : List ℕ) (next : Option ℕ)
      → nodes ≡ p ∷ rest
      → held th' ≡ p ∷ held (threads t)
      → s.next_at p ≡ next
      → Local (record s { head_ptr = next }) rest th'
      → Inv Node rest (record s { head_ptr = next }) (write threads t th')
  Inv-pop p rest next is e link here =
      let old : IsStack s (p ∷ rest) = rw is at v.linked in
      let below : first_or none rest ≡ next = sym old.chain.0 ∙ link in
      let off : (u x : ℕ) → In x (held (threads u)) → Avoids x (p ∷ rest) =
        λ u x h. rw is at (v.not_in_stack u x h) in
      Inv-write Node nodes rest s (record s { head_ptr = next }) threads t th' v
        (record {
          linked' = record { top = sym below; chain = old.chain.1; distinct = old.distinct.1 };
          apart = λ u x ne mine theirs. elim (rw e at mine) [
            | inl same ↦ (off u x theirs).0 same
            | inr kept ↦ ne (v.not_shared t u x kept theirs)
          ];
          off_here = λ x mine. elim (rw e at mine) [
            | inl same ↦ rw same at old.distinct.0
            | inr kept ↦ (off t x kept).1
          ];
          off_others = λ u x ne theirs. (off u x theirs).1;
          once = rw e (Avoids-of p (held (threads t)) (λ h. (off t p h).0 refl), v.not_twice t);
          moved_on = λ x h. elim h [
            | inl in_stack ↦ elim (rw is at in_stack) [
              | inl same ↦ inr (rw e (inl same))
              | inr deeper ↦ inl deeper
            ]
            | inr mine ↦ inr (rw e (inr mine))
          ];
          here = here;
          others = λ u ne. rw below at (Local-pop s p rest (threads u) old (rw is at (v.locals u)));
        })
