-- ===== src/Core/TreiberStack/Effects.antt =====
-- A `TreiberStack` (libraries/Core/include/core/atomic/TreiberStack.h) is a stack for all its threads
-- together: each call takes effect at one step, whatever the others do in between.
use cro_cos.Base.{
  ℕ, ◌+◌, ◌^◌, ◌≤◌, ◌<◌, ◌≡◌, inl, Bool, true, false, Option, none, some, List, [], ◌∷◌, refl, sym,
  ap, ◌∙◌, arith,
}
use cro_cos.Base.Memory.{write, write_same}
use cro_cos.Core.LinkedList.Shape.{first_or}
use cro_cos.Core.TreiberStack.{
  TreiberStack, Op, push_op, pop_op, Thread, between, push_load, push_link, push_exchange, pop_load,
  pop_next, pop_exchange, next_call, pop_loaded, push_exchanged, pop_exchanged, head_is, step,
}
use cro_cos.Core.TreiberStack.Shape.{held, Local, Inv, head_is-eq}
use cro_cos.Core.TreiberStack.Steps.{Inv-still, Inv-link, Inv-push, Inv-pop}
use cro_cos.LibAlloc.Pointers.{add64}

-- What a thread owns, if it stands between two calls.
abbrev pub returned : Thread → Option (List ℕ)
returned (between ops owned) = some owned
returned _ = none

abbrev pub PushEffect : ℕ → Option (List ℕ) → List ℕ → List ℕ → Type 0
PushEffect n none nodes nodes' = nodes' ≡ nodes
PushEffect n (some owned) nodes nodes' = nodes' ≡ n ∷ nodes

abbrev pub PopEffect : ℕ → List ℕ → Option (List ℕ) → List ℕ → List ℕ → Type 0
PopEffect p owned none nodes nodes' = nodes' ≡ nodes
PopEffect p owned (some owned') nodes nodes' = (nodes ≡ p ∷ nodes') × (owned' ≡ p ∷ owned)

abbrev pub EmptyEffect : Option (List ℕ) → List ℕ → List ℕ → Type 0
EmptyEffect none nodes nodes' = nodes' ≡ nodes
EmptyEffect (some owned) nodes nodes' = (nodes' ≡ nodes) × (nodes ≡ [])

-- What a step of a thread does to the nodes of the stack: a push that returns puts its node on top, a
-- pop that returns a node has taken it from the top, a pop that returns none found the stack empty,
-- and any other step leaves them as they are.
abbrev pub Effect : Thread → Thread → List ℕ → List ℕ → Type 0
Effect (push_exchange ops owned n ptr tag) th' nodes nodes' =
    PushEffect n (returned th') nodes nodes'
Effect (pop_exchange ops owned p tag next) th' nodes nodes' =
    PopEffect p owned (returned th') nodes nodes'
Effect (pop_load ops owned) th' nodes nodes' = EmptyEffect (returned th') nodes nodes'
Effect _ th' nodes nodes' = nodes' ≡ nodes

pub record Stepped (Node : ℕ → Type 0) (nodes : List ℕ) (s : TreiberStack) (threads : ℕ → Thread)
    (t : ℕ) (th : Thread) (after : Thread × TreiberStack) : Type 0 where
  pub nodes' : List ℕ
  pub inv : Inv Node nodes' after.1 (write threads t after.0)
  pub effect : Effect th after.0 nodes nodes'
  pub tag_up : after.1.head_tag ≤ s.head_tag + 1

empty_of : (nodes : List ℕ) → first_or none nodes ≡ none → nodes ≡ []
empty_of [] e = refl
empty_of (x ∷ nodes) e = cc

top_of :
    (nodes : List ℕ) (p : ℕ) → first_or none nodes ≡ some p → (rest : List ℕ) × (nodes ≡ p ∷ rest)
top_of [] p e = cc
top_of (x ∷ nodes) p e = (nodes, ground (arith, e))

module _ (Node : ℕ → Type 0) (nodes : List ℕ) (s : TreiberStack) (threads : ℕ → Thread)
    (v : Inv Node nodes s threads) (small : s.head_tag + 1 < 2 ^ 64) (t : ℕ) where
  still :
      (th th' : Thread)
      → threads t ≡ th
      → held th ≡ held th'
      → Local s nodes th'
      → Effect th th' nodes nodes
      → Stepped Node nodes s threads t th (th', s)
  still th th' e same here effect = record {
    nodes' = nodes;
    inv = Inv-still Node nodes s threads v t th' (ap held e ∙ same) here;
    effect = effect;
    tag_up = omega arith;
  }

  next_call-Stepped :
      (ops : List Op) (owned : List ℕ)
      → threads t ≡ between ops owned
      → Stepped Node nodes s threads t (between ops owned) (next_call ops owned, s)
  next_call-Stepped [] owned e = still (between [] owned) (between [] owned) e refl tt refl
  next_call-Stepped (push_op ∷ ops) [] e =
      still (between (push_op ∷ ops) []) (between ops []) e refl tt refl
  next_call-Stepped (push_op ∷ ops) (n ∷ owned) e =
      still (between (push_op ∷ ops) (n ∷ owned)) (push_load ops owned n) e refl tt refl
  next_call-Stepped (pop_op ∷ ops) owned e =
      still (between (pop_op ∷ ops) owned) (pop_load ops owned) e refl tt refl

  push_exchanged-Stepped :
      (ops : List Op) (owned : List ℕ) (n : ℕ) (ptr : Option ℕ) (tag : ℕ) (b : Bool)
      → threads t ≡ push_exchange ops owned n ptr tag
      → s.next_at n ≡ ptr
      → (b ≡ true → (s.head_ptr ≡ ptr) × (s.head_tag ≡ tag))
      → Stepped Node nodes s threads t
          (push_exchange ops owned n ptr tag)
          (push_exchanged b ops owned n tag s)
  push_exchanged-Stepped ops owned n ptr tag false e link won =
      still (push_exchange ops owned n ptr tag) (push_link ops owned n s.head_ptr s.head_tag) e refl
        tt refl
  push_exchanged-Stepped ops owned n ptr tag true e link won =
      let (at, same) = won refl in
      let next_tag : add64 tag 1 ≡ s.head_tag + 1 = omega (arith, same, small) in
      rw next_tag (record {
        nodes' = n ∷ nodes;
        inv =
            Inv-push Node nodes s threads v t (between ops owned) n (ap held e) (link ∙ sym at) tt;
        effect = refl;
        tag_up = omega arith;
      })

  pop_loaded-Stepped :
      (ops : List Op) (owned : List ℕ) (o : Option ℕ)
      → threads t ≡ pop_load ops owned
      → s.head_ptr ≡ o
      → Stepped Node nodes s threads t (pop_load ops owned) (pop_loaded ops owned o s.head_tag, s)
  pop_loaded-Stepped ops owned none e at =
      still (pop_load ops owned) (between ops owned) e refl tt
        (refl, empty_of nodes (sym v.linked.top ∙ at))
  pop_loaded-Stepped ops owned (some p) e at =
      still (pop_load ops owned) (pop_next ops owned p s.head_tag) e refl
        (record { not_newer = omega arith; same_or_gone = λ _. inl at }) refl

  pop_exchanged-Stepped :
      (ops : List Op) (owned : List ℕ) (p tag : ℕ) (next : Option ℕ) (b : Bool)
      → threads t ≡ pop_exchange ops owned p tag next
      → (tag ≡ s.head_tag → s.head_ptr ≡ some p → s.next_at p ≡ next)
      → (b ≡ true → (s.head_ptr ≡ some p) × (s.head_tag ≡ tag))
      → Stepped Node nodes s threads t
          (pop_exchange ops owned p tag next)
          (pop_exchanged b ops owned p tag next s)
  pop_exchanged-Stepped ops owned p tag next false e link won =
      still (pop_exchange ops owned p tag next) (pop_load ops owned) e refl tt refl
  pop_exchanged-Stepped ops owned p tag next true e link won =
      let (at, same) = won refl in
      let (rest, is) = top_of nodes p (sym v.linked.top ∙ at) in
      rw (sym same) (record {
        nodes' = rest;
        inv =
            Inv-pop Node nodes s threads v t (between ops (p ∷ owned)) p rest next is
              (ap (λ x. p ∷ x) (sym (ap held e))) (link (sym same) at) tt;
        effect = (is, refl);
        tag_up = omega arith;
      })

  pub step-Stepped : (th : Thread) → threads t ≡ th → Stepped Node nodes s threads t th (step th s)
  unfolding step
  step-Stepped (between ops owned) e = next_call-Stepped ops owned e
  step-Stepped (push_load ops owned n) e =
      still (push_load ops owned n) (push_link ops owned n s.head_ptr s.head_tag) e refl tt refl
  step-Stepped (push_link ops owned n ptr tag) e = record {
    nodes' = nodes;
    inv =
        Inv-link Node nodes s threads v t (push_exchange ops owned n ptr tag) n ptr
          (rw e (inl refl)) (ap held e) (write_same s.next_at n n ptr refl);
    effect = refl;
    tag_up = omega arith;
  }
  step-Stepped (push_exchange ops owned n ptr tag) e =
      push_exchanged-Stepped ops owned n ptr tag (head_is s ptr tag) e (rw e at (v.locals t))
        (head_is-eq s ptr tag)
  step-Stepped (pop_load ops owned) e = pop_loaded-Stepped ops owned s.head_ptr e refl
  step-Stepped (pop_next ops owned p tag) e =
      still (pop_next ops owned p tag) (pop_exchange ops owned p tag (s.next_at p)) e refl
        (rw e at (v.locals t), λ _ _. refl) refl
  step-Stepped (pop_exchange ops owned p tag next) e =
      let h : Local s nodes (pop_exchange ops owned p tag next) = rw e at (v.locals t) in
      pop_exchanged-Stepped ops owned p tag next (head_is s (some p) tag) e h.1
        (head_is-eq s (some p) tag)
