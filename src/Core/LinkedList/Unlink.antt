-- ===== src/Core/LinkedList/Unlink.antt =====
-- `IntrusiveLinkedList::remove` (libraries/Core/include/core/ds/LinkedList.h) takes one node out.
use cro_cos.Base.{
  ℕ, ◌≡◌, refl, sym, ◌∙◌, Option, none, some, List, [], ◌∷◌, ◌++◌, ==_of_eq, ==_of_ne,
}
use mathlib.Core.List.{append-nil}
use cro_cos.Base.Memory.{write_same}
use cro_cos.Core.LinkedList.{IntrusiveLinkedList, relink, remove, end_without, points_at}
use cro_cos.Core.LinkedList.Shape.{
  first_or, last_or, Nexts, Previouses, Represents, Nexts-write, Previouses-write, Avoids-middle,
  Avoids-append, Distinct-middle, relink-last, relink-first, last_or-append, next_of, previous_of,
}
use cro_cos.LibAlloc.Slab.Stack.{Avoids, Distinct}

-- The next links skip `x` once the node before it leads where `x` leads.
Nexts-skip :
    (n : ℕ → Option ℕ) (x y : ℕ) (v : Option ℕ) (xs ys : List ℕ)
    → v ≡ first_or none ys
    → Nexts n (y ∷ xs ++ x ∷ ys) none
    → Distinct (y ∷ xs ++ x ∷ ys)
    → Nexts (relink n (last_or (some y) xs) v) (y ∷ xs ++ ys) none
Nexts-skip n x y v [] ys e (_, (_, h)) (off, _) =
    (write_same n y y v refl ∙ e, Nexts-write n y v ys none ((Avoids-middle y x [] ys off).1) h)
Nexts-skip n x y v (z ∷ xs) ys e (here, h) (off, d) = (
  relink-last n v y z xs ((Avoids-append y (z ∷ xs) (x ∷ ys) off).0) ∙ here,
  Nexts-skip n x z v xs ys e h d,
)

Nexts-unlink :
    (n : ℕ → Option ℕ) (x : ℕ) (v : Option ℕ) (xs ys : List ℕ)
    → v ≡ first_or none ys
    → Nexts n (xs ++ x ∷ ys) none
    → Distinct (xs ++ x ∷ ys)
    → Nexts (relink n (last_or none xs) v) (xs ++ ys) none
Nexts-unlink n x v [] ys e h d = h.1
Nexts-unlink n x v (y ∷ xs) ys e h d = Nexts-skip n x y v xs ys e h d

Previouses-unlink :
    (p : ℕ → Option ℕ) (x : ℕ) (v before : Option ℕ) (xs ys : List ℕ)
    → v ≡ last_or before xs
    → Previouses p before (xs ++ x ∷ ys)
    → Distinct (xs ++ x ∷ ys)
    → Previouses (relink p (first_or none ys) v) before (xs ++ ys)
Previouses-unlink p x v before [] [] e h d = tt
Previouses-unlink p x v before [] (z ∷ ys) e (_, (_, h)) (_, (off, _)) =
    (write_same p z z v refl ∙ e, Previouses-write p z v (some z) ys off h)
Previouses-unlink p x v before (y ∷ xs) ys e (here, h) (off, d) =
    let apart = Avoids-middle y x xs ys off in
    (
      relink-first p v y ys ((Avoids-append y xs ys apart.1).1) ∙ here,
      Previouses-unlink p x v (some y) xs ys e h d,
    )

head_without :
    (x : ℕ) (xs ys : List ℕ)
    → Avoids x (xs ++ ys)
    → end_without
        (points_at (first_or none (xs ++ x ∷ ys)) x)
        (first_or none (xs ++ x ∷ ys))
        (first_or none ys)
      ≡ first_or none (xs ++ ys)
head_without x [] ys off = rw (==_of_eq x x refl) refl
head_without x (y ∷ xs) ys (ne, off) = rw (==_of_ne y x ne) refl

-- The last node of a list that does not hold `x` is not `x`.
last_is_other :
    (x z : ℕ) (v : Option ℕ) (ys : List ℕ)
    → Avoids x (z ∷ ys)
    → end_without (points_at (last_or (some z) ys) x) (last_or (some z) ys) v ≡ last_or (some z) ys
last_is_other x z v [] (ne, off) = rw (==_of_ne z x ne) refl
last_is_other x z v (y ∷ ys) (ne, off) = last_is_other x y v ys off

tail_without :
    (x : ℕ) (xs ys : List ℕ)
    → Avoids x ys
    → end_without (points_at (last_or (some x) ys) x) (last_or (some x) ys) (last_or none xs)
      ≡ last_or none (xs ++ ys)
tail_without x xs [] off = rw (==_of_eq x x refl, append-nil xs) refl
tail_without x xs (z ∷ ys) off =
    last_is_other x z (last_or none xs) ys off ∙ sym (last_or-append none z xs ys)

next_kept :
    (n : ℕ → Option ℕ) (v : Option ℕ) (x : ℕ) (xs : List ℕ)
    → Avoids x xs
    → relink n (last_or none xs) v x ≡ n x
next_kept n v x [] off = refl
next_kept n v x (y ∷ xs) off = relink-last n v x y xs off

-- `remove` of a node in the list, first, last or only node included, leaves a list that links
-- exactly the other nodes, in their order, in both directions.
pub remove-Represents :
    (l : IntrusiveLinkedList) (x : ℕ) (xs ys : List ℕ)
    → Represents l (xs ++ x ∷ ys)
    → Represents (remove x l) (xs ++ ys)
unfolding remove
remove-Represents l x xs ys r =
    let next : l.next_at x ≡ first_or none ys = next_of l.next_at x xs ys none r.nexts in
    let previous : l.previous_at x ≡ last_or none xs =
      previous_of l.previous_at x none xs ys r.previouses in
    let apart = Distinct-middle x xs ys r.distinct in
    let sides = Avoids-append x xs ys apart.1 in
    let kept : relink l.next_at (l.previous_at x) (l.next_at x) x ≡ first_or none ys =
      rw previous (next_kept l.next_at (l.next_at x) x xs sides.0 ∙ next) in
    record {
      at_head = rw (r.at_head, next) (head_without x xs ys apart.1);
      at_tail =
          rw (r.at_tail, previous, last_or-append none x xs ys) (tail_without x xs ys sides.1);
      nexts = rw previous (Nexts-unlink l.next_at x (l.next_at x) xs ys next r.nexts r.distinct);
      previouses = rw kept (
          Previouses-unlink l.previous_at x (l.previous_at x) none xs ys previous r.previouses
            r.distinct);
      distinct = apart.0;
    }
