-- ===== src/Core/LinkedList/Link.antt =====
-- `IntrusiveLinkedList::pushBack` and `pushFront` (libraries/Core/include/core/ds/LinkedList.h) add
-- one node at an end.
use cro_cos.Base.{ℕ, ◌≡◌, ◌≢◌, refl, sym, ◌∙◌, Option, none, some, List, [], ◌∷◌, ◌++◌}
use mathlib.Core.Path.{subst}
use cro_cos.Base.Memory.{write, write_same, write_other}
use cro_cos.Core.LinkedList.{
  IntrusiveLinkedList, relink, push_only, push_back, push_back_at, push_front, push_front_at,
}
use cro_cos.Core.LinkedList.Shape.{
  first_or, last_or, Nexts, Previouses, Represents, Nexts-write, Previouses-write, relink-last,
  last_or-append,
}
use cro_cos.LibAlloc.Slab.Stack.{Avoids, Distinct}

-- The link of the last node can be made to lead anywhere.
Nexts-relink :
    (n : ℕ → Option ℕ) (v after : Option ℕ) (z : ℕ) (xs : List ℕ)
    → Nexts n (z ∷ xs) after
    → Distinct (z ∷ xs)
    → Nexts (relink n (last_or (some z) xs) v) (z ∷ xs) v
Nexts-relink n v after z [] h d = (write_same n z z v refl, tt)
Nexts-relink n v after z (y ∷ xs) (e, h) (off, d) =
    (relink-last n v z y xs off ∙ e, Nexts-relink n v after y xs h d)

Nexts-at :
    (n : ℕ → Option ℕ) (p : Option ℕ) (t : ℕ) (v after : Option ℕ) (xs : List ℕ)
    → p ≡ some t
    → Nexts (relink n p v) xs after
    → Nexts (write n t v) xs after
Nexts-at n p t v after xs e h = rw e at h

first_or-snoc : (y : ℕ) (xs : List ℕ) → first_or (some y) xs ≡ first_or none (xs ++ y ∷ [])
first_or-snoc y [] = refl
first_or-snoc y (x ∷ xs) = refl

Nexts-snoc :
    (n : ℕ → Option ℕ) (y : ℕ) (xs : List ℕ)
    → n y ≡ none
    → Nexts n xs (some y)
    → Nexts n (xs ++ y ∷ []) none
Nexts-snoc n y [] last h = (last, tt)
Nexts-snoc n y (x ∷ xs) last (e, h) = (e ∙ first_or-snoc y xs, Nexts-snoc n y xs last h)

Previouses-snoc :
    (p : ℕ → Option ℕ) (y : ℕ) (before : Option ℕ) (xs : List ℕ)
    → p y ≡ last_or before xs
    → Previouses p before xs
    → Previouses p before (xs ++ y ∷ [])
Previouses-snoc p y before [] last h = (last, tt)
Previouses-snoc p y before (x ∷ xs) last (e, h) = (e, Previouses-snoc p y (some x) xs last h)

Avoids-snoc : (a y : ℕ) (xs : List ℕ) → y ≢ a → Avoids a xs → Avoids a (xs ++ y ∷ [])
Avoids-snoc a y [] ne off = (ne, tt)
Avoids-snoc a y (x ∷ xs) ne (here, off) = (here, Avoids-snoc a y xs ne off)

Distinct-snoc : (y : ℕ) (xs : List ℕ) → Avoids y xs → Distinct xs → Distinct (xs ++ y ∷ [])
Distinct-snoc y [] off d = (tt, tt)
Distinct-snoc y (x ∷ xs) (ne, off) (apart, d) =
    (Avoids-snoc x y xs (λ q. ne (sym q)) apart, Distinct-snoc y xs off d)

last_is_some : (z : ℕ) (xs : List ℕ) → (t : ℕ) × (last_or (some z) xs ≡ some t)
last_is_some z [] = (z, refl)
last_is_some z (y ∷ xs) = last_is_some y xs

push_only-Represents : (y : ℕ) (l : IntrusiveLinkedList) → Represents (push_only y l) (y ∷ [])
push_only-Represents y l = record {
  at_head = refl;
  at_tail = refl;
  nexts = (write_same l.next_at y y none refl, tt);
  previouses = (write_same l.previous_at y y none refl, tt);
  distinct = (tt, tt);
}

-- `pushBack` of a node that is not in the list dereferences no null pointer, and leaves a list that
-- links the node behind the others.
pub push_back-Represents :
    (l : IntrusiveLinkedList) (y : ℕ) (xs : List ℕ)
    → Represents l xs
    → Avoids y xs
    → (l' : IntrusiveLinkedList) × (push_back y l ≡ some l') × Represents l' (xs ++ y ∷ [])
unfolding push_back push_back_at
push_back-Represents l y [] r off =
    (push_only y l, rw (r.at_head, push_back_at) refl, push_only-Represents y l)
push_back-Represents l y (z ∷ xs) r off =
    let last = last_is_some z xs in
    let at : l.tail_node ≡ some last.0 = r.at_tail ∙ last.1 in
    let linked : Nexts (write l.next_at last.0 (some y)) (z ∷ xs) (some y) =
      Nexts-at l.next_at (last_or (some z) xs) last.0 (some y) (some y) (z ∷ xs) last.1
        (Nexts-relink l.next_at (some y) none z xs r.nexts r.distinct) in
    let next : ℕ → Option ℕ = write (write l.next_at last.0 (some y)) y none in
    let previous : ℕ → Option ℕ = write l.previous_at y (some last.0) in
    (
      record l { tail_node = some y; previous_at = previous; next_at = next },
      rw (r.at_head, at, push_back_at) refl,
      record {
        at_head = r.at_head;
        at_tail = sym (last_or-append none y (z ∷ xs) []);
        nexts =
            Nexts-snoc next y (z ∷ xs) (write_same (write l.next_at last.0 (some y)) y y none refl)
              (Nexts-write (write l.next_at last.0 (some y)) y none (z ∷ xs) (some y) off linked);
        previouses =
            Previouses-snoc previous y none (z ∷ xs)
              (write_same l.previous_at y y (some last.0) refl ∙ sym last.1)
              (Previouses-write l.previous_at y (some last.0) none (z ∷ xs) off r.previouses);
        distinct = Distinct-snoc y (z ∷ xs) off r.distinct;
      },
    )

-- `pushFront` of a node that is not in the list leaves a list that links the node before the others.
pub push_front-Represents :
    (l : IntrusiveLinkedList) (y : ℕ) (xs : List ℕ)
    → Represents l xs
    → Avoids y xs
    → Represents (push_front y l) (y ∷ xs)
unfolding push_front push_front_at
push_front-Represents l y [] r off =
    subst (λ h. Represents (push_front_at h y l) (y ∷ [])) (sym r.at_head)
      (push_only-Represents y l)
push_front-Represents l y (z ∷ xs) r off =
    let marked : ℕ → Option ℕ = write l.previous_at z (some y) in
    let rest : Previouses marked (some z) xs =
      Previouses-write l.previous_at z (some y) (some z) xs r.distinct.0 r.previouses.1 in
    subst (λ h. Represents (push_front_at h y l) (y ∷ z ∷ xs)) (sym r.at_head)
      (record {
        at_head = refl;
        at_tail = r.at_tail;
        nexts = (
          write_same l.next_at y y (some z) refl,
          Nexts-write l.next_at y (some z) (z ∷ xs) none off r.nexts,
        );
        previouses = (
          write_same marked y y none refl,
          (
            write_other marked y z none (λ q. off.0 (sym q))
                ∙ write_same l.previous_at z z (some y) refl,
            Previouses-write marked y none (some z) xs off.1 rest,
          ),
        );
        distinct = (off, r.distinct);
      })
