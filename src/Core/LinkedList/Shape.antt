-- ===== src/Core/LinkedList/Shape.antt =====
-- The nodes that an `IntrusiveLinkedList` (libraries/Core/include/core/ds/LinkedList.h) links, as a
-- list, and what a changed link does to them.
use cro_cos.Base.{ℕ, ◌≡◌, ◌≢◌, refl, sym, ◌∙◌, Option, none, some, List, [], ◌∷◌, ◌++◌}
use cro_cos.Base.Memory.{write, write_other}
use cro_cos.Core.LinkedList.{IntrusiveLinkedList, relink}
use cro_cos.LibAlloc.Slab.Stack.{Avoids, Distinct}

abbrev pub first_or : Option ℕ → List ℕ → Option ℕ
first_or d [] = d
first_or d (x ∷ xs) = some x

abbrev pub last_or : Option ℕ → List ℕ → Option ℕ
last_or d [] = d
last_or d (x ∷ xs) = last_or (some x) xs

-- Each node's next link is the node after it, and that of the last node is `after`.
abbrev pub Nexts : (ℕ → Option ℕ) → List ℕ → Option ℕ → Type 0
Nexts n [] after = Unit
Nexts n (x ∷ xs) after = (n x ≡ first_or after xs) × Nexts n xs after

-- Each node's previous link is the node before it, and that of the first node is `before`.
abbrev pub Previouses : (ℕ → Option ℕ) → Option ℕ → List ℕ → Type 0
Previouses p before [] = Unit
Previouses p before (x ∷ xs) = (p x ≡ before) × Previouses p (some x) xs

pub record Represents (l : IntrusiveLinkedList) (xs : List ℕ) : Type 0 where
  pub at_head : l.head_node ≡ first_or none xs
  pub at_tail : l.tail_node ≡ last_or none xs
  pub nexts : Nexts l.next_at xs none
  pub previouses : Previouses l.previous_at none xs
  pub distinct : Distinct xs

pub Nexts-write :
    (n : ℕ → Option ℕ) (a : ℕ) (v : Option ℕ) (xs : List ℕ) (after : Option ℕ)
    → Avoids a xs
    → Nexts n xs after
    → Nexts (write n a v) xs after
Nexts-write n a v [] after off h = tt
Nexts-write n a v (x ∷ xs) after (ne, off) (e, h) =
    (write_other n a x v (λ q. ne (sym q)) ∙ e, Nexts-write n a v xs after off h)

pub Previouses-write :
    (p : ℕ → Option ℕ) (a : ℕ) (v before : Option ℕ) (xs : List ℕ)
    → Avoids a xs
    → Previouses p before xs
    → Previouses (write p a v) before xs
Previouses-write p a v before [] off h = tt
Previouses-write p a v before (x ∷ xs) (ne, off) (e, h) =
    (write_other p a x v (λ q. ne (sym q)) ∙ e, Previouses-write p a v (some x) xs off h)

pub Avoids-middle :
    (a x : ℕ) (xs ys : List ℕ) → Avoids a (xs ++ x ∷ ys) → (x ≢ a) × Avoids a (xs ++ ys)
Avoids-middle a x [] ys (ne, off) = (ne, off)
Avoids-middle a x (y ∷ xs) ys (ne, off) =
    let rest = Avoids-middle a x xs ys off in (rest.0, (ne, rest.1))

pub Avoids-append : (a : ℕ) (xs ys : List ℕ) → Avoids a (xs ++ ys) → Avoids a xs × Avoids a ys
Avoids-append a [] ys off = (tt, off)
Avoids-append a (y ∷ xs) ys (ne, off) =
    let rest = Avoids-append a xs ys off in ((ne, rest.0), rest.1)

pub Distinct-middle :
    (x : ℕ) (xs ys : List ℕ) → Distinct (xs ++ x ∷ ys) → Distinct (xs ++ ys) × Avoids x (xs ++ ys)
Distinct-middle x [] ys (off, d) = (d, off)
Distinct-middle x (y ∷ xs) ys (off, d) =
    let apart = Avoids-middle y x xs ys off in
    let rest = Distinct-middle x xs ys d in ((apart.1, rest.0), ((λ q. apart.0 (sym q)), rest.1))

-- A link written at the last node of a list, or at the first, is not that of a node off the list.
pub relink-last :
    (links : ℕ → Option ℕ) (v : Option ℕ) (a z : ℕ) (xs : List ℕ)
    → Avoids a (z ∷ xs)
    → relink links (last_or (some z) xs) v a ≡ links a
relink-last links v a z [] (ne, off) = write_other links z a v ne
relink-last links v a z (y ∷ xs) (ne, off) = relink-last links v a y xs off

pub relink-first :
    (links : ℕ → Option ℕ) (v : Option ℕ) (a : ℕ) (xs : List ℕ)
    → Avoids a xs
    → relink links (first_or none xs) v a ≡ links a
relink-first links v a [] off = refl
relink-first links v a (y ∷ xs) (ne, off) = write_other links y a v ne

pub last_or-append :
    (d : Option ℕ) (x : ℕ) (xs ys : List ℕ) → last_or d (xs ++ x ∷ ys) ≡ last_or (some x) ys
last_or-append d x [] ys = refl
last_or-append d x (y ∷ xs) ys = last_or-append (some y) x xs ys

-- Where the links of a node in the list lead.
pub next_of :
    (n : ℕ → Option ℕ) (x : ℕ) (xs ys : List ℕ) (after : Option ℕ)
    → Nexts n (xs ++ x ∷ ys) after
    → n x ≡ first_or after ys
next_of n x [] ys after (e, h) = e
next_of n x (y ∷ xs) ys after (e, h) = next_of n x xs ys after h

pub previous_of :
    (p : ℕ → Option ℕ) (x : ℕ) (before : Option ℕ) (xs ys : List ℕ)
    → Previouses p before (xs ++ x ∷ ys)
    → p x ≡ last_or before xs
previous_of p x before [] ys (e, h) = e
previous_of p x before (y ∷ xs) ys (e, h) = previous_of p x (some y) xs ys h
