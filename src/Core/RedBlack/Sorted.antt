-- ===== src/Core/RedBlack/Sorted.antt =====
-- `insert` and `erase` on the sorted list of the elements, and the red-black property after them.
use mathlib.Core.Path.{subst}
use mathlib.Core.List.{append_assoc}
use cro_cos.Base.{
  ◌≡◌, Bool, true, false, none, some, List, [], ◌∷◌, ◌++◌, refl, sym, ap, ◌∙◌, ◌⊎◌, inl, inr,
  Option-cases,
}
use cro_cos.Core.Tree.{Color, red, Tree, leaf, node, elements}
use cro_cos.Core.Tree.Order.{StrictTotal, IsSorted, sorted_insert, sorted_remove}
use cro_cos.Core.RedBlack.{
  Frame, plug, insert_path, insert_fixup, insert, locate, erase_node, erase,
}
use cro_cos.Core.RedBlack.Balance.{IsRedBlack}
use cro_cos.Core.RedBlack.Contents.{
  before_path, after_path, elements-plug, elements-insert_fixup, Lists,
}
use cro_cos.Core.RedBlack.Insert.{insert_fixup-IsRedBlack}
use cro_cos.Core.RedBlack.Erase.{without, Lists-erase_node, erase_node-Ends}
use cro_cos.Core.RedBlack.Descend.{
  unplug, insert_path-plug, insert_path-Between, insert_path-Found, Found, Missing, locate-Missing,
  locate-plug,
}

module _ {ℓ} {A : Type ℓ} (less same : A → A → Bool) (order : StrictTotal less same) where
  -- `u` has the elements of `t` and the value, in order.
  pub record Added (value : A) (t u : Tree A) : Type ℓ where
    pub xs : List A
    pub ys : List A
    pub old : elements t ≡ xs ++ ys
    pub new : elements u ≡ xs ++ (value ∷ ys)
    pub sorted : IsSorted less (elements u)

  inserted_elements :
      (value : A) (t : Tree A) (q : List (Frame A))
      → insert_path less same value t [] ≡ some q
      → IsSorted less (elements t)
      → Added value t (insert_fixup q (node red leaf value leaf))
  inserted_elements value t q e sorted =
      let (below, above) = insert_path-Between less same order value t [] q e sorted (tt, tt) in
      let old : elements t ≡ before_path q ++ after_path q =
        ap elements (sym (insert_path-plug less same value t [] q e)) ∙ elements-plug q leaf in
      let new : elements (insert_fixup q (node red leaf value leaf))
          ≡ before_path q ++ (value ∷ after_path q) =
        elements-insert_fixup q (node red leaf value leaf)
        ∙ elements-plug q (node red leaf value leaf) in
      record {
        xs = before_path q;
        ys = after_path q;
        old = old;
        new = new;
        sorted = rw new (
            sorted_insert less (before_path q) value (after_path q)
              (subst (IsSorted less) old sorted) below above);
      }

  inserted_balanced :
      (value : A) (t : Tree A) (q : List (Frame A))
      → insert_path less same value t [] ≡ some q
      → IsRedBlack t
      → IsRedBlack (insert_fixup q (node red leaf value leaf))
  inserted_balanced value t q e rb =
      let place = unplug q leaf rb.1.0 (rw (insert_path-plug less same value t [] q e) rb.1.1) in
      insert_fixup-IsRedBlack q (node red leaf value leaf) place.height refl
        (refl, refl, place.balanced, place.balanced) place.fits

  -- `insert` into a sorted red-black tree gives a red-black tree. It reports whether it added the
  -- value: then the value stands at its place among the elements there were, which stay in order. If
  -- not, the value was there, and the tree is unchanged.
  pub insert-Added :
      (value : A) (t : Tree A)
      → IsRedBlack t
      → IsSorted less (elements t)
      → (IsRedBlack (insert less same value t).1)
        × (((insert less same value t).0 ≡ true) × (Added value t (insert less same value t).1)
            ⊎ (((insert less same value t).0 ≡ false)
                × ((insert less same value t).1 ≡ t)
                × (Found less same value t)))
  unfolding insert
  insert-Added value leaf rb sorted = (
    (refl, (2, (refl, refl))),
    inl (refl, record { xs = []; ys = []; old = refl; new = refl; sorted = (tt, tt) }),
  )
  insert-Added value (node c l x r) rb sorted =
      let t : Tree A = node c l x r in
      elim (Option-cases (insert_path less same value t [])) [
        | inl e ↦
            rw (e, insert) (rb, inr (refl, refl, insert_path-Found less same order value t [] e))
        | inr (q, e) ↦
            rw (e, insert)
              (inserted_balanced value t q e rb, inl (refl, inserted_elements value t q e sorted))
      ]

  -- `u` has the elements of `t` but the value, in order.
  pub record Removed (value : A) (t u : Tree A) : Type ℓ where
    pub xs : List A
    pub ys : List A
    pub old : elements t ≡ xs ++ (value ∷ ys)
    pub new : elements u ≡ xs ++ ys
    pub sorted : IsSorted less (elements u)

  -- What `erase` promises of a tree: it ends without a read through a null pointer; if it returns the
  -- value, that was taken out, and if not, the value was missing and the tree is unchanged.
  abbrev pub Erased : A → Tree A → Type ℓ
  Erased value t =
      ((u : Tree A) × (erase less same value t ≡ some (some value, u))
        × (IsRedBlack u)
        × (Removed value t u))
      ⊎ ((erase less same value t ≡ some (none, t)) × (Missing less same order value t))

  Removed-elements :
      (value : A) (t : Tree A) (p : List (Frame A)) (c : Color) (l r : Tree A) (u : Tree A)
      → plug p (node c l value r) ≡ t
      → IsSorted less (elements t)
      → elements u ≡ without p l r
      → Removed value t u
  Removed-elements value t p c l r u whole sorted new =
      let old : elements t
          ≡ (before_path p ++ elements l) ++ (value ∷ (elements r ++ after_path p)) =
        ap elements (sym whole) ∙ elements-plug p (node c l value r) ∙ simp append_assoc in
      let left_over : elements u ≡ (before_path p ++ elements l) ++ (elements r ++ after_path p) =
        new ∙ simp append_assoc in
      record {
        xs = before_path p ++ elements l;
        ys = elements r ++ after_path p;
        old = old;
        new = left_over;
        sorted = rw left_over (
            sorted_remove less (before_path p ++ elements l) value (elements r ++ after_path p)
              (subst (IsSorted less) old sorted));
      }

  erased_run :
      (value : A) (t : Tree A) (p : List (Frame A)) (c : Color) (l : Tree A) (x : A) (r : Tree A)
      → (u : Tree A) → locate less same value t [] ≡ some (p, c, l, x, r)
      → erase_node p c l r ≡ some u
      → value ≡ x
      → erase less same value t ≡ some (some value, u)
  unfolding erase
  erased_run value t p c l x r u e ends is =
      rw (e, erase) (rw ends (ap (λ v. some (some v, u)) (sym is)))

  erase_node-Erased :
      (value : A) (t : Tree A) (p : List (Frame A)) (c : Color) (l : Tree A) (x : A) (r : Tree A)
      → locate less same value t [] ≡ some (p, c, l, x, r)
      → IsRedBlack t
      → IsSorted less (elements t)
      → Erased value t
  unfolding erase
  erase_node-Erased value t p c l x r e rb sorted =
      let (whole, is) = locate-plug less same order value t [] p c l x r e in
      let same_value : value ≡ x = order.same_eq value x is in
      let (u, ends, balanced) = erase_node-Ends p c l x r (rw whole rb) in
      let kept : elements u ≡ without p l r =
        subst (λ o. Lists o (without p l r)) ends (Lists-erase_node p c l r) in
      inl (
        u,
        erased_run value t p c l x r u e ends same_value,
        balanced,
        Removed-elements value t p c l r u (rw same_value whole) sorted kept,
      )

  -- `erase` on a sorted red-black tree, under a strict total order, ends without a read through a
  -- null pointer. If it returns the value, exactly that was taken out, and the tree is red-black and
  -- sorted; if it returns nothing, the value was not in the tree, which is unchanged.
  pub erase-Erased :
      (value : A) (t : Tree A) → IsRedBlack t → IsSorted less (elements t) → Erased value t
  unfolding erase
  erase-Erased value t rb sorted = elim (Option-cases (locate less same value t [])) [
    | inl e ↦ inr (rw (e, erase) refl, locate-Missing less same order value t [] e sorted)
    | inr ((p, c, l, x, r), e) ↦ erase_node-Erased value t p c l x r e rb sorted
  ]
