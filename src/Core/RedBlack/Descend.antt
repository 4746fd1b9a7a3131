-- ===== src/Core/RedBlack/Descend.antt =====
-- The way down from the root to the place of a value.
use mathlib.Core.Path.{subst}
use mathlib.Core.List.{append_assoc}
use cro_cos.Base.{
  ℕ, zero, suc, ◌≡◌, Bool, true, false, none, some, List, [], ◌∷◌, ◌++◌, refl, sym, ap, ◌∙◌, ◌⊎◌,
  inl, inr, Bool-cases, arith,
}
use cro_cos.Core.Tree.{Color, red, black, Tree, leaf, node, is_red, elements}
use cro_cos.Core.Tree.Order.{
  StrictTotal, Above, Below, IsSorted, Above-append, Below-append, IsSorted-Around, Above-trans,
  Below-trans,
}
use cro_cos.Core.RedBlack.{
  Frame, frame, Direction, left, right, join, fill, plug, insert_path, locate,
}
use cro_cos.Core.RedBlack.Balance.{Balanced, RedFree, Fits}
use cro_cos.Core.RedBlack.Contents.{before_path, after_path}

module _ {ℓ} {A : Type ℓ} where
  -- The other way of `plug-Balanced`: a place in a balanced tree.
  pub record Placed (p : List (Frame A)) (t : Tree A) : Type ℓ where
    pub height : ℕ
    pub balanced : Balanced t height
    pub fits : Fits p height
    pub stands : (is_red t ≡ false) ⊎ RedFree p

  unplug_frame :
      (d : Direction) (c : Color) (x : A) (s : Tree A) (p : List (Frame A)) (t : Tree A) (h : ℕ)
      → Balanced (join d c x s t) h
      → Fits p h
      → (is_red (join d c x s t) ≡ false) ⊎ RedFree p
      → Placed (frame d c x s ∷ p) t
  unplug_frame left red x s p t h (nt, ns, bt, bs) fits (inl black_root) = cc
  unplug_frame left red x s p t h (nt, ns, bt, bs) fits (inr free) = record {
    height = h;
    balanced = bt;
    fits = (bs, ns, free, fits);
    stands = inl nt;
  }
  unplug_frame right red x s p t h (ns, nt, bs, bt) fits (inl black_root) = cc
  unplug_frame right red x s p t h (ns, nt, bs, bt) fits (inr free) = record {
    height = h;
    balanced = bt;
    fits = (bs, ns, free, fits);
    stands = inl nt;
  }
  unplug_frame left black x s p t zero b fits stands = elim b [ ]
  unplug_frame left black x s p t (suc h) (bt, bs) fits stands = record {
    height = h;
    balanced = bt;
    fits = (bs, fits);
    stands = inr refl;
  }
  unplug_frame right black x s p t zero b fits stands = elim b [ ]
  unplug_frame right black x s p t (suc h) (bs, bt) fits stands = record {
    height = h;
    balanced = bt;
    fits = (bs, fits);
    stands = inr refl;
  }

  pub unplug : (p : List (Frame A)) (t : Tree A) (h : ℕ) → Balanced (plug p t) h → Placed p t
  unplug [] t h b = record { height = h; balanced = b; fits = tt; stands = inr tt }
  unplug (f ∷ p) t h b =
      let above = unplug p (fill f t) h b in
      unplug_frame f.direction f.color f.value f.other p t above.height above.balanced above.fits
        above.stands

module _ {ℓ} {A : Type ℓ} (less same : A → A → Bool) where
  pub insert_path-plug :
      (value : A) (t : Tree A) (p q : List (Frame A))
      → insert_path less same value t p ≡ some q
      → plug q leaf ≡ plug p t
  unfolding insert_path
  insert_path-plug value leaf p q e = let same_path : p ≡ q = cc in rw same_path refl
  insert_path-plug value (node c l x r) p q e = ground (
    arith,
    insert_path-plug value l (frame left c x r ∷ p) q,
    insert_path-plug value r (frame right c x l ∷ p) q,
  )

  -- Every value on the path before the place is smaller, and every one after it is larger.
  abbrev pub Between : List (Frame A) → A → Type 0
  Between p value = Below less (before_path p) value × Above less value (after_path p)

  -- The value is in the tree, between the elements `xs` and `ys`.
  pub record Found (value : A) (t : Tree A) : Type ℓ where
    pub xs : List A
    pub ys : List A
    pub there : elements t ≡ xs ++ (value ∷ ys)

module _ {ℓ} {A : Type ℓ} (less same : A → A → Bool) (order : StrictTotal less same) where
  go_left :
      (value : A) (c : Color) (l : Tree A) (x : A) (r : Tree A) (p : List (Frame A))
      → less value x ≡ true
      → IsSorted less (elements l ++ (x ∷ elements r))
      → Between less same p value
      → Between less same (frame left c x r ∷ p) value
  go_left value c l x r p lt sorted (below, above) =
      let around = IsSorted-Around less (elements l) x (elements r) sorted in
      (
        Below-append less value (before_path p) [] below tt,
        Above-append less value (x ∷ elements r) (after_path p)
            (lt, Above-trans less same order value x (elements r) lt around.larger) above,
      )

  go_right :
      (value : A) (c : Color) (l : Tree A) (x : A) (r : Tree A) (p : List (Frame A))
      → same value x ≡ false
      → less value x ≡ false
      → IsSorted less (elements l ++ (x ∷ elements r))
      → Between less same p value
      → Between less same (frame right c x l ∷ p) value
  go_right value c l x r p other ge sorted (below, above) =
      let around = IsSorted-Around less (elements l) x (elements r) sorted in
      let gt = order.total value x other ge in
      (
        Below-append less value (before_path p) (elements l ++ (x ∷ [])) below (
            Below-append less value (elements l) (x ∷ [])
              (Below-trans less same order x value (elements l) gt around.smaller) (gt, tt)),
        above,
      )

  pub insert_path-Between :
      (value : A) (t : Tree A) (p q : List (Frame A))
      → insert_path less same value t p ≡ some q
      → IsSorted less (elements t)
      → Between less same p value
      → Between less same q value
  unfolding insert_path
  insert_path-Between value leaf p q e sorted between =
      let same_path : p ≡ q = cc in subst (λ u. Between less same u value) same_path between
  insert_path-Between value (node c l x r) p q e sorted between =
      let around = IsSorted-Around less (elements l) x (elements r) sorted in
      elim (Bool-cases (same value x)) [
        | inl found ↦ ground (arith, found, e)
        | inr other ↦ elim (Bool-cases (less value x)) [
          | inl lt ↦
              insert_path-Between value l (frame left c x r ∷ p) q (ground (arith, e, other, lt))
                around.before (go_left value c l x r p lt sorted between)
          | inr ge ↦
              insert_path-Between value r (frame right c x l ∷ p) q (ground (arith, e, other, ge))
                around.after (go_right value c l x r p other ge sorted between)
        ]
      ]

  -- A value that is missing stands between the two parts of a sorted tree.
  pub record Missing (value : A) (t : Tree A) : Type ℓ where
    pub xs : List A
    pub ys : List A
    pub parts : elements t ≡ xs ++ ys
    pub smaller : Below less xs value
    pub larger : Above less value ys

  Found-left :
      (value : A) (c : Color) (l : Tree A) (x : A) (r : Tree A)
      → Found less same value l
      → Found less same value (node c l x r)
  Found-left value c l x r f = record {
    xs = f.xs;
    ys = f.ys ++ (x ∷ elements r);
    there = rw f.there (simp append_assoc);
  }

  Found-right :
      (value : A) (c : Color) (l : Tree A) (x : A) (r : Tree A)
      → Found less same value r
      → Found less same value (node c l x r)
  Found-right value c l x r f = record {
    xs = elements l ++ (x ∷ f.xs);
    ys = f.ys;
    there = rw f.there (simp append_assoc);
  }

  pub insert_path-Found :
      (value : A) (t : Tree A) (p : List (Frame A))
      → insert_path less same value t p ≡ none
      → Found less same value t
  unfolding insert_path
  insert_path-Found value leaf p e = cc
  insert_path-Found value (node c l x r) p e = elim (Bool-cases (same value x)) [
    | inl found ↦ record {
      xs = elements l;
      ys = elements r;
      there = rw (order.same_eq value x found) refl;
    }
    | inr other ↦ elim (Bool-cases (less value x)) [
      | inl lt ↦
          Found-left value c l x r
            (insert_path-Found value l (frame left c x r ∷ p) (ground (arith, e, other, lt)))
      | inr ge ↦
          Found-right value c l x r
            (insert_path-Found value r (frame right c x l ∷ p) (ground (arith, e, other, ge)))
    ]
  ]

  Missing-left :
      (value : A) (c : Color) (l : Tree A) (x : A) (r : Tree A)
      → less value x ≡ true
      → IsSorted less (elements l ++ (x ∷ elements r))
      → Missing value l
      → Missing value (node c l x r)
  Missing-left value c l x r lt sorted m =
      let around = IsSorted-Around less (elements l) x (elements r) sorted in
      record {
        xs = m.xs;
        ys = m.ys ++ (x ∷ elements r);
        parts = rw m.parts (simp append_assoc);
        smaller = m.smaller;
        larger =
            Above-append less value m.ys (x ∷ elements r) m.larger
              (lt, Above-trans less same order value x (elements r) lt around.larger);
      }

  Missing-right :
      (value : A) (c : Color) (l : Tree A) (x : A) (r : Tree A)
      → less x value ≡ true
      → IsSorted less (elements l ++ (x ∷ elements r))
      → Missing value r
      → Missing value (node c l x r)
  Missing-right value c l x r gt sorted m =
      let around = IsSorted-Around less (elements l) x (elements r) sorted in
      record {
        xs = elements l ++ (x ∷ m.xs);
        ys = m.ys;
        parts = rw m.parts (simp append_assoc);
        smaller =
            Below-append less value (elements l) (x ∷ m.xs)
              (Below-trans less same order x value (elements l) gt around.smaller) (gt, m.smaller);
        larger = m.larger;
      }

  pub locate-Missing :
      (value : A) (t : Tree A) (p : List (Frame A))
      → locate less same value t p ≡ none
      → IsSorted less (elements t)
      → Missing value t
  unfolding locate
  locate-Missing value leaf p e sorted = record {
    xs = [];
    ys = [];
    parts = refl;
    smaller = tt;
    larger = tt;
  }
  locate-Missing value (node c l x r) p e sorted =
      let around = IsSorted-Around less (elements l) x (elements r) sorted in
      elim (Bool-cases (same value x)) [
        | inl found ↦ absurd (ground (arith, e, found))
        | inr other ↦ elim (Bool-cases (less value x)) [
          | inl lt ↦ Missing-left value c l x r lt sorted (
              locate-Missing value l (frame left c x r ∷ p) (ground (arith, e, other, lt))
                around.before)
          | inr ge ↦ Missing-right value c l x r (order.total value x other ge) sorted (
              locate-Missing value r (frame right c x l ∷ p) (ground (arith, e, other, ge))
                around.after)
        ]
      ]

  -- What `locate` finds is the value, at a place of the tree.
  pub locate-plug :
      (value : A) (t : Tree A) (p q : List (Frame A)) (c : Color) (l : Tree A) (x : A) (r : Tree A)
      → locate less same value t p ≡ some (q, c, l, x, r)
      → (plug q (node c l x r) ≡ plug p t) × (same value x ≡ true)
  unfolding locate
  locate-plug value leaf p q c l x r e = cc
  locate-plug value (node b m y s) p q c l x r e = elim (Bool-cases (same value y)) [
    | inl found ↦
        let place : List (Frame A) × Color × Tree A × A × Tree A = (p, b, m, y, s) in
        let goal : List (Frame A) × Color × Tree A × A × Tree A = (q, c, l, x, r) in
        let here : place ≡ goal = ground (arith, e, found) in
        (
          sym (ap (λ w. plug w.0 (node w.1 w.2 w.3 w.4)) here),
          sym (ap (λ w. same value w.3) here) ∙ found,
        )
    | inr other ↦ elim (Bool-cases (less value y)) [
      | inl lt ↦ locate-plug value m (frame left b y s ∷ p) q c l x r (ground (arith, e, other, lt))
      | inr ge ↦
          locate-plug value s (frame right b y m ∷ p) q c l x r (ground (arith, e, other, ge))
    ]
  ]
