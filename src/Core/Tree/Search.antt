-- ===== src/Core/Tree/Search.antt =====
-- `floor` on a search tree, and what `mappedFloor` does in its place.
use mathlib.Core.Path.{subst}
use mathlib.Core.List.{append_assoc}
use cro_cos.Base.{
  ◌≡◌, Bool, true, false, Option, none, some, List, [], ◌∷◌, ◌++◌, refl, ◌∙◌, ◌⊎◌, inl, inr,
  Bool-cases,
}
use cro_cos.Core.Tree.{Color, Tree, leaf, node, elements, floor_loop, floor, mapped_floor, min_of}
use cro_cos.Core.Tree.Order.{
  StrictTotal, Above, IsSorted, Above-append, IsSorted-Around, Above-trans,
}

module _ {ℓ} {A : Type ℓ} (less same : A → A → Bool) (order : StrictTotal less same) where
  -- `x` is the last element that is not above the value.
  pub record IsFloor (value : A) (t : Tree A) (x : A) : Type ℓ where
    pub xs : List A
    pub ys : List A
    pub there : elements t ≡ xs ++ (x ∷ ys)
    pub not_above : (x ≡ value) ⊎ (less x value ≡ true)
    pub rest_above : Above less value ys

  -- What the loop returns: an element of `t`, or the candidate that it had.
  abbrev Outcome : A → Tree A → Option A → Type ℓ
  Outcome value t result =
      ((floor_loop less same value t result ≡ result) × (Above less value (elements t)))
      ⊎ ((x : A) × (floor_loop less same value t result ≡ some x) × (IsFloor value t x))

  -- The whole tree above the value, from a part to the left.
  Above-whole :
      (value : A) (l : Tree A) (x : A) (r : Tree A)
      → less value x ≡ true
      → IsSorted less (elements l ++ (x ∷ elements r))
      → (ys : List A) → Above less value ys
      → Above less value (ys ++ (x ∷ elements r))
  Above-whole value l x r lt sorted ys above =
      let around = IsSorted-Around less (elements l) x (elements r) sorted in
      Above-append less value ys (x ∷ elements r) above
        (lt, Above-trans less same order value x (elements r) lt around.larger)

  from_left :
      (value : A) (c : Color) (l : Tree A) (x : A) (r : Tree A) (result : Option A)
      → less value x ≡ true
      → floor_loop less same value (node c l x r) result ≡ floor_loop less same value l result
      → IsSorted less (elements l ++ (x ∷ elements r))
      → Outcome value l result
      → Outcome value (node c l x r) result
  from_left value c l x r result lt step sorted (inl (kept, above)) =
      inl (step ∙ kept, Above-whole value l x r lt sorted (elements l) above)
  from_left value c l x r result lt step sorted (inr (y, found, f)) = inr (
    y,
    step ∙ found,
    record {
      xs = f.xs;
      ys = f.ys ++ (x ∷ elements r);
      there = rw f.there (simp append_assoc);
      not_above = f.not_above;
      rest_above = Above-whole value l x r lt sorted f.ys f.rest_above;
    },
  )

  from_right :
      (value : A) (c : Color) (l : Tree A) (x : A) (r : Tree A) (result : Option A)
      → less x value ≡ true
      → floor_loop less same value (node c l x r) result ≡ floor_loop less same value r (some x)
      → Outcome value r (some x)
      → Outcome value (node c l x r) result
  from_right value c l x r result lt step (inl (kept, above)) = inr (
    x,
    step ∙ kept,
    record {
      xs = elements l;
      ys = elements r;
      there = refl;
      not_above = inr lt;
      rest_above = above;
    },
  )
  from_right value c l x r result lt step (inr (y, found, f)) = inr (
    y,
    step ∙ found,
    record {
      xs = elements l ++ (x ∷ f.xs);
      ys = f.ys;
      there = rw f.there (simp append_assoc);
      not_above = f.not_above;
      rest_above = f.rest_above;
    },
  )

  exact :
      (value : A) (c : Color) (l : Tree A) (x : A) (r : Tree A) (result : Option A)
      → same x value ≡ true
      → IsSorted less (elements l ++ (x ∷ elements r))
      → Outcome value (node c l x r) result
  unfolding floor_loop
  exact value c l x r result is sorted =
      let around = IsSorted-Around less (elements l) x (elements r) sorted in
      let e = order.same_eq x value is in
      inr (
        x,
        rw (is, floor_loop) refl,
        record {
          xs = elements l;
          ys = elements r;
          there = refl;
          not_above = inl e;
          rest_above = subst (λ v. Above less v (elements r)) e around.larger;
        },
      )

  floor_loop-Outcome :
      (value : A) (t : Tree A) (result : Option A)
      → IsSorted less (elements t)
      → Outcome value t result
  unfolding floor_loop
  floor_loop-Outcome value leaf result sorted = inl (refl, tt)
  floor_loop-Outcome value (node c l x r) result sorted =
      let around = IsSorted-Around less (elements l) x (elements r) sorted in
      elim (Bool-cases (same x value)) [
        | inl is ↦ exact value c l x r result is sorted
        | inr other ↦ elim (Bool-cases (less x value)) [
          | inl lt ↦
              from_right value c l x r result lt (rw (other, lt, floor_loop) refl)
                (floor_loop-Outcome value r (some x) around.after)
          | inr ge ↦
              from_left value c l x r result (order.total x value other ge)
                (rw (other, ge, floor_loop) refl) sorted
                (floor_loop-Outcome value l result around.before)
        ]
      ]

  -- `floor` on a sorted tree returns the last element that is not above the value, and null only if
  -- every element is above it.
  pub floor-IsFloor :
      (value : A) (t : Tree A)
      → IsSorted less (elements t)
      → ((floor less same value t ≡ none) × (Above less value (elements t)))
        ⊎ ((x : A) × (floor less same value t ≡ some x) × (IsFloor value t x))
  unfolding floor
  floor-IsFloor value t sorted = floor_loop-Outcome value t none sorted

module _ {ℓ κ} {A : Type ℓ} {T : Type κ} (less same : T → T → Bool) (transform : A → T)
    (value : T) where
  -- Every element is below the value, and equal to it none.
  abbrev pub AllBelow : List A → Type 0
  AllBelow [] = Unit
  AllBelow (x ∷ xs) =
      (same (transform x) value ≡ false) × (less (transform x) value ≡ true) × (AllBelow xs)

  AllBelow-split :
      (xs : List A) (x : A) (ys : List A)
      → AllBelow (xs ++ (x ∷ ys))
      → (AllBelow xs) × (same (transform x) value ≡ false) × (less (transform x) value ≡ true)
  AllBelow-split [] x ys (other, lt, rest) = (tt, other, lt)
  AllBelow-split (w ∷ xs) x ys (other, lt, rest) =
      let (below, other_x, lt_x) = AllBelow-split xs x ys rest in
      ((other, lt, below), other_x, lt_x)

  -- If every element of a tree is below the value, `mappedFloor` returns the first of them, where the
  -- last is the greatest that is not above the value.
  pub mapped_floor_first :
      (c : Color) (l : Tree A) (x : A) (r : Tree A) (result : Option A)
      → AllBelow (elements (node c l x r))
      → mapped_floor less same transform value (node c l x r) result ≡ min_of (node c l x r)
  unfolding mapped_floor min_of
  mapped_floor_first c leaf x r result below =
      let (_, other, lt) = AllBelow-split [] x (elements r) below in
      rw (other, lt, mapped_floor) refl
  mapped_floor_first c (node d m y s) x r result below =
      let (left_part, other, lt) = AllBelow-split (elements (node d m y s)) x (elements r) below in
      rw (other, lt, mapped_floor) (mapped_floor_first d m y s (some x) left_part)
