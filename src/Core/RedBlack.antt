-- ===== src/Core/RedBlack.antt =====
-- libraries/Core/include/core/ds/Trees.h: `IntrusiveRedBlackTree`, without augmented data.
--
-- The ancestry stack, and the parent pointers of the variant that has them, are a path: the nodes
-- from the current one up, each with the direction in which the path leaves it and its other child.
-- `none` is a read through a null pointer, or a loop that takes more rounds than its fuel.
use cro_cos.Base.{
  ℕ, zero, suc, ◌+◌, Bool, true, false, Option, none, some, if◌then◌else◌, List, [], ◌∷◌, length,
  ◌++◌,
}
use cro_cos.Core.Tree.{
  Color, red, black, Tree, leaf, node, is_red, blacken, redden, rotate_left, rotate_right,
}
pub mod Balance
pub mod Contents
pub mod Insert
pub mod EraseFixup
pub mod Descend
pub mod Erase
pub mod Sorted

pub data Direction : Type 0 where
  left right : Direction

abbrev pub opposite : Direction → Direction
opposite left = right
opposite right = left

abbrev pub same_direction : Direction → Direction → Bool
same_direction left left = true
same_direction right right = true
same_direction _ _ = false

pub record Frame {ℓ} (A : Type ℓ) : Type ℓ where
  pub direction : Direction
  pub color : Color
  pub value : A
  pub other : Tree A

abbrev pub frame {ℓ} : {A : Type ℓ} → Direction → Color → A → Tree A → Frame A
frame d c x s = record { direction = d; color = c; value = x; other = s }

module _ {ℓ} {A : Type ℓ} where
  -- `getChild` of a node with two given children.
  abbrev pub get_child : Direction → Tree A → Tree A → Tree A
  get_child left l r = l
  get_child right l r = r

  abbrev pub join : Direction → Color → A → Tree A → Tree A → Tree A
  join left c x s t = node c t x s
  join right c x s t = node c s x t

  -- The node of a frame, with a subtree in the place that the path takes.
  abbrev pub fill : Frame A → Tree A → Tree A
  fill f t = join f.direction f.color f.value f.other t

  abbrev pub plug : List (Frame A) → Tree A → Tree A
  plug [] t = t
  plug (f ∷ p) t = plug p (fill f t)

  abbrev pub rotate_subtree : Direction → Tree A → Tree A
  rotate_subtree left t = rotate_left t
  rotate_subtree right t = rotate_right t

  -- After the rotations of `insertFixup`: the top is black, and its children are red.
  abbrev pub recolored : Tree A → Tree A
  recolored leaf = leaf
  recolored (node c l x r) = node black (redden l) x (redden r)

  -- Case 2 of `insertFixup`, at a parent and a grandparent.
  unfoldable pub rotate_up : Frame A → Frame A → Tree A → Tree A
  rotate_up parent grandparent t =
      let turned =
        if same_direction parent.direction grandparent.direction
        then fill parent t
        else rotate_subtree grandparent.direction (fill parent t) in
      recolored (rotate_subtree (opposite grandparent.direction) (fill grandparent turned))

  -- A round of `insertFixup`, by the color of the parent and whether the uncle is red.
  unfoldable pub insert_round :
      Color → Bool → Frame A → Frame A → List (Frame A) → (Tree A → Tree A) → Tree A → Tree A
  unfolding rotate_up
  insert_round black _ parent grandparent rest continue t =
      blacken (plug rest (fill grandparent (fill parent t)))
  insert_round red true parent grandparent rest continue t = continue (
      fill (record grandparent { color = red; other = blacken grandparent.other })
        (fill (record parent { color = black }) t))
  insert_round red false parent grandparent rest continue t =
      blacken (plug rest (rotate_up parent grandparent t))

  unfoldable pub insert_fixup : List (Frame A) → Tree A → Tree A
  unfolding insert_round
  insert_fixup [] t = blacken t
  insert_fixup (parent ∷ []) t = blacken (fill parent t)
  insert_fixup (parent ∷ (grandparent ∷ rest)) t =
      insert_round parent.color (is_red grandparent.other) parent grandparent rest
        (insert_fixup rest) t

  -- The far child of a sibling that takes the parent's color is made black.
  abbrev pub paint_sibling : Direction → Color → Tree A → Tree A
  paint_sibling d c leaf = leaf
  paint_sibling left c (node _ l x r) = node c l x (blacken r)
  paint_sibling right c (node _ l x r) = node c (blacken l) x r

  -- The last case of `eraseFixup`, with the sibling as it then is.
  unfoldable pub rotate_far : Frame A → Tree A → Tree A → Tree A
  rotate_far f sibling t =
      rotate_subtree f.direction
        (fill (record f { color = black; other = paint_sibling f.direction f.color sibling }) t)

  -- The case before it: the near nephew becomes the sibling.
  unfoldable pub rotate_near : Direction → A → Tree A → Tree A → Tree A
  rotate_near d x near far = rotate_subtree (opposite d) (join d red x far (blacken near))

  -- A round of `eraseFixup` at a black sibling, by whether its far and its near child are red and by
  -- the color of the parent.
  unfoldable pub erase_round :
      Bool
      → Bool
      → Color
      → Frame A
      → A
      → Tree A
      → Tree A
      → List (Frame A)
      → (Tree A → Option (Tree A))
      → Tree A
      → Option (Tree A)
  unfolding rotate_far rotate_near
  erase_round true _ _ f x near far p continue t =
      some (blacken (plug p (rotate_far f (join f.direction black x far near) t)))
  erase_round false true _ f x near far p continue t =
      some (blacken (plug p (rotate_far f (rotate_near f.direction x near far) t)))
  erase_round false false red f x near far p continue t = some (
      blacken
        (plug p (fill (record f { color = black; other = join f.direction red x far near }) t)))
  erase_round false false black f x near far p continue t =
      continue (fill (record f { other = join f.direction red x far near }) t)

  -- A round, by the sibling.
  unfoldable pub erase_at :
      Tree A
      → Frame A
      → List (Frame A)
      → (List (Frame A) → Tree A → Option (Tree A))
      → Tree A
      → Option (Tree A)
  unfolding erase_round
  erase_at leaf f p continue t = none
  erase_at (node red l x r) f p continue t =
      continue
        (record f { color = red; other = get_child f.direction l r }
          ∷ (frame f.direction black x (get_child (opposite f.direction) l r) ∷ p))
        t
  erase_at (node black l x r) f p continue t =
      let near = get_child f.direction l r in
      let far = get_child (opposite f.direction) l r in
      erase_round (is_red far) (is_red near) f.color f x near far p (continue p) t

  unfoldable pub erase_fixup : ℕ → List (Frame A) → Tree A → Option (Tree A)
  unfolding erase_at
  erase_fixup zero p t = none
  erase_fixup (suc fuel) [] t = some (blacken t)
  erase_fixup (suc fuel) (f ∷ p) t = erase_at f.other f p (erase_fixup fuel) t

  -- The loop of `eraseCaseTwoChildren`: from a right child to the leftmost node below it.
  unfoldable pub leftmost :
      Tree A → Color → A → Tree A → List (Frame A) → List (Frame A) × Color × A × Tree A
  leftmost leaf c x r p = (p, c, x, r)
  leftmost (node d ll y lr) c x r p = leftmost ll d y lr (frame left c x r ∷ p)

  -- The end of `eraseImpl`, where a node of color `c` was replaced by its right child `t`: a red
  -- leaf, or no node at all.
  unfoldable pub settle : List (Frame A) → Color → Tree A → Option (Tree A)
  unfolding erase_fixup
  settle p c (node d l x r) = some (plug p (node black l x r))
  settle p red leaf = some (plug p leaf)
  settle p black leaf = erase_fixup (length p + 2) p leaf

  -- `eraseImpl` of a node with its color and its children.
  unfoldable pub erase_node : List (Frame A) → Color → Tree A → Tree A → Option (Tree A)
  unfolding settle leftmost
  erase_node [] c leaf leaf = some leaf
  erase_node (f ∷ p) c leaf leaf = settle (f ∷ p) c leaf
  erase_node p c leaf (node d l x r) = some (plug p (node black l x r))
  erase_node p c (node d l x r) leaf = some (plug p (node black l x r))
  erase_node p c (node d l x r) (node e m y s) =
      let (q, successor_color, successor, t) = leftmost m e y s [] in
      settle (q ++ (frame right c successor (node d l x r) ∷ p)) successor_color t

module _ {ℓ} {A : Type ℓ} (less same : A → A → Bool) where
  -- Where a new value goes; `none` if it is there already.
  unfoldable pub insert_path : A → Tree A → List (Frame A) → Option (List (Frame A))
  insert_path value leaf p = some p
  insert_path value (node c l x r) p = elim (same value x) [
    | true ↦ none
    | false ↦ elim (less value x) [
      | true ↦ insert_path value l (frame left c x r ∷ p)
      | false ↦ insert_path value r (frame right c x l ∷ p)
    ]
  ]

  unfoldable pub insert : A → Tree A → Bool × Tree A
  unfolding insert_path insert_fixup
  insert value leaf = (true, node black leaf value leaf)
  insert value (node c l x r) = elim (insert_path value (node c l x r) []) [
    | none ↦ (false, node c l x r)
    | some p ↦ (true, insert_fixup p (node red leaf value leaf))
  ]

  -- The node with a value: the path to it, its color, its children and the value in it.
  unfoldable pub locate :
      A → Tree A → List (Frame A) → Option (List (Frame A) × Color × Tree A × A × Tree A)
  locate value leaf p = none
  locate value (node c l x r) p = elim (same value x) [
    | true ↦ some (p, c, l, x, r)
    | false ↦ elim (less value x) [
      | true ↦ locate value l (frame left c x r ∷ p)
      | false ↦ locate value r (frame right c x l ∷ p)
    ]
  ]

  -- The value of the erased node, if there is one.
  unfoldable pub erase : A → Tree A → Option (Option A × Tree A)
  unfolding locate erase_node
  erase value t = elim (locate value t []) [
    | none ↦ some (none, t)
    | some (p, c, l, x, r) ↦ elim (erase_node p c l r) [ none ↦ none | some u ↦ some (some x, u) ]
  ]

  unfoldable pub update : A → (A → A) → Tree A → Option (Bool × Tree A)
  unfolding erase insert
  update value change t = elim (erase value t) [
    | none ↦ none
    | some (none, u) ↦ some (false, u)
    | some (some x, u) ↦ some (true, (insert (change x) u).1)
  ]
