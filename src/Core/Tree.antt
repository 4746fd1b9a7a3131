-- ===== src/Core/Tree.antt =====
-- libraries/Core/include/core/ds/Trees.h: binary trees, their searches, and the check of the
-- red-black property.
--
-- A node stands for its value with its color, and a pointer to a subtree for the subtree. `less` is
-- the comparator and `same` the test `==` of two values. `none` is a null pointer as a result; where
-- the source reads through one it is said.
pub mod Order
pub mod Search
use cro_cos.Base.{
  ℕ, ◌+◌, ◌≡◌, Bool, true, false, not, Option, none, some, ◌==◌, if◌then◌else◌, List, [], ◌∷◌, ◌++◌,
  ◌&&◌,
}

pub data Color : Type 0 where
  red black : Color

pub data Tree {ℓ} (A : Type ℓ) : Type ℓ where
  leaf : Tree A
  node : Color → Tree A → A → Tree A → Tree A

-- The checks of `verifyRedBlackTree` at a node: `reds` tells of a red child, and `h` and `k` are the
-- black heights of the children.
unfoldable pub verify_children : Color → Bool → ℕ → ℕ → Option ℕ
verify_children red true h k = none
verify_children red false h k = if h == k then some h else none
verify_children black reds h k = if h == k then some (h + 1) else none

-- `none` for a child whose check failed.
unfoldable pub verify_both : Color → Bool → Option ℕ → Option ℕ → Option ℕ
unfolding verify_children
verify_both c reds none k = none
verify_both c reds (some h) none = none
verify_both c reds (some h) (some k) = verify_children c reds h k

module _ {ℓ} {A : Type ℓ} where
  abbrev pub is_red : Tree A → Bool
  is_red (node red l x r) = true
  is_red _ = false

  -- `setColor(*root, Color::Black)` under its test for a null pointer, and the same with red.
  abbrev pub blacken : Tree A → Tree A
  blacken leaf = leaf
  blacken (node c l x r) = node black l x r

  abbrev pub redden : Tree A → Tree A
  redden leaf = leaf
  redden (node c l x r) = node red l x r

  -- What a visitor that never stops sees in order.
  abbrev pub elements : Tree A → List A
  elements leaf = []
  elements (node c l x r) = elements l ++ (x ∷ elements r)

  unfoldable pub elements_reverse : Tree A → List A
  elements_reverse leaf = []
  elements_reverse (node c l x r) = elements_reverse r ++ (x ∷ elements_reverse l)

  unfoldable pub elements_post : Tree A → List A
  elements_post leaf = []
  elements_post (node c l x r) = elements_post l ++ (elements_post r ++ (x ∷ []))

  abbrev pub rotate_left : Tree A → Tree A
  rotate_left leaf = leaf
  rotate_left (node c l x leaf) = node c l x leaf
  rotate_left (node c l x (node d m y r)) = node d (node c l x m) y r

  abbrev pub rotate_right : Tree A → Tree A
  rotate_right leaf = leaf
  rotate_right (node c leaf x r) = node c leaf x r
  rotate_right (node c (node d l y m) x r) = node d l y (node c m x r)

  unfoldable pub min_of : Tree A → Option A
  min_of leaf = none
  min_of (node c leaf x r) = some x
  min_of (node c (node d l y m) x r) = min_of (node d l y m)

  unfoldable pub max_of : Tree A → Option A
  max_of leaf = none
  max_of (node c l x leaf) = some x
  max_of (node c l x (node d m y r)) = max_of (node d m y r)

  unfoldable pub tree_size : Tree A → ℕ
  tree_size leaf = 0
  tree_size (node c l x r) = 1 + tree_size l + tree_size r

  -- `verifyRedBlackTree`: the black height, or `none` where an assertion fails.
  unfoldable pub verify_red_black : Tree A → Option ℕ
  unfolding verify_both
  verify_red_black leaf = some 1
  verify_red_black (node c l x r) =
      verify_both c (if is_red l then true else is_red r) (verify_red_black l) (verify_red_black r)

module _ {ℓ} {A : Type ℓ} (less same : A → A → Bool) where
  unfoldable pub find : A → Tree A → Option A
  find value leaf = none
  find value (node c l x r) = elim (same value x) [
    | true ↦ some x
    | false ↦ elim (less value x) [ true ↦ find value l | false ↦ find value r ]
  ]

  unfoldable pub floor_loop : A → Tree A → Option A → Option A
  floor_loop value leaf result = result
  floor_loop value (node c l x r) result = elim (same x value) [
    | true ↦ some x
    | false ↦ elim (less x value) [
      | true ↦ floor_loop value r (some x)
      | false ↦ floor_loop value l result
    ]
  ]

  unfoldable pub floor : A → Tree A → Option A
  unfolding floor_loop
  floor value root = floor_loop value root none

  unfoldable pub ceil_loop : A → Tree A → Option A → Option A
  ceil_loop value leaf result = result
  ceil_loop value (node c l x r) result = elim (same x value) [
    | true ↦ some x
    | false ↦ elim (less value x) [
      | true ↦ ceil_loop value l (some x)
      | false ↦ ceil_loop value r result
    ]
  ]

  unfoldable pub ceil : A → Tree A → Option A
  unfolding ceil_loop
  ceil value root = ceil_loop value root none

module _ {ℓ} {A : Type ℓ} (less : A → A → Bool) where
  -- The walk from the root of `successorImpl`, up to the node with the value.
  unfoldable pub successor_loop : A → Tree A → Option A → Option A
  successor_loop value leaf result = result
  successor_loop value (node c l x r) result = elim (less value x) [
    | true ↦ successor_loop value l (some x)
    | false ↦ elim (less x value) [ true ↦ successor_loop value r result | false ↦ result ]
  ]

  -- Of a node that is given by its value and its right child.
  unfoldable pub successor : A → Tree A → Tree A → Option A
  unfolding successor_loop min_of
  successor value leaf root = successor_loop value root none
  successor value (node c l x r) root = min_of (node c l x r)

  unfoldable pub predecessor_loop : A → Tree A → Option A → Option A
  predecessor_loop value leaf result = result
  predecessor_loop value (node c l x r) result = elim (less x value) [
    | true ↦ predecessor_loop value r (some x)
    | false ↦ elim (less value x) [ true ↦ predecessor_loop value l result | false ↦ result ]
  ]

  -- Of a node that is given by its value and its left child.
  unfoldable pub predecessor : A → Tree A → Tree A → Option A
  unfolding predecessor_loop max_of
  predecessor value leaf root = predecessor_loop value root none
  predecessor value (node c l x r) root = max_of (node c l x r)

-- `none`: `*result` is read through the null pointer that `result` starts as.
module _ {ℓ κ} {A : Type ℓ} {T : Type κ} (less same : T → T → Bool) (transform : A → T) where
  unfoldable pub mapped_ceil : T → Tree A → Option A → Option A
  mapped_ceil value leaf result = result
  mapped_ceil value (node c l x r) result = elim (same (transform x) value) [
    | true ↦ some x
    | false ↦ elim (less value (transform x)) [
      | true ↦ mapped_ceil value l (some x)
      | false ↦ mapped_ceil value r result
    ]
  ]

  unfoldable pub mapped_floor : T → Tree A → Option A → Option A
  mapped_floor value leaf result = result
  mapped_floor value (node c l x r) result = elim (same (transform x) value) [
    | true ↦ some x
    | false ↦ elim (less (transform x) value) [
      | true ↦ mapped_floor value l (some x)
      | false ↦ mapped_floor value r result
    ]
  ]
