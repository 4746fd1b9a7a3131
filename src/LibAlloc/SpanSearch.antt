-- ===== src/LibAlloc/SpanSearch.antt =====
-- libraries/LibAlloc/InternalAllocator.cpp: the tree of spans by free space, and the search for the
-- most occupied span that has room for a request.
use Prim.Native.Nat.{max}
use cro_cos.Base.{
  ℕ, ◌≤◌, ◌<◌, ◌≡◌, Bool, true, false, Option, none, some, ltb, leb, if◌then◌else◌, List, [], ◌∷◌,
  ◌++◌, refl, arith, inl, inr, Bool-cases, lt_cases, lt→ltb, sym,
}
use cro_cos.Core.Tree.{Tree, leaf, node, elements}

-- What the tree keeps of a span: its name, the size of its largest free block, and
-- `largestFreeBlockInMallocSubtree`.
pub record SpanNode : Type 0 where
  pub span : ℕ
  pub largest_free_block_size : ℕ
  pub largest_in_subtree : ℕ

abbrev pub subtree_largest : Tree SpanNode → ℕ
subtree_largest leaf = 0
subtree_largest (node c l x r) = x.largest_in_subtree

-- `recomputeAugmentedData`.
abbrev pub recompute_augmented_data : SpanNode → Tree SpanNode → Tree SpanNode → ℕ
recompute_augmented_data x l r =
    max x.largest_free_block_size (max (subtree_largest l) (subtree_largest r))

-- `verifyAugmentationData`, as a statement.
abbrev pub IsAugmented : Tree SpanNode → Type 0
IsAugmented leaf = Unit
IsAugmented (node c l x r) =
    (IsAugmented l) × (x.largest_in_subtree ≡ recompute_augmented_data x l r) × (IsAugmented r)

abbrev pub has_room_below : ℕ → Tree SpanNode → Bool
has_room_below padded leaf = false
has_room_below padded (node c l x r) = leb padded x.largest_in_subtree

-- The loop of `findMostOccupiedSpanFittingRequest`.
unfoldable pub search_loop : ℕ → Tree SpanNode → Option SpanNode → Option SpanNode
search_loop padded leaf best = best
search_loop padded (node c l x r) best = elim (ltb x.largest_in_subtree padded) [
  | true ↦ best
  | false ↦ elim (leb padded x.largest_free_block_size) [
    | true ↦ search_loop padded l (some x)
    | false ↦ elim (has_room_below padded l) [
      | true ↦ search_loop padded l best
      | false ↦ search_loop padded r best
    ]
  ]
]

unfoldable pub find_most_occupied : ℕ → Tree SpanNode → Option SpanNode
unfolding search_loop
find_most_occupied padded root = search_loop padded root none

-- The first span of a list that has room, or the one given.
abbrev pub first_with_room : ℕ → List SpanNode → Option SpanNode → Option SpanNode
first_with_room padded [] best = best
first_with_room padded (x ∷ xs) best =
    if leb padded x.largest_free_block_size then some x else first_with_room padded xs best

first_with_room-append :
    (padded : ℕ) (xs ys : List SpanNode) (best : Option SpanNode)
    → first_with_room padded (xs ++ ys) best
      ≡ first_with_room padded xs (first_with_room padded ys best)
first_with_room-append padded [] ys best = refl
first_with_room-append padded (x ∷ xs) ys best = rw (first_with_room-append padded xs ys best) refl

leb_of_lt : (a b : ℕ) → b < a → leb a b ≡ false
leb_of_lt a b h = ground arith

ltb_of_le : (a b : ℕ) → b ≤ a → ltb a b ≡ false
ltb_of_le a b h = ground arith

le_of_leb : (a b : ℕ) → leb a b ≡ false → b < a
le_of_leb a b h = ground arith

-- No span of a subtree has room if the subtree's largest block is too small.
none_below :
    (padded : ℕ) (t : Tree SpanNode) (best : Option SpanNode)
    → IsAugmented t
    → (0 < padded)
    → subtree_largest t < padded
    → first_with_room padded (elements t) best ≡ best
none_below padded leaf best ok pos small = refl
none_below padded (node c l x r) best (okl, here, okr) pos small =
    rw
      (
        first_with_room-append padded (elements l) (x ∷ elements r) best,
        none_below padded l (first_with_room padded (x ∷ elements r) best) okl pos
            (omega (arith, here, small)),
        none_below padded r best okr pos (omega (arith, here, small)),
      )
      (rw (leb_of_lt padded x.largest_free_block_size (omega (arith, here, small))) refl)

-- The first span with room is one of the subtree if the subtree's largest block is large enough.
some_below :
    (padded : ℕ) (t : Tree SpanNode) (a b : Option SpanNode)
    → IsAugmented t
    → 0 < padded
    → padded ≤ subtree_largest t
    → first_with_room padded (elements t) a ≡ first_with_room padded (elements t) b
some_below padded leaf a b ok pos large = absurd (omega arith)
some_below padded (node c l x r) a b (okl, here, okr) pos large =
    rw
      (
        first_with_room-append padded (elements l) (x ∷ elements r) a,
        first_with_room-append padded (elements l) (x ∷ elements r) b,
      )
      (elim (Bool-cases (leb padded x.largest_free_block_size)) [
        | inl fits ↦ rw fits refl
        | inr no_fit ↦ elim (lt_cases (subtree_largest l) padded) [
          | inr left_large ↦
              some_below padded l (first_with_room padded (x ∷ elements r) a)
                (first_with_room padded (x ∷ elements r) b) okl pos left_large
          | inl left_small ↦
              let right_large : padded ≤ subtree_largest r = omega (
                arith,
                here,
                large,
                left_small,
                le_of_leb padded x.largest_free_block_size no_fit,
              ) in
              rw (no_fit, some_below padded r a b okr pos right_large) refl
        ]
      ])

room_below :
    (padded : ℕ) (t : Tree SpanNode)
    → 0 < padded
    → padded ≤ subtree_largest t
    → has_room_below padded t ≡ true
room_below padded leaf pos large = absurd (omega arith)
room_below padded (node c l x r) pos large = ground arith

no_room_below :
    (padded : ℕ) (t : Tree SpanNode) → subtree_largest t < padded → has_room_below padded t ≡ false
no_room_below padded leaf small = refl
no_room_below padded (node c l x r) small = ground arith

search_loop-first :
    (padded : ℕ) (t : Tree SpanNode) (best : Option SpanNode)
    → IsAugmented t
    → 0 < padded
    → search_loop padded t best ≡ first_with_room padded (elements t) best
unfolding search_loop
search_loop-first padded leaf best ok pos = refl
search_loop-first padded (node c l x r) best (okl, here, okr) pos =
    elim (lt_cases x.largest_in_subtree padded) [
      | inl small ↦
          rw (lt→ltb x.largest_in_subtree padded small, search_loop)
            (sym (none_below padded (node c l x r) best (okl, here, okr) pos small))
      | inr large ↦
          rw
            (
              ltb_of_le x.largest_in_subtree padded large,
              first_with_room-append padded (elements l) (x ∷ elements r) best,
              search_loop,
            )
            (elim (Bool-cases (leb padded x.largest_free_block_size)) [
              | inl fits ↦ rw (fits, search_loop) (search_loop-first padded l (some x) okl pos)
              | inr no_fit ↦ elim (lt_cases (subtree_largest l) padded) [
                | inr left_large ↦
                    rw
                      (
                        no_fit,
                        room_below padded l pos left_large,
                        search_loop-first padded l best okl pos,
                      )
                      (some_below padded l best (first_with_room padded (elements r) best) okl pos
                        left_large)
                | inl left_small ↦
                    rw
                      (
                        no_fit,
                        no_room_below padded l left_small,
                        search_loop-first padded r best okr pos,
                      )
                      (sym (
                        none_below padded l (first_with_room padded (elements r) best) okl pos
                          left_small))
              ]
            ])
    ]

-- With valid augmented data, the search returns the first span in the order of the tree, the most
-- occupied, that has a large enough free block, and null exactly if none has one.
pub find_most_occupied-first :
    (padded : ℕ) (t : Tree SpanNode)
    → IsAugmented t
    → 0 < padded
    → find_most_occupied padded t ≡ first_with_room padded (elements t) none
unfolding find_most_occupied
find_most_occupied-first padded t ok pos = search_loop-first padded t none ok pos
