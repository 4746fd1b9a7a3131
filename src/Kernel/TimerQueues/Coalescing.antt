-- ===== src/Kernel/TimerQueues/Coalescing.antt =====
-- What `searchSubtree` finds, and what the recomputed bounds hide from it.
use cro_cos.Base.{
  ℕ, ◌≤◌, ◌<◌, ◌≡◌, ◌&&◌, true, false, Option, none, some, ltb, leb, refl, arith, inl, inr, ◌⊎◌,
  lt_cases, lt→ltb,
}
use cro_cos.Core.Tree.{Color, Tree, leaf, node}
use cro_cos.Kernel.TimerQueues.{
  QueuedTimerEvent, refreshed, search_subtree, or_else, recompute_augmented_data, recompute_bound,
}

-- Every event of the tree satisfies `P`.
abbrev pub All : (QueuedTimerEvent → Type 0) → Tree QueuedTimerEvent → Type 0
All P leaf = Unit
All P (node c l x r) = All P l × P x × All P r

-- The event is one of those in the tree.
abbrev pub Occurs : QueuedTimerEvent → Tree QueuedTimerEvent → Type 0
Occurs e leaf = ⊥
Occurs e (node c l x r) = Occurs e l ⊎ ((x ≡ e) ⊎ Occurs e r)

abbrev pub Bounds : QueuedTimerEvent → QueuedTimerEvent → Type 0
Bounds x e = (x.earliest ≤ e.expiration_time) × (e.expiration_time ≤ x.latest)

ltb_of_le : (a b : ℕ) → b ≤ a → ltb a b ≡ false
ltb_of_le a b h = ground arith

-- The bounds of every node hold for the whole of its subtree.
abbrev pub IsBounded : Tree QueuedTimerEvent → Type 0
IsBounded leaf = Unit
IsBounded (node c l x r) = (IsBounded l) × (IsBounded r) × All (Bounds x) (node c l x r)

module _ (early late : ℕ) where
  -- The event cannot be shared: it expires before the window or after it.
  abbrev pub Outside : QueuedTimerEvent → Type 0
  Outside e = (e.expiration_time < early) ⊎ (late < e.expiration_time)

  abbrev pub Inside : QueuedTimerEvent → Type 0
  Inside e = (early ≤ e.expiration_time) × (e.expiration_time ≤ late)

  All-imp :
      (P Q : QueuedTimerEvent → Type 0) (t : Tree QueuedTimerEvent)
      → ((e : QueuedTimerEvent) → P e → Q e)
      → All P t
      → All Q t
  All-imp P Q leaf f a = tt
  All-imp P Q (node c l x r) f (al, ax, ar) = (All-imp P Q l f al, f x ax, All-imp P Q r f ar)

  -- The result of the search: an event of the tree within the window, or none, and then there is no
  -- such event.
  abbrev pub Answer : Option QueuedTimerEvent → Tree QueuedTimerEvent → Type 0
  Answer none t = All Outside t
  Answer (some e) t = Occurs e t × Inside e

  or_else-Answer :
      (c : Color) (a b : Option QueuedTimerEvent) (l : Tree QueuedTimerEvent) (x : QueuedTimerEvent)
      → (r : Tree QueuedTimerEvent) → Outside x
      → Answer a l
      → Answer b r
      → Answer (or_else a b) (node c l x r)
  or_else-Answer c none none l x r out al ar = (al, out, ar)
  or_else-Answer c none (some e) l x r out al ar = (inr (inr ar.0), ar.1)
  or_else-Answer c (some e) b l x r out al ar = (inl al.0, al.1)

  outside_cases :
      (t : ℕ)
      → ((leb early t && leb t late ≡ true) × (early ≤ t) × (t ≤ late))
        ⊎ ((leb early t && leb t late ≡ false) × ((t < early) ⊎ (late < t)))
  outside_cases t = elim (lt_cases t early) [
    | inl before ↦ inr (ground arith, inl before)
    | inr from ↦ elim (lt_cases late t) [
      | inl after ↦ inr (ground arith, inr after)
      | inr to ↦ inl (ground arith, from, to)
    ]
  ]

  here :
      (c : Color) (l : Tree QueuedTimerEvent) (x : QueuedTimerEvent) (r : Tree QueuedTimerEvent)
      → (a b : Option QueuedTimerEvent) → Answer a l
      → Answer b r
      → Answer
          (elim (leb early x.expiration_time && leb x.expiration_time late) [
            | true ↦ some x
            | false ↦ or_else a b
          ])
          (node c l x r)
  here c l x r a b al ar = elim (outside_cases x.expiration_time) [
    | inl (yes_inside, from, to) ↦ rw yes_inside (inr (inl refl), (from, to))
    | inr (not_inside, out) ↦ rw not_inside (or_else-Answer c a b l x r out al ar)
  ]

  -- Where the bounds of every node hold, the search returns an event of the tree that is within
  -- the window, or null, and then every event of the tree lies outside it.
  pub search_subtree-Answer :
      (t : Tree QueuedTimerEvent) → IsBounded t → Answer (search_subtree early late t) t
  unfolding search_subtree
  search_subtree-Answer leaf bounded = tt
  search_subtree-Answer (node c l x r) (bl, br, all) = elim (lt_cases x.latest early) [
    | inl too_early ↦
        rw (lt→ltb x.latest early too_early, search_subtree)
          (All-imp (Bounds x) Outside (node c l x r) (λ e b. inl (omega (arith, b.1, too_early)))
            all)
    | inr not_early ↦ elim (lt_cases late x.earliest) [
      | inl too_late ↦
          rw (ltb_of_le x.latest early not_early, lt→ltb late x.earliest too_late, search_subtree)
            (All-imp (Bounds x) Outside (node c l x r) (λ e b. inr (omega (arith, b.0, too_late)))
              all)
      | inr not_late ↦
          rw
            (ltb_of_le x.latest early not_early, ltb_of_le late x.earliest not_late, search_subtree)
            (here c l x r (search_subtree early late l) (search_subtree early late r)
              (search_subtree-Answer l bl) (search_subtree-Answer r br))
    ]
  ]

-- The recomputed latest time of a node is that of its right child, not of the whole subtree: if the
-- right child expires before the window, the search finds nothing, whatever else is in the tree.
pub search_subtree_misses :
    (c d : Color) (l m r : Tree ℕ) (x y early late : ℕ)
    → y < early
    → search_subtree early late (refreshed (node c l x (node d m y r))) ≡ none
unfolding search_subtree refreshed recompute_augmented_data recompute_bound
search_subtree_misses c d l m r x y early late h = rw (lt→ltb y early h, search_subtree) refl
