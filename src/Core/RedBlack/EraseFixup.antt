-- ===== src/Core/RedBlack/EraseFixup.antt =====
-- `eraseFixup` ends without a read through a null pointer, and makes a red-black tree again.
use cro_cos.Base.{
  ℕ, zero, suc, ◌+◌, ◌≤◌, ◌<◌, ◌≡◌, true, false, Option, some, List, [], ◌∷◌, refl, ◌⊎◌, inl, inr,
  Bool-cases, length, arith,
}
use cro_cos.Core.Tree.{Color, red, black, Tree, leaf, node, is_red, blacken}
use cro_cos.Core.RedBlack.{
  Frame, frame, Direction, left, right, opposite, get_child, join, plug, rotate_far, rotate_near,
  erase_round, erase_at, erase_fixup,
}
use cro_cos.Core.RedBlack.Balance.{
  Balanced, IsRedBlack, RedFree, Fits, plug-Balanced, blacken-IsRedBlack, join_black, join_red,
}

module _ {ℓ} {A : Type ℓ} where
  -- The loop returns, and what it returns is a red-black tree.
  abbrev pub Ends : Option (Tree A) → Type ℓ
  Ends o = (u : Tree A) × (o ≡ some u) × (IsRedBlack u)

  -- A node of color `c` and the black height `suc h` below it fits in the place of the path.
  abbrev pub Room : Color → List (Frame A) → ℕ → Type 0
  Room red p h = (RedFree p) × (Fits p (suc h))
  Room black p h = Fits p (suc (suc h))

  plug-Ends :
      (p : List (Frame A)) (t : Tree A) (h : ℕ)
      → (is_red t ≡ false) ⊎ RedFree p
      → Balanced t h
      → Fits p h
      → Ends (some (blacken (plug p t)))
  plug-Ends p t h stands b fits =
      let (total, whole) = plug-Balanced p t h stands b fits in
      (blacken (plug p t), refl, blacken-IsRedBlack (plug p t) total whole)

  place-Ends :
      (c : Color) (l : Tree A) (x : A) (r : Tree A) (p : List (Frame A)) (h : ℕ)
      → is_red l ≡ false
      → is_red r ≡ false
      → Balanced l (suc h)
      → Balanced r (suc h)
      → Room c p h
      → Ends (some (blacken (plug p (node c l x r))))
  place-Ends red l x r p h nl nr bl br (free, fits) =
      plug-Ends p (node red l x r) (suc h) (inr free) (nl, nr, bl, br) fits
  place-Ends black l x r p h nl nr bl br fits =
      plug-Ends p (node black l x r) (suc (suc h)) (inl refl) (bl, br) fits

  -- The far nephew is red.
  far-Ends :
      (d : Direction) (c : Color) (y : A) (s : Tree A) (x : A) (near far t : Tree A)
      → (p : List (Frame A)) (h : ℕ) → is_red far ≡ true
      → Balanced near h
      → Balanced far h
      → Balanced t h
      → Room c p h
      → Ends (some (blacken (plug p (rotate_far (frame d c y s) (join d black x far near) t))))
  far-Ends d c y s x near leaf t p h is bn bf bt room = cc
  far-Ends d c y s x near (node black l z r) t p h is bn bf bt room = cc
  far-Ends left c y s x near (node red l z r) t p h is bn (nl, nr, bl, br) bt room =
      unfold rotate_far in
      place-Ends c (node black t y near) x (node black l z r) p h refl refl (bt, bn) (bl, br) room
  far-Ends right c y s x near (node red l z r) t p h is bn (nl, nr, bl, br) bt room =
      unfold rotate_far in
      place-Ends c (node black l z r) x (node black near y t) p h refl refl (bl, br) (bn, bt) room

  -- Only the near nephew is red.
  near-Ends :
      (d : Direction) (c : Color) (y : A) (s : Tree A) (x : A) (near far t : Tree A)
      → (p : List (Frame A)) (h : ℕ) → is_red near ≡ true
      → Balanced near h
      → Balanced far h
      → Balanced t h
      → Room c p h
      → Ends (some (blacken (plug p (rotate_far (frame d c y s) (rotate_near d x near far) t))))
  near-Ends d c y s x leaf far t p h is bn bf bt room = cc
  near-Ends d c y s x (node black l z r) far t p h is bn bf bt room = cc
  near-Ends left c y s x (node red l z r) far t p h is (nl, nr, bl, br) bf bt room =
      unfold rotate_far rotate_near in
      place-Ends c (node black t y l) z (node black r x far) p h refl refl (bt, bl) (br, bf) room
  near-Ends right c y s x (node red l z r) far t p h is (nl, nr, bl, br) bf bt room =
      unfold rotate_far rotate_near in
      place-Ends c (node black far x l) z (node black r y t) p h refl refl (bf, bl) (br, bt) room

  -- No nephew is red: the sibling becomes red.
  reddened_sibling :
      (d : Direction) (y x : A) (near far t : Tree A) (h : ℕ)
      → is_red near ≡ false
      → is_red far ≡ false
      → Balanced near h
      → Balanced far h
      → Balanced t h
      → (is_red (join d black y (join d red x far near) t) ≡ false)
        × (Balanced (join d black y (join d red x far near) t) (suc h))
  reddened_sibling d y x near far t h nn nf bn bf bt =
      join_black d y (join d red x far near) t h (join_red d x far near h nf nn bf bn) bt

  no_nephew :
      (d : Direction) (c : Color) (y : A) (s : Tree A) (x : A) (near far : Tree A)
      → (p : List (Frame A)) (continue : Tree A → Option (Tree A)) (h : ℕ)
      → (c ≡ black
          → (u : Tree A) → is_red u ≡ false
          → Balanced u (suc h)
          → Fits p (suc (suc h))
          → Ends (continue u))
      → (t : Tree A) → is_red near ≡ false
      → is_red far ≡ false
      → Balanced near h
      → Balanced far h
      → Balanced t h
      → Room c p h
      → Ends (erase_round false false c (frame d c y s) x near far p continue t)
  unfolding erase_round
  no_nephew d red y s x near far p continue h rest t nn nf bn bf bt (free, fits) =
      let (not_red, whole) = reddened_sibling d y x near far t h nn nf bn bf bt in
      plug-Ends p (join d black y (join d red x far near) t) (suc h) (inl not_red) whole fits
  no_nephew d black y s x near far p continue h rest t nn nf bn bf bt fits =
      let (not_red, whole) = reddened_sibling d y x near far t h nn nf bn bf bt in
      rest refl (join d black y (join d red x far near) t) not_red whole fits

  -- `rest` is what the next rounds make of a black tree that is one black node short.
  erase_round-Ends :
      (d : Direction) (c : Color) (y : A) (s : Tree A) (x : A) (near far : Tree A)
      → (p : List (Frame A)) (continue : Tree A → Option (Tree A)) (h : ℕ)
      → (c ≡ black
          → (u : Tree A) → is_red u ≡ false
          → Balanced u (suc h)
          → Fits p (suc (suc h))
          → Ends (continue u))
      → (t : Tree A) → Balanced near h
      → Balanced far h
      → Balanced t h
      → Room c p h
      → Ends (erase_round (is_red far) (is_red near) c (frame d c y s) x near far p continue t)
  unfolding erase_round
  erase_round-Ends d c y s x near far p continue h rest t bn bf bt room =
      elim (Bool-cases (is_red far)) [
        | inl red_far ↦ rw red_far (far-Ends d c y s x near far t p h red_far bn bf bt room)
        | inr nf ↦ elim (Bool-cases (is_red near)) [
          | inl red_near ↦
              rw (nf, red_near) (near-Ends d c y s x near far t p h red_near bn bf bt room)
          | inr nn ↦
              rw (nf, nn) (no_nephew d c y s x near far p continue h rest t nn nf bn bf bt room)
        ]
      ]

  children-Balanced :
      (d : Direction) (l r : Tree A) (h : ℕ)
      → Balanced l h
      → Balanced r h
      → (Balanced (get_child d l r) h) × (Balanced (get_child (opposite d) l r) h)
  children-Balanced left l r h bl br = (bl, br)
  children-Balanced right l r h bl br = (br, bl)

  children_black :
      (d : Direction) (l r : Tree A)
      → is_red l ≡ false
      → is_red r ≡ false
      → is_red (get_child d l r) ≡ false
  children_black left l r nl nr = nl
  children_black right l r nl nr = nr

  pub height_pos : (t : Tree A) (h : ℕ) → Balanced t h → 0 < h
  height_pos leaf h b = omega arith
  height_pos (node red l x r) h (nl, nr, bl, br) = height_pos l h bl
  height_pos (node black l x r) zero b = elim b [ ]
  height_pos (node black l x r) (suc h) b = omega arith

  -- A round at a black sibling.
  black_sibling-Ends :
      (d : Direction) (c : Color) (y : A) (s : Tree A) (l : Tree A) (x : A) (r : Tree A)
      → (p : List (Frame A)) (continue : List (Frame A) → Tree A → Option (Tree A)) (h : ℕ)
      → (c ≡ black
          → (u : Tree A) → is_red u ≡ false
          → Balanced u (suc h)
          → Fits p (suc (suc h))
          → Ends (continue p u))
      → (t : Tree A) → Balanced l h
      → Balanced r h
      → Balanced t h
      → Room c p h
      → Ends (erase_at (node black l x r) (frame d c y s) p continue t)
  unfolding erase_at
  black_sibling-Ends d c y s l x r p continue h rest t bl br bt room =
      let (bn, bf) = children-Balanced d l r h bl br in
      erase_round-Ends d c y s x (get_child d l r) (get_child (opposite d) l r) p (continue p) h
        rest t bn bf bt room

  -- The round after a red sibling ends the loop: the parent is red.
  red_parent-Ends :
      (fuel : ℕ) (d : Direction) (y : A) (s : Tree A) (p : List (Frame A)) (t : Tree A) (h : ℕ)
      → Balanced t h
      → Fits (frame d red y s ∷ p) (suc h)
      → Ends (erase_fixup (suc fuel) (frame d red y s ∷ p) t)
  unfolding erase_fixup
  red_parent-Ends fuel d y leaf p t h bt (bs, ns, free, fits) =
      absurd (omega (arith, height_pos t h bt))
  red_parent-Ends fuel d y (node red l x r) p t h bt (bs, ns, free, fits) = cc
  red_parent-Ends fuel d y (node black l x r) p t h bt (bs, ns, free, fits) =
      black_sibling-Ends d red y (node black l x r) l x r p (erase_fixup fuel) h (λ e. cc) t bs.0
        bs.1 bt (free, fits)

  erase_at-Ends :
      (fuel : ℕ) (s : Tree A) (d : Direction) (c : Color) (y : A) (p : List (Frame A)) (h : ℕ)
      → ((u : Tree A)
          → is_red u ≡ false
          → Balanced u (suc h)
          → Fits p (suc (suc h))
          → Ends (erase_fixup (suc fuel) p u))
      → (t : Tree A) → Balanced t h
      → Fits (frame d c y s ∷ p) (suc h)
      → Ends (erase_at s (frame d c y s) p (erase_fixup (suc fuel)) t)
  erase_at-Ends fuel s d red y p h rest t bt fits =
      unfold erase_fixup in red_parent-Ends (suc fuel) d y s p t h bt fits
  erase_at-Ends fuel leaf d black y p h rest t bt (bs, fits) =
      absurd (omega (arith, height_pos t h bt))
  erase_at-Ends fuel (node red l x r) d black y p h rest t bt ((nl, nr, bl, br), fits) =
      let (bn, bf) = children-Balanced d l r (suc h) bl br in
      unfold erase_at in
      red_parent-Ends fuel d y (get_child d l r) (frame d black x (get_child (opposite d) l r) ∷ p)
        t h bt (bn, children_black d l r nl nr, refl, (bf, fits))
  erase_at-Ends fuel (node black l x r) d black y p h rest t bt ((bl, br), fits) =
      black_sibling-Ends d black y (node black l x r) l x r p (erase_fixup (suc fuel)) h (λ e. rest)
        t bl br bt fits

  pub erase_fixup-Ends :
      (fuel : ℕ) (p : List (Frame A)) (t : Tree A) (h : ℕ)
      → length p + 2 ≤ fuel
      → is_red t ≡ false
      → Balanced t h
      → Fits p (suc h)
      → Ends (erase_fixup fuel p t)
  unfolding erase_fixup
  erase_fixup-Ends zero p t h enough nt bt fits = absurd (omega arith)
  erase_fixup-Ends (suc zero) p t h enough nt bt fits = absurd (omega arith)
  erase_fixup-Ends (suc (suc fuel)) [] t h enough nt bt fits =
      (blacken t, refl, blacken-IsRedBlack t h bt)
  erase_fixup-Ends (suc (suc fuel)) (f ∷ p) t h enough nt bt fits =
      erase_at-Ends fuel f.other f.direction f.color f.value p h
        (λ u nu bu fu. erase_fixup-Ends (suc fuel) p u (suc h) (omega arith) nu bu fu) t bt fits
