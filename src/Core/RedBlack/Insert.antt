-- ===== src/Core/RedBlack/Insert.antt =====
-- `insertFixup` makes a red-black tree again.
use cro_cos.Base.{ℕ, suc, ◌≡◌, true, false, List, [], ◌∷◌, refl, inl, inr, Bool-cases}
use cro_cos.Core.Tree.{Color, red, black, Tree, leaf, node, is_red, blacken}
use cro_cos.Core.RedBlack.{
  Frame, frame, Direction, left, right, join, plug, rotate_up, insert_round, insert_fixup,
}
use cro_cos.Core.RedBlack.Balance.{
  Balanced, IsRedBlack, Holds, Fits, plug-Balanced, blacken-IsRedBlack,
}

module _ {ℓ} {A : Type ℓ} where
  blacken_join :
      (d : Direction) (c : Color) (x : A) (s t : Tree A) (h : ℕ)
      → Balanced s h
      → Balanced t h
      → IsRedBlack (blacken (join d c x s t))
  blacken_join left c x s t h bs bt = (refl, (suc h, (bt, bs)))
  blacken_join right c x s t h bs bt = (refl, (suc h, (bs, bt)))

  Holds-Balanced :
      (c : Color) (s : Tree A) (free same more : Type 0) (h : ℕ)
      → Holds c s free same more h
      → Balanced s h
  Holds-Balanced red s free same more h holds = holds.0
  Holds-Balanced black s free same more h holds = holds.0

  -- Case 2: the four ways in which a red node can hang below its red parent.
  rotate_up-Balanced :
      (d e : Direction) (x y z : A) (s u l r : Tree A) (h : ℕ)
      → (is_red s ≡ false) × (is_red u ≡ false) × (is_red l ≡ false) × (is_red r ≡ false)
      → (Balanced s h) × (Balanced u h) × (Balanced l h) × (Balanced r h)
      → (is_red (rotate_up (frame d red x s) (frame e black y u) (node red l z r)) ≡ false)
        × (Balanced (rotate_up (frame d red x s) (frame e black y u) (node red l z r)) (suc h))
  unfolding rotate_up
  rotate_up-Balanced left left x y z s u l r h (ns, nu, nl, nr) (bs, bu, bl, br) =
      (refl, ((nl, nr, bl, br), (ns, nu, bs, bu)))
  rotate_up-Balanced left right x y z s u l r h (ns, nu, nl, nr) (bs, bu, bl, br) =
      (refl, ((nu, nl, bu, bl), (nr, ns, br, bs)))
  rotate_up-Balanced right left x y z s u l r h (ns, nu, nl, nr) (bs, bu, bl, br) =
      (refl, ((ns, nl, bs, bl), (nr, nu, br, bu)))
  rotate_up-Balanced right right x y z s u l r h (ns, nu, nl, nr) (bs, bu, bl, br) =
      (refl, ((nu, ns, bu, bs), (nl, nr, bl, br)))

  -- Case 1: a red uncle, and the grandparent that becomes red.
  red_uncle-Balanced :
      (d e : Direction) (x y : A) (s u t : Tree A) (h : ℕ)
      → is_red u ≡ true
      → Balanced s h
      → Balanced u h
      → Balanced t h
      → (is_red (join e red y (blacken u) (join d black x s t)) ≡ true)
        × (Balanced (join e red y (blacken u) (join d black x s t)) (suc h))
  red_uncle-Balanced d e x y s leaf t h iu bs bu bt = cc
  red_uncle-Balanced d e x y s (node black l z r) t h iu bs bu bt = cc
  red_uncle-Balanced left left x y s (node red l z r) t h iu bs (nl, nr, bl, br) bt =
      (refl, (refl, refl, (bt, bs), (bl, br)))
  red_uncle-Balanced left right x y s (node red l z r) t h iu bs (nl, nr, bl, br) bt =
      (refl, (refl, refl, (bl, br), (bt, bs)))
  red_uncle-Balanced right left x y s (node red l z r) t h iu bs (nl, nr, bl, br) bt =
      (refl, (refl, refl, (bs, bt), (bl, br)))
  red_uncle-Balanced right right x y s (node red l z r) t h iu bs (nl, nr, bl, br) bt =
      (refl, (refl, refl, (bl, br), (bs, bt)))

  -- `rest` is what the next round makes of a red tree.
  insert_round-IsRedBlack :
      (d : Direction) (c : Color) (x : A) (s : Tree A) (e : Direction) (b : Color) (y : A)
      (u : Tree A)
      → (p : List (Frame A)) (continue : Tree A → Tree A)
      → ((t : Tree A) (k : ℕ) → is_red t ≡ true → Balanced t k → Fits p k → IsRedBlack (continue t))
      → (l : Tree A) (z : A) (r : Tree A) (h : ℕ) → Balanced (node red l z r) h
      → Fits (frame d c x s ∷ (frame e b y u ∷ p)) h
      → IsRedBlack
          (insert_round c (is_red u) (frame d c x s) (frame e b y u) p continue (node red l z r))
  unfolding insert_round
  insert_round-IsRedBlack d black x s e b y u p continue rest l z r h balanced fits =
      let (total, whole) =
        plug-Balanced (frame d black x s ∷ (frame e b y u ∷ p)) (node red l z r) h (inr refl)
          balanced fits in
      blacken-IsRedBlack (plug p (join e b y u (join d black x s (node red l z r)))) total whole
  insert_round-IsRedBlack d red x s e red y u p continue rest l z r h balanced
        (bs, ns, free, fits) =
      cc
  insert_round-IsRedBlack d red x s e black y u p continue rest l z r h (nl, nr, bl, br)
        (bs, ns, free, (bu, fits)) =
      elim (Bool-cases (is_red u)) [
        | inl iu ↦
            let (is, whole) =
              red_uncle-Balanced d e x y s u (node red l z r) h iu bs bu (nl, nr, bl, br) in
            rw iu (
              rest (join e red y (blacken u) (join d black x s (node red l z r))) (suc h) is whole
                fits)
        | inr nu ↦
            let top = rotate_up (frame d red x s) (frame e black y u) (node red l z r) in
            let (not_red, whole) =
              rotate_up-Balanced d e x y z s u l r h (ns, nu, nl, nr) (bs, bu, bl, br) in
            let (total, all) = plug-Balanced p top (suc h) (inl not_red) whole fits in
            rw nu (blacken-IsRedBlack (plug p top) total all)
      ]

  pub insert_fixup-IsRedBlack :
      (p : List (Frame A)) (t : Tree A) (h : ℕ)
      → is_red t ≡ true
      → Balanced t h
      → Fits p h
      → IsRedBlack (insert_fixup p t)
  unfolding insert_fixup
  insert_fixup-IsRedBlack p leaf h is b fits = cc
  insert_fixup-IsRedBlack p (node black l z r) h is b fits = cc
  insert_fixup-IsRedBlack [] (node red l z r) h is b fits = blacken-IsRedBlack (node red l z r) h b
  insert_fixup-IsRedBlack (f ∷ []) (node red l z r) h is b fits =
      blacken_join f.direction f.color f.value f.other (node red l z r) h
        (Holds-Balanced f.color f.other Unit Unit Unit h fits) b
  insert_fixup-IsRedBlack (f ∷ (g ∷ p)) (node red l z r) h is b fits =
      insert_round-IsRedBlack f.direction f.color f.value f.other g.direction g.color g.value
        g.other p (insert_fixup p) (insert_fixup-IsRedBlack p) l z r h b fits
