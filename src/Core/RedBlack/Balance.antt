-- ===== src/Core/RedBlack/Balance.antt =====
-- The red-black property, and its part that a path keeps.
use cro_cos.Base.{
  ℕ, zero, suc, ◌≡◌, Bool, true, false, Option, none, some, List, [], ◌∷◌, refl, ap, sym, ◌⊎◌,
  arith, ==_of_eq, inl, inr, if◌then◌else◌,
}
use mathlib.Core.Path.{subst}
use cro_cos.Core.Tree.{
  Color, red, black, Tree, leaf, node, is_red, blacken, verify_red_black, verify_children,
  verify_both,
}
use cro_cos.Core.RedBlack.{Frame, Direction, left, right, plug, join}

-- What the program's own check computes at a node.
verify_red : (h : ℕ) → verify_children red false h h ≡ some h
unfolding verify_children
verify_red h = rw (==_of_eq h h refl) refl

verify_black : (reds : Bool) (h : ℕ) → verify_children black reds h h ≡ some (suc h)
unfolding verify_children
verify_black reds h = rw (==_of_eq h h refl) (ap some (omega arith))

verified_red :
    (reds : Bool) (h k m : ℕ)
    → verify_children red reds h k ≡ some m
    → (reds ≡ false) × (h ≡ m) × (k ≡ m)
unfolding verify_children
verified_red true h k m e = cc
verified_red false h k m e = ground arith

verified_black :
    (reds : Bool) (h k m : ℕ) → verify_children black reds h k ≡ some m → (m ≡ suc h) × (h ≡ k)
unfolding verify_children
verified_black reds h k m e = ground arith

or_false : (a b : Bool) → (if a then true else b) ≡ false → (a ≡ false) × (b ≡ false)
or_false true b e = cc
or_false false b e = (refl, e)

module _ {ℓ} {A : Type ℓ} where
  -- No red node has a red child, and every way down passes `h` black nodes, the null counted.
  abbrev pub Balanced : Tree A → ℕ → Type 0
  Balanced leaf h = h ≡ 1
  Balanced (node red l x r) h =
      (is_red l ≡ false) × (is_red r ≡ false) × (Balanced l h) × (Balanced r h)
  Balanced (node black l x r) zero = ⊥
  Balanced (node black l x r) (suc h) = (Balanced l h) × (Balanced r h)

  -- A red-black tree.
  abbrev pub IsRedBlack : Tree A → Type 0
  IsRedBlack t = (is_red t ≡ false) × ((h : ℕ) × Balanced t h)

  abbrev pub RedFree : List (Frame A) → Type 0
  RedFree [] = Unit
  RedFree (f ∷ p) = f.color ≡ black

  -- What a frame of color `c` with the other child `s` asks; `same` and `more` are what the rest of
  -- the path asks at the height `h` and at the next.
  abbrev pub Holds : Color → Tree A → Type 0 → Type 0 → Type 0 → ℕ → Type 0
  Holds red s free same more h = (Balanced s h) × (is_red s ≡ false) × free × same
  Holds black s free same more h = (Balanced s h) × more

  -- A black tree of height `h` in the place of the path makes a balanced whole.
  abbrev pub Fits : List (Frame A) → ℕ → Type 0
  Fits [] h = Unit
  Fits (f ∷ p) h = Holds f.color f.other (RedFree p) (Fits p h) (Fits p (suc h)) h

  pub join_black :
      (d : Direction) (x : A) (s t : Tree A) (h : ℕ)
      → Balanced s h
      → Balanced t h
      → (is_red (join d black x s t) ≡ false) × (Balanced (join d black x s t) (suc h))
  join_black left x s t h bs bt = (refl, (bt, bs))
  join_black right x s t h bs bt = (refl, (bs, bt))

  pub join_red :
      (d : Direction) (x : A) (s t : Tree A) (h : ℕ)
      → is_red s ≡ false
      → is_red t ≡ false
      → Balanced s h
      → Balanced t h
      → Balanced (join d red x s t) h
  join_red left x s t h ns nt bs bt = (nt, ns, bt, bs)
  join_red right x s t h ns nt bs bt = (ns, nt, bs, bt)

  -- A tree may stand below a path if it is black, or the path begins with a black node.
  abbrev pub MayStand : Tree A → List (Frame A) → Type 0
  MayStand t p = (is_red t ≡ false) ⊎ RedFree p

  plug_frame :
      (d : Direction) (c : Color) (x : A) (s : Tree A) (p : List (Frame A)) (t : Tree A) (h : ℕ)
      → ((u : Tree A) (k : ℕ)
          → MayStand u p
          → Balanced u k
          → Fits p k
          → (total : ℕ) × Balanced (plug p u) total)
      → (is_red t ≡ false) ⊎ (c ≡ black)
      → Balanced t h
      → Holds c s (RedFree p) (Fits p h) (Fits p (suc h)) h
      → (total : ℕ) × Balanced (plug p (join d c x s t)) total
  plug_frame d red x s p t h rest (inl n) b (bs, ns, free, fits) =
      rest (join d red x s t) h (inr free) (join_red d x s t h ns n bs b) fits
  plug_frame d red x s p t h rest (inr e) b fits = cc
  plug_frame d black x s p t h rest m b (bs, fits) =
      let whole = join_black d x s t h bs b in
      rest (join d black x s t) (suc h) (inl whole.0) whole.1 fits

  pub plug-Balanced :
      (p : List (Frame A)) (t : Tree A) (h : ℕ)
      → MayStand t p
      → Balanced t h
      → Fits p h
      → (total : ℕ) × Balanced (plug p t) total
  plug-Balanced [] t h m b fits = (h, b)
  plug-Balanced (f ∷ p) t h m b fits =
      plug_frame f.direction f.color f.value f.other p t h (plug-Balanced p) m b fits

  pub blacken-IsRedBlack : (t : Tree A) (h : ℕ) → Balanced t h → IsRedBlack (blacken t)
  blacken-IsRedBlack leaf h b = (refl, (h, b))
  blacken-IsRedBlack (node red l x r) h (nl, nr, bl, br) = (refl, (suc h, (bl, br)))
  blacken-IsRedBlack (node black l x r) h b = (refl, (h, b))

  pub blacken_same : (t : Tree A) → is_red t ≡ false → blacken t ≡ t
  blacken_same leaf n = refl
  blacken_same (node red l x r) n = cc
  blacken_same (node black l x r) n = refl

  pub verify-Balanced : (t : Tree A) (h : ℕ) → Balanced t h → verify_red_black t ≡ some h
  unfolding verify_red_black
  verify-Balanced leaf h b = ap some (sym b)
  verify-Balanced (node red l x r) h (nl, nr, bl, br) =
      rw (verify-Balanced l h bl, verify-Balanced r h br, nl, nr) (verify_red h)
  verify-Balanced (node black l x r) zero b = elim b [ ]
  verify-Balanced (node black l x r) (suc h) (bl, br) =
      rw (verify-Balanced l h bl, verify-Balanced r h br)
        (verify_black (if is_red l then true else is_red r) h)

  verified_node :
      (c : Color) (l : Tree A) (x : A) (r : Tree A) (i j h : ℕ)
      → Balanced l i
      → Balanced r j
      → verify_children c (if is_red l then true else is_red r) i j ≡ some h
      → Balanced (node c l x r) h
  verified_node red l x r i j h bl br e =
      let (none_red, ei, ej) = verified_red (if is_red l then true else is_red r) i j h e in
      let (nl, nr) = or_false (is_red l) (is_red r) none_red in
      (nl, nr, subst (Balanced l) ei bl, subst (Balanced r) ej br)
  verified_node black l x r i j h bl br e =
      let (eh, eij) = verified_black (if is_red l then true else is_red r) i j h e in
      rw eh (bl, subst (Balanced r) (sym eij) br)

  verified_both :
      (c : Color) (l : Tree A) (x : A) (r : Tree A) (i j : Option ℕ) (h : ℕ)
      → ((k : ℕ) → i ≡ some k → Balanced l k)
      → ((k : ℕ) → j ≡ some k → Balanced r k)
      → verify_both c (if is_red l then true else is_red r) i j ≡ some h
      → Balanced (node c l x r) h
  unfolding verify_both
  verified_both c l x r none j h bl br e = cc
  verified_both c l x r (some i) none h bl br e = cc
  verified_both c l x r (some i) (some j) h bl br e =
      verified_node c l x r i j h (bl i refl) (br j refl) e

  -- And the other way: a tree that passes the check is balanced.
  pub verified : (t : Tree A) (h : ℕ) → verify_red_black t ≡ some h → Balanced t h
  unfolding verify_red_black
  verified leaf h e = ground (arith, e)
  verified (node c l x r) h e =
      verified_both c l x r (verify_red_black l) (verify_red_black r) h (verified l) (verified r) e
