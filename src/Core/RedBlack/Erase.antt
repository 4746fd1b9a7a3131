-- ===== src/Core/RedBlack/Erase.antt =====
-- What `eraseImpl` makes of a node of a red-black tree.
use mathlib.Core.List.{append-nil}
use cro_cos.Base.{
  ℕ, zero, suc, ◌+◌, ◌≡◌, false, some, List, [], ◌∷◌, ◌++◌, refl, sym, ap, ◌∙◌, ◌⊎◌, inl, arith,
  length,
}
use cro_cos.Core.Tree.{Color, red, black, Tree, leaf, node, is_red, elements}
use cro_cos.Core.RedBlack.{
  Frame, frame, Direction, left, right, join, fill, plug, leftmost, settle, erase_fixup, erase_node,
}
use cro_cos.Core.RedBlack.Balance.{Balanced, IsRedBlack, RedFree, Fits, plug-Balanced}
use cro_cos.Core.RedBlack.Contents.{
  before_path, after_path, elements-plug, elements-plug_cong, Lists, Lists-cong, Keeps,
  Keeps-erase_fixup,
}
use cro_cos.Core.RedBlack.EraseFixup.{Ends, erase_fixup-Ends, height_pos}
use cro_cos.Core.RedBlack.Descend.{Placed, unplug}

module _ {ℓ} {A : Type ℓ} where
  plug-append : (q p : List (Frame A)) (t : Tree A) → plug (q ++ p) t ≡ plug p (plug q t)
  plug-append [] p t = refl
  plug-append (f ∷ q) p t = plug-append q p (fill f t)

  -- The root's color is that of the last node of the path.
  join_root :
      (d : Direction) (c : Color) (x : A) (s t u : Tree A)
      → is_red (join d c x s t) ≡ is_red (join d c x s u)
  join_root left red x s t u = refl
  join_root right red x s t u = refl
  join_root left black x s t u = refl
  join_root right black x s t u = refl

  plug_root :
      (p : List (Frame A)) (f : Frame A) (t u : Tree A)
      → is_red (plug p (fill f t)) ≡ is_red (plug p (fill f u))
  plug_root [] f t u = join_root f.direction f.color f.value f.other t u
  plug_root (g ∷ p) f t u = plug_root p g (fill f t) (fill f u)

  -- The whole of a place, with a new subtree in it.
  whole-Ends :
      (p : List (Frame A)) (t : Tree A) (h : ℕ)
      → (is_red t ≡ false) ⊎ RedFree p
      → Balanced t h
      → Fits p h
      → is_red (plug p t) ≡ false
      → Ends (some (plug p t))
  whole-Ends p t h stands b fits root =
      let (total, whole) = plug-Balanced p t h stands b fits in
      (plug p t, refl, (root, (total, whole)))

  no_black_child :
      (l : Tree A) (x : A) (r : Tree A) (h : ℕ) → h ≡ 1 → Balanced (node black l x r) h → ⊥
  no_black_child l x r zero e b = elim b [ ]
  no_black_child l x r (suc h) e (bl, br) = absurd (omega (arith, height_pos l h bl))

  -- A node with one child, to the right or to the left: the child is red, and the node is black.
  only_child :
      (d : Color) (l : Tree A) (x : A) (r : Tree A) (h : ℕ)
      → h ≡ 1
      → Balanced (node d l x r) h
      → Balanced (node black l x r) (suc h)
  only_child red l x r h e (nl, nr, bl, br) = (bl, br)
  only_child black l x r h e b = absurd (no_black_child l x r h e b)

  only_right :
      (c d : Color) (l : Tree A) (x y : A) (r : Tree A) (h : ℕ)
      → Balanced (node c leaf y (node d l x r)) h
      → Balanced (node black l x r) h
  only_right red red l x y r h (nl, nr, e, b) = cc
  only_right red black l x y r h (nl, nr, e, b) = absurd (no_black_child l x r h e b)
  only_right black d l x y r zero b = elim b [ ]
  only_right black d l x y r (suc h) (e, b) = only_child d l x r h e b

  only_left :
      (c d : Color) (l : Tree A) (x y : A) (r : Tree A) (h : ℕ)
      → Balanced (node c (node d l x r) y leaf) h
      → Balanced (node black l x r) h
  only_left red red l x y r h (nl, nr, b, e) = cc
  only_left red black l x y r h (nl, nr, b, e) = absurd (no_black_child l x r h e b)
  only_left black d l x y r zero b = elim b [ ]
  only_left black d l x y r (suc h) (b, e) = only_child d l x r h e b

  -- `p` begins with a node, so that the root is above the place.
  abbrev HasRoot : List (Frame A) → Type ℓ
  HasRoot p = (t u : Tree A) → is_red (plug p t) ≡ is_red (plug p u)

  black_leaf :
      (p : List (Frame A)) (y : A) (h : ℕ)
      → Balanced (node black leaf y leaf) h
      → Fits p h
      → Ends (erase_fixup (length p + 2) p leaf)
  black_leaf p y zero b fits = elim b [ ]
  black_leaf p y (suc h) (e, _) fits =
      erase_fixup-Ends (length p + 2) p leaf h (omega arith) refl e fits

  pub settle-Ends :
      (p : List (Frame A)) (c : Color) (y : A) (t : Tree A)
      → HasRoot p
      → Placed p (node c leaf y t)
      → is_red (plug p (node c leaf y t)) ≡ false
      → Ends (settle p c t)
  unfolding settle
  settle-Ends p c y (node d l x r) root place top =
      whole-Ends p (node black l x r) place.height (inl refl)
        (only_right c d l x y r place.height place.balanced) place.fits
        (root (node black l x r) (node c leaf y (node d l x r)) ∙ top)
  settle-Ends p red y leaf root place top =
      whole-Ends p leaf place.height (inl refl) place.balanced.2 place.fits
        (root leaf (node red leaf y leaf) ∙ top)
  settle-Ends p black y leaf root place top = black_leaf p y place.height place.balanced place.fits

  -- The elements of what `settle` returns, if it returns.
  Keeps-settle : (p : List (Frame A)) (c : Color) (t : Tree A) → Keeps (settle p c t) (plug p t)
  unfolding settle
  Keeps-settle p c (node d l x r) = elements-plug_cong p (node black l x r) (node d l x r) refl
  Keeps-settle p red leaf = refl
  Keeps-settle p black leaf = Keeps-erase_fixup (length p + 2) p leaf

  -- The leftmost node below a node: it has no left child, and nothing of the subtree is before it.
  leftmost-plug :
      (l : Tree A) (c : Color) (x : A) (r : Tree A) (p : List (Frame A))
      → (let (q, d, y, t) = leftmost l c x r p in plug q (node d leaf y t)) ≡ plug p (node c l x r)
  unfolding leftmost
  leftmost-plug leaf c x r p = refl
  leftmost-plug (node d ll y lr) c x r p = leftmost-plug ll d y lr (frame left c x r ∷ p)

  leftmost-before :
      (l : Tree A) (c : Color) (x : A) (r : Tree A) (p : List (Frame A))
      → before_path (leftmost l c x r p).0 ≡ before_path p
  unfolding leftmost
  leftmost-before leaf c x r p = refl
  leftmost-before (node d ll y lr) c x r p =
      leftmost-before ll d y lr (frame left c x r ∷ p) ∙ append-nil (before_path p)

  other_value :
      (c : Color) (l : Tree A) (x y : A) (r : Tree A) (h : ℕ)
      → Balanced (node c l x r) h
      → Balanced (node c l y r) h
  other_value red l x y r h b = b
  other_value black l x y r zero b = b
  other_value black l x y r (suc h) b = b

  other_stands :
      (p : List (Frame A)) (c : Color) (l : Tree A) (x y : A) (r : Tree A)
      → (is_red (node c l x r) ≡ false) ⊎ RedFree p
      → (is_red (node c l y r) ≡ false) ⊎ RedFree p
  other_stands p red l x y r h = h
  other_stands p black l x y r h = h

  other_root :
      (p : List (Frame A)) (c : Color) (l : Tree A) (x y : A) (r : Tree A)
      → is_red (plug p (node c l x r)) ≡ is_red (plug p (node c l y r))
  other_root [] red l x y r = refl
  other_root [] black l x y r = refl
  other_root (f ∷ p) c l x y r = plug_root p f (node c l x r) (node c l y r)

  -- The elements after the node `(c, l, r)` at the place of `p` is taken out.
  abbrev pub without : List (Frame A) → Tree A → Tree A → List A
  without p l r = before_path p ++ ((elements l ++ elements r) ++ after_path p)

  -- `eraseCaseTwoChildren`: the node with its left child `l`, and the right child `node e m y s`.
  module _ (p : List (Frame A)) (c : Color) (l : Tree A) (e : Color) (m : Tree A) (y : A)
      (s : Tree A) where
    abbrev found : List (Frame A) × Color × A × Tree A
    found = leftmost m e y s []

    abbrev whole_path : List (Frame A)
    whole_path = found.0 ++ (frame right c found.2 l ∷ p)

    successor_elements : found.2 ∷ elements (plug found.0 found.3) ≡ elements (node e m y s)
    successor_elements =
        let none_before = leftmost-before m e y s [] in
        ap (λ xs. found.2 ∷ xs)
          (elements-plug found.0 found.3
            ∙ ap (λ xs. xs ++ (elements found.3 ++ after_path found.0)) none_before)
        ∙ sym (
            ap elements (sym (leftmost-plug m e y s []))
            ∙ elements-plug found.0 (node found.1 leaf found.2 found.3)
            ∙ ap (λ xs. xs ++ ((found.2 ∷ elements found.3) ++ after_path found.0)) none_before)

    two_children_elements : elements (plug whole_path found.3) ≡ without p l (node e m y s)
    two_children_elements =
        ap elements (plug-append found.0 (frame right c found.2 l ∷ p) found.3)
        ∙ elements-plug p (node c l found.2 (plug found.0 found.3))
        ∙ ap (λ xs. before_path p ++ ((elements l ++ xs) ++ after_path p)) successor_elements

    two_children_place :
        (x : A) (h : ℕ)
        → Balanced (plug p (node c l x (node e m y s))) h
        → is_red (plug p (node c l x (node e m y s))) ≡ false
        → (Placed whole_path (node found.1 leaf found.2 found.3))
          × (is_red (plug whole_path (node found.1 leaf found.2 found.3)) ≡ false)
    two_children_place x h b top =
        let place = unplug p (node c l x (node e m y s)) h b in
        let back : plug whole_path (node found.1 leaf found.2 found.3)
            ≡ plug p (node c l found.2 (node e m y s)) =
          plug-append found.0 (frame right c found.2 l ∷ p) (node found.1 leaf found.2 found.3)
          ∙ ap (λ u. plug p (node c l found.2 u)) (leftmost-plug m e y s []) in
        let (total, whole) =
          plug-Balanced p (node c l found.2 (node e m y s)) place.height
            (other_stands p c l x found.2 (node e m y s) place.stands)
            (other_value c l x found.2 (node e m y s) place.height place.balanced) place.fits in
        (
          unplug whole_path (node found.1 leaf found.2 found.3) total (rw back whole),
          ap is_red back ∙ other_root p c l found.2 x (node e m y s) ∙ top,
        )

    -- `settle` is called at a path that has the node's own place above it.
    whole_path-HasRoot : HasRoot whole_path
    whole_path-HasRoot t u =
        let step : Frame A = frame right c found.2 l in
        ap is_red (plug-append found.0 (step ∷ p) t)
        ∙ plug_root p step (plug found.0 t) (plug found.0 u)
        ∙ sym (ap is_red (plug-append found.0 (step ∷ p) u))

    two_children-Ends :
        (x : A) (h : ℕ)
        → Balanced (plug p (node c l x (node e m y s))) h
        → is_red (plug p (node c l x (node e m y s))) ≡ false
        → Ends (settle whole_path found.1 found.3)
    two_children-Ends x h b top =
        let (place, root) = two_children_place x h b top in
        settle-Ends whole_path found.1 found.2 found.3 whole_path-HasRoot place root

    two_children-Lists : Lists (settle whole_path found.1 found.3) (without p l (node e m y s))
    two_children-Lists =
        Lists-cong (settle whole_path found.1 found.3) (elements (plug whole_path found.3))
          (without p l (node e m y s)) two_children_elements
          (Keeps-settle whole_path found.1 found.3)

  pub Lists-erase_node :
      (p : List (Frame A)) (c : Color) (l r : Tree A) → Lists (erase_node p c l r) (without p l r)
  unfolding erase_node
  Lists-erase_node [] c leaf leaf = refl
  Lists-erase_node (f ∷ p) c leaf leaf =
      Lists-cong (settle (f ∷ p) c leaf) (elements (plug (f ∷ p) leaf)) (without (f ∷ p) leaf leaf)
        (elements-plug (f ∷ p) leaf) (Keeps-settle (f ∷ p) c leaf)
  Lists-erase_node [] c leaf (node d l x r) = elements-plug [] (node black l x r)
  Lists-erase_node (f ∷ p) c leaf (node d l x r) = elements-plug (f ∷ p) (node black l x r)
  Lists-erase_node [] c (node d l x r) leaf = simp append-nil
  Lists-erase_node (f ∷ p) c (node d l x r) leaf =
      elements-plug (f ∷ p) (node black l x r) ∙ simp append-nil
  Lists-erase_node [] c (node d l x r) (node e m y s) =
      two_children-Lists [] c (node d l x r) e m y s
  Lists-erase_node (f ∷ p) c (node d l x r) (node e m y s) =
      two_children-Lists (f ∷ p) c (node d l x r) e m y s

  -- A place with one child below it, at the root or not.
  one_child-Ends :
      (p : List (Frame A)) (t : Tree A) (l : Tree A) (y : A) (r : Tree A) (h : ℕ)
      → Balanced (node black l y r) h
      → Fits p h
      → is_red (plug p t) ≡ false
      → Ends (some (plug p (node black l y r)))
  one_child-Ends [] t l y r h b fits top = whole-Ends [] (node black l y r) h (inl refl) b fits refl
  one_child-Ends (f ∷ p) t l y r h b fits top =
      whole-Ends (f ∷ p) (node black l y r) h (inl refl) b fits
        (plug_root p f (node black l y r) t ∙ top)

  -- Erasing the node with the value `x` at the place of `p`.
  pub erase_node-Ends :
      (p : List (Frame A)) (c : Color) (l : Tree A) (x : A) (r : Tree A)
      → IsRedBlack (plug p (node c l x r))
      → Ends (erase_node p c l r)
  unfolding erase_node
  erase_node-Ends [] c leaf x leaf rb = (leaf, refl, (refl, (1, refl)))
  erase_node-Ends (f ∷ p) c leaf x leaf rb =
      settle-Ends (f ∷ p) c x leaf (plug_root p f)
        (unplug (f ∷ p) (node c leaf x leaf) rb.1.0 rb.1.1) rb.0
  erase_node-Ends [] c leaf x (node d l y r) rb =
      let place = unplug [] (node c leaf x (node d l y r)) rb.1.0 rb.1.1 in
      one_child-Ends [] (node c leaf x (node d l y r)) l y r place.height
        (only_right c d l y x r place.height place.balanced) place.fits rb.0
  erase_node-Ends (f ∷ p) c leaf x (node d l y r) rb =
      let place = unplug (f ∷ p) (node c leaf x (node d l y r)) rb.1.0 rb.1.1 in
      one_child-Ends (f ∷ p) (node c leaf x (node d l y r)) l y r place.height
        (only_right c d l y x r place.height place.balanced) place.fits rb.0
  erase_node-Ends [] c (node d l y r) x leaf rb =
      let place = unplug [] (node c (node d l y r) x leaf) rb.1.0 rb.1.1 in
      one_child-Ends [] (node c (node d l y r) x leaf) l y r place.height
        (only_left c d l y x r place.height place.balanced) place.fits rb.0
  erase_node-Ends (f ∷ p) c (node d l y r) x leaf rb =
      let place = unplug (f ∷ p) (node c (node d l y r) x leaf) rb.1.0 rb.1.1 in
      one_child-Ends (f ∷ p) (node c (node d l y r) x leaf) l y r place.height
        (only_left c d l y x r place.height place.balanced) place.fits rb.0
  erase_node-Ends [] c (node d l z r) x (node e m y s) rb =
      two_children-Ends [] c (node d l z r) e m y s x rb.1.0 rb.1.1 rb.0
  erase_node-Ends (f ∷ p) c (node d l z r) x (node e m y s) rb =
      two_children-Ends (f ∷ p) c (node d l z r) e m y s x rb.1.0 rb.1.1 rb.0
