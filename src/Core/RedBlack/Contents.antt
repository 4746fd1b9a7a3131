-- ===== src/Core/RedBlack/Contents.antt =====
-- The elements of a tree in order: recoloring and rotating keep them, and so do both fixups.
use mathlib.Core.Path.{subst}
use mathlib.Core.List.{append_assoc, append-nil}
use cro_cos.Base.{
  ℕ, zero, suc, ◌≡◌, Bool, true, false, Option, none, some, List, [], ◌∷◌, ◌++◌, refl, ◌∙◌, inl,
  inr, if◌then◌else◌, ◌⊎◌,
}
use cro_cos.Core.Tree.{Color, red, black, Tree, leaf, node, is_red, blacken, redden, elements}
use cro_cos.Core.RedBlack.{
  Frame, frame, Direction, left, right, opposite, same_direction, get_child, join, fill, plug,
  rotate_subtree, recolored, rotate_up, insert_fixup, insert_round, paint_sibling, rotate_far,
  rotate_near, erase_round, erase_at, erase_fixup,
}

pub Color-cases : (c : Color) → (c ≡ red) ⊎ (c ≡ black)
Color-cases red = inl refl
Color-cases black = inr refl

module _ {ℓ} {A : Type ℓ} where
  -- What stands before and after the subtree in a frame.
  abbrev pub frame_before : Direction → A → Tree A → List A
  frame_before left x s = []
  frame_before right x s = elements s ++ (x ∷ [])

  abbrev pub frame_after : Direction → A → Tree A → List A
  frame_after left x s = x ∷ elements s
  frame_after right x s = []

  pub elements-join :
      (d : Direction) (c : Color) (x : A) (s t : Tree A)
      → elements (join d c x s t) ≡ frame_before d x s ++ (elements t ++ frame_after d x s)
  elements-join left c x s t = refl
  elements-join right c x s t = simp (append_assoc, append-nil)

  abbrev pub before_path : List (Frame A) → List A
  before_path [] = []
  before_path (f ∷ p) = before_path p ++ frame_before f.direction f.value f.other

  abbrev pub after_path : List (Frame A) → List A
  after_path [] = []
  after_path (f ∷ p) = frame_after f.direction f.value f.other ++ after_path p

  pub elements-plug :
      (p : List (Frame A)) (t : Tree A)
      → elements (plug p t) ≡ before_path p ++ (elements t ++ after_path p)
  elements-plug [] t = simp append-nil
  elements-plug (f ∷ p) t =
      rw (elements-plug p (fill f t), elements-join f.direction f.color f.value f.other t)
        (simp append_assoc)

  pub elements-plug_cong :
      (p : List (Frame A)) (t u : Tree A)
      → elements t ≡ elements u
      → elements (plug p t) ≡ elements (plug p u)
  elements-plug_cong p t u e = rw (elements-plug p t, elements-plug p u, e) refl

  pub elements-fill_cong :
      (d : Direction) (c b : Color) (x : A) (s w t u : Tree A)
      → elements s ≡ elements w
      → elements t ≡ elements u
      → elements (join d c x s t) ≡ elements (join d b x w u)
  elements-fill_cong left c b x s w t u es et = rw (es, et) refl
  elements-fill_cong right c b x s w t u es et = rw (es, et) refl

  pub elements-blacken : (t : Tree A) → elements (blacken t) ≡ elements t
  elements-blacken leaf = refl
  elements-blacken (node c l x r) = refl

  elements-redden : (t : Tree A) → elements (redden t) ≡ elements t
  elements-redden leaf = refl
  elements-redden (node c l x r) = refl

  elements-recolored : (t : Tree A) → elements (recolored t) ≡ elements t
  elements-recolored leaf = refl
  elements-recolored (node c l x r) = rw (elements-redden l, elements-redden r) refl

  elements-rotate : (d : Direction) (t : Tree A) → elements (rotate_subtree d t) ≡ elements t
  elements-rotate left leaf = refl
  elements-rotate left (node c l x leaf) = refl
  elements-rotate left (node c l x (node d m y r)) = simp append_assoc
  elements-rotate right leaf = refl
  elements-rotate right (node c leaf x r) = refl
  elements-rotate right (node c (node d l y m) x r) = simp append_assoc

  -- `turned` of `rotate_up`, whether the first rotation is made or not.
  elements-turned :
      (b : Bool) (d : Direction) (t : Tree A)
      → elements (if b then t else rotate_subtree d t) ≡ elements t
  elements-turned true d t = refl
  elements-turned false d t = elements-rotate d t

  elements-rotate_up :
      (f g : Frame A) (t : Tree A) → elements (rotate_up f g t) ≡ elements (fill g (fill f t))
  unfolding rotate_up
  elements-rotate_up f g t =
      let turned =
        if same_direction f.direction g.direction
        then fill f t
        else rotate_subtree g.direction (fill f t) in
      elements-recolored (rotate_subtree (opposite g.direction) (fill g turned))
      ∙ elements-rotate (opposite g.direction) (fill g turned)
      ∙ elements-fill_cong g.direction g.color g.color g.value g.other g.other turned (fill f t)
          refl (elements-turned (same_direction f.direction g.direction) g.direction (fill f t))

  elements-insert_round :
      (c : Color) (b : Bool) (f g : Frame A) (p : List (Frame A))
      → (continue : Tree A → Tree A) → ((u : Tree A) → elements (continue u) ≡ elements (plug p u))
      → (t : Tree A)
      → elements (insert_round c b f g p continue t) ≡ elements (plug p (fill g (fill f t)))
  unfolding insert_round
  elements-insert_round black b f g p continue rest t =
      elements-blacken (plug p (fill g (fill f t)))
  elements-insert_round red true f g p continue rest t =
      let inner = join f.direction black f.value f.other t in
      rest (join g.direction red g.value (blacken g.other) inner)
      ∙ elements-plug_cong p (join g.direction red g.value (blacken g.other) inner)
          (fill g (fill f t))
          (elements-fill_cong g.direction red g.color g.value (blacken g.other) g.other inner
            (fill f t) (elements-blacken g.other)
            (elements-fill_cong f.direction black f.color f.value f.other f.other t t refl refl))
  elements-insert_round red false f g p continue rest t =
      elements-blacken (plug p (rotate_up f g t))
      ∙ elements-plug_cong p (rotate_up f g t) (fill g (fill f t)) (elements-rotate_up f g t)

  elements-paint :
      (d : Direction) (c : Color) (s : Tree A) → elements (paint_sibling d c s) ≡ elements s
  elements-paint d c leaf = refl
  elements-paint left c (node b l x r) = rw (elements-blacken r) refl
  elements-paint right c (node b l x r) = rw (elements-blacken l) refl

  pub elements-insert_fixup :
      (p : List (Frame A)) (t : Tree A) → elements (insert_fixup p t) ≡ elements (plug p t)
  unfolding insert_fixup
  elements-insert_fixup [] t = elements-blacken t
  elements-insert_fixup (f ∷ []) t = elements-blacken (fill f t)
  elements-insert_fixup (f ∷ (g ∷ p)) t =
      elements-insert_round f.color (is_red g.other) f g p (insert_fixup p)
        (elements-insert_fixup p) t

  elements-far :
      (f : Frame A) (s t : Tree A)
      → elements (rotate_far f s t) ≡ elements (join f.direction f.color f.value s t)
  unfolding rotate_far
  elements-far f s t =
      elements-rotate f.direction
        (join f.direction black f.value (paint_sibling f.direction f.color s) t)
      ∙ elements-fill_cong f.direction black f.color f.value (paint_sibling f.direction f.color s) s
          t t (elements-paint f.direction f.color s) refl

  elements-near :
      (d : Direction) (x : A) (near far : Tree A)
      → elements (rotate_near d x near far) ≡ elements (join d black x far near)
  unfolding rotate_near
  elements-near d x near far =
      elements-rotate (opposite d) (join d red x far (blacken near))
      ∙ elements-fill_cong d red black x far far (blacken near) near refl (elements-blacken near)

  -- What a function returns, if it returns, has the elements `xs`, or those of `t`.
  abbrev pub Lists : Option (Tree A) → List A → Type ℓ
  Lists none xs = Unit
  Lists (some u) xs = elements u ≡ xs

  abbrev pub Keeps : Option (Tree A) → Tree A → Type ℓ
  Keeps o t = Lists o (elements t)

  pub Lists-cong : (o : Option (Tree A)) (xs ys : List A) → xs ≡ ys → Lists o xs → Lists o ys
  Lists-cong none xs ys e k = tt
  Lists-cong (some u) xs ys e k = k ∙ e

  Keeps-cong :
      (o : Option (Tree A)) (t u : Tree A) → elements t ≡ elements u → Keeps o t → Keeps o u
  Keeps-cong o t u e k = Lists-cong o (elements t) (elements u) e k

  elements-blacken-plug :
      (p : List (Frame A)) (t u : Tree A)
      → elements t ≡ elements u
      → elements (blacken (plug p t)) ≡ elements (plug p u)
  elements-blacken-plug p t u e = elements-blacken (plug p t) ∙ elements-plug_cong p t u e

  elements-recolored_sibling :
      (d e : Direction) (c b : Color) (x y : A) (near far t : Tree A)
      → elements (join d c x (join e red y far near) t)
        ≡ elements (join d b x (join e black y far near) t)
  elements-recolored_sibling d e c b x y near far t =
      elements-fill_cong d c b x (join e red y far near) (join e black y far near) t t
        (elements-fill_cong e red black y far far near near refl refl) refl

  Keeps-erase_round :
      (a b : Bool) (c : Color) (f : Frame A) (x : A) (near far : Tree A) (p : List (Frame A))
      → (continue : Tree A → Option (Tree A)) → ((u : Tree A) → Keeps (continue u) (plug p u))
      → (t : Tree A)
      → Keeps
          (erase_round a b c f x near far p continue t)
          (plug p (join f.direction f.color f.value (join f.direction black x far near) t))
  unfolding erase_round
  Keeps-erase_round true b c f x near far p continue rest t =
      elements-blacken-plug p (rotate_far f (join f.direction black x far near) t)
        (join f.direction f.color f.value (join f.direction black x far near) t)
        (elements-far f (join f.direction black x far near) t)
  Keeps-erase_round false true c f x near far p continue rest t =
      elements-blacken-plug p (rotate_far f (rotate_near f.direction x near far) t)
        (join f.direction f.color f.value (join f.direction black x far near) t)
        (elements-far f (rotate_near f.direction x near far) t
          ∙ elements-fill_cong f.direction f.color f.color f.value
              (rotate_near f.direction x near far) (join f.direction black x far near) t t
              (elements-near f.direction x near far) refl)
  Keeps-erase_round false false red f x near far p continue rest t =
      elements-blacken-plug p (join f.direction black f.value (join f.direction red x far near) t)
        (join f.direction f.color f.value (join f.direction black x far near) t)
        (elements-recolored_sibling f.direction f.direction black f.color f.value x near far t)
  Keeps-erase_round false false black f x near far p continue rest t =
      let u = join f.direction f.color f.value (join f.direction red x far near) t in
      let v = join f.direction f.color f.value (join f.direction black x far near) t in
      Keeps-cong (continue u) (plug p u) (plug p v)
        (elements-plug_cong p u v
          (elements-recolored_sibling f.direction f.direction f.color f.color f.value x near far t))
        (rest u)

  -- The near and the far child of a node, put back.
  join-get_child :
      (d : Direction) (c : Color) (l : Tree A) (x : A) (r : Tree A)
      → join d c x (get_child (opposite d) l r) (get_child d l r) ≡ node c l x r
  join-get_child left c l x r = refl
  join-get_child right c l x r = refl

  -- The rotation at a red sibling, seen in the path.
  elements-red_sibling :
      (d : Direction) (c : Color) (y : A) (l : Tree A) (x : A) (r t : Tree A)
      → elements (join d black x (get_child (opposite d) l r) (join d red y (get_child d l r) t))
        ≡ elements (join d c y (node red l x r) t)
  elements-red_sibling left c y l x r t = simp append_assoc
  elements-red_sibling right c y l x r t = simp append_assoc

  Keeps-erase_at :
      (s : Tree A) (f : Frame A) (p : List (Frame A))
      → (continue : List (Frame A) → Tree A → Option (Tree A))
      → ((q : List (Frame A)) (u : Tree A) → Keeps (continue q u) (plug q u))
      → (t : Tree A)
      → Keeps (erase_at s f p continue t) (plug p (join f.direction f.color f.value s t))
  unfolding erase_at
  Keeps-erase_at leaf f p continue rest t = tt
  Keeps-erase_at (node red l x r) f p continue rest t =
      let near = get_child f.direction l r in
      let far = get_child (opposite f.direction) l r in
      let q : List (Frame A) =
        frame f.direction red f.value near ∷ (frame f.direction black x far ∷ p) in
      Keeps-cong (continue q t) (plug q t)
        (plug p (join f.direction f.color f.value (node red l x r) t))
        (elements-plug_cong p (join f.direction black x far (join f.direction red f.value near t))
          (join f.direction f.color f.value (node red l x r) t)
          (elements-red_sibling f.direction f.color f.value l x r t))
        (rest q t)
  Keeps-erase_at (node black l x r) f p continue rest t =
      let near = get_child f.direction l r in
      let far = get_child (opposite f.direction) l r in
      subst
        (λ s.
          Keeps (erase_at (node black l x r) f p continue t)
            (plug p (join f.direction f.color f.value s t)))
        (join-get_child f.direction black l x r)
        (Keeps-erase_round (is_red far) (is_red near) f.color f x near far p (continue p) (rest p)
          t)

  pub Keeps-erase_fixup :
      (fuel : ℕ) (p : List (Frame A)) (t : Tree A) → Keeps (erase_fixup fuel p t) (plug p t)
  unfolding erase_fixup
  Keeps-erase_fixup zero p t = tt
  Keeps-erase_fixup (suc fuel) [] t = elements-blacken t
  Keeps-erase_fixup (suc fuel) (f ∷ p) t =
      Keeps-erase_at f.other f p (erase_fixup fuel) (Keeps-erase_fixup fuel) t
