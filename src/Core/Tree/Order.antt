-- ===== src/Core/Tree/Order.antt =====
-- Search trees: the elements in order are sorted by the comparator.
use cro_cos.Base.{◌≡◌, Bool, true, false, List, [], ◌∷◌, ◌++◌}

-- A strict total order, with the test for equality that belongs to it.
pub record StrictTotal {ℓ} {A : Type ℓ} (less same : A → A → Bool) : Type ℓ where
  pub same_refl : (a : A) → same a a ≡ true
  pub same_eq : (a b : A) → same a b ≡ true → a ≡ b
  pub irrefl : (a : A) → less a a ≡ false
  pub trans : (a b c : A) → less a b ≡ true → less b c ≡ true → less a c ≡ true
  pub total : (a b : A) → same a b ≡ false → less a b ≡ false → less b a ≡ true

module _ {ℓ} {A : Type ℓ} (less : A → A → Bool) where
  abbrev pub Above : A → List A → Type 0
  Above a [] = Unit
  Above a (x ∷ xs) = (less a x ≡ true) × Above a xs

  abbrev pub Below : List A → A → Type 0
  Below [] a = Unit
  Below (x ∷ xs) a = (less x a ≡ true) × Below xs a

  abbrev pub IsSorted : List A → Type 0
  IsSorted [] = Unit
  IsSorted (x ∷ xs) = Above x xs × IsSorted xs

  pub Above-append : (a : A) (xs ys : List A) → Above a xs → Above a ys → Above a (xs ++ ys)
  Above-append a [] ys h k = k
  Above-append a (x ∷ xs) ys (h, hs) k = (h, Above-append a xs ys hs k)

  pub Below-append : (a : A) (xs ys : List A) → Below xs a → Below ys a → Below (xs ++ ys) a
  Below-append a [] ys h k = k
  Below-append a (x ∷ xs) ys (h, hs) k = (h, Below-append a xs ys hs k)

  Above-split : (a : A) (xs ys : List A) → Above a (xs ++ ys) → Above a xs × Above a ys
  Above-split a [] ys h = (tt, h)
  Above-split a (x ∷ xs) ys (h, hs) =
      let (left_part, right_part) = Above-split a xs ys hs in ((h, left_part), right_part)

  -- What a sorted list tells of one of its elements.
  pub record Around (xs : List A) (x : A) (ys : List A) : Type 0 where
    pub smaller : Below xs x
    pub before : IsSorted xs
    pub larger : Above x ys
    pub after : IsSorted ys

  pub IsSorted-Around :
      (xs : List A) (x : A) (ys : List A) → IsSorted (xs ++ (x ∷ ys)) → Around xs x ys
  IsSorted-Around [] x ys (above, sorted) = record {
    smaller = tt;
    before = tt;
    larger = above;
    after = sorted;
  }
  IsSorted-Around (w ∷ xs) x ys (above, sorted) =
      let (above_xs, above_rest) = Above-split w xs (x ∷ ys) above in
      let rest = IsSorted-Around xs x ys sorted in
      record {
        smaller = (above_rest.0, rest.smaller);
        before = (above_xs, rest.before);
        larger = rest.larger;
        after = rest.after;
      }

  -- An element put between two parts of a sorted list, or taken out.
  pub sorted_insert :
      (xs : List A) (x : A) (ys : List A)
      → IsSorted (xs ++ ys)
      → Below xs x
      → Above x ys
      → IsSorted (xs ++ (x ∷ ys))
  sorted_insert [] x ys sorted below above = (above, sorted)
  sorted_insert (w ∷ xs) x ys (aw, sorted) (below, belows) above =
      let (aw_xs, aw_ys) = Above-split w xs ys aw in
      (Above-append w xs (x ∷ ys) aw_xs (below, aw_ys), sorted_insert xs x ys sorted belows above)

  pub sorted_remove :
      (xs : List A) (x : A) (ys : List A) → IsSorted (xs ++ (x ∷ ys)) → IsSorted (xs ++ ys)
  sorted_remove [] x ys (above, sorted) = sorted
  sorted_remove (w ∷ xs) x ys (aw, sorted) =
      let (aw_xs, aw_rest) = Above-split w xs (x ∷ ys) aw in
      (Above-append w xs ys aw_xs aw_rest.1, sorted_remove xs x ys sorted)

module _ {ℓ} {A : Type ℓ} (less same : A → A → Bool) (order : StrictTotal less same) where
  pub Above-trans : (a b : A) (xs : List A) → less a b ≡ true → Above less b xs → Above less a xs
  Above-trans a b [] h above = tt
  Above-trans a b (x ∷ xs) h (k, ks) = (order.trans a b x h k, Above-trans a b xs h ks)

  pub Below-trans : (a b : A) (xs : List A) → less a b ≡ true → Below less xs a → Below less xs b
  Below-trans a b [] h below = tt
  Below-trans a b (x ∷ xs) h (k, ks) = (order.trans x a b k h, Below-trans a b xs h ks)
