-- ===== src/Core/SplitBitmap/Drain.antt =====
-- `drainFreeIntoAlloc` (libraries/Core/include/core/atomic/SplitBitmap.h): what becomes of each
-- bit, and of their number.
use cro_cos.Base.{
  ℕ, zero, suc, ◌+◌, ◌<◌, ◌≡◌, ◌&&◌, ◌||◌, true, false, Option, none, some, List, [], ◌∷◌, length,
  refl, arith, ap, Bool-cases, inl, inr, ◌∙◌,
}
use cro_cos.Core.SplitBitmap.{Word, nonzero, bits_and, bits_or, drain_words, count_words, popcount}
use cro_cos.Core.SplitBitmap.Words.{
  bit_at, bit_at_of_zero, bit_at-bits_or, length-bits_or, popcount-bits_or, popcount_of_zero,
}
use cro_cos.Core.SplitBitmap.Claim.{AllWords, ZeroBelow, ZeroBelow-of_le, bit_of}

-- No bit is on both sides.
abbrev pub Disjoint : List Word → List Word → Type 0
Disjoint a f = (k i : ℕ) → (bit_of a k i && bit_of f k i) ≡ false

pub bits_and_zero :
    (w v : Word) → ((i : ℕ) → (bit_at w i && bit_at v i) ≡ false) → nonzero (bits_and w v) ≡ false
unfolding nonzero bits_and
bits_and_zero [] v h = refl
bits_and_zero (a ∷ w) [] h = refl
bits_and_zero (a ∷ w) (b ∷ v) h = rw (h 0) (bits_and_zero w v (λ i. h (suc i)))

abbrev pub AllZero : List Word → Type 0
AllZero [] = Unit
AllZero (a ∷ l) = (nonzero a ≡ false) × AllZero l

-- What the exchange loop does to words from index `w` on.
pub record Drained (w : ℕ) (a f : List Word) (r : List Word × Option ℕ) : Type 0 where
  pub bits : (k i : ℕ) → bit_of r.0 k i ≡ (bit_of a k i || bit_of f k i)
  pub full : AllWords r.0
  pub same : length r.0 ≡ length a
  pub counted : count_words r.0 ≡ count_words a + count_words f
  pub nothing : r.1 ≡ none → count_words f ≡ 0
  pub first :
      (h : ℕ)
      → r.1 ≡ some h
      → (h < w + length a) × (0 < count_words f) × (count_words a ≡ 0 → ZeroBelow h w r.0)

nonzero_of_popcount : (a : Word) → popcount a ≡ 0 → nonzero a ≡ false
unfolding popcount nonzero
nonzero_of_popcount [] h = refl
nonzero_of_popcount (true ∷ w) h = absurd (omega arith)
nonzero_of_popcount (false ∷ w) h = nonzero_of_popcount w h

popcount_pos : (a : Word) → nonzero a ≡ true → 0 < popcount a
unfolding popcount nonzero
popcount_pos [] h = cc
popcount_pos (true ∷ w) h = omega arith
popcount_pos (false ∷ w) h = popcount_pos w h

-- Words without a bit are 0, whatever the hint.
pub ZeroBelow-of_none : (h w : ℕ) (l : List Word) → count_words l ≡ 0 → ZeroBelow h w l
unfolding count_words
ZeroBelow-of_none h w [] e = tt
ZeroBelow-of_none h w (a ∷ l) e =
    (λ _. nonzero_of_popcount a (omega arith), ZeroBelow-of_none h (w + 1) l (omega arith))

module _ (w : ℕ) (a b : Word) (l f : List Word) (r : List Word × Option ℕ) (la : length a ≡ 64)
    (lb : length b ≡ 64) (d : (i : ℕ) → (bit_at a i && bit_at b i) ≡ false)
    (ih : Drained (w + 1) l f r) where
  Drained-some : nonzero b ≡ true → Drained w (a ∷ l) (b ∷ f) (bits_or a b ∷ r.0, some w)
  unfolding count_words
  Drained-some e = record {
    bits = elim [ zero ↦ λ i. bit_at-bits_or a b i (omega arith) | suc k ↦ λ i. ih.bits k i ];
    full = (length-bits_or a b (omega arith) ∙ la, ih.full);
    same = ap suc ih.same;
    counted = omega (arith, ih.counted, popcount-bits_or a b (omega arith) (bits_and_zero a b d));
    nothing = λ q. cc;
    first = λ h q.
        let here : w ≡ h = ground arith in
        (
          omega arith,
          omega (arith, popcount_pos b e),
          λ c. (λ lt. absurd (omega arith), ZeroBelow-of_le h (w + 1) r.0 (omega arith)),
        );
  }

  Drained-none : nonzero b ≡ false → Drained w (a ∷ l) (b ∷ f) (a ∷ r.0, r.1)
  unfolding count_words
  Drained-none e = record {
    bits = elim [ zero ↦ λ i. ground (arith, bit_at_of_zero b i e) | suc k ↦ λ i. ih.bits k i ];
    full = (la, ih.full);
    same = ap suc ih.same;
    counted = omega (arith, ih.counted, popcount_of_zero b e);
    nothing = λ q. omega (arith, ih.nothing q, popcount_of_zero b e);
    first = λ h q.
        let (lt, pos, below) = ih.first h q in
        (
          omega arith,
          omega arith,
          λ c. (λ _. nonzero_of_popcount a (omega arith), below (omega arith)),
        );
  }

pub drain_words-Drained :
    (w : ℕ) (a f : List Word)
    → AllWords a
    → AllWords f
    → length a ≡ length f
    → Disjoint a f
    → Drained w a f (drain_words w a f)
unfolding drain_words count_words
drain_words-Drained w [] [] va vf e d = record {
  bits = λ k i. refl;
  full = tt;
  same = refl;
  counted = refl;
  nothing = λ _. refl;
  first = λ h q. cc;
}
drain_words-Drained w [] (b ∷ f) va vf e d = absurd (omega arith)
drain_words-Drained w (a ∷ as') [] va vf e d = absurd (omega arith)
drain_words-Drained w (a ∷ as') (b ∷ f) va vf e d =
    let ih = drain_words-Drained (w + 1) as' f va.1 vf.1 (omega arith) (λ k i. d (suc k) i) in
    elim (Bool-cases (nonzero b)) [
      | inl e ↦ rw (e, drain_words) (Drained-some w a b as' f _ va.0 vf.0 (λ i. d 0 i) ih e)
      | inr e ↦ rw (e, drain_words) (Drained-none w a b as' f _ va.0 vf.0 (λ i. d 0 i) ih e)
    ]
