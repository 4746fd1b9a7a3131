-- ===== src/Core/SplitBitmap/Release.antt =====
-- `releaseBit` and `isBitAvailable` (libraries/Core/include/core/atomic/SplitBitmap.h): a single
-- bit through its mask.
use cro_cos.Base.{
  ℕ, zero, suc, ◌+◌, ◌*◌, ◌/◌, ◌%◌, ◌<◌, ◌≡◌, ◌||◌, Bool, true, false, not, none, some, ◌==◌,
  if◌then◌else◌, List, [], ◌∷◌, replicate, length, get_or, set, refl, arith, ap, ap₂, sym,
  length-set, ◌∙◌,
}
use cro_cos.Core.SplitBitmap.{
  SplitBitmap, Word, nonzero, bits_and, bits_or, mask, count_words, popcount, release_bit,
  count_available, is_bit_available,
}
use cro_cos.Core.SplitBitmap.Words.{bit_at}
use cro_cos.Core.SplitBitmap.Claim.{AllWords, bit_of}
use cro_cos.Core.SplitBitmap.Drain.{Disjoint}
use cro_cos.Core.SplitBitmap.Available.{Inv, available, length-get_or, bit_of-set}

nonzero_clear : (w : Word) (n : ℕ) → nonzero (bits_and w (replicate n false)) ≡ false
unfolding nonzero bits_and
nonzero_clear [] n = refl
nonzero_clear (a ∷ w) zero = refl
nonzero_clear (true ∷ w) (suc n) = nonzero_clear w n
nonzero_clear (false ∷ w) (suc n) = nonzero_clear w n

-- `w & (1 << i)` tests bit `i`.
nonzero_mask :
    (w : Word) (n i : ℕ)
    → length w ≡ n
    → i < n
    → nonzero (bits_and w (set (replicate n false) i true)) ≡ bit_at w i
unfolding nonzero bits_and
nonzero_mask w zero i e h = absurd (omega arith)
nonzero_mask [] (suc n) i e h = absurd (omega arith)
nonzero_mask (true ∷ w) (suc n) zero e h = refl
nonzero_mask (false ∷ w) (suc n) zero e h = nonzero_clear w n
nonzero_mask (true ∷ w) (suc n) (suc i) e h = nonzero_mask w n i (omega arith) (omega arith)
nonzero_mask (false ∷ w) (suc n) (suc i) e h = nonzero_mask w n i (omega arith) (omega arith)

bits_or_clear : (w : Word) (n : ℕ) → length w ≡ n → bits_or w (replicate n false) ≡ w
unfolding bits_or
bits_or_clear [] n e = refl
bits_or_clear (a ∷ w) zero e = absurd (omega arith)
bits_or_clear (true ∷ w) (suc n) e = ap (◌∷◌ true) (bits_or_clear w n (omega arith))
bits_or_clear (false ∷ w) (suc n) e = ap (◌∷◌ false) (bits_or_clear w n (omega arith))

-- `w | (1 << i)` sets bit `i`.
bits_or_mask :
    (w : Word) (n i : ℕ)
    → length w ≡ n
    → i < n
    → bits_or w (set (replicate n false) i true) ≡ set w i true
unfolding bits_or
bits_or_mask w zero i e h = absurd (omega arith)
bits_or_mask [] (suc n) i e h = absurd (omega arith)
bits_or_mask (true ∷ w) (suc n) zero e h = ap (◌∷◌ true) (bits_or_clear w n (omega arith))
bits_or_mask (false ∷ w) (suc n) zero e h = ap (◌∷◌ true) (bits_or_clear w n (omega arith))
bits_or_mask (true ∷ w) (suc n) (suc i) e h =
    ap (◌∷◌ true) (bits_or_mask w n i (omega arith) (omega arith))
bits_or_mask (false ∷ w) (suc n) (suc i) e h =
    ap (◌∷◌ false) (bits_or_mask w n i (omega arith) (omega arith))

popcount-set-true :
    (w : Word) (i : ℕ)
    → i < length w
    → bit_at w i ≡ false
    → popcount (set w i true) ≡ popcount w + 1
unfolding popcount
popcount-set-true [] i h e = absurd (omega arith)
popcount-set-true (true ∷ w) zero h e = cc
popcount-set-true (false ∷ w) zero h e = omega arith
popcount-set-true (true ∷ w) (suc i) h e = omega (arith, popcount-set-true w i (omega arith) e)
popcount-set-true (false ∷ w) (suc i) h e = omega (arith, popcount-set-true w i (omega arith) e)

pub count_words-set :
    (l : List Word) (k : ℕ) (w : Word)
    → k < length l
    → count_words (set l k w) + popcount (get_or l k []) ≡ count_words l + popcount w
unfolding count_words
count_words-set [] k w h = absurd (omega arith)
count_words-set (a ∷ l) zero w h = omega arith
count_words-set (a ∷ l) (suc k) w h = omega (arith, count_words-set l k w (omega arith))

pub AllWords-set :
    (l : List Word) (k : ℕ) (w : Word) → AllWords l → length w ≡ 64 → AllWords (set l k w)
AllWords-set [] k w v e = tt
AllWords-set (a ∷ l) zero w v e = (e, v.1)
AllWords-set (a ∷ l) (suc k) w v e = (v.0, AllWords-set l k w v.1 e)

nonzero-bits_and-mask :
    (w : Word) (i : ℕ) → length w ≡ 64 → i < 64 → nonzero (bits_and w (mask i)) ≡ bit_at w i
unfolding mask
nonzero-bits_and-mask w i e h = nonzero_mask w 64 i e h

bits_or-mask : (w : Word) (i : ℕ) → length w ≡ 64 → i < 64 → bits_or w (mask i) ≡ set w i true
unfolding mask
bits_or-mask w i e h = bits_or_mask w 64 i e h

-- A release that the code accepts, from a state where the bit is free on neither side.
pub record Released (s t : SplitBitmap) (b : ℕ) : Type 0 where
  pub back : available t (b / 64) (b % 64) ≡ true
  pub others : (k i : ℕ) → ¬ ((k ≡ b / 64) × (i ≡ b % 64)) → available t k i ≡ available s k i
  pub counted : count_available t ≡ count_available s + 1
  pub inv : Inv t

module _ (s : SplitBitmap) (v : Inv s) (b : ℕ) (inside : b < length s.free * 64) where
  abbrev word : Word
  word = get_or s.free (b / 64) []

  in_words : b / 64 < length s.free
  in_words = omega arith

  word_full : length word ≡ 64
  word_full = length-get_or s.free (b / 64) v.full_free in_words

  abbrev pub released : SplitBitmap
  released = record s { free = set s.free (b / 64) (set word (b % 64) true) }

  abbrev pub was_zero : Bool
  was_zero = not (nonzero word)

  -- `releaseBit` fails its assertion exactly on a bit that is free on the free side already, and
  -- otherwise sets that one bit there.
  release_bit_lem :
      release_bit s b
      ≡ (if bit_of s.free (b / 64) (b % 64) then none else some (was_zero, released))
  unfolding release_bit
  release_bit_lem = rw (
    nonzero-bits_and-mask word (b % 64) word_full (omega arith),
    bits_or-mask word (b % 64) word_full (omega arith),
  )

  released_bits :
      (k i : ℕ)
      → bit_of released.free k i ≡ (
          if b / 64 == k
          then (if b % 64 == i then true else bit_of s.free k i)
          else bit_of s.free k i)
  released_bits k i =
      bit_of-set s.free (b / 64) k (b % 64) i true in_words (omega (arith, word_full))

  -- Releasing a bit that is available on neither side makes it available, changes no other bit,
  -- raises the number of available bits by one, and keeps the bitmap well formed.
  pub release_bit-Released :
      available s (b / 64) (b % 64) ≡ false
      → (release_bit s b ≡ some (was_zero, released)) × Released s released b
  unfolding count_available
  release_bit-Released used = (
    ground (arith, release_bit_lem),
    record {
      back = ground (arith, released_bits (b / 64) (b % 64));
      others = λ k i ne. ground (arith, released_bits k i, ne);
      counted = omega (
        arith,
        count_words-set s.free (b / 64) (set word (b % 64) true) in_words,
        popcount-set-true word (b % 64) (omega (arith, word_full)) (ground arith),
      );
      inv = record {
        full_alloc = v.full_alloc;
        full_free =
            AllWords-set s.free (b / 64) _ v.full_free (length-set word (b % 64) true ∙ word_full);
        same = v.same ∙ sym (length-set s.free (b / 64) _);
        few = v.few;
        hint_in = v.hint_in;
        below = v.below;
        disjoint = λ k i. ground (arith, released_bits k i, v.disjoint k i);
      };
    },
  )

  -- A second release of a bit that was drained to the allocator's side in between passes the
  -- assertion, and leaves the bit available on both sides, to be claimed twice.
  pub release_bit_undetected :
      bit_of s.alloc (b / 64) (b % 64) ≡ true
      → (release_bit s b ≡ some (was_zero, released)) × (Disjoint released.alloc released.free → ⊥)
  release_bit_undetected old = (
    ground (arith, release_bit_lem, v.disjoint (b / 64) (b % 64)),
    λ d. ground (arith, d (b / 64) (b % 64), released_bits (b / 64) (b % 64)),
  )

  -- `isBitAvailable` reads the two sides.
  pub is_bit_available_lem : is_bit_available s b ≡ available s (b / 64) (b % 64)
  unfolding is_bit_available
  is_bit_available_lem =
      ap₂ ◌||◌
        (nonzero-bits_and-mask (get_or s.alloc (b / 64) []) (b % 64)
          (length-get_or s.alloc (b / 64) v.full_alloc (omega (arith, v.same))) (omega arith))
        (nonzero-bits_and-mask word (b % 64) word_full (omega arith))
