-- ===== src/Core/SplitBitmap/Reserve.antt =====
-- `seedAllAvailable` and `reserveBit` (libraries/Core/include/core/atomic/SplitBitmap.h).
use cro_cos.Base.{
  ℕ, zero, suc, ◌+◌, ◌*◌, ◌/◌, ◌%◌, ◌<◌, ◌≡◌, Bool, true, false, ◌==◌, if◌then◌else◌, List, [], ◌∷◌,
  replicate, length, get_or, set, refl, arith, ap, sym, length-set, ◌∙◌, length-replicate,
}
use cro_cos.Core.SplitBitmap.{
  SplitBitmap, Word, bits_and, bits_not, nonzero, zeros, ones, mask, count_words, popcount,
  reserve_bit, count_available, seed_all_available,
}
use cro_cos.Core.SplitBitmap.Words.{bit_at}
use cro_cos.Core.SplitBitmap.Claim.{AllWords, ZeroBelow, ZeroBelow-of_le, bit_of}
use cro_cos.Core.SplitBitmap.Available.{Inv, available, length-get_or, bit_of-set}
use cro_cos.Core.SplitBitmap.ClaimBit.{AllWords-replicate, bit_of-replicate, count_words-replicate}
use cro_cos.Core.SplitBitmap.Release.{AllWords-set, count_words-set}

bits_and_ones : (w : Word) (n : ℕ) → length w ≡ n → bits_and w (bits_not (replicate n false)) ≡ w
unfolding bits_and bits_not
bits_and_ones [] n e = refl
bits_and_ones (a ∷ w) zero e = absurd (omega arith)
bits_and_ones (true ∷ w) (suc n) e = ap (◌∷◌ true) (bits_and_ones w n (omega arith))
bits_and_ones (false ∷ w) (suc n) e = ap (◌∷◌ false) (bits_and_ones w n (omega arith))

bits_and_hole :
    (w : Word) (n i : ℕ)
    → length w ≡ n
    → i < n
    → bits_and w (bits_not (set (replicate n false) i true)) ≡ set w i false
unfolding bits_and bits_not
bits_and_hole w zero i e h = absurd (omega arith)
bits_and_hole [] (suc n) i e h = absurd (omega arith)
bits_and_hole (true ∷ w) (suc n) zero e h = ap (◌∷◌ false) (bits_and_ones w n (omega arith))
bits_and_hole (false ∷ w) (suc n) zero e h = ap (◌∷◌ false) (bits_and_ones w n (omega arith))
bits_and_hole (true ∷ w) (suc n) (suc i) e h =
    ap (◌∷◌ true) (bits_and_hole w n i (omega arith) (omega arith))
bits_and_hole (false ∷ w) (suc n) (suc i) e h =
    ap (◌∷◌ false) (bits_and_hole w n i (omega arith) (omega arith))

-- `w & ~(1 << i)` clears bit `i`.
bits_and-bits_not-mask :
    (w : Word) (i : ℕ) → length w ≡ 64 → i < 64 → bits_and w (bits_not (mask i)) ≡ set w i false
unfolding mask
bits_and-bits_not-mask w i e h = bits_and_hole w 64 i e h

-- One for a bit that is set.
abbrev pub one : Bool → ℕ
one b = if b then 1 else 0

popcount-set-false :
    (w : Word) (i : ℕ) → i < length w → popcount (set w i false) + one (bit_at w i) ≡ popcount w
unfolding popcount
popcount-set-false [] i h = absurd (omega arith)
popcount-set-false (true ∷ w) zero h = omega arith
popcount-set-false (false ∷ w) zero h = omega arith
popcount-set-false (true ∷ w) (suc i) h = omega (arith, popcount-set-false w i (omega arith))
popcount-set-false (false ∷ w) (suc i) h = omega (arith, popcount-set-false w i (omega arith))

nonzero-set-false : (w : Word) (i : ℕ) → nonzero w ≡ false → nonzero (set w i false) ≡ false
unfolding nonzero
nonzero-set-false [] i h = refl
nonzero-set-false (true ∷ w) i h = cc
nonzero-set-false (false ∷ w) zero h = h
nonzero-set-false (false ∷ w) (suc i) h = nonzero-set-false w i h

ZeroBelow-set :
    (h w : ℕ) (l : List Word) (k i : ℕ)
    → ZeroBelow h w l
    → ZeroBelow h w (set l k (set (get_or l k []) i false))
ZeroBelow-set h w [] k i z = tt
ZeroBelow-set h w (a ∷ l) zero i z = (λ lt. nonzero-set-false a i (z.0 lt), z.1)
ZeroBelow-set h w (a ∷ l) (suc k) i z = (z.0, ZeroBelow-set h (w + 1) l k i z.1)

-- Bit `b` is out of circulation, and nothing else changed.
pub record Reserved (s t : SplitBitmap) (b : ℕ) : Type 0 where
  pub gone : available t (b / 64) (b % 64) ≡ false
  pub others : (k i : ℕ) → ¬ ((k ≡ b / 64) × (i ≡ b % 64)) → available t k i ≡ available s k i
  pub counted : count_available t + one (available s (b / 64) (b % 64)) ≡ count_available s
  pub words : length t.alloc ≡ length s.alloc
  pub inv : Inv t

module _ (s : SplitBitmap) (v : Inv s) (b : ℕ) (inside : b < length s.alloc * 64) where
  -- A half of the bitmap without the bit.
  abbrev hole : List Word → List Word
  hole l = set l (b / 64) (set (get_or l (b / 64) []) (b % 64) false)

  abbrev reserved : SplitBitmap
  reserved = record s { alloc = hole s.alloc; free = hole s.free }

  reserve_bit_lem : reserve_bit s b ≡ reserved
  unfolding reserve_bit
  reserve_bit_lem = rw (
    bits_and-bits_not-mask (get_or s.alloc (b / 64) []) (b % 64)
        (length-get_or s.alloc (b / 64) v.full_alloc (omega arith)) (omega arith),
    bits_and-bits_not-mask (get_or s.free (b / 64) []) (b % 64)
        (length-get_or s.free (b / 64) v.full_free (omega (arith, v.same))) (omega arith),
  )

  hole_bits :
      (l : List Word)
      → AllWords l
      → length l ≡ length s.alloc
      → (k i : ℕ)
      → bit_of (hole l) k i
        ≡ (if b / 64 == k then (if b % 64 == i then false else bit_of l k i) else bit_of l k i)
  hole_bits l full same k i =
      bit_of-set l (b / 64) k (b % 64) i false (omega arith)
        (omega (arith, length-get_or l (b / 64) full (omega arith)))

  hole_count :
      (l : List Word)
      → AllWords l
      → length l ≡ length s.alloc
      → count_words (hole l) + one (bit_of l (b / 64) (b % 64)) ≡ count_words l
  hole_count l full same = omega (
    arith,
    count_words-set l (b / 64) (set (get_or l (b / 64) []) (b % 64) false) (omega arith),
    popcount-set-false (get_or l (b / 64) []) (b % 64)
        (omega (arith, length-get_or l (b / 64) full (omega arith))),
  )

  hole-AllWords : (l : List Word) → AllWords l → length l ≡ length s.alloc → AllWords (hole l)
  hole-AllWords l full same = AllWords-set l (b / 64) _ full (
      length-set (get_or l (b / 64) []) (b % 64) false
      ∙ length-get_or l (b / 64) full (omega arith))

  reserved-Reserved : Reserved s reserved b
  unfolding count_available
  reserved-Reserved =
      let ba = hole_bits s.alloc v.full_alloc refl in
      let bf = hole_bits s.free v.full_free (sym v.same) in
      record {
        gone = ground (arith, ba (b / 64) (b % 64), bf (b / 64) (b % 64));
        others = λ k i ne. ground (arith, ba k i, bf k i, ne);
        counted = ground (
          arith,
          hole_count s.alloc v.full_alloc refl,
          hole_count s.free v.full_free (sym v.same),
          v.disjoint (b / 64) (b % 64),
        );
        words = length-set s.alloc (b / 64) _;
        inv = record {
          full_alloc = hole-AllWords s.alloc v.full_alloc refl;
          full_free = hole-AllWords s.free v.full_free (sym v.same);
          same = length-set s.alloc (b / 64) _ ∙ v.same ∙ sym (length-set s.free (b / 64) _);
          few = omega (
            arith,
            length-set s.alloc (b / 64) (set (get_or s.alloc (b / 64) []) (b % 64) false),
            v.few,
          );
          hint_in = omega (
            arith,
            length-set s.alloc (b / 64) (set (get_or s.alloc (b / 64) []) (b % 64) false),
            v.hint_in,
          );
          below = ZeroBelow-set s.hint 0 s.alloc (b / 64) (b % 64) v.below;
          disjoint = λ k i. ground (arith, ba k i, bf k i, v.disjoint k i);
        };
      }

  -- `reserveBit` takes one bit out of circulation, on both sides, and no other.
  pub reserve_bit-Reserved : Reserved s (reserve_bit s b) b
  reserve_bit-Reserved = rw reserve_bit_lem reserved-Reserved

count_words-ones : (n : ℕ) → count_words (replicate n ones) ≡ n * 64
unfolding count_words popcount ones
count_words-ones zero = refl
count_words-ones (suc n) = omega (arith, count_words-ones n)

AllWords-ones : (n : ℕ) → AllWords (replicate n ones)
unfolding ones
AllWords-ones zero = tt
AllWords-ones (suc n) = (refl, AllWords-ones n)

-- After `seedAllAvailable` the bitmap is well formed, and all its bits are available.
pub seed_all_available-Inv :
    (n : ℕ)
    → n < 256
    → Inv (seed_all_available n) × (count_available (seed_all_available n) ≡ n * 64)
unfolding seed_all_available count_available
seed_all_available-Inv n few = (
  record {
    full_alloc = AllWords-ones n;
    full_free = AllWords-replicate n;
    same = length-replicate n ones ∙ sym (length-replicate n zeros);
    few = omega (arith, length-replicate n ones);
    hint_in = omega arith;
    below = ZeroBelow-of_le 0 0 (replicate n ones) (omega arith);
    disjoint = λ k i. ground (arith, bit_of-replicate n k i);
  },
  omega (arith, count_words-ones n, count_words-replicate n),
)
