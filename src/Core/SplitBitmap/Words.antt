-- ===== src/Core/SplitBitmap/Words.antt =====
-- Words of libraries/Core/include/core/atomic/SplitBitmap.h, bit by bit.
use cro_cos.Base.{
  ℕ, zero, suc, ◌+◌, ◌<◌, ◌≡◌, ◌&&◌, ◌||◌, Bool, true, false, [], ◌∷◌, length, get_or, set, refl,
  arith, ap,
}
use cro_cos.Core.SplitBitmap.{Word, nonzero, ctz, minus_one, bits_and, bits_or, popcount}

-- Bit `i` of a word.
abbrev pub bit_at : Word → ℕ → Bool
bit_at w i = get_or w i false

-- `w & w`, as the upper part of `w & (w - 1)`.
bits_and_self : (w : Word) → bits_and w w ≡ w
unfolding bits_and
bits_and_self [] = refl
bits_and_self (true ∷ w) = ap (◌∷◌ true) (bits_and_self w)
bits_and_self (false ∷ w) = ap (◌∷◌ false) (bits_and_self w)

-- `w & (w - 1)` clears the bit that `ctz` finds, and no other.
pub clear_lowest : (w : Word) → bits_and w (minus_one w) ≡ set w (ctz w) false
unfolding bits_and minus_one ctz
clear_lowest [] = refl
clear_lowest (true ∷ w) = ap (◌∷◌ false) (bits_and_self w)
clear_lowest (false ∷ w) = ap (◌∷◌ false) (clear_lowest w)

-- `ctz` of a word that is not 0 finds a bit that is set, within the word.
pub ctz-bit_at : (w : Word) → nonzero w ≡ true → (bit_at w (ctz w) ≡ true) × (ctz w < length w)
unfolding nonzero ctz
ctz-bit_at [] h = cc
ctz-bit_at (true ∷ w) h = (refl, omega arith)
ctz-bit_at (false ∷ w) h = let (a, b) = ctz-bit_at w h in (a, omega arith)

-- Every bit below is clear.
pub ctz_lowest : (w : Word) (i : ℕ) → i < ctz w → bit_at w i ≡ false
unfolding ctz
ctz_lowest [] i h = refl
ctz_lowest (true ∷ w) i h = absurd (omega arith)
ctz_lowest (false ∷ w) zero h = refl
ctz_lowest (false ∷ w) (suc i) h = ctz_lowest w i (omega arith)

pub bit_at_of_zero : (w : Word) (i : ℕ) → nonzero w ≡ false → bit_at w i ≡ false
unfolding nonzero
bit_at_of_zero [] i h = refl
bit_at_of_zero (true ∷ w) i h = cc
bit_at_of_zero (false ∷ w) zero h = refl
bit_at_of_zero (false ∷ w) (suc i) h = bit_at_of_zero w i h

pub nonzero_of_bit : (w : Word) (i : ℕ) → bit_at w i ≡ true → nonzero w ≡ true
unfolding nonzero
nonzero_of_bit [] i h = cc
nonzero_of_bit (true ∷ w) i h = refl
nonzero_of_bit (false ∷ w) zero h = cc
nonzero_of_bit (false ∷ w) (suc i) h = nonzero_of_bit w i h

pub bit_at-bits_or :
    (w v : Word) (i : ℕ) → length w ≡ length v → bit_at (bits_or w v) i ≡ (bit_at w i || bit_at v i)
unfolding bits_or
bit_at-bits_or [] [] i h = refl
bit_at-bits_or [] (b ∷ v) i h = absurd (omega arith)
bit_at-bits_or (a ∷ w) [] i h = absurd (omega arith)
bit_at-bits_or (a ∷ w) (b ∷ v) zero h = refl
bit_at-bits_or (a ∷ w) (b ∷ v) (suc i) h = bit_at-bits_or w v i (omega arith)

pub bit_at-bits_and :
    (w v : Word) (i : ℕ)
    → length w ≡ length v
    → bit_at (bits_and w v) i ≡ (bit_at w i && bit_at v i)
unfolding bits_and
bit_at-bits_and [] [] i h = refl
bit_at-bits_and [] (b ∷ v) i h = absurd (omega arith)
bit_at-bits_and (a ∷ w) [] i h = absurd (omega arith)
bit_at-bits_and (a ∷ w) (b ∷ v) zero h = refl
bit_at-bits_and (a ∷ w) (b ∷ v) (suc i) h = bit_at-bits_and w v i (omega arith)

pub length-bits_or : (w v : Word) → length w ≡ length v → length (bits_or w v) ≡ length w
unfolding bits_or
length-bits_or [] [] h = refl
length-bits_or [] (b ∷ v) h = refl
length-bits_or (a ∷ w) [] h = absurd (omega arith)
length-bits_or (a ∷ w) (b ∷ v) h = omega (arith, length-bits_or w v (omega arith))

-- Two disjoint words have as many bits together as apart.
pub popcount-bits_or :
    (w v : Word)
    → length w ≡ length v
    → nonzero (bits_and w v) ≡ false
    → popcount (bits_or w v) ≡ popcount w + popcount v
unfolding bits_or bits_and nonzero popcount
popcount-bits_or [] [] h d = refl
popcount-bits_or [] (b ∷ v) h d = absurd (omega arith)
popcount-bits_or (a ∷ w) [] h d = absurd (omega arith)
popcount-bits_or (true ∷ w) (true ∷ v) h d = cc
popcount-bits_or (true ∷ w) (false ∷ v) h d = omega (arith, popcount-bits_or w v (omega arith) d)
popcount-bits_or (false ∷ w) (true ∷ v) h d = omega (arith, popcount-bits_or w v (omega arith) d)
popcount-bits_or (false ∷ w) (false ∷ v) h d = omega (arith, popcount-bits_or w v (omega arith) d)

pub popcount_clear_lowest :
    (w : Word) → nonzero w ≡ true → popcount (bits_and w (minus_one w)) + 1 ≡ popcount w
unfolding bits_and minus_one nonzero popcount
popcount_clear_lowest [] h = cc
popcount_clear_lowest (true ∷ w) h = rw (bits_and_self w) (omega arith)
popcount_clear_lowest (false ∷ w) h = popcount_clear_lowest w h

pub popcount_of_zero : (w : Word) → nonzero w ≡ false → popcount w ≡ 0
unfolding nonzero popcount
popcount_of_zero [] h = refl
popcount_of_zero (true ∷ w) h = cc
popcount_of_zero (false ∷ w) h = popcount_of_zero w h
