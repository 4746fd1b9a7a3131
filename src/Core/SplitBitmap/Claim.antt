-- ===== src/Core/SplitBitmap/Claim.antt =====
-- The scan of `tryClaimBitNoDrain` (libraries/Core/include/core/atomic/SplitBitmap.h) against a
-- scan of every word, without a hint.
use cro_cos.Base.{
  ℕ, zero, suc, ◌+◌, ◌*◌, ◌/◌, ◌%◌, ◌≤◌, ◌<◌, ◌≡◌, Bool, true, false, Option, none, some,
  if◌then◌else◌, List, [], ◌∷◌, length, get_or, set, refl, arith, Bool-cases, inl, inr, length-set,
  ◌∙◌, ap,
}
use cro_cos.Core.SplitBitmap.{
  Word, nonzero, ctz, minus_one, bits_and, scan, scan_from, next_hint, count_words, popcount,
}
use cro_cos.Core.SplitBitmap.Words.{
  bit_at, clear_lowest, ctz-bit_at, popcount_clear_lowest, popcount_of_zero,
}

-- The first bit that is set, from word `w` on, and the words without it.
unfoldable pub find : ℕ → List Word → Option ℕ × List Word
unfolding nonzero ctz
find w [] = (none, [])
find w (a ∷ l) =
    let rest = find (w + 1) l in
    if nonzero a then (some (w * 64 + ctz a), set a (ctz a) false ∷ l) else (rest.0, a ∷ rest.1)

-- The words with an index below the hint are 0; the list holds the words from `w` on.
abbrev pub ZeroBelow : ℕ → ℕ → List Word → Type 0
ZeroBelow h w [] = Unit
ZeroBelow h w (a ∷ l) = (w < h → nonzero a ≡ false) × ZeroBelow h (w + 1) l

abbrev pub AllWords : List Word → Type 0
AllWords [] = Unit
AllWords (a ∷ l) = (length a ≡ 64) × AllWords l

pub ZeroBelow-of_le : (h w : ℕ) (l : List Word) → h ≤ w → ZeroBelow h w l
ZeroBelow-of_le h w [] le = tt
ZeroBelow-of_le h w (a ∷ l) le =
    (λ lt. absurd (omega arith), ZeroBelow-of_le h (w + 1) l (omega arith))

-- What a scan with the hint gives.
pub record Scanned (w : ℕ) (l : List Word) (r : Option ℕ × List Word × ℕ) : Type 0 where
  pub found : r.0 ≡ (find w l).0
  pub words : r.1 ≡ (find w l).1
  pub from : w ≤ r.2
  pub to : r.2 ≤ w + length l
  pub below : ZeroBelow r.2 w r.1

next_hint_self : (w : ℕ) → w + 1 < 256 → next_hint w w ≡ w + 1
next_hint_self w h = ground arith

-- The two cases of a word that has a bit, with what is left of it.
scan-Scanned_here :
    (w : ℕ) (a left : Word) (l : List Word)
    → w + 1 < 256
    → left ≡ set a (ctz a) false
    → nonzero a ≡ true
    → Scanned w (a ∷ l) (some (w * 64 + ctz a), left ∷ l, if nonzero left then w else next_hint w w)
unfolding find
scan-Scanned_here w a left l h e some_bit = elim (Bool-cases (nonzero left)) [
  | inl more ↦ rw more (record {
    found = rw (some_bit, find);
    words = rw (some_bit, find) (ap (λ x. x ∷ l) e);
    from = omega arith;
    to = omega arith;
    below = ZeroBelow-of_le w w (left ∷ l) (omega arith);
  })
  | inr last ↦
      rw (last, next_hint_self w h)
        (record {
          found = rw (some_bit, find);
          words = rw (some_bit, find) (ap (λ x. x ∷ l) e);
          from = omega arith;
          to = omega arith;
          below = (λ lt. last, ZeroBelow-of_le (w + 1) (w + 1) l (omega arith));
        })
]

scan-Scanned_later :
    (w : ℕ) (a : Word) (l : List Word) (r : Option ℕ × List Word × ℕ)
    → nonzero a ≡ false
    → Scanned (w + 1) l r
    → Scanned w (a ∷ l) (r.0, a ∷ r.1, r.2)
unfolding find
scan-Scanned_later w a l r no_bit v = record {
  found = rw (no_bit, find) v.found;
  words = rw (no_bit, find) (ap (◌∷◌ a) v.words);
  from = omega (arith, v.from);
  to = omega (arith, v.to);
  below = (λ lt. no_bit, v.below);
}

scan-Scanned : (w : ℕ) (l : List Word) → w + length l < 256 → Scanned w l (scan w w l)
unfolding scan find
scan-Scanned w [] h = record {
  found = refl;
  words = refl;
  from = omega arith;
  to = omega arith;
  below = tt;
}
scan-Scanned w (a ∷ l) h = elim (Bool-cases (nonzero a)) [
  | inl some_bit ↦
      rw (some_bit, scan)
        (scan-Scanned_here w a (bits_and a (minus_one a)) l (omega arith) (clear_lowest a) some_bit)
  | inr no_bit ↦
      rw (no_bit, scan)
        (rw (next_hint_self w (omega arith)) (
          scan-Scanned_later w a l (scan (w + 1) (w + 1) l) no_bit
            (scan-Scanned (w + 1) l (omega arith))))
]

pub scan_from-Scanned :
    (w k h : ℕ) (l : List Word)
    → w + k ≡ h
    → k ≤ length l
    → w + length l < 256
    → ZeroBelow h w l
    → Scanned w l (scan_from w k h l)
unfolding scan_from
scan_from-Scanned w zero h l e le few z =
    let e' : h ≡ w = omega arith in rw e' (scan-Scanned w l few)
scan_from-Scanned w (suc k) h [] e le few z = absurd (omega arith)
scan_from-Scanned w (suc k) h (a ∷ l) e le few z =
    scan-Scanned_later w a l (scan_from (w + 1) k h l) (z.0 (omega arith))
      (scan_from-Scanned (w + 1) k h l (omega arith) (omega arith) (omega arith) z.1)

pub length-find : (w : ℕ) (l : List Word) → length (find w l).1 ≡ length l
unfolding find
length-find w [] = refl
length-find w (a ∷ l) = ground (arith, length-find (w + 1) l)

pub find-AllWords : (w : ℕ) (l : List Word) → AllWords l → AllWords (find w l).1
unfolding find
find-AllWords w [] v = tt
find-AllWords w (a ∷ l) v = elim (Bool-cases (nonzero a)) [
  | inl e ↦ rw (e, find) (length-set a (ctz a) false ∙ v.0, v.1)
  | inr e ↦ rw (e, find) (v.0, find-AllWords (w + 1) l v.1)
]

-- The bit `i` of word `k`.
abbrev pub bit_of : List Word → ℕ → ℕ → Bool
bit_of l k i = bit_at (get_or l k []) i

-- Where the scan finds a bit it was set, and the scan clears this bit alone.
pub record Found (w : ℕ) (l l' : List Word) (b : ℕ) : Type 0 where
  pub word : ℕ
  pub place : word + w ≡ b / 64
  pub was_set : bit_of l word (b % 64) ≡ true
  pub cleared : l' ≡ set l word (set (get_or l word []) (b % 64) false)
  pub inside : word < length l
  pub counted : count_words l' + 1 ≡ count_words l

popcount-set-ctz : (a : Word) → nonzero a ≡ true → popcount (set a (ctz a) false) + 1 ≡ popcount a
popcount-set-ctz a e = rw (← clear_lowest a) (popcount_clear_lowest a e)

Found-here :
    (w : ℕ) (a : Word) (l : List Word) (b : ℕ)
    → length a ≡ 64
    → nonzero a ≡ true
    → w * 64 + ctz a ≡ b
    → Found w (a ∷ l) (set a (ctz a) false ∷ l) b
unfolding count_words
Found-here w a l b full e place =
    let (set_there, lt) = ctz-bit_at a e in
    let i : b % 64 ≡ ctz a = omega arith in
    record {
      word = 0;
      place = omega arith;
      was_set = rw i set_there;
      cleared = rw i;
      inside = omega arith;
      counted = omega (arith, popcount-set-ctz a e);
    }

Found-later :
    (w : ℕ) (a : Word) (l l' : List Word) (b : ℕ)
    → Found (w + 1) l l' b
    → Found w (a ∷ l) (a ∷ l') b
unfolding count_words
Found-later w a l l' b f = record {
  word = suc f.word;
  place = omega (arith, f.place);
  was_set = f.was_set;
  cleared = ap (◌∷◌ a) f.cleared;
  inside = omega (arith, f.inside);
  counted = omega (arith, f.counted);
}

pub find-Found :
    (w : ℕ) (l : List Word) (b : ℕ) → AllWords l → (find w l).0 ≡ some b → Found w l (find w l).1 b
unfolding find
find-Found w [] b v h = cc
find-Found w (a ∷ l) b v h = elim (Bool-cases (nonzero a)) [
  | inl e ↦ rw (e, find) (Found-here w a l b v.0 e (ground arith))
  | inr e ↦ rw (e, find) (Found-later w a l _ b (find-Found (w + 1) l b v.1 (rw (e, find) at h)))
]

pub find-none :
    (w : ℕ) (l : List Word) → (find w l).0 ≡ none → ((find w l).1 ≡ l) × (count_words l ≡ 0)
unfolding find count_words
find-none w [] h = (refl, refl)
find-none w (a ∷ l) h = elim (Bool-cases (nonzero a)) [
  | inl e ↦ absurd (ground arith)
  | inr e ↦ ground (arith, find-none (w + 1) l, popcount_of_zero a e)
]
