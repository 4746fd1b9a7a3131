-- ===== src/Core/SplitBitmap/Available.antt =====
-- What a client of libraries/Core/include/core/atomic/SplitBitmap.h sees: which bits are available,
-- and how many.
use cro_cos.Base.{
  ℕ, zero, suc, ◌+◌, ◌/◌, ◌%◌, ◌≤◌, ◌<◌, ◌≡◌, ◌||◌, Bool, true, false, ◌==◌, if◌then◌else◌, List,
  [], ◌∷◌, length, get_or, set, arith, ap, ◌∙◌, get_or-set,
}
use native.Mathlib.Decide.{ℕ_discrete}
use cro_cos.Core.SplitBitmap.{SplitBitmap, Word, count_available}
use cro_cos.Core.SplitBitmap.Words.{bit_at}
use cro_cos.Core.SplitBitmap.Claim.{AllWords, ZeroBelow, bit_of, Found}
use cro_cos.Core.SplitBitmap.Drain.{Disjoint}

pub record Inv (s : SplitBitmap) : Type 0 where
  pub full_alloc : AllWords s.alloc
  pub full_free : AllWords s.free
  pub same : length s.alloc ≡ length s.free
  pub few : length s.alloc < 256
  pub hint_in : s.hint ≤ length s.alloc
  pub below : ZeroBelow s.hint 0 s.alloc
  pub disjoint : Disjoint s.alloc s.free

-- Bit `i` of word `k` is available on either side.
abbrev pub available : SplitBitmap → ℕ → ℕ → Bool
available s k i = bit_of s.alloc k i || bit_of s.free k i

-- Bit `b` went from available to claimed, and nothing else changed.
pub record Claimed (s t : SplitBitmap) (b : ℕ) : Type 0 where
  pub was : available s (b / 64) (b % 64) ≡ true
  pub taken : available t (b / 64) (b % 64) ≡ false
  pub others : (k i : ℕ) → ¬ ((k ≡ b / 64) × (i ≡ b % 64)) → available t k i ≡ available s k i
  pub counted : count_available t + 1 ≡ count_available s
  pub words : length t.alloc ≡ length s.alloc
  pub inv : Inv t

pub bit_of-set :
    (l : List Word) (k k' i i' : ℕ) (v : Bool)
    → k < length l
    → i < length (get_or l k [])
    → bit_of (set l k (set (get_or l k []) i v)) k' i'
      ≡ (if k == k' then (if i == i' then v else bit_of l k' i') else bit_of l k' i')
bit_of-set l k k' i i' v hk hi = elim (ℕ_discrete k k') [
  | yes e ↦ ground (
    arith,
    ap (λ w. bit_at w i') (get_or-set l k k' (set (get_or l k []) i v) [] hk),
    get_or-set (get_or l k []) i i' v false hi,
  )
  | no ne ↦
      ground (arith, ap (λ w. bit_at w i') (get_or-set l k k' (set (get_or l k []) i v) [] hk))
]

pub length-get_or :
    (l : List Word) (k : ℕ) → AllWords l → k < length l → length (get_or l k []) ≡ 64
length-get_or [] k v h = absurd (omega arith)
length-get_or (a ∷ l) zero v h = v.0
length-get_or (a ∷ l) (suc k) v h = length-get_or l k v.1 (omega arith)

-- The words of a bitmap that has one bit fewer on the allocator's side.
module _ (s : SplitBitmap) (v : Inv s) (b hint : ℕ) (l : List Word) (f : Found 0 s.alloc l b) where
  abbrev after : SplitBitmap
  after = record s { alloc = l; hint = hint }

  after_bits :
      (k i : ℕ)
      → bit_of l k i ≡ (
          if f.word == k
          then (if b % 64 == i then false else bit_of s.alloc k i)
          else bit_of s.alloc k i)
  after_bits k i = rw f.cleared (
      bit_of-set s.alloc f.word k (b % 64) i false f.inside
        (omega (arith, length-get_or s.alloc f.word v.full_alloc f.inside)))

  word_is : f.word ≡ b / 64
  word_is = omega (arith, f.place)

  pub Claimed-after :
      AllWords l
      → hint ≤ length l
      → ZeroBelow hint 0 l
      → length l ≡ length s.alloc
      → Claimed s after b
  unfolding count_available
  Claimed-after full hint_in below same = record {
    was = ground (arith, word_is, f.was_set);
    taken =
        ground
          (arith, word_is, f.was_set, after_bits (b / 64) (b % 64), v.disjoint (b / 64) (b % 64));
    others = λ k i ne. ground (arith, word_is, after_bits k i, ne);
    counted = omega (arith, f.counted);
    words = same;
    inv = record {
      full_alloc = full;
      full_free = v.full_free;
      same = same ∙ v.same;
      few = omega (arith, v.few);
      hint_in = hint_in;
      below = below;
      disjoint = λ k i. ground (arith, after_bits k i, v.disjoint k i);
    };
  }
