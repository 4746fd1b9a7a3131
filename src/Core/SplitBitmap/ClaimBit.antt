-- ===== src/Core/SplitBitmap/ClaimBit.antt =====
-- `claimBit` and `releaseBit` (libraries/Core/include/core/atomic/SplitBitmap.h) on the bits that
-- are available.
use cro_cos.Base.{
  ℕ, zero, suc, ◌+◌, ◌/◌, ◌%◌, ◌≡◌, ◌||◌, false, Option, none, some, if◌then◌else◌, List, replicate,
  length, refl, arith, ap, sym, Option-cases, inl, inr, ◌∙◌, length-replicate,
}
use mathlib.Core.Path.{subst}
use cro_cos.Core.SplitBitmap.{
  SplitBitmap, Word, nonzero, zeros, count_words, popcount, try_claim_bit_no_drain,
  drain_free_into_alloc, claim_bit, count_available, drain_words, scan_from,
}
use cro_cos.Core.SplitBitmap.Words.{bit_at, bit_at_of_zero}
use cro_cos.Core.SplitBitmap.Claim.{
  AllWords, bit_of, Found, find-Found, find-none, find-AllWords, length-find, Scanned,
  scan_from-Scanned,
}
use cro_cos.Core.SplitBitmap.Drain.{ZeroBelow-of_none, Drained, drain_words-Drained}
use cro_cos.Core.SplitBitmap.Available.{Inv, available, Claimed, Claimed-after}

-- What a claim may return, with the state that it leaves.
abbrev pub ClaimResult : SplitBitmap → Option ℕ → SplitBitmap → Type 0
ClaimResult s none t =
    (count_available s ≡ 0) × (count_available t ≡ 0) × (length t.alloc ≡ length s.alloc) × Inv t
ClaimResult s (some b) t = Claimed s t b

module _ (s : SplitBitmap) (v : Inv s) where
  abbrev scanned : Option ℕ × List Word × ℕ
  scanned = scan_from 0 s.hint s.hint s.alloc

  scan : Scanned 0 s.alloc scanned
  scan =
      scan_from-Scanned 0 s.hint s.hint s.alloc (omega arith) v.hint_in (omega (arith, v.few))
        v.below

  abbrev tried : SplitBitmap
  tried = record s { alloc = scanned.1; hint = scanned.2 }

  tried_length : length scanned.1 ≡ length s.alloc
  tried_length = ap length scan.words ∙ length-find 0 s.alloc

  -- A bit that the scan returns is claimed.
  tried-Claimed : (b : ℕ) → scanned.0 ≡ some b → Claimed s tried b
  tried-Claimed b h =
      Claimed-after s v b scanned.2 scanned.1
        (subst (λ l. Found 0 s.alloc l b) (sym scan.words)
          (find-Found 0 s.alloc b v.full_alloc (sym scan.found ∙ h)))
        (subst AllWords (sym scan.words) (find-AllWords 0 s.alloc v.full_alloc))
        (omega (arith, tried_length, scan.to)) scan.below tried_length

  -- A scan that returns nothing has found every word to be 0, and leaves them.
  tried-none : scanned.0 ≡ none → (count_words s.alloc ≡ 0) × (scanned.1 ≡ s.alloc) × Inv tried
  tried-none h =
      let (same, empty) = find-none 0 s.alloc (sym scan.found ∙ h) in
      let e : scanned.1 ≡ s.alloc = scan.words ∙ same in
      (
        empty,
        e,
        record {
          full_alloc = rw e v.full_alloc;
          full_free = v.full_free;
          same = ap length e ∙ v.same;
          few = omega (arith, ap length e, v.few);
          hint_in = omega (arith, ap length e, scan.to);
          below = scan.below;
          disjoint = rw e v.disjoint;
        },
      )

pub AllWords-replicate : (n : ℕ) → AllWords (replicate n zeros)
unfolding zeros
AllWords-replicate zero = tt
AllWords-replicate (suc n) = (refl, AllWords-replicate n)

zeros_bit : (i : ℕ) → bit_at zeros i ≡ false
unfolding nonzero zeros
zeros_bit i = bit_at_of_zero zeros i refl

pub bit_of-replicate : (n k i : ℕ) → bit_of (replicate n zeros) k i ≡ false
bit_of-replicate zero k i = refl
bit_of-replicate (suc n) zero i = zeros_bit i
bit_of-replicate (suc n) (suc k) i = bit_of-replicate n k i

pub count_words-replicate : (n : ℕ) → count_words (replicate n zeros) ≡ 0
unfolding count_words popcount zeros
count_words-replicate zero = refl
count_words-replicate (suc n) = omega (arith, count_words-replicate n)

-- The drain of a bitmap whose allocator's side is empty.
module _ (s : SplitBitmap) (v : Inv s) (empty : count_words s.alloc ≡ 0) where
  abbrev moved : List Word × Option ℕ
  moved = drain_words 0 s.alloc s.free

  moves : Drained 0 s.alloc s.free moved
  moves = drain_words-Drained 0 s.alloc s.free v.full_alloc v.full_free v.same v.disjoint

  abbrev drained : ℕ → SplitBitmap
  drained h = record s { alloc = moved.0; free = replicate (length s.free) zeros; hint = h % 256 }

  drained_bits : (h k i : ℕ) → available (drained h) k i ≡ available s k i
  drained_bits h k i = ground (arith, moves.bits k i, bit_of-replicate (length s.free) k i)

  drained_count : (h : ℕ) → count_available (drained h) ≡ count_available s
  unfolding count_available
  drained_count h = omega (arith, moves.counted, count_words-replicate (length s.free))

  drained-Inv : (h : ℕ) → moved.1 ≡ some h → Inv (drained h)
  drained-Inv h q =
      let (lt, pos, below) = moves.first h q in
      let e : h % 256 ≡ h = omega (arith, v.few) in
      record {
        full_alloc = moves.full;
        full_free = AllWords-replicate (length s.free);
        same = moves.same ∙ v.same ∙ sym (length-replicate (length s.free) zeros);
        few = omega (arith, moves.same, v.few);
        hint_in = omega (arith, moves.same);
        below = rw e (below empty);
        disjoint = λ k i. ground (arith, bit_of-replicate (length s.free) k i);
      }

  missed-Inv :
      moved.1 ≡ none → Inv (record s { alloc = moved.0; free = replicate (length s.free) zeros })
  missed-Inv q = record {
    full_alloc = moves.full;
    full_free = AllWords-replicate (length s.free);
    same = moves.same ∙ v.same ∙ sym (length-replicate (length s.free) zeros);
    few = omega (arith, moves.same, v.few);
    hint_in = omega (arith, moves.same, v.hint_in);
    below = ZeroBelow-of_none s.hint 0 moved.0 (omega (arith, moves.counted, moves.nothing q));
    disjoint = λ k i. ground (arith, bit_of-replicate (length s.free) k i);
  }

-- A claim from a state with the same bits is a claim from this one.
Claimed-from :
    (s u t : SplitBitmap) (b : ℕ)
    → ((k i : ℕ) → available u k i ≡ available s k i)
    → count_available u ≡ count_available s
    → length u.alloc ≡ length s.alloc
    → Claimed u t b
    → Claimed s t b
Claimed-from s u t b bits count words c = record {
  was = sym (bits (b / 64) (b % 64)) ∙ c.was;
  taken = c.taken;
  others = λ k i ne. c.others k i ne ∙ bits k i;
  counted = c.counted ∙ count;
  words = c.words ∙ words;
  inv = c.inv;
}

ClaimResult-from :
    (s u : SplitBitmap) (o : Option ℕ) (t : SplitBitmap)
    → ((k i : ℕ) → available u k i ≡ available s k i)
    → count_available u ≡ count_available s
    → length u.alloc ≡ length s.alloc
    → ClaimResult u o t
    → ClaimResult s o t
ClaimResult-from s u none t bits count words (a, b, c, v) = (sym count ∙ a, b, c ∙ words, v)
ClaimResult-from s u (some b) t bits count words c = Claimed-from s u t b bits count words c

-- The second attempt, after a drain that found something.
second_try :
    (s : SplitBitmap) (v : Inv s) (empty : count_words s.alloc ≡ 0) (h : ℕ)
    → (moved s v empty).1 ≡ some h
    → let r = try_claim_bit_no_drain (drained s v empty h) in ClaimResult s r.0 r.1
unfolding try_claim_bit_no_drain
second_try s v empty h q =
    let u = drained s v empty h in
    let vu = drained-Inv s v empty h q in
    elim (Option-cases ((scanned u vu).0)) [
      | inl nothing ↦ absurd (
          omega (
            arith,
            (tried-none u vu nothing).0,
            (moves s v empty).counted,
            ((moves s v empty).first h q).1,
          ))
      | inr (b, found) ↦ rw found (
          Claimed-from s u (tried u vu) b (drained_bits s v empty h) (drained_count s v empty h)
            (moves s v empty).same (tried-Claimed u vu b found))
    ]

-- The drain after a scan that found nothing.
after_miss :
    (s : SplitBitmap) (v : Inv s) (empty : count_words s.alloc ≡ 0)
    → let d = drain_free_into_alloc s in
      let r = if d.0 then try_claim_bit_no_drain d.1 else (none, d.1) in ClaimResult s r.0 r.1
unfolding drain_free_into_alloc count_available
after_miss s v empty = elim (Option-cases ((moved s v empty).1)) [
  | inl nothing ↦
      rw (nothing, drain_free_into_alloc)
        (
          omega (arith, (moves s v empty).nothing nothing),
          omega (
            arith,
            (moves s v empty).nothing nothing,
            (moves s v empty).counted,
            count_words-replicate (length s.free),
          ),
          (moves s v empty).same,
          missed-Inv s v empty nothing,
        )
  | inr (h, q) ↦ rw (q, drain_free_into_alloc) (second_try s v empty h q)
]

-- `claimBit` returns a bit exactly if one is available on either side. The bit that it returns was
-- available and no longer is, every other bit is as available as before, the number of available
-- bits falls by one, and the bitmap stays well formed.
pub claim_bit-ClaimResult :
    (s : SplitBitmap) → Inv s → ClaimResult s (claim_bit s).0 (claim_bit s).1
unfolding claim_bit try_claim_bit_no_drain count_available
claim_bit-ClaimResult s v = elim (Option-cases ((scanned s v).0)) [
  | inl nothing ↦
      rw (nothing, claim_bit)
        (let (empty, same, vt) = tried-none s v nothing in
          ClaimResult-from s (tried s v) _ _
            (λ k i. ap (λ l. bit_of l k i || bit_of s.free k i) same)
            (ap (λ l. count_words l + count_words s.free) same) (ap length same)
            (after_miss (tried s v) vt (ap count_words same ∙ empty)))
  | inr (b, found) ↦ rw (found, claim_bit) (tried-Claimed s v b found)
]
