-- ===== src/Core/SplitBitmap.antt =====
-- libraries/Core/include/core/atomic/SplitBitmap.h: a bitmap split into the bits that its
-- allocator CPU may claim (`alloc`) and those that any CPU has freed since (`free`).
--
-- A `uint64_t` is the list of its bits, the lowest first; a bitmap half is the list of its words.
-- Each atomic operation is one step, so a method is the sequence of its steps with no other CPU in
-- between; `UseHint` is true, as it is by default for more than one word.
pub mod Words
pub mod Claim
pub mod Drain
pub mod Available
pub mod ClaimBit
pub mod Release
pub mod Reserve
use cro_cos.Base.{
  ℕ, zero, suc, ◌+◌, ◌-◌, ◌*◌, ◌/◌, ◌%◌, ◌^◌, ◌≤◌, ◌<◌, ◌≡◌, ◌&&◌, ◌||◌, Bool, true, false, not,
  Option, none, some, ltb, leb, ◌==◌, if◌then◌else◌, List, [], ◌∷◌, replicate, length, get_or, set,
}

abbrev pub Word : Type 0
Word = List Bool

pub record SplitBitmap : Type 0 where
  pub alloc : List Word
  pub free : List Word
  pub hint : ℕ  -- uint8_t

-- `w != 0`
unfoldable pub nonzero : Word → Bool
nonzero [] = false
nonzero (b ∷ w) = b || nonzero w

-- `__builtin_ctzll(w)`, which is defined for `w != 0`.
unfoldable pub ctz : Word → ℕ
ctz [] = 0
ctz (true ∷ w) = 0
ctz (false ∷ w) = suc (ctz w)

-- `w - 1`, with the borrow running through the low zeros.
unfoldable pub minus_one : Word → Word
minus_one [] = []
minus_one (true ∷ w) = false ∷ w
minus_one (false ∷ w) = true ∷ minus_one w

unfoldable pub bits_and : Word → Word → Word
bits_and [] v = []
bits_and (a ∷ w) [] = []
bits_and (a ∷ w) (b ∷ v) = (a && b) ∷ bits_and w v

unfoldable pub bits_or : Word → Word → Word
bits_or [] v = []
bits_or (a ∷ w) [] = []
bits_or (a ∷ w) (b ∷ v) = (a || b) ∷ bits_or w v

unfoldable pub bits_not : Word → Word
bits_not [] = []
bits_not (a ∷ w) = not a ∷ bits_not w

unfoldable pub popcount : Word → ℕ
popcount [] = 0
popcount (true ∷ w) = suc (popcount w)
popcount (false ∷ w) = popcount w

unfoldable pub zeros : Word
zeros = replicate 64 false

unfoldable pub ones : Word
ones = replicate 64 true

-- `uint64_t{1} << bit` for `bit < 64`.
unfoldable pub mask : ℕ → Word
unfolding zeros
mask bit = set zeros bit true

unfoldable pub seed_all_available : ℕ → SplitBitmap
seed_all_available count = record {
  alloc = replicate count ones;
  free = replicate count zeros;
  hint = 0;
}

unfoldable pub seed_all_used : ℕ → SplitBitmap
seed_all_used count = record {
  alloc = replicate count zeros;
  free = replicate count zeros;
  hint = 0;
}

-- The hint moves on when its own word is, or becomes, empty.
abbrev pub next_hint : ℕ → ℕ → ℕ
next_hint hint w = if w == hint then (w + 1) % 256 else hint

-- The scan of `tryClaimBitNoDrain` from word `w` on: the claimed bit, the words and the hint.
-- The list is the words from `w` on.
unfoldable pub scan : ℕ → ℕ → List Word → Option ℕ × List Word × ℕ
unfolding nonzero ctz bits_and minus_one
scan w hint [] = (none, [], hint)
scan w hint (a ∷ l) =
    let rest = scan (w + 1) (next_hint hint w) l in
    let left = bits_and a (minus_one a) in
    if nonzero a
    then (some (w * 64 + ctz a), left ∷ l, if nonzero left then hint else next_hint hint w)
    else (rest.0, a ∷ rest.1, rest.2)

-- The words before the hint, which the scan skips, and those from the hint on.
unfoldable pub scan_from : ℕ → ℕ → ℕ → List Word → Option ℕ × List Word × ℕ
unfolding scan
scan_from w zero hint l = scan w hint l
scan_from w (suc k) hint [] = (none, [], hint)
scan_from w (suc k) hint (a ∷ l) =
    let rest = scan_from (w + 1) k hint l in (rest.0, a ∷ rest.1, rest.2)

unfoldable pub try_claim_bit_no_drain : SplitBitmap → Option ℕ × SplitBitmap
unfolding scan_from
try_claim_bit_no_drain s =
    let found = scan_from 0 s.hint s.hint s.alloc in
    (found.0, record s { alloc = found.1; hint = found.2 })

-- The exchange loop of `drainFreeIntoAlloc`: the new words of the allocator, and the first word
-- that had a freed bit.
unfoldable pub drain_words : ℕ → List Word → List Word → List Word × Option ℕ
unfolding nonzero bits_or
drain_words w [] f = ([], none)
drain_words w (a ∷ as') [] = (a ∷ as', none)
drain_words w (a ∷ as') (freed ∷ f) =
    let rest = drain_words (w + 1) as' f in
    if nonzero freed then (bits_or a freed ∷ rest.0, some w) else (a ∷ rest.0, rest.1)

unfoldable pub drain_free_into_alloc : SplitBitmap → Bool × SplitBitmap
unfolding drain_words
drain_free_into_alloc s =
    let drained = drain_words 0 s.alloc s.free in
    let empty = replicate (length s.free) zeros in
    elim (drained.1) [
      | none ↦ (false, record s { alloc = drained.0; free = empty })
      | some w ↦ (true, record s { alloc = drained.0; free = empty; hint = w % 256 })
    ]

unfoldable pub claim_bit : SplitBitmap → Option ℕ × SplitBitmap
unfolding try_claim_bit_no_drain drain_free_into_alloc
claim_bit s =
    let first = try_claim_bit_no_drain s in
    elim (first.0) [
      | some bit ↦ (some bit, first.1)
      | none ↦
          let drained = drain_free_into_alloc first.1 in
          if drained.0 then try_claim_bit_no_drain drained.1 else (none, drained.1)
    ]

abbrev pub word_at : List Word → ℕ → Word
word_at l w = get_or l w []

-- `none`: the assertion against a double free fails. The Boolean is `wordWasZero`.
unfoldable pub release_bit : SplitBitmap → ℕ → Option (Bool × SplitBitmap)
unfolding nonzero bits_and bits_or
release_bit s bit =
    let prev = word_at s.free (bit / 64) in
    if nonzero (bits_and prev (mask (bit % 64)))
    then none
    else some (
      not (nonzero prev),
      record s { free = set s.free (bit / 64) (bits_or prev (mask (bit % 64))) },
    )

unfoldable pub reserve_bit : SplitBitmap → ℕ → SplitBitmap
unfolding bits_and bits_not
reserve_bit s bit =
    let keep = bits_not (mask (bit % 64)) in
    record s {
      alloc = set s.alloc (bit / 64) (bits_and (word_at s.alloc (bit / 64)) keep);
      free = set s.free (bit / 64) (bits_and (word_at s.free (bit / 64)) keep);
    }

unfoldable pub flush_words : List Word → List Word → List Word × List Word
unfolding nonzero bits_or
flush_words [] f = ([], f)
flush_words (a ∷ as') [] = (a ∷ as', [])
flush_words (a ∷ as') (b ∷ f) =
    let rest = flush_words as' f in
    if nonzero a then (zeros ∷ rest.0, bits_or b a ∷ rest.1) else (a ∷ rest.0, b ∷ rest.1)

unfoldable pub flush_alloc_into_free : SplitBitmap → SplitBitmap
unfolding flush_words
flush_alloc_into_free s =
    let moved = flush_words s.alloc s.free in record { alloc = moved.0; free = moved.1; hint = 0 }

unfoldable pub is_bit_available : SplitBitmap → ℕ → Bool
unfolding nonzero bits_and
is_bit_available s bit =
    nonzero (bits_and (word_at s.alloc (bit / 64)) (mask (bit % 64)))
    || nonzero (bits_and (word_at s.free (bit / 64)) (mask (bit % 64)))

unfoldable pub count_words : List Word → ℕ
unfolding popcount
count_words [] = 0
count_words (a ∷ l) = popcount a + count_words l

unfoldable pub count_available : SplitBitmap → ℕ
unfolding count_words
count_available s = count_words s.alloc + count_words s.free

unfoldable pub alloc_side_empty : List Word → Bool
unfolding nonzero
alloc_side_empty [] = true
alloc_side_empty (a ∷ l) = not (nonzero a) && alloc_side_empty l

-- The loop of `releaseBitsBulk`: the words of the free side after it; `none`: an assertion fails.
unfoldable pub release_words : List Word → List Word → List Word → Option (List Word)
release_words (a ∷ as') (f ∷ fs) (p ∷ ps) =
    elim (nonzero p && (nonzero (bits_and a p) || nonzero (bits_and f p))) [
      | true ↦ none
      | false ↦ elim (release_words as' fs ps) [
        | none ↦ none
        | some rest ↦ some ((if nonzero p then bits_or f p else f) ∷ rest)
      ]
    ]
release_words as' fs ps = some fs

unfoldable pub release_bits_bulk : SplitBitmap → List Word → Option SplitBitmap
unfolding release_words
release_bits_bulk s pending = elim (release_words s.alloc s.free pending) [
  | none ↦ none
  | some free ↦ some (record s { free = free })
]
