-- ===== src/LibAlloc/Slab/Bits.antt =====
-- The bitmap of free slots: what `markSlotFreeState` writes is what `isSlotFree` reads.
use cro_cos.Base.{
  ◌+◌, ◌≤◌, ℕ, zero, suc, ◌/◌, ◌%◌, ◌<◌, ◌≡◌, ◌&&◌, Bool, true, false, not, refl, sym,
  if◌then◌else◌, ◌==◌, arith, ltb,
}
use cro_cos.LibAlloc.Slab.{
  Slab, slot_index, mark_slot_free_state, is_slot_free, mark_byte, test_byte,
}

-- A test of every number of `2 ^ k` numbers in a row, by halves.
width : ℕ → ℕ
width zero = 1
width (suc k) = width k + width k

every_from : ℕ → ℕ → (ℕ → Bool) → Bool
unfolding width
every_from zero start test = test start
every_from (suc k) start test = every_from k start test && every_from k (start + width k) test

every_from-holds :
    (k start : ℕ) (test : ℕ → Bool) (i : ℕ)
    → every_from k start test ≡ true
    → start ≤ i
    → i < start + width k
    → test i ≡ true
unfolding every_from width
every_from-holds zero start test i checked from to =
    let here : i ≡ start = omega arith in rw here checked
every_from-holds (suc k) start test i checked from to =
    ground (arith, every_from-holds k start test i, every_from-holds k (start + width k) test i)

same : Bool → Bool → Bool
same true b = b
same false b = not b

same_sound : (a b : Bool) → same a b ≡ true → a ≡ b
unfolding same
same_sound true b h = sym h
same_sound false true h = h
same_sound false false h = refl

-- What one entry says, for a byte, the marked bit and the bit read.
entry : Bool → ℕ → ℕ → ℕ → Bool
entry v byte bit other =
    same (test_byte (mark_byte byte bit v) other) (if bit == other then v else test_byte byte other)
    && ltb (mark_byte byte bit v) 256

table_of_byte : Bool → ℕ → Bool
unfolding entry every_from
table_of_byte v byte = every_from 3 0 (λ bit. every_from 3 0 (λ other. entry v byte bit other))

table-checked : (v : Bool) → every_from 8 0 (table_of_byte v) ≡ true
unfolding every_from width table_of_byte entry same mark_byte test_byte
table-checked true = refl
table-checked false = refl

module _ (v : Bool) (byte bit other : ℕ) (hb : byte < 256) (hi : bit < 8) (ho : other < 8) where
  byte_checked : table_of_byte v byte ≡ true
  unfolding width
  byte_checked =
      every_from-holds 8 0 (table_of_byte v) byte (table-checked v) (omega arith) (omega arith)

  bit_checked : every_from 3 0 (entry v byte bit) ≡ true
  unfolding table_of_byte width
  bit_checked =
      every_from-holds 3 0 (λ i. every_from 3 0 (entry v byte i)) bit byte_checked (omega arith)
        (omega arith)

  entry_checked : entry v byte bit other ≡ true
  unfolding width
  entry_checked =
      every_from-holds 3 0 (entry v byte bit) other bit_checked (omega arith) (omega arith)

  pub test_byte-mark_byte :
      test_byte (mark_byte byte bit v) other ≡ (if bit == other then v else test_byte byte other)
  unfolding entry
  test_byte-mark_byte = same_sound _ _ (ground (arith, entry_checked))

  pub mark_byte-lt : mark_byte byte bit v < 256
  unfolding entry
  mark_byte-lt = ground (arith, entry_checked)

same_slot : (i j : ℕ) → (i / 8 ≡ j / 8) → (i % 8 ≡ j % 8) → i ≡ j
same_slot i j a b = omega arith

-- Marking the slot of `p` changes what is read of that slot, and of no other slot of the bitmap.
pub is_slot_free-mark_slot_free_state :
    (s : Slab) (p q : ℕ) (v : Bool)
    → ((byte : ℕ) → s.free_list byte < 256)
    → is_slot_free (mark_slot_free_state s p v) q
      ≡ (if slot_index s p == slot_index s q then v else is_slot_free s q)
unfolding is_slot_free mark_slot_free_state
is_slot_free-mark_slot_free_state s p q v bytes =
    let i : ℕ = slot_index s p in
    let j : ℕ = slot_index s q in
    ground (
      arith,
      test_byte-mark_byte v (s.free_list (i / 8)) (i % 8) (j % 8) (bytes (i / 8)) (omega arith)
          (omega arith),
      same_slot i j,
    )
