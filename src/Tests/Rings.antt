-- ===== src/Tests/Rings.antt =====
-- The theorems on libraries/Core/include/core/atomic/RingBuffer.h at runs of a ring of two slots.
use cro_cos.Base.{
  ℕ, zero, suc, ◌+◌, ◌≤◌, ◌<◌, ◌≡◌, true, false, some, List, [], ◌∷◌, ◌++◌, refl, arith, length,
  get_elem?, replicate,
}
use cro_cos.Core.RingBuffer.{
  WriteCall, waiting, all_or_nothing, write_slot, read_done, System, Call, no_call, write_call,
  read_call, run, is_full, limit, schedule, step,
}
use cro_cos.Core.RingBuffer.Tickets.{Claims}
use cro_cos.Core.RingBuffer.State.{write_ticket, read_ticket}
use cro_cos.Core.RingBuffer.Reach.{OfKind}
use cro_cos.Core.RingBuffer.Delivery.{after, WrittenAt, read-Delivered, Claims-Once}
use cro_cos.Core.RingBuffer.Progress.{some_thread_advances}
use cro_cos.Core.RingBuffer.Overrun.{try_call, try_write-overruns}

-- Threads 0 and 2 call `bulkWrite` of two items, thread 1 reads two.
abbrev two_items : ℕ → WriteCall ℕ
two_items base = record { mode = waiting; want = 2; items = λ i. base + i }

abbrev waiting_calls : ℕ → Call ℕ
waiting_calls zero = write_call (two_items 10)
waiting_calls (suc zero) = read_call all_or_nothing 2
waiting_calls (suc (suc zero)) = write_call (two_items 20)
waiting_calls (suc (suc (suc t))) = no_call

waiting_calls-OfKind : OfKind true waiting_calls
waiting_calls-OfKind zero c e = ground arith
waiting_calls-OfKind (suc zero) c e = cc
waiting_calls-OfKind (suc (suc zero)) c e = ground arith
waiting_calls-OfKind (suc (suc (suc t))) c e = cc

-- The first write returns; the read takes its claim and the first item, the second write takes its
-- claim and is stopped at its first slot; then the read returns.
abbrev in_turns : List ℕ
in_turns = replicate 8 0 ++ 1 ∷ 1 ∷ 1 ∷ 1 ∷ 2 ∷ 2 ∷ 2 ∷ 2 ∷ 1 ∷ 1 ∷ []

abbrev two_slots : System ℕ
two_slots = after (λ _. 0) 2 waiting_calls in_turns

abbrev both : List ℕ
both = 10 ∷ 11 ∷ []

read_back : two_slots.threads 1 ≡ read_done 0 2 both
unfolding run schedule step
read_back = refl

read-Delivered_example :
    (length both ≡ 2)
    × ((i : ℕ)
        → i < 2
        → (item : ℕ) × (get_elem? both i ≡ some item) × WrittenAt two_slots (0 + i) item)
read-Delivered_example =
    read-Delivered true (λ _. 0) 2 waiting_calls (omega arith) waiting_calls-OfKind in_turns
      (omega arith) 1 0 2 both read_back

Claims-Once_example :
    ((t u p : ℕ)
      → Claims (write_ticket (two_slots.threads t)) p
      → Claims (write_ticket (two_slots.threads u)) p
      → t ≡ u)
    × ((t u p : ℕ)
        → Claims (read_ticket (two_slots.threads t)) p
        → Claims (read_ticket (two_slots.threads u)) p
        → t ≡ u)
    × ((p : ℕ)
        → p < two_slots.ring.write_head
        → (t : ℕ) × Claims (write_ticket (two_slots.threads t)) p)
    × ((p : ℕ)
        → p < two_slots.ring.reading_head
        → (t : ℕ) × Claims (read_ticket (two_slots.threads t)) p)
    × (two_slots.ring.read_head ≤ two_slots.ring.reading_head)
    × (two_slots.ring.reading_head ≤ two_slots.ring.written_head)
    × (two_slots.ring.written_head ≤ two_slots.ring.write_head)
    × (two_slots.ring.write_head ≤ limit true two_slots.ring + two_slots.ring.capacity)
Claims-Once_example =
    Claims-Once true (λ _. 0) 2 waiting_calls (omega arith) waiting_calls-OfKind in_turns
      (omega arith)

-- Stopped before the read returns.
abbrev halfway : List ℕ
halfway = replicate 8 0 ++ 1 ∷ 1 ∷ 1 ∷ 1 ∷ 2 ∷ 2 ∷ 2 ∷ 2 ∷ []

abbrev half_read : System ℕ
half_read = after (λ _. 0) 2 waiting_calls halfway

some_thread_advances_example :
    (half_read.ring.read_head < half_read.ring.reading_head
      → (t : ℕ) × (k : ℕ) × (half_read.ring.read_head
          < (run (replicate k t) half_read).ring.read_head))
    × (half_read.ring.read_head ≡ half_read.ring.reading_head
        → half_read.ring.written_head < half_read.ring.write_head
        → (t : ℕ) × (k : ℕ) × (half_read.ring.written_head
            < (run (replicate k t) half_read).ring.written_head))
some_thread_advances_example =
    some_thread_advances true (λ _. 0) 2 waiting_calls (omega arith) waiting_calls-OfKind halfway
      (omega arith)

-- The same threads, and thread 3 calls `tryBulkWrite` of one item.
abbrev mixed_calls : ℕ → Call ℕ
mixed_calls zero = write_call (two_items 10)
mixed_calls (suc zero) = read_call all_or_nothing 2
mixed_calls (suc (suc zero)) = write_call (two_items 20)
mixed_calls (suc (suc (suc t))) = write_call (try_call 1 (λ _. 99))

abbrev claimed_ahead : System ℕ
claimed_ahead = after (λ _. 0) 2 mixed_calls (replicate 8 0 ++ 1 ∷ 1 ∷ 1 ∷ 2 ∷ 2 ∷ 2 ∷ [])

try_write-overruns_example :
    ((run (3 ∷ 3 ∷ 3 ∷ []) claimed_ahead).ring.write_head ≡ claimed_ahead.ring.write_head + 1)
    × ((run (3 ∷ 3 ∷ 3 ∷ []) claimed_ahead).threads 3
        ≡ write_slot (try_call 1 (λ _. 99)) claimed_ahead.ring.write_head 1 0)
    × (is_full claimed_ahead.ring ≡ false)
unfolding run schedule step
try_write-overruns_example =
    try_write-overruns claimed_ahead 3 1 (λ _. 99) refl (omega arith) (omega arith) (omega arith)

-- Then the read, which had claimed both slots, returns the item in place of the one written there.
wrong_item :
    (run (3 ∷ 3 ∷ 3 ∷ 3 ∷ 1 ∷ 1 ∷ 1 ∷ []) claimed_ahead).threads 1 ≡ read_done 0 2 (99 ∷ 11 ∷ [])
unfolding run schedule step
wrong_item = refl
