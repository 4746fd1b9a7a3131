-- ===== src/Core/RingBuffer.antt =====
-- libraries/Core/include/core/atomic/RingBuffer.h: `MPMCRingBuffer` without generation counters
-- (`ScanOnComplete = false`), and the threads that are inside its operations.
--
-- A thread's state is the place in the code where it stands, with its local variables; a step is one
-- atomic operation on a head or one access to a slot, in the order that the code has them. A
-- `write_call` is `bulkWrite`, `tryBulkWrite` or `bulkWriteBestEffort`, by its mode. Memory is
-- sequentially consistent here.
pub mod Tickets
pub mod State
pub mod Moves
pub mod Steps
pub mod Places
pub mod Runs
pub mod Reach
pub mod Delivery
pub mod Progress
pub mod Overrun
use cro_cos.Base.{
  ℕ, ◌+◌, ◌-◌, ◌%◌, ◌<◌, Bool, true, false, Option, none, some, List, [], ◌∷◌, ◌++◌, ltb, leb, ◌==◌,
  if◌then◌else◌, min,
}
use cro_cos.Base.Memory.{write}
use cro_cos.LibAlloc.Pointers.{add64, sub64}

pub record Ring {ℓ} (A : Type ℓ) : Type ℓ where
  pub buffer : ℕ → A
  pub capacity : ℕ
  pub write_head : ℕ
  pub written_head : ℕ
  pub reading_head : ℕ
  pub read_head : ℕ

-- `bulkWrite`, `tryBulkWrite` and `bulkWriteBestEffort`.
pub data WriteMode : Type 0 where
  waiting : WriteMode
  immediate : WriteMode
  best_effort : WriteMode

-- What a claim does where fewer positions are available than wanted.
pub data Policy : Type 0 where
  all_or_nothing : Policy
  as_many_as_possible : Policy

-- Whether a mode checks against `readingHead`, and waits for each slot.
abbrev pub waits : WriteMode → Bool
waits waiting = true
waits immediate = false
waits best_effort = false

abbrev pub policy : WriteMode → Policy
policy waiting = all_or_nothing
policy immediate = all_or_nothing
policy best_effort = as_many_as_possible

-- The callback writes `items i` to the slot of index `i`.
pub record WriteCall {ℓ} (A : Type ℓ) : Type ℓ where
  pub mode : WriteMode
  pub want : ℕ
  pub items : ℕ → A

pub data Thread {ℓ} (A : Type ℓ) : Type ℓ where
  idle : Thread A
  load_write_head : WriteCall A → Thread A
  load_limit : WriteCall A → ℕ → Thread A
  claim_write : WriteCall A → ℕ → ℕ → Thread A
  wait_for_slot : WriteCall A → ℕ → ℕ → ℕ → Thread A
  write_slot : WriteCall A → ℕ → ℕ → ℕ → Thread A
  advance_written : WriteCall A → ℕ → ℕ → Thread A
  write_done : WriteCall A → ℕ → ℕ → Thread A
  load_reading_head : Policy → ℕ → Thread A
  load_written_head : Policy → ℕ → ℕ → Thread A
  claim_read : Policy → ℕ → ℕ → ℕ → Thread A
  read_slot : ℕ → ℕ → ℕ → List A → Thread A
  advance_read : ℕ → ℕ → List A → Thread A
  read_done : ℕ → ℕ → List A → Thread A
  refused : Thread A

-- How many of the wanted positions a claim asks for, if it does not give up.
abbrev pub grant : Policy → ℕ → ℕ → Option ℕ
grant all_or_nothing want available = if ltb available want then none else some want
grant as_many_as_possible want available =
    if min want available == 0 then none else some (min want available)

-- `advanceCompletionHead`, one round: whether it returns, and the head after it.
abbrev pub advance_completion_head : ℕ → ℕ → ℕ → Bool × ℕ
advance_completion_head head expected desired =
    if head == expected then (true, desired) else (leb desired head, head)

module _ {ℓ} {A : Type ℓ} where
  abbrev pub limit : Bool → Ring A → ℕ
  limit true r = r.reading_head
  limit false r = r.read_head

  -- Where a write stands before the slot of index `i`.
  abbrev pub slot_start : Bool → WriteCall A → ℕ → ℕ → ℕ → Thread A
  slot_start true c claimed count i = wait_for_slot c claimed count i
  slot_start false c claimed count i = write_slot c claimed count i

  abbrev pub next_slot : WriteCall A → ℕ → ℕ → ℕ → Thread A
  next_slot c claimed count i =
      if ltb i count
      then slot_start (waits c.mode) c claimed count i
      else advance_written c claimed count

  abbrev pub next_read : ℕ → ℕ → ℕ → List A → Thread A
  next_read claimed count i out =
      if ltb i count then read_slot claimed count i out else advance_read claimed count out

  abbrev pub write_granted : WriteCall A → ℕ → Option ℕ → Thread A
  write_granted c claimed none = refused
  write_granted c claimed (some count) = claim_write c claimed count

  abbrev pub read_granted : Policy → ℕ → ℕ → Option ℕ → Thread A
  read_granted p want claimed none = refused
  read_granted p want claimed (some count) = claim_read p want claimed count

  -- The two outcomes of the compare-and-exchange of a claim.
  abbrev pub try_claim_write : Bool → WriteCall A → ℕ → ℕ → Ring A → Thread A × Ring A
  try_claim_write true c claimed count r =
      (next_slot c claimed count 0, record r { write_head = add64 claimed count })
  try_claim_write false c claimed count r = (load_write_head c, r)

  abbrev pub try_claim_read : Bool → Policy → ℕ → ℕ → ℕ → Ring A → Thread A × Ring A
  try_claim_read true p want claimed count r =
      (next_read claimed count 0 [], record r { reading_head = add64 claimed count })
  try_claim_read false p want claimed count r = (load_reading_head p want, r)

  -- `waitForSlotReadable`, one round.
  abbrev pub slot_readable : ℕ → Ring A → Bool
  slot_readable pos r =
      if ltb pos r.capacity then true else leb (add64 (sub64 pos r.capacity) 1) r.read_head

  abbrev pub publish : Bool × ℕ → WriteCall A → ℕ → ℕ → Ring A → Thread A × Ring A
  publish (true, head) c claimed count r =
      (write_done c claimed count, record r { written_head = head })
  publish (false, head) c claimed count r =
      (advance_written c claimed count, record r { written_head = head })

  abbrev pub complete : Bool × ℕ → ℕ → ℕ → List A → Ring A → Thread A × Ring A
  complete (true, head) claimed count out r =
      (read_done claimed count out, record r { read_head = head })
  complete (false, head) claimed count out r =
      (advance_read claimed count out, record r { read_head = head })

  unfoldable pub step : Thread A → Ring A → Thread A × Ring A
  step idle r = (idle, r)
  step (load_write_head c) r = (load_limit c r.write_head, r)
  step (load_limit c claimed) r = (
    write_granted c claimed
        (grant (policy c.mode) c.want (sub64 r.capacity (sub64 claimed (limit (waits c.mode) r)))),
    r,
  )
  step (claim_write c claimed count) r = try_claim_write (r.write_head == claimed) c claimed count r
  step (wait_for_slot c claimed count i) r = (
    if slot_readable (add64 claimed i) r
        then write_slot c claimed count i
        else wait_for_slot c claimed count i,
    r,
  )
  step (write_slot c claimed count i) r = (
    next_slot c claimed count (i + 1),
    record r { buffer = write r.buffer (add64 claimed i % r.capacity) (c.items i) },
  )
  step (advance_written c claimed count) r =
      publish (advance_completion_head r.written_head claimed (add64 claimed count)) c claimed count
        r
  step (write_done c claimed count) r = (write_done c claimed count, r)
  step (load_reading_head p want) r = (load_written_head p want r.reading_head, r)
  step (load_written_head p want claimed) r =
      (read_granted p want claimed (grant p want (sub64 r.written_head claimed)), r)
  step (claim_read p want claimed count) r =
      try_claim_read (r.reading_head == claimed) p want claimed count r
  step (read_slot claimed count i out) r =
      (next_read claimed count (i + 1) (out ++ r.buffer (add64 claimed i % r.capacity) ∷ []), r)
  step (advance_read claimed count out) r =
      complete (advance_completion_head r.read_head claimed (add64 claimed count)) claimed count out
        r
  step (read_done claimed count out) r = (read_done claimed count out, r)
  step refused r = (refused, r)

  -- The constructor for an owned buffer; the storage comes from outside.
  abbrev pub new_ring : (ℕ → A) → ℕ → Ring A
  new_ring storage capacity = record {
    buffer = storage;
    capacity = capacity;
    write_head = 0;
    written_head = 0;
    reading_head = 0;
    read_head = 0;
  }

  unfoldable pub available_to_write : Ring A → ℕ
  available_to_write r = sub64 r.capacity (sub64 r.write_head r.read_head)

  unfoldable pub available_to_read : Ring A → ℕ
  available_to_read r = sub64 r.written_head r.reading_head

  unfoldable pub is_empty : Ring A → Bool
  unfolding available_to_read
  is_empty r = available_to_read r == 0

  unfoldable pub is_full : Ring A → Bool
  unfolding available_to_write
  is_full r = available_to_write r == 0

  unfoldable pub clear : Ring A → Ring A
  clear r = record r { reading_head = r.written_head; read_head = r.written_head }

-- A ring with every thread that uses it.
pub record System {ℓ} (A : Type ℓ) : Type ℓ where
  pub ring : Ring A
  pub threads : ℕ → Thread A

-- What a thread is asked to do: the threads are calls, and each makes one.
pub data Call {ℓ} (A : Type ℓ) : Type ℓ where
  no_call : Call A
  write_call : WriteCall A → Call A
  read_call : Policy → ℕ → Call A

module _ {ℓ} {A : Type ℓ} where
  abbrev pub begin : Call A → Thread A
  begin no_call = idle
  begin (write_call c) = load_write_head c
  begin (read_call p want) = load_reading_head p want

  abbrev pub start : (ℕ → A) → ℕ → (ℕ → Call A) → System A
  start storage capacity calls = record {
    ring = new_ring storage capacity;
    threads = λ t. begin (calls t);
  }

  unfoldable pub schedule : ℕ → System A → System A
  schedule t s = record {
    ring = (step (s.threads t) s.ring).1;
    threads = write s.threads t ((step (s.threads t) s.ring).0);
  }

  -- The threads that take the steps, in their order.
  unfoldable pub run : List ℕ → System A → System A
  run [] s = s
  run (t ∷ ts) s = run ts (schedule t s)
