-- ===== src/Core/RingBuffer/Places.antt =====
-- Where a thread stands after a claim or a slot (libraries/Core/include/core/atomic/RingBuffer.h),
-- and what a claim was granted.
use cro_cos.Base.{
  ℕ, ◌+◌, ◌^◌, ◌≤◌, ◌<◌, ◌≡◌, Bool, true, false, some, List, refl, sym, ◌∙◌, arith, inl, inr,
  lt_cases, lt→ltb, ltb_of_le,
}
use cro_cos.Base.Memory.{window}
use cro_cos.Core.RingBuffer.{
  Ring, WriteCall, Thread, Policy, all_or_nothing, as_many_as_possible, grant, waits, next_slot,
  slot_start, next_read, slot_readable,
}
use cro_cos.Core.RingBuffer.Tickets.{no_ticket}
use cro_cos.Core.RingBuffer.State.{write_ticket, read_ticket, filled, Writes, Local}
use cro_cos.Core.RingBuffer.Steps.{ticket}
use cro_cos.LibAlloc.Pointers.{sub64}

-- A claim gets no more than is available.
pub grant-le : (p : Policy) (want available n : ℕ) → grant p want available ≡ some n → n ≤ available
grant-le all_or_nothing want available n h = ground arith
grant-le as_many_as_possible want available n h = ground arith

-- The check of a write with its wrap-around: a claim of `n` positions stays within the capacity
-- beyond the head that it was checked against.
pub within_capacity :
    (capacity first limit n : ℕ)
    → first ≤ limit + capacity
    → limit + capacity < 2 ^ 64
    → n ≤ sub64 capacity (sub64 first limit)
    → first + n ≤ limit + capacity
within_capacity capacity first limit n near small h = omega arith

module _ {A : Type 0} where
  -- A thread that fills the slots of its claim from the one of index `i` on.
  pub record Filling (w : Bool) (r : Ring A) (stream : ℕ → A) (first n i : ℕ) (th : Thread A)
      : Type 0 where
    pub claim : write_ticket th ≡ ticket first n true
    pub no_read : no_ticket ≡ read_ticket th
    pub so_far : filled th ≡ i
    pub local : Local w r stream th

  slot_start-Filling :
      (w : Bool) (r : Ring A) (stream : ℕ → A) (c : WriteCall A) (first n i : ℕ) (b : Bool)
      → waits c.mode ≡ b
      → Writes w r stream c first n
      → i < n
      → Filling w r stream first n i (slot_start b c first n i)
  slot_start-Filling w r stream c first n i true e h lt = record {
    claim = refl;
    no_read = refl;
    so_far = refl;
    local = (h, lt);
  }
  slot_start-Filling w r stream c first n i false e h lt = record {
    claim = refl;
    no_read = refl;
    so_far = refl;
    local = (h, (lt, omega (arith, h.room (sym h.kind ∙ e))));
  }

  pub next_slot-Filling :
      (w : Bool) (r : Ring A) (stream : ℕ → A) (c : WriteCall A) (first n i : ℕ)
      → Writes w r stream c first n
      → i ≤ n
      → Filling w r stream first n i (next_slot c first n i)
  next_slot-Filling w r stream c first n i h le = elim (lt_cases i n) [
    | inl more ↦
        rw (lt→ltb i n more) (slot_start-Filling w r stream c first n i (waits c.mode) refl h more)
    | inr full ↦
        (let all : n ≡ i = omega arith in
          rw (ltb_of_le i n full)
            (record { claim = refl; no_read = refl; so_far = all; local = h }))
  ]

  pub record Reading (w : Bool) (r : Ring A) (stream : ℕ → A) (first n : ℕ) (th : Thread A)
      : Type 0 where
    pub claim : read_ticket th ≡ ticket first n true
    pub no_write : no_ticket ≡ write_ticket th
    pub none_filled : filled th ≡ 0
    pub local : Local w r stream th

  pub next_read-Reading :
      (w : Bool) (r : Ring A) (stream : ℕ → A) (first n i : ℕ) (out : List A)
      → i ≤ n
      → out ≡ window stream first i
      → Reading w r stream first n (next_read first n i out)
  next_read-Reading w r stream first n i out le e = elim (lt_cases i n) [
    | inl more ↦
        rw (lt→ltb i n more)
          (record { claim = refl; no_write = refl; none_filled = refl; local = (more, e) })
    | inr full ↦
        (let all : i ≡ n = omega arith in
          rw (ltb_of_le i n full)
            (record { claim = refl; no_write = refl; none_filled = refl; local = rw all at e }))
  ]

  -- A slot that may be written has been read by every read of the lap before.
  pub readable-room :
      (r : Ring A) (pos : ℕ)
      → pos < 2 ^ 64
      → 0 < r.capacity
      → slot_readable pos r ≡ true
      → pos < r.read_head + r.capacity
  readable-room r pos small some_capacity h = ground arith
