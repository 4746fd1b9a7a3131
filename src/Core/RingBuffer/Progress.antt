-- ===== src/Core/RingBuffer/Progress.antt =====
-- No thread of a ring buffer (libraries/Core/include/core/atomic/RingBuffer.h) is stuck for good, if all
-- writes check against the same head: the
-- oldest claim can always be completed by its thread, if that runs alone for a while.
use cro_cos.Base.{
  ℕ, zero, suc, ◌+◌, ◌-◌, ◌%◌, ◌^◌, ◌≤◌, ◌<◌, ◌≡◌, Bool, true, false, List, [], ◌∷◌, ◌++◌, refl,
  sym, ap, ◌∙◌, arith, replicate, lt→ltb, ltb_of_le, ==_of_eq,
}
use cro_cos.Base.Memory.{write, write_same}
use cro_cos.Core.RingBuffer.{
  Ring, WriteCall, Thread, idle, load_write_head, load_limit, claim_write, wait_for_slot,
  write_slot, advance_written, write_done, load_reading_head, load_written_head, claim_read,
  read_slot, advance_read, read_done, refused, waits, System, Call, schedule, run, step, next_slot,
  slot_start, next_read, slot_readable,
}
use cro_cos.Core.RingBuffer.Tickets.{Tickets-oldest}
use cro_cos.Core.RingBuffer.State.{write_ticket, read_ticket, Local, limit-le}
use cro_cos.Core.RingBuffer.Reach.{OfKind, ShortRun, reached}
use cro_cos.Core.RingBuffer.Delivery.{after}
use cro_cos.LibAlloc.Pointers.{add64}

module _ {A : Type 0} where
  -- The ring once a thread has taken `k` steps alone.
  alone : ℕ → Thread A → Ring A → Ring A
  alone zero th r = r
  alone (suc k) th r = alone k ((step th r).0) ((step th r).1)

  run-replicate :
      (k t : ℕ) (s : System A) (th : Thread A)
      → s.threads t ≡ th
      → (run (replicate k t) s).ring ≡ alone k th s.ring
  unfolding run schedule alone
  run-replicate zero t s th e = refl
  run-replicate (suc k) t s th e =
      run-replicate k t (schedule t s) ((step th s.ring).0) (
        write_same s.threads t t ((step (s.threads t) s.ring).0) refl
        ∙ ap (λ x. (step x s.ring).0) e)
      ∙ ap (λ x. alone k ((step th s.ring).0) ((step x s.ring).1)) e

  last_read :
      (first n : ℕ) (out : List A) (r : Ring A)
      → r.read_head ≡ first
      → first + n < 2 ^ 64
      → ((step (advance_read first n out) r).1).read_head ≡ first + n
  unfolding step
  last_read first n out r at small =
      let sum : add64 first n ≡ first + n = omega (arith, small) in
      rw (==_of_eq r.read_head first at) sum

  last_write :
      (first n : ℕ) (c : WriteCall A) (r : Ring A)
      → r.written_head ≡ first
      → first + n < 2 ^ 64
      → ((step (advance_written c first n) r).1).written_head ≡ first + n
  unfolding step
  last_write first n c r at small =
      let sum : add64 first n ≡ first + n = omega (arith, small) in
      rw (==_of_eq r.written_head first at) sum

  -- A read needs a step for each slot that is left, and one for the read head.
  finish_read :
      (k first n i : ℕ) (out : List A) (r : Ring A)
      → i + k ≡ n
      → r.read_head ≡ first
      → first + n < 2 ^ 64
      → (alone (suc k) (next_read first n i out) r).read_head ≡ first + n
  unfolding alone step
  finish_read zero first n i out r left at small =
      rw (ltb_of_le i n (omega (arith, left))) (last_read first n out r at small)
  finish_read (suc k) first n i out r left at small = rw (lt→ltb i n (omega (arith, left))) (
      finish_read k first n (i + 1) (out ++ r.buffer (add64 first i % r.capacity) ∷ []) r
        (omega (arith, left)) at small)

  oldest_read :
      (r : Ring A) (w : Bool) (stream : ℕ → A) (th : Thread A)
      → Local w r stream th
      → (read_ticket th).pending ≡ true
      → (read_ticket th).first ≡ r.read_head
      → 0 < (read_ticket th).count
      → (read_ticket th).first + (read_ticket th).count < 2 ^ 64
      → (k : ℕ) × (r.read_head < (alone k th r).read_head)
  oldest_read r w stream (read_slot first n i out) h p at some_left small =
      let done : (alone (suc (n - i)) (next_read first n i out) r).read_head ≡ first + n =
        finish_read (n - i) first n i out r (omega (arith, h.0)) (sym at) small in
      (suc (n - i), omega (arith, at, some_left, rw (lt→ltb i n h.0) at done))
  oldest_read r w stream (advance_read first n out) h p at some_left small =
      let done : (alone 1 (next_read first n n out) r).read_head ≡ first + n =
        finish_read 0 first n n out r (omega arith) (sym at) small in
      (1, omega (arith, at, some_left, rw (ltb_of_le n n (omega arith)) at done))
  oldest_read r w stream idle h p at some_left small = cc
  oldest_read r w stream (load_write_head c) h p at some_left small = cc
  oldest_read r w stream (load_limit c first) h p at some_left small = cc
  oldest_read r w stream (claim_write c first n) h p at some_left small = cc
  oldest_read r w stream (wait_for_slot c first n i) h p at some_left small = cc
  oldest_read r w stream (write_slot c first n i) h p at some_left small = cc
  oldest_read r w stream (advance_written c first n) h p at some_left small = cc
  oldest_read r w stream (write_done c first n) h p at some_left small = cc
  oldest_read r w stream (load_reading_head q want) h p at some_left small = cc
  oldest_read r w stream (load_written_head q want first) h p at some_left small = cc
  oldest_read r w stream (claim_read q want first n) h p at some_left small = cc
  oldest_read r w stream (read_done first n out) h p at some_left small = cc
  oldest_read r w stream refused h p at some_left small = cc

  ready :
      (r : Ring A) (pos : ℕ)
      → pos < r.read_head + r.capacity
      → r.read_head + r.capacity < 2 ^ 64
      → slot_readable pos r ≡ true
  ready r pos room small = ground arith

  past_wait :
      (c : WriteCall A) (first n i : ℕ) (r : Ring A)
      → slot_readable (add64 first i) r ≡ true
      → step (wait_for_slot c first n i) r ≡ (write_slot c first n i, r)
  unfolding step
  past_wait c first n i r free = rw free refl

  -- A write needs one or two steps for each slot, if no read holds it, and one for the written head.
  finish_write :
      (k first n i : ℕ) (c : WriteCall A) (r : Ring A)
      → i + k ≡ n
      → r.written_head ≡ first
      → first + n ≤ r.read_head + r.capacity
      → r.read_head + r.capacity < 2 ^ 64
      → (j : ℕ) × ((alone j (next_slot c first n i) r).written_head ≡ first + n)
  unfolding alone step
  finish_write zero first n i c r left at room small = (
    1,
    rw (ltb_of_le i n (omega (arith, left)))
        (last_write first n c r at (omega (arith, small, room))),
  )
  finish_write (suc k) first n i c r left at room small =
      let r' : Ring A = record r {
        buffer = write r.buffer (add64 first i % r.capacity) (c.items i);
      } in
      let (j, done) = finish_write k first n (i + 1) c r' (omega (arith, left)) at room small in
      let sum : add64 first i ≡ first + i = omega (arith, small, room, left) in
      rw (lt→ltb i n (omega (arith, left))) (
        through_slot (waits c.mode) j done
          (rw sum (ready r (first + i) (omega (arith, room, left)) small)))
    where
      through_slot :
          (b : Bool) (j : ℕ)
          → (alone j (next_slot c first n (i + 1)) (record r {
            buffer = write r.buffer (add64 first i % r.capacity) (c.items i);
          })).written_head
            ≡ first + n
          → slot_readable (add64 first i) r ≡ true
          → (j' : ℕ) × ((alone j' (slot_start b c first n i) r).written_head ≡ first + n)
      through_slot true j done free = (
        suc (suc j),
        ap (λ x. (alone (suc j) x.0 x.1).written_head) (past_wait c first n i r free) ∙ done,
      )
      through_slot false j done free = (suc j, done)

  -- From the store to a slot of its claim on.
  finish_slot :
      (first n i : ℕ) (c : WriteCall A) (r : Ring A)
      → i < n
      → r.written_head ≡ first
      → first + n ≤ r.read_head + r.capacity
      → r.read_head + r.capacity < 2 ^ 64
      → (j : ℕ) × ((alone j (write_slot c first n i) r).written_head ≡ first + n)
  unfolding alone step
  finish_slot first n i c r lt at room small =
      let r' : Ring A = record r {
        buffer = write r.buffer (add64 first i % r.capacity) (c.items i);
      } in
      let (j, done) =
        finish_write (n - (i + 1)) first n (i + 1) c r' (omega (arith, lt)) at room small in
      (suc j, done)

  oldest_write :
      (r : Ring A) (w : Bool) (stream : ℕ → A) (th : Thread A)
      → Local w r stream th
      → (write_ticket th).pending ≡ true
      → (write_ticket th).first ≡ r.written_head
      → 0 < (write_ticket th).count
      → (write_ticket th).first + (write_ticket th).count ≤ r.read_head + r.capacity
      → r.read_head + r.capacity < 2 ^ 64
      → (k : ℕ) × (r.written_head < (alone k th r).written_head)
  unfolding alone step
  oldest_write r w stream (wait_for_slot c first n i) h p at some_left room small =
      let (j, done) = finish_slot first n i c r h.1 (sym at) room small in
      let sum : add64 first i ≡ first + i = omega (arith, small, room, h.1) in
      let free : slot_readable (add64 first i) r ≡ true =
        rw sum (ready r (first + i) (omega (arith, room, h.1)) small) in
      let passed : (alone (suc j) (wait_for_slot c first n i) r).written_head ≡ first + n =
        ap (λ x. (alone j x.0 x.1).written_head) (past_wait c first n i r free) ∙ done in
      (suc j, omega (arith, at, some_left, passed))
  oldest_write r w stream (write_slot c first n i) h p at some_left room small =
      let (j, done) = finish_slot first n i c r h.1.0 (sym at) room small in
      (j, omega (arith, at, some_left, done))
  oldest_write r w stream (advance_written c first n) h p at some_left room small =
      let done : ((step (advance_written c first n) r).1).written_head ≡ first + n =
        last_write first n c r (sym at) (omega (arith, small, room)) in
      (1, omega (arith, at, some_left, done))
  oldest_write r w stream idle h p at some_left room small = cc
  oldest_write r w stream (load_write_head c) h p at some_left room small = cc
  oldest_write r w stream (load_limit c first) h p at some_left room small = cc
  oldest_write r w stream (claim_write c first n) h p at some_left room small = cc
  oldest_write r w stream (write_done c first n) h p at some_left room small = cc
  oldest_write r w stream (load_reading_head q want) h p at some_left room small = cc
  oldest_write r w stream (load_written_head q want first) h p at some_left room small = cc
  oldest_write r w stream (claim_read q want first n) h p at some_left room small = cc
  oldest_write r w stream (read_slot first n i out) h p at some_left room small = cc
  oldest_write r w stream (advance_read first n out) h p at some_left room small = cc
  oldest_write r w stream (read_done first n out) h p at some_left room small = cc
  oldest_write r w stream refused h p at some_left room small = cc

  module _ (w : Bool) (storage : ℕ → A) (capacity : ℕ) (calls : ℕ → Call A)
      (some_capacity : 0 < capacity) (kind : OfKind w calls) (ts : List ℕ)
      (short : ShortRun capacity ts) where
    -- In a ring of a capacity above 0, whose writes all check against `readingHead` or all against
    -- `readHead` (`bulkWrite` is not mixed with the other writes), after a run of so few steps that
    -- one more than their number, times the capacity, is below 2 ^ 64: while a read is not complete, some thread completes one if it
    -- runs alone for a while. Once all reads are complete, while a write is not published, some thread
    -- publishes one if it runs alone for a while.
    pub some_thread_advances :
        let s : System A = after storage capacity calls ts in
        (s.ring.read_head < s.ring.reading_head
          → (t : ℕ) × (k : ℕ) × (s.ring.read_head < (run (replicate k t) s).ring.read_head))
        × (s.ring.read_head ≡ s.ring.reading_head
            → s.ring.written_head < s.ring.write_head
            → (t : ℕ) × (k : ℕ) × (s.ring.written_head < (run (replicate k t) s).ring.written_head))
    some_thread_advances =
        let s : System A = after storage capacity calls ts in
        let (stream, v, small) = reached w storage capacity calls some_capacity kind ts short in
        (
          λ open_read.
              let (t, pending, at, some_left) =
                Tickets-oldest (λ u. read_ticket (s.threads u)) s.ring.read_head s.ring.reading_head
                  v.reads open_read in
              let (k, up) =
                oldest_read s.ring w stream (s.threads t) (v.locals t) pending at some_left
                  (omega (arith, v.reads.bounded t, v.behind, v.writes.ordered, small)) in
              (t, k, rw (run-replicate k t s (s.threads t) refl) up),
          λ read open_write.
              let (t, pending, at, some_left) =
                Tickets-oldest (λ u. write_ticket (s.threads u)) s.ring.written_head
                  s.ring.write_head v.writes open_write in
              let (k, up) =
                oldest_write s.ring w stream (s.threads t) (v.locals t) pending at some_left
                  (omega
                    (arith, read, v.writes.bounded t, v.within, limit-le w s.ring v.reads.ordered))
                  (omega (arith, read, v.behind, v.writes.ordered, small)) in
              (t, k, rw (run-replicate k t s (s.threads t) refl) up),
        )
