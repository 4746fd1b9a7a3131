-- ===== src/Core/RingBuffer/Reach.antt =====
-- Every interleaving of the threads of a ring buffer (libraries/Core/include/core/atomic/RingBuffer.h)
-- from an empty ring on keeps the ring in order.
use cro_cos.Base.{ℕ, suc, ◌+◌, ◌*◌, ◌^◌, ◌<◌, ◌≡◌, Bool, List, [], ◌∷◌, refl, ◌∙◌, arith, length}
use cro_cos.Core.RingBuffer.{
  Ring, WriteCall, waits, System, Call, no_call, write_call, read_call, begin, start, new_ring,
  schedule, run, step,
}
use cro_cos.Core.RingBuffer.Tickets.{Ticket, no_ticket, Tickets}
use cro_cos.Core.RingBuffer.State.{write_ticket, read_ticket, filled, Local, Inv}
use cro_cos.Core.RingBuffer.Runs.{Stepped, step-Stepped}

-- A run of so many steps claims fewer than 2 ^ 64 positions.
abbrev pub ShortRun : ℕ → List ℕ → Type 0
ShortRun capacity ts = (length ts + 1) * capacity < 2 ^ 64

no-Tickets : (of : ℕ → Ticket) → ((t : ℕ) → of t ≡ no_ticket) → Tickets of 0 0
no-Tickets of empty = record {
  ordered = omega arith;
  bounded = λ t. rw (empty t) (omega arith);
  apart = λ t u p a b. absurd (omega (arith, rw (empty t) at a));
  covered = λ p lt. absurd (omega (arith, lt));
  waiting = λ t _ lt. absurd (omega (arith, rw (empty t) at lt));
  passed = λ t _. rw (empty t) (omega arith);
}

module _ {A : Type 0} where
  -- All writes that are asked for check against `readingHead` (`w` is true), or all of them check
  -- against `readHead`.
  abbrev pub OfKind : Bool → (ℕ → Call A) → Type 0
  OfKind w calls = (t : ℕ) (c : WriteCall A) → calls t ≡ write_call c → waits c.mode ≡ w

  begin_write : (c : Call A) → write_ticket (begin c) ≡ no_ticket
  begin_write no_call = refl
  begin_write (write_call c) = refl
  begin_write (read_call p want) = refl

  begin_read : (c : Call A) → read_ticket (begin c) ≡ no_ticket
  begin_read no_call = refl
  begin_read (write_call c) = refl
  begin_read (read_call p want) = refl

  begin_filled : (c : Call A) → filled (begin c) ≡ 0
  begin_filled no_call = refl
  begin_filled (write_call c) = refl
  begin_filled (read_call p want) = refl

  begin-Local :
      (w : Bool) (r : Ring A) (stream : ℕ → A) (call : Call A)
      → ((c : WriteCall A) → call ≡ write_call c → waits c.mode ≡ w)
      → Local w r stream (begin call)
  begin-Local w r stream no_call h = tt
  begin-Local w r stream (write_call c) h = h c refl
  begin-Local w r stream (read_call p want) h = tt

  module _ (w : Bool) (storage : ℕ → A) (capacity : ℕ) (calls : ℕ → Call A)
      (some_capacity : 0 < capacity) (kind : OfKind w calls) where
    start-Inv :
        Inv w storage (start storage capacity calls).ring (start storage capacity calls).threads
    start-Inv = record {
      some_capacity = some_capacity;
      writes = no-Tickets (λ t. write_ticket (begin (calls t))) (λ t. begin_write (calls t));
      reads = no-Tickets (λ t. read_ticket (begin (calls t))) (λ t. begin_read (calls t));
      behind = omega arith;
      within = omega arith;
      locals = λ t. begin-Local w (new_ring storage capacity) storage (calls t) (kind t);
      stored = λ p low high. absurd (omega (arith, high));
      kept = λ t p low high. absurd (
          omega (
            arith,
            rw (begin_write (calls t)) at low,
            rw (begin_write (calls t), begin_filled (calls t)) at high,
          ));
    }

    run-Inv :
        (ts : List ℕ) (s : System A) (stream : ℕ → A)
        → Inv w stream s.ring s.threads
        → s.ring.capacity ≡ capacity
        → s.ring.write_head + (length ts + 1) * capacity < 2 ^ 64
        → (stream' : ℕ → A) × Inv w stream' (run ts s).ring (run ts s).threads
          × ((run ts s).ring.write_head + (run ts s).ring.capacity < 2 ^ 64)
    unfolding run schedule
    run-Inv [] s stream v same small = (stream, v, omega (arith, small, same))
    run-Inv (t ∷ ts) s stream v same small =
        let more : (suc (length ts) + 1) * capacity ≡ (length ts + 1) * capacity + capacity =
          grind arith in
        let next : Stepped w s.ring s.threads t (step (s.threads t) s.ring) =
          step-Stepped w stream s.ring s.threads v (omega (arith, small, more, same)) t
            (s.threads t) refl in
        run-Inv ts (schedule t s) next.stream next.inv (next.capacity_kept ∙ same)
          (omega (arith, next.not_far, small, more, same))

    -- Whatever its threads have done, the ring is in order, and its heads have not wrapped.
    pub reached :
        (ts : List ℕ)
        → ShortRun capacity ts
        → (stream : ℕ → A) × Inv w stream
            (run ts (start storage capacity calls)).ring
            (run ts (start storage capacity calls)).threads
          × ((run ts (start storage capacity calls)).ring.write_head
                + (run ts (start storage capacity calls)).ring.capacity
              < 2 ^ 64)
    reached ts short =
        run-Inv ts (start storage capacity calls) storage start-Inv refl (omega (arith, short))
